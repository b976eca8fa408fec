-- ===== src/Daemon/Sessions/Stream.antt =====
-- The output of a session, from the terminal at the daemon to the reader at the controller.
use sand_d.Prelude.{
  ℕ, String, Bool, true, none, some, List, [], ◌∷◌, ◌++◌, ◌≡◌, ◌≢◌, refl, Bytes, All, ap, ◌∙◌,
  append_assoc, append-nil, sym, get_elem?-set_self,
}
use sand_d.Prelude.Dict.{lookup, lookup-remove_self}
use sand_d.Protocol.{Message}
use sand_d.Server.Connection
use sand_d.Server.Connection.{DaemonConnection, send_session_output}
use sand_d.Server.Registry
use sand_d.Server.Handler.{World, handle_daemon_message, with_conn, receive_all}
use sand_d.Server.Handler.Laws.{IsReachable}
use sand_d.Daemon.Sessions.{PtyRead, bytes, read_loop, output_message, exit_message}

-- The reads of a terminal that yields some pieces and ends, with every write succeeding.
abbrev pub whole_run : List Bytes → List (PtyRead × Bool)
whole_run [] = (bytes [], true) ∷ []
whole_run (c ∷ cs) = (bytes c, true) ∷ whole_run cs

abbrev pub tagged : ℕ → List Bytes → List (ℕ × Bytes)
tagged tx [] = []
tagged tx (c ∷ cs) = (tx, c) ∷ tagged tx cs

output_arrives :
    (now : ℕ) (id session_id : String) (socket_tx : ℕ) (c : Bytes) (w : World) {arc tx : ℕ}
    {conn : DaemonConnection}
    → IsReachable w id arc conn
    → lookup session_id conn.sessions ≡ some tx
    → (handle_daemon_message now (output_message session_id c) (some id) socket_tx w).world
      ≡ record w { outputs = w.outputs ++ (tx, c) ∷ [] }
unfolding handle_daemon_message with_conn send_session_output
output_arrives now id session_id socket_tx c w r known =
    rw (with_conn, r.entry, r.found, send_session_output, known) refl

exit_arrives :
    (now : ℕ) (id session_id : String) (socket_tx : ℕ) (w : World) {arc : ℕ}
    {conn : DaemonConnection}
    → IsReachable w id arc conn
    → (handle_daemon_message now (exit_message session_id) (some id) socket_tx w).world
      ≡ record w { registry = Registry.modify arc (Connection.close_session session_id) w.registry }
unfolding handle_daemon_message with_conn
exit_arrives now id session_id socket_tx w r = rw (with_conn, r.entry, r.found) refl

module _ (print : Message → String) where
  stream_from :
      (now : ℕ) (id session_id : String) (socket_tx : ℕ) (cs : List Bytes) (w : World) {arc tx : ℕ}
      {conn : DaemonConnection}
      → All (λ c. c ≢ []) cs
      → IsReachable w id arc conn
      → lookup session_id conn.sessions ≡ some tx
      → receive_all now id socket_tx (read_loop (λ m. some (print m)) session_id (whole_run cs)) w
        ≡ record w {
          outputs = w.outputs ++ tagged tx cs;
          registry = Registry.modify arc (Connection.close_session session_id) w.registry;
        }
  unfolding read_loop
  stream_from now id session_id socket_tx [] w {arc} {tx} {conn} full r known =
      exit_arrives now id session_id socket_tx w r
      ∙ ap
          (λ o. record w {
            outputs = o;
            registry = Registry.modify arc (Connection.close_session session_id) w.registry;
          })
          (sym (append-nil w.outputs))
  stream_from now id session_id socket_tx ([] ∷ cs) w full r known = absurd (full.0 refl)
  stream_from now id session_id socket_tx ((b ∷ bs) ∷ cs) w {arc} {tx} {conn} full r known =
      let w1 : World = record w { outputs = w.outputs ++ (tx, b ∷ bs) ∷ [] } in
      let r1 : IsReachable w1 id arc conn = record { entry = r.entry; found = r.found } in
      ap (receive_all now id socket_tx (read_loop (λ m. some (print m)) session_id (whole_run cs)))
        (output_arrives now id session_id socket_tx (b ∷ bs) w r known)
      ∙ stream_from now id session_id socket_tx cs w1 full.1 r1 known
      ∙ ap
          (λ o. record w {
            outputs = o;
            registry = Registry.modify arc (Connection.close_session session_id) w.registry;
          })
          (append_assoc w.outputs ((tx, b ∷ bs) ∷ []) (tagged tx cs))

  -- What a terminal yields until it ends, with every write succeeding, reaches the reader that the
  -- controller registered for the session, piece by piece and in order, and nobody else; then the
  -- controller's connection no longer knows the session.
  pub read_loop-outputs :
      (now : ℕ) (id session_id : String) (socket_tx : ℕ) (cs : List Bytes) (w : World) {arc tx : ℕ}
      {conn : DaemonConnection}
      → All (λ c. c ≢ []) cs
      → IsReachable w id arc conn
      → lookup session_id conn.sessions ≡ some tx
      → let w' =
          receive_all now id socket_tx
            (read_loop (λ m. some (print m)) session_id (whole_run cs))
            w in
        (w'.outputs ≡ w.outputs ++ tagged tx cs)
        × (w'.delivered ≡ w.delivered)
        × IsReachable w' id arc (Connection.close_session session_id conn)
        × (send_session_output session_id (Connection.close_session session_id conn) ≡ none)
  unfolding send_session_output Connection.close_session Registry.modify Registry.get
  read_loop-outputs now id session_id socket_tx cs w {arc} {tx} {conn} full r known =
      rw (stream_from now id session_id socket_tx cs w {arc = arc} {conn = conn} full r known) (
        refl,
        refl,
        record {
          entry = r.entry;
          found = rw r.found (
              get_elem?-set_self w.registry.heap arc (Connection.close_session session_id conn)
                r.found);
        },
        lookup-remove_self session_id conn.sessions,
      )
