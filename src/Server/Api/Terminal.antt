-- ===== src/Server/Api/Terminal.antt =====
-- An interactive session from Python, with the daemon's own handler at the other end.
use sand_d.Prelude.{
  ℕ, String, Bool, true, false, Option, none, some, List, [], ◌∷◌, ◌++◌, ◌≡◌, refl, Bytes, ap,
}
use sand_d.Prelude.Dict.{lookup-insert_self}
use sand_d.Protocol.{Message}
use sand_d.Server.Connection
use sand_d.Server.Connection.{DaemonConnection, register_session}
use sand_d.Server.Handler.Laws.{IsReachable}
use sand_d.Server.Api.{returned, Controller, on_conn}
use sand_d.Server.Api.Sessions.{Session, new_session, send_to, write}
use sand_d.Server.Api.EndToEnd.{
  newest, newest-push, find_conn-IsReachable, on_conn-IsReachable, send_message-open, sent_on,
}
use sand_d.Snapshot.Types.{SnapshotError, Encoding}
use sand_d.Snapshot.ObjectStore.{Blake3}
use sand_d.Snapshot.Workspace.{Meta}
use sand_d.Daemon.Sessions.Laws.{IsOpening, new_session_iff}
use sand_d.Daemon.Messages.{
  Daemon, Environment, Handled, handle_message, handle_session, respond_all, send_all,
  started_message,
}

abbrev pub session_of : (id session_id : String) (tx : ℕ) → Session
session_of id session_id tx = record { session_id = session_id; daemon_id = id; output_rx = tx }

new_session-sent :
    (id : String) (rows cols : ℕ) (term session_id : String) (tx : ℕ) (s : Controller) {arc : ℕ}
    {c : DaemonConnection}
    → IsReachable s.world id arc c
    → s.is_closed c.request_tx ≡ false
    → new_session id rows cols term session_id tx s ≡ (
      returned (session_of id session_id tx),
      sent_on c.request_tx
          (Message.new_session session_id rows cols term)
          (on_conn arc (register_session session_id tx) s),
    )
unfolding new_session
new_session-sent id rows cols term session_id tx s {arc} {c} reach opened =
    rw
      (
        new_session,
        find_conn-IsReachable s id reach,
        send_message-open c (Message.new_session session_id rows cols term)
            (on_conn arc (register_session session_id tx) s) opened,
      )
      refl

send_to-sent :
    (context : String) (session : Session) (m : Message) (s : Controller) {arc : ℕ}
    {c : DaemonConnection}
    → IsReachable s.world session.daemon_id arc c
    → s.is_closed c.request_tx ≡ false
    → send_to context session m s ≡ (returned tt, sent_on c.request_tx m s)
unfolding send_to
send_to-sent context session m s {arc} {c} reach opened =
    rw (send_to, find_conn-IsReachable s session.daemon_id reach, send_message-open c m s opened)
      refl

-- A daemon ignores `Pong`.
abbrev or_pong : Option Message → Message
or_pong none = Message.pong
or_pong (some m) = m

module _ (print : Message → String) (show : SnapshotError → String) (E : Encoding)
    (trim : String → String) (B : Blake3) (reads : Bytes → List Bytes)
    (target_is_dir : String → String → Bool) (fresh : Meta) (fuel : ℕ) where
  -- The daemon after it has handled what stands last on its channel.
  abbrev pub handles_newest : Environment → (channel : ℕ) → Controller → Daemon → Handled
  handles_newest env channel s d =
      handle_message (λ m. some (print m)) show E trim B reads target_is_dir fresh fuel env
        (or_pong (newest channel s.frames none)) d

  -- With the daemon reachable, its channel open and the steps that make its terminal succeeding,
  -- `new_session` returns a session that the controller sends output of to `tx` and that the daemon
  -- confirms; what is then written to the session reaches the terminal that the daemon made for it.
  pub new_session-write :
      (env env' : Environment) (id : String) (rows cols : ℕ) (term session_id : String) (tx : ℕ)
      (data_bytes : Bytes) (d : Daemon) (s : Controller) {arc : ℕ} {c : DaemonConnection}
      → IsReachable s.world id arc c
      → s.is_closed c.request_tx ≡ false
      → IsOpening env.system
      → (env.sends ≡ []) × (env'.write_error ≡ none) × (env'.flush_error ≡ none)
      → let (r, s1) = new_session id rows cols term session_id tx s in
        let h = handles_newest env c.request_tx s1 d in
        let (r', s2) = write data_bytes (session_of id session_id tx) s1 in
        let h' = handles_newest env' c.request_tx s2 h.daemon in
        (r ≡ returned (session_of id session_id tx))
        × ((c1 : DaemonConnection) × IsReachable s1.world id arc c1
            × (Connection.send_session_output session_id c1 ≡ some tx))
        × (h.written ≡ Message.session_started session_id true none ∷ [])
        × (r' ≡ returned tt)
        × (h'.daemon.sessions.inputs ≡ d.sessions.inputs ++ (env.pty, data_bytes) ∷ [])
  unfolding write handle_message handle_session respond_all send_all started_message
      Connection.send_session_output register_session
  new_session-write env env' id rows cols term session_id tx data_bytes d s {arc} {c} reach opened
        opens (calm, w, f) =
      let start = Message.new_session session_id rows cols term in
      let input = Message.session_input session_id data_bytes in
      let s1 = sent_on c.request_tx start (on_conn arc (register_session session_id tx) s) in
      let reach1 = on_conn-IsReachable (register_session session_id tx) s id reach in
      let reach2 : IsReachable s1.world id arc (register_session session_id tx c) = record {
        entry = reach1.entry;
        found = reach1.found;
      } in
      let (iff, _, goes, _) = new_session_iff session_id rows cols env.pty env.system d.sessions in
      let started = iff.1 opens in
      rw
        (
          new_session-sent id rows cols term session_id tx s reach opened,
          send_to-sent "Failed to write: " (session_of id session_id tx) input s1 reach2 opened,
          newest-push c.request_tx s.frames start none,
          newest-push c.request_tx s1.frames input none,
        )
        (
          refl,
          (register_session session_id tx c, reach2, lookup-insert_self session_id tx c.sessions),
          rw (started, calm, started_message) refl,
          refl,
          rw (w, f) (ap (λ r. r.1.inputs) (goes started data_bytes)),
        )
