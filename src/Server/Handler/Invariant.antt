-- ===== src/Server/Handler/Invariant.antt =====
-- Every message, whatever it is, keeps the registry well formed; so does a sweep.
use sand_d.Prelude.{
  ℕ, String, Option, none, some, refl, arith, eq_iff, ◌==◌, inl, inr, Bool-cases, Option-cases,
}
use sand_d.Protocol.{Message, DaemonMetadata}
use sand_d.Server.Connection
use sand_d.Server.Connection.{DaemonConnection}
use sand_d.Server.Registry
use sand_d.Server.Registry.{deref}
use sand_d.Server.Registry.Invariant.{
  IsWellFormed, KeepsId, register-IsWellFormed, modify-IsWellFormed, cleanup_stale-IsWellFormed,
}
use sand_d.Server.Handler.{
  World, handle_heartbeat, handle_beat, handle_register, handle_response, handle_daemon_message,
  with_conn, response_id, heartbeat_monitor, reap_secs,
}

abbrev pub IsSound : World → Type 0
IsSound w = IsWellFormed w.registry

with_conn-IsSound :
    (daemon_id : Option String) (f : ℕ → DaemonConnection → World → World) (w : World)
    → ((arc : ℕ) (c : DaemonConnection) → IsSound (f arc c w))
    → IsSound w
    → IsSound (with_conn daemon_id f w)
unfolding with_conn
with_conn-IsSound none f w k s = s
with_conn-IsSound (some id) f w k s = elim (Option-cases (Registry.get id w.registry)) [
  | inl missing ↦ rw (missing, with_conn) s
  | inr (arc, entry) ↦ elim (Option-cases (deref w.registry arc)) [
    | inl dangling ↦ rw (entry, with_conn, dangling) s
    | inr (c, found) ↦ rw (entry, with_conn, found) (k arc c)
  ]
]

complete_request-KeepsId : (id : String) → KeepsId (λ c. (Connection.complete_request id c).0)
unfolding Connection.complete_request
complete_request-KeepsId id c = ground arith

handle_register-IsSound :
    (now : ℕ) (id : String) (m : DaemonMetadata) (daemon_id : Option String) (tx : ℕ) (w : World)
    → IsSound w
    → IsSound (handle_register now id m daemon_id tx w).world
unfolding handle_register Connection.new
handle_register-IsSound now id m daemon_id tx w s = elim (Bool-cases (id == "")) [
  | inl nameless ↦ rw nameless s
  | inr named ↦ rw named (
      register-IsWellFormed (Connection.new now id m tx) w.registry
        (λ p. cc (named, (eq_iff id "").1 p)) s)
]

handle_beat-IsSound :
    (now : ℕ) (daemon_id : Option String) (w : World)
    → IsSound w
    → IsSound (handle_beat now daemon_id w).world
unfolding handle_beat Connection.update_heartbeat
handle_beat-IsSound now none w s = s
handle_beat-IsSound now (some id) w s = elim (Option-cases (Registry.get id w.registry)) [
  | inl missing ↦ rw (missing, handle_heartbeat) s
  | inr (arc, entry) ↦
      rw (entry, handle_heartbeat) (modify-IsWellFormed arc _ w.registry (λ c. refl) s)
]

handle_response-IsSound :
    (request_id : Option String) (m : Message) (daemon_id : Option String) (w : World)
    → IsSound w
    → IsSound (handle_response request_id m daemon_id w).world
unfolding handle_response
handle_response-IsSound none m daemon_id w s = s
handle_response-IsSound (some request_id) m daemon_id w s =
    with_conn-IsSound daemon_id _ w
      (λ arc c. modify-IsWellFormed arc _ w.registry (complete_request-KeepsId request_id) s) s

-- Whatever message arrives, on a socket that has registered or not, a registry that is well formed
-- stays so: every entry points to a connection with that id, no id is empty and none stands twice.
pub handle_daemon_message-IsSound :
    (now : ℕ) (m : Message) (daemon_id : Option String) (request_tx : ℕ) (w : World)
    → IsSound w
    → IsSound (handle_daemon_message now m daemon_id request_tx w).world
unfolding handle_daemon_message Connection.close_session Connection.add_file_chunk
handle_daemon_message-IsSound now (Message.register id metadata) daemon_id tx w s =
    handle_register-IsSound now id metadata daemon_id tx w s
handle_daemon_message-IsSound now Message.heartbeat daemon_id tx w s =
    handle_beat-IsSound now daemon_id w s
handle_daemon_message-IsSound now (Message.session_output session_id bytes) daemon_id tx w s =
    with_conn-IsSound daemon_id _ w (λ arc c. s) s
handle_daemon_message-IsSound now (Message.session_exit session_id code) daemon_id tx w s =
    with_conn-IsSound daemon_id _ w (λ arc c. modify-IsWellFormed arc _ w.registry (λ d. refl) s) s
handle_daemon_message-IsSound now (Message.file_download_chunk id bytes offset last) daemon_id tx w
      s =
    with_conn-IsSound daemon_id _ w (λ arc c. modify-IsWellFormed arc _ w.registry (λ d. refl) s) s
handle_daemon_message-IsSound now m daemon_id tx w s =
    handle_response-IsSound (response_id m) m daemon_id w s

pub heartbeat_monitor-IsSound :
    (now : ℕ) (w : World) → IsSound w → IsSound (heartbeat_monitor now w)
unfolding heartbeat_monitor
heartbeat_monitor-IsSound now w s = cleanup_stale-IsWellFormed now reap_secs w.registry s
