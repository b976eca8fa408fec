-- ===== src/Server/Handler.antt =====
-- server/src/server.rs: `handle_heartbeat`, `handle_daemon_message` and the sweep of
-- `heartbeat_monitor`. Log lines are left out. A send on a oneshot channel or on a session's channel
-- is one more entry of `delivered` or `outputs`; the results of these sends are ignored by the code.
-- The frames that the handler sends to its daemon are returned, in order.
pub mod Laws
pub mod Recovery
pub mod Invariant
use sand_d.Prelude.{
  ℕ, String, Bool, true, false, Option, none, some, List, [], ◌∷◌, ◌++◌, Bytes, ◌==◌, if◌then◌else◌,
}
use sand_d.Protocol.{Message, DaemonMetadata}
use sand_d.Server.Connection
use sand_d.Server.Connection.{DaemonConnection}
use sand_d.Server.Registry
use sand_d.Server.Registry.{DaemonRegistry, deref, modify}

pub record World : Type 0 where
  pub registry : DaemonRegistry
  pub delivered : List (ℕ × Message)
  pub outputs : List (ℕ × Bytes)

abbrev pub start : World
start = record { registry = Registry.empty; delivered = []; outputs = [] }

-- What the handler leaves: the frames for the daemon, the id of this socket, the world.
pub record Handled : Type 0 where
  pub frames : List Message
  pub daemon_id : Option String
  pub world : World

unfoldable pub handle_heartbeat : (now : ℕ) → String → DaemonRegistry → Bool × DaemonRegistry
handle_heartbeat now id r = elim (Registry.get id r) [
  | some conn ↦ (true, modify conn (Connection.update_heartbeat now) r)
  | none ↦ (false, r)
]

abbrev pub ack_of : Bool → Message
ack_of true = Message.heartbeat_ack true ""
ack_of false = Message.heartbeat_ack false "daemon is not registered"

-- The request id of a message of the request/response pattern.
unfoldable pub response_id : Message → Option String
response_id (Message.command_output request_id _ _ _ _) = some request_id
response_id (Message.command_error request_id _) = some request_id
response_id (Message.snapshot_created request_id _ _ _) = some request_id
response_id (Message.snapshot_restored request_id _) = some request_id
response_id (Message.snapshot_list request_id _) = some request_id
response_id (Message.snapshot_details request_id _) = some request_id
response_id (Message.snapshot_deleted request_id) = some request_id
response_id (Message.snapshot_error request_id _) = some request_id
response_id _ = none

-- `if let Some(id) = daemon_id { if let Some(conn) = registry.get(id) { … } }`
unfoldable pub with_conn : Option String → (ℕ → DaemonConnection → World → World) → World → World
with_conn none f w = w
with_conn (some id) f w = elim (Registry.get id w.registry) [
  | none ↦ w
  | some arc ↦ elim (deref w.registry arc) [ none ↦ w | some c ↦ f arc c w ]
]

abbrev pub deliver : Option ℕ → Message → List (ℕ × Message) → List (ℕ × Message)
deliver none response sent = sent
deliver (some tx) response sent = sent ++ (tx, response) ∷ []

unfoldable pub complete : String → Message → ℕ → DaemonConnection → World → World
complete request_id response arc c w = record w {
  registry = modify arc (λ d. (Connection.complete_request request_id d).0) w.registry;
  delivered = deliver (Connection.complete_request request_id c).1 response w.delivered;
}

abbrev output_to : Option ℕ → Bytes → List (ℕ × Bytes) → List (ℕ × Bytes)
output_to none bytes sent = sent
output_to (some tx) bytes sent = sent ++ (tx, bytes) ∷ []

unfoldable pub handle_register :
    (now : ℕ) → String → DaemonMetadata → Option String → (request_tx : ℕ) → World → Handled
handle_register now id metadata daemon_id request_tx w =
    if id == ""
    then (record {
      frames = Message.register_ack false "no daemon id" ∷ [];
      daemon_id = daemon_id;
      world = w;
    })
    else (record {
      frames = Message.register_ack true "Successfully registered" ∷ [];
      daemon_id = some id;
      world = record w {
        registry = (Registry.register (Connection.new now id metadata request_tx) w.registry).1;
      };
    })

unfoldable pub handle_beat : (now : ℕ) → Option String → World → Handled
unfolding handle_heartbeat
handle_beat now none w = record { frames = []; daemon_id = none; world = w }
handle_beat now (some id) w =
    let (registered, r) = handle_heartbeat now id w.registry in
    record {
      frames = ack_of registered ∷ [];
      daemon_id = some id;
      world = record w { registry = r };
    }

abbrev pub silent : Option String → World → Handled
silent daemon_id w = record { frames = []; daemon_id = daemon_id; world = w }

unfoldable pub handle_response : Option String → Message → Option String → World → Handled
unfolding with_conn complete
handle_response none message daemon_id w = silent daemon_id w
handle_response (some request_id) message daemon_id w =
    silent daemon_id (with_conn daemon_id (complete request_id message) w)

unfoldable pub handle_daemon_message :
    (now : ℕ) → Message → Option String → (request_tx : ℕ) → World → Handled
unfolding handle_register handle_beat handle_response with_conn response_id
handle_daemon_message now (Message.register id metadata) daemon_id request_tx w =
    handle_register now id metadata daemon_id request_tx w
handle_daemon_message now Message.heartbeat daemon_id request_tx w = handle_beat now daemon_id w
handle_daemon_message now (Message.session_output session_id bytes) daemon_id request_tx w =
    silent daemon_id (
      with_conn daemon_id
        (λ _ c v. record v {
          outputs = output_to (Connection.send_session_output session_id c) bytes v.outputs;
        })
        w)
handle_daemon_message now (Message.session_exit session_id _) daemon_id request_tx w =
    silent daemon_id (
      with_conn daemon_id
        (λ arc _ v. record v {
          registry = modify arc (Connection.close_session session_id) v.registry;
        })
        w)
handle_daemon_message now (Message.file_download_chunk request_id bytes _ _) daemon_id request_tx
      w =
    silent daemon_id (
      with_conn daemon_id
        (λ arc _ v. record v {
          registry = modify arc (Connection.add_file_chunk request_id bytes) v.registry;
        })
        w)
handle_daemon_message now message daemon_id request_tx w =
    handle_response (response_id message) message daemon_id w

-- The messages of one daemon, in order, each at the controller's clock.
abbrev pub receive_all : (now : ℕ) (id : String) (tx : ℕ) → List Message → World → World
receive_all now id tx [] w = w
receive_all now id tx (m ∷ ms) w =
    receive_all now id tx ms (handle_daemon_message now m (some id) tx w).world

-- One tick of the monitor.
abbrev pub reap_secs : ℕ
reap_secs = 30

unfoldable pub heartbeat_monitor : (now : ℕ) → World → World
heartbeat_monitor now w = record w {
  registry = (Registry.cleanup_stale now reap_secs w.registry).1;
}
