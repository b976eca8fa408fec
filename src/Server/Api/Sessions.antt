-- ===== src/Server/Api/Sessions.antt =====
-- server/src/python.rs: `new_session` and the methods of `Session`. What a reader takes from its
-- channel is what the controller has put there and the reader has not taken yet.
use sand_d.Prelude.{ℕ, String, Option, none, some, Bytes}
use sand_d.Protocol.{Message}
use sand_d.Server.Connection
use sand_d.Server.Api.{
  PyResult, returned, raised, runtime_error, Controller, send_message, not_found, find_conn,
  on_conn, send_or,
}

pub record Session : Type 0 where
  pub session_id : String
  pub daemon_id : String
  pub output_rx : ℕ

unfoldable pub new_session :
    (daemon_id : String) (rows cols : ℕ) (term session_id : String) (tx : ℕ)
    → Controller
    → PyResult Session × Controller
unfolding find_conn send_message
new_session daemon_id rows cols term session_id tx s = elim (find_conn daemon_id s) [
  | none ↦ (raised (not_found daemon_id), s)
  | some (arc, conn) ↦
      send_or "Failed to start session: "
        (λ t.
          (returned (record { session_id = session_id; daemon_id = daemon_id; output_rx = tx }), t))
        (send_message conn (Message.new_session session_id rows cols term)
          (on_conn arc (Connection.register_session session_id tx) s))
]

-- A message to the session's daemon.
unfoldable pub send_to :
    (context : String) → Session → Message → Controller → PyResult (Unit {0}) × Controller
unfolding find_conn send_message
send_to context session m s = elim (find_conn session.daemon_id s) [
  | none ↦ (raised (runtime_error "Daemon disconnected"), s)
  | some (_, conn) ↦ send_or context (λ t. (returned tt, t)) (send_message conn m s)
]

unfoldable pub write : Bytes → Session → Controller → PyResult (Unit {0}) × Controller
unfolding send_to
write data_bytes session s =
    send_to "Failed to write: " session (Message.session_input session.session_id data_bytes) s

unfoldable pub resize : (rows cols : ℕ) → Session → Controller → PyResult (Unit {0}) × Controller
unfolding send_to
resize rows cols session s =
    send_to "Failed to resize: " session (Message.session_resize session.session_id rows cols) s

unfoldable pub close : Session → Controller → PyResult (Unit {0}) × Controller
unfolding send_to
close session s =
    send_to "Failed to close session: " session (Message.session_close session.session_id) s

-- What `recv` yields within the time: data, the end of the channel, or nothing in time.
pub data Received : Type 0 where
  bytes : Bytes → Received
  ended : Received
  timed_out : Received

unfoldable pub read : Received → Option Bytes
read (bytes b) = some b
read ended = none
read timed_out = none
