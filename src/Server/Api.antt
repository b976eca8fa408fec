-- ===== src/Server/Api.antt =====
-- server/src/python.rs: the methods of `Server` and `Session` that Python calls. A new request id, a
-- new session id and a new channel are arguments, and so is `wait`: what reaches the caller within a
-- number of seconds, and what the other threads do to the controller meanwhile.
pub mod Snapshots
pub mod Files
pub mod Sessions
pub mod Daemons
pub mod EndToEnd
pub mod Leak
pub mod Calls
pub mod Start
pub mod Upload
pub mod Listing
pub mod Terminal
pub mod RoundTrip
pub mod Download
pub mod Transfers
pub mod Queries
use sand_d.Prelude.{ℕ, String, Bool, true, false, Option, none, some, List, [], ◌∷◌, ◌++◌, ℤ}
use sand_d.Prelude.Dict.{Dict}
use sand_d.Prelude.Text.{append}
use sand_d.Protocol.{Message}
use sand_d.Server.Connection
use sand_d.Server.Connection.{DaemonConnection}
use sand_d.Server.Registry
use sand_d.Server.Registry.{deref, modify}
use sand_d.Server.Handler.{World}

pub data PyErr : Type 0 where
  value_error runtime_error timeout_error : String → PyErr

pub data PyResult {ℓ} (A : Type ℓ) : Type ℓ where
  returned : A → PyResult A
  raised : PyErr → PyResult A

-- The controller with what it has put on the channels to its daemons. A channel is closed once the
-- task that empties it is gone.
pub record Controller : Type 0 where
  pub world : World
  pub frames : List (ℕ × Message)
  pub is_closed : ℕ → Bool

-- What a caller sees of its oneshot channel.
pub data Awaited : Type 0 where
  received : Message → Awaited
  channel_closed : Awaited
  timed_out : Awaited

abbrev pub Wait : Type 0
Wait = (secs : ℕ) → Controller → Awaited × Controller

unfoldable pub send_message : DaemonConnection → Message → Controller → Option String × Controller
send_message conn m s = elim (s.is_closed conn.request_tx) [
  | true ↦ (some "Daemon channel closed", s)
  | false ↦ (none, record s { frames = s.frames ++ (conn.request_tx, m) ∷ [] })
]

abbrev pub not_found : String → PyErr
not_found daemon_id = value_error (append "Daemon " (append daemon_id " not found"))

-- `registry.get(…)`, with the connection that the handle is of.
unfoldable pub find_conn : String → Controller → Option (ℕ × DaemonConnection)
find_conn daemon_id s = elim (Registry.get daemon_id s.world.registry) [
  | none ↦ none
  | some arc ↦ elim (deref s.world.registry arc) [ none ↦ none | some c ↦ some (arc, c) ]
]

abbrev pub on_conn : ℕ → (DaemonConnection → DaemonConnection) → Controller → Controller
on_conn arc f s = record s { world = record s.world { registry = modify arc f s.world.registry } }

abbrev pub send_or {ℓ} :
    {A : Type ℓ}
    → (context : String) → (Controller → PyResult A × Controller)
    → Option String × Controller
    → PyResult A × Controller
send_or context next (some e, s) = (raised (runtime_error (append context e)), s)
send_or context next (none, s) = next s

-- The shape of every method that waits for a response: register the request, send the message, wait,
-- and read the response.
unfoldable pub request {ℓ} :
    {A : Type ℓ}
    → (daemon_id request_id : String) (tx secs : ℕ) → (context : String) → Message
    → (Awaited → PyResult A)
    → Wait
    → Controller
    → PyResult A × Controller
unfolding find_conn send_message
request daemon_id request_id tx secs context m finish wait s = elim (find_conn daemon_id s) [
  | none ↦ (raised (not_found daemon_id), s)
  | some (arc, conn) ↦
      send_or context (λ t. let (a, u) = wait secs t in (finish a, u))
        (send_message conn m (on_conn arc (Connection.register_request request_id tx) s))
]

pub record PyCommandResult : Type 0 where
  pub stdout : String
  pub stderr : String
  pub exit_code : ℤ
  pub duration_ms : ℕ

unfoldable pub command_result : Awaited → PyResult PyCommandResult
command_result (received (Message.command_output _ stdout stderr exit_code duration_ms)) =
    returned (record {
      stdout = stdout;
      stderr = stderr;
      exit_code = exit_code;
      duration_ms = duration_ms;
    })
command_result (received (Message.command_error _ error)) =
    raised (runtime_error (append "Command error: " error))
command_result (received _) = raised (runtime_error "Unexpected response type")
command_result channel_closed = raised (runtime_error "Command channel closed")
command_result timed_out = raised (timeout_error "Command execution timed out")

abbrev pub or_no_env : Option (Dict String) → Dict String
or_no_env none = []
or_no_env (some env) = env

unfoldable pub exec :
    (daemon_id command : String) (timeout : ℕ)
    → (env : Option (Dict String)) → (cwd : Option String) → (request_id : String) (tx : ℕ) → Wait
    → Controller
    → PyResult PyCommandResult × Controller
unfolding request command_result
exec daemon_id command timeout env cwd request_id tx wait s =
    request daemon_id request_id tx timeout "Failed to send command: "
      (Message.execute_command request_id command timeout (or_no_env env) cwd) command_result wait s
