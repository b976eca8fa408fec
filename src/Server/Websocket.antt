-- ===== src/Server/Websocket.antt =====
-- server/src/server.rs: `websocket_handler` (the check of the subprotocol) and `handle_websocket`
-- (the loop of one socket), and a server of many sockets as a run over a schedule.
-- JSON is a parameter: `from_str` and `to_string` are serde_json's.
pub mod Run
pub mod Race
use sand_d.Prelude.{
  ℕ, String, Bool, true, false, Option, none, some, List, [], ◌∷◌, ◌++◌, ◌||◌, ◌==◌, eqb, get_elem?,
  set, length, any, if◌then◌else◌,
}
use Prim.Native.Char.{Char, code}
use sand_d.Protocol.{Message}
use sand_d.Server.Registry
use sand_d.Server.Handler.{World, Handled, handle_daemon_message, heartbeat_monitor}

abbrev pub supported_protocol : String
supported_protocol = "sandd.v1"

abbrev is_comma : Char → Bool
is_comma c = eqb (code c) b','

-- `split(',')`: the first piece grows at its front; a comma starts a new one.
abbrev push_front : Char → List String → List String
push_front c [] = String.◌∷◌ c String.[] ∷ []
push_front c (s ∷ pieces) = String.◌∷◌ c s ∷ pieces

unfoldable pub split_comma : String → List String
split_comma String.[] = "" ∷ []
split_comma (String.◌∷◌ c s) =
    let rest = split_comma s in if is_comma c then "" ∷ rest else push_front c rest

-- A header value that `to_str` accepts is visible ASCII, spaces and tabs.
abbrev is_blank : Char → Bool
is_blank c = eqb (code c) 32 || eqb (code c) 9

unfoldable pub trim_start : String → String
trim_start String.[] = String.[]
trim_start (String.◌∷◌ c s) = let rest = trim_start s in if is_blank c then rest else String.◌∷◌ c s

abbrev is_nil : String → Bool
is_nil String.[] = true
is_nil (String.◌∷◌ _ _) = false

-- A blank goes if only blanks follow it.
unfoldable pub trim_end : String → String
trim_end String.[] = String.[]
trim_end (String.◌∷◌ c s) =
    let rest = trim_end s in
    elim (is_nil rest) [
      | true ↦ (if is_blank c then String.[] else String.◌∷◌ c String.[])
      | false ↦ String.◌∷◌ c rest
    ]

-- Whether the upgrade is granted; the header is missing if it is absent or not text.
unfoldable pub websocket_handler : Option String → Bool
unfolding split_comma trim_start trim_end
websocket_handler none = false
websocket_handler (some protocols) =
    any (λ p. trim_end (trim_start p) == supported_protocol) (split_comma protocols)

-- What the WebSocket library hands to the loop.
pub data Frame : Type 0 where
  text : String → Frame
  close : Frame
  other : Frame

-- What one round of `select!` sees: a frame or an error from the daemon, a request from Python with
-- the result of sending it, or that both channels have ended.
pub data Event : Type 0 where
  received : Frame → Event
  socket_error : Event
  request : Message → (sent : Bool) → Event
  ended : Event

pub record Socket : Type 0 where
  pub daemon_id : Option String
  pub request_tx : ℕ
  pub sent : List Message
  pub is_open : Bool

abbrev pub accept : (request_tx : ℕ) → Socket
accept request_tx = record { daemon_id = none; request_tx = request_tx; sent = []; is_open = true }

-- The clean-up after the loop.
unfoldable pub disconnect : Socket → World → Socket × World
disconnect s w = elim s.daemon_id [
  | none ↦ (record s { is_open = false }, w)
  | some id ↦
      (record s { is_open = false }, record w { registry = Registry.unregister id w.registry })
]

unfoldable pub dispatch : (now : ℕ) → Message → Socket → World → Socket × World
dispatch now message s w =
    let h = handle_daemon_message now message s.daemon_id s.request_tx w in
    (record s { daemon_id = h.daemon_id; sent = s.sent ++ h.frames }, h.world)

pub record Controller : Type 0 where
  pub sockets : List Socket
  pub world : World

-- What may happen next: a client connects, a socket's loop makes a round, the monitor ticks.
pub data Action : Type 0 where
  connect : Action
  round : (socket : ℕ) → Event → Action
  tick : Action

module _ (from_str : String → Option Message) (to_string : Message → Option String) where
  -- One round of the loop.
  unfoldable pub poll : (now : ℕ) → Event → Socket → World → Socket × World
  unfolding disconnect dispatch
  poll now (received (text t)) s w = elim (from_str t) [
    | none ↦ (s, w)
    | some message ↦ dispatch now message s w
  ]
  poll now (received close) s w = disconnect s w
  poll now (received other) s w = (s, w)
  poll now socket_error s w = disconnect s w
  poll now (request message sent) s w = elim (to_string message) [
    | none ↦ (s, w)
    | some _ ↦ (if sent then (record s { sent = s.sent ++ message ∷ [] }, w) else disconnect s w)
  ]
  poll now ended s w = disconnect s w

  unfoldable pub on_round : (now : ℕ) → ℕ → Event → Option Socket → Controller → Controller
  unfolding poll
  on_round now i event none v = v
  on_round now i event (some s) v =
      if s.is_open
      then (let (s', w') = poll now event s v.world in
          record { sockets = set v.sockets i s'; world = w' })
      else v

  -- A socket that has left its loop takes part no more.
  unfoldable pub step : (now : ℕ) → Action → Controller → Controller
  unfolding on_round
  step now connect v = record v { sockets = v.sockets ++ accept (length v.sockets) ∷ [] }
  step now (round i event) v = on_round now i event (get_elem? v.sockets i) v
  step now tick v = record v { world = heartbeat_monitor now v.world }

  unfoldable pub run : List (ℕ × Action) → Controller → Controller
  unfolding step
  run [] v = v
  run ((now, action) ∷ rest) v = run rest (step now action v)
