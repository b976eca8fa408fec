-- ===== src/Daemon/Serve.antt =====
-- sandd/src/main.rs, `serve`: the registration and the message loop of one connection. Times are in
-- nanoseconds. JSON is a parameter as in the controller's model, and so is `handle`, the messages
-- that `handle_message` writes while it runs: the loop reads none of its results.
pub mod Liveness
pub mod Reregister
pub mod Order
use sand_d.Prelude.{
  ℕ, String, Bool, true, false, Option, none, some, List, [], ◌∷◌, ◌++◌, ◌*◌, ◌-◌, u64_mod, leb,
  ltb, if◌then◌else◌,
}
use sand_d.Protocol.{Message, DaemonMetadata}

pub data ServeOutcome : Type 0 where
  disconnected : ServeOutcome
  shutdown : ServeOutcome

-- What the WebSocket library reads.
pub data Read : Type 0 where
  text : String → Read
  close : Read
  failed : Read
  ended : Read
  other : Read

-- What the daemon writes.
pub data Written : Type 0 where
  message : Message → Written
  close_frame : Written

-- The branches of `select!` that are ready: the shutdown signal, the end of the heartbeat task,
-- the tick of the deadline check and what was read. `sends` is whether a write of this round
-- succeeds.
pub record Ready : Type 0 where
  pub is_shut : Bool
  pub is_dead : Bool
  pub ticks : Bool
  pub incoming : Option Read
  pub sends : Bool

pub record Serve : Type 0 where
  pub last_ack : ℕ
  pub sent : List Written
  pub outcome : Option ServeOutcome

abbrev pub nanos_per_sec : ℕ
nanos_per_sec = 1000000000

abbrev pub u64_max : ℕ
u64_max = 18446744073709551615

abbrev pub min_ℕ : ℕ → ℕ → ℕ
min_ℕ a b = if leb a b then a else b

abbrev pub max_ℕ : ℕ → ℕ → ℕ
max_ℕ a b = if leb a b then b else a

-- `heartbeat_interval.saturating_mul(6).max(30)` seconds
unfoldable pub ack_timeout : (heartbeat_interval : ℕ) → ℕ
ack_timeout heartbeat_interval = max_ℕ (min_ℕ (heartbeat_interval * 6) u64_max) 30 * nanos_per_sec

abbrev pub break_with : ServeOutcome → Serve → Serve
break_with o s = record s { outcome = some o }

-- `if let Message::HeartbeatAck { success, .. }`
unfoldable pub as_ack : Message → Option Bool
as_ack (Message.heartbeat_ack success _) = some success
as_ack _ = none

-- What comes of the first read after the registration was sent.
pub data Registration : Type 0 where
  accepted : Registration
  refused : Registration
  broken : Registration

module _ (from_str : String → Option Message) (to_string : Message → Option String)
    (handle : Message → List Message) (heartbeat_interval : ℕ) (daemon_id : String)
    (metadata : DaemonMetadata) where
  abbrev pub written : List Message → List Written
  written [] = []
  written (m ∷ ms) = message m ∷ written ms

  -- The wait for `RegisterAck`: anything but a text goes on.
  unfoldable pub await_ack : Read → Registration
  await_ack (text t) = elim (from_str t) [
    | none ↦ broken
    | some m ↦ elim m [
      | Message.register_ack success _ ↦ (if success then accepted else refused)
      | _ ↦ accepted
    ]
  ]
  await_ack _ = accepted

  -- A refused heartbeat: the daemon registers again on the same connection.
  unfoldable pub reregister : (sends : Bool) → Serve → Serve
  reregister sends s = elim (to_string (Message.register daemon_id metadata)) [
    | none ↦ s
    | some _ ↦
        (if sends
          then record s { sent = s.sent ++ message (Message.register daemon_id metadata) ∷ [] }
          else break_with disconnected s)
  ]

  -- A message, whose handling is over at `now`.
  unfoldable pub on_message : (now : ℕ) (sends : Bool) → Message → Serve → Serve
  unfolding reregister as_ack
  on_message now sends m s = elim (as_ack m) [
    | some success ↦
        (let s' = record s { last_ack = now } in if success then s' else reregister sends s')
    | none ↦ record s {
      last_ack = now;
      sent = s.sent ++ (if sends then written (handle m) else []);
    }
  ]

  unfoldable pub on_read : (now : ℕ) (sends : Bool) → Read → Serve → Serve
  unfolding on_message
  on_read now sends (text t) s = elim (from_str t) [ none ↦ s | some m ↦ on_message now sends m s ]
  on_read now sends close s = break_with disconnected s
  on_read now sends failed s = break_with disconnected s
  on_read now sends ended s = break_with disconnected s
  on_read now sends other s = s

  abbrev read_or_wait : (now : ℕ) (sends : Bool) → Option Read → Serve → Serve
  read_or_wait now sends none s = s
  read_or_wait now sends (some r) s = on_read now sends r s

  -- One round of the biased `select!`: the first branch that is ready runs, and no other.
  unfoldable pub select : (now : ℕ) → Ready → Serve → Serve
  unfolding on_read ack_timeout
  select now ready s =
      if ready.is_shut
      then break_with shutdown
          (record s { sent = s.sent ++ (if ready.sends then close_frame ∷ [] else []) })
      else if ready.is_dead
      then break_with disconnected s
      else if ready.ticks
      then (if leb (ack_timeout heartbeat_interval) (now - s.last_ack)
          then break_with disconnected s
          else s)
      else read_or_wait now ready.sends ready.incoming s

  -- The loop, until it breaks.
  unfoldable pub serve_loop : List (ℕ × Ready) → Serve → Serve
  unfolding select
  serve_loop [] s = s
  serve_loop ((now, ready) ∷ rest) s = elim s.outcome [
    | some _ ↦ s
    | none ↦ serve_loop rest (select now ready s)
  ]

  abbrev no_session : Serve
  no_session = record { last_ack = 0; sent = []; outcome = some disconnected }

  -- The state of the loop once the registration is written.
  abbrev pub registered : (connected_at : ℕ) → Serve
  registered connected_at = record {
    last_ack = connected_at;
    sent = message (Message.register daemon_id metadata) ∷ [];
    outcome = none;
  }

  -- The whole session, of which an error is a drop. `sends` is whether the registration is written,
  -- and `initialized` whether the manager of the snapshots can be made.
  unfoldable pub serve :
      (sends initialized : Bool) (connected_at : ℕ) (first_read : Read) → List (ℕ × Ready) → Serve
  unfolding await_ack serve_loop
  serve sends initialized connected_at first_read rounds =
      elim (to_string (Message.register daemon_id metadata)) [
        | none ↦ no_session
        | some _ ↦ elim sends [
          | false ↦ no_session
          | true ↦ elim (await_ack first_read) [
            | accepted ↦
                (if initialized
                  then serve_loop rounds (registered connected_at)
                  else break_with disconnected (registered connected_at))
            | refused ↦ break_with disconnected (registered connected_at)
            | broken ↦ break_with disconnected (registered connected_at)
          ]
        ]
      ]
