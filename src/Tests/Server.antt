-- ===== src/Tests/Server.antt =====
-- The theorems of the controller at a registry with two daemons.
use sand_d.Prelude.{
  ℕ, ◌+◌, ◌-◌, ◌≤◌, String, true, false, Option, none, some, List, [], ◌∷◌, ◌≡◌, refl, ◌==◌, ltb,
  if◌then◌else◌, contains, pos, ◌↔◌,
}
use sand_d.Prelude.Dict.{lookup, insert, remove}
use sand_d.Protocol.{Message, DaemonMetadata}
use sand_d.Server.Connection
use sand_d.Server.Connection.{
  DaemonConnection, FileTransfer, complete_request, register_request, complete_file_transfer,
  start_file_transfer, is_busy,
}
use sand_d.Server.Registry
use sand_d.Server.Registry.{
  DaemonRegistry, deref, cleanup_stale, count, get, list_all, get_stats, info,
}
use sand_d.Server.Registry.Invariant.{IsWellFormed, register-IsWellFormed, empty-IsWellFormed}
use sand_d.Server.Registry.Stale.{cleanup_stale_exact, list_all_iff, HasLabels}
use sand_d.Server.Registry.Stats.{total}
use sand_d.Server.Stats.{stats_handler, stats_handler_faithful}
use sand_d.Server.Handler.{World, start, handle_daemon_message, response_id}
use sand_d.Server.Handler.Invariant.{IsSound}
use sand_d.Server.Handler.Laws.{IsReachable, response_delivered_once}
use sand_d.Server.Handler.Recovery.{reregister_drops_pending}
use sand_d.Server.Websocket.{
  Socket, Action, connect, round, tick, received, text, close, disconnect, dispatch, run,
}
use sand_d.Server.Websocket.Run.{run-start-IsSound}
use sand_d.Server.Websocket.Race.{close_evicts_successor}
use sand_d.Tests.{differ}

abbrev linux : DaemonMetadata
linux = record {
  hostname = "host";
  platform = "linux";
  arch = "x86_64";
  version = "0.1.0";
  labels = ("role", "build") ∷ [];
}

abbrev pub builder : DaemonConnection
builder = record {
  id = "builder";
  metadata = linux;
  last_heartbeat = 100;
  connected_at = 90;
  request_tx = 7;
  pending_requests = ("r1", 3) ∷ ("r2", 4) ∷ [];
  sessions = [];
  file_transfers = [];
}

abbrev tester : DaemonConnection
tester = record builder { id = "tester"; last_heartbeat = 60; connected_at = 50; request_tx = 8 }

abbrev pub two : DaemonRegistry
two = record { heap = builder ∷ tester ∷ []; connections = ("tester", 1) ∷ ("builder", 0) ∷ [] }

pub two-IsWellFormed : IsWellFormed two
unfolding Registry.register insert remove
two-IsWellFormed =
    register-IsWellFormed tester (Registry.register builder Registry.empty).1
      (differ "tester" "" refl)
      (register-IsWellFormed builder Registry.empty (differ "builder" "" refl) empty-IsWellFormed)

abbrev pub busy : World
busy = record { registry = two; delivered = []; outputs = [] }

pub busy-IsReachable : IsReachable busy "builder" 0 builder
unfolding Registry.get lookup
busy-IsReachable = record { entry = refl; found = refl }

abbrev output : Message
output = Message.command_output "r1" "done" "" (pos 0) 5

output_id : response_id output ≡ some "r1"
unfolding response_id
output_id = refl

pending_r1 : lookup "r1" builder.pending_requests ≡ some 3
unfolding lookup
pending_r1 = refl

absent : Registry.get "other" two ≡ none
unfolding Registry.get lookup
absent = refl

abbrev alive : Socket
alive = record { daemon_id = some "builder"; request_tx = 9; sent = []; is_open = true }

abbrev dying : Socket
dying = record { daemon_id = some "builder"; request_tx = 7; sent = []; is_open = true }

response_delivered_once_example :
    let w' = (handle_daemon_message 101 output (some "builder") 7 busy).world in
    let w'' = (handle_daemon_message 102 output (some "builder") 7 w').world in
    (w'.delivered ≡ (3, output) ∷ []) × (w''.delivered ≡ w'.delivered)
response_delivered_once_example =
    response_delivered_once 101 102 output output "builder" "r1" 7 busy output_id output_id
      busy-IsReachable pending_r1

cleanup_stale_exact_example :
    let (removed, r') = cleanup_stale 110 30 two in
    (removed + count r' ≡ count two)
    × ((id : String) → get id two ≡ none → get id r' ≡ none)
    × ((id : String) (arc : ℕ) (c : DaemonConnection)
        → get id two ≡ some arc
        → deref two arc ≡ some c
        → get id r' ≡ (if ltb 30 (110 - c.last_heartbeat) then none else some arc))
cleanup_stale_exact_example = cleanup_stale_exact 110 30 two two-IsWellFormed

list_all_iff_example :
    (contains (list_all (some (("role", "build") ∷ [])) two) "builder" ≡ true)
    ↔ HasLabels (("role", "build") ∷ []) linux.labels
unfolding Registry.get lookup
list_all_iff_example =
    list_all_iff (("role", "build") ∷ []) two "builder" 0 builder (refl, tt) two-IsWellFormed refl
      refl

stats_handler_faithful_example :
    let body = stats_handler 110 two in
    (body.total_daemons ≡ count two)
    × (total body.by_platform ≡ count two)
    × ((id : String) (arc : ℕ) (c : DaemonConnection)
        → get id two ≡ some arc
        → deref two arc ≡ some c
        → (lookup id body.daemons
            ≡ some (record {
              hostname = c.metadata.hostname;
              platform = c.metadata.platform;
              arch = c.metadata.arch;
              version = c.metadata.version;
              labels = c.metadata.labels;
              is_busy = is_busy c;
              connected_secs = 110 - c.connected_at;
              seconds_since_heartbeat = 110 - c.last_heartbeat;
            }))
          × (110 - c.connected_at ≤ body.oldest_connection_secs))
    × ((id : String) → get id two ≡ none → lookup id body.daemons ≡ none)
stats_handler_faithful_example = stats_handler_faithful 110 two two-IsWellFormed

reregister_drops_pending_example :
    let again =
      (handle_daemon_message 120
        (Message.register "builder" linux)
        (some "builder")
        7
        busy).world in
    ((handle_daemon_message 121 output (some "builder") 7 again).world.delivered ≡ [])
    × (deref (handle_daemon_message 121 output (some "builder") 7 again).world.registry 0
        ≡ some builder)
reregister_drops_pending_example =
    reregister_drops_pending 120 121 "builder" "r1" linux output 7 busy (differ "builder" "" refl)
      output_id busy-IsReachable

abbrev parse : String → Option Message
parse t =
    if t == "R"
    then some (Message.register "builder" linux)
    else if t == "H"
    then some Message.heartbeat
    else none

abbrev print : Message → Option String
print m = some "R"

abbrev schedule : List (ℕ × Action)
schedule =
    (1, connect)
    ∷ (2, round 0 (received (text "R")))
    ∷ (3, round 0 (received (text "H")))
    ∷ (40, tick)
    ∷ (41, round 0 (received close))
    ∷ []

run-start-IsSound_example :
    IsSound (run parse print schedule (record { sockets = []; world = start })).world
run-start-IsSound_example = run-start-IsSound parse print schedule

close_evicts_successor_example :
    let w1 = (disconnect dying busy).1 in
    let (live2, w2) = dispatch 120 Message.heartbeat alive w1 in
    let (live3, w3) = dispatch 121 (Message.register "builder" linux) live2 w2 in
    (Registry.get "builder" w1.registry ≡ none)
    × (live2.sent ≡ Message.heartbeat_ack false "daemon is not registered" ∷ [])
    × IsReachable w3 "builder" 2 (Connection.new 121 "builder" linux 9)
close_evicts_successor_example =
    close_evicts_successor 120 121 "builder" linux dying alive busy (differ "builder" "" refl) refl
      refl
