-- ===== src/Tests/Daemon.antt =====
-- The theorems of the daemon at concrete connections.
use sand_d.Prelude.{
  ℕ, ◌++◌, Bool, String, true, false, Option, none, some, List, [], ◌∷◌, ◌≡◌, refl, any, ◌==◌,
  if◌then◌else◌, ◌*◌,
}
use sand_d.Prelude.Dict.{lookup}
use sand_d.Protocol.{Message, DaemonMetadata}
use sand_d.Server.Connection
use sand_d.Server.Connection.{DaemonConnection, complete_file_transfer, start_file_transfer}
use sand_d.Server.Registry
use sand_d.Server.Handler.{start, handle_daemon_message}
use sand_d.Server.Handler.Laws.{IsReachable}
use sand_d.Server.Handler.Recovery.{beat}
use sand_d.Daemon.Serve.{
  Serve, Ready, text, message, select, serve_loop, break_with, disconnected, nanos_per_sec, as_ack,
}
use sand_d.Daemon.Serve.{serve, Written}
use sand_d.Daemon.Serve.Order.{serve_registers_first}
use sand_d.Daemon.Serve.Liveness.{IsQuiet, is_breach, serve_loop_quiet, serve_loop_renewed}
use sand_d.Daemon.Serve.Reregister.{refused_heartbeat_reregisters}
use sand_d.Daemon.Reconnect.{
  Attempt, tunnel_failed, unreachable, session, reconnect_loop, launch, is_shutdown,
  last_unreachable, reconnect_loop_iff,
}
use sand_d.Tests.{differ}

abbrev metadata : DaemonMetadata
metadata = record {
  hostname = "host";
  platform = "linux";
  arch = "x86_64";
  version = "0.1.0";
  labels = [];
}

abbrev refusal : Message
refusal = Message.heartbeat_ack false "daemon is not registered"

abbrev parse : String → Option Message
parse t =
    if t == "N"
    then some refusal
    else if t == "L"
    then some (Message.list_snapshots "r" none)
    else if t == "D"
    then some (Message.register_ack false "id required")
    else none

abbrev print : Message → Option String
print m = some "M"

abbrev answer : Message → List Message
answer m = Message.snapshot_list "r" [] ∷ []

abbrev fresh : Serve
fresh = record { last_ack = 0; sent = []; outcome = none }

abbrev checks : Ready
checks = record { is_shut = false; is_dead = false; ticks = true; incoming = none; sends = true }

abbrev reads : String → Ready
reads t = record checks { ticks = false; incoming = some (text t) }

checks-IsQuiet : IsQuiet checks
checks-IsQuiet = record { unshut = refl; alive = refl; silent = refl }

abbrev silence : List (ℕ × Ready)
silence = (29 * nanos_per_sec, checks) ∷ (31 * nanos_per_sec, checks) ∷ []

serve_loop_quiet_example :
    serve_loop parse print answer 5 "d" metadata silence fresh
    ≡ (if any (is_breach 5 0) silence then break_with disconnected fresh else fresh)
serve_loop_quiet_example =
    serve_loop_quiet parse print answer 5 "d" metadata silence fresh refl
      (checks-IsQuiet, (checks-IsQuiet, tt))

serve_loop_renewed_example :
    (serve_loop parse print answer 5 "d" metadata
      ((20 * nanos_per_sec, reads "L") ∷ silence)
      fresh).outcome
    ≡ (if any (is_breach 5 (20 * nanos_per_sec)) silence then some disconnected else none)
unfolding as_ack
serve_loop_renewed_example =
    serve_loop_renewed parse print answer 5 "d" metadata (20 * nanos_per_sec) "L"
      (Message.list_snapshots "r" none) (reads "L") silence fresh refl refl refl refl refl refl refl
      (checks-IsQuiet, (checks-IsQuiet, tt))

none_registered : Registry.get "d" Registry.empty ≡ none
unfolding Registry.get lookup
none_registered = refl

refused_heartbeat_reregisters_example :
    let refused = beat 1 "d" 7 start in
    let s' = select parse print answer 5 "d" metadata 4 (reads "N") fresh in
    let again =
      handle_daemon_message 2 (Message.register "d" metadata) (some "d") 7 refused.world in
    (refused.frames ≡ refusal ∷ [])
    × (s'.sent ≡ message (Message.register "d" metadata) ∷ [])
    × (s'.outcome ≡ none)
    × (s'.last_ack ≡ 4)
    × IsReachable again.world "d" 0 (Connection.new 2 "d" metadata 7)
    × ((beat 3 "d" 7 again.world).frames ≡ Message.heartbeat_ack true "" ∷ [])
refused_heartbeat_reregisters_example =
    refused_heartbeat_reregisters parse print answer 5 "d" metadata 1 2 3 4 7 start fresh
      (reads "N") "N" "M" (differ "d" "" refl) none_registered refl refl refl refl

abbrev attempts : List Attempt
attempts = unreachable ∷ tunnel_failed ∷ session none ∷ unreachable ∷ []

reconnect_loop_iff_example :
    ((reconnect_loop true attempts launch).returned ≡ any is_shutdown attempts)
    × ((next : Attempt)
        → any is_shutdown attempts ≡ false
        → (reconnect_loop true (attempts ++ next ∷ []) launch).refreshes
          ≡ last_unreachable false attempts ∷ (reconnect_loop true attempts launch).refreshes)
    × ((reconnect_loop false attempts launch).refreshes ≡ [])
reconnect_loop_iff_example = reconnect_loop_iff true attempts

serve_registers_first_example :
    let s = serve parse print answer 5 "d" metadata true true 0 (text "D") silence in
    let start : Serve = record {
      last_ack = 0;
      sent = message (Message.register "d" metadata) ∷ [];
      outcome = none;
    } in
    ((rest : List Written) × (s.sent ≡ message (Message.register "d" metadata) ∷ rest))
    × ((t reason : String) (success : Bool)
        → text "D" ≡ text t
        → parse t ≡ some (Message.register_ack success reason)
        → (success ≡ false → s ≡ record start { outcome = some disconnected })
          × (success ≡ true → true ≡ false → s ≡ record start { outcome = some disconnected })
          × (success ≡ true
              → true ≡ true
              → s ≡ serve_loop parse print answer 5 "d" metadata silence start))
serve_registers_first_example =
    serve_registers_first parse print answer 5 "d" metadata true 0 (text "D") silence refl

denied_reads : parse "D" ≡ some (Message.register_ack false "id required")
denied_reads = refl

denied_session : serve parse print answer 5 "d" metadata true true 0 (text "D") silence ≡ record {
  last_ack = 0;
  sent = message (Message.register "d" metadata) ∷ [];
  outcome = some disconnected;
}
denied_session =
    ((serve_registers_first parse print answer 5 "d" metadata true 0 (text "D") silence refl).1 "D"
        "id required" false refl denied_reads).0
      refl
