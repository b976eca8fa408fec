-- ===== src/Tests/Calls.antt =====
-- The theorems of the daemon's messages and of the Python methods at a reachable daemon.
use sand_d.Prelude.{
  ℕ, ◌≤◌, ◌<◌, String, true, false, none, some, List, [], ◌∷◌, ◌≡◌, ◌↔◌, ◌⊎◌, refl, arith, pos,
}
use sand_d.Protocol.{Message, SnapshotInfo}
use sand_d.Server.Api.{PyResult, timeout_error, returned, Controller, exec, raised}
use sand_d.Daemon.Messages.Lost.{IsUnreadable, create_unanswered_iff}
use sand_d.Server.Api.Snapshots
use sand_d.Server.Api.EndToEnd.{daemon_side, within, IsServed}
use sand_d.Server.Api.Calls.{handled, lasts, exec_outcome, exec-execute}
use sand_d.Server.Api.RoundTrip.{CanAsk, answers, after_message, snapshot_round_trip}
use sand_d.Server.Api.Leak.{Leaks, never, methods-IsLeaked}
use sand_d.Snapshot.Types.{SnapshotError, since_epoch}
use sand_d.Snapshot.Restore.Spec.{kept_entries, depth_entries}
use sand_d.Snapshot.Workspace.{dir}
use sand_d.Snapshot.Manager
use sand_d.Daemon.Executor.{running}
use sand_d.Daemon.Sessions.{PtySystem, no_sessions}
use sand_d.Daemon.Messages.{Daemon, Environment, Handled}
use sand_d.Daemon.Messages.Answers.{
  IsAnswered, IsLost, looks_back, request_id_of, handle_message_answers,
}
use sand_d.Tests.Codec.{blake3, digest_injective, encoding}
use sand_d.Tests.Store.{nothing}
use sand_d.Tests.Manager.{
  reads, reader, to_file, anew, workspace, workspace-AreProper, nothing-IsGood, tags_valid,
  tags_unused, noon,
}
use sand_d.Tests.Server.{busy, builder, busy-IsReachable}

abbrev pub controller : Controller
controller = record { world = busy; frames = []; is_closed = λ _. false }

abbrev pub opening : PtySystem
opening = record {
  openpty = none;
  try_clone_reader = none;
  take_writer = none;
  spawn_command = none;
}

abbrev pub calm : Environment
calm = record {
  sends = [];
  child = running (some 10) (some (record { stdout = "hi"; stderr = ""; code = some (pos 0) }));
  elapsed = 12;
  pty = 5;
  system = opening;
  write_error = none;
  flush_error = none;
  resize_error = none;
  content = some (1 ∷ 2 ∷ []);
  read_error = "gone";
  now = since_epoch 1000 5;
  fresh_id = "id";
  workspace = workspace;
  there = none;
}

abbrev pub idle : Daemon
idle = record { sessions = no_sessions; disk = nothing }

abbrev pub printed : Message → String
printed _ = "m"

abbrev pub told : SnapshotError → String
told _ = "failed"

abbrev pub as_is : String → String
as_is t = t

can_ask : CanAsk controller "builder" 0 11 builder
can_ask = record { reach = busy-IsReachable; opened = refl; unused = refl }

abbrev created : Daemon
created =
    (after_message printed told encoding as_is blake3 reads to_file anew (depth_entries workspace)
      calm idle (Message.create_snapshot "r8" "/w" none (some ("v1" ∷ [])))).daemon

abbrev side : Daemon → Message → List Message
side d =
    answers printed told encoding as_is blake3 reads to_file anew (depth_entries workspace) calm d

deep : depth_entries workspace ≤ depth_entries workspace
deep = omega arith

snapshot_round_trip_example :
    IsServed (side idle) 200 "builder" "r8" 0 (returned "id") (
      Snapshots.create_snapshot "builder" "/w" none
        (some ("v1" ∷ []))
        "r8"
        11
        (daemon_side (side idle) 200 "builder" 7 11)
        controller)
    × ((count : ℕ) × IsServed (side created) 300 "builder" "r9" 0 (returned count) (
          Snapshots.restore_snapshot "builder" "id" "/x" "r9" 11
            (daemon_side (side created) 300 "builder" 7 11)
            controller))
    × ((after_message printed told encoding as_is blake3 reads to_file anew
          (depth_entries workspace)
          calm
          created
          (Message.restore_snapshot "r9" "id" "/x")).restored
        ≡ some (dir anew 0 (kept_entries anew workspace)))
snapshot_round_trip_example =
    snapshot_round_trip printed told encoding as_is blake3 reads to_file anew
      (depth_entries workspace) digest_injective reader calm calm idle 1000 200 300 "builder" "/w"
      "/x" "r8" "r9" none (some ("v1" ∷ [])) 11 11 controller controller nothing-IsGood
      workspace-AreProper noon tags_valid tags_unused (refl, refl, refl) deep can_ask can_ask

abbrev served : Daemon → Message → List Message
served d m = (handled printed told encoding as_is blake3 reads to_file anew 3 calm d m).written

quick : lasts 5 calm.child ≤ 15
quick = omega arith

exec-execute_example :
    let result =
      exec "builder" "echo hi" 5 none none "r8" 11
        (within 15 (daemon_side (served idle) 200 "builder" 7 11))
        controller in
    (15 < 5000 → IsServed (served idle) 200 "builder" "r8" 0 (exec_outcome 12 calm.child) result)
    × (5000 ≤ 15 → result.0 ≡ raised (timeout_error "Command execution timed out"))
exec-execute_example =
    exec-execute printed told encoding as_is blake3 reads to_file anew 3 15 calm idle 200 "builder"
      "echo hi" "r8" 5 11 none none controller busy-IsReachable refl refl refl quick

abbrev answered : Message → Handled
answered m = handled printed told encoding as_is blake3 reads to_file anew 3 calm idle m

asks : request_id_of (Message.list_snapshots "r8" none) ≡ some "r8"
unfolding request_id_of
asks = refl

handle_message_answers_example :
    IsAnswered "r8" (answered (Message.list_snapshots "r8" none))
    ⊎ ((looks_back (Message.list_snapshots "r8" none) ≡ true)
        × IsLost (answered (Message.list_snapshots "r8" none)))
handle_message_answers_example =
    handle_message_answers printed told encoding as_is blake3 reads to_file anew 3 calm
      (Message.list_snapshots "r8" none) idle refl asks

abbrev pythonize : SnapshotInfo → PyResult String
pythonize i = returned i.id

create_unanswered_iff_example :
    ((answered (Message.create_snapshot "r8" "/w" none none)).written ≡ [])
    ↔ IsUnreadable printed told encoding as_is (
        Manager.create_snapshot blake3 encoding reads to_file anew calm.now "id" "/w" workspace none
          none nothing)
create_unanswered_iff_example =
    create_unanswered_iff printed told encoding as_is blake3 reads to_file anew 3 calm "r8" "/w"
      none none idle refl

methods-IsLeaked_example :
    Leaks
      (exec "builder" "id" 5 none none "r8" 11 never)
      controller
      "builder"
      "r8"
      0
      11
      7
      "Command execution timed out"
      "Failed to send command: "
    × Leaks
        (Snapshots.create_snapshot "builder" "/w" none none "r8" 11 never)
        controller
        "builder"
        "r8"
        0
        11
        7
        "Snapshot creation timed out"
        "Failed to send snapshot request: "
    × Leaks
        (Snapshots.restore_snapshot "builder" "id" "/w" "r8" 11 never)
        controller
        "builder"
        "r8"
        0
        11
        7
        "Restore timed out"
        "Failed to send restore request: "
    × Leaks
        (Snapshots.list_snapshots pythonize "builder" none "r8" 11 never)
        controller
        "builder"
        "r8"
        0
        11
        7
        "List timed out"
        "Failed to send list request: "
    × Leaks
        (Snapshots.find_snapshot_by_tag pythonize "builder" "id" "r8" 11 never)
        controller
        "builder"
        "r8"
        0
        11
        7
        "Find timed out"
        "Failed to send find request: "
    × Leaks
        (Snapshots.get_snapshot pythonize "builder" "id" "r8" 11 never)
        controller
        "builder"
        "r8"
        0
        11
        7
        "Get timed out"
        "Failed to send get request: "
    × Leaks
        (Snapshots.delete_snapshot "builder" "id" "r8" 11 never)
        controller
        "builder"
        "r8"
        0
        11
        7
        "Delete timed out"
        "Failed to send delete request: "
methods-IsLeaked_example =
    methods-IsLeaked pythonize "builder" "r8" "id" "/w" 5 11 none none none none controller
      busy-IsReachable
