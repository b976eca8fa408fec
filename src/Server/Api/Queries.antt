-- ===== src/Server/Api/Queries.antt =====
-- The methods that ask a daemon about its snapshots or delete one, with the daemon's own handler at
-- the other end.
use sand_d.Prelude.{ℕ, String, Bool, Option, none, some, List, Bytes}
use sand_d.Prelude.Text.{append}
use sand_d.Protocol.{Message, SnapshotInfo}
use sand_d.Server.Api.{PyResult, returned, raised, runtime_error}
use sand_d.Server.Api.Snapshots.{some_result}
use sand_d.Server.Api.Calls.{handled}
use sand_d.Snapshot.Types.{Result, ok, err, SnapshotError, Encoding}
use sand_d.Snapshot.Disk.{Disk}
use sand_d.Snapshot.ObjectStore.{Blake3}
use sand_d.Snapshot.Workspace.{Meta}
use sand_d.Snapshot.Manager
use sand_d.Daemon.Messages.{Daemon, Environment}

-- The answer to a request of the snapshot manager, and what a method makes of its result.
abbrev answer_message :
    {A : Type 0} → String → (SnapshotError → String) → (A → Message) → Result A → Message
answer_message own show reply (ok a) = reply a
answer_message own show reply (err e) = Message.snapshot_error own (show e)

abbrev pub outcome {ℓ} :
    {A : Type 0} {P : Type ℓ}
    → (context : String) → (SnapshotError → String)
    → (A → PyResult P)
    → Result A
    → PyResult P
outcome context show f (ok a) = f a
outcome context show f (err e) = raised (runtime_error (append context (show e)))

-- What `find_snapshot_by_tag` makes of a snapshot or of none.
abbrev pub found_result {ℓ} :
    {PyObject : Type ℓ}
    → (SnapshotInfo → PyResult PyObject)
    → Option SnapshotInfo
    → PyResult (Option PyObject)
found_result pythonize none = returned none
found_result pythonize (some i) = some_result pythonize (pythonize i)

module _ (print : Message → String) (show : SnapshotError → String) (E : Encoding)
    (trim : String → String) (B : Blake3) (reads : Bytes → List Bytes)
    (target_is_dir : String → String → Bool) (fresh : Meta) (fuel : ℕ) where
  abbrev pub writes : Environment → Daemon → Message → List Message
  writes env d m = (handled print show E trim B reads target_is_dir fresh fuel env d m).written
