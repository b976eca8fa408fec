-- ===== src/Daemon/Messages/Survival.antt =====
-- A snapshot and what the daemon does after it was created.
use sand_d.Prelude.{ℕ, String, Bool, Option, List, Bytes}
use sand_d.Protocol.{Message}
use sand_d.Snapshot.Types.{SnapshotError, Encoding}
use sand_d.Snapshot.Disk.{Disk, Fault}
use sand_d.Snapshot.ObjectStore.{Blake3}
use sand_d.Snapshot.Workspace.{Meta}
use sand_d.Snapshot.Keeps.{Keeps}
use sand_d.Daemon.Sessions.{SessionManager}
use sand_d.Daemon.Messages.{Environment}
use sand_d.Daemon.Messages.Storage.{handle_all}

-- The same disk with other failures ahead.
abbrev pub with_faults : Disk → List Fault → Disk
with_faults d fs = record d { faults = fs }

module _ (to_string : Message → Option String) (show : SnapshotError → String) (E : Encoding)
    (trim : String → String) (B : Blake3) (reads : Bytes → List Bytes)
    (target_is_dir : String → String → Bool) (fresh : Meta) (fuel : ℕ) where
  module _ (id : String) (ms : List (Environment × Message)) where
    -- The disk after those messages, which come with failures of their own.
    abbrev pub disk_after : SessionManager → Disk → List Fault → Disk
    disk_after sessions d fs =
        (handle_all to_string show E trim B reads target_is_dir fresh fuel ms
          (record { sessions = sessions; disk = with_faults d fs })).disk
