-- ===== src/Daemon/Messages/Storage.antt =====
-- What the messages that a daemon handles, one after another, leave of its snapshots, whatever fails.
use sand_d.Prelude.{ℕ, String, Bool, Option, List, [], ◌∷◌, ◌≢◌, Bytes}
use sand_d.Protocol.{Message}
use sand_d.Snapshot.Types.{SnapshotError, Encoding}
use sand_d.Snapshot.Disk.{Disk}
use sand_d.Snapshot.ObjectStore.{Blake3}
use sand_d.Snapshot.Workspace.{Meta}
use sand_d.Snapshot.Keeps.{Keeps}
use sand_d.Snapshot.Manager
use sand_d.Snapshot.Manager.{create_snapshot, delete_snapshot, json_name}
use sand_d.Snapshot.Manager.Safety.{IsOther}
use sand_d.Daemon.Messages.{Daemon, Environment, Handled, handle_message}

-- The message is not about the snapshot of that file: it neither makes nor deletes it.
abbrev pub IsApartFrom : Environment → Message → String → Type 0
IsApartFrom env (Message.create_snapshot _ _ _ _) name = IsOther env.fresh_id name
IsApartFrom env (Message.delete_snapshot _ id) name = json_name id ≢ name
IsApartFrom env _ name = Unit {0}

module _ (to_string : Message → Option String) (show : SnapshotError → String) (E : Encoding)
    (trim : String → String) (B : Blake3) where
  module _ (reads : Bytes → List Bytes) (target_is_dir : String → String → Bool) (fresh : Meta)
      (fuel : ℕ) where
    abbrev handled : Environment → Message → Daemon → Handled
    handled env m d = handle_message to_string show E trim B reads target_is_dir fresh fuel env m d

    -- The messages that come in, each with what the system answers while it is handled.
    unfoldable pub handle_all : List (Environment × Message) → Daemon → Daemon
    unfolding handle_message
    handle_all [] d = d
    handle_all ((env, m) ∷ ms) d = handle_all ms (handled env m d).daemon
