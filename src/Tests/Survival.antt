-- ===== src/Tests/Survival.antt =====
-- A snapshot that is created, and the messages that its daemon handles afterwards.
use sand_d.Prelude.{String, Option, none, some, List, [], ◌∷◌}
use sand_d.Protocol.{Message}
use sand_d.Snapshot.Disk.{Fault, passes, fails}
use sand_d.Snapshot.Keeps.{Keeps}
use sand_d.Snapshot.Manager.{create_snapshot, restore_snapshot}
use sand_d.Daemon.Sessions.{no_sessions}
use sand_d.Daemon.Messages.{Daemon, Environment}
use sand_d.Daemon.Messages.Survival.{with_faults}
use sand_d.Tests.Store.{nothing}
use sand_d.Tests.Calls.{calm, printed}

abbrev json : Message → Option String
json m = some (printed m)

abbrev later : Environment
later = record calm { fresh_id = "other" }

abbrev next : List (Environment × Message)
next =
    (later, Message.create_snapshot "r1" "/w" none none)
    ∷ (later, Message.delete_snapshot "r2" "old")
    ∷ (later, Message.restore_snapshot "r3" "id" "/x")
    ∷ []

abbrev troubles : List Fault
troubles = passes ∷ passes ∷ passes ∷ fails (9 ∷ []) "half" ∷ []

abbrev hurt : Daemon
hurt = record { sessions = no_sessions; disk = with_faults nothing troubles }
