-- ===== src/Snapshot/Disk.antt =====
-- The file system below the snapshot root, as its three directories, with a schedule of failures:
-- each operation that can fail takes one entry of `faults`, and fails if that says so. A write that
-- fails leaves an arbitrary content in the file that it wrote to.
use sand_d.Prelude.{◌≡◌, refl, sym, subst}
use sand_d.Prelude.{String, Option, none, some, List, [], ◌∷◌, Bytes}
use sand_d.Prelude.Dict.{Dict, lookup, insert, remove}
use sand_d.Snapshot.Types.{Result, ok, err, SnapshotError, io}

pub data Fault : Type 0 where
  passes : Fault
  fails : (left : Bytes) (left_text : String) → Fault

-- `objects` is keyed by the path below `objects/`, the others by file name.
pub record Disk : Type 0 where
  pub objects : Dict Bytes
  pub snapshots : Dict String
  pub tags : Dict String
  pub faults : List Fault

abbrev pub Io : Type 0 → Type 0
Io A = Disk → Result A × Disk

abbrev pub resume : {A B : Type 0} → Result A → (A → Io B) → Io B
resume (ok a) f d = f a d
resume (err e) f d = (err e, d)

infixl 5 ◌>>=◌ ◌>>◌
abbrev pub ◌>>=◌ : {A B : Type 0} → Io A → (A → Io B) → Io B
◌>>=◌ m f d = let (r, d') = m d in resume r f d'

abbrev pub ◌>>◌ : {B : Type 0} → Io (Unit {0}) → Io B → Io B
m >> k = m >>= λ _. k

abbrev pub pure : {A : Type 0} → A → Io A
pure a d = (ok a, d)

abbrev pub raise : {A : Type 0} → SnapshotError → Io A
raise e d = (err e, d)

abbrev pub lift : {A : Type 0} → Result A → Io A
lift r d = (r, d)

-- Takes the next entry of the schedule.
abbrev pub pop : List Fault → Fault × List Fault
pop [] = (passes, [])
pop (f ∷ fs) = (f, fs)

-- An operation that can fail and changes nothing of the disk.
unfoldable pub may_fail : Io (Unit {0})
may_fail d =
    let (f, fs) = pop d.faults in
    elim f [
      | passes ↦ (ok tt, record d { faults = fs })
      | fails _ _ ↦ (err io, record d { faults = fs })
    ]

may_fail_at_end :
    (d : Disk) → may_fail (record d { faults = [] }) ≡ (ok tt, record d { faults = [] })
unfolding may_fail
may_fail_at_end d = refl

pub may_fail_calm : (d : Disk) → d.faults ≡ [] → may_fail d ≡ (ok tt, d)
may_fail_calm d calm =
    subst (λ fs. may_fail (record d { faults = fs }) ≡ (ok tt, record d { faults = fs })) (sym calm)
      (may_fail_at_end d)

-- The directories of text files.
pub data Area : Type 0 where
  snapshot_files tag_files : Area

abbrev pub files : Area → Disk → Dict String
files snapshot_files d = d.snapshots
files tag_files d = d.tags

abbrev pub set_files : Area → Dict String → Disk → Disk
set_files snapshot_files m d = record d { snapshots = m }
set_files tag_files m d = record d { tags = m }

unfoldable pub write_text : Area → String → String → Io (Unit {0})
write_text area name content d =
    let (f, fs) = pop d.faults in
    elim f [
      | passes ↦
          (ok tt, set_files area (insert name content (files area d)) (record d { faults = fs }))
      | fails _ left ↦
          (err io, set_files area (insert name left (files area d)) (record d { faults = fs }))
    ]

abbrev moved : Area → (from to : String) → Option String → Io (Unit {0})
moved area from to none d = (err io, d)
moved area from to (some content) d =
    (ok tt, set_files area (insert to content (remove from (files area d))) d)

unfoldable pub rename_text : Area → (from to : String) → Io (Unit {0})
rename_text area from to d =
    let (f, fs) = pop d.faults in
    elim f [
      | passes ↦ moved area from to (lookup from (files area d)) (record d { faults = fs })
      | fails _ _ ↦ (err io, record d { faults = fs })
    ]

abbrev pub found_or : SnapshotError → Option String → Result String
found_or e none = err e
found_or e (some content) = ok content

unfoldable pub read_text : SnapshotError → Area → String → Io String
read_text e area name d =
    let (f, fs) = pop d.faults in
    elim f [
      | passes ↦ (found_or e (lookup name (files area d)), record d { faults = fs })
      | fails _ _ ↦ (err e, record d { faults = fs })
    ]

abbrev deleted : Area → String → Option String → Io (Unit {0})
deleted area name none d = (err io, d)
deleted area name (some _) d = (ok tt, set_files area (remove name (files area d)) d)

unfoldable pub remove_text : Area → String → Io (Unit {0})
remove_text area name d =
    let (f, fs) = pop d.faults in
    elim f [
      | passes ↦ deleted area name (lookup name (files area d)) (record d { faults = fs })
      | fails _ _ ↦ (err io, record d { faults = fs })
    ]
