-- ===== src/Snapshot/Manager/Calm.antt =====
-- Reading the metadata of a snapshot on a disk with no failures ahead.
use sand_d.Prelude.{
  String, Option, [], ◌≡◌, refl, sym, subst, List, Bytes, ℕ, Bool, arith, Option-cases, inl, inr,
}
use sand_d.Prelude.Dict.{lookup}
use sand_d.Protocol.{SnapshotInfo}
use sand_d.Snapshot.Types.{Result-cases, ok, to_info, Encoding, snapshot_not_found, SnapshotError}
use sand_d.Snapshot.Disk.{Disk, read_text, snapshot_files, found_or}
use sand_d.Snapshot.ObjectStore.{Blake3}
use sand_d.Snapshot.Workspace.{Meta, Node}
use sand_d.Snapshot.Manager.{load, get_snapshot, restore_snapshot, json_name}

read_text_calm :
    (e : SnapshotError) (name : String) (d : Disk)
    → d.faults ≡ []
    → read_text e snapshot_files name d ≡ (found_or e (lookup name d.snapshots), d)
read_text_calm e name d calm =
    subst
      (λ fs.
        read_text e snapshot_files name (record d { faults = fs })
        ≡ (found_or e (lookup name d.snapshots), record d { faults = fs }))
      (sym calm) (unfold read_text in refl)

-- Loading leaves the disk as it is.
pub load_calm :
    (E : Encoding) (trim : String → String) (id : String) (d : Disk)
    → d.faults ≡ []
    → (load E trim id d).1 ≡ d
unfolding load
load_calm E trim id d calm = elim (Option-cases (lookup (json_name id) d.snapshots)) [
  | inl n ↦ rw (load, read_text_calm (snapshot_not_found id) (json_name id) d calm, n) refl
  | inr (j, n) ↦ rw (load, read_text_calm (snapshot_not_found id) (json_name id) d calm, n) refl
]

pub get_snapshot_calm :
    (E : Encoding) (trim : String → String) (id : String) (d : Disk)
    → d.faults ≡ []
    → (get_snapshot E trim id d).1 ≡ d
unfolding get_snapshot
get_snapshot_calm E trim id d calm = elim (Result-cases (load E trim id d).0) [
  | inl (e, r) ↦ rw (get_snapshot, r) (load_calm E trim id d calm)
  | inr (s, r) ↦ rw (get_snapshot, r) (load_calm E trim id d calm)
]

-- What can be restored can be read.
pub get_snapshot-restore_snapshot :
    (B : Blake3) (E : Encoding) (reads : Bytes → List Bytes)
    (target_is_dir : String → String → Bool) (fresh : Meta) (trim : String → String) (fuel : ℕ)
    (id name : String) (dest : Option Node) (d : Disk) {node : Node}
    → (restore_snapshot B E reads target_is_dir fresh trim fuel id name dest d).0 ≡ ok node
    → (info : SnapshotInfo) × ((get_snapshot E trim id d).0 ≡ ok info)
unfolding restore_snapshot get_snapshot
get_snapshot-restore_snapshot B E reads target_is_dir fresh trim fuel id name dest d h =
    elim (Result-cases (load E trim id d).0) [
      | inr (s, r) ↦ (to_info s, rw (get_snapshot, r) refl)
      | inl (e, r) ↦ absurd (ground (arith, r, h))
    ]
