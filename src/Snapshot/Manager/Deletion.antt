-- ===== src/Snapshot/Manager/Deletion.antt =====
-- What `delete_snapshot` leaves.
use sand_d.Prelude.{
  String, none, some, List, [], ◌∷◌, ◌≡◌, ◌≢◌, refl, sym, subst, arith, inl, inr, ◌==◌, eq_iff,
  if◌then◌else◌, contains, Option-cases,
}
use sand_d.Prelude.Dict.{Dict, lookup, remove, lookup-remove, lookup-remove_self, lookup-remove_ne}
use sand_d.Snapshot.Types.{ok, err, Snapshot, Encoding, to_info, snapshot_not_found}
use sand_d.Snapshot.Disk.{Disk, snapshot_files, tag_files, remove_text, read_text}
use sand_d.Snapshot.Tags.{remove_tag}
use sand_d.Snapshot.Manager.{remove_tags, delete_snapshot, get_snapshot, load, json_name}
use sand_d.Snapshot.Manager.Steps.{load-saved}

remove_file_calm :
    (name : String) {content : String} (d : Disk)
    → d.faults ≡ []
    → lookup name d.snapshots ≡ some content
    → remove_text snapshot_files name d ≡ (ok tt, record d { snapshots = remove name d.snapshots })
remove_file_calm name d calm there =
    subst
      (λ fs.
        remove_text snapshot_files name (record d { faults = fs })
        ≡ (ok tt, record d { snapshots = remove name d.snapshots; faults = fs }))
      (sym calm) (unfold remove_text in rw there refl)

remove_ref_calm :
    (name : String) {content : String} (d : Disk)
    → d.faults ≡ []
    → lookup name d.tags ≡ some content
    → remove_text tag_files name d ≡ (ok tt, record d { tags = remove name d.tags })
remove_ref_calm name d calm there =
    subst
      (λ fs.
        remove_text tag_files name (record d { faults = fs })
        ≡ (ok tt, record d { tags = remove name d.tags; faults = fs }))
      (sym calm) (unfold remove_text in rw there refl)

load-missing :
    (E : Encoding) (trim : String → String) (id : String) (d : Disk)
    → d.faults ≡ []
    → lookup (json_name id) d.snapshots ≡ none
    → load E trim id d ≡ (err (snapshot_not_found id), d)
load-missing E trim id d calm gone =
    subst
      (λ fs.
        load E trim id (record d { faults = fs })
        ≡ (err (snapshot_not_found id), record d { faults = fs }))
      (sym calm) (unfold load read_text in rw gone refl)

abbrev Removed : String → Disk → Dict String → Type 0
Removed tag d m =
    (remove_tag tag d ≡ (ok tt, record d { tags = m }))
    × ((u : String) → lookup u m ≡ (if tag == u then none else lookup u d.tags))

remove_tag_calm : (tag : String) (d : Disk) → d.faults ≡ [] → (m : Dict String) × Removed tag d m
unfolding remove_tag
remove_tag_calm tag d calm = elim (Option-cases (lookup tag d.tags)) [
  | inl absent ↦ (d.tags, (rw absent refl, λ u. ground (arith, eq_iff tag u)))
  | inr (id, there) ↦ (
    remove tag d.tags,
    (rw there (remove_ref_calm tag d calm there), λ u. lookup-remove tag u d.tags),
  )
]

remove_tags_calm :
    (tags : List String) (d : Disk)
    → d.faults ≡ []
    → (m : Dict String) × (remove_tags tags d ≡ (ok tt, record d { tags = m }))
      × ((u : String) → lookup u m ≡ (if contains tags u then none else lookup u d.tags))
unfolding remove_tags
remove_tags_calm [] d calm = (d.tags, refl, λ u. refl)
remove_tags_calm (tag ∷ tags) d calm =
    let (m, (removed, looks)) = remove_tag_calm tag d calm in
    let (m', removed', looks') = remove_tags_calm tags (record d { tags = m }) calm in
    (m', rw (removed, removed') refl, λ u. ground (arith, looks u, looks' u))

delete_snapshot_calm :
    (E : Encoding) (trim : String → String) (id : String) (s : Snapshot) (d : Disk)
    → d.faults ≡ []
    → lookup (json_name id) d.snapshots ≡ some (E.snapshot_to_json s)
    → (m : Dict String) × (delete_snapshot E trim id d
        ≡ (ok tt, record d { tags = m; snapshots = remove (json_name id) d.snapshots }))
      × ((u : String) → lookup u m ≡ (if contains s.tags u then none else lookup u d.tags))
unfolding delete_snapshot get_snapshot to_info
delete_snapshot_calm E trim id s d calm there =
    let (m, runs, looks) = remove_tags_calm s.tags d calm in
    let last = remove_file_calm (json_name id) (record d { tags = m }) calm there in
    (m, rw (load-saved E trim s id d calm there, runs, last) refl, looks)

-- With no failures ahead, deleting a snapshot whose file is there succeeds: its tags are gone and
-- every other tag stays, the snapshot is found no more, and neither an object nor the file of another
-- snapshot is touched.
pub delete_snapshot_effect :
    (E : Encoding) (trim : String → String) (id : String) (s : Snapshot) (d : Disk)
    → d.faults ≡ []
    → lookup (json_name id) d.snapshots ≡ some (E.snapshot_to_json s)
    → let r = delete_snapshot E trim id d in
      (r.0 ≡ ok tt)
      × ((u : String) → lookup u r.1.tags ≡ (if contains s.tags u then none else lookup u d.tags))
      × ((get_snapshot E trim id r.1).0 ≡ err (snapshot_not_found id))
      × (r.1.objects ≡ d.objects)
      × ((name : String)
          → json_name id ≢ name
          → lookup name r.1.snapshots ≡ lookup name d.snapshots)
unfolding get_snapshot
delete_snapshot_effect E trim id s d calm there =
    let (m, runs, looks) = delete_snapshot_calm E trim id s d calm there in
    let gone = lookup-remove_self (json_name id) d.snapshots in
    let last : Disk = record d { tags = m; snapshots = remove (json_name id) d.snapshots } in
    rw runs (
      refl,
      looks,
      rw (load-missing E trim id last calm gone) refl,
      refl,
      λ name other. lookup-remove_ne (json_name id) name d.snapshots other,
    )
