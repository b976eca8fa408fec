-- ===== src/Snapshot/Manager/RoundTrip.antt =====
-- `create_snapshot` and `restore_snapshot`.
use sand_d.Prelude.{
  ℕ, suc, ◌≤◌, String, Bool, Option, none, some, List, [], ◌≡◌, refl, ◌∙◌, Bytes, All,
}
use sand_d.Prelude.Dict.{lookup, insert, remove, lookup-insert_self}
use sand_d.Prelude.Text.{with_tmp}
use sand_d.Snapshot.Types.{ok, Snapshot, Encoding, SystemTime, serialize_time}
use sand_d.Snapshot.Disk.{Disk, ◌>>◌, pure}
use sand_d.Snapshot.ObjectStore.{Blake3}
use sand_d.Snapshot.ObjectStore.Safety.{CollisionFree}
use sand_d.Snapshot.Tags.Names.{IsTagName}
use sand_d.Snapshot.Workspace.{Meta, Entries, dir}
use sand_d.Snapshot.Restore.Run.{IsGood, Later, Later-trans}
use sand_d.Snapshot.Restore.Spec.{kept_entries, depth_entries, AreProper}
use sand_d.Snapshot.Restore.RoundTrip.{IsReader, restore_tree-build_tree}
use sand_d.Snapshot.Manager.{
  create_snapshot, restore_snapshot, unique, or_default, json_name, or_named, add_tags,
}
use sand_d.Snapshot.Manager.Steps.{
  validate_all-accepted, check_free-free, add_tags_calm, save_calm, load-saved, Later-same,
}

module _ (B : Blake3) (E : Encoding) (reads : Bytes → List Bytes)
    (target_is_dir : String → String → Bool) (fresh : Meta) (free : CollisionFree B)
    (reader : IsReader reads) where
  -- For a digest without collisions and reads that make up each file: on a disk with no failures
  -- ahead, whose objects are addressed by their hashes, creating a snapshot of a workspace whose
  -- directories hold no name twice, and with no time before the epoch, succeeds and returns the
  -- id, if the clock is not before the epoch and the tags are accepted names that no snapshot has.
  -- On every later disk that still has the file of that snapshot, restoring the id where nothing
  -- stands succeeds, with fuel that is more than the nesting of the directories, and yields what a
  -- snapshot keeps of the workspace.
  pub restore_snapshot-create_snapshot :
      (trim : String → String) (now : SystemTime) (secs : ℕ) (id path : String) (es : Entries)
      (message : Option String) (tags : Option (List String)) (d : Disk)
      → IsGood B d
      → AreProper [] es
      → serialize_time now ≡ some secs
      → All IsTagName (unique (or_default tags))
      → All (λ tag. lookup tag d.tags ≡ none) (unique (or_default tags))
      → (last : Disk) × (create_snapshot B E reads target_is_dir fresh now id path es message tags d
          ≡ (ok id, last))
        × Later B d last
        × ((name : String) (d' : Disk)
            → Later B last d'
            → lookup (json_name id) d'.snapshots ≡ lookup (json_name id) last.snapshots
            → (fuel : ℕ) → depth_entries es ≤ fuel
            → restore_snapshot B E reads target_is_dir fresh trim (suc fuel) id name none d'
              ≡ (ok (dir fresh 0 (kept_entries fresh es)), d'))
  unfolding create_snapshot restore_snapshot
  restore_snapshot-create_snapshot trim now secs id path es message tags d g proper timed valid
        unused =
      let (hash, count, size, built, runs, later, restores) =
        restore_tree-build_tree B E reads target_is_dir fresh free reader es path d g proper in
      let snapshot : Snapshot = record {
        id = id;
        created_at = secs;
        tree = hash;
        message = or_named id message;
        tags = unique (or_default tags);
        workspace = path;
        file_count = count;
        total_size = size;
      } in
      let json = E.snapshot_to_json snapshot in
      let file = json_name id in
      let saved =
        insert file json (remove (with_tmp file) (insert (with_tmp file) json built.snapshots)) in
      let d1 : Disk = record built { snapshots = saved } in
      let (m, tagged) = add_tags_calm id (unique (or_default tags)) d1 later.good.calm in
      let last : Disk = record d1 { tags = m } in
      let same = Later-same B built last later.good refl refl in
      (
        last,
        rw
            (
              validate_all-accepted (unique (or_default tags)) d valid,
              timed,
              check_free-free (unique (or_default tags)) d unused,
              runs,
            )
            (rw
              (
                save_calm (with_tmp file) file json
                    (add_tags id (unique (or_default tags)) >> pure id) built later.good.calm,
                tagged,
              )
              refl),
        Later-trans B later same,
        λ name d' l there fuel deep.
            rw
              (load-saved E trim snapshot id d' l.good.calm
                (there ∙ lookup-insert_self file json _))
              (restores name d' (Later-trans B same l) fuel deep),
      )
