-- ===== src/Snapshot/Manager.antt =====
-- sandd/src/snapshot/manager.rs: the operations of `SnapshotManager`. The clock and the new id are
-- arguments of `create_snapshot`. An id is taken as a file name.
pub mod Order
pub mod Steps
pub mod RoundTrip
pub mod Calm
pub mod Safety
pub mod Untouched
pub mod Deletion
pub mod Listing
pub mod Reads
use Prim.Native.Char.{Char, code}
use sand_d.Prelude.{
  ℕ, String, Bool, true, false, Option, none, some, List, [], ◌∷◌, Bytes, ◌==◌, ◌&&◌, eqb,
  if◌then◌else◌,
}
use sand_d.Prelude.Dict.{lookup, keys}
use sand_d.Prelude.Text.{append, with_tmp, file_stem, extension}
use sand_d.Protocol.{SnapshotInfo}
use sand_d.Snapshot.Types.{
  Result, ok, err, Snapshot, to_info, SystemTime, serialize_time, Encoding, io, not_json,
  time_before_epoch, tag_exists, tag_missing, snapshot_not_found,
}
use sand_d.Snapshot.Disk.{
  Disk, Io, Fault, passes, fails, ◌>>=◌, ◌>>◌, pure, raise, lift, pop, Area, snapshot_files,
  write_text, rename_text, read_text, remove_text,
}
use sand_d.Snapshot.ObjectStore.{Blake3, is_there}
use sand_d.Snapshot.Tags.{validate_tag_name, add_tag, remove_tag, get_snapshot_by_tag}
use sand_d.Snapshot.Workspace.{Meta, Node, Entries}
use sand_d.Snapshot.Build.{build_tree}
use sand_d.Snapshot.Restore.{restore_tree}
use sand_d.Snapshot.Manager.Order.{str_leb, sort_by, dedup_by, newest_first, same_id}

abbrev pub json_name : String → String
json_name id = append id ".json"

abbrev pub or_default : Option (List String) → List String
or_default none = []
or_default (some tags) = tags

-- `tags.sort(); tags.dedup()`
unfoldable pub unique : List String → List String
unfolding sort_by dedup_by str_leb
unique tags = dedup_by (λ a b. a == b) (sort_by str_leb tags)

-- `format!("Snapshot {}", snapshot_id)` where there is no message
abbrev pub or_named : String → Option String → String
or_named id none = append "Snapshot " id
or_named id (some message) = message

abbrev pub since_epoch_or : Option ℕ → Result ℕ
since_epoch_or none = err time_before_epoch
since_epoch_or (some secs) = ok secs

abbrev pub parsed : Option Snapshot → Result Snapshot
parsed none = err not_json
parsed (some s) = ok s

unfoldable pub validate_all : List String → Io (Unit {0})
unfolding validate_tag_name
validate_all [] = pure tt
validate_all (tag ∷ tags) = do lift (validate_tag_name tag); validate_all tags

unfoldable pub check_free : List String → Io (Unit {0})
check_free [] d = (ok tt, d)
check_free (tag ∷ tags) d =
    let rest = check_free tags d in
    if is_there (lookup tag d.tags) then (err (tag_exists tag), d) else rest

unfoldable pub add_tags : (snapshot_id : String) → List String → Io (Unit {0})
unfolding add_tag
add_tags snapshot_id [] = pure tt
add_tags snapshot_id (tag ∷ tags) = do add_tag snapshot_id tag; add_tags snapshot_id tags

unfoldable pub remove_tags : List String → Io (Unit {0})
unfolding remove_tag
remove_tags [] = pure tt
remove_tags (tag ∷ tags) = do remove_tag tag; remove_tags tags

-- The next entries of a directory; each step can fail.
unfoldable pub read_names : List String → Io (List String)
read_names [] d =
    let (f, fs) = pop d.faults in
    elim f [
      | passes ↦ (ok [], record d { faults = fs })
      | fails _ _ ↦ (err io, record d { faults = fs })
    ]
read_names (name ∷ names) d =
    let (f, fs) = pop d.faults in
    elim f [
      | passes ↦ (do rest ← read_names names; pure (name ∷ rest)) (record d { faults = fs })
      | fails _ _ ↦ (err io, record d { faults = fs })
    ]

unfoldable pub open_dir : Io (Unit {0})
open_dir d =
    let (f, fs) = pop d.faults in
    elim f [
      | passes ↦ (ok tt, record d { faults = fs })
      | fails _ _ ↦ (err io, record d { faults = fs })
    ]

unfoldable pub read_dir : Io (List String)
unfolding read_names open_dir
read_dir d = (do open_dir; read_names (keys d.snapshots)) d

-- The ids of the files whose extension is `json`.
unfoldable pub json_ids : List String → List String
unfolding extension file_stem
json_ids [] = []
json_ids (name ∷ names) =
    let rest = json_ids names in if extension name == "json" then file_stem name ∷ rest else rest

module _ (E : Encoding) (trim : String → String) where
  -- The metadata of a snapshot, as `restore_snapshot` and `get_snapshot` read it.
  unfoldable pub load : String → Io Snapshot
  unfolding read_text
  load id = do
    json ← read_text (snapshot_not_found id) snapshot_files (json_name id)
    lift (parsed (E.snapshot_from_json json))

  unfoldable pub get_snapshot : String → Io SnapshotInfo
  unfolding load to_info
  get_snapshot id = do snapshot ← load id; pure (to_info snapshot)

  abbrev found : (tag : String) → Option String → Result String
  found tag none = err (tag_missing tag)
  found tag (some id) = ok id

  unfoldable pub tagged_ids : List String → Io (List String)
  unfolding get_snapshot_by_tag
  tagged_ids [] = pure []
  tagged_ids (tag ∷ tags) = do
    o ← get_snapshot_by_tag trim tag
    id ← lift (found tag o)
    ids ← tagged_ids tags
    pure (id ∷ ids)

  unfoldable pub get_all : List String → Io (List SnapshotInfo)
  unfolding get_snapshot
  get_all [] = pure []
  get_all (id ∷ ids) = do
    snapshot ← get_snapshot id
    snapshots ← get_all ids
    pure (snapshot ∷ snapshots)

  unfoldable pub ids_for : Option (List String) → Io (List String)
  unfolding validate_all tagged_ids read_dir json_ids
  ids_for none = do names ← read_dir; pure (json_ids names)
  ids_for (some tags) = do validate_all tags; tagged_ids tags

  unfoldable pub list_snapshots : Option (List String) → Io (List SnapshotInfo)
  unfolding ids_for get_all sort_by dedup_by newest_first
  list_snapshots tags = do
    snapshot_ids ← ids_for tags
    snapshots ← get_all snapshot_ids
    pure (dedup_by same_id (sort_by newest_first snapshots))

  abbrev pub info_of : Option String → Io (Option SnapshotInfo)
  info_of none = pure none
  info_of (some id) = do snapshot ← get_snapshot id; pure (some snapshot)

  unfoldable pub find_snapshot_by_tag : String → Io (Option SnapshotInfo)
  unfolding validate_tag_name get_snapshot_by_tag get_snapshot
  find_snapshot_by_tag tag = do
    lift (validate_tag_name tag)
    o ← get_snapshot_by_tag trim tag
    info_of o

  unfoldable pub delete_snapshot : String → Io (Unit {0})
  unfolding get_snapshot remove_tags remove_text
  delete_snapshot id = do
    snapshot ← get_snapshot id
    remove_tags snapshot.tags
    remove_text snapshot_files (json_name id)

module _ (B : Blake3) (E : Encoding) (reads : Bytes → List Bytes)
    (target_is_dir : String → String → Bool) (fresh : Meta) where
  unfoldable pub create_snapshot :
      (now : SystemTime) (snapshot_id : String) (path : String)
      → Entries
      → Option String
      → Option (List String)
      → Io String
  unfolding unique validate_all check_free build_tree write_text rename_text serialize_time add_tags
  create_snapshot now snapshot_id path workspace message tags =
      let tags' = unique (or_default tags) in
      do
        validate_all tags'
        created_at ← lift (since_epoch_or (serialize_time now))
        check_free tags'
        (tree_hash, file_count, total_size) ← build_tree B E reads target_is_dir path workspace
        let snapshot : Snapshot = record {
          id = snapshot_id;
          created_at = created_at;
          tree = tree_hash;
          message = or_named snapshot_id message;
          tags = tags';
          workspace = path;
          file_count = file_count;
          total_size = total_size;
        }
        let temp_file = with_tmp (json_name snapshot_id)
        write_text snapshot_files temp_file (E.snapshot_to_json snapshot)
        rename_text snapshot_files temp_file (json_name snapshot_id)
        add_tags snapshot_id tags'
        pure snapshot_id

  unfoldable pub restore_snapshot :
      (trim : String → String) (fuel : ℕ) (snapshot_id name : String) → Option Node → Io Node
  unfolding load restore_tree
  restore_snapshot trim fuel snapshot_id name dest = do
    snapshot ← load E trim snapshot_id
    restore_tree B E reads fresh fuel snapshot.tree name dest
