-- ===== src/Snapshot/Restore.antt =====
-- sandd/src/snapshot/manager.rs, `restore_tree` (on unix). The destination is what stands there, or
-- nothing. Where a symbolic link or a special file stands at the place of a file, or a link at the
-- place of a directory, the code goes through it; this is outside the model, which stops with
-- `outside_model`. The recursion follows hashes, so it goes by fuel.
pub mod Run
pub mod Spec
pub mod Listing
pub mod Steps
pub mod RoundTrip
pub mod Safety
use sand_d.Prelude.{
  ℕ, zero, suc, ◌+◌, ◌%◌, String, Bool, true, false, ◌&&◌, Option, none, some, List, [], ◌∷◌, Bytes,
  length, if◌then◌else◌, eqb, ◌==◌, contains,
}
use sand_d.Snapshot.Types.{
  Result, ok, err, EntryType, blob, tree, symlink, symlink_dir, TreeEntry, WireEntry, Encoding,
  deserialize_entries, not_json, not_utf8, SystemTime, since_epoch, before_epoch, not_a_directory,
  is_a_directory, already_exists, outside_model, out_of_fuel,
}
use sand_d.Snapshot.Disk.{
  Disk, Io, Fault, passes, fails, ◌>>=◌, ◌>>◌, pure, raise, lift, pop, may_fail,
}
use sand_d.Snapshot.ObjectStore.{Blake3, put_file, get_blob, copy_file, create_dir_all}
use sand_d.Snapshot.Workspace.{
  Meta, Node, Entries, file, dir, link, special, end, entry, find, place,
}

unfoldable pub time_eq : SystemTime → SystemTime → Bool
time_eq (since_epoch s n) (since_epoch s' n') = eqb s s' && eqb n n'
time_eq (before_epoch s n) (before_epoch s' n') = eqb s s' && eqb n n'
time_eq _ _ = false

abbrev pub names : List TreeEntry → List String
names [] = []
names (e ∷ es) = e.name ∷ names es

-- An open directory.
pub record Dir : Type 0 where
  pub meta : Meta
  pub len : ℕ
  pub entries : Entries

abbrev to_entries : Option (List WireEntry) → Result (List TreeEntry)
to_entries none = err not_json
to_entries (some ws) = ok (deserialize_entries ws)

abbrev to_target : Option String → Result String
to_target none = err not_utf8
to_target (some target) = ok target

-- `fresh` is what the system gives a directory or a link that is made anew.
module _ (B : Blake3) (E : Encoding) (reads : Bytes → List Bytes) (fresh : Meta) where
  -- `fs::create_dir_all(dest)`
  abbrev enter : String → Option Node → Result Dir
  enter path none = ok (record { meta = fresh; len = 0; entries = end })
  enter path (some (dir m len es)) = ok (record { meta = m; len = len; entries = es })
  enter path (some (link _ _)) = err outside_model
  enter path (some _) = err (not_a_directory path)

  abbrev stamped : TreeEntry → Meta
  stamped e = record { mode = e.mode; modified = e.modified }

  -- `set_mode` and `set_mtime`
  unfoldable pub stamp : Node → Io Node
  unfolding may_fail
  stamp node = do may_fail; may_fail; pure node

  unfoldable pub copied : TreeEntry → Io Node
  unfolding stamp
  copied e = do content ← copy_file e.hash; stamp (file (stamped e) content)

  -- A file is copied unless its size and time, or else its hash, are those of the entry.
  unfoldable pub restore_blob : TreeEntry → Option Node → Io Node
  unfolding copied stamp time_eq may_fail
  restore_blob e none = copied e
  restore_blob e (some (file m content)) =
      if eqb (length content) e.size && time_eq m.modified e.modified
      then stamp (file (stamped e) content)
      else do
        may_fail
        file_hash ← put_file B (some (reads content, content))
        if file_hash == e.hash then stamp (file (stamped e) content) else copied e
  restore_blob e (some (dir m len es)) =
      if eqb len e.size && time_eq m.modified e.modified
      then stamp (dir (stamped e) len es)
      else raise (is_a_directory e.name)
  restore_blob e (some (link _ _)) = raise outside_model
  restore_blob e (some special) = raise outside_model

  -- `symlink`, where something may still stand.
  abbrev pub symlink_at : (name target : String) → (stands : Bool) → Io Node
  symlink_at name target true = raise (already_exists name)
  symlink_at name target false = do may_fail; pure (link fresh target)

  -- `fs::remove_file`, whose error is ignored, and then `symlink`.
  abbrev pub make_link : String → String → Option Node → Io Node
  make_link name target none d = symlink_at name target false d
  make_link name target (some (dir _ _ _)) d = symlink_at name target true d
  make_link name target (some _) d =
      let (f, fs) = pop d.faults in
      elim f [
        | passes ↦ symlink_at name target false (record d { faults = fs })
        | fails _ _ ↦ symlink_at name target true (record d { faults = fs })
      ]

  unfoldable pub restore_link : TreeEntry → Option Node → Io Node
  unfolding may_fail
  restore_link e o = do
    bytes ← get_blob e.hash
    target ← lift (to_target (E.from_utf8 bytes))
    make_link e.name target o

  abbrev pub Recur : Type 0
  Recur = (hash name : String) → Option Node → Io Node

  unfoldable pub restore_entry : Recur → TreeEntry → EntryType → Option Node → Io Node
  unfolding restore_blob restore_link
  restore_entry recur e blob o = restore_blob e o
  restore_entry recur e tree o = recur e.hash e.name o
  restore_entry recur e symlink o = restore_link e o
  restore_entry recur e symlink_dir o = restore_link e o

  -- Phase 1
  unfoldable pub restore_entries : Recur → List TreeEntry → Entries → Io Entries
  unfolding restore_entry
  restore_entries recur [] es = pure es
  restore_entries recur (e ∷ rest) es = do
    node ← restore_entry recur e e.entry_type (find e.name es)
    restore_entries recur rest (place e.name node es)

  -- One entry of phase 2, before the `others`. A deletion that fails is only logged.
  abbrev pub sweep : List String → String → Node → (others : Io Entries) → Io Entries
  sweep expected_names name node others d =
      if contains expected_names name
      then (do rest ← others; pure (entry name node rest)) d
      else (let (f, fs) = pop d.faults in
          let d' = record d { faults = fs } in
          elim f [
            | passes ↦ others d'
            | fails _ _ ↦ (do rest ← others; pure (entry name node rest)) d'
          ])

  -- Phase 2, by the steps of `next_entry`.
  unfoldable pub clean : List String → Entries → Io Entries
  unfolding may_fail
  clean expected_names end = do may_fail; pure end
  clean expected_names (entry name node es) = do
    may_fail
    sweep expected_names name node (clean expected_names es)

  unfoldable pub restore_tree : (fuel : ℕ) → Recur
  unfolding restore_entries clean deserialize_entries may_fail
  restore_tree zero tree_hash name dest = raise out_of_fuel
  restore_tree (suc fuel) tree_hash name dest = do
    may_fail
    open_dir ← lift (enter name dest)
    tree_json ← get_blob tree_hash
    entries ← lift (to_entries (E.tree_from_json tree_json))
    restored ← restore_entries (restore_tree fuel) entries open_dir.entries
    may_fail
    cleaned ← clean (names entries) restored
    pure (dir open_dir.meta open_dir.len cleaned)
