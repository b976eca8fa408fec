-- ===== src/Snapshot/Build.antt =====
-- sandd/src/snapshot/manager.rs, `build_tree`: a workspace becomes objects of the store. Each step
-- that reads the workspace can fail.
pub mod Safety
use sand_d.Prelude.{
  ℕ, ◌+◌, ◌%◌, String, Bool, Option, none, some, List, [], ◌∷◌, Bytes, u64_mod, length,
  if◌then◌else◌,
}
use sand_d.Prelude.Text.{append}
use sand_d.Snapshot.Types.{
  Result, ok, err, EntryType, blob, tree, symlink, symlink_dir, TreeEntry, WireEntry, Encoding,
  serialize_entries, time_before_epoch,
}
use sand_d.Snapshot.Disk.{may_fail, ◌>>◌, Io, ◌>>=◌, pure, lift}
use sand_d.Snapshot.ObjectStore.{Blake3, put_blob, put_file}
use sand_d.Snapshot.Workspace.{Meta, Node, Entries, file, dir, link, special, end, entry}

-- What one directory entry becomes: its type, hash and size, and what it adds to the counts.
pub record Built : Type 0 where
  pub meta : Meta
  pub entry_type : EntryType
  pub hash : String
  pub size : ℕ
  pub files : ℕ
  pub bytes : ℕ

-- What a directory becomes.
pub record BuiltTree : Type 0 where
  pub entries : List TreeEntry
  pub file_count : ℕ
  pub total_size : ℕ

abbrev pub no_entries : BuiltTree
no_entries = record { entries = []; file_count = 0; total_size = 0 }

-- `Path::join` with one name
abbrev pub join : String → String → String
join path name = append path (append "/" name)

-- `entries.push(…)`, with `file_count` (a `usize` of 64 bits) and `total_size` (a `u64`); an entry
-- that is skipped adds nothing.
abbrev pub add_built : String → Option Built → BuiltTree → BuiltTree
add_built name none t = t
add_built name (some b) t = record {
  entries =
      record {
        name = name;
        mode = b.meta.mode;
        entry_type = b.entry_type;
        hash = b.hash;
        size = b.size;
        modified = b.meta.modified;
      }
      ∷ t.entries;
  file_count = (b.files + t.file_count) % u64_mod;
  total_size = (b.bytes + t.total_size) % u64_mod;
}

abbrev to_wire : Option (List WireEntry) → Result (List WireEntry)
to_wire none = err time_before_epoch
to_wire (some ws) = ok ws

module _ (B : Blake3) (E : Encoding) (reads : Bytes → List Bytes)
    (target_is_dir : String → String → Bool) where
  -- The tree object of a directory.
  unfoldable pub put_tree : List TreeEntry → Io String
  unfolding serialize_entries
  put_tree entries = do
    ws ← lift (to_wire (serialize_entries entries))
    put_blob B (E.tree_to_json ws)

  unfoldable mutual
    unfolding put_tree may_fail

    pub build_node : (path name : String) → Node → Io (Option Built)
    build_node path name (link m target) = do
      may_fail
      hash ← put_blob B (E.as_bytes target)
      may_fail
      pure (
          some (record {
            meta = m;
            entry_type = if target_is_dir path target then symlink_dir else symlink;
            hash = hash;
            size = 0;
            files = 1;
            bytes = 0;
          }))
    build_node path name (file m content) = do
      may_fail
      hash ← put_file B (some (reads content, content))
      may_fail
      pure (
          some (record {
            meta = m;
            entry_type = blob;
            hash = hash;
            size = length content;
            files = 1;
            bytes = length content;
          }))
    build_node path name (dir m len es) = do
      may_fail
      t ← build_entries (join path name) es
      hash ← put_tree t.entries
      may_fail
      pure (
          some (record {
            meta = m;
            entry_type = tree;
            hash = hash;
            size = 0;
            files = t.file_count;
            bytes = t.total_size;
          }))
    build_node path name special = pure none

    pub build_entries : (path : String) → Entries → Io BuiltTree
    build_entries path end = do may_fail; pure no_entries
    build_entries path (entry name node es) = do
      may_fail
      may_fail
      b ← build_node path name node
      rest ← build_entries path es
      pure (add_built name b rest)

  -- The hash of the tree object, the number of files and their total size.
  unfoldable pub build_tree : (path : String) → Entries → Io (String × ℕ × ℕ)
  unfolding build_node put_tree may_fail
  build_tree path es = do
    may_fail
    t ← build_entries path es
    hash ← put_tree t.entries
    pure (hash, t.file_count, t.total_size)
