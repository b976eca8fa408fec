-- ===== src/Snapshot/Workspace.antt =====
-- A directory tree, as `build_tree` reads it and `restore_tree` writes it. A directory's entries are
-- in the order of `read_dir`.
use sand_d.Prelude.{ℕ, String, Option, none, some, Bytes, ◌==◌, if◌then◌else◌}
use sand_d.Snapshot.Types.{SystemTime}

pub record Meta : Type 0 where
  pub mode : ℕ
  pub modified : SystemTime

-- `len` is what the file system reports as the length of a directory. `special` is a pipe, a socket
-- or a device.
mutual
  pub data Node : Type 0 where
    file : Meta → (content : Bytes) → Node
    dir : Meta → (len : ℕ) → Entries → Node
    link : Meta → (target : String) → Node
    special : Node

  pub data Entries : Type 0 where
    end : Entries
    entry : (name : String) → Node → Entries → Entries

unfoldable pub find : String → Entries → Option Node
find name end = none
find name (entry n node es) = if n == name then some node else find name es

-- What stands under a name is replaced, or added at the end.
unfoldable pub place : String → Node → Entries → Entries
place name node end = entry name node end
place name node (entry n old es) =
    let rest = place name node es in if n == name then entry name node es else entry n old rest
