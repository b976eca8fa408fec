-- ===== src/Snapshot/Build/Safety.antt =====
-- What `build_tree` leaves of the disk, whatever fails.
use sand_d.Prelude.{String, Bool, some, List, Bytes}
use sand_d.Snapshot.Types.{Encoding, TreeEntry}
use sand_d.Snapshot.Disk.{Io, ◌>>=◌, ◌>>◌, pure, lift, may_fail}
use sand_d.Snapshot.ObjectStore.{Blake3, put_blob, put_file}
use sand_d.Snapshot.Workspace.{Node, Entries, file, dir, link, special, end, entry}
use sand_d.Snapshot.Build.{build_node, build_entries, build_tree, put_tree}
use sand_d.Snapshot.Restore.RoundTrip.{IsReader}
use sand_d.Snapshot.Keeps.{
  IsSafe, Keeps-refl, bind-IsSafe, may_fail-IsSafe, put_blob-IsSafe, put_file-IsSafe,
}

module _ (B : Blake3) (E : Encoding) (reads : Bytes → List Bytes)
    (target_is_dir : String → String → Bool) (reader : IsReader reads) (P : String → Type 0) where
  put_tree-IsSafe :
      (entries : List TreeEntry) → IsSafe B P (put_tree B E reads target_is_dir entries)
  unfolding put_tree
  put_tree-IsSafe entries =
      bind-IsSafe B P (lift _) _ (λ d. Keeps-refl B P d)
        (λ ws. put_blob-IsSafe B P (E.tree_to_json ws))

  then_last :
      {A C : Type 0} (m : Io A) (g : A → C)
      → IsSafe B P m
      → IsSafe B P (m >>= λ a. may_fail >> pure (g a))
  then_last m g h =
      bind-IsSafe B P m _ h
        (λ a. bind-IsSafe B P may_fail _ (may_fail-IsSafe B P) (λ _ d. Keeps-refl B P d))

  mutual
    unfolding build_node build_entries

    build_node-IsSafe :
        (path name : String) (node : Node)
        → IsSafe B P (build_node B E reads target_is_dir path name node)
    build_node-IsSafe path name (link m target) =
        bind-IsSafe B P may_fail _ (may_fail-IsSafe B P) (λ _.
          then_last (put_blob B (E.as_bytes target)) _ (put_blob-IsSafe B P (E.as_bytes target)))
    build_node-IsSafe path name (file m content) =
        bind-IsSafe B P may_fail _ (may_fail-IsSafe B P) (λ _.
          then_last (put_file B (some (reads content, content))) _
            (put_file-IsSafe B reads reader P content))
    build_node-IsSafe path name (dir m len es) =
        bind-IsSafe B P may_fail _ (may_fail-IsSafe B P) (λ _.
          bind-IsSafe B P (build_entries B E reads target_is_dir _ es) _ (build_entries-IsSafe _ es)
            (λ t.
              then_last (put_tree B E reads target_is_dir t.entries) _ (put_tree-IsSafe t.entries)))
    build_node-IsSafe path name special = λ d. Keeps-refl B P d

    build_entries-IsSafe :
        (path : String) (es : Entries) → IsSafe B P (build_entries B E reads target_is_dir path es)
    build_entries-IsSafe path end =
        bind-IsSafe B P may_fail _ (may_fail-IsSafe B P) (λ _ d. Keeps-refl B P d)
    build_entries-IsSafe path (entry name node es) =
        bind-IsSafe B P may_fail _ (may_fail-IsSafe B P) (λ _.
          bind-IsSafe B P may_fail _ (may_fail-IsSafe B P) (λ _.
            bind-IsSafe B P (build_node B E reads target_is_dir path name node) _
              (build_node-IsSafe path name node)
              (λ b.
                bind-IsSafe B P (build_entries B E reads target_is_dir path es) _
                  (build_entries-IsSafe path es) (λ rest d. Keeps-refl B P d))))

  pub build_tree-IsSafe :
      (path : String) (es : Entries) → IsSafe B P (build_tree B E reads target_is_dir path es)
  unfolding build_tree
  build_tree-IsSafe path es = bind-IsSafe B P may_fail _ (may_fail-IsSafe B P) (λ _.
      bind-IsSafe B P (build_entries B E reads target_is_dir path es) _
        (build_entries-IsSafe path es)
        (λ t.
          bind-IsSafe B P (put_tree B E reads target_is_dir t.entries) _ (put_tree-IsSafe t.entries)
            (λ hash d. Keeps-refl B P d)))
