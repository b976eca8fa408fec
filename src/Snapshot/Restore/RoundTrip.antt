-- ===== src/Snapshot/Restore/RoundTrip.antt =====
-- A snapshot that was built is restored, where nothing stood, to what it keeps of the workspace.
use sand_d.Prelude.{
  ℕ, suc, ◌≤◌, String, Bool, ◌≡◌, ◌≢◌, refl, none, some, List, [], ◌∷◌, ◌++◌, Bytes, All, flatten,
}
use sand_d.Snapshot.Types.{ok, Encoding}
use sand_d.Snapshot.Disk.{may_fail_calm, Disk}
use sand_d.Snapshot.ObjectStore.{Blake3, put_blob, put_file}
use sand_d.Snapshot.ObjectStore.Laws.{Holds}
use sand_d.Snapshot.ObjectStore.Safety.{CollisionFree}
use sand_d.Snapshot.ObjectStore.Stream.{put_file-eq-put_blob}
use sand_d.Snapshot.Workspace.{Meta, Node, Entries, file, dir, link, special, end, entry}
use sand_d.Snapshot.Build.{no_entries, join, put_tree, build_node, build_entries, build_tree}
use sand_d.Snapshot.Restore.{restore_tree}
use sand_d.Snapshot.Restore.Run.{
  Returns-after, Returns-last, IsGood, Later, Later-trans, Returns, Returns-pure, Returns-bind,
  put_blob-Returns,
}
use sand_d.Snapshot.Restore.Spec.{kept, kept_entries, depth, depth_entries, IsProper, AreProper}
use sand_d.Snapshot.Restore.Listing.{
  NodeOk, skipped, kept_as, EntriesOk, blob-Restorable, link-Restorable, tree-Restorable,
  restore_tree-EntriesOk,
}
use sand_d.Snapshot.Restore.Steps.{
  EntriesOk-end, EntriesOk-Later, NodeOk-Later, EntriesOk-add, put_tree-Returns,
}

-- What `put_file` relies on of the reads of a file: pieces that are not empty and make up the
-- content, and then an empty one.
pub record IsReader (reads : Bytes → List Bytes) : Type 0 where
  pub pieces : Bytes → List Bytes
  pub rest : Bytes → List Bytes
  pub full : (content : Bytes) → All (λ piece. piece ≢ []) (pieces content)
  pub whole : (content : Bytes) → flatten (pieces content) ≡ content
  pub spelled : (content : Bytes) → reads content ≡ pieces content ++ [] ∷ rest content

module _ (B : Blake3) (E : Encoding) (reads : Bytes → List Bytes)
    (target_is_dir : String → String → Bool) (fresh : Meta) (free : CollisionFree B)
    (reader : IsReader reads) where
  put_file-Returns :
      (content : Bytes) (d : Disk)
      → IsGood B d
      → Returns B
          (put_file B (some (reads content, content)))
          d
          (λ hash d'. (hash ≡ B.hash content) × Holds d' (B.hash content) content)
  put_file-Returns content d g =
      rw
        (
          reader.spelled content,
          put_file-eq-put_blob B content (reader.pieces content) (reader.rest content)
              (reader.full content) (reader.whole content),
        )
        (put_blob-Returns B free content d g)

  mutual
    unfolding build_node kept depth IsProper EntriesOk-Later

    build_node-Ok :
        (node : Node) (path name : String) (d : Disk)
        → IsGood B d
        → IsProper node
        → Returns B
            (build_node B E reads target_is_dir path name node)
            d
            (λ built d'. NodeOk B E reads target_is_dir fresh d' node built)
    build_node-Ok (file m content) path name d g p = Returns-after B _ d g (
        Returns-bind B (put_file B (some (reads content, content))) _ d
          (put_file-Returns content d g)
          (λ hash d' l (e, held). Returns-last B _ d' l.good (
            kept_as _ _ refl refl
              (rw e (blob-Restorable B E reads target_is_dir fresh m content d' p held)))))
    build_node-Ok (dir m len es) path name d g p = Returns-after B _ d g (
        Returns-bind B (build_entries B E reads target_is_dir (join path name) es) _ d
          (build_entries-Ok es (join path name) d [] g p.1)
          (λ t d' l o.
            Returns-bind B
              {P = λ hash d''.
                (hash ≡ B.hash (E.tree_to_json o.wire))
                × Holds d'' (B.hash (E.tree_to_json o.wire)) (E.tree_to_json o.wire)}
              (put_tree B E reads target_is_dir t.entries) _ d'
              (put_tree-Returns B E reads target_is_dir fresh free t.entries o.wire d' o.written
                l.good)
              (λ hash d'' l' (e, held). Returns-last B _ d'' l'.good (
                kept_as _ _ refl refl (
                  rw e (
                    tree-Restorable B E reads target_is_dir fresh m es d'' t
                      (EntriesOk-Later B E reads target_is_dir fresh l' o) p.0 held))))))
    build_node-Ok (link m target) path name d g p = Returns-after B _ d g (
        Returns-bind B (put_blob B (E.as_bytes target)) _ d
          (put_blob-Returns B free (E.as_bytes target) d g)
          (λ hash d' l (e, held). Returns-last B _ d' l.good (
            kept_as _ _ refl refl (
              rw e (
                link-Restorable B E reads target_is_dir fresh m target (target_is_dir path target)
                  d' p held)))))
    build_node-Ok special path name d g p = Returns-pure B none d g (skipped refl refl)

    build_entries-Ok :
        (es : Entries) (path : String) (d : Disk) (seen : List String)
        → IsGood B d
        → AreProper seen es
        → Returns B
            (build_entries B E reads target_is_dir path es)
            d
            (λ t d'. EntriesOk B E reads target_is_dir fresh d' es seen t)
    build_entries-Ok end path d seen g p =
        Returns-last B no_entries d g (EntriesOk-end B E reads target_is_dir fresh d seen)
    build_entries-Ok (entry name node es) path d seen g p = Returns-after B _ d g (
        Returns-after B _ d g (
          Returns-bind B (build_node B E reads target_is_dir path name node) _ d
            (build_node-Ok node path name d g p.1)
            (λ built d' l o.
              Returns-bind B (build_entries B E reads target_is_dir path es) _ d'
                (build_entries-Ok es path d' (seen ++ name ∷ []) l.good p.2)
                (λ t d'' l' rest. Returns-pure B _ d'' l'.good (
                  EntriesOk-add B E reads target_is_dir fresh name p.0
                    (NodeOk-Later B E reads target_is_dir fresh l' o) rest)))))

  -- For a digest without collisions and reads that make up each file: on a disk with no failures
  -- ahead, whose objects are addressed by their hashes, building a workspace whose directories
  -- hold no name twice, and with no time before the epoch, succeeds; and where nothing stands,
  -- restoring the hash that it returned succeeds too, on the disk that is left and on every later
  -- one, and yields what a snapshot keeps of the workspace, if the fuel is more than the nesting
  -- of the directories.
  pub restore_tree-build_tree :
      (es : Entries) (path : String) (d : Disk)
      → IsGood B d
      → AreProper [] es
      → (hash : String) × (count : ℕ) × (size : ℕ) × (last : Disk) × (build_tree B E reads
            target_is_dir path es d
          ≡ (ok (hash, count, size), last))
        × Later B d last
        × ((name : String) (d' : Disk)
            → Later B last d'
            → (fuel : ℕ) → depth_entries es ≤ fuel
            → restore_tree B E reads fresh (suc fuel) hash name none d'
              ≡ (ok (dir fresh 0 (kept_entries fresh es)), d'))
  unfolding build_tree EntriesOk-Later
  restore_tree-build_tree es path d g p =
      let t = build_entries-Ok es path d [] g p in
      let o = t.post in
      let h =
        put_tree-Returns B E reads target_is_dir fresh free t.value.entries o.wire t.last o.written
          t.later.good in
      (
        h.value,
        t.value.file_count,
        t.value.total_size,
        h.last,
        rw (may_fail_calm d g.calm, t.runs, h.runs) refl,
        Later-trans B t.later h.later,
        λ name d' l fuel deep. rw (h.post.0) (
            restore_tree-EntriesOk B E reads target_is_dir fresh h.last es t.value
              (EntriesOk-Later B E reads target_is_dir fresh h.later o) h.post.1 name d' l fuel
              deep),
      )
