-- ===== src/Snapshot/Restore/Safety.antt =====
-- What `restore_tree` leaves of the disk of the store, whatever fails.
use sand_d.Prelude.{
  ℕ, zero, suc, String, Bool, true, false, ◌&&◌, Option, none, some, List, [], ◌∷◌, refl, Bytes,
  if◌then◌else◌, Bool-cases, inl, inr, eqb, ◌==◌, contains, length,
}
use sand_d.Snapshot.Types.{
  Result-cases, TreeEntry, EntryType, blob, tree, symlink, symlink_dir, Encoding,
}
use sand_d.Snapshot.Disk.{Disk, Io, pop, pure, lift, may_fail}
use sand_d.Snapshot.ObjectStore.{
  Blake3, key, hash_to_path, create_dir_all, read_object, get_blob, copy_file, put_file,
}
use sand_d.Snapshot.Workspace.{
  Meta, Node, Entries, file, dir, link, special, end, entry, find, place,
}
use sand_d.Snapshot.Keeps.{
  Keeps, IsSafe, Keeps-refl, Keeps-trans, Keeps-same, bind-IsSafe, may_fail-IsSafe, put_file-IsSafe,
  Fault-cases,
}
use sand_d.Snapshot.Restore.RoundTrip.{IsReader}
use sand_d.Snapshot.Restore.{
  time_eq, stamp, copied, restore_blob, make_link, symlink_at, restore_link, restore_entry,
  restore_entries, clean, sweep, restore_tree, Recur, names,
}

module _ (B : Blake3) (P : String → Type 0) where
  create_dir_all-IsSafe : IsSafe B P create_dir_all
  unfolding create_dir_all
  create_dir_all-IsSafe d = elim (Fault-cases (pop d.faults).0) [
    | inl f ↦ rw (create_dir_all, f) (Keeps-same B P refl (λ _ _. refl))
    | inr (_, _, f) ↦ rw (create_dir_all, f) (Keeps-same B P refl (λ _ _. refl))
  ]

  read_object-IsSafe : (hash path : String) → IsSafe B P (read_object hash path)
  unfolding read_object
  read_object-IsSafe hash path d = elim (Fault-cases (pop d.faults).0) [
    | inl f ↦ rw (read_object, f) (Keeps-same B P refl (λ _ _. refl))
    | inr (_, _, f) ↦ rw (read_object, f) (Keeps-same B P refl (λ _ _. refl))
  ]

  get_blob-IsSafe : (hash : String) → IsSafe B P (get_blob hash)
  unfolding get_blob
  get_blob-IsSafe hash d = elim (Result-cases (hash_to_path hash)) [
    | inl (e, h) ↦ rw (get_blob, h) (Keeps-refl B P d)
    | inr (q, h) ↦ rw (get_blob, h) (read_object-IsSafe hash (key q) d)
  ]

  copy_file-IsSafe : (hash : String) → IsSafe B P (copy_file hash)
  unfolding copy_file
  copy_file-IsSafe hash d = elim (Result-cases (hash_to_path hash)) [
    | inl (e, h) ↦ rw (copy_file, h) (Keeps-refl B P d)
    | inr (q, h) ↦
        rw (copy_file, h)
          (bind-IsSafe B P create_dir_all _ create_dir_all-IsSafe
            (λ _. read_object-IsSafe hash (key q)) d)
  ]

  pure-IsSafe : {A : Type 0} (a : A) → IsSafe B P (pure a)
  pure-IsSafe a d = Keeps-refl B P d

  if-IsSafe :
      {A : Type 0} (b : Bool) (m n : Io A)
      → IsSafe B P m
      → IsSafe B P n
      → IsSafe B P (if b then m else n)
  if-IsSafe true m n h k = h
  if-IsSafe false m n h k = k

  module _ (E : Encoding) (reads : Bytes → List Bytes) (fresh : Meta)
      (reader : IsReader reads) where
    stamp-IsSafe : (node : Node) → IsSafe B P (stamp B E reads fresh node)
    unfolding stamp
    stamp-IsSafe node =
        bind-IsSafe B P may_fail _ (may_fail-IsSafe B P)
          (λ _. bind-IsSafe B P may_fail _ (may_fail-IsSafe B P) (λ _. pure-IsSafe node))

    copied-IsSafe : (e : TreeEntry) → IsSafe B P (copied B E reads fresh e)
    unfolding copied
    copied-IsSafe e =
        bind-IsSafe B P (copy_file e.hash) _ (copy_file-IsSafe e.hash) (λ c. stamp-IsSafe _)

    restore_blob-IsSafe :
        (e : TreeEntry) (o : Option Node) → IsSafe B P (restore_blob B E reads fresh e o)
    unfolding restore_blob
    restore_blob-IsSafe e none = copied-IsSafe e
    restore_blob-IsSafe e (some (file m content)) =
        if-IsSafe (eqb (length content) e.size && time_eq m.modified e.modified) _ _
          (stamp-IsSafe _)
          (bind-IsSafe B P may_fail _ (may_fail-IsSafe B P) (λ _.
            bind-IsSafe B P (put_file B (some (reads content, content))) _
              (put_file-IsSafe B reads reader P content)
              (λ h. if-IsSafe (h == e.hash) _ _ (stamp-IsSafe _) (copied-IsSafe e))))
    restore_blob-IsSafe e (some (dir m len es)) =
        if-IsSafe (eqb len e.size && time_eq m.modified e.modified) _ _ (stamp-IsSafe _)
          (λ d. Keeps-refl B P d)
    restore_blob-IsSafe e (some (link _ _)) = λ d. Keeps-refl B P d
    restore_blob-IsSafe e (some special) = λ d. Keeps-refl B P d

    linked : (name target : String) → IsSafe B P (symlink_at B E reads fresh name target false)
    linked name target = bind-IsSafe B P may_fail _ (may_fail-IsSafe B P) (λ _ d. Keeps-refl B P d)

    -- What stands in the way is removed first.
    unlinked :
        (name target : String) (d : Disk)
        → Keeps B P d (make_link B E reads fresh name target (some special) d).1
    unlinked name target d = elim (Fault-cases (pop d.faults).0) [
      | inr (_, _, f) ↦ rw (make_link, f) (Keeps-same B P refl (λ _ _. refl))
      | inl f ↦
          rw (make_link, f)
            (Keeps-trans B P (Keeps-same B P refl (λ _ _. refl))
              (linked name target (record d { faults = (pop d.faults).1 })))
    ]

    make_link-IsSafe :
        (name target : String) (o : Option Node)
        → IsSafe B P (make_link B E reads fresh name target o)
    make_link-IsSafe name target none = linked name target
    make_link-IsSafe name target (some (dir m len es)) = λ d. Keeps-refl B P d
    make_link-IsSafe name target (some (file m c)) = unlinked name target
    make_link-IsSafe name target (some (link m t)) = unlinked name target
    make_link-IsSafe name target (some special) = unlinked name target

    restore_link-IsSafe :
        (e : TreeEntry) (o : Option Node) → IsSafe B P (restore_link B E reads fresh e o)
    unfolding restore_link
    restore_link-IsSafe e o = bind-IsSafe B P (get_blob e.hash) _ (get_blob-IsSafe e.hash) (λ bytes.
        bind-IsSafe B P (lift _) _ (λ d. Keeps-refl B P d)
          (λ target. make_link-IsSafe e.name target o))

    abbrev IsSafeRecur : Recur B E reads fresh → Type 0
    IsSafeRecur recur = (hash name : String) (o : Option Node) → IsSafe B P (recur hash name o)

    restore_entry-IsSafe :
        (recur : Recur B E reads fresh) (e : TreeEntry) (t : EntryType) (o : Option Node)
        → IsSafeRecur recur
        → IsSafe B P (restore_entry B E reads fresh recur e t o)
    unfolding restore_entry
    restore_entry-IsSafe recur e blob o h = restore_blob-IsSafe e o
    restore_entry-IsSafe recur e tree o h = h e.hash e.name o
    restore_entry-IsSafe recur e symlink o h = restore_link-IsSafe e o
    restore_entry-IsSafe recur e symlink_dir o h = restore_link-IsSafe e o

    restore_entries-IsSafe :
        (recur : Recur B E reads fresh) (entries : List TreeEntry) (es : Entries)
        → IsSafeRecur recur
        → IsSafe B P (restore_entries B E reads fresh recur entries es)
    unfolding restore_entries
    restore_entries-IsSafe recur [] es h = pure-IsSafe es
    restore_entries-IsSafe recur (e ∷ rest) es h =
        bind-IsSafe B P (restore_entry B E reads fresh recur e e.entry_type (find e.name es)) _
          (restore_entry-IsSafe recur e e.entry_type (find e.name es) h)
          (λ node. restore_entries-IsSafe recur rest (place e.name node es) h)

    sweep-IsSafe :
        (expected : List String) (name : String) (node : Node) (others : Io Entries)
        → IsSafe B P others
        → IsSafe B P (sweep B E reads fresh expected name node others)
    sweep-IsSafe expected name node others h d =
        let kept = bind-IsSafe B P others _ h (λ rest. pure-IsSafe (entry name node rest)) in
        elim (Bool-cases (contains expected name)) [
          | inl c ↦ rw c (kept d)
          | inr c ↦ elim (Fault-cases (pop d.faults).0) [
            | inl f ↦
                rw (c, f)
                  (Keeps-trans B P (Keeps-same B P refl (λ _ _. refl))
                    (h (record d { faults = (pop d.faults).1 })))
            | inr (_, _, f) ↦
                rw (c, f)
                  (Keeps-trans B P (Keeps-same B P refl (λ _ _. refl))
                    (kept (record d { faults = (pop d.faults).1 })))
          ]
        ]

    clean-IsSafe :
        (expected : List String) (es : Entries) → IsSafe B P (clean B E reads fresh expected es)
    unfolding clean
    clean-IsSafe expected end =
        bind-IsSafe B P may_fail _ (may_fail-IsSafe B P) (λ _. pure-IsSafe end)
    clean-IsSafe expected (entry name node es) =
        bind-IsSafe B P may_fail _ (may_fail-IsSafe B P)
          (λ _. sweep-IsSafe expected name node _ (clean-IsSafe expected es))

    -- Restoring changes no file of a snapshot and damages no object.
    pub restore_tree-IsSafe :
        (fuel : ℕ) (hash name : String) (dest : Option Node)
        → IsSafe B P (restore_tree B E reads fresh fuel hash name dest)
    unfolding restore_tree
    restore_tree-IsSafe zero hash name dest = λ d. Keeps-refl B P d
    restore_tree-IsSafe (suc fuel) hash name dest =
        bind-IsSafe B P may_fail _ (may_fail-IsSafe B P) (λ _.
          bind-IsSafe B P (lift _) _ (λ d. Keeps-refl B P d)
            (λ open_dir. bind-IsSafe B P (get_blob hash) _ (get_blob-IsSafe hash) (λ json.
              bind-IsSafe B P (lift _) _ (λ d. Keeps-refl B P d)
                (λ entries.
                  bind-IsSafe B P
                    (restore_entries B E reads fresh (restore_tree B E reads fresh fuel) entries
                      open_dir.entries)
                    _
                    (restore_entries-IsSafe (restore_tree B E reads fresh fuel) entries
                      open_dir.entries (λ h n o. restore_tree-IsSafe fuel h n o))
                    (λ restored. bind-IsSafe B P may_fail _ (may_fail-IsSafe B P) (λ _.
                      bind-IsSafe B P (clean B E reads fresh (names entries) restored) _
                        (clean-IsSafe (names entries) restored) (λ c d. Keeps-refl B P d)))))))
