-- ===== src/Snapshot/Manager/Untouched.antt =====
-- What the operations of the manager other than `create_snapshot` leave of the disk, whatever fails.
use sand_d.Prelude.{
  ℕ, String, Bool, Option, none, some, List, [], ◌∷◌, ◌≢◌, refl, Bytes, Option-cases, Bool-cases,
  inl, inr,
}
use sand_d.Prelude.Dict.{lookup, keys, lookup-remove_ne}
use sand_d.Snapshot.Types.{Encoding, SnapshotError}
use sand_d.Snapshot.Disk.{pop, pure, lift, Area, snapshot_files, tag_files, read_text, remove_text}
use sand_d.Snapshot.ObjectStore.{Blake3, is_there}
use sand_d.Snapshot.Workspace.{Meta, Node}
use sand_d.Snapshot.Restore.RoundTrip.{IsReader}
use sand_d.Snapshot.Restore.Safety.{restore_tree-IsSafe}
use sand_d.Snapshot.Keeps.{IsSafe, Keeps-refl, Keeps-trans, Keeps-same, bind-IsSafe, Fault-cases}
use sand_d.Snapshot.Tags.{remove_tag, get_snapshot_by_tag}
use sand_d.Snapshot.Manager.{
  validate_all, remove_tags, read_names, open_dir, read_dir, load, get_snapshot, tagged_ids,
  get_all, ids_for, info_of, list_snapshots, find_snapshot_by_tag, delete_snapshot,
  restore_snapshot, json_name,
}
use sand_d.Snapshot.Manager.Safety.{validate_all-IsSafe}

module _ (B : Blake3) (P : String → Type 0) where
  read_text-IsSafe :
      (e : SnapshotError) (area : Area) (name : String) → IsSafe B P (read_text e area name)
  unfolding read_text
  read_text-IsSafe e area name d = elim (Fault-cases (pop d.faults).0) [
    | inl f ↦ rw (read_text, f) (Keeps-same B P refl (λ _ _. refl))
    | inr (_, _, f) ↦ rw (read_text, f) (Keeps-same B P refl (λ _ _. refl))
  ]

  remove_tag_file-IsSafe : (name : String) → IsSafe B P (remove_text tag_files name)
  unfolding remove_text
  remove_tag_file-IsSafe name d = elim (Fault-cases (pop d.faults).0) [
    | inr (_, _, f) ↦ rw (remove_text, f) (Keeps-same B P refl (λ _ _. refl))
    | inl f ↦ elim (Option-cases (lookup name d.tags)) [
      | inl n ↦ rw (remove_text, f, n) (Keeps-same B P refl (λ _ _. refl))
      | inr (c, n) ↦ rw (remove_text, f, n) (Keeps-same B P refl (λ _ _. refl))
    ]
  ]

  remove_file-IsSafe :
      (file : String)
      → ((name : String) → P name → file ≢ name)
      → IsSafe B P (remove_text snapshot_files file)
  unfolding remove_text
  remove_file-IsSafe file apart d = elim (Fault-cases (pop d.faults).0) [
    | inr (_, _, f) ↦ rw (remove_text, f) (Keeps-same B P refl (λ _ _. refl))
    | inl f ↦ elim (Option-cases (lookup file d.snapshots)) [
      | inl n ↦ rw (remove_text, f, n) (Keeps-same B P refl (λ _ _. refl))
      | inr (c, n) ↦
          rw (remove_text, f, n)
            (Keeps-same B P refl (λ name p. lookup-remove_ne file name d.snapshots (apart name p)))
    ]
  ]

  remove_tags-IsSafe : (tags : List String) → IsSafe B P (remove_tags tags)
  unfolding remove_tags remove_tag
  remove_tags-IsSafe [] = λ d. Keeps-refl B P d
  remove_tags-IsSafe (tag ∷ tags) =
      bind-IsSafe B P (remove_tag tag) _ (remove_one tag) (λ _. remove_tags-IsSafe tags)
    where
      remove_one : (tag : String) → IsSafe B P (remove_tag tag)
      remove_one tag d = elim (Bool-cases (is_there (lookup tag d.tags))) [
        | inl t ↦ rw (remove_tag, t) (remove_tag_file-IsSafe tag d)
        | inr t ↦ rw (remove_tag, t) (Keeps-refl B P d)
      ]

  read_names-IsSafe : (names : List String) → IsSafe B P (read_names names)
  unfolding read_names
  read_names-IsSafe [] d = elim (Fault-cases (pop d.faults).0) [
    | inl f ↦ rw (read_names, f) (Keeps-same B P refl (λ _ _. refl))
    | inr (_, _, f) ↦ rw (read_names, f) (Keeps-same B P refl (λ _ _. refl))
  ]
  read_names-IsSafe (name ∷ names) d = elim (Fault-cases (pop d.faults).0) [
    | inr (_, _, f) ↦ rw (read_names, f) (Keeps-same B P refl (λ _ _. refl))
    | inl f ↦
        rw (read_names, f)
          (Keeps-trans B P (Keeps-same B P refl (λ _ _. refl)) (
            bind-IsSafe B P (read_names names) (λ rest. pure (name ∷ rest))
              (read_names-IsSafe names) (λ _ u. Keeps-refl B P u)
              (record d { faults = (pop d.faults).1 })))
  ]

  read_dir-IsSafe : IsSafe B P read_dir
  unfolding read_dir open_dir
  read_dir-IsSafe d =
      bind-IsSafe B P open_dir _ open_dir-IsSafe (λ _. read_names-IsSafe (keys d.snapshots)) d
    where
      open_dir-IsSafe : IsSafe B P open_dir
      open_dir-IsSafe u = elim (Fault-cases (pop u.faults).0) [
        | inl f ↦ rw (open_dir, f) (Keeps-same B P refl (λ _ _. refl))
        | inr (_, _, f) ↦ rw (open_dir, f) (Keeps-same B P refl (λ _ _. refl))
      ]

  module _ (E : Encoding) (trim : String → String) where
    load-IsSafe : (id : String) → IsSafe B P (load E trim id)
    unfolding load
    load-IsSafe id =
        bind-IsSafe B P (read_text _ snapshot_files (json_name id)) _
          (read_text-IsSafe _ snapshot_files (json_name id)) (λ _ d. Keeps-refl B P d)

    pub get_snapshot-IsSafe : (id : String) → IsSafe B P (get_snapshot E trim id)
    unfolding get_snapshot
    get_snapshot-IsSafe id =
        bind-IsSafe B P (load E trim id) _ (load-IsSafe id) (λ _ d. Keeps-refl B P d)

    get_snapshot_by_tag-IsSafe : (tag : String) → IsSafe B P (get_snapshot_by_tag trim tag)
    unfolding get_snapshot_by_tag
    get_snapshot_by_tag-IsSafe tag d = elim (Bool-cases (is_there (lookup tag d.tags))) [
      | inl t ↦
          rw (get_snapshot_by_tag, t)
            (bind-IsSafe B P (read_text _ tag_files tag) (λ content. pure (some (trim content)))
              (read_text-IsSafe _ tag_files tag) (λ _ u. Keeps-refl B P u) d)
      | inr t ↦ rw (get_snapshot_by_tag, t) (Keeps-refl B P d)
    ]

    tagged_ids-IsSafe : (tags : List String) → IsSafe B P (tagged_ids E trim tags)
    unfolding tagged_ids
    tagged_ids-IsSafe [] = λ d. Keeps-refl B P d
    tagged_ids-IsSafe (tag ∷ tags) =
        bind-IsSafe B P (get_snapshot_by_tag trim tag) _ (get_snapshot_by_tag-IsSafe tag) (λ o.
          bind-IsSafe B P (lift _) _ (λ d. Keeps-refl B P d)
            (λ id.
              bind-IsSafe B P (tagged_ids E trim tags) _ (tagged_ids-IsSafe tags)
                (λ _ d. Keeps-refl B P d)))

    get_all-IsSafe : (ids : List String) → IsSafe B P (get_all E trim ids)
    unfolding get_all
    get_all-IsSafe [] = λ d. Keeps-refl B P d
    get_all-IsSafe (id ∷ ids) =
        bind-IsSafe B P (get_snapshot E trim id) _ (get_snapshot-IsSafe id) (λ s.
          bind-IsSafe B P (get_all E trim ids) _ (get_all-IsSafe ids) (λ _ d. Keeps-refl B P d))

    ids_for-IsSafe : (tags : Option (List String)) → IsSafe B P (ids_for E trim tags)
    unfolding ids_for
    ids_for-IsSafe none = bind-IsSafe B P read_dir _ read_dir-IsSafe (λ _ d. Keeps-refl B P d)
    ids_for-IsSafe (some tags) =
        bind-IsSafe B P (validate_all tags) _ (validate_all-IsSafe B P tags)
          (λ _. tagged_ids-IsSafe tags)

    pub list_snapshots-IsSafe :
        (tags : Option (List String)) → IsSafe B P (list_snapshots E trim tags)
    unfolding list_snapshots
    list_snapshots-IsSafe tags =
        bind-IsSafe B P (ids_for E trim tags) _ (ids_for-IsSafe tags) (λ ids.
          bind-IsSafe B P (get_all E trim ids) _ (get_all-IsSafe ids) (λ _ d. Keeps-refl B P d))

    info_of-IsSafe : (o : Option String) → IsSafe B P (info_of E trim o)
    info_of-IsSafe none = λ d. Keeps-refl B P d
    info_of-IsSafe (some id) =
        bind-IsSafe B P (get_snapshot E trim id) _ (get_snapshot-IsSafe id)
          (λ _ d. Keeps-refl B P d)

    pub find_snapshot_by_tag-IsSafe : (tag : String) → IsSafe B P (find_snapshot_by_tag E trim tag)
    unfolding find_snapshot_by_tag
    find_snapshot_by_tag-IsSafe tag =
        bind-IsSafe B P (lift _) _ (λ d. Keeps-refl B P d)
          (λ _.
            bind-IsSafe B P (get_snapshot_by_tag trim tag) _ (get_snapshot_by_tag-IsSafe tag)
              info_of-IsSafe)

    pub delete_snapshot-IsSafe :
        (id : String)
        → ((name : String) → P name → json_name id ≢ name)
        → IsSafe B P (delete_snapshot E trim id)
    unfolding delete_snapshot
    delete_snapshot-IsSafe id apart =
        bind-IsSafe B P (get_snapshot E trim id) _ (get_snapshot-IsSafe id) (λ s.
          bind-IsSafe B P (remove_tags s.tags) _ (remove_tags-IsSafe s.tags)
            (λ _. remove_file-IsSafe (json_name id) apart))

    module _ (reads : Bytes → List Bytes) (target_is_dir : String → String → Bool) (fresh : Meta)
        (fuel : ℕ) (reader : IsReader reads) where
      pub restore_snapshot-IsSafe :
          (id name : String) (dest : Option Node)
          → IsSafe B P (restore_snapshot B E reads target_is_dir fresh trim fuel id name dest)
      unfolding restore_snapshot
      restore_snapshot-IsSafe id name dest =
          bind-IsSafe B P (load E trim id) _ (load-IsSafe id)
            (λ s. restore_tree-IsSafe B P E reads fresh reader fuel s.tree name dest)
