-- ===== src/Snapshot/Manager/Safety.antt =====
-- What `create_snapshot` leaves of the disk, whatever fails.
use sand_d.Prelude.{
  String, Bool, Option, List, [], ◌∷◌, ◌≢◌, refl, ◌∙◌, Bytes, Option-cases, Bool-cases, inl, inr,
}
use sand_d.Prelude.Dict.{lookup, remove, lookup-insert_ne, lookup-remove_ne}
use sand_d.Prelude.Text.{with_tmp}
use sand_d.Snapshot.Types.{Encoding, SystemTime}
use sand_d.Snapshot.Disk.{Disk, pop, lift, snapshot_files, tag_files, write_text, rename_text}
use sand_d.Snapshot.ObjectStore.{Blake3, is_there}
use sand_d.Snapshot.Workspace.{Meta, Entries}
use sand_d.Snapshot.Build.{build_tree}
use sand_d.Snapshot.Build.Safety.{build_tree-IsSafe}
use sand_d.Snapshot.Keeps.{Keeps, IsSafe, Keeps-refl, Keeps-same, bind-IsSafe, Fault-cases}
use sand_d.Snapshot.Restore.RoundTrip.{IsReader}
use sand_d.Snapshot.Tags.{add_tag}
use sand_d.Snapshot.Manager.{
  create_snapshot, validate_all, check_free, add_tags, json_name, unique, or_default,
}

-- The files of other snapshots than `id`.
abbrev pub IsOther : (id name : String) → Type 0
IsOther id name = (with_tmp (json_name id) ≢ name) × (json_name id ≢ name)

module _ (B : Blake3) (P : String → Type 0) where
  write_tag-IsSafe : (name content : String) → IsSafe B P (write_text tag_files name content)
  unfolding write_text
  write_tag-IsSafe name content d = elim (Fault-cases (pop d.faults).0) [
    | inl f ↦ rw (write_text, f) (Keeps-same B P refl (λ _ _. refl))
    | inr (_, _, f) ↦ rw (write_text, f) (Keeps-same B P refl (λ _ _. refl))
  ]

  rename_tag-IsSafe : (from to : String) → IsSafe B P (rename_text tag_files from to)
  unfolding rename_text
  rename_tag-IsSafe from to d = elim (Fault-cases (pop d.faults).0) [
    | inr (_, _, f) ↦ rw (rename_text, f) (Keeps-same B P refl (λ _ _. refl))
    | inl f ↦ elim (Option-cases (lookup from d.tags)) [
      | inl n ↦ rw (rename_text, f, n) (Keeps-same B P refl (λ _ _. refl))
      | inr (c, n) ↦ rw (rename_text, f, n) (Keeps-same B P refl (λ _ _. refl))
    ]
  ]

  write_snapshot-IsSafe :
      (file content : String)
      → ((name : String) → P name → file ≢ name)
      → IsSafe B P (write_text snapshot_files file content)
  unfolding write_text
  write_snapshot-IsSafe file content apart d = elim (Fault-cases (pop d.faults).0) [
    | inl f ↦
        rw (write_text, f)
          (Keeps-same B P refl
            (λ name p. lookup-insert_ne file name content d.snapshots (apart name p)))
    | inr (_, left, f) ↦
        rw (write_text, f)
          (Keeps-same B P refl
            (λ name p. lookup-insert_ne file name left d.snapshots (apart name p)))
  ]

  rename_snapshot-IsSafe :
      (from to : String)
      → ((name : String) → P name → (from ≢ name) × (to ≢ name))
      → IsSafe B P (rename_text snapshot_files from to)
  unfolding rename_text
  rename_snapshot-IsSafe from to apart d = elim (Fault-cases (pop d.faults).0) [
    | inr (_, _, f) ↦ rw (rename_text, f) (Keeps-same B P refl (λ _ _. refl))
    | inl f ↦ elim (Option-cases (lookup from d.snapshots)) [
      | inl n ↦ rw (rename_text, f, n) (Keeps-same B P refl (λ _ _. refl))
      | inr (c, n) ↦
          rw (rename_text, f, n)
            (Keeps-same B P refl (λ name p.
              lookup-insert_ne to name c (remove from d.snapshots) (apart name p).1
              ∙ lookup-remove_ne from name d.snapshots (apart name p).0))
    ]
  ]

  pub validate_all-IsSafe : (tags : List String) → IsSafe B P (validate_all tags)
  unfolding validate_all
  validate_all-IsSafe [] = λ d. Keeps-refl B P d
  validate_all-IsSafe (tag ∷ tags) =
      bind-IsSafe B P (lift _) _ (λ d. Keeps-refl B P d) (λ _. validate_all-IsSafe tags)

  check_free-IsSafe : (tags : List String) → IsSafe B P (check_free tags)
  unfolding check_free
  check_free-IsSafe [] d = Keeps-refl B P d
  check_free-IsSafe (tag ∷ tags) d = elim (Bool-cases (is_there (lookup tag d.tags))) [
    | inl t ↦ rw (check_free, t) (Keeps-refl B P d)
    | inr t ↦ rw (check_free, t) (check_free-IsSafe tags d)
  ]

  add_tags-IsSafe : (id : String) (tags : List String) → IsSafe B P (add_tags id tags)
  unfolding add_tags add_tag
  add_tags-IsSafe id [] = λ d. Keeps-refl B P d
  add_tags-IsSafe id (tag ∷ tags) =
      bind-IsSafe B P (add_tag id tag) _
        (bind-IsSafe B P (write_text tag_files (with_tmp tag) id) _
          (write_tag-IsSafe (with_tmp tag) id) (λ _. rename_tag-IsSafe (with_tmp tag) tag))
        (λ _. add_tags-IsSafe id tags)

-- Whatever fails while a snapshot is created, and wherever it ends: every object that was there is
-- still there with its content, every object lies under its own digest if it did before, and the
-- files of all other snapshots are as they were, so that these can be restored as before.
pub create_snapshot-Keeps :
    (B : Blake3) (E : Encoding) (reads : Bytes → List Bytes)
    (target_is_dir : String → String → Bool) (fresh : Meta)
    → IsReader reads
    → (now : SystemTime) (id path : String) (es : Entries) (message : Option String)
      (tags : Option (List String)) (d : Disk)
    → Keeps B
        (IsOther id)
        d
        (create_snapshot B E reads target_is_dir fresh now id path es message tags d).1
unfolding create_snapshot
create_snapshot-Keeps B E reads target_is_dir fresh reader now id path es message tags d =
    let P : String → Type 0 = IsOther id in
    let tags' = unique (or_default tags) in
    let file = json_name id in
    bind-IsSafe B P (validate_all tags') _ (validate_all-IsSafe B P tags')
      (λ _.
        bind-IsSafe B P (lift _) _ (λ u. Keeps-refl B P u)
          (λ secs. bind-IsSafe B P (check_free tags') _ (check_free-IsSafe B P tags') (λ _.
            bind-IsSafe B P (build_tree B E reads target_is_dir path es) _
              (build_tree-IsSafe B E reads target_is_dir reader P path es)
              (λ t.
                bind-IsSafe B P (write_text snapshot_files (with_tmp file) _) _
                  (write_snapshot-IsSafe B P (with_tmp file) _ (λ name p. p.0))
                  (λ _.
                    bind-IsSafe B P (rename_text snapshot_files (with_tmp file) file) _
                      (rename_snapshot-IsSafe B P (with_tmp file) file (λ name p. p))
                      (λ _.
                        bind-IsSafe B P (add_tags id tags') _ (add_tags-IsSafe B P id tags')
                          (λ _ u. Keeps-refl B P u)))))))
      d
