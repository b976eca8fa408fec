-- ===== src/Snapshot/ObjectStore/Safety.antt =====
-- What callers rely on in the object store.
use sand_d.Prelude.{
  String, ◌≡◌, ◌≢◌, ◌⊎◌, inl, inr, refl, sym, ap, ◌∙◌, arith, ◌==◌, eq_iff, Bytes, Option, none,
  some, [], Option-cases, Bool-cases,
}
use sand_d.Prelude.Dict.{lookup}
use sand_d.Snapshot.Types.{Result, ok, err, io, Result-cases}
use sand_d.Snapshot.Disk.{Disk}
use sand_d.Snapshot.ObjectStore.{
  Blake3, ObjectPath, key, hash_to_path, write_new, store_as, get_blob, put_blob, read_object,
}
use sand_d.Snapshot.ObjectStore.Paths.{
  hash_to_path-IsPathOf, hash_to_path_iff, key_injective, temp_key-ne-key,
}
use sand_d.Snapshot.ObjectStore.Laws.{Holds, Written, failed, done, write_new-Written}

-- `store_as` under a hash that has a path, and without that object.
store_as_new :
    (hash : String) (content : Bytes) (d : Disk) (q : ObjectPath)
    → hash_to_path hash ≡ ok q
    → lookup (key q) d.objects ≡ none
    → store_as hash content d ≡ write_new q hash content d
unfolding store_as
store_as_new hash content d q valid absent = rw (valid, store_as) (rw absent refl)

store_as_old :
    (hash : String) (content : Bytes) (d : Disk) (q : ObjectPath) {old : Bytes}
    → hash_to_path hash ≡ ok q
    → lookup (key q) d.objects ≡ some old
    → store_as hash content d ≡ (ok hash, d)
unfolding store_as
store_as_old hash content d q valid there = rw (valid, store_as) (rw there refl)

store_as_bad :
    (hash : String) (content : Bytes) (d : Disk) {e : _}
    → hash_to_path hash ≡ err e
    → store_as hash content d ≡ (err e, d)
unfolding store_as
store_as_bad hash content d bad = rw (bad, store_as) refl

Written-keeps :
    {q : ObjectPath} {hash : String} {content : Bytes} {p : ObjectPath} {old : Bytes}
    {r : Result String × Disk}
    → key q ≢ key p
    → Written q hash content p (some old) r
    → lookup (key p) r.1.objects ≡ some old
Written-keeps apart (failed _ same) = same
Written-keeps {q} {p = p} apart (done _ new) = ground (arith, eq_iff (key q) (key p))

-- Storing never damages an object, whichever operation fails.
pub store_as-Holds :
    (hash : String) (content : Bytes) (d : Disk) {hash' : String} {content' : Bytes}
    → Holds d hash' content'
    → Holds (store_as hash content d).1 hash' content'
store_as-Holds hash content d {hash'} {content'} held = record {
  path = held.path;
  valid = held.valid;
  stored = elim (Result-cases (hash_to_path hash)) [
    | inl (e, bad) ↦ rw (store_as_bad hash content d bad) held.stored
    | inr (q, valid) ↦ elim (Option-cases (lookup (key q) d.objects)) [
      | inr (old, there) ↦ rw (store_as_old hash content d q valid there) held.stored
      | inl absent ↦
          let v = hash_to_path-IsPathOf hash valid in
          let w = hash_to_path-IsPathOf hash' held.valid in
          let apart : key q ≢ key held.path =
            λ e. cc (absent, held.stored, ap (λ k. lookup k d.objects) e) in
          rw (store_as_new hash content d q valid absent) (
            Written-keeps apart (
              rw held.stored at
                (write_new-Written q hash content held.path d d.faults (temp_key-ne-key v w))))
    ]
  ];
}

pub read_object_calm :
    (hash path : String) (d : Disk) {content : Bytes}
    → d.faults ≡ []
    → lookup path d.objects ≡ some content
    → read_object hash path d ≡ (ok content, d)
unfolding read_object
read_object_calm hash path d {content} calm there =
    simp (calm, read_object)
      (rw there (ap (λ fs. (ok content, record d { faults = fs })) (sym calm)))

module _ (B : Blake3) where
  -- Every object lies under its own digest.
  pub record IsAddressed (d : Disk) : Type 0 where
    pub at : (hash : String) (content : Bytes) → Holds d hash content → B.hash content ≡ hash

  Written-IsAddressed :
      {q : ObjectPath} {content : Bytes} {d : Disk} {hash' : String} {content' : Bytes}
      {r : Result String × Disk} {p : ObjectPath}
      → IsAddressed d
      → hash_to_path (B.hash content) ≡ ok q
      → hash_to_path hash' ≡ ok p
      → lookup (key p) r.1.objects ≡ some content'
      → Written q (B.hash content) content p (lookup (key p) d.objects) r
      → B.hash content' ≡ hash'
  Written-IsAddressed {hash' = hash'} {content' = content'} {p = p} a new valid held
        (failed _ same) =
      a.at hash' content' (record { path = p; valid = valid; stored = sym same ∙ held })
  Written-IsAddressed {q} {content} {d} {hash'} {content'} {r} {p} a new valid held (done _ now) =
      elim (Bool-cases (key q == key p)) [
        | inl same ↦
            let is_new : some content ≡ some content' = ground arith in
            let one =
              key_injective (hash_to_path-IsPathOf (B.hash content) new)
                (hash_to_path-IsPathOf hash' valid) ((eq_iff _ _).0 same) in
            cc (is_new, one)
        | inr apart ↦
            a.at hash' content' (record { path = p; valid = valid; stored = ground arith })
      ]

  -- A digest always has a path.
  pub digest-IsPath : (content : Bytes) → (q : ObjectPath) × (hash_to_path (B.hash content) ≡ ok q)
  digest-IsPath content = (hash_to_path_iff (B.hash content)).1 (B.long content, B.hex content)

  -- Either the object is there and nothing happens, or it is written as a new one.
  pub put_blob-cases :
      (content : Bytes) (d : Disk)
      → ((put_blob B content d ≡ (ok (B.hash content), d))
          × ((old : Bytes) × Holds d (B.hash content) old))
        ⊎ ((q : ObjectPath) × (hash_to_path (B.hash content) ≡ ok q)
            × (put_blob B content d ≡ write_new q (B.hash content) content d))
  unfolding put_blob
  put_blob-cases content d =
      let (q, valid) = digest-IsPath content in
      elim (Option-cases (lookup (key q) d.objects)) [
        | inl absent ↦ inr (q, valid, store_as_new (B.hash content) content d q valid absent)
        | inr (old, there) ↦ inl (
          store_as_old (B.hash content) content d q valid there,
          (old, record { path = q; valid = valid; stored = there }),
        )
      ]

  written :
      (content : Bytes) (d : Disk) (hash' : String) {q p : ObjectPath}
      → hash_to_path (B.hash content) ≡ ok q
      → hash_to_path hash' ≡ ok p
      → Written q
          (B.hash content)
          content
          p
          (lookup (key p) d.objects)
          (write_new q (B.hash content) content d)
  written content d hash' {q} {p} valid valid' =
      write_new-Written q (B.hash content) content p d d.faults (
        temp_key-ne-key (hash_to_path-IsPathOf (B.hash content) valid)
          (hash_to_path-IsPathOf hash' valid'))

  put_blob-IsAddressed :
      (content : Bytes) (d : Disk) → IsAddressed d → IsAddressed (put_blob B content d).1
  put_blob-IsAddressed content d a = elim (put_blob-cases content d) [
    | inl (same, _) ↦ rw same a
    | inr (q, valid, new) ↦ rw new (record {
      at = λ hash' content' held.
          Written-IsAddressed a valid held.valid held.stored
            (written content d hash' valid held.valid);
    })
  ]

  -- Whatever operation fails while a blob is stored, on a disk whose objects lie under their own
  -- digests: the call returns the digest or an I/O error, every object that was there is still
  -- there with its content, and every object lies under its own digest.
  pub put_blob_atomic :
      (content : Bytes) (d : Disk)
      → IsAddressed d
      → let (r, d') = put_blob B content d in
        ((r ≡ err io) ⊎ (r ≡ ok (B.hash content)))
        × IsAddressed d'
        × ((hash' : String) (content' : Bytes) → Holds d hash' content' → Holds d' hash' content')
  put_blob_atomic content d a = (
    elim (put_blob-cases content d) [
      | inl (same, _) ↦ rw same (inr refl)
      | inr (q, valid, new) ↦ rw new (elim (written content d (B.hash content) valid valid) [
        | failed e _ ↦ inl e
        | done e _ ↦ inr e
      ])
    ],
    put_blob-IsAddressed content d a,
    λ hash' content' held. unfold put_blob in store_as-Holds (B.hash content) content d held,
  )

  -- BLAKE3 is collision resistant; the model takes it that no two contents share a digest.
  abbrev pub CollisionFree : Type 0
  CollisionFree = (x y : Bytes) → B.hash x ≡ B.hash y → x ≡ y

  written-Holds :
      {q : ObjectPath} {content : Bytes} {old : Option Bytes} {r : Result String × Disk}
      {hash : String}
      → hash_to_path (B.hash content) ≡ ok q
      → r.0 ≡ ok hash
      → Written q (B.hash content) content q old r
      → Holds r.1 (B.hash content) content
  written-Holds valid success (failed e _) = cc
  written-Holds {q} valid success (done _ now) = record {
    path = q;
    valid = valid;
    stored = ground (arith, now, eq_iff (key q) (key q));
  }

  -- If no two contents share a digest, every object lies under its own digest and storing a blob
  -- succeeds, the store then holds that content under its digest, also where an object of that
  -- digest was there before.
  pub put_blob-Holds :
      CollisionFree
      → (content : Bytes) (d : Disk) {hash : String} → IsAddressed d
      → (put_blob B content d).0 ≡ ok hash
      → (hash ≡ B.hash content) × Holds (put_blob B content d).1 (B.hash content) content
  put_blob-Holds free content d {hash} a success = elim (put_blob-cases content d) [
    | inl (same, (old, held)) ↦ (
      cc (rw same at success),
      rw same (rw (free old content (a.at (B.hash content) old held)) at held),
    )
    | inr (q, valid, new) ↦
        let w = written content d (B.hash content) valid valid in
        let won = rw new at success in
        (
          elim w [ failed e _ ↦ cc (e, won) | done e _ ↦ cc (e, won) ],
          rw new (written-Holds {hash = hash} valid won w),
        )
  ]

  -- A blob that is there is not written again.
  pub put_blob_idempotent :
      (content : Bytes) (d : Disk) {old : Bytes}
      → Holds d (B.hash content) old
      → put_blob B content d ≡ (ok (B.hash content), d)
  unfolding put_blob
  put_blob_idempotent content d h = store_as_old (B.hash content) content d h.path h.valid h.stored

  -- With no failures ahead, an object that the store holds is read back, and nothing changes.
  pub get_blob-Holds :
      (d : Disk) {hash : String} {content : Bytes}
      → d.faults ≡ []
      → Holds d hash content
      → get_blob hash d ≡ (ok content, d)
  unfolding get_blob
  get_blob-Holds d {hash} {content} calm h =
      rw (h.valid, get_blob) (read_object_calm hash (key h.path) d calm h.stored)
