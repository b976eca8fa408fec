-- ===== src/Snapshot/Restore/Run.antt =====
-- Operations on a disk whose schedule of failures is over, and how a successful run composes.
use sand_d.Prelude.{◌≡◌, refl, ap, sym, subst, String, Bytes, [], inl, inr}
use sand_d.Prelude.Dict.{lookup-insert_self}
use sand_d.Snapshot.Types.{Result, ok}
use sand_d.Snapshot.Disk.{may_fail, may_fail_calm, Disk, Io, ◌>>=◌, ◌>>◌, pure}
use sand_d.Snapshot.ObjectStore.{
  Blake3, ObjectPath, key, temp_key, put_blob, copy_file, write_new, create_dir_all, write_object,
  rename_object, read_object,
}
use sand_d.Snapshot.ObjectStore.Laws.{Holds}
use sand_d.Snapshot.ObjectStore.Safety.{
  IsAddressed, CollisionFree, put_blob_atomic, put_blob-Holds, put_blob-cases,
}

write_new_at_end :
    (q : ObjectPath) (hash : String) (content : Bytes) (d : Disk)
    → let r = write_new q hash content (record d { faults = [] }) in
      (r.0 ≡ ok hash) × (r.1.faults ≡ [])
unfolding write_new create_dir_all write_object rename_object
write_new_at_end q hash content d =
    let there = lookup-insert_self (temp_key q) content d.objects in (rw there refl, rw there refl)

-- Writing an object on a disk with no failures ahead succeeds, and leaves no failures ahead.
write_new_calm :
    (q : ObjectPath) (hash : String) (content : Bytes) (d : Disk)
    → d.faults ≡ []
    → ((write_new q hash content d).0 ≡ ok hash) × ((write_new q hash content d).1.faults ≡ [])
write_new_calm q hash content d calm =
    subst
      (λ fs.
        let r = write_new q hash content (record d { faults = fs }) in
        (r.0 ≡ ok hash) × (r.1.faults ≡ []))
      (sym calm) (write_new_at_end q hash content d)

module _ (B : Blake3) where
  pub record IsGood (d : Disk) : Type 0 where
    pub calm : d.faults ≡ []
    pub addressed : IsAddressed B d

  -- What a later disk still has.
  pub record Later (d d' : Disk) : Type 0 where
    pub good : IsGood d'
    pub keeps : (hash : String) (content : Bytes) → Holds d hash content → Holds d' hash content

  pub Later-refl : (d : Disk) → IsGood d → Later d d
  Later-refl d g = record { good = g; keeps = λ hash content h. h }

  pub Later-trans : {d d' d'' : Disk} → Later d d' → Later d' d'' → Later d d''
  Later-trans l m = record {
    good = m.good;
    keeps = λ hash content h. m.keeps hash content (l.keeps hash content h);
  }

  -- A run that succeeds, with what its result and its last disk satisfy.
  pub record Returns {A : Type 0} (m : Io A) (d : Disk) (P : A → Disk → Type 0) : Type 0 where
    pub value : A
    pub last : Disk
    pub runs : m d ≡ (ok value, last)
    pub later : Later d last
    pub post : P value last

  pub Returns-pure :
      {A : Type 0} {P : A → Disk → Type 0} (a : A) (d : Disk)
      → IsGood d
      → P a d
      → Returns (pure a) d P
  Returns-pure a d g p = record {
    value = a;
    last = d;
    runs = refl;
    later = Later-refl d g;
    post = p;
  }

  pub Returns-bind :
      {A C : Type 0} {P : A → Disk → Type 0} {Q : C → Disk → Type 0} (m : Io A) (f : A → Io C)
      (d : Disk)
      → Returns m d P
      → ((a : A) (d' : Disk) → Later d d' → P a d' → Returns (f a) d' Q)
      → Returns (m >>= f) d Q
  Returns-bind m f d r k =
      let s = k r.value r.last r.later r.post in
      record {
        value = s.value;
        last = s.last;
        runs = rw r.runs s.runs;
        later = Later-trans r.later s.later;
        post = s.post;
      }

  pub Returns-after :
      {A : Type 0} {P : A → Disk → Type 0} (k : Io A) (d : Disk)
      → IsGood d
      → Returns k d P
      → Returns (may_fail >> k) d P
  Returns-after k d g r = record {
    value = r.value;
    last = r.last;
    runs = rw (may_fail_calm d g.calm) r.runs;
    later = r.later;
    post = r.post;
  }

  pub Returns-last :
      {A : Type 0} {P : A → Disk → Type 0} (a : A) (d : Disk)
      → IsGood d
      → P a d
      → Returns (may_fail >> pure a) d P
  Returns-last a d g p = Returns-after (pure a) d g (Returns-pure a d g p)

  module _ (free : CollisionFree B) where
    put_blob_calm :
        (content : Bytes) (d : Disk)
        → d.faults ≡ []
        → ((put_blob B content d).0 ≡ ok (B.hash content)) × ((put_blob B content d).1.faults ≡ [])
    put_blob_calm content d calm = elim (put_blob-cases B content d) [
      | inl (same, _) ↦ (rw same refl, rw same calm)
      | inr (q, _, new) ↦ rw new (write_new_calm q (B.hash content) content d calm)
    ]

    pub put_blob-Returns :
        (content : Bytes) (d : Disk)
        → IsGood d
        → Returns
            (put_blob B content)
            d
            (λ hash d'. (hash ≡ B.hash content) × Holds d' (B.hash content) content)
    put_blob-Returns content d g =
        let (success, calm) = put_blob_calm content d g.calm in
        let (_, addressed, keeps) = put_blob_atomic B content d g.addressed in
        let (_, held) = put_blob-Holds B free content d g.addressed success in
        record {
          value = B.hash content;
          last = (put_blob B content d).1;
          runs = ap (λ (r : Result String). (r, (put_blob B content d).1)) success;
          later = record { good = record { calm = calm; addressed = addressed }; keeps = keeps };
          post = (refl, held);
        }

  -- Reading and copying an object that is held change nothing.
  pub copy_file-Holds :
      (d : Disk) {hash : String} {content : Bytes}
      → IsGood d
      → Holds d hash content
      → copy_file hash d ≡ (ok content, d)
  unfolding copy_file
  copy_file-Holds d {hash} {content} g h =
      rw (h.valid, copy_file)
        (subst
          (λ fs.
            (do create_dir_all; read_object hash (key h.path)) (record d { faults = fs })
            ≡ (ok content, record d { faults = fs }))
          (sym g.calm) (unfold create_dir_all read_object in rw h.stored refl))
