-- ===== src/Snapshot/Keeps.antt =====
-- What an operation leaves of the disk, whatever fails: relations between a disk and a later one, and
-- how they compose.
use sand_d.Prelude.{
  String, some, List, ◌≡◌, refl, sym, ap, subst, ◌∙◌, Bytes, arith, Bool-cases, inl, inr, ◌⊎◌,
}
use sand_d.Prelude.Dict.{lookup}
use sand_d.Snapshot.Types.{Result, Result-cases, ok, err}
use sand_d.Snapshot.Disk.{Fault, passes, fails, Disk, Io, resume, ◌>>=◌, pure, may_fail}
use sand_d.Snapshot.ObjectStore.{
  Blake3, ObjectPath, key, create_dir_all, write_object, rename_object, write_new, store_as,
  put_blob, put_file, hash_to_path, is_there,
}
use sand_d.Snapshot.ObjectStore.Laws.{Holds}
use sand_d.Snapshot.ObjectStore.Safety.{IsAddressed, put_blob_atomic, store_as-Holds}
use sand_d.Snapshot.ObjectStore.Stream.{put_file-eq-put_blob}
use sand_d.Snapshot.Restore.RoundTrip.{IsReader}
use sand_d.Snapshot.Manager.Steps.{Holds-same}

-- Operations that leave the files of the snapshots alone.
module _ {A : Type 0} where
  abbrev pub Frames : Io A → Type 0
  Frames m = (d : Disk) → (m d).1.snapshots ≡ d.snapshots

resume-Frames :
    {A B : Type 0} (r : Result A) (f : A → Io B) (d : Disk)
    → ((a : A) → Frames (f a))
    → (resume r f d).1.snapshots ≡ d.snapshots
resume-Frames (ok a) f d h = h a d
resume-Frames (err e) f d h = refl

pub bind-Frames :
    {A B : Type 0} (m : Io A) (f : A → Io B)
    → Frames m
    → ((a : A) → Frames (f a))
    → Frames (m >>= f)
bind-Frames m f h k d = resume-Frames (m d).0 f (m d).1 k ∙ h d

pub create_dir_all-Frames : Frames create_dir_all
unfolding create_dir_all
create_dir_all-Frames d = ground arith

write_object-Frames : (path : String) (content : Bytes) → Frames (write_object path content)
unfolding write_object
write_object-Frames path content d = ground arith

rename_object-Frames : (from to : String) → Frames (rename_object from to)
unfolding rename_object
rename_object-Frames from to d = ground arith

pure-Frames : {A : Type 0} (a : A) → Frames (pure a)
pure-Frames a d = refl

write_new-Frames :
    (q : ObjectPath) (hash : String) (content : Bytes) → Frames (write_new q hash content)
unfolding write_new
write_new-Frames q hash content = bind-Frames create_dir_all _ create_dir_all-Frames (λ _.
    bind-Frames (write_object _ content) _ (write_object-Frames _ content)
      (λ _. bind-Frames (rename_object _ _) _ (rename_object-Frames _ _) (λ _. pure-Frames hash)))

store_as-Frames : (hash : String) (content : Bytes) → Frames (store_as hash content)
unfolding store_as
store_as-Frames hash content d = elim (Result-cases (hash_to_path hash)) [
  | inl (e, h) ↦ rw (store_as, h) refl
  | inr (q, h) ↦ elim (Bool-cases (is_there (lookup (key q) d.objects))) [
    | inl t ↦ rw (store_as, h, t) refl
    | inr t ↦ rw (store_as, h, t) (write_new-Frames q hash content d)
  ]
]

pub Fault-cases :
    (f : Fault) → (f ≡ passes) ⊎ ((left : Bytes) × (text : String) × (f ≡ fails left text))
Fault-cases passes = inl refl
Fault-cases (fails left text) = inr (left, text, refl)

module _ (B : Blake3) where
  -- Every object is kept, with its content, and lies under its own digest; and the files of the
  -- snapshots of which `P` holds are as they were.
  pub record Keeps (P : String → Type 0) (d d' : Disk) : Type 0 where
    pub addressed : IsAddressed B d → IsAddressed B d'
    pub holds : (hash : String) (content : Bytes) → Holds d hash content → Holds d' hash content
    pub snapshots : (name : String) → P name → lookup name d'.snapshots ≡ lookup name d.snapshots

  abbrev pub IsSafe : {A : Type 0} → (String → Type 0) → Io A → Type 0
  IsSafe P m = (d : Disk) → Keeps P d (m d).1

  pub Keeps-refl : (P : String → Type 0) (d : Disk) → Keeps P d d
  Keeps-refl P d = record {
    addressed = λ a. a;
    holds = λ hash content h. h;
    snapshots = λ name p. refl;
  }

  pub Keeps-trans :
      (P : String → Type 0) {d d' d'' : Disk} → Keeps P d d' → Keeps P d' d'' → Keeps P d d''
  Keeps-trans P k l = record {
    addressed = λ a. l.addressed (k.addressed a);
    holds = λ hash content h. l.holds hash content (k.holds hash content h);
    snapshots = λ name p. l.snapshots name p ∙ k.snapshots name p;
  }

  -- Of fewer snapshots.
  pub Keeps-fewer :
      (P Q : String → Type 0) {d d' : Disk}
      → ((name : String) → P name → Q name)
      → Keeps Q d d'
      → Keeps P d d'
  Keeps-fewer P Q sub k = record {
    addressed = k.addressed;
    holds = k.holds;
    snapshots = λ name p. k.snapshots name (sub name p);
  }

  resume-Keeps :
      {A C : Type 0} (P : String → Type 0) (r : Result A) (f : A → Io C) {d d' : Disk}
      → Keeps P d d'
      → ((a : A) → IsSafe P (f a))
      → Keeps P d (resume r f d').1
  resume-Keeps P (ok a) f {d} {d'} k h = Keeps-trans P k (h a d')
  resume-Keeps P (err e) f k h = k

  pub bind-IsSafe :
      {A C : Type 0} (P : String → Type 0) (m : Io A) (f : A → Io C)
      → IsSafe P m
      → ((a : A) → IsSafe P (f a))
      → IsSafe P (m >>= f)
  bind-IsSafe P m f h k d = resume-Keeps P (m d).0 f (h d) k

  -- The objects, and so what is held, are the same.
  pub Keeps-same :
      (P : String → Type 0) {d d' : Disk}
      → d'.objects ≡ d.objects
      → ((name : String) → P name → lookup name d'.snapshots ≡ lookup name d.snapshots)
      → Keeps P d d'
  Keeps-same P {d} {d'} e s = record {
    addressed = λ a. record { at = λ hash content h. a.at hash content (Holds-same (sym e) h) };
    holds = λ hash content h. Holds-same e h;
    snapshots = s;
  }

  pub may_fail-IsSafe : (P : String → Type 0) → IsSafe P may_fail
  unfolding may_fail
  may_fail-IsSafe P d =
      Keeps-same P {d = d} {d' = (may_fail d).1} (ground arith)
        (λ name p. ap (lookup name) (ground arith))

  pub put_blob-IsSafe : (P : String → Type 0) (content : Bytes) → IsSafe P (put_blob B content)
  unfolding put_blob
  put_blob-IsSafe P content d = record {
    addressed = λ a. (put_blob_atomic B content d a).1;
    holds = λ hash content' h. store_as-Holds (B.hash content) content d h;
    snapshots = λ name p. ap (lookup name) (store_as-Frames (B.hash content) content d);
  }

  module _ (reads : Bytes → List Bytes) (reader : IsReader reads) (P : String → Type 0) where
    pub put_file-IsSafe : (content : Bytes) → IsSafe P (put_file B (some (reads content, content)))
    put_file-IsSafe content d =
        subst (λ m. Keeps P d (m d).1)
          (sym (
            ap (λ rs. put_file B (some (rs, content))) (reader.spelled content)
            ∙ put_file-eq-put_blob B content (reader.pieces content) (reader.rest content)
                (reader.full content) (reader.whole content)))
          (put_blob-IsSafe P content d)
