-- ===== src/Snapshot/ObjectStore.antt =====
-- sandd/src/snapshot/object_store.rs: a store of byte strings under their own hash.
pub mod Paths
pub mod Laws
pub mod Safety
pub mod Stream
use sand_d.Prelude.{
  ℕ, ◌≤◌, String, Bool, true, false, not, Option, none, some, List, [], ◌∷◌, ◌≡◌, ◌&&◌, ◌||◌, Bytes,
  ◌++◌, ltb, leb, if◌then◌else◌,
}
use sand_d.Prelude.Dict.{Dict, lookup, insert, remove}
use sand_d.Prelude.Text.{byte_len, all_chars, append, with_tmp}
use sand_d.Snapshot.Types.{Result, ok, err, io, hash_too_short, hash_not_hex, object_not_found}
use sand_d.Snapshot.Disk.{Disk, Fault, passes, fails, Io, ◌>>=◌, ◌>>◌, pure, raise, lift, pop}

-- `char::is_ascii_hexdigit`
abbrev pub is_ascii_hexdigit : ℕ → Bool
is_ascii_hexdigit c =
    (leb b'0' c && leb c b'9') || (leb b'a' c && leb c b'f') || (leb b'A' c && leb c b'F')

-- The hashing loop of `put_file`, over the pieces that the reads return.
abbrev pub feed {ℓ} : {H : Type ℓ} → (H → Bytes → H) → H → List Bytes → H
feed update hasher [] = hasher
feed update hasher (chunk ∷ chunks) = feed update (update hasher chunk) chunks

-- What the code relies on of BLAKE3: a digest is printed in hexadecimal and is not too short; a new
-- hasher has taken no bytes, an update adds bytes at the end of those that it has taken, and it ends
-- with the digest of these.
pub record Blake3 : Type 1 where
  pub hash : Bytes → String
  pub Hasher : Type 0
  pub new : Hasher
  pub update : Hasher → Bytes → Hasher
  pub finalize : Hasher → String
  pub long : (b : Bytes) → 3 ≤ byte_len (hash b)
  pub hex : (b : Bytes) → all_chars is_ascii_hexdigit (hash b) ≡ true
  pub HasTaken : Hasher → Bytes → Type 0
  pub new-HasTaken : HasTaken new []
  pub update-HasTaken :
      (h : Hasher) (taken b : Bytes) → HasTaken h taken → HasTaken (update h b) (taken ++ b)
  pub digests : (h : Hasher) (taken : Bytes) → HasTaken h taken → finalize h ≡ hash taken

-- `objects/ab/cdef…` as the directory and the file name.
pub record ObjectPath : Type 0 where
  pub dir : String
  pub file : String

abbrev pub key : ObjectPath → String
key p = append p.dir (String.◌∷◌ "/" p.file)

-- `hash[..2]` and `hash[2..]`, of a text of at least two characters.
unfoldable pub split_hash : String → ObjectPath
split_hash String.[] = record { dir = String.[]; file = String.[] }
split_hash (String.◌∷◌ a String.[]) = record { dir = String.◌∷◌ a String.[]; file = String.[] }
split_hash (String.◌∷◌ a (String.◌∷◌ b rest)) = record {
  dir = String.◌∷◌ a (String.◌∷◌ b String.[]);
  file = rest;
}

unfoldable pub hash_to_path : String → Result ObjectPath
unfolding split_hash
hash_to_path hash =
    if ltb (byte_len hash) 3
    then err (hash_too_short hash)
    else if not (all_chars is_ascii_hexdigit hash)
    then err (hash_not_hex hash)
    else ok (split_hash hash)

-- `Path::exists`
abbrev pub is_there {ℓ} : {A : Type ℓ} → Option A → Bool
is_there none = false
is_there (some a) = true

-- `fs::create_dir_all`: directories are not kept apart from the files in them.
unfoldable pub create_dir_all : Io (Unit {0})
create_dir_all d =
    let (f, fs) = pop d.faults in
    elim f [
      | passes ↦ (ok tt, record d { faults = fs })
      | fails _ _ ↦ (err io, record d { faults = fs })
    ]

unfoldable pub write_object : String → Bytes → Io (Unit {0})
write_object path content d =
    let (f, fs) = pop d.faults in
    elim f [
      | passes ↦ (ok tt, record d { faults = fs; objects = insert path content d.objects })
      | fails left _ ↦ (err io, record d { faults = fs; objects = insert path left d.objects })
    ]

abbrev moved : String → String → Option Bytes → Io (Unit {0})
moved from to none d = (err io, d)
moved from to (some content) d =
    (ok tt, record d { objects = insert to content (remove from d.objects) })

unfoldable pub rename_object : (from to : String) → Io (Unit {0})
rename_object from to d =
    let (f, fs) = pop d.faults in
    elim f [
      | passes ↦ moved from to (lookup from d.objects) (record d { faults = fs })
      | fails _ _ ↦ (err io, record d { faults = fs })
    ]

abbrev found : String → Option Bytes → Result Bytes
found hash none = err (object_not_found hash)
found hash (some content) = ok content

unfoldable pub read_object : (hash path : String) → Io Bytes
read_object hash path d =
    let (f, fs) = pop d.faults in
    elim f [
      | passes ↦ (found hash (lookup path d.objects), record d { faults = fs })
      | fails _ _ ↦ (err (object_not_found hash), record d { faults = fs })
    ]

-- `object_path.with_extension("tmp")`
abbrev pub temp_key : ObjectPath → String
temp_key p = key (record p { file = with_tmp p.file })

-- The steps that write a new object: a temporary file, then a rename.
unfoldable pub write_new : ObjectPath → String → Bytes → Io String
unfolding create_dir_all write_object rename_object
write_new object_path hash_hex content = do
  create_dir_all
  write_object (temp_key object_path) content
  rename_object (temp_key object_path) (key object_path)
  pure hash_hex

-- What `put_blob` does once it has the digest. Nothing is written if the object is there.
unfoldable pub store_as : String → Bytes → Io String
unfolding write_new hash_to_path
store_as hash_hex content d = elim (hash_to_path hash_hex) [
  | err e ↦ (err e, d)
  | ok object_path ↦
      (if is_there (lookup (key object_path) d.objects)
        then (ok hash_hex, d)
        else write_new object_path hash_hex content d)
]

-- Get a blob by its hash.
unfoldable pub get_blob : String → Io Bytes
unfolding read_object hash_to_path
get_blob hash d = elim (hash_to_path hash) [
  | err e ↦ (err e, d)
  | ok object_path ↦ read_object hash (key object_path) d
]

-- The content that `copy_file` puts at its destination, once the destination's directory is there.
unfoldable pub copy_file : String → Io Bytes
unfolding create_dir_all read_object hash_to_path
copy_file hash d = elim (hash_to_path hash) [
  | err e ↦ (err e, d)
  | ok object_path ↦ (do create_dir_all; read_object hash (key object_path)) d
]

unfoldable pub exists : String → Disk → Bool
unfolding hash_to_path
exists hash d = elim (hash_to_path hash) [
  | ok p ↦ is_there (lookup (key p) d.objects)
  | err _ ↦ false
]

-- The pieces up to the end of the file, which a read of no bytes shows.
abbrev pub until_empty : List Bytes → List Bytes
until_empty [] = []
until_empty ([] ∷ chunks) = []
until_empty ((b ∷ bs) ∷ chunks) = (b ∷ bs) ∷ until_empty chunks

-- `fs::copy` into the store.
unfoldable pub copy_object : (content : Bytes) (temp : String) → Io (Unit {0})
copy_object content temp d =
    let (f, fs) = pop d.faults in
    elim f [
      | passes ↦ (ok tt, record d { faults = fs; objects = insert temp content d.objects })
      | fails left _ ↦ (err io, record d { faults = fs; objects = insert temp left d.objects })
    ]

-- What `put_file` does once it has the digest.
unfoldable pub copy_as : String → Bytes → Io String
unfolding create_dir_all copy_object rename_object hash_to_path
copy_as hash_hex content d = elim (hash_to_path hash_hex) [
  | err e ↦ (err e, d)
  | ok object_path ↦
      (if is_there (lookup (key object_path) d.objects)
        then (ok hash_hex, d)
        else (do
          create_dir_all
          copy_object content (temp_key object_path)
          rename_object (temp_key object_path) (key object_path)
          pure hash_hex)
            d)
]

module _ (B : Blake3) where
  open B use {hash, new, update, finalize}

  unfoldable pub put_blob : Bytes → Io String
  unfolding store_as
  put_blob content = store_as (hash content) content

  -- A file is what its reads return, each at most the buffer's 4 MB, and its content for the copy.
  -- It cannot be opened if it is not there.
  unfoldable pub put_file : Option (List Bytes × Bytes) → Io String
  unfolding copy_as
  put_file none = raise io
  put_file (some (reads, content)) =
      copy_as (finalize (feed update new (until_empty reads))) content
