-- ===== src/Tests/Store.antt =====
-- The theorems of the object store and of the tags at concrete disks.
use sand_d.Prelude.{String, none, some, [], ◌∷◌, Bytes, ◌≡◌, ◌≢◌, refl, subst, ◌⊎◌, ◌↔◌}
use sand_d.Prelude.Dict.{lookup, lookup-nil, insert, remove}
use sand_d.Prelude.Text.{byte_len, all_chars, with_tmp, file_stem, append, before_last_dot}
use sand_d.Snapshot.Types.{ok, err, io}
use sand_d.Snapshot.Disk.{Disk, passes, fails}
use sand_d.Snapshot.ObjectStore.{ObjectPath, key, hash_to_path, put_blob, put_file, split_hash}
use sand_d.Snapshot.ObjectStore.Laws.{Holds}
use sand_d.Snapshot.ObjectStore.Safety.{IsAddressed, put_blob_atomic}
use sand_d.Snapshot.ObjectStore.Stream.{put_file-eq-put_blob}
use sand_d.Snapshot.ObjectStore.Paths.{IsPathOf, hash_to_path-IsPathOf}
use sand_d.Snapshot.Tags.{validate_tag_name, add_tag, get_snapshot_by_tag}
use sand_d.Snapshot.Tags.Names.{IsTagName, validate_tag_name_iff}
use sand_d.Snapshot.Tags.Refs.{add_tag_atomic, add_tag_destroys}
use sand_d.Tests.{differ}
use sand_d.Tests.Codec.{blake3, digest, unary}

abbrev pub nothing : Disk
nothing = record { objects = []; snapshots = []; tags = []; faults = [] }

abbrev failing : Disk
failing = record nothing { faults = passes ∷ fails (9 ∷ []) "half" ∷ [] }

pub bare-IsAddressed : (d : Disk) → d.objects ≡ [] → IsAddressed blake3 d
bare-IsAddressed d e = record {
  at = λ hash content h.
      let gone = lookup-nil {V = Bytes} (key h.path) in let there = h.stored in absurd (cc e);
}

put_blob_atomic_example :
    let (r, d') = put_blob blake3 (1 ∷ 2 ∷ []) failing in
    ((r ≡ err io) ⊎ (r ≡ ok (digest (1 ∷ 2 ∷ []))))
    × IsAddressed blake3 d'
    × ((hash' : String) (content' : Bytes) → Holds failing hash' content' → Holds d' hash' content')
put_blob_atomic_example =
    put_blob_atomic blake3 (1 ∷ 2 ∷ []) failing (bare-IsAddressed failing refl)

stored_now : (put_blob blake3 (1 ∷ []) nothing).0 ≡ ok (digest (1 ∷ []))
unfolding put_blob hash_to_path byte_len all_chars unary lookup insert remove append split_hash
    with_tmp
stored_now = refl

abbrev full : Disk
full = record nothing { objects = ("ab/c10", 1 ∷ []) ∷ [] }

full-Holds : Holds full (digest (1 ∷ [])) (1 ∷ [])
unfolding hash_to_path byte_len all_chars unary lookup append split_hash
full-Holds = record { path = record { dir = "ab"; file = "c10" }; valid = refl; stored = refl }

put_file-eq-put_blob_example :
    put_file blake3 (some ((1 ∷ 2 ∷ []) ∷ (3 ∷ []) ∷ [] ∷ [], 1 ∷ 2 ∷ 3 ∷ []))
    ≡ put_blob blake3 (1 ∷ 2 ∷ 3 ∷ [])
put_file-eq-put_blob_example =
    put_file-eq-put_blob blake3 (1 ∷ 2 ∷ 3 ∷ []) ((1 ∷ 2 ∷ []) ∷ (3 ∷ []) ∷ []) []
      ((λ e. cc), ((λ e. cc), tt)) refl

abbrev abcd : ObjectPath
abcd = record { dir = "ab"; file = "cd" }

abcd_path : hash_to_path "abcd" ≡ ok abcd
unfolding hash_to_path byte_len all_chars split_hash
abcd_path = refl

abcd-IsPathOf : IsPathOf "abcd" abcd
abcd-IsPathOf = hash_to_path-IsPathOf "abcd" abcd_path

abbrev abcd_hash : String
abcd_hash = "abcd"

validate_tag_name_iff_example : (validate_tag_name "v1.0" ≡ ok tt) ↔ IsTagName "v1.0"
validate_tag_name_iff_example = validate_tag_name_iff "v1.0"

abbrev tagged : Disk
tagged = record nothing { tags = ("v1.tmp", "first") ∷ [] }

temp_name : "v1.tmp" ≡ with_tmp "v1.0"
unfolding with_tmp file_stem append before_last_dot
temp_name = refl

add_tag_atomic_example :
    let r = add_tag "second" "v1.0" failing in
    ((r.0 ≡ err io) × (lookup "v1.0" r.1.tags ≡ lookup "v1.0" []))
    ⊎ ((r.0 ≡ ok tt) × (lookup "v1.0" r.1.tags ≡ some "second"))
add_tag_atomic_example =
    add_tag_atomic "second" "v1.0" failing
      (subst (λ t. "v1.0" ≢ t) temp_name (differ "v1.0" "v1.tmp" refl))

add_tag_destroys_example :
    let r = add_tag "second" "v1.0" tagged in
    (r.0 ≡ ok tt) × (get_snapshot_by_tag (λ t. t) "v1.tmp" r.1 ≡ (ok none, r.1))
add_tag_destroys_example =
    add_tag_destroys (λ t. t) "second" "v1.0" "v1.tmp" tagged refl temp_name
      (differ "v1.0" "v1.tmp" refl)
