-- ===== src/Snapshot/Types.antt =====
-- sandd/src/snapshot/types.rs and tree.rs: the records that are stored, the errors, and what the
-- code takes from elsewhere: serde_json, UTF-8 and BLAKE3.
use sand_d.Prelude.{◌⊎◌, inl, inr, refl, ℕ, String, Option, none, some, List, [], ◌∷◌, ◌≡◌, Bytes}
use sand_d.Protocol.{SnapshotInfo}

-- A time is a number of seconds and nanoseconds after or before the epoch.
pub data SystemTime : Type 0 where
  since_epoch : (secs nanos : ℕ) → SystemTime
  before_epoch : (secs nanos : ℕ) → SystemTime

pub data EntryType : Type 0 where
  blob tree symlink symlink_dir : EntryType

pub record TreeEntry : Type 0 where
  pub name : String
  pub mode : ℕ
  pub entry_type : EntryType
  pub hash : String
  pub size : ℕ
  pub modified : SystemTime

-- An entry as it is written: the time is a whole number of seconds.
pub record WireEntry : Type 0 where
  pub name : String
  pub mode : ℕ
  pub entry_type : EntryType
  pub hash : String
  pub size : ℕ
  pub modified : ℕ

-- `system_time_format::serialize` fails on a time before the epoch.
unfoldable pub serialize_time : SystemTime → Option ℕ
serialize_time (since_epoch secs nanos) = some secs
serialize_time (before_epoch secs nanos) = none

unfoldable pub deserialize_time : ℕ → SystemTime
deserialize_time secs = since_epoch secs 0

unfoldable pub serialize_entry : TreeEntry → Option WireEntry
unfolding serialize_time
serialize_entry e = elim (serialize_time e.modified) [
  | none ↦ none
  | some secs ↦ some (record {
    name = e.name;
    mode = e.mode;
    entry_type = e.entry_type;
    hash = e.hash;
    size = e.size;
    modified = secs;
  })
]

unfoldable pub deserialize_entry : WireEntry → TreeEntry
unfolding deserialize_time
deserialize_entry w = record {
  name = w.name;
  mode = w.mode;
  entry_type = w.entry_type;
  hash = w.hash;
  size = w.size;
  modified = deserialize_time w.modified;
}

unfoldable pub serialize_entries : List TreeEntry → Option (List WireEntry)
unfolding serialize_entry
serialize_entries [] = some []
serialize_entries (e ∷ es) = elim (serialize_entry e) [
  | none ↦ none
  | some w ↦ elim (serialize_entries es) [ none ↦ none | some ws ↦ some (w ∷ ws) ]
]

unfoldable pub deserialize_entries : List WireEntry → List TreeEntry
unfolding deserialize_entry
deserialize_entries [] = []
deserialize_entries (w ∷ ws) = deserialize_entry w ∷ deserialize_entries ws

pub record Snapshot : Type 0 where
  pub id : String
  pub created_at : ℕ
  pub tree : String
  pub message : String
  pub tags : List String
  pub workspace : String
  pub file_count : ℕ
  pub total_size : ℕ

-- `From<Snapshot> for SnapshotInfo`
unfoldable pub to_info : Snapshot → SnapshotInfo
to_info s = record {
  id = s.id;
  created_at = s.created_at;
  message = s.message;
  tags = s.tags;
  file_count = s.file_count;
  total_size = s.total_size;
}

pub data SnapshotError : Type 0 where
  io : SnapshotError
  hash_too_short hash_not_hex : String → SnapshotError
  object_not_found : String → SnapshotError
  not_json : SnapshotError
  not_utf8 : SnapshotError
  time_before_epoch : SnapshotError
  tag_empty : SnapshotError
  tag_absolute tag_traversal tag_separator tag_reserved tag_invalid : String → SnapshotError
  tag_exists tag_missing : String → SnapshotError
  snapshot_not_found : String → SnapshotError
  not_a_directory already_exists is_a_directory : String → SnapshotError
  outside_model out_of_fuel : SnapshotError

pub data Result {ℓ} (A : Type ℓ) : Type ℓ where
  ok : A → Result A
  err : SnapshotError → Result A

-- What the code relies on of serde_json and of the UTF-8 functions of `String`: what was written
-- is read back.
pub record Encoding : Type 0 where
  pub snapshot_to_json : Snapshot → String
  pub snapshot_from_json : String → Option Snapshot
  pub snapshot_json : (s : Snapshot) → snapshot_from_json (snapshot_to_json s) ≡ some s
  pub tree_to_json : List WireEntry → Bytes
  pub tree_from_json : Bytes → Option (List WireEntry)
  pub tree_json : (t : List WireEntry) → tree_from_json (tree_to_json t) ≡ some t
  pub as_bytes : String → Bytes
  pub from_utf8 : Bytes → Option String
  pub utf8 : (s : String) → from_utf8 (as_bytes s) ≡ some s

pub Result-cases {ℓ} :
    {A : Type ℓ} (r : Result A) → ((e : SnapshotError) × (r ≡ err e)) ⊎ ((a : A) × (r ≡ ok a))
Result-cases (err e) = inl (e, refl)
Result-cases (ok a) = inr (a, refl)
