-- ===== src/Tests/Manager.antt =====
-- The theorems of snapshots at a small workspace.
use sand_d.Prelude.{
  ℕ, suc, ◌≤◌, ◌≢◌, String, Bool, false, none, some, List, [], ◌∷◌, ◌++◌, Bytes, ◌≡◌, refl, ap,
  contains, if◌then◌else◌, flatten, All, append-nil,
}
use sand_d.Prelude.Dict.{lookup}
use sand_d.Prelude.Text.{any_char, append}
use sand_d.Protocol.{SnapshotInfo}
use sand_d.Snapshot.Types.{
  ok, err, since_epoch, serialize_time, Snapshot, snapshot_not_found, to_info,
}
use sand_d.Snapshot.Disk.{Disk, read_text}
use sand_d.Snapshot.Workspace.{Meta, Entries, file, dir, link, end, entry}
use sand_d.Snapshot.Build.{build_tree}
use sand_d.Snapshot.Restore.{restore_tree}
use sand_d.Snapshot.Restore.Run.{IsGood, Later}
use sand_d.Snapshot.Restore.Spec.{kept_entries, depth_entries, AreProper, IsProper}
use sand_d.Snapshot.Restore.RoundTrip.{IsReader, restore_tree-build_tree}
use sand_d.Snapshot.Tags.{validate_tag_name, has_dotdot, get_snapshot_by_tag}
use sand_d.Snapshot.Tags.Names.{IsTagName, validate_tag_name_iff}
use sand_d.Snapshot.Manager.{
  create_snapshot, restore_snapshot, unique, or_default, json_name, delete_snapshot, get_snapshot,
  list_snapshots, ids_for, get_all, validate_all, tagged_ids,
}
use sand_d.Snapshot.Manager.Order.{sort_by, dedup_by, str_leb, insert_by, dedup_after, newest_first}
use sand_d.Snapshot.Manager.Steps.{load-saved}
use sand_d.Snapshot.Manager.RoundTrip.{restore_snapshot-create_snapshot}
use sand_d.Snapshot.Manager.Deletion.{delete_snapshot_effect}
use sand_d.Snapshot.Manager.Listing.{list_snapshots-IsListing, IsListing}
use sand_d.Snapshot.Manager.Reads.{AreRead}
use sand_d.Tests.Codec.{blake3, digest_injective, encoding}
use sand_d.Tests.Store.{nothing, bare-IsAddressed}

abbrev pub reads : Bytes → List Bytes
reads [] = [] ∷ []
reads (x ∷ xs) = (x ∷ xs) ∷ [] ∷ []

abbrev pieces : Bytes → List Bytes
pieces [] = []
pieces (x ∷ xs) = (x ∷ xs) ∷ []

pieces_full : (content : Bytes) → All (λ piece. piece ≢ []) (pieces content)
pieces_full [] = tt
pieces_full (x ∷ xs) = ((λ e. cc), tt)

pieces_whole : (content : Bytes) → flatten (pieces content) ≡ content
pieces_whole [] = refl
pieces_whole (x ∷ xs) = ap (◌∷◌ x) (append-nil xs)

pieces_spelled : (content : Bytes) → reads content ≡ pieces content ++ [] ∷ []
pieces_spelled [] = refl
pieces_spelled (x ∷ xs) = refl

pub reader : IsReader reads
reader = record {
  pieces = pieces;
  rest = λ content. [];
  full = pieces_full;
  whole = pieces_whole;
  spelled = pieces_spelled;
}

abbrev pub to_file : String → String → Bool
to_file path target = false

abbrev pub at_noon : Meta
at_noon = record { mode = 420; modified = since_epoch 1000 5 }

abbrev pub anew : Meta
anew = record { mode = 493; modified = since_epoch 2000 0 }

abbrev pub workspace : Entries
workspace =
    entry "a.txt" (file at_noon (1 ∷ 2 ∷ []))
      (entry "sub" (dir at_noon 4096 (entry "b" (link at_noon "../a.txt") end)) end)

pub workspace-AreProper : AreProper [] workspace
unfolding IsProper serialize_time
workspace-AreProper = (refl, (1000, refl), (refl, ((1000, refl), (refl, (1000, refl), tt)), tt))

pub nothing-IsGood : IsGood blake3 nothing
nothing-IsGood = record { calm = refl; addressed = bare-IsAddressed nothing refl }

restore_tree-build_tree_example :
    (hash : String) × (count : ℕ) × (size : ℕ) × (last : Disk) × (build_tree blake3 encoding reads
        to_file "/w" workspace nothing
      ≡ (ok (hash, count, size), last))
    × Later blake3 nothing last
    × ((name : String) (d' : Disk)
        → Later blake3 last d'
        → (fuel : ℕ) → depth_entries workspace ≤ fuel
        → restore_tree blake3 encoding reads anew (suc fuel) hash name none d'
          ≡ (ok (dir anew 0 (kept_entries anew workspace)), d'))
restore_tree-build_tree_example =
    restore_tree-build_tree blake3 encoding reads to_file anew digest_injective reader workspace
      "/w" nothing nothing-IsGood workspace-AreProper

v1_accepted : validate_tag_name "v1" ≡ ok tt
unfolding validate_tag_name any_char has_dotdot
v1_accepted = refl

pub tags_valid : All IsTagName (unique (or_default (some ("v1" ∷ []))))
unfolding unique sort_by dedup_by insert_by dedup_after
tags_valid = ((validate_tag_name_iff "v1").0 v1_accepted, tt)

pub tags_unused :
    All (λ tag. lookup tag nothing.tags ≡ none) (unique (or_default (some ("v1" ∷ []))))
unfolding unique sort_by dedup_by insert_by dedup_after lookup
tags_unused = (refl, tt)

pub noon : serialize_time (since_epoch 1000 5) ≡ some 1000
unfolding serialize_time
noon = refl

restore_snapshot-create_snapshot_example :
    (last : Disk) × (create_snapshot blake3 encoding reads to_file anew
        (since_epoch 1000 5)
        "id"
        "/w"
        workspace
        none
        (some ("v1" ∷ []))
        nothing
      ≡ (ok "id", last))
    × Later blake3 nothing last
    × ((name : String) (d' : Disk)
        → Later blake3 last d'
        → lookup (json_name "id") d'.snapshots ≡ lookup (json_name "id") last.snapshots
        → (fuel : ℕ) → depth_entries workspace ≤ fuel
        → restore_snapshot blake3 encoding reads to_file anew (λ t. t) (suc fuel) "id" name none d'
          ≡ (ok (dir anew 0 (kept_entries anew workspace)), d'))
restore_snapshot-create_snapshot_example =
    restore_snapshot-create_snapshot blake3 encoding reads to_file anew digest_injective reader
      (λ t. t) (since_epoch 1000 5) 1000 "id" "/w" workspace none (some ("v1" ∷ [])) nothing
      nothing-IsGood workspace-AreProper noon tags_valid tags_unused

abbrev made : Snapshot
made = record {
  id = "id";
  created_at = 1000;
  tree = "abc";
  message = "first";
  tags = "v1" ∷ [];
  workspace = "/w";
  file_count = 2;
  total_size = 2;
}

abbrev holding : Disk
holding = record nothing {
  snapshots = ("id.json", encoding.snapshot_to_json made) ∷ [];
  tags = ("v1", "id") ∷ ("v2", "other") ∷ [];
}

made_there : lookup (json_name "id") holding.snapshots ≡ some (encoding.snapshot_to_json made)
unfolding lookup append
made_there = refl

delete_snapshot_effect_example :
    let r = delete_snapshot encoding (λ t. t) "id" holding in
    (r.0 ≡ ok tt)
    × ((u : String)
        → lookup u r.1.tags ≡ (if contains ("v1" ∷ []) u then none else lookup u holding.tags))
    × ((get_snapshot encoding (λ t. t) "id" r.1).0 ≡ err (snapshot_not_found "id"))
    × (r.1.objects ≡ [])
    × ((name : String)
        → json_name "id" ≢ name
        → lookup name r.1.snapshots ≡ lookup name holding.snapshots)
delete_snapshot_effect_example =
    delete_snapshot_effect encoding (λ t. t) "id" made holding refl made_there

abbrev made_info : SnapshotInfo
made_info = record {
  id = "id";
  created_at = 1000;
  message = "first";
  tags = "v1" ∷ [];
  file_count = 2;
  total_size = 2;
}

info_loaded : get_snapshot encoding (λ t. t) "id" holding ≡ (ok made_info, holding)
unfolding get_snapshot to_info
info_loaded = rw (load-saved encoding (λ t. t) made "id" holding refl made_there) refl

ids_found :
    ids_for encoding (λ t. t) (some ("v1" ∷ "v1" ∷ [])) holding ≡ (ok ("id" ∷ "id" ∷ []), holding)
unfolding ids_for validate_all tagged_ids get_snapshot_by_tag lookup read_text validate_tag_name
    any_char has_dotdot
ids_found = refl

all_loaded :
    get_all encoding (λ t. t) ("id" ∷ "id" ∷ []) holding
    ≡ (ok (made_info ∷ made_info ∷ []), holding)
unfolding get_all
all_loaded = rw (info_loaded, info_loaded) refl

listed_once :
    (list_snapshots encoding (λ t. t) (some ("v1" ∷ "v1" ∷ [])) holding).0 ≡ ok (made_info ∷ [])
unfolding list_snapshots sort_by dedup_by insert_by dedup_after newest_first str_leb
listed_once = rw (ids_found, all_loaded) refl

list_snapshots-IsListing_example :
    (ids : List String) × (d' : Disk) × (ids_for encoding (λ t. t) (some ("v1" ∷ "v1" ∷ [])) holding
      ≡ (ok ids, d'))
    × ((all : List SnapshotInfo) × AreRead encoding (λ t. t) d' ids all
        × IsListing all (made_info ∷ []))
list_snapshots-IsListing_example =
    list_snapshots-IsListing encoding (λ t. t) (some ("v1" ∷ "v1" ∷ [])) holding listed_once
