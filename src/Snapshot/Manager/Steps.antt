-- ===== src/Snapshot/Manager/Steps.antt =====
-- The steps of the manager's operations on a disk with no failures ahead.
use sand_d.Prelude.{String, none, some, List, [], ◌∷◌, ◌≡◌, refl, sym, ap, subst, ◌∙◌, Bytes, All}
use sand_d.Prelude.Dict.{Dict, lookup, insert, remove, lookup-insert_self}
use sand_d.Snapshot.Types.{ok, Snapshot, Encoding, snapshot_not_found, SnapshotError}
use sand_d.Snapshot.Disk.{Disk, Io, ◌>>◌, snapshot_files, write_text, rename_text, read_text}
use sand_d.Snapshot.ObjectStore.{Blake3}
use sand_d.Snapshot.ObjectStore.Laws.{Holds}
use sand_d.Snapshot.Tags.Names.{IsTagName, validate_tag_name_iff}
use sand_d.Snapshot.Tags.Refs.{add_tag_calm, tags_after}
use sand_d.Snapshot.Restore.Run.{IsGood, Later}
use sand_d.Snapshot.Manager.{validate_all, check_free, add_tags, load, json_name}

pub validate_all-accepted :
    (tags : List String) (d : Disk) → All IsTagName tags → validate_all tags d ≡ (ok tt, d)
unfolding validate_all
validate_all-accepted [] d h = refl
validate_all-accepted (tag ∷ tags) d h =
    rw ((validate_tag_name_iff tag).1 h.0, validate_all-accepted tags d h.1) refl

pub check_free-free :
    (tags : List String) (d : Disk)
    → All (λ tag. lookup tag d.tags ≡ none) tags
    → check_free tags d ≡ (ok tt, d)
unfolding check_free
check_free-free [] d h = refl
check_free-free (tag ∷ tags) d h = rw (h.0, check_free-free tags d h.1) refl

pub add_tags_calm :
    (snapshot_id : String) (tags : List String) (d : Disk)
    → d.faults ≡ []
    → (m : Dict String) × (add_tags snapshot_id tags d ≡ (ok tt, record d { tags = m }))
unfolding add_tags
add_tags_calm snapshot_id [] d calm = (d.tags, refl)
add_tags_calm snapshot_id (tag ∷ tags) d calm =
    let first = add_tag_calm snapshot_id tag d calm in
    let (m, e) =
      add_tags_calm snapshot_id tags (record d { tags = tags_after snapshot_id tag d.tags }) calm in
    (m, rw (first, e) refl)

save_at_end :
    {A : Type 0} (temp file content : String) (k : Io A) (d : Disk)
    → (write_text snapshot_files temp content >> (rename_text snapshot_files temp file >> k))
        (record d { faults = [] })
      ≡ k (record d {
        snapshots = insert file content (remove temp (insert temp content d.snapshots));
        faults = [];
      })
unfolding write_text rename_text
save_at_end temp file content k d = rw (lookup-insert_self temp content d.snapshots) refl

-- A file is written beside its place and renamed to it, and then the rest runs.
pub save_calm :
    {A : Type 0} (temp file content : String) (k : Io A) (d : Disk)
    → d.faults ≡ []
    → (write_text snapshot_files temp content >> (rename_text snapshot_files temp file >> k)) d
      ≡ k (record d {
        snapshots = insert file content (remove temp (insert temp content d.snapshots));
      })
save_calm temp file content k d calm =
    subst
      (λ fs.
        (write_text snapshot_files temp content >> (rename_text snapshot_files temp file >> k))
          (record d { faults = fs })
        ≡ k (record d {
          snapshots = insert file content (remove temp (insert temp content d.snapshots));
          faults = fs;
        }))
      (sym calm) (save_at_end temp file content k d)

read_text_calm :
    (e : SnapshotError) (name : String) {content : String} (d : Disk)
    → d.faults ≡ []
    → lookup name d.snapshots ≡ some content
    → read_text e snapshot_files name d ≡ (ok content, d)
read_text_calm e name {content} d calm h =
    subst
      (λ fs.
        read_text e snapshot_files name (record d { faults = fs })
        ≡ (ok content, record d { faults = fs }))
      (sym calm) (unfold read_text in rw h refl)

-- The metadata that was written is loaded.
pub load-saved :
    (E : Encoding) (trim : String → String) (s : Snapshot) (id : String) (d : Disk)
    → d.faults ≡ []
    → lookup (json_name id) d.snapshots ≡ some (E.snapshot_to_json s)
    → load E trim id d ≡ (ok s, d)
unfolding load
load-saved E trim s id d calm h =
    rw (read_text_calm (snapshot_not_found id) (json_name id) d calm h, E.snapshot_json s) refl

pub Holds-same :
    {d d' : Disk} {hash : String} {content : Bytes}
    → d'.objects ≡ d.objects
    → Holds d hash content
    → Holds d' hash content
Holds-same e h = record { path = h.path; valid = h.valid; stored = ap (lookup _) e ∙ h.stored }

-- Another disk with the same objects.
pub Later-same :
    (B : Blake3) (d d' : Disk)
    → IsGood B d
    → d'.faults ≡ d.faults
    → d'.objects ≡ d.objects
    → Later B d d'
Later-same B d d' g faults objects = record {
  good = record {
    calm = faults ∙ g.calm;
    addressed = record {
      at = λ hash content h. g.addressed.at hash content (Holds-same (sym objects) h);
    };
  };
  keeps = λ hash content h. Holds-same objects h;
}
