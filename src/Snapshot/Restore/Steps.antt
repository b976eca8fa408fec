-- ===== src/Snapshot/Restore/Steps.antt =====
-- How the entries of a tree object grow by one, and the object that they are written to.
use sand_d.Prelude.{
  ℕ, String, Bool, false, ◌≡◌, refl, ap, Option, some, List, [], ◌∷◌, ◌++◌, arith, contains, Bytes,
}
use sand_d.Snapshot.Types.{
  serialize_time, TreeEntry, WireEntry, Encoding, serialize_entry, serialize_entries,
  deserialize_entry, deserialize_entries, deserialize_time,
}
use sand_d.Snapshot.Disk.{Disk}
use sand_d.Snapshot.ObjectStore.{Blake3}
use sand_d.Snapshot.ObjectStore.Laws.{Holds}
use sand_d.Snapshot.ObjectStore.Safety.{CollisionFree}
use sand_d.Snapshot.Workspace.{Meta, Node, Entries, end, entry}
use sand_d.Snapshot.Build.{Built, BuiltTree, no_entries, add_built, put_tree}
use sand_d.Snapshot.Restore.{restore_entries}
use sand_d.Snapshot.Restore.Run.{IsGood, Later, Later-trans, Returns, put_blob-Returns}
use sand_d.Snapshot.Restore.Spec.{
  kept, kept_entries, depth, append, append-end, append_assoc, place_new, Apart-push, Apart-skip,
}
use sand_d.Snapshot.Restore.Listing.{NodeOk, skipped, kept_as, EntriesOk, Restorable-Later}

serialize_entries-cons :
    (e : TreeEntry) (es : List TreeEntry) {secs : ℕ} {ws : List WireEntry}
    → serialize_time e.modified ≡ some secs
    → serialize_entries es ≡ some ws
    → serialize_entries (e ∷ es)
      ≡ some (
          record {
            name = e.name;
            mode = e.mode;
            entry_type = e.entry_type;
            hash = e.hash;
            size = e.size;
            modified = secs;
          }
          ∷ ws)
unfolding serialize_entries serialize_entry
serialize_entries-cons e es timed h = rw (serialize_entries, serialize_entry, timed, h) refl

module _ (B : Blake3) (E : Encoding) (reads : Bytes → List Bytes)
    (target_is_dir : String → String → Bool) (fresh : Meta) where
  pub EntriesOk-end :
      (d : Disk) (seen : List String)
      → EntriesOk B E reads target_is_dir fresh d end seen no_entries
  unfolding serialize_entries serialize_entry deserialize_entries deserialize_entry deserialize_time
      kept restore_entries depth
  EntriesOk-end d seen = record {
    wire = [];
    written = refl;
    named = refl;
    restores = λ d' l fuel h acc apart. rw (append-end acc) refl;
  }

  unfoldable pub EntriesOk-Later :
      {d d' : Disk} {es : Entries} {seen : List String} {t : BuiltTree}
      → Later B d d'
      → (o : EntriesOk B E reads target_is_dir fresh d es seen t)
      → EntriesOk B E reads target_is_dir fresh d' es seen t
  EntriesOk-Later l o = record {
    wire = o.wire;
    written = o.written;
    named = o.named;
    restores = λ d'' m fuel h acc apart. o.restores d'' (Later-trans B l m) fuel h acc apart;
  }

  pub NodeOk-Later :
      {d d' : Disk} {node : Node} {built : Option Built}
      → Later B d d'
      → NodeOk B E reads target_is_dir fresh d node built
      → NodeOk B E reads target_is_dir fresh d' node built
  NodeOk-Later l (skipped gone skip) = skipped gone skip
  NodeOk-Later l (kept_as b x stays made r) =
      kept_as b x stays made (Restorable-Later B E reads target_is_dir fresh l r)

  pub EntriesOk-add :
      {d : Disk} {node : Node} {built : Option Built} {es : Entries} {seen : List String}
      {t : BuiltTree} (name : String)
      → contains seen name ≡ false
      → NodeOk B E reads target_is_dir fresh d node built
      → EntriesOk B E reads target_is_dir fresh d es (seen ++ name ∷ []) t
      → EntriesOk B E reads target_is_dir fresh d (entry name node es) seen (add_built name built t)
  unfolding serialize_entries serialize_entry deserialize_entries deserialize_entry deserialize_time
      kept restore_entries depth
  EntriesOk-add {seen} name new (skipped gone skip) o = record {
    wire = o.wire;
    written = rw skip o.written;
    named = rw gone o.named;
    restores = λ d' l fuel h acc apart.
        rw gone (o.restores d' l fuel (omega arith) acc (Apart-skip acc seen name apart));
  }
  EntriesOk-add {seen} {t} name new (kept_as b x stays made r) o = record {
    wire =
        record {
          name = name;
          mode = b.meta.mode;
          entry_type = b.entry_type;
          hash = b.hash;
          size = b.size;
          modified = r.secs;
        }
        ∷ o.wire;
    written = rw made (serialize_entries-cons _ t.entries r.timed o.written);
    named = rw stays (ap (◌∷◌ name) o.named);
    restores = λ d' l fuel h acc apart.
        rw
          (
            apart name new,
            r.restores name d' l fuel (omega arith),
            place_new name x acc (apart name new),
            o.restores d' l fuel (omega arith) (append acc (entry name x end))
                (Apart-push acc seen name x apart),
            append_assoc acc (entry name x end) (kept_entries fresh _),
            stays,
          )
          refl;
  }

  module _ (free : CollisionFree B) where
    pub put_tree-Returns :
        (entries : List TreeEntry) (wire : List WireEntry) (d : Disk)
        → serialize_entries entries ≡ some wire
        → IsGood B d
        → Returns B (put_tree B E reads target_is_dir entries) d (λ hash d'.
          (hash ≡ B.hash (E.tree_to_json wire))
          × Holds d' (B.hash (E.tree_to_json wire)) (E.tree_to_json wire))
    unfolding put_tree
    put_tree-Returns entries wire d h g = rw h (put_blob-Returns B free (E.tree_to_json wire) d g)
