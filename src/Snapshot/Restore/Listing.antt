-- ===== src/Snapshot/Restore/Listing.antt =====
-- Entries of tree objects that are restored to given nodes, on a disk and on every later one.
use sand_d.Prelude.{
  append_assoc as append_assoc_list, ◌<◌, ℕ, zero, suc, ◌≤◌, String, Bool, true, false, ◌≡◌, refl,
  subst, Option, none, some, List, [], ◌∷◌, ◌++◌, arith, eq_iff, contains, if◌then◌else◌, Bytes,
  All, length,
}
use sand_d.Snapshot.Types.{
  SystemTime, since_epoch, before_epoch, serialize_time, ok, blob, tree, symlink, symlink_dir,
  TreeEntry, WireEntry, Encoding, serialize_entries, deserialize_entries,
}
use sand_d.Snapshot.Disk.{may_fail_calm, Disk}
use sand_d.Snapshot.ObjectStore.{Blake3}
use sand_d.Snapshot.ObjectStore.Laws.{Holds}
use sand_d.Snapshot.ObjectStore.Safety.{get_blob-Holds}
use sand_d.Snapshot.Workspace.{Meta, Node, Entries, file, dir, link, end, entry, find}
use sand_d.Snapshot.Build.{Built, BuiltTree}
use sand_d.Snapshot.Restore.{stamp, names, restore_entry, restore_entries, clean, restore_tree}
use sand_d.Snapshot.Restore.Run.{Later, Later-trans, copy_file-Holds}
use sand_d.Snapshot.Restore.Spec.{
  whole_secs, kept, kept_entries, depth, depth_entries, IsAfterEpoch, append, Apart,
}

-- The entry of the tree object, as it is read back.
abbrev listed : String → Built → ℕ → TreeEntry
listed name b secs = record {
  name = name;
  mode = b.meta.mode;
  entry_type = b.entry_type;
  hash = b.hash;
  size = b.size;
  modified = since_epoch secs 0;
}

whole_secs-timed :
    (time : SystemTime) (secs : ℕ)
    → serialize_time time ≡ some secs
    → whole_secs time ≡ since_epoch secs 0
unfolding serialize_time
whole_secs-timed (since_epoch secs' nanos) secs h = ground arith
whole_secs-timed (before_epoch secs' nanos) secs h = cc

abbrev pub entry_names : Entries → List String
entry_names end = []
entry_names (entry name node es) = name ∷ entry_names es

contains-middle :
    (before : List String) (name : String) (after : List String)
    → contains (before ++ name ∷ after) name ≡ true
contains-middle [] name after = ground (arith, eq_iff name name)
contains-middle (b ∷ before) name after = ground (arith, contains-middle before name after)

all_contained_after :
    (before : List String) (es : Entries)
    → All (λ name. contains (before ++ entry_names es) name ≡ true) (entry_names es)
all_contained_after before end = tt
all_contained_after before (entry name node es) = (
  contains-middle before name (entry_names es),
  subst (λ ns. All (λ n. contains ns n ≡ true) (entry_names es))
      (append_assoc_list before (name ∷ []) (entry_names es))
      (all_contained_after (before ++ name ∷ []) es),
)

all_contained :
    (es : Entries) → All (λ name. contains (entry_names es) name ≡ true) (entry_names es)
all_contained es = all_contained_after [] es

fuel_cases : (fuel : ℕ) → 0 < fuel → (f : ℕ) × (fuel ≡ suc f)
fuel_cases zero h = absurd (omega arith)
fuel_cases (suc f) h = (f, refl)

module _ (B : Blake3) (E : Encoding) (reads : Bytes → List Bytes)
    (target_is_dir : String → String → Bool) (fresh : Meta) where
  -- The entry is restored to `x` on this disk and on every later one.
  pub record Restorable (d : Disk) (deep : ℕ) (b : Built) (x : Node) : Type 0 where
    pub secs : ℕ
    pub timed : serialize_time b.meta.modified ≡ some secs
    pub restores :
        (name : String) (d' : Disk)
        → Later B d d'
        → (fuel : ℕ) → deep ≤ fuel
        → restore_entry B E reads fresh
            (restore_tree B E reads fresh fuel)
            (listed name b secs)
            b.entry_type
            none
            d'
          ≡ (ok x, d')

  pub data NodeOk (d : Disk) (node : Node) (built : Option Built) : Type 0 where
    skipped : kept fresh node ≡ none → built ≡ none → NodeOk d node built
    kept_as :
        (b : Built) (x : Node)
        → kept fresh node ≡ some x
        → built ≡ some b
        → Restorable d (depth node) b x
        → NodeOk d node built

  pub record EntriesOk (d : Disk) (es : Entries) (seen : List String) (t : BuiltTree) : Type 0 where
    pub wire : List WireEntry
    pub written : serialize_entries t.entries ≡ some wire
    pub named : names (deserialize_entries wire) ≡ entry_names (kept_entries fresh es)
    pub restores :
        (d' : Disk)
        → Later B d d'
        → (fuel : ℕ) → depth_entries es ≤ fuel
        → (acc : Entries) → Apart acc seen
        → restore_entries B E reads fresh
            (restore_tree B E reads fresh fuel)
            (deserialize_entries wire)
            acc
            d'
          ≡ (ok (append acc (kept_entries fresh es)), d')

  pub Restorable-Later :
      {d d' : Disk} {deep : ℕ} {b : Built} {x : Node}
      → Later B d d'
      → Restorable d deep b x
      → Restorable d' deep b x
  Restorable-Later l r = record {
    secs = r.secs;
    timed = r.timed;
    restores = λ name d'' m fuel h. r.restores name d'' (Later-trans B l m) fuel h;
  }

  -- A file and a link, from the object that holds their content.
  pub blob-Restorable :
      (m : Meta) (content : Bytes) (d : Disk)
      → IsAfterEpoch m
      → Holds d (B.hash content) content
      → Restorable d 0
          (record {
            meta = m;
            entry_type = blob;
            hash = B.hash content;
            size = length content;
            files = 1;
            bytes = length content;
          })
          (file (record { mode = m.mode; modified = whole_secs m.modified }) content)
  unfolding restore_entry serialize_time
  blob-Restorable m content d (secs, timed) held = record {
    secs = secs;
    timed = timed;
    restores = λ name d' l fuel h.
        rw (copy_file-Holds B d' l.good (l.keeps (B.hash content) content held)) (
          rw (whole_secs-timed m.modified secs timed)
            (rw (stamp, may_fail_calm d' l.good.calm, may_fail_calm d' l.good.calm) refl));
  }

  pub link-Restorable :
      (m : Meta) (target : String) (is_dir : Bool) (d : Disk)
      → IsAfterEpoch m
      → Holds d (B.hash (E.as_bytes target)) (E.as_bytes target)
      → Restorable d 0
          (record {
            meta = m;
            entry_type = if is_dir then symlink_dir else symlink;
            hash = B.hash (E.as_bytes target);
            size = 0;
            files = 1;
            bytes = 0;
          })
          (link fresh target)
  unfolding restore_entry
  link-Restorable m target true d (secs, timed) held = record {
    secs = secs;
    timed = timed;
    restores = λ name d' l fuel h.
        rw
          (
            get_blob-Holds B d' l.good.calm (l.keeps _ _ held),
            E.utf8 target,
            may_fail_calm d' l.good.calm,
          )
          refl;
  }
  link-Restorable m target false d (secs, timed) held = record {
    secs = secs;
    timed = timed;
    restores = λ name d' l fuel h.
        rw
          (
            get_blob-Holds B d' l.good.calm (l.keeps _ _ held),
            E.utf8 target,
            may_fail_calm d' l.good.calm,
          )
          refl;
  }

  -- Nothing is deleted where every name is expected.
  clean-all :
      (ns : List String) (es : Entries) (d : Disk)
      → All (λ name. contains ns name ≡ true) (entry_names es)
      → d.faults ≡ []
      → clean B E reads fresh ns es d ≡ (ok es, d)
  unfolding clean
  clean-all ns end d h calm = rw (may_fail_calm d calm) refl
  clean-all ns (entry name node es) d h calm =
      rw (may_fail_calm d calm, h.0, clean-all ns es d h.1 calm) refl

  pub restore_tree-EntriesOk :
      (d : Disk) (es : Entries) (t : BuiltTree) (o : EntriesOk d es [] t)
      → Holds d (B.hash (E.tree_to_json o.wire)) (E.tree_to_json o.wire)
      → (name : String) (d' : Disk) → Later B d d'
      → (fuel : ℕ) → depth_entries es ≤ fuel
      → restore_tree B E reads fresh (suc fuel) (B.hash (E.tree_to_json o.wire)) name none d'
        ≡ (ok (dir fresh 0 (kept_entries fresh es)), d')
  unfolding restore_tree find
  restore_tree-EntriesOk d es t o held name d' l fuel h =
      rw
        (
          may_fail_calm d' l.good.calm,
          get_blob-Holds B d' l.good.calm (l.keeps _ _ held),
          E.tree_json o.wire,
        )
        (rw
          (
            o.restores d' l fuel h end (λ _ _. refl),
            may_fail_calm d' l.good.calm,
            o.named,
            clean-all _ _ d' (all_contained (kept_entries fresh es)) l.good.calm,
          )
          refl)

  pub tree-Restorable :
      (m : Meta) (es : Entries) (d : Disk) (t : BuiltTree) (o : EntriesOk d es [] t)
      → IsAfterEpoch m
      → Holds d (B.hash (E.tree_to_json o.wire)) (E.tree_to_json o.wire)
      → Restorable d
          (suc (depth_entries es))
          (record {
            meta = m;
            entry_type = tree;
            hash = B.hash (E.tree_to_json o.wire);
            size = 0;
            files = t.file_count;
            bytes = t.total_size;
          })
          (dir fresh 0 (kept_entries fresh es))
  unfolding restore_entry
  tree-Restorable m es d t o (secs, timed) held = record {
    secs = secs;
    timed = timed;
    restores = λ name d' l fuel h.
        let (f, e) = fuel_cases fuel (omega arith) in
        rw e (restore_tree-EntriesOk d es t o held name d' l f (omega arith));
  }
