-- ===== src/Snapshot/Restore/Spec.antt =====
-- What a snapshot keeps of a workspace, and what it asks of it.
use sand_d.Prelude.{
  ℕ, suc, max, String, false, ◌≡◌, ◌≢◌, refl, ap, Option, none, some, List, [], ◌∷◌, ◌++◌, ◌==◌,
  ◌||◌, arith, eq_iff, contains,
}
use sand_d.Snapshot.Types.{SystemTime, since_epoch, before_epoch, serialize_time}
use sand_d.Snapshot.Workspace.{
  Meta, Node, Entries, file, dir, link, special, end, entry, find, place,
}

-- A time without its part of a second.
abbrev pub whole_secs : SystemTime → SystemTime
whole_secs (since_epoch secs nanos) = since_epoch secs 0
whole_secs (before_epoch secs nanos) = before_epoch secs nanos

abbrev pub add : String → Option Node → Entries → Entries
add name none es = es
add name (some node) es = entry name node es

module _ (fresh : Meta) where
  -- The tree that a snapshot restores where nothing stood: a file keeps its content, its mode and its
  -- time to the second, a link its target; a directory and a link are made anew, and a special file is
  -- gone.
  unfoldable mutual
    pub kept : Node → Option Node
    kept (file m content) =
        some (file (record { mode = m.mode; modified = whole_secs m.modified }) content)
    kept (dir m len es) = some (dir fresh 0 (kept_entries es))
    kept (link m target) = some (link fresh target)
    kept special = none

    pub kept_entries : Entries → Entries
    kept_entries end = end
    kept_entries (entry name node es) = add name (kept node) (kept_entries es)

-- How deep directories are nested.
unfoldable mutual
  pub depth : Node → ℕ
  depth (file m content) = 0
  depth (dir m len es) = suc (depth_entries es)
  depth (link m target) = 0
  depth special = 0

  pub depth_entries : Entries → ℕ
  depth_entries end = 0
  depth_entries (entry name node es) = max (depth node) (depth_entries es)

abbrev pub IsAfterEpoch : Meta → Type 0
IsAfterEpoch m = (secs : ℕ) × (serialize_time m.modified ≡ some secs)

-- No directory holds a name twice, or one of `seen`, and no time is before the epoch.
unfoldable mutual
  pub IsProper : Node → Type 0
  IsProper (file m content) = IsAfterEpoch m
  IsProper (dir m len es) = IsAfterEpoch m × AreProper [] es
  IsProper (link m target) = IsAfterEpoch m
  IsProper special = Unit

  pub AreProper : (seen : List String) → Entries → Type 0
  AreProper seen end = Unit
  AreProper seen (entry name node es) =
      (contains seen name ≡ false) × IsProper node × AreProper (seen ++ name ∷ []) es

abbrev pub append : Entries → Entries → Entries
append end b = b
append (entry name node a) b = entry name node (append a b)

pub append-end : (a : Entries) → append a end ≡ a
append-end end = refl
append-end (entry name node a) = ap (entry name node) (append-end a)

pub append_assoc : (a b c : Entries) → append (append a b) c ≡ append a (append b c)
append_assoc end b c = refl
append_assoc (entry name node a) b c = ap (entry name node) (append_assoc a b c)

-- Nothing in `acc` has a name that is not in `seen`.
abbrev pub Apart : Entries → List String → Type 0
Apart acc seen = (name : String) → contains seen name ≡ false → find name acc ≡ none

pub place_new :
    (name : String) (node : Node) (acc : Entries)
    → find name acc ≡ none
    → place name node acc ≡ append acc (entry name node end)
unfolding place find
place_new name node end h = refl
place_new name node (entry n old es) h = ground (arith, place_new name node es)

find-append :
    (k name : String) (node : Node) (acc : Entries)
    → find k acc ≡ none
    → name ≢ k
    → find k (append acc (entry name node end)) ≡ none
unfolding find
find-append k name node end h apart = ground (arith, eq_iff name k)
find-append k name node (entry n old es) h apart = ground (arith, find-append k name node es)

contains-push :
    (seen : List String) (name k : String)
    → contains (seen ++ name ∷ []) k ≡ (contains seen k || name == k)
contains-push [] name k = ground arith
contains-push (j ∷ seen) name k = ground (arith, contains-push seen name k)

pub Apart-push :
    (acc : Entries) (seen : List String) (name : String) (node : Node)
    → Apart acc seen
    → Apart (append acc (entry name node end)) (seen ++ name ∷ [])
Apart-push acc seen name node apart k h =
    find-append k name node acc (apart k (ground (arith, contains-push seen name k)))
      (λ e. ground (arith, contains-push seen name k, eq_iff name k))

pub Apart-skip :
    (acc : Entries) (seen : List String) (name : String)
    → Apart acc seen
    → Apart acc (seen ++ name ∷ [])
Apart-skip acc seen name apart k h = apart k (ground (arith, contains-push seen name k))
