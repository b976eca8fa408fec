-- ===== src/Snapshot/Manager/Order.antt =====
-- The orders of sandd/src/snapshot/manager.rs: `sort` and `dedup` of `Vec`, on tags and on
-- snapshots.
use Prim.Native.Char.{code}
use sand_d.Prelude.{
  String, Bool, true, false, List, [], ◌∷◌, ◌&&◌, ◌||◌, ◌==◌, eqb, ltb, if◌then◌else◌,
}
use sand_d.Protocol.{SnapshotInfo}

-- The order of `str`: by bytes of UTF-8, which is by code points.
unfoldable pub str_leb : String → String → Bool
str_leb String.[] t = true
str_leb (String.◌∷◌ c s) String.[] = false
str_leb (String.◌∷◌ c s) (String.◌∷◌ c' t) =
    ltb (code c) (code c') || (eqb (code c) (code c') && str_leb s t)

-- `sort_by` is stable.
unfoldable pub insert_by : {A : Type 0} → (A → A → Bool) → A → List A → List A
insert_by le x [] = x ∷ []
insert_by le x (y ∷ ys) = let rest = insert_by le x ys in if le x y then x ∷ y ∷ ys else y ∷ rest

unfoldable pub sort_by : {A : Type 0} → (A → A → Bool) → List A → List A
unfolding insert_by
sort_by le [] = []
sort_by le (x ∷ xs) = insert_by le x (sort_by le xs)

-- `dedup_by`: an element is dropped if it is the same as the last one that is kept.
unfoldable pub dedup_after : {A : Type 0} → (A → A → Bool) → A → List A → List A
dedup_after same last [] = []
dedup_after same last (y ∷ ys) = elim (same y last) [
  | true ↦ dedup_after same last ys
  | false ↦ y ∷ dedup_after same y ys
]

unfoldable pub dedup_by : {A : Type 0} → (A → A → Bool) → List A → List A
unfolding dedup_after
dedup_by same [] = []
dedup_by same (x ∷ xs) = x ∷ dedup_after same x xs

-- The newest first, and by id where the times are the same.
unfoldable pub newest_first : SnapshotInfo → SnapshotInfo → Bool
unfolding str_leb
newest_first a b =
    ltb b.created_at a.created_at || (eqb b.created_at a.created_at && str_leb a.id b.id)

abbrev pub same_id : SnapshotInfo → SnapshotInfo → Bool
same_id a b = a.id == b.id
