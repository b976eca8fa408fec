-- ===== src/Prelude/Dict.antt =====
-- A map with text keys (`HashMap`, `DashMap`, a directory of files), as an association list whose
-- order no operation of the program depends on.
use Prim.Native.Nat.{suc}
use Prim.Native.String.{String}
use mathlib.Core.Path.{◌≡◌, refl}
use mathlib.Core.Logic.{◌≢◌}
use mathlib.Core.Bool.{Bool}
use mathlib.Core.Option.{Option, none, some}
use mathlib.Core.List.{List, [], ◌∷◌}
use native.Mathlib.Omega.{arith}
use text.Mathlib.Text.{◌==◌}
use text.Mathlib.TextEquality.{eq_iff}
use text.Mathlib.TextPositions.{eq_refl}
use sand_d.Prelude.Tests.{if◌then◌else◌}
use sand_d.Prelude.Lists.{length, contains}
use Prim.Native.Nat.{◌+◌}
use mathlib.Core.Bool.{true, not}
use mathlib.Core.Logic.{◌↔◌}

abbrev pub Dict {ℓ} : Type ℓ → Type ℓ
Dict V = List (String × V)

module _ {ℓ} {V : Type ℓ} where
  unfoldable pub lookup : String → Dict V → Option V
  lookup k [] = none
  lookup k ((j, v) ∷ m) = if j == k then some v else lookup k m

  unfoldable pub remove : String → Dict V → Dict V
  remove k [] = []
  remove k ((j, v) ∷ m) = let rest = remove k m in if j == k then rest else (j, v) ∷ rest

  unfoldable pub insert : String → V → Dict V → Dict V
  unfolding remove
  insert k v m = (k, v) ∷ remove k m

  -- A write through `get_mut`: a missing key changes nothing.
  unfoldable pub adjust : String → (V → V) → Dict V → Dict V
  adjust k f [] = []
  adjust k f ((j, v) ∷ m) = let rest = adjust k f m in (j, if j == k then f v else v) ∷ rest

  unfoldable pub retain : (String → V → Bool) → Dict V → Dict V
  retain p [] = []
  retain p ((j, v) ∷ m) = let rest = retain p m in if p j v then (j, v) ∷ rest else rest

  abbrev pub keys : Dict V → List String
  keys [] = []
  keys ((j, v) ∷ m) = j ∷ keys m

  abbrev pub NodupKeys : Dict V → Type ℓ
  NodupKeys [] = Unit
  NodupKeys ((k, v) ∷ m) = (lookup k m ≡ none) × NodupKeys m

  pub lookup-nil : (k : String) → lookup k [] ≡ none
  unfolding lookup
  lookup-nil k = refl

  pub lookup-remove :
      (k j : String) (m : Dict V) → lookup j (remove k m) ≡ (if k == j then none else lookup j m)
  unfolding lookup remove
  lookup-remove k j [] = ground arith
  lookup-remove k j ((i, v) ∷ m) =
      ground (arith, lookup-remove k j m, eq_iff i k, eq_iff i j, eq_iff k j)

  pub lookup-insert :
      (k j : String) (v : V) (m : Dict V)
      → lookup j (insert k v m) ≡ (if k == j then some v else lookup j m)
  unfolding lookup insert
  lookup-insert k j v m = ground (arith, lookup-remove k j m)

  pub lookup-insert_self : (k : String) (v : V) (m : Dict V) → lookup k (insert k v m) ≡ some v
  lookup-insert_self k v m = simp (lookup-insert, eq_refl)

  pub lookup-remove_self : (k : String) (m : Dict V) → lookup k (remove k m) ≡ none
  lookup-remove_self k m = simp (lookup-remove, eq_refl)

  pub lookup-insert_ne :
      (k j : String) (v : V) (m : Dict V) → k ≢ j → lookup j (insert k v m) ≡ lookup j m
  lookup-insert_ne k j v m h = ground (arith, lookup-insert k j v m, eq_iff k j)

  pub lookup-remove_ne : (k j : String) (m : Dict V) → k ≢ j → lookup j (remove k m) ≡ lookup j m
  lookup-remove_ne k j m h = ground (arith, lookup-remove k j m, eq_iff k j)

  pub lookup-adjust_self :
      (k : String) (f : V → V) (m : Dict V) {v : V}
      → lookup k m ≡ some v
      → lookup k (adjust k f m) ≡ some (f v)
  unfolding lookup adjust
  lookup-adjust_self k f [] h = cc
  lookup-adjust_self k f ((i, w) ∷ m) {v} h = ground (arith, lookup-adjust_self k f m {v = v})

  pub lookup-adjust-none :
      (k j : String) (f : V → V) (m : Dict V) → lookup j m ≡ none → lookup j (adjust k f m) ≡ none
  unfolding lookup adjust
  lookup-adjust-none k j f [] h = refl
  lookup-adjust-none k j f ((i, w) ∷ m) h = ground (arith, lookup-adjust-none k j f m)

  pub lookup-adjust_ne :
      (k j : String) (f : V → V) (m : Dict V) → k ≢ j → lookup j (adjust k f m) ≡ lookup j m
  unfolding lookup adjust
  lookup-adjust_ne k j f [] h = refl
  lookup-adjust_ne k j f ((i, w) ∷ m) h =
      ground (arith, lookup-adjust_ne k j f m h, eq_iff i j, eq_iff i k)

  abbrev keep_if : (String → V → Bool) → String → Option V → Option V
  keep_if p k none = none
  keep_if p k (some v) = if p k v then some v else none

  lookup-retain_absent :
      (p : String → V → Bool) (k : String) (m : Dict V)
      → lookup k m ≡ none
      → lookup k (retain p m) ≡ none
  unfolding lookup retain
  lookup-retain_absent p k [] h = refl
  lookup-retain_absent p k ((i, w) ∷ m) h = ground (arith, lookup-retain_absent p k m)

  -- With distinct keys, `retain` answers for each key by its own entry.
  pub lookup-retain :
      (p : String → V → Bool) (k : String) (m : Dict V)
      → NodupKeys m
      → lookup k (retain p m) ≡ keep_if p k (lookup k m)
  unfolding lookup retain
  lookup-retain p k [] u = refl
  lookup-retain p k ((i, w) ∷ m) u =
      ground (arith, lookup-retain p k m u.1, lookup-retain_absent p k m, eq_iff i k)

  pub remove-NodupKeys : (k : String) (m : Dict V) → NodupKeys m → NodupKeys (remove k m)
  unfolding remove
  remove-NodupKeys k [] u = tt
  remove-NodupKeys k ((i, w) ∷ m) u = ground (arith, remove-NodupKeys k m u.1, lookup-remove k i m)

  pub insert-NodupKeys : (k : String) (v : V) (m : Dict V) → NodupKeys m → NodupKeys (insert k v m)
  unfolding insert
  insert-NodupKeys k v m u = (lookup-remove_self k m, remove-NodupKeys k m u)

  pub adjust-NodupKeys :
      (k : String) (f : V → V) (m : Dict V) → NodupKeys m → NodupKeys (adjust k f m)
  unfolding adjust
  adjust-NodupKeys k f [] u = tt
  adjust-NodupKeys k f ((i, w) ∷ m) u = (lookup-adjust-none k i f m u.0, adjust-NodupKeys k f m u.1)

  pub retain-NodupKeys : (p : String → V → Bool) (m : Dict V) → NodupKeys m → NodupKeys (retain p m)
  unfolding retain
  retain-NodupKeys p [] u = tt
  retain-NodupKeys p ((i, w) ∷ m) u =
      ground (arith, retain-NodupKeys p m u.1, lookup-retain_absent p i m)

  -- Removing a key that is there takes one entry away.
  pub length-remove_absent : (k : String) (m : Dict V) → lookup k m ≡ none → remove k m ≡ m
  unfolding lookup remove
  length-remove_absent k [] h = refl
  length-remove_absent k ((i, w) ∷ m) h = ground (arith, length-remove_absent k m)

  pub length-remove :
      (k : String) (m : Dict V) {v : V}
      → NodupKeys m
      → lookup k m ≡ some v
      → suc (length (remove k m)) ≡ length m
  unfolding lookup remove
  length-remove k [] u h = cc
  length-remove k ((i, w) ∷ m) {v} u h =
      ground (arith, length-remove k m {v = v} u.1, length-remove_absent k m, eq_iff i k)

module _ {ℓ} {V : Type ℓ} where
  -- `retain` splits the entries into those it keeps and those it refuses.
  pub length-retain :
      (p : String → V → Bool) (m : Dict V)
      → length (retain p m) + length (retain (λ k v. not (p k v)) m) ≡ length m
  unfolding retain
  length-retain p [] = omega arith
  length-retain p ((i, w) ∷ m) = ground (arith, length-retain p m)

  pub contains-keys : (k : String) (m : Dict V) → (contains (keys m) k ≡ true) ↔ (lookup k m ≢ none)
  unfolding lookup
  contains-keys k [] = (λ h. cc, λ h. absurd (h refl))
  contains-keys k ((i, w) ∷ m) = ground (arith, contains-keys k m)
