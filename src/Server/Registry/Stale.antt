-- ===== src/Server/Registry/Stale.antt =====
-- `cleanup_stale` and `list_all`: which entries a sweep removes, and which a query returns.
use sand_d.Prelude.{
  ℕ, ◌+◌, ◌-◌, String, Bool, ◌≡◌, ◌↔◌, refl, true, not, none, some, [], ◌∷◌, arith, eq_iff, ltb,
  length, contains, Option-cases, inl, inr, if◌then◌else◌,
}
use sand_d.Prelude.Dict.{Dict, lookup, NodupKeys, lookup-retain, contains-keys, retain}
use sand_d.Server.Connection.{DaemonConnection, seconds_since_heartbeat}
use sand_d.Server.Registry.{
  DaemonRegistry, deref, get, count, holds, is_stale, count_refused, cleanup_stale, label_filter,
  has_labels, list_all,
}
use sand_d.Server.Registry.Invariant.{IsWellFormed}

count_refused-retain :
    (p : ℕ → Bool) (m : Dict ℕ)
    → count_refused p m + length (retain (λ _ a. not (p a)) m) ≡ length m
unfolding count_refused retain
count_refused-retain p [] = omega arith
count_refused-retain p ((i, a) ∷ m) = ground (arith, count_refused-retain p m)

-- In a well-formed registry, a sweep removes exactly the daemons that have been silent for more
-- than `timeout_secs` seconds: such a daemon is gone, every other keeps its connection, no entry
-- appears, and the number that the sweep returns is the number by which the registry shrank.
pub cleanup_stale_exact :
    (now timeout_secs : ℕ) (r : DaemonRegistry)
    → IsWellFormed r
    → let (removed, r') = cleanup_stale now timeout_secs r in
      (removed + count r' ≡ count r)
      × ((id : String) → get id r ≡ none → get id r' ≡ none)
      × ((id : String) (arc : ℕ) (c : DaemonConnection)
          → get id r ≡ some arc
          → deref r arc ≡ some c
          → get id r' ≡ (if ltb timeout_secs (now - c.last_heartbeat) then none else some arc))
unfolding cleanup_stale count get seconds_since_heartbeat
cleanup_stale_exact now timeout_secs r w =
    let at = λ (id : String).
      lookup-retain (λ _ a. not (holds (is_stale now timeout_secs) (deref r a))) id r.connections
        w.distinct in
    (
      count_refused-retain (λ a. holds (is_stale now timeout_secs) (deref r a)) r.connections,
      λ id absent. ground (arith, at id),
      λ id arc c entry found. ground (arith, at id),
    )

-- The wanted labels, as a predicate on a daemon's labels.
abbrev pub HasLabels : Dict String → Dict String → Type 0
HasLabels wanted labels =
    (key value : String) → lookup key wanted ≡ some value → lookup key labels ≡ some value

has_labels_sound :
    (wanted labels : Dict String) → has_labels wanted labels ≡ true → HasLabels wanted labels
unfolding has_labels lookup
has_labels_sound [] labels h key value e = cc
has_labels_sound ((k, v) ∷ wanted) labels h key value e =
    let rest =
      λ (p : has_labels wanted labels ≡ true). has_labels_sound wanted labels p key value in
    elim (Option-cases (lookup k labels)) [
      | inl missing ↦ cc (rw missing at h)
      | inr (x, there) ↦ ground (arith, rw there at h, there, rest, eq_iff k key, eq_iff x v)
    ]

has_labels_complete :
    (wanted labels : Dict String)
    → NodupKeys wanted
    → HasLabels wanted labels
    → has_labels wanted labels ≡ true
unfolding has_labels lookup
has_labels_complete [] labels u h = refl
has_labels_complete ((k, v) ∷ wanted) labels u h = ground (
  arith,
  h k v,
  has_labels_complete wanted labels u.1 (λ key value e. h key value (ground (arith, eq_iff k key))),
  eq_iff k k,
  eq_iff v v,
)

label_filter_iff :
    (wanted : Dict String) (labels : Dict String)
    → NodupKeys wanted
    → (label_filter (some wanted) labels ≡ true) ↔ HasLabels wanted labels
unfolding lookup
label_filter_iff [] labels u = (λ _ key value e. cc, λ _. refl)
label_filter_iff (want ∷ wanted) labels u =
    (has_labels_sound (want ∷ wanted) labels, has_labels_complete (want ∷ wanted) labels u)

-- In a well-formed registry, a query with a label filter, in which no label stands twice, returns
-- a registered daemon exactly if the daemon carries every wanted label with the wanted value.
pub list_all_iff :
    (wanted : Dict String) (r : DaemonRegistry) (id : String) (arc : ℕ) (c : DaemonConnection)
    → NodupKeys wanted
    → IsWellFormed r
    → get id r ≡ some arc
    → deref r arc ≡ some c
    → (contains (list_all (some wanted) r) id ≡ true) ↔ HasLabels wanted c.metadata.labels
unfolding list_all get
list_all_iff wanted r id arc c u w entry found =
    let p = λ (_ : String) (a : ℕ).
      holds (λ d. label_filter (some wanted) d.metadata.labels) (deref r a) in
    let at = lookup-retain p id r.connections w.distinct in
    let listed = contains-keys id (retain p r.connections) in
    let spec = label_filter_iff wanted c.metadata.labels u in
    (λ h. spec.0 (ground (arith, at, listed)), λ h. listed.1 (ground (arith, at, spec.1 h)))
