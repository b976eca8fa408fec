-- ===== src/Server/Api/Listing.antt =====
-- `list_daemons` and the registry.
use sand_d.Prelude.{
  ℕ, String, Bool, Option, none, some, List, [], ◌∷◌, ◌≡◌, ◌↔◌, false, not, refl, sym, subst, ap,
  All, map, arith, eq_iff, Bool-cases, inl, inr,
}
use sand_d.Prelude.Dict.{Dict, lookup, keys, retain, NodupKeys}
use sand_d.Server.Connection.{DaemonConnection, is_busy, is_empty}
use sand_d.Server.Registry
use sand_d.Server.Registry.{DaemonRegistry, deref, list_all, holds, label_filter}
use sand_d.Server.Registry.Invariant.{IsWellFormed}
use sand_d.Server.Handler.Laws.{IsReachable}
use sand_d.Server.Api.{Controller}
use sand_d.Server.Api.EndToEnd.{find_conn-IsReachable}
use sand_d.Server.Api.Daemons.{PyDaemonInfo, daemon_info, list_from, list_daemons}

All-weaken :
    {P Q : String → Type 0} (ks : List String) → ((k : String) → P k → Q k) → All P ks → All Q ks
All-weaken [] f h = tt
All-weaken (k ∷ ks) f h = (f k h.0, All-weaken ks f h.1)

key_later :
    {V : Type 0} (j : String) (v : V) (m : Dict V) (k : String)
    → lookup j m ≡ none
    → (w : V) × (lookup k m ≡ some w)
    → (w : V) × (lookup k ((j, v) ∷ m) ≡ some w)
unfolding lookup
key_later j v m k n (w, h) = (w, ground (arith, eq_iff j k))

-- What `retain` keeps are keys of the map.
retain-keys :
    {V : Type 0} (p : String → V → Bool) (m : Dict V)
    → NodupKeys m
    → All (λ k. (v : V) × (lookup k m ≡ some v)) (keys (retain p m))
unfolding retain lookup
retain-keys p [] u = tt
retain-keys p ((j, v) ∷ m) (n, u) =
    let later = All-weaken (keys (retain p m)) (λ k h. key_later j v m k n h) (retain-keys p m u) in
    elim (Bool-cases (p j v)) [
      | inl k ↦ rw (retain, k) ((v, ground (arith, eq_iff j j)), later)
      | inr k ↦ rw (retain, k) later
    ]

not_empty_iff : (p : Dict ℕ) → (not (is_empty p) ≡ false) ↔ (p ≡ [])
not_empty_iff [] = (λ _. refl, λ _. refl)
not_empty_iff (r ∷ p) = (λ h. absurd (cc), λ h. absurd (cc))

is_busy_iff : (c : DaemonConnection) → (is_busy c ≡ false) ↔ (c.pending_requests ≡ [])
unfolding is_busy
is_busy_iff c = not_empty_iff c.pending_requests

-- What `list_daemons` says of a daemon is what its connection says, which can be reached by its id.
abbrev pub IsTrue : Controller → PyDaemonInfo → Type 0
IsTrue s info =
    (arc : ℕ) × (c : DaemonConnection) × IsReachable s.world info.id arc c
    × (info.id ≡ c.id)
    × (info.version ≡ c.metadata.version)
    × (info.labels ≡ c.metadata.labels)
    × ((info.is_busy ≡ false) ↔ (c.pending_requests ≡ []))

list_from-known :
    (ids : List String) (s : Controller)
    → IsWellFormed s.world.registry
    → All (λ id. (arc : ℕ) × (lookup id s.world.registry.connections ≡ some arc)) ids
    → (map (λ info. info.id) (list_from ids s) ≡ ids) × All (IsTrue s) (list_from ids s)
unfolding list_from daemon_info Registry.get
list_from-known [] s wf h = (refl, tt)
list_from-known (id ∷ ids) s wf ((arc, known), h) =
    let e = wf.entries id arc known in
    let (named, true_) = list_from-known ids s wf h in
    let reach : IsReachable s.world id arc e.conn = record { entry = known; found = e.found } in
    rw (list_from, find_conn-IsReachable s id reach)
      (
        rw e.named (ap (◌∷◌ id) named),
        (
          (
            arc,
            e.conn,
            subst (λ j. IsReachable s.world j arc e.conn) (sym e.named) reach,
            refl,
            refl,
            refl,
            is_busy_iff e.conn,
          ),
          true_,
        ),
      )

-- In a well-formed registry, `list_daemons` returns exactly the daemons that the registry lists for
-- the labels, in the same order, each with the id, the version and the labels of the connection that
-- is reached by that id, and busy exactly if requests are pending there.
pub list_daemons-list_all :
    (labels : Option (Dict String)) (s : Controller)
    → IsWellFormed s.world.registry
    → (map (λ info. info.id) (list_daemons labels s) ≡ list_all labels s.world.registry)
      × All (IsTrue s) (list_daemons labels s)
unfolding list_daemons list_all
list_daemons-list_all labels s wf = list_from-known (list_all labels s.world.registry) s wf (
    retain-keys
      (λ _ arc. holds (λ c. label_filter labels c.metadata.labels) (deref s.world.registry arc))
      s.world.registry.connections wf.distinct)
