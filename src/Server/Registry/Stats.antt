-- ===== src/Server/Registry/Stats.antt =====
-- `get_stats`: the snapshot agrees with the registry.
use sand_d.Prelude.{
  ℕ, ◌+◌, ◌-◌, ◌≤◌, String, ◌≡◌, refl, none, some, List, [], ◌∷◌, ◌==◌, arith, eq_iff, length,
  get_elem?, Option-cases, Bool-cases, inl, inr, ◌∙◌,
}
use sand_d.Prelude.Dict.{
  Dict, lookup, insert, remove, NodupKeys, lookup-insert, insert-NodupKeys, lookup-nil,
}
use sand_d.Server.Connection.{DaemonConnection}
use sand_d.Server.Registry.{
  DaemonRegistry, RegistryStats, deref, get, count, get_stats, stats_loop, add_stats, info,
  count_of,
}
use sand_d.Server.Registry.Invariant.{IsWellFormed, IsEntry}

-- The daemons of all platforms together.
abbrev pub total : Dict ℕ → ℕ
total [] = 0
total ((_, n) ∷ m) = n + total m

total-remove_absent : (k : String) (m : Dict ℕ) → lookup k m ≡ none → total (remove k m) ≡ total m
unfolding lookup remove
total-remove_absent k [] h = refl
total-remove_absent k ((i, n) ∷ m) h = ground (arith, total-remove_absent k m)

total-remove :
    (k : String) (m : Dict ℕ) → NodupKeys m → count_of (lookup k m) + total (remove k m) ≡ total m
unfolding lookup remove
total-remove k [] u = omega arith
total-remove k ((i, n) ∷ m) u =
    ground (arith, total-remove k m u.1, total-remove_absent k m, eq_iff i k)

-- Every entry of the part of the registry that the loop has still to visit is good.
abbrev IsListed : List DaemonConnection → Dict ℕ → Type 0
IsListed heap [] = Unit
IsListed heap ((id, arc) ∷ m) = IsEntry heap id arc × IsListed heap m

IsListed-of_entries :
    (heap : List DaemonConnection) (m : Dict ℕ)
    → NodupKeys m
    → ((id : String) (arc : ℕ) → lookup id m ≡ some arc → IsEntry heap id arc)
    → IsListed heap m
unfolding lookup
IsListed-of_entries heap [] u h = tt
IsListed-of_entries heap ((i, a) ∷ m) u h = (
  h i a (ground (arith, eq_iff i i)),
  IsListed-of_entries heap m u.1 (λ id arc e. h id arc (ground (arith, eq_iff i id))),
)

record IsCounted (before after : RegistryStats) (added : ℕ) : Type 0 where
  platforms : NodupKeys after.by_platform
  daemons_total : total after.by_platform ≡ total before.by_platform + added
  unchanged : after.total_daemons ≡ before.total_daemons

add_stats-IsCounted :
    (now : ℕ) (c : DaemonConnection) (stats : RegistryStats)
    → NodupKeys stats.by_platform
    → IsCounted stats (add_stats now c stats) 1
unfolding add_stats insert
add_stats-IsCounted now c stats u =
    let platform = c.metadata.platform in
    record {
      platforms =
          insert-NodupKeys platform (count_of (lookup platform stats.by_platform) + 1)
            stats.by_platform u;
      daemons_total = omega (arith, total-remove platform stats.by_platform u);
      unchanged = refl;
    }

stats_loop-IsCounted :
    (now : ℕ) (heap : List DaemonConnection) (m : Dict ℕ) (stats : RegistryStats)
    → IsListed heap m
    → NodupKeys stats.by_platform
    → IsCounted stats (stats_loop now heap m stats) (length m)
unfolding stats_loop
stats_loop-IsCounted now heap [] stats l u = record {
  platforms = u;
  daemons_total = omega arith;
  unchanged = refl;
}
stats_loop-IsCounted now heap ((i, a) ∷ m) stats l u =
    let one = add_stats-IsCounted now l.0.conn stats u in
    let rest = stats_loop-IsCounted now heap m (add_stats now l.0.conn stats) l.1 one.platforms in
    rw (l.0.found, stats_loop)
      (record {
        platforms = rest.platforms;
        daemons_total = omega (arith, rest.daemons_total, one.daemons_total);
        unchanged = rest.unchanged ∙ one.unchanged;
      })

-- What the detail of a daemon shows does not come from any later entry.
lookup-stats_loop_absent :
    (now : ℕ) (heap : List DaemonConnection) (m : Dict ℕ) (stats : RegistryStats) (id : String)
    → IsListed heap m
    → lookup id m ≡ none
    → lookup id (stats_loop now heap m stats).daemons ≡ lookup id stats.daemons
unfolding stats_loop lookup
lookup-stats_loop_absent now heap [] stats id l h = refl
lookup-stats_loop_absent now heap ((i, a) ∷ m) stats id l h =
    rw (l.0.found, stats_loop)
      (lookup-stats_loop_absent now heap m (add_stats now l.0.conn stats) id l.1 (ground arith)
        ∙ ground (
          arith,
          lookup-insert l.0.conn.id id (info now l.0.conn) stats.daemons,
          eq_iff l.0.conn.id id,
          eq_iff i id,
          l.0.named,
        ))

lookup-stats_loop :
    (now : ℕ) (heap : List DaemonConnection) (m : Dict ℕ) (stats : RegistryStats) (id : String)
    (arc : ℕ) (c : DaemonConnection)
    → IsListed heap m
    → NodupKeys m
    → lookup id m ≡ some arc
    → get_elem? heap arc ≡ some c
    → lookup id (stats_loop now heap m stats).daemons ≡ some (info now c)
unfolding stats_loop lookup
lookup-stats_loop now heap [] stats id arc c l u h found = cc
lookup-stats_loop now heap ((i, a) ∷ m) stats id arc c l u h found =
    rw (l.0.found, stats_loop)
      (elim (Bool-cases (i == id)) [
        | inl here ↦
            lookup-stats_loop_absent now heap m (add_stats now l.0.conn stats) id l.1
              (ground (arith, eq_iff i id))
            ∙ ground (
              arith,
              lookup-insert l.0.conn.id id (info now l.0.conn) stats.daemons,
              eq_iff l.0.conn.id id,
              eq_iff i id,
              l.0.named,
              l.0.found,
            )
        | inr there ↦
            lookup-stats_loop now heap m (add_stats now l.0.conn stats) id arc c l.1 u.1
              (ground arith) found
      ])

-- The ages seen so far.
oldest-stats_loop_mono :
    (now : ℕ) (heap : List DaemonConnection) (m : Dict ℕ) (stats : RegistryStats)
    → stats.oldest_connection_secs ≤ (stats_loop now heap m stats).oldest_connection_secs
unfolding stats_loop
oldest-stats_loop_mono now heap [] stats = omega arith
oldest-stats_loop_mono now heap ((i, a) ∷ m) stats = elim (Option-cases (get_elem? heap a)) [
  | inl missing ↦ rw (missing, stats_loop) (oldest-stats_loop_mono now heap m stats)
  | inr (c, found) ↦
      rw (found, stats_loop)
        (ground (arith, oldest-stats_loop_mono now heap m (add_stats now c stats)))
]

oldest-stats_loop :
    (now : ℕ) (heap : List DaemonConnection) (m : Dict ℕ) (stats : RegistryStats) (id : String)
    (arc : ℕ) (c : DaemonConnection)
    → lookup id m ≡ some arc
    → get_elem? heap arc ≡ some c
    → now - c.connected_at ≤ (stats_loop now heap m stats).oldest_connection_secs
unfolding stats_loop lookup
oldest-stats_loop now heap [] stats id arc c h found = cc
oldest-stats_loop now heap ((i, a) ∷ m) stats id arc c h found = elim (Bool-cases (i == id)) [
  | inl here ↦
      let same : a ≡ arc = ground arith in
      rw (same, found, stats_loop)
        (ground (arith, oldest-stats_loop_mono now heap m (add_stats now c stats)))
  | inr there ↦ oldest-stats_loop now heap m _ id arc c (ground arith) found
]

-- The statistics agree with a well-formed registry: they count the registered daemons, the counts
-- by platform add up to that number, each registered daemon is listed under its id with its own
-- data, no other id is listed, and no registered daemon is older than the oldest connection that
-- is reported.
pub get_stats_faithful :
    (now : ℕ) (r : DaemonRegistry)
    → IsWellFormed r
    → let stats = get_stats now r in
      (stats.total_daemons ≡ count r)
      × (total stats.by_platform ≡ count r)
      × ((id : String) (arc : ℕ) (c : DaemonConnection)
          → get id r ≡ some arc
          → deref r arc ≡ some c
          → (lookup id stats.daemons ≡ some (info now c))
            × (now - c.connected_at ≤ stats.oldest_connection_secs))
      × ((id : String) → get id r ≡ none → lookup id stats.daemons ≡ none)
unfolding get_stats get count
get_stats_faithful now r w =
    let start : RegistryStats = record {
      total_daemons = count r;
      by_platform = [];
      oldest_connection_secs = 0;
      daemons = [];
    } in
    let listed = IsListed-of_entries r.heap r.connections w.distinct w.entries in
    let counted = stats_loop-IsCounted now r.heap r.connections start listed tt in
    (
      counted.unchanged,
      omega (arith, counted.daemons_total),
      (λ id arc c entry found. (
        lookup-stats_loop now r.heap r.connections start id arc c listed w.distinct entry found,
        oldest-stats_loop now r.heap r.connections start id arc c entry found,
      )),
      (λ id absent.
          lookup-stats_loop_absent now r.heap r.connections start id listed absent ∙ lookup-nil id),
    )
