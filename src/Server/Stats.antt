-- ===== src/Server/Stats.antt =====
-- server/src/server.rs, the HTTP endpoints: `health_handler`, `stats_handler` and `stats_body`. The
-- `serde_json` values are records with the fields of the objects; their text is left out.
use sand_d.Prelude.{
  ℕ, ◌-◌, ◌≤◌, String, Bool, Option, ◌≡◌, refl, ap, none, some, List, [], ◌∷◌, ◌==◌, arith, eq_iff,
  get_elem?, Option-cases, Bool-cases, inl, inr, ◌∙◌,
}
use sand_d.Prelude.Dict.{
  Dict, lookup, insert, NodupKeys, lookup-insert, insert-NodupKeys, lookup-nil,
}
use sand_d.Server.Connection.{DaemonConnection, is_busy, seconds_since_heartbeat}
use sand_d.Server.Registry.{
  DaemonRegistry, RegistryStats, DaemonInfo, deref, get, count, get_stats, stats_loop, add_stats,
  info,
}
use sand_d.Server.Registry.Invariant.{IsWellFormed}
use sand_d.Server.Registry.Stats.{total, get_stats_faithful}

-- One value of the `daemons` object.
pub record StatsEntry : Type 0 where
  pub hostname : String
  pub platform : String
  pub arch : String
  pub version : String
  pub labels : Dict String
  pub is_busy : Bool
  pub connected_secs : ℕ
  pub seconds_since_heartbeat : ℕ

-- The object that is returned.
pub record StatsBody : Type 0 where
  pub total_daemons : ℕ
  pub by_platform : Dict ℕ
  pub oldest_connection_secs : ℕ
  pub daemons : Dict StatsEntry

unfoldable pub stats_entry : DaemonInfo → StatsEntry
stats_entry d = record {
  hostname = d.hostname;
  platform = d.platform;
  arch = d.arch;
  version = d.version;
  labels = d.labels;
  is_busy = d.is_busy;
  connected_secs = d.connected_secs;
  seconds_since_heartbeat = d.seconds_since_heartbeat;
}

-- `collect` into a map, where an id that comes again replaces its value.
unfoldable pub collect : Dict DaemonInfo → Dict StatsEntry → Dict StatsEntry
unfolding stats_entry
collect [] acc = acc
collect ((id, d) ∷ m) acc = collect m (insert id (stats_entry d) acc)

unfoldable pub stats_body : RegistryStats → StatsBody
unfolding collect
stats_body stats = record {
  total_daemons = stats.total_daemons;
  by_platform = stats.by_platform;
  oldest_connection_secs = stats.oldest_connection_secs;
  daemons = collect stats.daemons [];
}

unfoldable pub stats_handler : (now : ℕ) → DaemonRegistry → StatsBody
unfolding stats_body get_stats
stats_handler now r = stats_body (get_stats now r)

unfoldable pub health_handler : String
health_handler = "OK"

abbrev shown : Option DaemonInfo → Option StatsEntry → Option StatsEntry
shown none before = before
shown (some d) before = some (stats_entry d)

lookup-collect :
    (id : String) (m : Dict DaemonInfo) (acc : Dict StatsEntry)
    → NodupKeys m
    → lookup id (collect m acc) ≡ shown (lookup id m) (lookup id acc)
unfolding collect lookup
lookup-collect id [] acc u = refl
lookup-collect id ((i, d) ∷ m) acc u =
    lookup-collect id m (insert i (stats_entry d) acc) u.1 ∙ (elim (Bool-cases (i == id)) [
      | inl here ↦
          let gone : lookup id m ≡ none = ground (arith, eq_iff i id, u.0) in
          rw (lookup-insert i id (stats_entry d) acc, gone, here) refl
      | inr there ↦ rw (lookup-insert i id (stats_entry d) acc, there) refl
    ])

stats_loop-NodupKeys :
    (now : ℕ) (heap : List DaemonConnection) (m : Dict ℕ) (stats : RegistryStats)
    → NodupKeys stats.daemons
    → NodupKeys (stats_loop now heap m stats).daemons
unfolding stats_loop add_stats
stats_loop-NodupKeys now heap [] stats u = u
stats_loop-NodupKeys now heap ((i, a) ∷ m) stats u = elim (Option-cases (get_elem? heap a)) [
  | inl missing ↦ rw (missing, stats_loop) (stats_loop-NodupKeys now heap m stats u)
  | inr (c, found) ↦
      rw (found, stats_loop)
        (stats_loop-NodupKeys now heap m (add_stats now c stats)
          (insert-NodupKeys c.id (info now c) stats.daemons u))
]

get_stats-NodupKeys : (now : ℕ) (r : DaemonRegistry) → NodupKeys (get_stats now r).daemons
unfolding get_stats
get_stats-NodupKeys now r = stats_loop-NodupKeys now r.heap r.connections _ tt

-- What the endpoint returns agrees with a well-formed registry: the count is that of the registered
-- daemons, the counts by platform add up to it, a daemon that is registered stands under its id
-- with what its own connection says and is no older than the oldest connection, and no other id is
-- listed.
pub stats_handler_faithful :
    (now : ℕ) (r : DaemonRegistry)
    → IsWellFormed r
    → let body = stats_handler now r in
      (body.total_daemons ≡ count r)
      × (total body.by_platform ≡ count r)
      × ((id : String) (arc : ℕ) (c : DaemonConnection)
          → get id r ≡ some arc
          → deref r arc ≡ some c
          → (lookup id body.daemons
              ≡ some (record {
                hostname = c.metadata.hostname;
                platform = c.metadata.platform;
                arch = c.metadata.arch;
                version = c.metadata.version;
                labels = c.metadata.labels;
                is_busy = is_busy c;
                connected_secs = now - c.connected_at;
                seconds_since_heartbeat = now - c.last_heartbeat;
              }))
            × (now - c.connected_at ≤ body.oldest_connection_secs))
      × ((id : String) → get id r ≡ none → lookup id body.daemons ≡ none)
unfolding stats_handler stats_body collect stats_entry info seconds_since_heartbeat
stats_handler_faithful now r w =
    let (counted, platforms, listed, absent) = get_stats_faithful now r w in
    let u = get_stats-NodupKeys now r in
    (
      counted,
      platforms,
      (λ id arc c entry found. (
        lookup-collect id (get_stats now r).daemons [] u
            ∙ ap (λ o. shown o (lookup id [])) (listed id arc c entry found).0,
        (listed id arc c entry found).1,
      )),
      (λ id gone.
          lookup-collect id (get_stats now r).daemons [] u
          ∙ ap (λ o. shown o (lookup id [])) (absent id gone)
          ∙ lookup-nil id),
    )
