-- ===== src/Server/Registry.antt =====
-- server/src/registry.rs, `DaemonRegistry`. An `Arc<DaemonConnection>` is an index into `heap`,
-- which holds every connection that was ever registered: a caller that still holds the old index of
-- a daemon that registered again goes on using the old connection, as it does with the old `Arc`.
-- The methods of a connection take effect through `modify`.
pub mod Invariant
pub mod Stale
pub mod Stats
use sand_d.Prelude.{
  ℕ, suc, ◌+◌, ◌-◌, String, Bool, not, true, false, ◌&&◌, Option, none, some, List, [], ◌∷◌, ◌++◌,
  ltb, length, get_elem?, set, max, ◌==◌, if◌then◌else◌,
}
use sand_d.Prelude.Dict.{Dict, lookup, insert, remove, adjust, retain, keys}
use sand_d.Protocol.{DaemonMetadata}
use sand_d.Server.Connection.{DaemonConnection, seconds_since_heartbeat, is_busy}

pub record DaemonRegistry : Type 0 where
  pub heap : List DaemonConnection
  pub connections : Dict ℕ

abbrev pub empty : DaemonRegistry
empty = record { heap = []; connections = [] }

abbrev pub deref : DaemonRegistry → ℕ → Option DaemonConnection
deref r arc = get_elem? r.heap arc

abbrev modify_at :
    List DaemonConnection
    → ℕ
    → (DaemonConnection → DaemonConnection)
    → Option DaemonConnection
    → List DaemonConnection
modify_at heap arc f none = heap
modify_at heap arc f (some c) = set heap arc (f c)

unfoldable pub modify : ℕ → (DaemonConnection → DaemonConnection) → DaemonRegistry → DaemonRegistry
modify arc f r = record r { heap = modify_at r.heap arc f (deref r arc) }

-- The new `Arc`, and the registry with the entry for its id replaced.
unfoldable pub register : DaemonConnection → DaemonRegistry → ℕ × DaemonRegistry
register conn r =
    let arc_conn = length r.heap in
    (
      arc_conn,
      record { heap = r.heap ++ conn ∷ []; connections = insert conn.id arc_conn r.connections },
    )

unfoldable pub get : String → DaemonRegistry → Option ℕ
get daemon_id r = lookup daemon_id r.connections

unfoldable pub unregister : String → DaemonRegistry → DaemonRegistry
unregister daemon_id r = record r { connections = remove daemon_id r.connections }

unfoldable pub count : DaemonRegistry → ℕ
count r = length r.connections

-- All the wanted labels are there, with the wanted values.
unfoldable pub has_labels : Dict String → Dict String → Bool
has_labels [] labels = true
has_labels ((key, value) ∷ rest) labels =
    elim (lookup key labels) [ some v ↦ v == value | none ↦ false ] && has_labels rest labels

abbrev pub label_filter : Option (Dict String) → Dict String → Bool
label_filter none labels = true
label_filter (some []) labels = true
label_filter (some (want ∷ wanted)) labels = has_labels (want ∷ wanted) labels

abbrev pub holds : (DaemonConnection → Bool) → Option DaemonConnection → Bool
holds p none = false
holds p (some c) = p c

unfoldable pub list_all : Option (Dict String) → DaemonRegistry → List String
unfolding has_labels
list_all labels r = keys (
    retain (λ _ arc. holds (λ c. label_filter labels c.metadata.labels) (deref r arc))
      r.connections)

abbrev pub is_stale : (now timeout_secs : ℕ) → DaemonConnection → Bool
is_stale now timeout_secs c = ltb timeout_secs (seconds_since_heartbeat now c)

-- How many entries the closure of `retain` refuses.
unfoldable pub count_refused : (ℕ → Bool) → Dict ℕ → ℕ
count_refused p [] = 0
count_refused p ((_, arc) ∷ m) = (if p arc then 1 else 0) + count_refused p m

unfoldable pub cleanup_stale : (now timeout_secs : ℕ) → DaemonRegistry → ℕ × DaemonRegistry
cleanup_stale now timeout_secs r =
    let stale = λ (arc : ℕ). holds (is_stale now timeout_secs) (deref r arc) in
    (
      count_refused stale r.connections,
      record r { connections = retain (λ _ arc. not (stale arc)) r.connections },
    )

pub record DaemonInfo : Type 0 where
  pub hostname : String
  pub platform : String
  pub arch : String
  pub version : String
  pub labels : Dict String
  pub is_busy : Bool
  pub connected_secs : ℕ
  pub seconds_since_heartbeat : ℕ

pub record RegistryStats : Type 0 where
  pub total_daemons : ℕ
  pub by_platform : Dict ℕ
  pub oldest_connection_secs : ℕ
  pub daemons : Dict DaemonInfo

unfoldable pub info : (now : ℕ) → DaemonConnection → DaemonInfo
info now c = record {
  hostname = c.metadata.hostname;
  platform = c.metadata.platform;
  arch = c.metadata.arch;
  version = c.metadata.version;
  labels = c.metadata.labels;
  is_busy = is_busy c;
  connected_secs = now - c.connected_at;
  seconds_since_heartbeat = seconds_since_heartbeat now c;
}

abbrev count_of : Option ℕ → ℕ
count_of none = 0
count_of (some n) = n

-- One round of the loop in `get_stats`.
unfoldable pub add_stats : (now : ℕ) → DaemonConnection → RegistryStats → RegistryStats
unfolding info
add_stats now c stats =
    let age = now - c.connected_at in
    record stats {
      by_platform =
          insert c.metadata.platform (count_of (lookup c.metadata.platform stats.by_platform) + 1)
            stats.by_platform;
      oldest_connection_secs =
          if ltb stats.oldest_connection_secs age then age else stats.oldest_connection_secs;
      daemons = insert c.id (info now c) stats.daemons;
    }

unfoldable pub stats_loop :
    (now : ℕ) → List DaemonConnection → Dict ℕ → RegistryStats → RegistryStats
unfolding add_stats
stats_loop now heap [] stats = stats
stats_loop now heap ((_, arc) ∷ m) stats =
    stats_loop now heap m
      (elim (get_elem? heap arc) [ none ↦ stats | some c ↦ add_stats now c stats ])

unfoldable pub get_stats : (now : ℕ) → DaemonRegistry → RegistryStats
unfolding stats_loop
get_stats now r =
    stats_loop now r.heap r.connections (record {
      total_daemons = count r;
      by_platform = [];
      oldest_connection_secs = 0;
      daemons = [];
    })
