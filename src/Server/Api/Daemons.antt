-- ===== src/Server/Api/Daemons.antt =====
-- server/src/python.rs: the methods of `Server` that look at the daemons, and the checks and the
-- address of its constructor.
use sand_d.Prelude.{ℕ, String, Bool, Option, none, some, List, [], ◌∷◌}
use sand_d.Prelude.Dict.{Dict}
use sand_d.Server.Connection.{DaemonConnection, is_busy}
use sand_d.Server.Registry.{list_all, count, get_stats}
use sand_d.Server.Api.{Controller, find_conn}

pub record PyDaemonInfo : Type 0 where
  pub id : String
  pub version : String
  pub labels : Dict String
  pub is_busy : Bool

unfoldable pub daemon_info : DaemonConnection → PyDaemonInfo
daemon_info conn = record {
  id = conn.id;
  version = conn.metadata.version;
  labels = conn.metadata.labels;
  is_busy = is_busy conn;
}

unfoldable pub list_from : List String → Controller → List PyDaemonInfo
unfolding find_conn daemon_info
list_from [] s = []
list_from (daemon_id ∷ ids) s = elim (find_conn daemon_id s) [
  | none ↦ list_from ids s
  | some (_, conn) ↦ daemon_info conn ∷ list_from ids s
]

unfoldable pub list_daemons : Option (Dict String) → Controller → List PyDaemonInfo
unfolding list_from list_all
list_daemons labels s = list_from (list_all labels s.world.registry) s

unfoldable pub daemon_count : Controller → ℕ
unfolding count
daemon_count s = count s.world.registry

unfoldable pub get_daemon : String → Controller → Option PyDaemonInfo
unfolding find_conn daemon_info
get_daemon daemon_id s = elim (find_conn daemon_id s) [
  | none ↦ none
  | some (_, conn) ↦ some (daemon_info conn)
]

pub record PyStats : Type 0 where
  pub total_daemons : ℕ
  pub by_platform : Dict ℕ
  pub oldest_connection_secs : ℕ

unfoldable pub py_stats : (now : ℕ) → Controller → PyStats
unfolding get_stats
py_stats now s =
    let stats = get_stats now s.world.registry in
    record {
      total_daemons = stats.total_daemons;
      by_platform = stats.by_platform;
      oldest_connection_secs = stats.oldest_connection_secs;
    }
