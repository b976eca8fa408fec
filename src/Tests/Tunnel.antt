-- ===== src/Tests/Tunnel.antt =====
-- The theorems of the tunnel, the arguments and the start at concrete inputs.
use sand_d.Prelude.{
  ◌≤◌, String, true, false, none, some, List, ◌∷◌, ◌++◌, ◌≡◌, ◌↔◌, refl, eqb, if◌then◌else◌,
}
use sand_d.Tunnel.{
  Output, Mesh, Step, joined, setup_tunnel, down, up, address, await_ip, await_proxy, start_proxy,
  join,
}
use sand_d.Tunnel.Laws.{CanJoin, setup_tunnel_iff}
use sand_d.Tunnel.Polls.{slept}
use sand_d.Tunnel.Order.{setup_tunnel_bounded}
use sand_d.Tunnel.Rejoin.{total, joins, spawns, is_healthy, setup_tunnel_rejoins}
use sand_d.Server.Api.{returned}
use sand_d.Server.Api.Start.{TunnelConfig, Start, bind_addr}
use sand_d.Server.Api.Start.Laws.{IsBound, bind_addr_iff}

abbrev printed : String → Output
printed t = record { success = true; stdout = t; stderr = "" }

-- The proxy comes up at the second probe, and an address at once.
abbrev mesh : Mesh
mesh = record {
  version = some (printed "1.80");
  reachable = false;
  status = none;
  spawns = true;
  probes = λ i. eqb i 1;
  up = some (printed "");
  ips = λ _. some (printed "100.64.0.7");
}

abbrev as_is : String → String
as_is t = t

setup_tunnel_iff_example :
    ((setup_tunnel as_is (some "key") (some "https://hs") true mesh).1 ≡ joined)
    ↔ CanJoin as_is (some "key") (some "https://hs") mesh
setup_tunnel_iff_example = setup_tunnel_iff as_is (some "key") (some "https://hs") true mesh

setup_tunnel_bounded_example :
    slept (setup_tunnel as_is (some "key") (some "https://hs") true mesh).0 ≤ 40000
setup_tunnel_bounded_example = setup_tunnel_bounded as_is (some "key") (some "https://hs") true mesh

mesh_joined : (setup_tunnel as_is (some "key") (some "https://hs") true mesh).1 ≡ joined
unfolding setup_tunnel start_proxy join await_ip await_proxy address
mesh_joined = refl

setup_tunnel_rejoins_example :
    (before : List Step) × (later : List Step) × ((setup_tunnel as_is
        (some "key")
        (some "https://hs")
        true
        mesh).0
      ≡ before ++ (down ∷ up "key" "https://hs" ∷ later))
    × (total joins before ≡ 0)
    × (total joins later ≡ 0)
    × (total spawns before ≡ (if is_healthy mesh then 0 else 1))
    × (total spawns later ≡ 0)
setup_tunnel_rejoins_example = setup_tunnel_rejoins as_is "key" "https://hs" true mesh mesh_joined

abbrev through_tunnel : Start
through_tunnel = record {
  runtime = none;
  mesh = mesh;
  failure = "no such file";
  last_look = some (printed "100.64.0.7");
}

abbrev config : TunnelConfig
config = record { authkey = "key"; server = "https://hs" }

bind_addr_iff_example :
    (bind_addr as_is "127.0.0.1" "8765" "tunnel" (some config) through_tunnel
      ≡ returned "0.0.0.0:8765")
    ↔ IsBound as_is "127.0.0.1" "8765" "tunnel" (some config) through_tunnel "0.0.0.0:8765"
bind_addr_iff_example =
    bind_addr_iff as_is "127.0.0.1" "8765" "tunnel" (some config) through_tunnel "0.0.0.0:8765"
