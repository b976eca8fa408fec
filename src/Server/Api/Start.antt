-- ===== src/Server/Api/Start.antt =====
-- server/src/python.rs: the constructor of `Server`, up to the address that the server binds. The
-- text of a port and the tunnel's commands are parameters; the server itself is `SandboxServer`.
pub mod Laws
use sand_d.Prelude.{
  ℕ, String, Bool, true, false, not, ◌&&◌, Option, none, some, List, [], ◌∷◌, ◌≡◌, ◌≢◌, ◌↔◌, refl,
  sym, arith, ◌==◌, if◌then◌else◌, eq_iff, Option-cases, Bool-cases, inl, inr, ◌∙◌, ap,
}
use sand_d.Prelude.Text.{append}
use sand_d.Server.Api.{PyErr, PyResult, returned, raised, value_error, runtime_error}
use sand_d.Tunnel.{
  Mesh, Output, Joined, joined, error, MeshIp, mesh_ip, setup_tunnel_controller, get_mesh_ip,
  address, is_success, join, Run,
}
use sand_d.Tunnel.Laws.{HasAddress, join_iff, joined_not_error}

pub record TunnelConfig : Type 0 where
  pub authkey : String
  pub server : String

-- The commands of a start: those of the tunnel, and the look at the address after it.
pub record Start : Type 0 where
  pub runtime : Option String
  pub mesh : Mesh
  pub failure : String
  pub last_look : Option Output

abbrev pub addressed : (address : String) → MeshIp → PyResult String
addressed a (mesh_ip _) = returned a
addressed a (MeshIp.error e) = raised (runtime_error (append "Failed to get mesh IP: " e))

abbrev pub tunnelled : (address : String) → MeshIp → Joined → PyResult String
tunnelled a looked joined = addressed a looked
tunnelled a looked (Joined.error e) = raised (runtime_error (append "Tunnel setup failed: " e))

abbrev pub bind_tunnel :
    (trim : String → String) → Start → (address : String) → TunnelConfig → PyResult String
bind_tunnel trim env a config =
    tunnelled a (get_mesh_ip trim env.failure env.last_look)
      (setup_tunnel_controller trim env.failure config.authkey config.server env.mesh).1

abbrev pub bind_or :
    (trim : String → String) → Start → (address : String) → Option TunnelConfig → PyResult String
bind_or trim env a none = raised (value_error "tunnel mode requires tunnel_config parameter")
bind_or trim env a (some config) = elim env.runtime [
  | some e ↦ raised (runtime_error (append "Failed to create runtime: " e))
  | none ↦ bind_tunnel trim env a config
]

abbrev pub bind_direct : Start → (address : String) → PyResult String
bind_direct env a = elim env.runtime [
  | some e ↦ raised (runtime_error (append "Failed to create runtime: " e))
  | none ↦ returned a
]

-- The address that the server binds, or the error of the constructor.
unfoldable pub bind_addr :
    (trim : String → String)
    → (host port connect : String) → (tunnel_config : Option TunnelConfig) → Start
    → PyResult String
unfolding get_mesh_ip setup_tunnel_controller
bind_addr trim host port connect tunnel_config env =
    if not (connect == "direct") && not (connect == "tunnel")
    then raised
        (value_error (append "connect must be 'direct' or 'tunnel', got '" (append connect "'")))
    else if connect == "tunnel"
    then bind_or trim env (append "0.0.0.0:" port) tunnel_config
    else bind_direct env (append host (append ":" port))
