-- ===== src/Tunnel.antt =====
-- sandd/src/main.rs, `setup_tunnel`, and server/src/python.rs, `setup_tunnel_controller` and
-- `get_mesh_ip`: how a daemon and the controller join the mesh network. What the operating system
-- and the commands of Tailscale answer is the record `Mesh`; a run is the steps that it takes and
-- what it yields. `trim` is that of `str`.
pub mod Laws
pub mod Polls
pub mod Controller
pub mod Rejoin
pub mod Order
use sand_d.Prelude.{
  ℕ, zero, suc, ◌+◌, String, Bool, true, false, ◌&&◌, Option, none, some, List, [], ◌∷◌, ◌++◌, ◌==◌,
  if◌then◌else◌,
}
use sand_d.Prelude.Text.{append}

-- Output of a command as text, and whether it exits with success.
pub record Output : Type 0 where
  pub success : Bool
  pub stdout : String
  pub stderr : String

-- A command that cannot be run has no output.
pub record Mesh : Type 0 where
  pub version : Option Output
  pub reachable : Bool
  pub status : Option Output
  pub spawns : Bool
  pub probes : ℕ → Bool
  pub up : Option Output
  pub ips : ℕ → Option Output

pub data Step : Type 0 where
  version : Step
  connect : Step
  status : Step
  spawn_tailscaled : Step
  down : Step
  up : (authkey server : String) → Step
  ip : Step
  sleep : (millis : ℕ) → Step

pub data Joined : Type 0 where
  joined : Joined
  error : String → Joined

abbrev pub Run : Type 0
Run = List Step × Joined

-- The steps that come first, and then those of `next`.
abbrev pub after : List Step → Run → Run
after steps (later, result) = (steps ++ later, result)

abbrev pub is_success : Option Output → Bool
is_success none = false
is_success (some o) = o.success

abbrev nonempty : String → Option String
nonempty t = if t == "" then none else some t

-- The address in what `tailscale ip -4` prints, if it succeeds and prints one.
unfoldable pub address : (trim : String → String) → Option Output → Option String
address trim none = none
address trim (some o) = if o.success then nonempty (trim o.stdout) else none

-- `for _ in 0..fuel`: the address, one second apart.
unfoldable pub await_ip : (trim : String → String) → (ℕ → Option Output) → (fuel i : ℕ) → Run
unfolding address
await_ip trim ips zero i = ([], error "Timeout waiting for mesh IP assignment")
await_ip trim ips (suc fuel) i = elim (address trim (ips i)) [
  | some _ ↦ (ip ∷ [], joined)
  | none ↦ after (ip ∷ sleep 1000 ∷ []) (await_ip trim ips fuel (i + 1))
]

-- The part that both ends share: `tailscale up`, and the wait for an address.
unfoldable pub join : (trim : String → String) (context authkey server : String) → Mesh → Run
unfolding await_ip
join trim context authkey server env = after (up authkey server ∷ []) (elim env.up [
  | none ↦ ([], error context)
  | some o ↦
      (if o.success
        then await_ip trim env.ips 30 0
        else ([], error (append "Failed to join mesh: " o.stderr)))
])

-- `for _ in 0..fuel`: whether the proxy accepts a connection, half a second apart.
unfoldable pub await_proxy : (ℕ → Bool) → (fuel i : ℕ) → List Step × Bool
await_proxy probes zero i = ([], false)
await_proxy probes (suc fuel) i =
    let (later, ready) = await_proxy probes fuel (i + 1) in
    elim (probes i) [ true ↦ (connect ∷ [], true) | false ↦ (connect ∷ sleep 500 ∷ later, ready) ]

abbrev pub not_up : String
not_up = "tailscaled SOCKS5 proxy never came up"

-- `tailscaled` is started unless the proxy is reachable and `tailscale status` succeeds.
unfoldable pub start_proxy : Mesh → Run → Run
unfolding await_proxy
start_proxy env next =
    let checks = connect ∷ (if env.reachable then status ∷ [] else []) in
    if env.reachable && is_success env.status
    then after checks next
    else after (checks ++ spawn_tailscaled ∷ []) (
        if env.spawns
        then (let (waits, ready) = await_proxy env.probes 20 0 in
            after waits (if ready then next else ([], error not_up)))
        else ([], error "Failed to start tailscaled"))

abbrev pub refresh : Bool → List Step
refresh true = down ∷ []
refresh false = []

unfoldable pub setup_tunnel :
    (trim : String → String)
    → (tunnel_authkey tunnel_server : Option String) → (force_refresh : Bool) → Mesh
    → Run
unfolding start_proxy join
setup_tunnel trim none tunnel_server force_refresh env =
    ([], error "--tunnel requires --tunnel-authkey")
setup_tunnel trim (some authkey) none force_refresh env =
    ([], error "--tunnel requires --tunnel-server")
setup_tunnel trim (some authkey) (some server) force_refresh env =
    after (version ∷ []) (elim env.version [
      | none ↦ ([], error "Tailscale not found")
      | some _ ↦ start_proxy env (
          after (refresh force_refresh)
            (join trim "Failed to join mesh network" authkey server env))
    ])

-- The controller always starts `tailscaled`, and waits for two seconds. `failure` is the text of the
-- error of running `tailscale up`.
unfoldable pub setup_tunnel_controller :
    (trim : String → String) (failure authkey server : String) → Mesh → Run
unfolding join
setup_tunnel_controller trim failure authkey server env = after (version ∷ []) (elim env.version [
  | none ↦ ([], error "Tailscale not found")
  | some _ ↦ after (spawn_tailscaled ∷ []) (
      if env.spawns
      then after (sleep 2000 ∷ []) (join trim failure authkey server env)
      else ([], error "Failed to start tailscaled"))
])

pub data MeshIp : Type 0 where
  mesh_ip : String → MeshIp
  error : String → MeshIp

abbrev assigned : Option String → MeshIp
assigned none = error "No mesh IP assigned"
assigned (some a) = mesh_ip a

unfoldable pub get_mesh_ip : (trim : String → String) (failure : String) → Option Output → MeshIp
get_mesh_ip trim failure none = error failure
get_mesh_ip trim failure (some o) =
    if o.success then assigned (nonempty (trim o.stdout)) else error "Failed to get mesh IP"
