-- ===== src/Server/Api/Start/Laws.antt =====
-- Which addresses a server can come to bind.
use sand_d.Prelude.{
  ◌⊎◌, String, true, false, Option, none, some, ◌≡◌, ◌↔◌, refl, sym, arith, ◌==◌, eq_iff,
  Option-cases, Bool-cases, inl, inr, ◌∙◌, ap,
}
use sand_d.Prelude.Text.{append}
use sand_d.Server.Api.{PyErr, PyResult, returned, raised, value_error, runtime_error}
use sand_d.Tunnel.{
  Joined, joined, MeshIp, mesh_ip, setup_tunnel_controller, get_mesh_ip, Mesh, Output,
}
use sand_d.Tunnel.Laws.{HasAddress}
use sand_d.Tunnel.Polls.{HasPrinted}
use sand_d.Tunnel.Controller.{setup_tunnel_controller_iff}
use sand_d.Server.Api.Start.{
  TunnelConfig, Start, tunnelled, bind_tunnel, bind_or, bind_direct, bind_addr,
}

not_returned : (r : PyResult String) {a : String} {e : PyErr} → r ≡ returned a → r ≡ raised e → ⊥
not_returned r h h' = cc

-- Tailscale can be run, `tailscaled` starts, `tailscale up` succeeds, and one of 30 looks finds an
-- address.
abbrev pub IsJoined : (trim : String → String) → Mesh → Type 0
IsJoined trim mesh =
    ((o : Output) × (mesh.version ≡ some o)) × (mesh.spawns ≡ true) × HasAddress trim mesh

printed-mesh_ip :
    (trim : String → String) (failure : String) (look : Option Output)
    → HasPrinted trim look
    → (a : String) × (get_mesh_ip trim failure look ≡ mesh_ip a)
unfolding get_mesh_ip
printed-mesh_ip trim failure look (o, l, s, n) =
    (trim o.stdout, ground (arith, l, s, eq_iff (trim o.stdout) ""))

mesh_ip-printed :
    (trim : String → String) (failure : String) (look : Option Output) {a : String}
    → get_mesh_ip trim failure look ≡ mesh_ip a
    → HasPrinted trim look
unfolding get_mesh_ip
mesh_ip-printed trim failure none h = absurd (cc)
mesh_ip-printed trim failure (some o) h =
    (o, refl, ground arith, λ e. ground (arith, eq_iff (trim o.stdout) ""))

-- What a start with the tunnel does once the runtime is there.
abbrev pub IsTunnelled : (trim : String → String) → Start → Type 0
IsTunnelled trim env = (env.runtime ≡ none) × IsJoined trim env.mesh × HasPrinted trim env.last_look

tunnelled_cases :
    (port_address : String) (looked : MeshIp) (j : Joined) {a : String}
    → tunnelled port_address looked j ≡ returned a
    → (j ≡ joined) × ((b : String) × (looked ≡ mesh_ip b)) × (a ≡ port_address)
tunnelled_cases p (mesh_ip b) joined h = (refl, (b, refl), cc)
tunnelled_cases p (MeshIp.error e) joined h = absurd (cc)
tunnelled_cases p looked (Joined.error e) h = absurd (cc)

bind_or-bind_tunnel :
    (trim : String → String) (env : Start) (address : String) (config : TunnelConfig)
    → env.runtime ≡ none
    → bind_or trim env address (some config) ≡ bind_tunnel trim env address config
bind_or-bind_tunnel trim env address config r = rw r refl

bind_or_fails :
    (trim : String → String) (env : Start) (address : String) (config : TunnelConfig) {e : String}
    → env.runtime ≡ some e
    → bind_or trim env address (some config)
      ≡ raised (runtime_error (append "Failed to create runtime: " e))
bind_or_fails trim env address config r = rw r refl

bind_or_cases :
    (trim : String → String) (env : Start) (address : String) (tunnel_config : Option TunnelConfig)
    {a : String}
    → bind_or trim env address tunnel_config ≡ returned a
    → (config : TunnelConfig) × (tunnel_config ≡ some config) × IsTunnelled trim env × (a ≡ address)
bind_or_cases trim env address none h = absurd (cc)
bind_or_cases trim env address (some config) h = elim (Option-cases env.runtime) [
  | inr (e, r) ↦ absurd (not_returned _ h (bind_or_fails trim env address config r))
  | inl r ↦
      let (up, looked, same) =
        tunnelled_cases address (get_mesh_ip trim env.failure env.last_look)
          (setup_tunnel_controller trim env.failure config.authkey config.server env.mesh).1
          (sym (bind_or-bind_tunnel trim env address config r) ∙ h) in
      let (to, from) =
        setup_tunnel_controller_iff trim env.failure config.authkey config.server env.mesh in
      (config, refl, (r, to up, mesh_ip-printed trim env.failure env.last_look looked.1), same)
]

bind_or_bound :
    (trim : String → String) (env : Start) (address : String) (config : TunnelConfig)
    → IsTunnelled trim env
    → bind_or trim env address (some config) ≡ returned address
bind_or_bound trim env address config (r, up, look) =
    let (to, from) =
      setup_tunnel_controller_iff trim env.failure config.authkey config.server env.mesh in
    let (b, looked) = printed-mesh_ip trim env.failure env.last_look look in
    bind_or-bind_tunnel trim env address config r ∙ rw (from up, looked) refl

-- How a server can come to bind an address.
abbrev pub IsBound :
    (trim : String → String)
    → (host port connect : String) → Option TunnelConfig
    → Start
    → String
    → Type 0
IsBound trim host port connect tunnel_config env a =
    ((connect ≡ "direct") × (env.runtime ≡ none) × (a ≡ append host (append ":" port)))
    ⊎ ((connect ≡ "tunnel")
        × ((config : TunnelConfig) × (tunnel_config ≡ some config)
            × IsTunnelled trim env
            × (a ≡ append "0.0.0.0:" port)))

tunnel_bind_addr :
    (trim : String → String) (host port : String) (tunnel_config : Option TunnelConfig)
    (env : Start)
    → bind_addr trim host port "tunnel" tunnel_config env
      ≡ bind_or trim env (append "0.0.0.0:" port) tunnel_config
unfolding bind_addr
tunnel_bind_addr trim host port tunnel_config env = refl

direct_bind_addr :
    (trim : String → String) (host port : String) (tunnel_config : Option TunnelConfig)
    (env : Start)
    → bind_addr trim host port "direct" tunnel_config env
      ≡ bind_direct env (append host (append ":" port))
unfolding bind_addr
direct_bind_addr trim host port tunnel_config env = refl

other_bind_addr :
    (trim : String → String) (host port connect : String) (tunnel_config : Option TunnelConfig)
    (env : Start)
    → (connect == "direct") ≡ false
    → (connect == "tunnel") ≡ false
    → bind_addr trim host port connect tunnel_config env
      ≡ raised
          (value_error (append "connect must be 'direct' or 'tunnel', got '" (append connect "'")))
unfolding bind_addr
other_bind_addr trim host port connect tunnel_config env d t = rw (bind_addr, d, t) refl

direct_cases :
    (env : Start) (address : String) {a : String}
    → bind_direct env address ≡ returned a
    → (env.runtime ≡ none) × (a ≡ address)
direct_cases env address h = elim (Option-cases env.runtime) [
  | inl r ↦ (r, ground (arith, r))
  | inr (e, r) ↦ absurd (ground (arith, r))
]

-- A server comes to bind an address exactly if it connects directly, which binds the host and port
-- that it was given, or through the tunnel with a configuration, which binds the port on every
-- interface: there Tailscale can be run, `tailscaled` starts, `tailscale up` succeeds, one of 30
-- looks finds an address, and so does the last look. The Tokio runtime is there in both cases.
pub bind_addr_iff :
    (trim : String → String) (host port connect : String) (tunnel_config : Option TunnelConfig)
    (env : Start) (a : String)
    → (bind_addr trim host port connect tunnel_config env ≡ returned a)
      ↔ IsBound trim host port connect tunnel_config env a
bind_addr_iff trim host port connect tunnel_config env a = (
  λ h. elim (Bool-cases (connect == "direct")) [
    | inl d ↦
        let e : connect ≡ "direct" = (eq_iff connect "direct").0 d in
        let h' : bind_direct env (append host (append ":" port)) ≡ returned a =
          sym (direct_bind_addr trim host port tunnel_config env)
          ∙ ap (λ c. bind_addr trim host port c tunnel_config env) (sym e)
          ∙ h in
        let (r, same) = direct_cases env (append host (append ":" port)) h' in inl (e, r, same)
    | inr d ↦ elim (Bool-cases (connect == "tunnel")) [
      | inl t ↦
          let e : connect ≡ "tunnel" = (eq_iff connect "tunnel").0 t in
          let h' : bind_or trim env (append "0.0.0.0:" port) tunnel_config ≡ returned a =
            sym (tunnel_bind_addr trim host port tunnel_config env)
            ∙ ap (λ c. bind_addr trim host port c tunnel_config env) (sym e)
            ∙ h in
          inr (e, bind_or_cases trim env (append "0.0.0.0:" port) tunnel_config h')
      | inr t ↦
          absurd (not_returned _ h (other_bind_addr trim host port connect tunnel_config env d t))
    ]
  ],
  λ b. elim b [
    | inl (e, r, same) ↦
        ap (λ c. bind_addr trim host port c tunnel_config env) e
        ∙ direct_bind_addr trim host port tunnel_config env
        ∙ rw (r, same) refl
    | inr (e, (config, known, up, same)) ↦
        ap (λ c. bind_addr trim host port c tunnel_config env) e
        ∙ tunnel_bind_addr trim host port tunnel_config env
        ∙ ap (bind_or trim env (append "0.0.0.0:" port)) known
        ∙ bind_or_bound trim env (append "0.0.0.0:" port) config up
        ∙ ap returned (sym same)
  ],
)
