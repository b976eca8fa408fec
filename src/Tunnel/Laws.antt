-- ===== src/Tunnel/Laws.antt =====
-- When a daemon joins the mesh, how long it can wait for that, and in which order it acts.
use sand_d.Prelude.{
  String, Bool, true, false, ◌&&◌, Option, none, some, ◌≡◌, ◌↔◌, refl, sym, arith, Bool-cases,
  Option-cases, inl, inr, ◌⊎◌, ◌∙◌,
}
use sand_d.Tunnel.{
  Output, Mesh, Run, Joined, joined, error, after, is_success, await_ip, await_proxy, join,
  start_proxy, refresh, setup_tunnel, not_up,
}
use sand_d.Tunnel.Polls.{ReadyWithin, PrintedWithin, await_proxy_iff, await_ip-PrintedWithin}

-- The proxy is there and healthy, or it is started and comes up.
abbrev pub HasProxy : Mesh → Type 0
HasProxy env =
    ((env.reachable && is_success env.status) ≡ true)
    ⊎ ((env.spawns ≡ true) × ReadyWithin env.probes 20 0)

-- Joining succeeds, and an address is assigned.
abbrev pub HasAddress : (trim : String → String) → Mesh → Type 0
HasAddress trim env =
    ((o : Output) × (env.up ≡ some o) × (o.success ≡ true)) × PrintedWithin trim env.ips 30

-- With `tailscale up` over, joining is the wait for an address.
join-await_ip :
    (trim : String → String) (context authkey server : String) (env : Mesh) {o : Output}
    → env.up ≡ some o
    → o.success ≡ true
    → (join trim context authkey server env).1 ≡ (await_ip trim env.ips 30 0).1
unfolding join
join-await_ip trim context authkey server env u g = rw (join, u, g) refl

pub join_needs_up :
    (trim : String → String) (context authkey server : String) (env : Mesh)
    → (join trim context authkey server env).1 ≡ joined
    → (o : Output) × (env.up ≡ some o) × (o.success ≡ true)
unfolding join
join_needs_up trim context authkey server env h = elim (Option-cases env.up) [
  | inl n ↦ absurd (ground (arith, n))
  | inr (o, u) ↦ elim (Bool-cases o.success) [
    | inl g ↦ (o, u, g)
    | inr b ↦ absurd (ground (arith, u, b))
  ]
]

pub join_iff :
    (trim : String → String) (context authkey server : String) (env : Mesh)
    → ((join trim context authkey server env).1 ≡ joined) ↔ HasAddress trim env
join_iff trim context authkey server env =
    let (to, from) = await_ip-PrintedWithin trim env.ips 30 in
    (
      λ h.
          let (o, u, g) = join_needs_up trim context authkey server env h in
          ((o, u, g), to (sym (join-await_ip trim context authkey server env u g) ∙ h)),
      λ ((o, u, g'), w). join-await_ip trim context authkey server env u g' ∙ from w,
    )

pub proxy_healthy :
    (env : Mesh) (next : Run)
    → (env.reachable && is_success env.status) ≡ true
    → (start_proxy env next).1 ≡ next.1
unfolding start_proxy
proxy_healthy env next h = rw (start_proxy, h) refl

proxy_started :
    (env : Mesh) (next : Run)
    → (env.reachable && is_success env.status) ≡ false
    → env.spawns ≡ true
    → (await_proxy env.probes 20 0).1 ≡ true
    → (start_proxy env next).1 ≡ next.1
unfolding start_proxy
proxy_started env next h s r = rw (start_proxy, h, s, r) refl

proxy_not_started :
    (env : Mesh) (next : Run)
    → (env.reachable && is_success env.status) ≡ false
    → env.spawns ≡ false
    → (start_proxy env next).1 ≡ error "Failed to start tailscaled"
unfolding start_proxy
proxy_not_started env next h s = rw (start_proxy, h, s) refl

proxy_not_up :
    (env : Mesh) (next : Run)
    → (env.reachable && is_success env.status) ≡ false
    → env.spawns ≡ true
    → (await_proxy env.probes 20 0).1 ≡ false
    → (start_proxy env next).1 ≡ error not_up
unfolding start_proxy
proxy_not_up env next h s r = rw (start_proxy, h, s, r) refl

pub joined_not_error : (r : Joined) {e : String} → r ≡ joined → r ≡ error e → ⊥
joined_not_error r h h' = cc

pub proxy_needs_start :
    (env : Mesh) (next : Run)
    → (env.reachable && is_success env.status) ≡ false
    → (start_proxy env next).1 ≡ joined
    → (env.spawns ≡ true) × ((await_proxy env.probes 20 0).1 ≡ true)
proxy_needs_start env next h j = elim (Bool-cases env.spawns) [
  | inr n ↦ absurd (joined_not_error _ j (proxy_not_started env next h n))
  | inl s ↦ elim (Bool-cases (await_proxy env.probes 20 0).1) [
    | inl r ↦ (s, r)
    | inr n ↦ absurd (joined_not_error _ j (proxy_not_up env next h s n))
  ]
]

pub start_proxy_iff :
    (env : Mesh) (next : Run)
    → ((start_proxy env next).1 ≡ joined) ↔ (HasProxy env × (next.1 ≡ joined))
start_proxy_iff env next =
    let (to, from) = await_proxy_iff env.probes 20 0 in
    elim (Bool-cases (env.reachable && is_success env.status)) [
      | inl h ↦
          (λ j. (inl h, sym (proxy_healthy env next h) ∙ j), λ (_, j). proxy_healthy env next h ∙ j)
      | inr h ↦ (
        λ j.
            let (s, r) = proxy_needs_start env next h j in
            (inr (s, to r), sym (proxy_started env next h s r) ∙ j),
        λ (p, j). elim p [
          | inl g ↦ absurd (cc)
          | inr (s, w) ↦ proxy_started env next h s (from w) ∙ j
        ],
      )
    ]

-- Both options are given, Tailscale can be run, the proxy is there or comes up, and an address is
-- assigned.
pub record CanJoin (trim : String → String) (key server : Option String) (env : Mesh) : Type 0 where
  pub has_key : (k : String) × (key ≡ some k)
  pub has_server : (s : String) × (server ≡ some s)
  pub installed : (o : Output) × (env.version ≡ some o)
  pub proxy : HasProxy env
  pub address : HasAddress trim env

pub setup_tunnel-start_proxy :
    (trim : String → String) (k s : String) (force_refresh : Bool) (env : Mesh) {o : Output}
    → env.version ≡ some o
    → (setup_tunnel trim (some k) (some s) force_refresh env).1
      ≡ (start_proxy env
          (after (refresh force_refresh) (join trim "Failed to join mesh network" k s env))).1
unfolding setup_tunnel
setup_tunnel-start_proxy trim k s force_refresh env v = rw (setup_tunnel, v) refl

pub setup_tunnel_missing :
    (trim : String → String) (k s : String) (force_refresh : Bool) (env : Mesh)
    → env.version ≡ none
    → (setup_tunnel trim (some k) (some s) force_refresh env).1 ≡ error "Tailscale not found"
unfolding setup_tunnel
setup_tunnel_missing trim k s force_refresh env v = rw (setup_tunnel, v) refl

-- Setting up the tunnel succeeds exactly if both options are given, Tailscale can be run, the proxy
-- is healthy or is started and accepts a connection at one of 20 probes, `tailscale up` succeeds,
-- and one of 30 looks finds an address; forcing a refresh makes no difference to that.
pub setup_tunnel_iff :
    (trim : String → String) (key server : Option String) (force_refresh : Bool) (env : Mesh)
    → ((setup_tunnel trim key server force_refresh env).1 ≡ joined) ↔ CanJoin trim key server env
unfolding setup_tunnel
setup_tunnel_iff trim none server force_refresh env =
    (λ h. absurd (cc), λ c. absurd (let (k, e) = c.has_key in cc))
setup_tunnel_iff trim (some k) none force_refresh env =
    (λ h. absurd (cc), λ c. absurd (let (s, e) = c.has_server in cc))
setup_tunnel_iff trim (some k) (some s) force_refresh env =
    let context : String = "Failed to join mesh network" in
    let next = after (refresh force_refresh) (join trim context k s env) in
    let (to, from) = start_proxy_iff env next in
    let (j_to, j_from) = join_iff trim context k s env in
    elim (Option-cases env.version) [
      | inl n ↦ (
        λ h. absurd (joined_not_error _ h (setup_tunnel_missing trim k s force_refresh env n)),
        λ c. absurd (let (o, e) = c.installed in cc),
      )
      | inr (o, v) ↦ (
        λ h.
            let (p, j) = to (sym (setup_tunnel-start_proxy trim k s force_refresh env v) ∙ h) in
            record {
              has_key = (k, refl);
              has_server = (s, refl);
              installed = (o, v);
              proxy = p;
              address = j_to j;
            },
        λ c.
            setup_tunnel-start_proxy trim k s force_refresh env v
            ∙ from (c.proxy, j_from c.address),
      )
    ]
