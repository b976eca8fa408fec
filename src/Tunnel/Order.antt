-- ===== src/Tunnel/Order.antt =====
-- How long the daemon sleeps while it joins the mesh, and in which order it acts.
use sand_d.Prelude.{
  ◌+◌, ◌≤◌, String, Bool, true, false, ◌&&◌, Option, none, some, [], ◌∷◌, ◌++◌, ◌≡◌, refl, arith,
  Bool-cases, Option-cases, inl, inr, if◌then◌else◌,
}
use sand_d.Tunnel.{
  Mesh, Run, after, is_success, await_proxy, join, start_proxy, refresh, setup_tunnel, connect,
  status, spawn_tailscaled,
}
use sand_d.Tunnel.Polls.{slept, slept-append, slept-await_proxy, slept-await_ip}

slept-join :
    (trim : String → String) (context k s : String) (env : Mesh)
    → slept (join trim context k s env).0 ≤ 30000
unfolding join slept
slept-join trim context k s env = elim (Option-cases env.up) [
  | inl n ↦ rw (join, n, slept) (omega arith)
  | inr (o, u) ↦ elim (Bool-cases o.success) [
    | inl g ↦ rw (join, u, g, slept) (omega (arith, slept-await_ip trim env.ips 30 0))
    | inr b ↦ rw (join, u, b, slept) (omega arith)
  ]
]

slept-checks : (b : Bool) → slept (connect ∷ (if b then status ∷ [] else [])) ≡ 0
unfolding slept
slept-checks true = refl
slept-checks false = refl

slept-refresh : (b : Bool) → slept (refresh b) ≡ 0
unfolding slept
slept-refresh true = refl
slept-refresh false = refl

slept-start_proxy :
    (env : Mesh) (next : Run) → slept (start_proxy env next).0 ≤ 10000 + slept next.0
unfolding start_proxy slept
slept-start_proxy env next =
    let checks = connect ∷ (if env.reachable then status ∷ [] else []) in
    let waits = (await_proxy env.probes 20 0).0 in
    let before = slept-append (checks ++ spawn_tailscaled ∷ []) in
    let quick = slept-checks env.reachable in
    let start = slept-append checks (spawn_tailscaled ∷ []) in
    let long = slept-await_proxy env.probes 20 0 in
    elim (Bool-cases (env.reachable && is_success env.status)) [
      | inl h ↦ rw (start_proxy, h, slept-append checks next.0) (omega (arith, quick))
      | inr h ↦ elim (Bool-cases env.spawns) [
        | inr n ↦ rw (start_proxy, h, n, before []) (omega (arith, quick, start))
        | inl s ↦ elim (Bool-cases (await_proxy env.probes 20 0).1) [
          | inl r ↦
              rw (start_proxy, h, s, r, before (waits ++ next.0), slept-append waits next.0)
                (omega (arith, quick, start, long))
          | inr r ↦
              rw (start_proxy, h, s, r, before (waits ++ []), slept-append waits [])
                (omega (arith, quick, start, long))
        ]
      ]
    ]

-- Setting up the tunnel sleeps for at most 40 seconds, whatever the commands answer.
pub setup_tunnel_bounded :
    (trim : String → String) (key server : Option String) (force_refresh : Bool) (env : Mesh)
    → slept (setup_tunnel trim key server force_refresh env).0 ≤ 40000
unfolding setup_tunnel slept
setup_tunnel_bounded trim none server force_refresh env = omega arith
setup_tunnel_bounded trim (some k) none force_refresh env = omega arith
setup_tunnel_bounded trim (some k) (some s) force_refresh env =
    let joining = join trim "Failed to join mesh network" k s env in
    elim (Option-cases env.version) [
      | inl n ↦ rw (setup_tunnel, n, slept) (omega arith)
      | inr (o, v) ↦
          rw (setup_tunnel, v, slept)
            (omega (
              arith,
              slept-start_proxy env (after (refresh force_refresh) joining),
              slept-append (refresh force_refresh) joining.0,
              slept-refresh force_refresh,
              slept-join trim "Failed to join mesh network" k s env,
            ))
    ]
