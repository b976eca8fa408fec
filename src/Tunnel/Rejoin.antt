-- ===== src/Tunnel/Rejoin.antt =====
-- In which order the daemon acts when it joins the mesh.
use sand_d.Prelude.{
  ℕ, zero, suc, ◌+◌, String, Bool, true, false, ◌&&◌, Option, some, List, [], ◌∷◌, ◌++◌, ◌≡◌, refl,
  sym, arith, Bool-cases, Option-cases, inl, inr, ap, ◌∙◌, append_assoc, if◌then◌else◌,
}
use sand_d.Tunnel.{
  Step, Output, Mesh, Run, joined, after, is_success, await_ip, await_proxy, join, start_proxy,
  refresh, setup_tunnel, connect, status, spawn_tailscaled, version, up, down, ip, sleep,
}
use sand_d.Tunnel.Laws.{
  join_needs_up, start_proxy_iff, proxy_needs_start, setup_tunnel-start_proxy, setup_tunnel_missing,
  joined_not_error,
}

-- How many of the steps count.
unfoldable pub total : (Step → ℕ) → List Step → ℕ
total p [] = 0
total p (s ∷ steps) = p s + total p steps

abbrev pub joins : Step → ℕ
joins (up _ _) = 1
joins down = 1
joins _ = 0

abbrev pub spawns : Step → ℕ
spawns spawn_tailscaled = 1
spawns _ = 0

total-append : (p : Step → ℕ) (a b : List Step) → total p (a ++ b) ≡ total p a + total p b
unfolding total
total-append p [] b = omega arith
total-append p (s ∷ a) b = omega (arith, total-append p a b)

total-await_proxy :
    (p : Step → ℕ) (probes : ℕ → Bool) (fuel i : ℕ)
    → p connect ≡ 0
    → p (sleep 500) ≡ 0
    → total p (await_proxy probes fuel i).0 ≡ 0
unfolding total await_proxy
total-await_proxy p probes zero i c n = refl
total-await_proxy p probes (suc fuel) i c n =
    ground (arith, total-await_proxy p probes fuel (i + 1) c n)

total-await_ip :
    (p : Step → ℕ) (trim : String → String) (ips : ℕ → Option Output) (fuel i : ℕ)
    → p ip ≡ 0
    → p (sleep 1000) ≡ 0
    → total p (await_ip trim ips fuel i).0 ≡ 0
unfolding total await_ip
total-await_ip p trim ips zero i c n = refl
total-await_ip p trim ips (suc fuel) i c n =
    ground (arith, total-await_ip p trim ips fuel (i + 1) c n)

total-checks :
    (p : Step → ℕ) (b : Bool)
    → p connect ≡ 0
    → p status ≡ 0
    → total p (connect ∷ (if b then status ∷ [] else [])) ≡ 0
unfolding total
total-checks p true c s = omega arith
total-checks p false c s = omega arith

abbrev pub is_healthy : Mesh → Bool
is_healthy env = env.reachable && is_success env.status

abbrev checks_of : Mesh → List Step
checks_of env = connect ∷ (if env.reachable then status ∷ [] else [])

-- The steps before the joining.
abbrev starts : Mesh → Bool → List Step
starts env true = checks_of env
starts env false = (checks_of env ++ spawn_tailscaled ∷ []) ++ (await_proxy env.probes 20 0).0

start_proxy-steps :
    (env : Mesh) (next : Run)
    → (start_proxy env next).1 ≡ joined
    → (start_proxy env next).0 ≡ starts env (is_healthy env) ++ next.0
unfolding start_proxy
start_proxy-steps env next j = elim (Bool-cases (is_healthy env)) [
  | inl h ↦ rw (start_proxy, h) refl
  | inr h ↦
      let (s, r) = proxy_needs_start env next h j in
      rw (start_proxy, h, s, r)
        (sym (
          append_assoc (checks_of env ++ spawn_tailscaled ∷ []) (await_proxy env.probes 20 0).0
            next.0))
]

total-starts :
    (env : Mesh) (b : Bool)
    → (total joins (starts env b) ≡ 0) × (total spawns (starts env b) ≡ (if b then 0 else 1))
unfolding total
total-starts env true =
    (total-checks joins env.reachable refl refl, total-checks spawns env.reachable refl refl)
total-starts env false =
    let waits = (await_proxy env.probes 20 0).0 in
    (
      omega (
        arith,
        total-append joins (checks_of env ++ spawn_tailscaled ∷ []) waits,
        total-append joins (checks_of env) (spawn_tailscaled ∷ []),
        total-checks joins env.reachable refl refl,
        total-await_proxy joins env.probes 20 0 refl refl,
      ),
      omega (
        arith,
        total-append spawns (checks_of env ++ spawn_tailscaled ∷ []) waits,
        total-append spawns (checks_of env) (spawn_tailscaled ∷ []),
        total-checks spawns env.reachable refl refl,
        total-await_proxy spawns env.probes 20 0 refl refl,
      ),
    )

join-steps :
    (trim : String → String) (context k s : String) (env : Mesh)
    → (join trim context k s env).1 ≡ joined
    → (join trim context k s env).0 ≡ up k s ∷ (await_ip trim env.ips 30 0).0
unfolding join
join-steps trim context k s env j =
    let (o, u, g) = join_needs_up trim context k s env j in rw (join, u, g) refl

setup_tunnel-steps :
    (trim : String → String) (k s : String) (force_refresh : Bool) (env : Mesh) {o : Output}
    → env.version ≡ some o
    → (setup_tunnel trim (some k) (some s) force_refresh env).0
      ≡ version
        ∷ (start_proxy env
            (after (refresh force_refresh) (join trim "Failed to join mesh network" k s env))).0
unfolding setup_tunnel
setup_tunnel-steps trim k s force_refresh env v = rw (setup_tunnel, v) refl

refresh-down :
    (force_refresh : Bool) → refresh force_refresh ≡ (if force_refresh then down ∷ [] else [])
refresh-down true = refl
refresh-down false = refl

-- When setting up the tunnel succeeds, the daemon has joined exactly once, with the key and server
-- that it was given; directly before it has left the mesh if and only if a refresh was forced; and
-- before that it has started `tailscaled` once if the proxy was not healthy, and not at all
-- otherwise.
pub setup_tunnel_rejoins :
    (trim : String → String) (k s : String) (force_refresh : Bool) (env : Mesh)
    → let (steps, result) = setup_tunnel trim (some k) (some s) force_refresh env in
      result ≡ joined
      → (before : List Step) × (later : List Step) × (steps
          ≡ before ++ ((if force_refresh then down ∷ [] else []) ++ up k s ∷ later))
        × (total joins before ≡ 0)
        × (total joins later ≡ 0)
        × (total spawns before ≡ (if is_healthy env then 0 else 1))
        × (total spawns later ≡ 0)
unfolding total
setup_tunnel_rejoins trim k s force_refresh env h = elim (Option-cases env.version) [
  | inl n ↦ absurd (joined_not_error _ h (setup_tunnel_missing trim k s force_refresh env n))
  | inr (o, v) ↦
      let context : String = "Failed to join mesh network" in
      let next = after (refresh force_refresh) (join trim context k s env) in
      let j = sym (setup_tunnel-start_proxy trim k s force_refresh env v) ∙ h in
      let joins_next = ((start_proxy_iff env next).0 j).1 in
      let counts = total-starts env (is_healthy env) in
      (
        version ∷ starts env (is_healthy env),
        (await_ip trim env.ips 30 0).0,
        setup_tunnel-steps trim k s force_refresh env v
            ∙ ap (◌∷◌ version) (
                start_proxy-steps env next j
                ∙ ap (λ l. starts env (is_healthy env) ++ (refresh force_refresh ++ l))
                    (join-steps trim context k s env joins_next)
                ∙ ap
                    (λ r.
                      starts env (is_healthy env) ++ (r ++ up k s ∷ (await_ip trim env.ips 30 0).0))
                    (refresh-down force_refresh)),
        omega (arith, counts.0),
        total-await_ip joins trim env.ips 30 0 refl refl,
        (let n = total spawns (starts env (is_healthy env)) in
            let first : 0 + n ≡ n = omega arith in first ∙ counts.1),
        total-await_ip spawns trim env.ips 30 0 refl refl,
      )
]
