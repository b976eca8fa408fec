-- ===== src/Tunnel/Controller.antt =====
-- When the controller joins the mesh.
use sand_d.Prelude.{
  String, true, false, none, some, ◌≡◌, ◌↔◌, refl, sym, ◌∙◌, Bool-cases, Option-cases, inl, inr,
}
use sand_d.Tunnel.{Output, Mesh, joined, error, join, setup_tunnel_controller}
use sand_d.Tunnel.Laws.{HasAddress, join_iff, joined_not_error}

controller-join :
    (trim : String → String) (failure k s : String) (env : Mesh) {o : Output}
    → env.version ≡ some o
    → env.spawns ≡ true
    → (setup_tunnel_controller trim failure k s env).1 ≡ (join trim failure k s env).1
unfolding setup_tunnel_controller
controller-join trim failure k s env v p = rw (setup_tunnel_controller, v, p) refl

controller_missing :
    (trim : String → String) (failure k s : String) (env : Mesh)
    → env.version ≡ none
    → (setup_tunnel_controller trim failure k s env).1 ≡ error "Tailscale not found"
unfolding setup_tunnel_controller
controller_missing trim failure k s env v = rw (setup_tunnel_controller, v) refl

controller_not_started :
    (trim : String → String) (failure k s : String) (env : Mesh) {o : Output}
    → env.version ≡ some o
    → env.spawns ≡ false
    → (setup_tunnel_controller trim failure k s env).1 ≡ error "Failed to start tailscaled"
unfolding setup_tunnel_controller
controller_not_started trim failure k s env v p = rw (setup_tunnel_controller, v, p) refl

-- The controller joins the mesh exactly if Tailscale can be run, `tailscaled` starts, `tailscale up`
-- succeeds, and one of 30 looks finds an address.
pub setup_tunnel_controller_iff :
    (trim : String → String) (failure k s : String) (env : Mesh)
    → ((setup_tunnel_controller trim failure k s env).1 ≡ joined)
      ↔ (((o : Output) × (env.version ≡ some o)) × (env.spawns ≡ true) × HasAddress trim env)
setup_tunnel_controller_iff trim failure k s env =
    let (to, from) = join_iff trim failure k s env in
    elim (Option-cases env.version) [
      | inl n ↦ (
        λ h. absurd (joined_not_error _ h (controller_missing trim failure k s env n)),
        λ ((o, v), _, _). absurd (cc),
      )
      | inr (o, v) ↦ elim (Bool-cases env.spawns) [
        | inl p ↦ (
          λ h. ((o, v), p, to (sym (controller-join trim failure k s env v p) ∙ h)),
          λ (_, _, a). controller-join trim failure k s env v p ∙ from a,
        )
        | inr p ↦ (
          λ h. absurd (joined_not_error _ h (controller_not_started trim failure k s env v p)),
          λ (_, p', _). absurd (cc),
        )
      ]
    ]
