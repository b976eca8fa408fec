-- ===== src/Daemon/Reconnect.antt =====
-- sandd/src/main.rs, the loop of `main`: one pass for each attempt to connect.
use sand_d.Prelude.{
  any, Bool-cases, inl, inr, Bool-cases, inl, inr, Bool, true, false, Option, none, some, List, [],
  ◌∷◌, ◌++◌, if◌then◌else◌, ◌≡◌, refl, sym, ap, ◌∙◌, arith,
}
use sand_d.Daemon.Serve.{ServeOutcome, disconnected, shutdown}

-- How a pass ends: without the tunnel, without a connection, or with a session, whose error counts
-- as a drop.
pub data Attempt : Type 0 where
  tunnel_failed : Attempt
  unreachable : Attempt
  session : Option ServeOutcome → Attempt

-- `refreshes` are the arguments `stale_netmap` of the calls of `setup_tunnel`, the last one first.
pub record Main : Type 0 where
  pub stale_netmap : Bool
  pub refreshes : List Bool
  pub returned : Bool

abbrev pub launch : Main
launch = record { stale_netmap = false; refreshes = []; returned = false }

-- A session that ends in an error is a drop.
unfoldable pub session_outcome : Option ServeOutcome → ServeOutcome
session_outcome none = disconnected
session_outcome (some o) = o

abbrev after_session : ServeOutcome → Main → Main
after_session shutdown m = record m { returned = true }
after_session disconnected m = record m { stale_netmap = false }

abbrev dialled : Attempt → Main → Main
dialled tunnel_failed m = m
dialled unreachable m = record m { stale_netmap = true }
dialled (session o) m = after_session (session_outcome o) m

abbrev set_up : (tunnel : Bool) → Main → Main
set_up true m = record m { refreshes = m.stale_netmap ∷ m.refreshes }
set_up false m = m

-- Where the tunnel is not set up, there is no dial.
unfoldable pub attempt : (tunnel : Bool) → Attempt → Main → Main
unfolding session_outcome
attempt true tunnel_failed m = set_up true m
attempt tunnel a m = dialled a (set_up tunnel m)

unfoldable pub reconnect_loop : (tunnel : Bool) → List Attempt → Main → Main
unfolding attempt
reconnect_loop tunnel [] m = m
reconnect_loop tunnel (a ∷ rest) m =
    let go = reconnect_loop tunnel rest (attempt tunnel a m) in if m.returned then m else go

-- A session that ended because of the shutdown signal.
abbrev pub is_shutdown : Attempt → Bool
is_shutdown (session (some shutdown)) = true
is_shutdown _ = false

-- Whether the last attempt that got as far as dialling failed to reach the controller.
abbrev pub last_unreachable : Bool → List Attempt → Bool
last_unreachable b [] = b
last_unreachable b (tunnel_failed ∷ rest) = last_unreachable b rest
last_unreachable b (unreachable ∷ rest) = last_unreachable true rest
last_unreachable b (session o ∷ rest) = last_unreachable false rest

attempt_lem :
    (tunnel : Bool) (a : Attempt) (m : Main)
    → m.returned ≡ false
    → ((attempt tunnel a m).returned ≡ is_shutdown a)
      × ((rest : List Attempt)
          → is_shutdown a ≡ false
          → last_unreachable m.stale_netmap (a ∷ rest)
            ≡ last_unreachable (attempt tunnel a m).stale_netmap rest)
unfolding attempt
attempt_lem true tunnel_failed m h = (h, λ rest _. refl)
attempt_lem false tunnel_failed m h = (h, λ rest _. refl)
attempt_lem true unreachable m h = (h, λ rest _. refl)
attempt_lem false unreachable m h = (h, λ rest _. refl)
attempt_lem true (session none) m h = (h, λ rest _. refl)
attempt_lem false (session none) m h = (h, λ rest _. refl)
attempt_lem true (session (some disconnected)) m h = (h, λ rest _. refl)
attempt_lem false (session (some disconnected)) m h = (h, λ rest _. refl)
attempt_lem true (session (some shutdown)) m h = (refl, λ rest e. absurd (cc))
attempt_lem false (session (some shutdown)) m h = (refl, λ rest e. absurd (cc))

loop-running :
    (tunnel : Bool) (a : Attempt) (rest : List Attempt) (m : Main)
    → m.returned ≡ false
    → reconnect_loop tunnel (a ∷ rest) m ≡ reconnect_loop tunnel rest (attempt tunnel a m)
unfolding reconnect_loop
loop-running tunnel a rest m h =
    ap (λ b. if b then m else reconnect_loop tunnel rest (attempt tunnel a m)) h

loop-returned :
    (tunnel : Bool) (attempts : List Attempt) (m : Main)
    → m.returned ≡ true
    → reconnect_loop tunnel attempts m ≡ m
unfolding reconnect_loop
loop-returned tunnel [] m h = refl
loop-returned tunnel (a ∷ rest) m h =
    ap (λ b. if b then m else reconnect_loop tunnel rest (attempt tunnel a m)) h

loop_from :
    (tunnel : Bool) (attempts : List Attempt) (m : Main)
    → m.returned ≡ false
    → ((reconnect_loop tunnel attempts m).returned ≡ any is_shutdown attempts)
      × (any is_shutdown attempts ≡ false
          → (reconnect_loop tunnel attempts m).stale_netmap
            ≡ last_unreachable m.stale_netmap attempts)
unfolding reconnect_loop
loop_from tunnel [] m h = (h, λ _. refl)
loop_from tunnel (a ∷ rest) m h = elim (Bool-cases (is_shutdown a)) [
  | inl e ↦ (
    ap (λ (v : Main). v.returned)
          (loop-running tunnel a rest m h
            ∙ loop-returned tunnel rest _ ((attempt_lem tunnel a m h).0 ∙ e))
        ∙ (attempt_lem tunnel a m h).0
        ∙ ground arith,
    λ none. absurd (ground arith),
  )
  | inr e ↦
      (let (returned, stale) = attempt_lem tunnel a m h in
        let (ends, goes) = loop_from tunnel rest (attempt tunnel a m) (returned ∙ e) in
        let running = loop-running tunnel a rest m h in
        (
          ap (λ (v : Main). v.returned) running ∙ ends ∙ ground arith,
          λ never.
              ap (λ (v : Main). v.stale_netmap) running ∙ goes (ground arith) ∙ sym (stale rest e),
        ))
]

attempt-refreshes :
    (a : Attempt) (m : Main) → (attempt true a m).refreshes ≡ m.stale_netmap ∷ m.refreshes
unfolding attempt
attempt-refreshes tunnel_failed m = refl
attempt-refreshes unreachable m = refl
attempt-refreshes (session none) m = refl
attempt-refreshes (session (some disconnected)) m = refl
attempt-refreshes (session (some shutdown)) m = refl

attempt-direct : (a : Attempt) (m : Main) → (attempt false a m).refreshes ≡ m.refreshes
unfolding attempt
attempt-direct tunnel_failed m = refl
attempt-direct unreachable m = refl
attempt-direct (session none) m = refl
attempt-direct (session (some disconnected)) m = refl
attempt-direct (session (some shutdown)) m = refl

loop-direct :
    (attempts : List Attempt) (m : Main) → (reconnect_loop false attempts m).refreshes ≡ m.refreshes
unfolding reconnect_loop
loop-direct [] m = refl
loop-direct (a ∷ rest) m = elim (Bool-cases m.returned) [
  | inl r ↦ ap (λ (v : Main). v.refreshes) (loop-returned false (a ∷ rest) m r)
  | inr r ↦
      ap (λ (v : Main). v.refreshes) (loop-running false a rest m r)
      ∙ loop-direct rest (attempt false a m)
      ∙ attempt-direct a m
]

-- The passes one after another.
loop-next :
    (attempts : List Attempt) (a : Attempt) (m : Main)
    → (reconnect_loop true attempts m).returned ≡ false
    → reconnect_loop true (attempts ++ a ∷ []) m ≡ attempt true a (reconnect_loop true attempts m)
unfolding reconnect_loop
loop-next [] a m h = loop-running true a [] m h
loop-next (b ∷ rest) a m h = elim (Bool-cases m.returned) [
  | inl r ↦
      absurd
        (ground (arith, r, h, ap (λ (v : Main). v.returned) (loop-returned true (b ∷ rest) m r)))
  | inr r ↦
      (let running = loop-running true b rest m r in
        let h' = sym (ap (λ (v : Main). v.returned) running) ∙ h in
        loop-running true b (rest ++ a ∷ []) m r
        ∙ loop-next rest a (attempt true b m) h'
        ∙ ap (attempt true a) (sym running))
]

-- The loop of `main` returns exactly if a session ended by the shutdown signal: no failure and no
-- drop ends it. While it goes on, the next pass with a tunnel calls `setup_tunnel` once more, and
-- forces a refresh exactly if the last attempt that dialled did not reach the controller; without a
-- tunnel, `setup_tunnel` is never called.
pub reconnect_loop_iff :
    (tunnel : Bool) (attempts : List Attempt)
    → ((reconnect_loop tunnel attempts launch).returned ≡ any is_shutdown attempts)
      × ((next : Attempt)
          → any is_shutdown attempts ≡ false
          → (reconnect_loop true (attempts ++ next ∷ []) launch).refreshes
            ≡ last_unreachable false attempts ∷ (reconnect_loop true attempts launch).refreshes)
      × ((reconnect_loop false attempts launch).refreshes ≡ [])
reconnect_loop_iff tunnel attempts =
    let (ends, goes) = loop_from true attempts launch refl in
    (
      (loop_from tunnel attempts launch refl).0,
      λ next never.
          ap (λ (v : Main). v.refreshes) (loop-next attempts next launch (ends ∙ never))
          ∙ attempt-refreshes next (reconnect_loop true attempts launch)
          ∙ ap (λ b. b ∷ (reconnect_loop true attempts launch).refreshes) (goes never),
      loop-direct attempts launch,
    )
