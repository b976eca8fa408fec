-- ===== src/Daemon/Serve/Liveness.antt =====
-- When the loop of `serve` gives up on a controller that is silent.
use sand_d.Prelude.{
  ℕ, ◌-◌, String, Bool, true, false, Option, none, some, List, [], ◌∷◌, ◌≡◌, refl, ap, ◌∙◌, arith,
  any, leb, ◌&&◌, if◌then◌else◌, All, Bool-cases, inl, inr,
}
use sand_d.Protocol.{Message, DaemonMetadata}
use sand_d.Daemon.Serve.{
  ServeOutcome, disconnected, text, Ready, Serve, ack_timeout, break_with, select, serve_loop,
  on_message, on_read, as_ack,
}

-- A round in which nothing is read and neither shutdown nor the heartbeat task is ready.
pub record IsQuiet (ready : Ready) : Type 0 where
  pub unshut : ready.is_shut ≡ false
  pub alive : ready.is_dead ≡ false
  pub silent : ready.incoming ≡ none

-- Whether the deadline check ran when the silence was as long as the timeout.
abbrev pub is_breach : (heartbeat_interval last_ack : ℕ) → ℕ × Ready → Bool
is_breach heartbeat_interval last_ack (now, ready) =
    ready.ticks && leb (ack_timeout heartbeat_interval) (now - last_ack)

module _ (from_str : String → Option Message) (to_string : Message → Option String)
    (handle : Message → List Message) (heartbeat_interval : ℕ) (daemon_id : String)
    (metadata : DaemonMetadata) where
  select-quiet :
      (now : ℕ) (ready : Ready) (s : Serve)
      → IsQuiet ready
      → select from_str to_string handle heartbeat_interval daemon_id metadata now ready s ≡ (
          if is_breach heartbeat_interval s.last_ack (now, ready)
          then break_with disconnected s
          else s)
  unfolding select
  select-quiet now ready s q = rw (q.unshut, q.alive, q.silent) (ground arith)

  pub serve_loop-broken :
      (rounds : List (ℕ × Ready)) (s : Serve) {o : ServeOutcome}
      → s.outcome ≡ some o
      → serve_loop from_str to_string handle heartbeat_interval daemon_id metadata rounds s ≡ s
  unfolding serve_loop
  serve_loop-broken [] s h = refl
  serve_loop-broken (round ∷ rounds) s h = rw h refl

  pub serve_loop-running :
      (now : ℕ) (ready : Ready) (rounds : List (ℕ × Ready)) (s : Serve)
      → s.outcome ≡ none
      → serve_loop from_str to_string handle heartbeat_interval daemon_id metadata
          ((now, ready) ∷ rounds)
          s
        ≡ serve_loop from_str to_string handle heartbeat_interval daemon_id metadata rounds
            (select from_str to_string handle heartbeat_interval daemon_id metadata now ready s)
  unfolding serve_loop
  serve_loop-running now ready rounds s h =
      ap
        (λ (o : Option ServeOutcome). elim o [
          | some _ ↦ s
          | none ↦
              serve_loop from_str to_string handle heartbeat_interval daemon_id metadata rounds
                (select from_str to_string handle heartbeat_interval daemon_id metadata now ready s)
        ])
        h

  -- In a loop that is running, over rounds in which nothing is read and nothing else is ready, the
  -- loop breaks exactly if the deadline check runs when the time since the last sign of the
  -- controller has reached the timeout; it then breaks with `Disconnected`, and else nothing
  -- changes.
  pub serve_loop_quiet :
      (rounds : List (ℕ × Ready)) (s : Serve)
      → s.outcome ≡ none
      → All (λ round. IsQuiet round.1) rounds
      → serve_loop from_str to_string handle heartbeat_interval daemon_id metadata rounds s ≡ (
          if any (is_breach heartbeat_interval s.last_ack) rounds
          then break_with disconnected s
          else s)
  unfolding serve_loop
  serve_loop_quiet [] s h q = refl
  serve_loop_quiet ((now, ready) ∷ rounds) s h q =
      serve_loop-running now ready rounds s h
      ∙ ap (serve_loop from_str to_string handle heartbeat_interval daemon_id metadata rounds)
          (select-quiet now ready s q.0)
      ∙ elim (Bool-cases (is_breach heartbeat_interval s.last_ack (now, ready))) [
        | inl e ↦ rw e (serve_loop-broken rounds _ refl)
        | inr e ↦ rw e (serve_loop_quiet rounds s h q.1)
      ]

  select-message :
      (now : ℕ) (t : String) (m : Message) (ready : Ready) (s : Serve)
      → from_str t ≡ some m
      → as_ack m ≡ none
      → ready.is_shut ≡ false
      → ready.is_dead ≡ false
      → ready.ticks ≡ false
      → ready.incoming ≡ some (text t)
      → let s' =
          select from_str to_string handle heartbeat_interval daemon_id metadata now ready s in
        (s'.outcome ≡ s.outcome) × (s'.last_ack ≡ now)
  unfolding select
  select-message now t m ready s parsed ack unshut alive untick there = (
    rw (unshut, alive, untick, there, on_read, parsed, on_message, ack) refl,
    rw (unshut, alive, untick, there, on_read, parsed, on_message, ack) refl,
  )

  if_outcome :
      (b : Bool) (s : Serve)
      → s.outcome ≡ none
      → (if b then break_with disconnected s else s).outcome
        ≡ (if b then some disconnected else none)
  if_outcome true s h = refl
  if_outcome false s h = h

  -- Handling a message, however long it took, renews the deadline: when a running loop has handled
  -- a message other than an ack, in a round where nothing else was ready and whose handling was
  -- over at `now`, quiet rounds break the loop exactly if the deadline check runs when the timeout
  -- has passed since `now`.
  pub serve_loop_renewed :
      (now : ℕ) (t : String) (m : Message) (ready : Ready) (rounds : List (ℕ × Ready)) (s : Serve)
      → s.outcome ≡ none
      → from_str t ≡ some m
      → as_ack m ≡ none
      → ready.is_shut ≡ false
      → ready.is_dead ≡ false
      → ready.ticks ≡ false
      → ready.incoming ≡ some (text t)
      → All (λ round. IsQuiet round.1) rounds
      → (serve_loop from_str to_string handle heartbeat_interval daemon_id metadata
          ((now, ready) ∷ rounds)
          s).outcome
        ≡ (if any (is_breach heartbeat_interval now) rounds then some disconnected else none)
  serve_loop_renewed now t m ready rounds s h parsed ack unshut alive untick there q =
      let (kept, renewed) = select-message now t m ready s parsed ack unshut alive untick there in
      ap (λ (v : Serve). v.outcome)
        (serve_loop-running now ready rounds s h ∙ serve_loop_quiet rounds _ (kept ∙ h) q)
      ∙ rw renewed (if_outcome _ _ (kept ∙ h))
