-- ===== src/Daemon/Serve/Order.antt =====
-- In which order a session of `serve` writes.
use sand_d.Prelude.{
  ℕ, String, Bool, true, false, Option, some, List, [], ◌∷◌, ◌++◌, ◌-◌, ◌≡◌, refl, sym, ap, ◌∙◌,
  append-nil, append_assoc, none, if◌then◌else◌, Bool-cases, Option-cases, inl, inr, leb, subst,
  ◌⊎◌,
}
use sand_d.Protocol.{Message, DaemonMetadata}
use sand_d.Daemon.Serve.Liveness.{serve_loop-broken, serve_loop-running}
use sand_d.Daemon.Serve.{
  break_with, disconnected, Read, text, close, failed, ended, other, Written, message, Ready, Serve,
  ack_timeout, Registration, accepted, refused, broken, await_ack, reregister, as_ack, on_message,
  on_read, select, serve_loop, serve, registered,
}

-- Nothing that was written is taken back.
abbrev Extends : Serve → Serve → Type 0
Extends s s' = (rest : List Written) × (s'.sent ≡ s.sent ++ rest)

same : (s : Serve) → Extends s s
same s = ([], sym (append-nil s.sent))

Extends-trans : (s t u : Serve) → Extends s t → Extends t u → Extends s u
Extends-trans s t u (a, e) (b, f) = (a ++ b, f ∙ ap (λ x. x ++ b) e ∙ append_assoc s.sent a b)

Registration-cases : (r : Registration) → (r ≡ accepted) ⊎ ((r ≡ refused) ⊎ (r ≡ broken))
Registration-cases accepted = inl refl
Registration-cases refused = inr (inl refl)
Registration-cases broken = inr (inr refl)

module _ (from_str : String → Option Message) (to_string : Message → Option String)
    (handle : Message → List Message) (heartbeat_interval : ℕ) (daemon_id : String)
    (metadata : DaemonMetadata) where
  reregister-Extends :
      (sends : Bool) (s : Serve)
      → Extends s
          (reregister from_str to_string handle heartbeat_interval daemon_id metadata sends s)
  unfolding reregister
  reregister-Extends true s =
      elim (Option-cases (to_string (Message.register daemon_id metadata))) [
        | inl e ↦ rw (reregister, e) (same s)
        | inr (json, e) ↦
            rw (reregister, e) (message (Message.register daemon_id metadata) ∷ [], refl)
      ]
  reregister-Extends false s =
      elim (Option-cases (to_string (Message.register daemon_id metadata))) [
        | inl e ↦ rw (reregister, e) (same s)
        | inr (json, e) ↦ rw (reregister, e) (same s)
      ]

  acked-Extends :
      (now : ℕ) (sends success : Bool) (m : Message) (s : Serve)
      → as_ack m ≡ some success
      → Extends s
          (on_message from_str to_string handle heartbeat_interval daemon_id metadata now sends m s)
  unfolding on_message
  acked-Extends now sends true m s e = rw (on_message, e) (same s)
  acked-Extends now sends false m s e =
      rw (on_message, e) (reregister-Extends sends (record s { last_ack = now }))

  on_message-Extends :
      (now : ℕ) (sends : Bool) (m : Message) (s : Serve)
      → Extends s
          (on_message from_str to_string handle heartbeat_interval daemon_id metadata now sends m s)
  unfolding on_message
  on_message-Extends now sends m s = elim (Option-cases (as_ack m)) [
    | inl e ↦ rw (on_message, e) (_, refl)
    | inr (success, e) ↦ acked-Extends now sends success m s e
  ]

  on_read-Extends :
      (now : ℕ) (sends : Bool) (r : Read) (s : Serve)
      → Extends s
          (on_read from_str to_string handle heartbeat_interval daemon_id metadata now sends r s)
  unfolding on_read
  on_read-Extends now sends (text t) s = elim (Option-cases (from_str t)) [
    | inl e ↦ rw (on_read, e) (same s)
    | inr (m, e) ↦ rw (on_read, e) (on_message-Extends now sends m s)
  ]
  on_read-Extends now sends close s = same s
  on_read-Extends now sends failed s = same s
  on_read-Extends now sends ended s = same s
  on_read-Extends now sends other s = same s

  tick-Extends :
      (now : ℕ) (ready : Ready) (s : Serve)
      → ready.is_shut ≡ false
      → ready.is_dead ≡ false
      → Extends s
          (select from_str to_string handle heartbeat_interval daemon_id metadata now ready s)
  unfolding select
  tick-Extends now ready s h h' = elim (Bool-cases ready.ticks) [
    | inl e ↦ elim (Bool-cases (leb (ack_timeout heartbeat_interval) (now - s.last_ack))) [
      | inl late ↦ rw (h, h', e, late) (same s)
      | inr timely ↦ rw (h, h', e, timely) (same s)
    ]
    | inr e ↦ elim (Option-cases ready.incoming) [
      | inl nothing ↦ rw (h, h', e, nothing) (same s)
      | inr (r, there) ↦ rw (h, h', e, there) (on_read-Extends now ready.sends r s)
    ]
  ]

  select-Extends :
      (now : ℕ) (ready : Ready) (s : Serve)
      → Extends s
          (select from_str to_string handle heartbeat_interval daemon_id metadata now ready s)
  unfolding select
  select-Extends now ready s = elim (Bool-cases ready.is_shut) [
    | inl h ↦ rw h (_, refl)
    | inr h ↦ elim (Bool-cases ready.is_dead) [
      | inl h' ↦ rw (h, h') (same s)
      | inr h' ↦ tick-Extends now ready s h h'
    ]
  ]

  serve_loop-Extends :
      (rounds : List (ℕ × Ready)) (s : Serve)
      → Extends s
          (serve_loop from_str to_string handle heartbeat_interval daemon_id metadata rounds s)
  unfolding serve_loop
  serve_loop-Extends [] s = same s
  serve_loop-Extends ((now, ready) ∷ rounds) s = elim (Option-cases s.outcome) [
    | inl e ↦
        (let s' : Serve =
            select from_str to_string handle heartbeat_interval daemon_id metadata now ready s in
          let s'' : Serve =
            serve_loop from_str to_string handle heartbeat_interval daemon_id metadata rounds s' in
          subst (Extends s)
            (sym (
              serve_loop-running from_str to_string handle heartbeat_interval daemon_id metadata now
                ready rounds s e))
            (Extends-trans s s' s'' (select-Extends now ready s) (serve_loop-Extends rounds s')))
    | inr (o, e) ↦
        subst (Extends s)
          (sym (
            serve_loop-broken from_str to_string handle heartbeat_interval daemon_id metadata
              ((now, ready) ∷ rounds) s e))
          (same s)
  ]

  -- The session once the answer to its registration is read.
  after_ack :
      (initialized : Bool) (connected_at : ℕ) (first_read : Read) (rounds : List (ℕ × Ready))
      {json : String}
      → to_string (Message.register daemon_id metadata) ≡ some json
      → let start =
          registered from_str to_string handle heartbeat_interval daemon_id metadata connected_at in
        let s =
          serve from_str to_string handle heartbeat_interval daemon_id metadata true initialized
            connected_at first_read rounds in
        let r =
          await_ack from_str to_string handle heartbeat_interval daemon_id metadata first_read in
        (r ≡ accepted
          → initialized ≡ true
          → s
            ≡ serve_loop from_str to_string handle heartbeat_interval daemon_id metadata rounds
                start)
        × (r ≡ accepted → initialized ≡ false → s ≡ break_with disconnected start)
        × (r ≡ refused → s ≡ break_with disconnected start)
        × (r ≡ broken → s ≡ break_with disconnected start)
  unfolding serve
  after_ack initialized connected_at first_read rounds e = (
    λ h i. rw (serve, e, h, i) refl,
    λ h i. rw (serve, e, h, i) refl,
    λ h. rw (serve, e, h) refl,
    λ h. rw (serve, e, h) refl,
  )

  serve-Extends :
      (initialized : Bool) (connected_at : ℕ) (first_read : Read) (rounds : List (ℕ × Ready))
      {json : String}
      → to_string (Message.register daemon_id metadata) ≡ some json
      → Extends
          (registered from_str to_string handle heartbeat_interval daemon_id metadata connected_at)
          (serve from_str to_string handle heartbeat_interval daemon_id metadata true initialized
            connected_at first_read rounds)
  serve-Extends initialized connected_at first_read rounds e =
      let start =
        registered from_str to_string handle heartbeat_interval daemon_id metadata connected_at in
      let (goes, stops, refuses, breaks) = after_ack initialized connected_at first_read rounds e in
      elim (Registration-cases
        (await_ack from_str to_string handle heartbeat_interval daemon_id metadata first_read)) [
          | inl h ↦ elim (Bool-cases initialized) [
            | inl i ↦ subst (Extends start) (sym (goes h i)) (serve_loop-Extends rounds start)
            | inr i ↦ subst (Extends start) (sym (stops h i)) (same start)
          ]
          | inr (inl h) ↦ subst (Extends start) (sym (refuses h)) (same start)
          | inr (inr h) ↦ subst (Extends start) (sym (breaks h)) (same start)
        ]

  acked :
      (first_read : Read) (t reason : String) (success : Bool)
      → first_read ≡ text t
      → from_str t ≡ some (Message.register_ack success reason)
      → await_ack from_str to_string handle heartbeat_interval daemon_id metadata first_read
        ≡ (if success then accepted else refused)
  unfolding await_ack
  acked first_read t reason success r m = rw (r, await_ack, m) refl

  -- A session that can print and write its registration writes `Register` before everything else.
  -- If the first text that it reads is a `RegisterAck` without success, it writes nothing more and
  -- ends with `Disconnected`, and so it does after one with success if the manager of the snapshots
  -- cannot be made; with success and the manager there, it goes on with the loop.
  pub serve_registers_first :
      (initialized : Bool) (connected_at : ℕ) (first_read : Read) (rounds : List (ℕ × Ready))
      {json : String}
      → to_string (Message.register daemon_id metadata) ≡ some json
      → let s =
          serve from_str to_string handle heartbeat_interval daemon_id metadata true initialized
            connected_at first_read rounds in
        let start : Serve = record {
          last_ack = connected_at;
          sent = message (Message.register daemon_id metadata) ∷ [];
          outcome = none;
        } in
        ((rest : List Written) × (s.sent ≡ message (Message.register daemon_id metadata) ∷ rest))
        × ((t reason : String) (success : Bool)
            → first_read ≡ text t
            → from_str t ≡ some (Message.register_ack success reason)
            → (success ≡ false → s ≡ record start { outcome = some disconnected })
              × (success ≡ true
                  → initialized ≡ false
                  → s ≡ record start { outcome = some disconnected })
              × (success ≡ true
                  → initialized ≡ true
                  → s
                    ≡ serve_loop from_str to_string handle heartbeat_interval daemon_id metadata
                        rounds start))
  serve_registers_first initialized connected_at first_read rounds e =
      let (goes, stops, refuses, breaks) = after_ack initialized connected_at first_read rounds e in
      (
        serve-Extends initialized connected_at first_read rounds e,
        λ t reason success r m.
            let a = acked first_read t reason success r m in
            (
              λ b. refuses (a ∙ ap (λ x. if x then accepted else refused) b),
              λ b i. stops (a ∙ ap (λ x. if x then accepted else refused) b) i,
              λ b i. goes (a ∙ ap (λ x. if x then accepted else refused) b) i,
            ),
      )
