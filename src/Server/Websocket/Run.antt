-- ===== src/Server/Websocket/Run.antt =====
-- Any number of sockets, in any interleaving with the monitor.
use sand_d.Prelude.{
  ℕ, String, true, false, Option, none, some, List, [], ◌∷◌, ◌≡◌, arith, inl, inr, Bool-cases,
  Option-cases, if◌then◌else◌, ◌==◌,
}
use sand_d.Prelude.Dict.{lookup-remove}
use sand_d.Protocol.{Message}
use sand_d.Server.Registry
use sand_d.Server.Registry.Invariant.{unregister-IsWellFormed, empty-IsWellFormed}
use sand_d.Server.Handler.{World, start}
use sand_d.Server.Handler.Invariant.{
  IsSound, handle_daemon_message-IsSound, heartbeat_monitor-IsSound,
}
use sand_d.Server.Websocket.{
  Socket, Event, received, socket_error, request, ended, text, close, other, Action, connect, round,
  tick, Controller, disconnect, dispatch, poll, on_round, step, run,
}

-- The clean-up of a socket closes it, takes the id that it registered out of the registry and leaves
-- every other id alone; a socket that never registered takes nothing out.
pub disconnect_exact :
    (s : Socket) (w : World)
    → let (s', w') = disconnect s w in
      (s'.is_open ≡ false)
      × (s.daemon_id ≡ none → w' ≡ w)
      × ((id j : String)
          → s.daemon_id ≡ some id
          → Registry.get j w'.registry ≡ (if id == j then none else Registry.get j w.registry))
unfolding disconnect Registry.unregister Registry.get
disconnect_exact s w = (
  ground arith,
  λ unbound. rw unbound,
  λ id j bound. rw bound (lookup-remove id j w.registry.connections),
)

disconnect-IsSound : (s : Socket) (w : World) → IsSound w → IsSound (disconnect s w).1
unfolding disconnect
disconnect-IsSound s w h = elim (Option-cases s.daemon_id) [
  | inl unbound ↦ rw unbound h
  | inr (id, bound) ↦ rw bound (unregister-IsWellFormed id w.registry h)
]

module _ (from_str : String → Option Message) (to_string : Message → Option String) where
  poll-IsSound :
      (now : ℕ) (event : Event) (s : Socket) (w : World)
      → IsSound w
      → IsSound (poll from_str to_string now event s w).1
  unfolding poll dispatch
  poll-IsSound now (received (text t)) s w h = elim (Option-cases (from_str t)) [
    | inl bad ↦ rw (bad, poll) h
    | inr (m, parsed) ↦
        rw (parsed, poll) (handle_daemon_message-IsSound now m s.daemon_id s.request_tx w h)
  ]
  poll-IsSound now (received close) s w h = disconnect-IsSound s w h
  poll-IsSound now (received other) s w h = h
  poll-IsSound now socket_error s w h = disconnect-IsSound s w h
  poll-IsSound now (request m true) s w h = elim (Option-cases (to_string m)) [
    | inl bad ↦ rw (bad, poll) h
    | inr (_, good) ↦ rw (good, poll) h
  ]
  poll-IsSound now (request m false) s w h = elim (Option-cases (to_string m)) [
    | inl bad ↦ rw (bad, poll) h
    | inr (_, good) ↦ rw (good, poll) (disconnect-IsSound s w h)
  ]
  poll-IsSound now ended s w h = disconnect-IsSound s w h

  on_round-IsSound :
      (now i : ℕ) (event : Event) (o : Option Socket) (v : Controller)
      → IsSound v.world
      → IsSound (on_round from_str to_string now i event o v).world
  unfolding on_round
  on_round-IsSound now i event none v h = h
  on_round-IsSound now i event (some s) v h = elim (Bool-cases s.is_open) [
    | inl live ↦ simp live (poll-IsSound now event s v.world h)
    | inr gone ↦ simp gone h
  ]

  step-IsSound :
      (now : ℕ) (action : Action) (v : Controller)
      → IsSound v.world
      → IsSound (step from_str to_string now action v).world
  unfolding step
  step-IsSound now connect v h = h
  step-IsSound now (round i event) v h = on_round-IsSound now i event _ v h
  step-IsSound now tick v h = heartbeat_monitor-IsSound now v.world h

  run-IsSound :
      (schedule : List (ℕ × Action)) (v : Controller)
      → IsSound v.world
      → IsSound (run from_str to_string schedule v).world
  unfolding run
  run-IsSound [] v h = h
  run-IsSound ((now, action) ∷ rest) v h = run-IsSound rest _ (step-IsSound now action v h)

  -- Whatever the sockets do, in whatever order and at whatever times, with the monitor ticking in
  -- between, the registry that starts empty stays well formed.
  pub run-start-IsSound :
      (schedule : List (ℕ × Action))
      → IsSound (run from_str to_string schedule (record { sockets = []; world = start })).world
  run-start-IsSound schedule = run-IsSound schedule _ empty-IsWellFormed
