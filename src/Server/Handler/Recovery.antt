-- ===== src/Server/Handler/Recovery.antt =====
-- Heartbeats, eviction, and the recovery from it.
use sand_d.Prelude.{
  ℕ, ◌-◌, String, true, false, none, some, [], ◌∷◌, ◌≡◌, ◌<◌, ◌∙◌, ◌≢◌, arith, length,
  get_elem?-set_self, get_elem?-lt, get_elem?-set_ne, ltb, if◌then◌else◌,
}
use sand_d.Prelude.Dict.{lookup}
use sand_d.Protocol.{Message, DaemonMetadata}
use sand_d.Server.Connection
use sand_d.Server.Connection.{DaemonConnection}
use sand_d.Server.Registry
use sand_d.Server.Registry.{deref}
use sand_d.Server.Registry.Stale.{cleanup_stale_exact}
use sand_d.Server.Handler.{
  World, Handled, handle_heartbeat, handle_daemon_message, complete, response_id, heartbeat_monitor,
  reap_secs,
}
use sand_d.Server.Handler.Laws.{IsReachable, register_reaches, response-complete}
use sand_d.Server.Handler.Invariant.{IsSound, handle_daemon_message-IsSound}

abbrev pub beat : (now : ℕ) → String → (tx : ℕ) → World → Handled
beat now id tx w = handle_daemon_message now Message.heartbeat (some id) tx w

-- A heartbeat of a registered daemon is acknowledged and stamps the connection with the time; a
-- heartbeat of an unregistered one is refused and changes nothing.
pub heartbeat_outcome :
    (now : ℕ) (id : String) (tx : ℕ) (w : World)
    → ((arc : ℕ) (c : DaemonConnection)
        → IsReachable w id arc c
        → ((beat now id tx w).frames ≡ Message.heartbeat_ack true "" ∷ [])
          × IsReachable (beat now id tx w).world id arc (record c { last_heartbeat = now }))
      × (Registry.get id w.registry ≡ none
          → ((beat now id tx w).frames
              ≡ Message.heartbeat_ack false "daemon is not registered" ∷ [])
            × ((beat now id tx w).world ≡ w))
unfolding handle_daemon_message Connection.update_heartbeat Registry.modify
heartbeat_outcome now id tx w = (
  (λ arc c r. (
    rw (r.entry, handle_heartbeat),
    rw (r.entry, handle_heartbeat, r.found)
        (record {
          entry = unfold Registry.get in r.entry;
          found = get_elem?-set_self w.registry.heap arc _ r.found;
        }),
  )),
  (λ absent. (rw (absent, handle_heartbeat), rw (absent, handle_heartbeat))),
)

-- In a well-formed registry, after a heartbeat of a registered daemon at `t`, a sweep at `now`
-- leaves the daemon alone exactly if no more than 30 seconds have passed.
pub monitor_after_heartbeat :
    (t now : ℕ) (id : String) (tx : ℕ) (w : World) {arc : ℕ} {c : DaemonConnection}
    → IsSound w
    → IsReachable w id arc c
    → Registry.get id (heartbeat_monitor now (beat t id tx w).world).registry
      ≡ (if ltb 30 (now - t) then none else some arc)
unfolding heartbeat_monitor
monitor_after_heartbeat t now id tx w {arc} {c} s r =
    let stamped = ((heartbeat_outcome t id tx w).0 arc c r).1 in
    (cleanup_stale_exact now reap_secs (beat t id tx w).world.registry
        (handle_daemon_message-IsSound t Message.heartbeat (some id) tx w s)).2
      id arc _ stamped.entry stamped.found

-- A daemon whose id is not empty and that was evicted while its socket stayed open is told so by
-- its next heartbeat, and the `Register` that it then sends on the same socket makes it reachable
-- on that socket's channel and has its heartbeats acknowledged again.
pub evicted_recovers :
    (t t' t'' : ℕ) (id : String) (m : DaemonMetadata) (tx : ℕ) (w : World)
    → id ≢ ""
    → Registry.get id w.registry ≡ none
    → let refused = beat t id tx w in
      let again = handle_daemon_message t' (Message.register id m) (some id) tx refused.world in
      (refused.frames ≡ Message.heartbeat_ack false "daemon is not registered" ∷ [])
      × IsReachable again.world id (length w.registry.heap) (Connection.new t' id m tx)
      × ((beat t'' id tx again.world).frames ≡ Message.heartbeat_ack true "" ∷ [])
evicted_recovers t t' t'' id m tx w named absent =
    let refused = (heartbeat_outcome t id tx w).1 absent in
    let back = register_reaches t' id m (some id) tx w named in
    (refused.0, rw refused.1 back.2, rw refused.1 ((heartbeat_outcome t'' id tx _).0 _ _ back.2).0)

-- A reachable daemon whose id is not empty and that registers again loses every request that was
-- pending on its former connection: a response to it, to whatever caller it was due, is delivered
-- to nobody, while the former connection keeps its state.
pub reregister_drops_pending :
    (t t' : ℕ) (id request_id : String) (m : DaemonMetadata) (response : Message) (tx : ℕ)
    (w : World) {arc : ℕ} {c : DaemonConnection}
    → id ≢ ""
    → response_id response ≡ some request_id
    → IsReachable w id arc c
    → let again = (handle_daemon_message t (Message.register id m) (some id) tx w).world in
      ((handle_daemon_message t' response (some id) tx again).world.delivered ≡ w.delivered)
      × (deref (handle_daemon_message t' response (some id) tx again).world.registry arc ≡ some c)
unfolding complete Connection.complete_request Connection.new Registry.modify lookup
reregister_drops_pending t t' id request_id m response tx w {arc} {c} named h r =
    let back = register_reaches t id m (some id) tx w named in
    let held : arc < length w.registry.heap = get_elem?-lt w.registry.heap arc r.found in
    let apart : length w.registry.heap ≢ arc = omega arith in
    (
      rw (response-complete t' response id request_id tx _ h back.2) back.5,
      rw (response-complete t' response id request_id tx _ h back.2) (
          rw back.2.found
            (get_elem?-set_ne _ (Connection.new t id m tx) apart ∙ back.4 arc c r.found)),
    )
