-- ===== src/Daemon/Serve/Reregister.antt =====
-- The daemon's answer to a refused heartbeat, with the controller that refused it.
use sand_d.Prelude.{
  ℕ, String, true, false, Option, none, some, List, [], ◌∷◌, ◌++◌, ◌≡◌, ◌≢◌, refl, length,
}
use sand_d.Protocol.{Message, DaemonMetadata}
use sand_d.Server.Connection
use sand_d.Server.Connection.{DaemonConnection}
use sand_d.Server.Registry
use sand_d.Server.Handler.{World, handle_daemon_message}
use sand_d.Server.Handler.Laws.{IsReachable}
use sand_d.Server.Handler.Recovery.{beat, evicted_recovers}
use sand_d.Daemon.Serve.{Serve, Ready, text, message, select, on_read, on_message, reregister}

module _ (from_str : String → Option Message) (to_string : Message → Option String)
    (handle : Message → List Message) (heartbeat_interval : ℕ) (daemon_id : String)
    (metadata : DaemonMetadata) where
  -- When the controller has evicted a daemon whose socket is open, its answer to the next
  -- heartbeat, read by the daemon's running loop in a round where nothing else is ready, makes the
  -- daemon write `Register` on the same connection and go on; and the controller, handling that,
  -- has the daemon reachable again and acks its next heartbeat. This is for an id that is not
  -- empty, an answer that is parsed, and a registration that can be printed and written.
  pub refused_heartbeat_reregisters :
      (t t' t'' now : ℕ) (tx : ℕ) (w : World) (s : Serve) (ready : Ready) (frame json : String)
      → daemon_id ≢ ""
      → Registry.get daemon_id w.registry ≡ none
      → s.outcome ≡ none
      → from_str frame ≡ some (Message.heartbeat_ack false "daemon is not registered")
      → to_string (Message.register daemon_id metadata) ≡ some json
      → ready ≡ record {
        is_shut = false;
        is_dead = false;
        ticks = false;
        incoming = some (text frame);
        sends = true;
      }
      → let refused = beat t daemon_id tx w in
        let s' =
          select from_str to_string handle heartbeat_interval daemon_id metadata now ready s in
        let again =
          handle_daemon_message t'
            (Message.register daemon_id metadata)
            (some daemon_id)
            tx
            refused.world in
        (refused.frames ≡ Message.heartbeat_ack false "daemon is not registered" ∷ [])
        × (s'.sent ≡ s.sent ++ message (Message.register daemon_id metadata) ∷ [])
        × (s'.outcome ≡ none)
        × (s'.last_ack ≡ now)
        × IsReachable again.world daemon_id
            (length w.registry.heap)
            (Connection.new t' daemon_id metadata tx)
        × ((beat t'' daemon_id tx again.world).frames ≡ Message.heartbeat_ack true "" ∷ [])
  unfolding select on_read on_message reregister
  refused_heartbeat_reregisters t t' t'' now tx w s ready frame json named absent running parsed
        encoded is_ready =
      let (refused, back, acked) = evicted_recovers t t' t'' daemon_id metadata tx w named absent in
      (
        refused,
        rw (is_ready, on_read, parsed, on_message, reregister, encoded) refl,
        rw (is_ready, on_read, parsed, on_message, reregister, encoded) running,
        rw (is_ready, on_read, parsed, on_message, reregister, encoded) refl,
        back,
        acked,
      )
