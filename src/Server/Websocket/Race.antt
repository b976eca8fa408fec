-- ===== src/Server/Websocket/Race.antt =====
-- Two sockets of one daemon: the dying one's clean-up goes by the id alone.
use sand_d.Prelude.{ℕ, String, false, none, some, [], ◌∷◌, ◌++◌, ◌≡◌, ◌≢◌, ap, length}
use sand_d.Prelude.Dict.{lookup-remove_self}
use sand_d.Protocol.{Message, DaemonMetadata}
use sand_d.Server.Connection
use sand_d.Server.Connection.{DaemonConnection}
use sand_d.Server.Registry
use sand_d.Server.Handler.{World, handle_daemon_message}
use sand_d.Server.Handler.Laws.{IsReachable}
use sand_d.Server.Handler.Recovery.{evicted_recovers}
use sand_d.Server.Websocket.{Socket, disconnect, dispatch}

-- When a socket ends, its daemon is gone from the registry even if the entry belongs to another,
-- live socket of the same daemon, whose id is not empty. The live socket's next heartbeat is then
-- refused, and the `Register` that answers the refusal makes the daemon reachable again, on the
-- live socket's channel.
pub close_evicts_successor :
    (t t' : ℕ) (id : String) (m : DaemonMetadata) (dying live : Socket) (w : World)
    → id ≢ ""
    → dying.daemon_id ≡ some id
    → live.daemon_id ≡ some id
    → let w1 = (disconnect dying w).1 in
      let (live2, w2) = dispatch t Message.heartbeat live w1 in
      let (live3, w3) = dispatch t' (Message.register id m) live2 w2 in
      (Registry.get id w1.registry ≡ none)
      × (live2.sent ≡ live.sent ++ Message.heartbeat_ack false "daemon is not registered" ∷ [])
      × IsReachable w3 id (length w.registry.heap) (Connection.new t' id m live.request_tx)
unfolding disconnect dispatch handle_daemon_message Registry.unregister
close_evicts_successor t t' id m dying live w named old new =
    let gone = lookup-remove_self id w.registry.connections in
    let after = record w { registry = Registry.unregister id w.registry } in
    let back =
      evicted_recovers t t' t' id m live.request_tx after named (unfold Registry.get in gone) in
    (
      unfold Registry.get in rw old gone,
      rw (old, new) (ap (λ f. live.sent ++ f) back.0),
      rw (old, new) back.1,
    )
