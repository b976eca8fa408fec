-- ===== src/Server/Handler/Laws.antt =====
-- What one message does: registration, and the delivery of responses.
use sand_d.Prelude.{
  ℕ, String, true, Option, none, some, [], ◌∷◌, ◌++◌, ◌≡◌, ◌≢◌, refl, arith, eq_iff, length,
  get_elem?-push, get_elem?-set_self, get_elem?-append,
}
use sand_d.Prelude.Dict.{lookup, lookup-insert_self, lookup-insert_ne, lookup-remove_self}
use sand_d.Protocol.{Message, DaemonMetadata}
use sand_d.Server.Connection
use sand_d.Server.Connection.{DaemonConnection}
use sand_d.Server.Registry
use sand_d.Server.Registry.{deref}
use sand_d.Server.Handler.{
  World, handle_response, handle_daemon_message, with_conn, complete, response_id, silent,
}

-- An id under which a message can be sent to a connection.
pub record IsReachable (w : World) (id : String) (arc : ℕ) (c : DaemonConnection) : Type 0 where
  pub entry : Registry.get id w.registry ≡ some arc
  pub found : deref w.registry arc ≡ some c

-- Registering under a non-empty id is acknowledged, binds the socket to that id, and makes the id
-- reach a new connection on this socket's own channel, whatever stood there. Other ids stay, every
-- connection that was there keeps its state for those who hold it, and no response is delivered.
pub register_reaches :
    (now : ℕ) (id : String) (m : DaemonMetadata) (daemon_id : Option String) (tx : ℕ) (w : World)
    → id ≢ ""
    → let h = handle_daemon_message now (Message.register id m) daemon_id tx w in
      (h.frames ≡ Message.register_ack true "Successfully registered" ∷ [])
      × (h.daemon_id ≡ some id)
      × IsReachable h.world id (length w.registry.heap) (Connection.new now id m tx)
      × ((j : String) → id ≢ j → Registry.get j h.world.registry ≡ Registry.get j w.registry)
      × ((arc : ℕ) (c : DaemonConnection)
          → deref w.registry arc ≡ some c
          → deref h.world.registry arc ≡ some c)
      × (h.world.delivered ≡ w.delivered)
unfolding handle_daemon_message Registry.register Registry.get Connection.new
register_reaches now id m daemon_id tx w named =
    let arc = length w.registry.heap in
    (
      ground (arith, eq_iff id ""),
      ground (arith, eq_iff id ""),
      record {
        entry = ground (arith, eq_iff id "", lookup-insert_self id arc w.registry.connections);
        found =
            ground
              (arith, eq_iff id "", get_elem?-push w.registry.heap (Connection.new now id m tx));
      },
      λ j other.
          ground (arith, eq_iff id "", lookup-insert_ne id j arc w.registry.connections other),
      λ a c old. ground (
        arith,
        eq_iff id "",
        get_elem?-append w.registry.heap (Connection.new now id m tx ∷ []) a old,
      ),
      ground (arith, eq_iff id ""),
    )

-- The handler sends every message with a response id through the request table.
handle_daemon_message-response :
    (now : ℕ) (m : Message) (daemon_id : Option String) (tx : ℕ) (w : World) {request_id : String}
    → response_id m ≡ some request_id
    → handle_daemon_message now m daemon_id tx w ≡ handle_response (some request_id) m daemon_id w
unfolding handle_daemon_message
handle_daemon_message-response now (Message.register _ _) daemon_id tx w h = cc
handle_daemon_message-response now Message.heartbeat daemon_id tx w h = cc
handle_daemon_message-response now (Message.session_output _ _) daemon_id tx w h = cc
handle_daemon_message-response now (Message.session_exit _ _) daemon_id tx w h = cc
handle_daemon_message-response now (Message.file_download_chunk _ _ _ _) daemon_id tx w h = cc
handle_daemon_message-response now m daemon_id tx w h = ground arith

-- The whole effect of a response on a reachable connection.
pub response-complete :
    (now : ℕ) (m : Message) (id request_id : String) (tx : ℕ) (w : World) {arc : ℕ}
    {c : DaemonConnection}
    → response_id m ≡ some request_id
    → IsReachable w id arc c
    → handle_daemon_message now m (some id) tx w ≡ silent (some id) (complete request_id m arc c w)
unfolding handle_response
response-complete now m id request_id tx w h r =
    rw (handle_daemon_message-response now m (some id) tx w h)
      (rw (r.entry, with_conn, r.found) refl)

-- The connection is still reachable after it took a response.
pub complete-IsReachable :
    (m : Message) (id request_id : String) (w : World) {arc : ℕ} {c : DaemonConnection}
    → IsReachable w id arc c
    → IsReachable
        (complete request_id m arc c w)
        id
        arc
        (Connection.complete_request request_id c).0
unfolding complete Registry.modify Registry.get
complete-IsReachable m id request_id w {arc} {c} r = record {
  entry = r.entry;
  found =
      rw r.found (
        get_elem?-set_self w.registry.heap arc (Connection.complete_request request_id c).0
          r.found);
}

-- A response to a request that is pending on the daemon's connection goes to the caller that waits
-- for it, exactly once: a second response to the same request is dropped.
pub response_delivered_once :
    (now later : ℕ) (m again : Message) (id request_id : String) (socket_tx : ℕ) (w : World)
    {arc : ℕ} {c : DaemonConnection} {tx : ℕ}
    → response_id m ≡ some request_id
    → response_id again ≡ some request_id
    → IsReachable w id arc c
    → lookup request_id c.pending_requests ≡ some tx
    → let w' = (handle_daemon_message now m (some id) socket_tx w).world in
      let w'' = (handle_daemon_message later again (some id) socket_tx w').world in
      (w'.delivered ≡ w.delivered ++ (tx, m) ∷ []) × (w''.delivered ≡ w'.delivered)
unfolding complete Connection.complete_request
response_delivered_once now later m again id request_id socket_tx w {arc} {c} {tx} h h' r pending =
    let first = response-complete now m id request_id socket_tx w h r in
    let second =
      response-complete later again id request_id socket_tx (complete request_id m arc c w) h'
        (complete-IsReachable m id request_id w r) in
    (
      rw first (ground (arith, pending)),
      rw (first, second)
          (ground (arith, pending, lookup-remove_self request_id c.pending_requests)),
    )

-- A message that leaves a socket unregistered changes nothing and reaches no caller.
pub unregistered_socket_inert :
    (now : ℕ) (m : Message) (tx : ℕ) (w : World)
    → (handle_daemon_message now m none tx w).daemon_id ≡ none
    → (handle_daemon_message now m none tx w).world ≡ w
unfolding handle_daemon_message
unregistered_socket_inert now (Message.register id metadata) tx w h = ground arith
unregistered_socket_inert now Message.heartbeat tx w h = refl
unregistered_socket_inert now (Message.session_output _ _) tx w h = refl
unregistered_socket_inert now (Message.session_exit _ _) tx w h = refl
unregistered_socket_inert now (Message.file_download_chunk _ _ _ _) tx w h = refl
unregistered_socket_inert now m tx w h = refl
