-- ===== src/Server/Api/Transfers.antt =====
-- Files between Python and a daemon.
use sand_d.Prelude.{
  ℕ, String, Bool, false, none, some, List, [], ◌∷◌, ◌≡◌, refl, Bytes, All, flatten,
  get_elem?-set_self,
}
use sand_d.Protocol.{Message}
use sand_d.Server.Connection.{DaemonConnection, start_file_transfer, add_file_chunk}
use sand_d.Server.Connection.Transfer.{add_file_chunks, complete-add_file_chunks}
use sand_d.Server.Registry
use sand_d.Server.Handler.{
  World, receive_all, handle_daemon_message, handle_response, response_id, with_conn,
}
use sand_d.Server.Handler.Laws.{IsReachable}
use sand_d.Server.Api.{returned, Controller, on_conn}
use sand_d.Server.Api.Files.{download_file, take_transfer}
use sand_d.Server.Api.EndToEnd.{
  find_conn-IsReachable, on_conn-IsReachable, send_message-open, sent_on, newest-push, daemon_side,
}
use sand_d.Daemon.Download.Laws.{payloads}

-- A message that a daemon writes in answer to the download `request_id`.
pub data IsPiece (request_id : String) : Message → Type 0 where
  chunk :
      (b : Bytes) (offset : ℕ) (is_last : Bool)
      → IsPiece request_id (Message.file_download_chunk request_id b offset is_last)
  failure : (e : String) → IsPiece request_id (Message.file_download_error request_id e)

chunk_arrives :
    (now : ℕ) (id request_id : String) (channel : ℕ) (b : Bytes) (offset : ℕ) (is_last : Bool)
    (w : World) {arc : ℕ} {c : DaemonConnection}
    → IsReachable w id arc c
    → IsReachable
        (handle_daemon_message now
          (Message.file_download_chunk request_id b offset is_last)
          (some id)
          channel
          w).world
        id
        arc
        (add_file_chunk request_id b c)
unfolding handle_daemon_message with_conn Registry.modify Registry.get
chunk_arrives now id request_id channel b offset is_last w {arc} {c} reach =
    rw (with_conn, Registry.get, reach.entry, reach.found)
      (record {
        entry = reach.entry;
        found =
            rw reach.found
              (get_elem?-set_self w.registry.heap arc (add_file_chunk request_id b c) reach.found);
      })

-- The messages of a download add their bytes to the transfer and change nothing else of the
-- connection; an error adds nothing.
pub receive_all-pieces :
    (now : ℕ) (id request_id : String) (channel : ℕ) (ms : List Message) (w : World) {arc : ℕ}
    {c : DaemonConnection}
    → All (IsPiece request_id) ms
    → IsReachable w id arc c
    → IsReachable
        (receive_all now id channel ms w)
        id
        arc
        (add_file_chunks request_id (payloads ms) c)
unfolding handle_daemon_message handle_response response_id
receive_all-pieces now id request_id channel [] w h reach = reach
receive_all-pieces now id request_id channel (m ∷ ms) w {arc} {c} (chunk b offset is_last, h)
      reach =
    receive_all-pieces now id request_id channel ms _ h
      (chunk_arrives now id request_id channel b offset is_last w reach)
receive_all-pieces now id request_id channel (m ∷ ms) w {arc} {c} (failure e, h) reach =
    receive_all-pieces now id request_id channel ms w h reach

take_transfer-IsReachable :
    (request_id path id : String) (bs : List Bytes) (s : Controller) {arc : ℕ}
    (c : DaemonConnection)
    → IsReachable s.world id arc
        (add_file_chunks request_id bs (start_file_transfer request_id path 0 c))
    → (take_transfer request_id arc s).0 ≡ returned (flatten bs)
unfolding take_transfer
take_transfer-IsReachable request_id path id bs s {arc} c reach =
    rw (take_transfer, reach.found, (complete-add_file_chunks request_id path 0 bs c).0) refl

-- `download_file` returns the bytes of what a reachable daemon writes in answer, whatever part of
-- the file that is.
pub download_file-pieces :
    (handle : Message → List Message) (now : ℕ) (id path request_id : String) (tx : ℕ)
    (s : Controller) {arc : ℕ} {c : DaemonConnection}
    → IsReachable s.world id arc c
    → s.is_closed c.request_tx ≡ false
    → All (IsPiece request_id) (handle (Message.file_download_start request_id path))
    → (download_file id path request_id (daemon_side handle now id c.request_tx tx) s).0
      ≡ returned (flatten (payloads (handle (Message.file_download_start request_id path))))
unfolding download_file
download_file-pieces handle now id path request_id tx s {arc} {c} reach opened pieces =
    let start = start_file_transfer request_id path 0 in
    let t = on_conn arc start s in
    let m = Message.file_download_start request_id path in
    rw
      (
        download_file,
        find_conn-IsReachable s id reach,
        send_message-open c m t opened,
        newest-push c.request_tx t.frames m none,
      )
      (take_transfer-IsReachable request_id path id (payloads (handle m))
        (record (sent_on c.request_tx m t) {
          world = receive_all now id c.request_tx (handle m) t.world;
        })
        c
        (receive_all-pieces now id request_id c.request_tx (handle m) t.world pieces
          (on_conn-IsReachable start s id reach)))
