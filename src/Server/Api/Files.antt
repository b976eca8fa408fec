-- ===== src/Server/Api/Files.antt =====
-- server/src/python.rs: `upload_file` and `download_file`. The chunks are cut as the daemon cuts
-- them.
use sand_d.Prelude.{ℕ, ◌+◌, ◌*◌, String, Option, none, some, List, [], ◌∷◌, Bytes, length}
use sand_d.Protocol.{Message}
use sand_d.Server.Connection
use sand_d.Server.Connection.{DaemonConnection}
use sand_d.Server.Registry.{deref}
use sand_d.Server.Api.{
  PyResult, returned, raised, runtime_error, Controller, Wait, send_message, not_found, find_conn,
  on_conn, send_or,
}
use sand_d.Daemon.Download.{chunk_size, chunks}

unfoldable pub upload_chunks : (request_id : String) (size i : ℕ) → List Bytes → List Message
upload_chunks request_id size i [] = []
upload_chunks request_id size i (c ∷ cs) =
    Message.file_upload_chunk request_id c (i * size) ∷ upload_chunks request_id size (i + 1) cs

-- The first message that cannot be sent ends the upload.
unfoldable pub send_chunks :
    DaemonConnection → List Message → Controller → PyResult (Unit {0}) × Controller
unfolding send_message
send_chunks conn [] s = (returned tt, s)
send_chunks conn (m ∷ ms) s =
    send_or "Failed to send chunk: " (send_chunks conn ms) (send_message conn m s)

unfoldable pub upload_file :
    (daemon_id remote_path : String)
    → Bytes
    → (request_id : String) → Controller
    → PyResult (Unit {0}) × Controller
unfolding find_conn send_message send_chunks upload_chunks chunks
upload_file daemon_id remote_path data_bytes request_id s = elim (find_conn daemon_id s) [
  | none ↦ (raised (not_found daemon_id), s)
  | some (_, conn) ↦
      send_or "Failed to start upload: "
        (send_chunks conn (
          upload_chunks request_id chunk_size 0 (chunks chunk_size (length data_bytes) data_bytes)))
        (send_message conn
          (Message.file_upload_start request_id remote_path (length data_bytes) none) s)
]

abbrev transfer_result : Option Bytes → PyResult Bytes
transfer_result none = raised (runtime_error "File transfer did not complete")
transfer_result (some content) = returned content

-- What the connection has of the transfer, which is over then.
unfoldable pub take_transfer :
    (request_id : String) (arc : ℕ) → Controller → PyResult Bytes × Controller
take_transfer request_id arc s = elim (deref s.world.registry arc) [
  | none ↦ (transfer_result none, s)
  | some conn ↦ (
    transfer_result (Connection.complete_file_transfer request_id conn).1,
    on_conn arc (λ c. (Connection.complete_file_transfer request_id c).0) s,
  )
]

-- The method sleeps for five seconds and takes what is there.
unfoldable pub download_file :
    (daemon_id remote_path request_id : String) → Wait → Controller → PyResult Bytes × Controller
unfolding find_conn send_message take_transfer
download_file daemon_id remote_path request_id wait s = elim (find_conn daemon_id s) [
  | none ↦ (raised (not_found daemon_id), s)
  | some (arc, conn) ↦
      send_or "Failed to start download: " (λ t. take_transfer request_id arc (wait 5 t).1)
        (send_message conn (Message.file_download_start request_id remote_path)
          (on_conn arc (Connection.start_file_transfer request_id remote_path 0) s))
]
