-- ===== src/Protocol.antt =====
-- protocol/src/lib.rs: the messages that daemon and server exchange. `data` fields are bytes; the
-- encoding to JSON text is that of serde_json and is a parameter where it matters.
use sand_d.Prelude.{ℕ, String, Bool, Option, List, Bytes, ℤ}
use sand_d.Prelude.Dict.{Dict}

pub record SnapshotInfo : Type 0 where
  pub id : String
  pub created_at : ℕ
  pub message : String
  pub tags : List String
  pub file_count : ℕ
  pub total_size : ℕ

pub record DaemonMetadata : Type 0 where
  pub hostname : String
  pub platform : String
  pub arch : String
  pub version : String
  pub labels : Dict String

pub data Message : Type 0 where
  register : (daemon_id : String) (metadata : DaemonMetadata) → Message
  register_ack : (success : Bool) (message : String) → Message
  heartbeat : Message
  heartbeat_ack : (success : Bool) (reason : String) → Message
  pong : Message
  execute_command :
      (request_id command : String) (timeout_secs : ℕ) (env : Dict String) (cwd : Option String)
      → Message
  command_output : (request_id stdout stderr : String) (exit_code : ℤ) (duration_ms : ℕ) → Message
  command_error : (request_id error : String) → Message
  new_session : (session_id : String) (rows cols : ℕ) (term : String) → Message
  session_started : (session_id : String) (success : Bool) (error : Option String) → Message
  session_input : (session_id : String) (bytes : Bytes) → Message
  session_output : (session_id : String) (bytes : Bytes) → Message
  session_resize : (session_id : String) (rows cols : ℕ) → Message
  session_close : (session_id : String) → Message
  session_exit : (session_id : String) (exit_code : ℤ) → Message
  file_upload_start : (request_id path : String) (total_size : ℕ) (mode : Option ℕ) → Message
  file_upload_chunk : (request_id : String) (bytes : Bytes) (offset : ℕ) → Message
  file_upload_complete : (request_id : String) (success : Bool) (error : Option String) → Message
  file_download_start : (request_id path : String) → Message
  file_download_chunk :
      (request_id : String) (bytes : Bytes) (offset : ℕ) (is_last : Bool) → Message
  file_download_error : (request_id error : String) → Message
  create_snapshot :
      (request_id workspace : String) (message : Option String) (tags : Option (List String))
      → Message
  snapshot_created : (request_id snapshot_id : String) (file_count total_size : ℕ) → Message
  restore_snapshot : (request_id snapshot_id destination : String) → Message
  snapshot_restored : (request_id : String) (file_count : ℕ) → Message
  list_snapshots : (request_id : String) (tags : Option (List String)) → Message
  snapshot_list : (request_id : String) (snapshots : List SnapshotInfo) → Message
  find_snapshot_by_tag : (request_id tag : String) → Message
  get_snapshot : (request_id snapshot_id : String) → Message
  snapshot_details : (request_id : String) (snapshot : Option SnapshotInfo) → Message
  delete_snapshot : (request_id snapshot_id : String) → Message
  snapshot_deleted : (request_id : String) → Message
  snapshot_error : (request_id error : String) → Message
  error : (message : String) (recoverable : Bool) → Message
