-- ===== src/Daemon/Messages.antt =====
-- sandd/src/main.rs, `handle_message`: what the daemon does with each message and what it answers.
-- What the operating system answers while one message is handled is the record `Environment`; a send
-- on the WebSocket takes one entry of `sends` and succeeds where there is none.
pub mod Answers
pub mod Invariant
pub mod Lost
pub mod Storage
pub mod Survival
use sand_d.Prelude.{ℕ, String, Bool, true, false, Option, none, some, List, [], ◌∷◌, Bytes}
use sand_d.Protocol.{Message, SnapshotInfo}
use sand_d.Snapshot.Types.{Result, ok, err, SnapshotError, SystemTime, Encoding}
use sand_d.Snapshot.Disk.{Disk}
use sand_d.Snapshot.ObjectStore.{Blake3}
use sand_d.Snapshot.Workspace.{Meta, Node, Entries}
use sand_d.Snapshot.Manager
use sand_d.Snapshot.Manager.{
  create_snapshot, restore_snapshot, list_snapshots, find_snapshot_by_tag, delete_snapshot,
}
use sand_d.Daemon.Download.{chunk_size, download}
use sand_d.Daemon.Executor
use sand_d.Daemon.Executor.{Child, Execution, execute}
use sand_d.Daemon.Sessions
use sand_d.Daemon.Sessions.{
  SessionManager, PtySystem, Done, done, send_input, resize, close_session,
}

-- What the handlers of all messages share: the sessions and the directory of the snapshots.
pub record Daemon : Type 0 where
  pub sessions : SessionManager
  pub disk : Disk

pub record Environment : Type 0 where
  pub sends : List Bool
  pub child : Child
  pub elapsed : ℕ
  pub pty : ℕ
  pub system : PtySystem
  pub write_error : Option String
  pub flush_error : Option String
  pub resize_error : Option String
  pub content : Option Bytes
  pub read_error : String
  pub now : SystemTime
  pub fresh_id : String
  pub workspace : Entries
  pub there : Option Node

-- What the handler wrote, whether it ended in `Ok`, what stands at the destination of a restored
-- snapshot, and the state it leaves.
pub record Handled : Type 0 where
  pub written : List Message
  pub finished : Bool
  pub restored : Option Node
  pub daemon : Daemon

abbrev pub next_send : List Bool → Bool × List Bool
next_send [] = (true, [])
next_send (b ∷ bs) = (b, bs)

unfoldable pub execution_message : (request_id : String) → Execution → Message
execution_message request_id (Execution.completed o) =
    Message.command_output request_id o.stdout o.stderr o.exit_code o.duration_ms
execution_message request_id (Execution.failed e) = Message.command_error request_id e

unfoldable pub started_message : (session_id : String) → Done → Message
started_message session_id done = Message.session_started session_id true none
started_message session_id (Done.failed e) = Message.session_started session_id false (some e)

-- A message that is written before others, unless it has no JSON or its write fails.
abbrev pub send_first : Message → Option String → Bool → List Message × Bool → List Message × Bool
send_first m none b later = ([], false)
send_first m (some _) false later = ([], false)
send_first m (some _) true (written, finished) = (m ∷ written, finished)

module _ (to_string : Message → Option String) where
  -- Messages that are written one by one; the first failure ends the handler.
  unfoldable pub send_all : List Message → List Bool → List Message × Bool
  send_all [] sends = ([], true)
  send_all (m ∷ ms) sends =
      let (b, later) = next_send sends in send_first m (to_string m) b (send_all ms later)

  unfoldable pub respond_all : List Message → List Bool → Daemon → Handled
  unfolding send_all
  respond_all ms sends d =
      let (written, finished) = send_all ms sends in
      record { written = written; finished = finished; restored = none; daemon = d }

  abbrev pub respond : Message → List Bool → Daemon → Handled
  respond m sends d = respond_all (m ∷ []) sends d

  -- A handler that ends without a word, in `Ok` or by `?`.
  abbrev pub quiet : (finished : Bool) → Daemon → Handled
  quiet finished d = record { written = []; finished = finished; restored = none; daemon = d }

  -- The answer to a request of the snapshot manager.
  unfoldable pub answer :
      {A : Type 0}
      → (request_id : String) → (SnapshotError → String)
      → (A → Message)
      → List Bool
      → Daemon
      → Result A × Disk
      → Handled
  answer request_id show reply sends d (ok a, disk) =
      respond (reply a) sends (record d { disk = disk })
  answer request_id show reply sends d (err e, disk) =
      respond (Message.snapshot_error request_id (show e)) sends (record d { disk = disk })

  module _ (show : SnapshotError → String) (E : Encoding) (trim : String → String) where
    -- After a success the handler reads the snapshot's metadata, and an error of that ends it.
    unfoldable pub answer_about :
        (snapshot_id : String) → (SnapshotInfo → Message) → List Bool → Daemon → Handled
    answer_about snapshot_id reply sends d =
        let (r, disk) = Manager.get_snapshot E trim snapshot_id d.disk in
        let after = record d { disk = disk } in
        elim r [ err _ ↦ quiet false after | ok info ↦ respond (reply info) sends after ]

    unfoldable pub on_created :
        (request_id : String) → List Bool → Daemon → Result String × Disk → Handled
    unfolding answer_about
    on_created request_id sends d (err e, disk) =
        respond (Message.snapshot_error request_id (show e)) sends (record d { disk = disk })
    on_created request_id sends d (ok snapshot_id, disk) =
        answer_about snapshot_id
          (λ s. Message.snapshot_created request_id snapshot_id s.file_count s.total_size) sends
          (record d { disk = disk })

    unfoldable pub on_restored :
        (request_id snapshot_id : String) → List Bool → Daemon → Result Node × Disk → Handled
    unfolding answer_about
    on_restored request_id snapshot_id sends d (err e, disk) =
        respond (Message.snapshot_error request_id (show e)) sends (record d { disk = disk })
    on_restored request_id snapshot_id sends d (ok node, disk) =
        record (answer_about snapshot_id (λ s. Message.snapshot_restored request_id s.file_count)
          sends (record d { disk = disk })) { restored = some node }

    module _ (B : Blake3) (reads : Bytes → List Bytes) (target_is_dir : String → String → Bool)
        (fresh : Meta) (fuel : ℕ) where
      -- The handlers of the sessions. The errors of the last three are logged.
      unfoldable pub handle_session : Environment → Message → Daemon → Handled
      unfolding started_message
      handle_session env (Message.new_session session_id rows cols term) d =
          let (r, m) = Sessions.new_session session_id rows cols env.pty env.system d.sessions in
          respond (started_message session_id r) env.sends (record d { sessions = m })
      handle_session env (Message.session_input session_id data_bytes) d = quiet true (record d {
        sessions = (send_input session_id data_bytes env.write_error env.flush_error d.sessions).1;
      })
      handle_session env (Message.session_resize session_id rows cols) d =
          quiet true
            (record d { sessions = (resize session_id rows cols env.resize_error d.sessions).1 })
      handle_session env (Message.session_close session_id) d =
          quiet true (record d { sessions = close_session session_id d.sessions })
      handle_session env _ d = quiet true d

      unfoldable pub handle_snapshot : Environment → Message → Daemon → Handled
      unfolding on_created on_restored answer
      handle_snapshot env (Message.create_snapshot request_id workspace message tags) d =
          on_created request_id env.sends d (
            create_snapshot B E reads target_is_dir fresh env.now env.fresh_id workspace
              env.workspace message tags d.disk)
      handle_snapshot env (Message.restore_snapshot request_id snapshot_id destination) d =
          on_restored request_id snapshot_id env.sends d (
            restore_snapshot B E reads target_is_dir fresh trim fuel snapshot_id destination
              env.there d.disk)
      handle_snapshot env (Message.list_snapshots request_id tags) d =
          answer request_id show (Message.snapshot_list request_id) env.sends d
            (list_snapshots E trim tags d.disk)
      handle_snapshot env (Message.find_snapshot_by_tag request_id tag) d =
          answer request_id show (Message.snapshot_details request_id) env.sends d
            (find_snapshot_by_tag E trim tag d.disk)
      handle_snapshot env (Message.get_snapshot request_id snapshot_id) d =
          answer request_id show (λ info. Message.snapshot_details request_id (some info)) env.sends
            d (Manager.get_snapshot E trim snapshot_id d.disk)
      handle_snapshot env (Message.delete_snapshot request_id snapshot_id) d =
          answer request_id show (λ _. Message.snapshot_deleted request_id) env.sends d
            (delete_snapshot E trim snapshot_id d.disk)
      handle_snapshot env _ d = quiet true d

      -- Uploads are only logged; messages that are not for a daemon are ignored.
      unfoldable pub handle_message : Environment → Message → Daemon → Handled
      unfolding handle_session handle_snapshot execution_message execute
      handle_message env (Message.execute_command request_id command timeout_secs vars cwd) d =
          respond (execution_message request_id (execute timeout_secs env.elapsed env.child))
            env.sends d
      handle_message env (Message.new_session session_id rows cols term) d =
          handle_session env (Message.new_session session_id rows cols term) d
      handle_message env (Message.session_input session_id data_bytes) d =
          handle_session env (Message.session_input session_id data_bytes) d
      handle_message env (Message.session_resize session_id rows cols) d =
          handle_session env (Message.session_resize session_id rows cols) d
      handle_message env (Message.session_close session_id) d =
          handle_session env (Message.session_close session_id) d
      handle_message env (Message.file_upload_start _ _ _ _) d = quiet true d
      handle_message env (Message.file_upload_chunk _ _ _) d = quiet true d
      handle_message env (Message.file_download_start request_id path) d =
          respond_all (download chunk_size request_id env.read_error env.content) env.sends d
      handle_message env m d = handle_snapshot env m d
