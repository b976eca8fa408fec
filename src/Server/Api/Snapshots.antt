-- ===== src/Server/Api/Snapshots.antt =====
-- server/src/python.rs: the methods of `Server` about snapshots. `pythonize` makes a Python object
-- of a snapshot's metadata.
use sand_d.Prelude.{ℕ, String, Option, none, some, List, [], ◌∷◌}
use sand_d.Prelude.Text.{append}
use sand_d.Protocol.{Message, SnapshotInfo}
use sand_d.Server.Api.{
  PyResult, returned, raised, runtime_error, timeout_error, Controller, Awaited, received,
  channel_closed, timed_out, Wait, request,
}

unfoldable pub created_result : Awaited → PyResult String
created_result (received (Message.snapshot_created _ snapshot_id _ _)) = returned snapshot_id
created_result (received (Message.snapshot_error _ error)) =
    raised (runtime_error (append "Snapshot error: " error))
created_result (received _) = raised (runtime_error "Unexpected response type")
created_result channel_closed = raised (runtime_error "Snapshot channel closed")
created_result timed_out = raised (timeout_error "Snapshot creation timed out")

unfoldable pub create_snapshot :
    (daemon_id workspace : String)
    → (message : Option String) → (tags : Option (List String)) → (request_id : String) (tx : ℕ)
    → Wait
    → Controller
    → PyResult String × Controller
unfolding request created_result
create_snapshot daemon_id workspace message tags request_id tx wait s =
    request daemon_id request_id tx 300 "Failed to send snapshot request: "
      (Message.create_snapshot request_id workspace message tags) created_result wait s

unfoldable pub restored_result : Awaited → PyResult ℕ
restored_result (received (Message.snapshot_restored _ file_count)) = returned file_count
restored_result (received (Message.snapshot_error _ error)) =
    raised (runtime_error (append "Restore error: " error))
restored_result (received _) = raised (runtime_error "Unexpected response type")
restored_result channel_closed = raised (runtime_error "Restore channel closed")
restored_result timed_out = raised (timeout_error "Restore timed out")

unfoldable pub restore_snapshot :
    (daemon_id snapshot_id destination request_id : String) (tx : ℕ)
    → Wait
    → Controller
    → PyResult ℕ × Controller
unfolding request restored_result
restore_snapshot daemon_id snapshot_id destination request_id tx wait s =
    request daemon_id request_id tx 300 "Failed to send restore request: "
      (Message.restore_snapshot request_id snapshot_id destination) restored_result wait s

unfoldable pub deleted_result : Awaited → PyResult (Unit {0})
deleted_result (received (Message.snapshot_deleted _)) = returned tt
deleted_result (received (Message.snapshot_error _ error)) =
    raised (runtime_error (append "Delete error: " error))
deleted_result (received _) = raised (runtime_error "Unexpected response type")
deleted_result channel_closed = raised (runtime_error "Delete channel closed")
deleted_result timed_out = raised (timeout_error "Delete timed out")

unfoldable pub delete_snapshot :
    (daemon_id snapshot_id request_id : String) (tx : ℕ)
    → Wait
    → Controller
    → PyResult (Unit {0}) × Controller
unfolding request deleted_result
delete_snapshot daemon_id snapshot_id request_id tx wait s =
    request daemon_id request_id tx 60 "Failed to send delete request: "
      (Message.delete_snapshot request_id snapshot_id) deleted_result wait s

module _ {ℓ} {PyObject : Type ℓ} (pythonize : SnapshotInfo → PyResult PyObject) where
  abbrev cons_result : PyResult PyObject → PyResult (List PyObject) → PyResult (List PyObject)
  cons_result (raised e) rest = raised e
  cons_result (returned o) (raised e) = raised e
  cons_result (returned o) (returned os) = returned (o ∷ os)

  -- `.map(pythonize).collect()`: the first error, or all the objects.
  unfoldable pub pythonize_all : List SnapshotInfo → PyResult (List PyObject)
  pythonize_all [] = returned []
  pythonize_all (s ∷ ss) = cons_result (pythonize s) (pythonize_all ss)

  unfoldable pub list_result : Awaited → PyResult (List PyObject)
  unfolding pythonize_all
  list_result (received (Message.snapshot_list _ snapshots)) = pythonize_all snapshots
  list_result (received (Message.snapshot_error _ error)) =
      raised (runtime_error (append "List error: " error))
  list_result (received _) = raised (runtime_error "Unexpected response type")
  list_result channel_closed = raised (runtime_error "List channel closed")
  list_result timed_out = raised (timeout_error "List timed out")

  unfoldable pub list_snapshots :
      (daemon_id : String)
      → (tags : Option (List String)) → (request_id : String) (tx : ℕ) → Wait
      → Controller
      → PyResult (List PyObject) × Controller
  unfolding request list_result
  list_snapshots daemon_id tags request_id tx wait s =
      request daemon_id request_id tx 60 "Failed to send list request: "
        (Message.list_snapshots request_id tags) list_result wait s

  abbrev pub some_result : PyResult PyObject → PyResult (Option PyObject)
  some_result (raised e) = raised e
  some_result (returned o) = returned (some o)

  unfoldable pub find_result : Awaited → PyResult (Option PyObject)
  find_result (received (Message.snapshot_details _ none)) = returned none
  find_result (received (Message.snapshot_details _ (some snapshot))) =
      some_result (pythonize snapshot)
  find_result (received (Message.snapshot_error _ error)) =
      raised (runtime_error (append "Find error: " error))
  find_result (received _) = raised (runtime_error "Unexpected response type")
  find_result channel_closed = raised (runtime_error "Find channel closed")
  find_result timed_out = raised (timeout_error "Find timed out")

  unfoldable pub find_snapshot_by_tag :
      (daemon_id tag request_id : String) (tx : ℕ)
      → Wait
      → Controller
      → PyResult (Option PyObject) × Controller
  unfolding request find_result
  find_snapshot_by_tag daemon_id tag request_id tx wait s =
      request daemon_id request_id tx 60 "Failed to send find request: "
        (Message.find_snapshot_by_tag request_id tag) find_result wait s

  unfoldable pub get_result : Awaited → PyResult (Option PyObject)
  get_result (received (Message.snapshot_details _ (some snapshot))) =
      some_result (pythonize snapshot)
  get_result (received (Message.snapshot_details _ none)) = returned none
  get_result (received (Message.snapshot_error _ error)) =
      raised (runtime_error (append "Get error: " error))
  get_result (received _) = raised (runtime_error "Unexpected response type")
  get_result channel_closed = raised (runtime_error "Get channel closed")
  get_result timed_out = raised (timeout_error "Get timed out")

  unfoldable pub get_snapshot :
      (daemon_id snapshot_id request_id : String) (tx : ℕ)
      → Wait
      → Controller
      → PyResult (Option PyObject) × Controller
  unfolding request get_result
  get_snapshot daemon_id snapshot_id request_id tx wait s =
      request daemon_id request_id tx 60 "Failed to send get request: "
        (Message.get_snapshot request_id snapshot_id) get_result wait s
