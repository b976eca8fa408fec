-- ===== src/Server/Api/Leak.antt =====
-- What a request that fails leaves on the connection.
use sand_d.Prelude.{
  Bool-cases, ℕ, String, Option, List, true, false, some, ◌≡◌, refl, inl, inr, arith,
}
use sand_d.Prelude.Text.{append}
use sand_d.Prelude.Dict.{Dict, lookup, insert, lookup-insert_self}
use sand_d.Protocol.{Message, SnapshotInfo}
use sand_d.Server.Connection.{DaemonConnection, register_request, is_busy}
use sand_d.Server.Handler.Laws.{IsReachable}
use sand_d.Server.Api.{
  PyResult, raised, runtime_error, timeout_error, Controller, Awaited, timed_out, Wait,
  send_message, on_conn, request, exec, command_result, or_no_env,
}
use sand_d.Server.Api.Snapshots.{
  create_snapshot, restore_snapshot, list_snapshots, find_snapshot_by_tag, get_snapshot,
  delete_snapshot, created_result, restored_result, list_result, find_result, get_result,
  deleted_result,
}
use sand_d.Server.Api.EndToEnd.{find_conn-IsReachable, on_conn-IsReachable, request-sent}

-- The request is still pending on the connection that the daemon is reachable by, which is busy.
abbrev pub IsLeaked : (s : Controller) (id request_id : String) (arc tx : ℕ) → Type 0
IsLeaked s id request_id arc tx =
    (c : DaemonConnection) × IsReachable s.world id arc c
    × (lookup request_id c.pending_requests ≡ some tx)
    × (is_busy c ≡ true)

register_request-IsLeaked :
    (s : Controller) (id request_id : String) (tx : ℕ) {arc : ℕ} {c : DaemonConnection}
    → IsReachable s.world id arc c
    → IsLeaked (on_conn arc (register_request request_id tx) s) id request_id arc tx
unfolding register_request is_busy insert
register_request-IsLeaked s id request_id tx {arc} {c} reach = (
  register_request request_id tx c,
  on_conn-IsReachable (register_request request_id tx) s id reach,
  lookup-insert_self request_id tx c.pending_requests,
  refl,
)

send_message-shut :
    (c : DaemonConnection) (m : Message) (s : Controller)
    → s.is_closed c.request_tx ≡ true
    → send_message c m s ≡ (some "Daemon channel closed", s)
unfolding send_message
send_message-shut c m s shut = rw (send_message, shut) refl

request-refused {ℓ} :
    {A : Type ℓ} (id request_id : String) (tx secs : ℕ) (context : String) (m : Message)
    (finish : Awaited → PyResult A) (wait : Wait) (s : Controller) {arc : ℕ} {c : DaemonConnection}
    → IsReachable s.world id arc c
    → s.is_closed c.request_tx ≡ true
    → request id request_id tx secs context m finish wait s ≡ (
      raised (runtime_error (append context "Daemon channel closed")),
      on_conn arc (register_request request_id tx) s,
    )
unfolding request
request-refused id request_id tx secs context m finish wait s {arc} {c} reach shut =
    rw
      (
        request,
        find_conn-IsReachable s id reach,
        send_message-shut c m (on_conn arc (register_request request_id tx) s) shut,
      )
      refl

-- What a request yields that gets no response, or that cannot be sent, and that it is left pending.
request-IsLeaked {ℓ} :
    {A : Type ℓ} (id request_id : String) (tx secs : ℕ) (context : String) (m : Message)
    (finish : Awaited → PyResult A) (s : Controller) {arc : ℕ} {c : DaemonConnection}
    → IsReachable s.world id arc c
    → let (a, t) = request id request_id tx secs context m finish (λ _ u. (timed_out, u)) s in
      IsLeaked t id request_id arc tx
      × (s.is_closed c.request_tx ≡ false → a ≡ finish timed_out)
      × (s.is_closed c.request_tx ≡ true
          → a ≡ raised (runtime_error (append context "Daemon channel closed")))
request-IsLeaked id request_id tx secs context m finish s {arc} {c} reach =
    let (c', there, pending, busy) = register_request-IsLeaked s id request_id tx reach in
    elim (Bool-cases (s.is_closed c.request_tx)) [
      | inl shut ↦
          rw
            (request-refused id request_id tx secs context m finish (λ _ u. (timed_out, u)) s reach
              shut)
            ((c', there, pending, busy), λ o. absurd (ground (arith, shut)), λ _. refl)
      | inr opened ↦
          rw
            (request-sent id request_id tx secs context m finish (λ _ u. (timed_out, u)) s reach
              opened)
            (
              (c', record { entry = there.entry; found = there.found }, pending, busy),
              λ _. refl,
              λ o. absurd (ground (arith, opened)),
            )
    ]

-- No response comes in time, and nothing else happens meanwhile.
abbrev pub never : Wait
never secs s = (timed_out, s)

-- The request is leaked, and the method raises a TimeoutError if its message could be sent, and a
-- RuntimeError otherwise.
abbrev pub Leaks {ℓ} :
    {A : Type ℓ}
    → (Controller → PyResult A × Controller)
    → (s : Controller) (id request_id : String) (arc tx channel : ℕ) (late context : String)
    → Type ℓ
Leaks method s id request_id arc tx channel late context =
    let (a, t) = method s in
    IsLeaked t id request_id arc tx
    × (s.is_closed channel ≡ false → a ≡ raised (timeout_error late))
    × (s.is_closed channel ≡ true
        → a ≡ raised (runtime_error (append context "Daemon channel closed")))

-- Each method that waits for a response of a daemon, if no response comes in time, while nothing
-- else happens, raises its TimeoutError, and if its message cannot be sent, a RuntimeError; and both
-- times its request stays pending, so that the daemon counts as busy.
pub methods-IsLeaked {ℓ} :
    {PyObject : Type ℓ} (pythonize : SnapshotInfo → PyResult PyObject) (id own arg path : String)
    (timeout tx : ℕ) (vars : Option (Dict String)) (cwd message : Option String)
    (tags : Option (List String)) (s : Controller) {arc : ℕ} {c : DaemonConnection}
    → IsReachable s.world id arc c
    → let ch = c.request_tx in
      Leaks
        (exec id arg timeout vars cwd own tx never)
        s
        id
        own
        arc
        tx
        ch
        "Command execution timed out"
        "Failed to send command: "
      × Leaks
          (create_snapshot id path message tags own tx never)
          s
          id
          own
          arc
          tx
          ch
          "Snapshot creation timed out"
          "Failed to send snapshot request: "
      × Leaks
          (restore_snapshot id arg path own tx never)
          s
          id
          own
          arc
          tx
          ch
          "Restore timed out"
          "Failed to send restore request: "
      × Leaks
          (list_snapshots pythonize id tags own tx never)
          s
          id
          own
          arc
          tx
          ch
          "List timed out"
          "Failed to send list request: "
      × Leaks
          (find_snapshot_by_tag pythonize id arg own tx never)
          s
          id
          own
          arc
          tx
          ch
          "Find timed out"
          "Failed to send find request: "
      × Leaks
          (get_snapshot pythonize id arg own tx never)
          s
          id
          own
          arc
          tx
          ch
          "Get timed out"
          "Failed to send get request: "
      × Leaks
          (delete_snapshot id arg own tx never)
          s
          id
          own
          arc
          tx
          ch
          "Delete timed out"
          "Failed to send delete request: "
unfolding exec create_snapshot restore_snapshot list_snapshots find_snapshot_by_tag get_snapshot
    delete_snapshot command_result created_result restored_result list_result find_result get_result
    deleted_result
methods-IsLeaked pythonize id own arg path timeout tx vars cwd message tags s reach = (
  request-IsLeaked id own tx timeout "Failed to send command: "
      (Message.execute_command own arg timeout (or_no_env vars) cwd) command_result s reach,
  request-IsLeaked id own tx 300 "Failed to send snapshot request: "
      (Message.create_snapshot own path message tags) created_result s reach,
  request-IsLeaked id own tx 300 "Failed to send restore request: "
      (Message.restore_snapshot own arg path) restored_result s reach,
  request-IsLeaked id own tx 60 "Failed to send list request: " (Message.list_snapshots own tags)
      (list_result pythonize) s reach,
  request-IsLeaked id own tx 60 "Failed to send find request: "
      (Message.find_snapshot_by_tag own arg) (find_result pythonize) s reach,
  request-IsLeaked id own tx 60 "Failed to send get request: " (Message.get_snapshot own arg)
      (get_result pythonize) s reach,
  request-IsLeaked id own tx 60 "Failed to send delete request: " (Message.delete_snapshot own arg)
      deleted_result s reach,
)
