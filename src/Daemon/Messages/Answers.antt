-- ===== src/Daemon/Messages/Answers.antt =====
-- How the daemon answers a request, and how the answer reaches the caller that waits at the
-- controller.
use sand_d.Prelude.{
  ℕ, String, Bool, true, false, Option, none, some, List, [], ◌∷◌, ◌≡◌, ◌⊎◌, inl, inr, refl, Bytes,
}
use sand_d.Protocol.{Message, SnapshotInfo}
use sand_d.Server.Handler.{response_id}
use sand_d.Snapshot.Types.{Result, Result-cases, ok, err, SnapshotError, Encoding}
use sand_d.Snapshot.Disk.{Disk}
use sand_d.Snapshot.ObjectStore.{Blake3}
use sand_d.Snapshot.Workspace.{Meta, Node}
use sand_d.Snapshot.Manager
use sand_d.Daemon.Executor.{Execution, execute}
use sand_d.Daemon.Messages.{
  Daemon, Environment, Handled, execution_message, respond, respond_all, send_all, answer,
  answer_about, on_created, on_restored, handle_snapshot, handle_message,
}

-- The request id of a message that asks for a response.
unfoldable pub request_id_of : Message → Option String
request_id_of (Message.execute_command request_id _ _ _ _) = some request_id
request_id_of (Message.create_snapshot request_id _ _ _) = some request_id
request_id_of (Message.restore_snapshot request_id _ _) = some request_id
request_id_of (Message.list_snapshots request_id _) = some request_id
request_id_of (Message.find_snapshot_by_tag request_id _) = some request_id
request_id_of (Message.get_snapshot request_id _) = some request_id
request_id_of (Message.delete_snapshot request_id _) = some request_id
request_id_of _ = none

-- The requests whose success is followed by a look at the snapshot's metadata.
unfoldable pub looks_back : Message → Bool
looks_back (Message.create_snapshot _ _ _ _) = true
looks_back (Message.restore_snapshot _ _ _) = true
looks_back _ = false

-- Exactly one message was written, and it responds to the request.
abbrev pub IsAnswered : String → Handled → Type 0
IsAnswered request_id h =
    (r : Message) × (h.written ≡ r ∷ []) × (response_id r ≡ some request_id) × (h.finished ≡ true)

-- The handler ended in an error, without a word.
abbrev pub IsLost : Handled → Type 0
IsLost h = (h.written ≡ []) × (h.finished ≡ false)

execution_message-answers :
    (own request_id : String) (e : Execution)
    → some own ≡ some request_id
    → response_id (execution_message own e) ≡ some request_id
unfolding execution_message response_id
execution_message-answers own request_id (Execution.completed _) o = o
execution_message-answers own request_id (Execution.failed _) o = o

module _ (print : Message → String) where
  abbrev pub to_string : Message → Option String
  to_string m = some (print m)

  respond-IsAnswered :
      (request_id : String) (m : Message) (sends : List Bool) (d : Daemon)
      → sends ≡ []
      → response_id m ≡ some request_id
      → IsAnswered request_id (respond to_string m sends d)
  unfolding respond_all send_all
  respond-IsAnswered request_id m [] d e h = (m, refl, h, refl)
  respond-IsAnswered request_id m (b ∷ bs) d e h = absurd (cc)

  answer-IsAnswered :
      {A : Type 0} (own request_id : String) (show : SnapshotError → String) (reply : A → Message)
      (sends : List Bool) (d : Daemon) (r : Result A × Disk)
      → sends ≡ []
      → some own ≡ some request_id
      → ((a : A) → response_id (reply a) ≡ some request_id)
      → IsAnswered request_id (answer to_string own show reply sends d r)
  unfolding answer response_id
  answer-IsAnswered own request_id show reply sends d (ok a, disk) e o h =
      respond-IsAnswered request_id (reply a) sends (record d { disk = disk }) e (h a)
  answer-IsAnswered own request_id show reply sends d (err x, disk) e o h =
      respond-IsAnswered request_id (Message.snapshot_error own (show x)) sends
        (record d { disk = disk }) e o

  module _ (show : SnapshotError → String) (E : Encoding) (trim : String → String) where
    pub answer_about-IsLost :
        (snapshot_id : String) (reply : SnapshotInfo → Message) (sends : List Bool) (d : Daemon)
        {e : SnapshotError}
        → (Manager.get_snapshot E trim snapshot_id d.disk).0 ≡ err e
        → IsLost (answer_about to_string show E trim snapshot_id reply sends d)
    unfolding answer_about
    answer_about-IsLost snapshot_id reply sends d r =
        (rw (answer_about, r) refl, rw (answer_about, r) refl)

    answer_about-cases :
        (request_id snapshot_id : String) (reply : SnapshotInfo → Message) (sends : List Bool)
        (d : Daemon)
        → sends ≡ []
        → ((s : SnapshotInfo) → response_id (reply s) ≡ some request_id)
        → IsAnswered request_id (answer_about to_string show E trim snapshot_id reply sends d)
          ⊎ IsLost (answer_about to_string show E trim snapshot_id reply sends d)
    unfolding answer_about
    answer_about-cases request_id snapshot_id reply sends d e h =
        elim (Result-cases (Manager.get_snapshot E trim snapshot_id d.disk).0) [
          | inl (x, r) ↦ inr (answer_about-IsLost snapshot_id reply sends d r)
          | inr (s, r) ↦ inl (
              rw (answer_about, r)
                (respond-IsAnswered request_id (reply s) sends
                  (record d { disk = (Manager.get_snapshot E trim snapshot_id d.disk).1 }) e (h s)))
        ]

    on_created-cases :
        (own request_id : String) (sends : List Bool) (d : Daemon) (r : Result String × Disk)
        → sends ≡ []
        → some own ≡ some request_id
        → IsAnswered request_id (on_created to_string show E trim own sends d r)
          ⊎ IsLost (on_created to_string show E trim own sends d r)
    unfolding on_created response_id
    on_created-cases own request_id sends d (err x, disk) e o = inl (
        respond-IsAnswered request_id (Message.snapshot_error own (show x)) sends
          (record d { disk = disk }) e o)
    on_created-cases own request_id sends d (ok id, disk) e o =
        answer_about-cases request_id id
          (λ s. Message.snapshot_created own id s.file_count s.total_size) sends
          (record d { disk = disk }) e (λ s. o)

    on_restored-cases :
        (own request_id snapshot_id : String) (sends : List Bool) (d : Daemon)
        (r : Result Node × Disk)
        → sends ≡ []
        → some own ≡ some request_id
        → IsAnswered request_id (on_restored to_string show E trim own snapshot_id sends d r)
          ⊎ IsLost (on_restored to_string show E trim own snapshot_id sends d r)
    unfolding on_restored response_id
    on_restored-cases own request_id snapshot_id sends d (err x, disk) e o = inl (
        respond-IsAnswered request_id (Message.snapshot_error own (show x)) sends
          (record d { disk = disk }) e o)
    on_restored-cases own request_id snapshot_id sends d (ok node, disk) e o =
        answer_about-cases request_id snapshot_id (λ s. Message.snapshot_restored own s.file_count)
          sends (record d { disk = disk }) e (λ s. o)

    module _ (B : Blake3) (reads : Bytes → List Bytes) (target_is_dir : String → String → Bool)
        (fresh : Meta) (fuel : ℕ) where
      abbrev pub handled : Environment → Message → Daemon → Handled
      handled env m d =
          handle_message to_string show E trim B reads target_is_dir fresh fuel env m d

      -- If the daemon's writes succeed, it answers a request with exactly one message, which
      -- responds to that request, whatever fails on its disk or in the command; only the creation
      -- and the restoring of a snapshot can instead end in an error without an answer.
      pub handle_message_answers :
          (env : Environment) (m : Message) (d : Daemon) {request_id : String}
          → env.sends ≡ []
          → request_id_of m ≡ some request_id
          → IsAnswered request_id (handled env m d)
            ⊎ ((looks_back m ≡ true) × IsLost (handled env m d))
      unfolding handle_message handle_snapshot request_id_of looks_back response_id
      handle_message_answers env (Message.execute_command own _ timeout _ _) d {request_id} e h =
          inl (
            respond-IsAnswered request_id _ env.sends d e
              (execution_message-answers own request_id (execute timeout env.elapsed env.child) h))
      handle_message_answers env (Message.create_snapshot own path message tags) d {request_id} e
            h =
          elim (on_created-cases own request_id env.sends d _ e h) [
            | inl a ↦ inl a
            | inr l ↦ inr (refl, l)
          ]
      handle_message_answers env (Message.restore_snapshot own id dest) d {request_id} e h =
          elim (on_restored-cases own request_id id env.sends d _ e h) [
            | inl a ↦ inl a
            | inr l ↦ inr (refl, l)
          ]
      handle_message_answers env (Message.list_snapshots own tags) d {request_id} e h =
          inl (answer-IsAnswered own request_id show _ env.sends d _ e h (λ _. h))
      handle_message_answers env (Message.find_snapshot_by_tag own tag) d {request_id} e h =
          inl (answer-IsAnswered own request_id show _ env.sends d _ e h (λ _. h))
      handle_message_answers env (Message.get_snapshot own id) d {request_id} e h =
          inl (answer-IsAnswered own request_id show _ env.sends d _ e h (λ _. h))
      handle_message_answers env (Message.delete_snapshot own id) d {request_id} e h =
          inl (answer-IsAnswered own request_id show _ env.sends d _ e h (λ _. h))
      handle_message_answers env m d e h = absurd (cc)
