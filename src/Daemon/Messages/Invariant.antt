-- ===== src/Daemon/Messages/Invariant.antt =====
-- Which sessions there are after a message, and what a download writes when the
-- connection breaks.
use sand_d.Prelude.{
  flatten-append, ℕ, String, Bool, true, false, Option, none, some, List, [], ◌∷◌, ◌++◌, ◌≡◌, refl,
  ◌==◌, if◌then◌else◌, inl, inr, Bytes, flatten, sym, ap, ◌∙◌, arith,
}
use sand_d.Prelude.Dict.{lookup, lookup-insert, lookup-remove}
use sand_d.Protocol.{Message, SnapshotInfo}
use sand_d.Snapshot.Types.{SnapshotError, Encoding, Result, ok, err}
use sand_d.Snapshot.Disk.{Disk}
use sand_d.Snapshot.ObjectStore.{Blake3}
use sand_d.Snapshot.Workspace.{Meta, Node}
use sand_d.Daemon.Download.{chunk_size, download}
use sand_d.Daemon.Download.Laws.{payloads, flatten-payloads-download, payloads-append}
use sand_d.Daemon.Sessions.{SessionManager, send_input, resize, close_session, opened}
use sand_d.Daemon.Sessions.Laws.{
  IsOpening, opened-IsOpening, opened_done, Done-cases, new_session-opened, new_session-refused,
}
use sand_d.Daemon.Messages.{
  Daemon, Environment, Handled, send_first, send_all, respond_all, answer, answer_about, on_created,
  on_restored, handle_session, handle_snapshot, handle_message,
}

-- Input and a resize change no entry of the sessions.
send_input-sessions :
    (session_id : String) (data_bytes : Bytes) (write_error flush_error : Option String)
    (m : SessionManager)
    → (send_input session_id data_bytes write_error flush_error m).1.sessions ≡ m.sessions
unfolding send_input
send_input-sessions session_id data_bytes write_error flush_error m = ground arith

resize-sessions :
    (session_id : String) (rows cols : ℕ) (resize_error : Option String) (m : SessionManager)
    → (resize session_id rows cols resize_error m).1.sessions ≡ m.sessions
unfolding resize
resize-sessions session_id rows cols resize_error m = ground arith

-- Messages that neither start nor close a session.
abbrev pub leaves_sessions : Message → Bool
leaves_sessions (Message.new_session _ _ _ _) = false
leaves_sessions (Message.session_close _) = false
leaves_sessions _ = true

abbrev pub IsPrefix : List Message × Bool → List Message → Type 0
IsPrefix r ms = (rest : List Message) × (r.0 ++ rest ≡ ms) × (r.1 ≡ true → rest ≡ [])

send_first-IsPrefix :
    (m : Message) (ms : List Message) (json : Option String) (b : Bool) (r : List Message × Bool)
    → IsPrefix r ms
    → IsPrefix (send_first m json b r) (m ∷ ms)
send_first-IsPrefix m ms none b r p = (m ∷ ms, refl, λ f. absurd (cc))
send_first-IsPrefix m ms (some _) false r p = (m ∷ ms, refl, λ f. absurd (cc))
send_first-IsPrefix m ms (some _) true r (rest, e, whole) = (rest, ap (◌∷◌ m) e, whole)

module _ (to_string : Message → Option String) where
  answer-sessions :
      {A : Type 0} (own : String) (show : SnapshotError → String) (reply : A → Message)
      (sends : List Bool) (d : Daemon) (r : Result A × Disk)
      → (answer to_string own show reply sends d r).daemon.sessions ≡ d.sessions
  unfolding answer respond_all
  answer-sessions own show reply sends d (ok a, disk) = refl
  answer-sessions own show reply sends d (err e, disk) = refl

  -- What a write schedule lets through of a list of messages is a first part of it, and all of it if
  -- the handler finished.
  pub send_all-prefix :
      (ms : List Message) (sends : List Bool) → IsPrefix (send_all to_string ms sends) ms
  unfolding send_all
  send_all-prefix [] sends = ([], refl, λ _. refl)
  send_all-prefix (m ∷ ms) [] =
      send_first-IsPrefix m ms (to_string m) true (send_all to_string ms []) (send_all-prefix ms [])
  send_all-prefix (m ∷ ms) (b ∷ bs) =
      send_first-IsPrefix m ms (to_string m) b (send_all to_string ms bs) (send_all-prefix ms bs)

  module _ (show : SnapshotError → String) (E : Encoding) (trim : String → String) where
    answer_about-sessions :
        (snapshot_id : String) (reply : SnapshotInfo → Message) (sends : List Bool) (d : Daemon)
        → (answer_about to_string show E trim snapshot_id reply sends d).daemon.sessions
          ≡ d.sessions
    unfolding answer_about respond_all
    answer_about-sessions snapshot_id reply sends d = ground arith

    on_created-sessions :
        (own : String) (sends : List Bool) (d : Daemon) (r : Result String × Disk)
        → (on_created to_string show E trim own sends d r).daemon.sessions ≡ d.sessions
    unfolding on_created respond_all
    on_created-sessions own sends d (err e, disk) = refl
    on_created-sessions own sends d (ok id, disk) =
        answer_about-sessions id (λ s. Message.snapshot_created own id s.file_count s.total_size)
          sends (record d { disk = disk })

    on_restored-sessions :
        (own id : String) (sends : List Bool) (d : Daemon) (r : Result Node × Disk)
        → (on_restored to_string show E trim own id sends d r).daemon.sessions ≡ d.sessions
    unfolding on_restored respond_all
    on_restored-sessions own id sends d (err e, disk) = refl
    on_restored-sessions own id sends d (ok node, disk) =
        answer_about-sessions id (λ s. Message.snapshot_restored own s.file_count) sends
          (record d { disk = disk })

    module _ (B : Blake3) (reads : Bytes → List Bytes) (target_is_dir : String → String → Bool)
        (fresh : Meta) (fuel : ℕ) where
      abbrev handled : Environment → Message → Daemon → Handled
      handled env m d =
          handle_message to_string show E trim B reads target_is_dir fresh fuel env m d

      handle_message-keeps :
          (env : Environment) (m : Message) (d : Daemon)
          → leaves_sessions m ≡ true
          → (handled env m d).daemon.sessions.sessions ≡ d.sessions.sessions
      unfolding handle_message handle_session handle_snapshot respond_all
      handle_message-keeps env (Message.new_session id rows cols term) d h = absurd (cc)
      handle_message-keeps env (Message.session_close id) d h = absurd (cc)
      handle_message-keeps env (Message.session_input id data_bytes) d h =
          send_input-sessions id data_bytes env.write_error env.flush_error d.sessions
      handle_message-keeps env (Message.session_resize id rows cols) d h =
          resize-sessions id rows cols env.resize_error d.sessions
      handle_message-keeps env (Message.create_snapshot own _ _ _) d h =
          ap (λ m. m.sessions) (on_created-sessions own env.sends d _)
      handle_message-keeps env (Message.restore_snapshot own id _) d h =
          ap (λ m. m.sessions) (on_restored-sessions own id env.sends d _)
      handle_message-keeps env (Message.list_snapshots own _) d h =
          ap (λ m. m.sessions) (answer-sessions own show _ env.sends d _)
      handle_message-keeps env (Message.find_snapshot_by_tag own _) d h =
          ap (λ m. m.sessions) (answer-sessions own show _ env.sends d _)
      handle_message-keeps env (Message.get_snapshot own _) d h =
          ap (λ m. m.sessions) (answer-sessions own show _ env.sends d _)
      handle_message-keeps env (Message.delete_snapshot own _) d h =
          ap (λ m. m.sessions) (answer-sessions own show _ env.sends d _)
      handle_message-keeps env m d h = refl

      -- Which sessions there are after a message: one that is started is there, with the new
      -- terminal, if every step that makes a terminal succeeds, and otherwise the sessions are as
      -- before; one that is closed is gone; all other sessions are as before, and so are all of them
      -- after any other message, whatever fails.
      pub handle_message-sessions :
          (env : Environment) (id j term : String) (rows cols : ℕ) (d : Daemon)
          → let opening = handled env (Message.new_session id rows cols term) d in
            (IsOpening env.system
              → lookup j opening.daemon.sessions.sessions ≡ (
                  if id == j
                  then some (record { session_id = id; writer = env.pty; master = env.pty })
                  else lookup j d.sessions.sessions))
            × ((IsOpening env.system → ⊥) → opening.daemon.sessions.sessions ≡ d.sessions.sessions)
            × (lookup j (handled env (Message.session_close id) d).daemon.sessions.sessions
                ≡ (if id == j then none else lookup j d.sessions.sessions))
            × ((m : Message)
                → leaves_sessions m ≡ true
                → (handled env m d).daemon.sessions.sessions ≡ d.sessions.sessions)
      unfolding handle_message handle_session respond_all close_session
      handle_message-sessions env id j term rows cols d = (
        λ o.
            rw
              (new_session-opened id rows cols env.pty env.system d.sessions
                (opened-IsOpening env.system o))
              (lookup-insert id j _ d.sessions.sessions),
        λ n. elim (Done-cases (opened env.system)) [
          | inl o ↦ absurd (n (opened_done env.system o))
          | inr (e, o) ↦ rw (new_session-refused id rows cols env.pty env.system d.sessions o) refl
        ],
        lookup-remove id j d.sessions.sessions,
        λ m h. handle_message-keeps env m d h,
      )

      -- Whatever fails while a file is sent, the bytes that were written are a first part of the
      -- file, and the whole of it if the handler ended without an error.
      pub handle_message-download :
          (env : Environment) (own path : String) (content : Bytes) (d : Daemon)
          → env.content ≡ some content
          → let h = handled env (Message.file_download_start own path) d in
            (rest : Bytes) × (flatten (payloads h.written) ++ rest ≡ content)
            × (h.finished ≡ true → rest ≡ [])
      unfolding handle_message respond_all
      handle_message-download env own path content d e =
          let (rest, parts, whole) =
            send_all-prefix (download chunk_size own env.read_error env.content) env.sends in
          let written =
            (send_all to_string (download chunk_size own env.read_error env.content) env.sends).0 in
          (
            flatten (payloads rest),
            sym (flatten-append (payloads written) (payloads rest))
                ∙ ap flatten (sym (payloads-append written rest) ∙ ap payloads parts)
                ∙ ap (λ c. flatten (payloads (download chunk_size own env.read_error c))) e
                ∙ flatten-payloads-download chunk_size own env.read_error content (omega arith),
            λ f. ap (λ ms. flatten (payloads ms)) (whole f),
          )
