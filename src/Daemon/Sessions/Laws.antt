-- ===== src/Daemon/Sessions/Laws.antt =====
-- What the sessions of a daemon keep over the operations of their manager.
use sand_d.Prelude.{
  ℕ, String, Option, none, [], ◌∷◌, ◌++◌, ◌≡◌, ◌≢◌, ◌↔◌, ◌⊎◌, inl, inr, refl, Bytes, arith,
}
use sand_d.Prelude.Dict.{
  lookup, insert, lookup-insert_self, lookup-insert_ne, lookup-remove_self, lookup-remove_ne,
}
use sand_d.Prelude.Text.{append}
use sand_d.Daemon.Sessions.{
  SessionManager, PtySystem, Done, done, failed, opened, new_session, send_input, close_session,
}

-- Every step that makes a terminal succeeds.
pub record IsOpening (system : PtySystem) : Type 0 where
  pub opens : system.openpty ≡ none
  pub reads : system.try_clone_reader ≡ none
  pub writes : system.take_writer ≡ none
  pub spawns : system.spawn_command ≡ none

pub opened-IsOpening : (system : PtySystem) → IsOpening system → opened system ≡ done
unfolding opened
opened-IsOpening system h = rw (h.opens, h.reads, h.writes, h.spawns) refl

pub opened_done : (system : PtySystem) → opened system ≡ done → IsOpening system
unfolding opened
opened_done system h = ground arith

pub Done-cases : (r : Done) → (r ≡ done) ⊎ ((e : String) × (r ≡ failed e))
Done-cases done = inl refl
Done-cases (failed e) = inr (e, refl)

abbrev pub started : (session_id : String) (rows cols pty : ℕ) → SessionManager → SessionManager
started session_id rows cols pty m = record m {
  sessions =
      insert session_id (record { session_id = session_id; writer = pty; master = pty }) m.sessions;
  sizes = m.sizes ++ (pty, rows, cols) ∷ [];
}

pub new_session-opened :
    (session_id : String) (rows cols pty : ℕ) (system : PtySystem) (m : SessionManager)
    → opened system ≡ done
    → new_session session_id rows cols pty system m ≡ (done, started session_id rows cols pty m)
unfolding new_session
new_session-opened session_id rows cols pty system m o = rw (new_session, o) refl

pub new_session-refused :
    (session_id : String) (rows cols pty : ℕ) (system : PtySystem) (m : SessionManager) {e : String}
    → opened system ≡ failed e
    → new_session session_id rows cols pty system m ≡ (failed e, m)
unfolding new_session
new_session-refused session_id rows cols pty system m o = rw (new_session, o) refl

-- A session starts exactly if every step that makes its terminal succeeds. Then its input goes to
-- that terminal; otherwise the manager is as before. The other sessions are as before in both cases.
pub new_session_iff :
    (session_id : String) (rows cols pty : ℕ) (system : PtySystem) (m : SessionManager)
    → let (r, m') = new_session session_id rows cols pty system m in
      ((r ≡ done) ↔ IsOpening system)
      × ((e : String) → r ≡ failed e → m' ≡ m)
      × (r ≡ done
          → (data_bytes : Bytes)
          → send_input session_id data_bytes none none m'
            ≡ (done, record m' { inputs = m.inputs ++ (pty, data_bytes) ∷ [] }))
      × ((j : String) → session_id ≢ j → lookup j m'.sessions ≡ lookup j m.sessions)
unfolding send_input
new_session_iff session_id rows cols pty system m = elim (Done-cases (opened system)) [
  | inl o ↦ rw (new_session-opened session_id rows cols pty system m o) (
    (λ _. opened_done system o, λ _. refl),
    λ e f. absurd (ground arith),
    λ _ data_bytes.
        rw
          (
            send_input,
            lookup-insert_self session_id
                (record { session_id = session_id; writer = pty; master = pty }) m.sessions,
          )
          refl,
    λ j other. lookup-insert_ne session_id j _ m.sessions other,
  )
  | inr (e, o) ↦ rw (new_session-refused session_id rows cols pty system m o) (
    (λ r. absurd (ground arith), λ h. absurd (ground (arith, o, opened-IsOpening system h))),
    λ _ _. refl,
    λ r. absurd (ground arith),
    λ j other. refl,
  )
]

-- Closing a session takes away that session and no other: input to it is an error that leaves the
-- manager as it is, and the other sessions go on.
pub close_session_exact :
    (session_id : String) (data_bytes : Bytes) (write_error flush_error : Option String)
    (m : SessionManager)
    → let m' = close_session session_id m in
      (send_input session_id data_bytes write_error flush_error m'
        ≡ (failed (append "Session not found: " session_id), m'))
      × ((j : String) → session_id ≢ j → lookup j m'.sessions ≡ lookup j m.sessions)
unfolding close_session send_input
close_session_exact session_id data_bytes write_error flush_error m = (
  rw (send_input, lookup-remove_self session_id m.sessions) refl,
  λ j other. lookup-remove_ne session_id j m.sessions other,
)
