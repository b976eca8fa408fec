-- ===== src/Daemon/Sessions.antt =====
-- sandd/src/session.rs: the interactive sessions of a daemon. Pseudo terminals are those of
-- portable_pty: one is known by a number, and what its operations answer is an argument. What is
-- written to the terminals and their sizes stand in the state in the order of the calls.
pub mod Laws
pub mod Stream
use sand_d.Prelude.{
  ℕ, String, Bool, true, false, Option, none, some, List, [], ◌∷◌, ◌++◌, Bytes, pos,
}
use sand_d.Prelude.Dict.{Dict, lookup, insert, remove}
use sand_d.Prelude.Text.{append}
use sand_d.Protocol.{Message}

pub record SessionHandle : Type 0 where
  pub session_id : String
  pub writer : ℕ
  pub master : ℕ

pub record SessionManager : Type 0 where
  pub sessions : Dict SessionHandle
  pub inputs : List (ℕ × Bytes)
  pub sizes : List (ℕ × ℕ × ℕ)

abbrev pub no_sessions : SessionManager
no_sessions = record { sessions = []; inputs = []; sizes = [] }

-- The errors, if any, of the four steps that make a terminal with a shell.
pub record PtySystem : Type 0 where
  pub openpty : Option String
  pub try_clone_reader : Option String
  pub take_writer : Option String
  pub spawn_command : Option String

pub data Done : Type 0 where
  done : Done
  failed : (error : String) → Done

-- The first error of several steps, each with its context.
abbrev first_error : List (String × Option String) → Done
first_error [] = done
first_error ((context, some e) ∷ steps) = failed (append context e)
first_error ((context, none) ∷ steps) = first_error steps

unfoldable pub opened : PtySystem → Done
opened system = first_error (
    ("Failed to open PTY: ", system.openpty)
    ∷ ("Failed to get PTY reader: ", system.try_clone_reader)
    ∷ ("Failed to get PTY writer: ", system.take_writer)
    ∷ ("Failed to spawn session: ", system.spawn_command)
    ∷ [])

-- `pty` is the number of the new terminal.
unfoldable pub new_session :
    (session_id : String) (rows cols pty : ℕ) → PtySystem → SessionManager → Done × SessionManager
unfolding opened
new_session session_id rows cols pty system m = elim (opened system) [
  | failed e ↦ (failed e, m)
  | done ↦ (
    done,
    record m {
      sessions =
          insert session_id (record { session_id = session_id; writer = pty; master = pty })
            m.sessions;
      sizes = m.sizes ++ (pty, rows, cols) ∷ [];
    },
  )
]

-- What a read from a terminal yields; no bytes are its end.
pub data PtyRead : Type 0 where
  bytes : Bytes → PtyRead
  failed : PtyRead

abbrev pub output_message : (session_id : String) → Bytes → Message
output_message session_id data_bytes = Message.session_output session_id data_bytes

abbrev pub exit_message : (session_id : String) → Message
exit_message session_id = Message.session_exit session_id (pos 0)

module _ (to_string : Message → Option String) where
  -- `if let Ok(json)`: a message with no JSON is skipped.
  abbrev pub written_if : (sends : Bool) → Message → List Message
  written_if sends m = elim (to_string m) [
    | none ↦ []
    | some _ ↦ elim sends [ true ↦ m ∷ [] | false ↦ [] ]
  ]

  -- The task that reads a terminal: each read with whether the write after it succeeds. It gives
  -- the messages that were written.
  unfoldable pub read_loop : (session_id : String) → List (PtyRead × Bool) → List Message
  read_loop session_id [] = []
  read_loop session_id ((bytes [], sends) ∷ reads) = written_if sends (exit_message session_id)
  read_loop session_id ((bytes (b ∷ bs), sends) ∷ reads) =
      let rest = read_loop session_id reads in
      elim (to_string (output_message session_id (b ∷ bs))) [
        | none ↦ rest
        | some _ ↦ elim sends [ true ↦ output_message session_id (b ∷ bs) ∷ rest | false ↦ [] ]
      ]
  read_loop session_id ((failed, sends) ∷ reads) = []

-- `write_error` and `flush_error` are the errors of the terminal's writer. What a failed write has
-- written is not kept.
unfoldable pub send_input :
    (session_id : String)
    → Bytes
    → (write_error flush_error : Option String) → SessionManager
    → Done × SessionManager
send_input session_id data_bytes write_error flush_error m = elim (lookup session_id m.sessions) [
  | none ↦ (failed (append "Session not found: " session_id), m)
  | some session ↦ elim write_error [
    | some e ↦ (failed (append "Failed to write to PTY: " e), m)
    | none ↦ (
      elim flush_error [ some e ↦ failed (append "Failed to flush PTY writer: " e) | none ↦ done ],
      record m { inputs = m.inputs ++ (session.writer, data_bytes) ∷ [] },
    )
  ]
]

unfoldable pub resize :
    (session_id : String) (rows cols : ℕ)
    → (resize_error : Option String) → SessionManager
    → Done × SessionManager
resize session_id rows cols resize_error m = elim (lookup session_id m.sessions) [
  | none ↦ (failed (append "Session not found: " session_id), m)
  | some session ↦ elim resize_error [
    | some e ↦ (failed (append "Failed to resize PTY: " e), m)
    | none ↦ (done, record m { sizes = m.sizes ++ (session.master, rows, cols) ∷ [] })
  ]
]

unfoldable pub close_session : (session_id : String) → SessionManager → SessionManager
close_session session_id m = record m { sessions = remove session_id m.sessions }
