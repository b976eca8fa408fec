-- ===== src/Daemon/Executor.antt =====
-- sandd/src/executor.rs: `CommandExecutor::execute`. What the operating system does with the command
-- is a parameter: whether the shell starts, when it ends and with what. Times are in milliseconds.
-- An error is the text that `to_string` gives of it, the outermost context.
use sand_d.Prelude.{ℕ, ◌*◌, ◌%◌, String, Option, none, some, u64_mod, leb, if◌then◌else◌, ℤ, negsuc}

-- What a process leaves: its output as text, and its exit code, if it was not killed by a signal.
pub record Output : Type 0 where
  pub stdout : String
  pub stderr : String
  pub code : Option ℤ

-- A command that is started ends after `ended`, `none` if never; then waiting for it yields its
-- output, or fails.
pub data Child : Type 0 where
  not_spawned : Child
  running : (ended : Option ℕ) (output : Option Output) → Child

pub record CommandOutput : Type 0 where
  pub stdout : String
  pub stderr : String
  pub exit_code : ℤ
  pub duration_ms : ℕ

pub data Execution : Type 0 where
  completed : CommandOutput → Execution
  failed : (error : String) → Execution

abbrev code_or : Option ℤ → ℤ
code_or (some code) = code
code_or none = negsuc 0

-- What the output of a child becomes, `elapsed` after the start.
unfoldable pub collect : (elapsed : ℕ) → Option Output → Execution
collect elapsed none = failed "Failed to wait for command"
collect elapsed (some output) = completed (record {
  stdout = output.stdout;
  stderr = output.stderr;
  exit_code = code_or output.code;
  duration_ms = elapsed % u64_mod;
})

-- `elapsed` is the time from the start of the call until the output is there.
unfoldable pub execute : (timeout_secs elapsed : ℕ) → Child → Execution
unfolding collect
execute timeout_secs elapsed not_spawned = failed "Failed to spawn command"
execute timeout_secs elapsed (running none output) = failed "Command timed out"
execute timeout_secs elapsed (running (some ended) output) =
    if leb ended (timeout_secs * 1000) then collect elapsed output else failed "Command timed out"
