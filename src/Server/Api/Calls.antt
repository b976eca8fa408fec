-- ===== src/Server/Api/Calls.antt =====
-- The methods that Python calls, with the daemon's own handler at the other end.
use sand_d.Prelude.{
  ℕ, ◌*◌, ◌%◌, ◌≤◌, ◌<◌, String, true, false, Option, none, some, List, [], ◌≡◌, refl, sym, subst,
  ap, ◌∙◌, Bytes, Bool, leb, arith, negsuc, u64_mod, if◌then◌else◌, Option-cases, inl, inr,
}
use sand_d.Prelude.Dict.{Dict}
use sand_d.Prelude.Text.{append}
use sand_d.Protocol.{Message}
use sand_d.Server.Connection.{DaemonConnection}
use sand_d.Server.Handler.{response_id}
use sand_d.Server.Handler.Laws.{IsReachable}
use sand_d.Server.Api.{
  PyResult, returned, raised, runtime_error, timeout_error, Wait, or_no_env, Controller, Awaited,
  PyCommandResult, command_result, exec,
}
use sand_d.Server.Api.EndToEnd.{
  first_on, daemon_side, within, IsServed, request-answered, request-sent,
}
use sand_d.Snapshot.Types.{SnapshotError, Encoding}
use sand_d.Snapshot.ObjectStore.{Blake3}
use sand_d.Snapshot.Workspace.{Meta}
use sand_d.Daemon.Executor.{Execution, Child, Output, not_spawned, running, collect, execute}
use sand_d.Daemon.Messages.{
  Daemon, Environment, Handled, execution_message, handle_message, respond_all, send_all,
}

-- What `exec` makes of what became of the command.
unfoldable pub execution_result : Execution → PyResult PyCommandResult
execution_result (Execution.completed o) = returned (record {
  stdout = o.stdout;
  stderr = o.stderr;
  exit_code = o.exit_code;
  duration_ms = o.duration_ms;
})
execution_result (Execution.failed e) = raised (runtime_error (append "Command error: " e))

command_result-execution_message :
    (request_id : String) (e : Execution)
    → (command_result (Awaited.received (execution_message request_id e)) ≡ execution_result e)
      × (response_id (execution_message request_id e) ≡ some request_id)
unfolding command_result execution_message execution_result response_id
command_result-execution_message request_id (Execution.completed o) = (refl, refl)
command_result-execution_message request_id (Execution.failed e) = (refl, refl)

-- How long the daemon is at work on a command, in milliseconds.
abbrev pub lasts : (timeout : ℕ) → Child → ℕ
lasts timeout not_spawned = 0
lasts timeout (running none output) = timeout * 1000
lasts timeout (running (some ended) output) =
    if leb (timeout * 1000) ended then timeout * 1000 else ended

-- What a caller is to get of a command that ends in time.
abbrev pub exec_outcome : (elapsed : ℕ) → Child → PyResult PyCommandResult
exec_outcome elapsed not_spawned =
    raised (runtime_error (append "Command error: " "Failed to spawn command"))
exec_outcome elapsed (running ended none) =
    raised (runtime_error (append "Command error: " "Failed to wait for command"))
exec_outcome elapsed (running ended (some o)) = returned (record {
  stdout = o.stdout;
  stderr = o.stderr;
  exit_code = elim o.code [ none ↦ negsuc 0 | some code ↦ code ];
  duration_ms = elapsed % u64_mod;
})

collected-outcome :
    (elapsed ended : ℕ) (output : Option Output)
    → execution_result (collect elapsed output) ≡ exec_outcome elapsed (running (some ended) output)
unfolding execution_result collect
collected-outcome elapsed ended none = refl
collected-outcome elapsed ended (some o) = elim (Option-cases o.code) [
  | inl n ↦ rw n refl
  | inr (code, n) ↦ rw n refl
]

execution-outcome :
    (timeout took elapsed : ℕ) (child : Child)
    → lasts timeout child ≤ took
    → took < timeout * 1000
    → execution_result (execute timeout elapsed child) ≡ exec_outcome elapsed child
unfolding execution_result execute
execution-outcome timeout took elapsed not_spawned l e = refl
execution-outcome timeout took elapsed (running none output) l e = absurd (omega arith)
execution-outcome timeout took elapsed (running (some ended) output) l e =
    let b : leb ended (timeout * 1000) ≡ true = ground arith in
    rw b (collected-outcome elapsed ended output)

module _ (print : Message → String) (show : SnapshotError → String) (E : Encoding)
    (trim : String → String) (B : Blake3) (reads : Bytes → List Bytes)
    (target_is_dir : String → String → Bool) (fresh : Meta) (fuel : ℕ) where
  abbrev pub handled : Environment → Daemon → Message → Handled
  handled env d m =
      handle_message (λ r. some (print r)) show E trim B reads target_is_dir fresh fuel env m d

  -- With an answer in time, `exec` returns what the daemon's execution gave.
  exec-answered :
      (env : Environment) (d : Daemon) (now : ℕ) (id command request_id : String) (timeout tx : ℕ)
      (vars : Option (Dict String)) (cwd : Option String) (s : Controller) {arc : ℕ}
      {c : DaemonConnection}
      → IsReachable s.world id arc c
      → s.is_closed c.request_tx ≡ false
      → first_on tx s.world.delivered ≡ none
      → env.sends ≡ []
      → IsServed
          (λ m. (handled env d m).written)
          now
          id
          request_id
          arc
          (execution_result (execute timeout env.elapsed env.child))
          (exec id command timeout vars cwd request_id tx
            (daemon_side (λ m. (handled env d m).written) now id c.request_tx tx)
            s)
  unfolding exec handle_message respond_all send_all
  exec-answered env d now id command request_id timeout tx vars cwd s {arc} {c} reach opened unused
        calm =
      let (same, answers) =
        command_result-execution_message request_id (execute timeout env.elapsed env.child) in
      rw (sym same) (
        request-answered (λ m. (handled env d m).written) now id request_id tx timeout
          "Failed to send command: " _
          (execution_message request_id (execute timeout env.elapsed env.child)) command_result s
          reach opened unused (rw calm refl) answers)

  -- In time the caller gets what the command left; after that, nothing.
  exec-within :
      (took now : ℕ) (id command request_id : String) (timeout tx : ℕ) (vars : Option (Dict String))
      (cwd : Option String) (wait : Wait) (s : Controller) {arc : ℕ} {c : DaemonConnection}
      → IsReachable s.world id arc c
      → s.is_closed c.request_tx ≡ false
      → (took < timeout * 1000
          → exec id command timeout vars cwd request_id tx (within took wait) s
            ≡ exec id command timeout vars cwd request_id tx wait s)
        × (timeout * 1000 ≤ took
            → (exec id command timeout vars cwd request_id tx (within took wait) s).0
              ≡ raised (timeout_error "Command execution timed out"))
  unfolding exec command_result
  exec-within took now id command request_id timeout tx vars cwd wait s reach opened =
      let m = Message.execute_command request_id command timeout (or_no_env vars) cwd in
      let sent = λ (w : Wait).
        request-sent id request_id tx timeout "Failed to send command: " m command_result w s reach
          opened in
      (
        λ early.
            let b : leb (timeout * 1000) took ≡ false = ground arith in
            sent (within took wait) ∙ rw b refl ∙ sym (sent wait),
        λ late.
            let b : leb (timeout * 1000) took ≡ true = ground arith in
            ap (λ r. r.0) (sent (within took wait)) ∙ rw b refl,
      )

  -- With the daemon reachable, its channel open and its write succeeding, and an answer that takes
  -- at least as long as the daemon is at work on the command: if the answer comes before the timeout,
  -- `exec` returns the output of the command, with -1 for an exit code where a signal killed it, or
  -- raises that it could not be started or waited for, and its request is no longer pending; if
  -- not, which is so whenever the command does not end before the timeout, `exec` raises a
  -- TimeoutError.
  pub exec-execute :
      (took : ℕ) (env : Environment) (d : Daemon) (now : ℕ) (id command request_id : String)
      (timeout tx : ℕ) (vars : Option (Dict String)) (cwd : Option String) (s : Controller)
      {arc : ℕ} {c : DaemonConnection}
      → IsReachable s.world id arc c
      → s.is_closed c.request_tx ≡ false
      → first_on tx s.world.delivered ≡ none
      → env.sends ≡ []
      → lasts timeout env.child ≤ took
      → let result =
          exec id command timeout vars cwd request_id tx
            (within took (daemon_side (λ m. (handled env d m).written) now id c.request_tx tx))
            s in
        (took < timeout * 1000
          → IsServed
              (λ m. (handled env d m).written)
              now
              id
              request_id
              arc
              (exec_outcome env.elapsed env.child)
              result)
        × (timeout * 1000 ≤ took → result.0 ≡ raised (timeout_error "Command execution timed out"))
  exec-execute took env d now id command request_id timeout tx vars cwd s {arc} {c} reach opened
        unused calm lasting =
      let w = daemon_side (λ m. (handled env d m).written) now id c.request_tx tx in
      let (in_time, late) =
        exec-within took now id command request_id timeout tx vars cwd w s reach opened in
      (
        λ early.
            subst
              (IsServed (λ m. (handled env d m).written) now id request_id arc
                (exec_outcome env.elapsed env.child))
              (sym (in_time early))
              (subst
                (λ r.
                  IsServed (λ m. (handled env d m).written) now id request_id arc r
                    (exec id command timeout vars cwd request_id tx w s))
                (execution-outcome timeout took env.elapsed env.child lasting early)
                (exec-answered env d now id command request_id timeout tx vars cwd s reach opened
                  unused calm)),
        late,
      )
