-- ===== src/Cli/Execute/Bounds.antt =====
-- The sizes of what a chain of steps keeps and reports.
use roboz.Prelude.{
  ℕ, zero, suc, ◌+◌, ◌≤◌, ◌≡◌, Bool, true, false, Option, none, some, List, [], ◌∷◌, ◌++◌, length,
  length-append, Result, ok, err, arith, Bool-cases, Option-cases, Result-cases, inl, inr, ltb,
  ◌==◌,
}
use roboz.Prelude.Int.{ℤ, pos, negsuc}
use roboz.Prelude.Text.{Text, codes, join, decimal, length-decimal}
use roboz.Guard.Policy.{GuardStatus, FilePath}
use roboz.Cli.Contracts.{Token}
use roboz.Cli.Sequence.{split_command}
use roboz.Truncation.{light_max_chars}
use roboz.Cli.History.{
  max_command_output_chars, max_permission_history_chars, permission_truncation_marker,
  history_truncation_marker, length-bounded_history, length-final_report,
}
use roboz.Cli.Process.{
  Bytes, CompletedProcess, CommandReady, System, RequireError, LaunchError, failed_with,
  launch_outcome, launch, run_command, stdin_bytes,
}
use roboz.Cli.Execute.{
  CommandExecution, Report, Environment, StepOutcome, continues, finished, raised, integer_text,
  normalised, status_text, present, recorded_permission, final_result, append_result, next_outcome,
  continue_or_finish, completed_result, decoded_length, execute_outcome, step_process,
  execute_file_command, step, prepare_step, after_step, chain, prepared, command_label,
}

-- The histories of an execution are within their limits.
pub record IsBounded (e : CommandExecution) : Type 0 where
  pub output : length e.accumulated_output ≤ light_max_chars
  pub permission : length e.permission_history ≤ max_permission_history_chars

abbrev pub Sound : StepOutcome → Type 0
Sound (continues e) = IsBounded e
Sound (finished report) = length report.text ≤ light_max_chars
Sound raised = Unit {0}

-- An exit status of a process is a byte, or a signal's number negated.
abbrev pub IsStatus : ℤ → Type 0
IsStatus (pos n) = n ≤ 255
IsStatus (negsuc n) = n ≤ 255

abbrev pub HasStatus {ℓ} : {E : Type ℓ} → Result E CompletedProcess → Type 0
HasStatus (ok process) = IsStatus process.returncode
HasStatus (err e) = Unit {0}

length-recorded_permission :
    (message : Option Text) (history : Text)
    → length history ≤ max_permission_history_chars
    → length (recorded_permission message history) ≤ max_permission_history_chars
unfolding recorded_permission
length-recorded_permission none history h = h
length-recorded_permission (some []) history h = h
length-recorded_permission (some (c ∷ message)) history h =
    length-bounded_history (join (codes "\n") (present history ++ (c ∷ message) ∷ []))
      max_permission_history_chars permission_truncation_marker (omega arith)

length-integer_text : (n : ℤ) → IsStatus n → length (integer_text n) ≤ 300
unfolding integer_text
length-integer_text (pos n) h = omega (arith, length-decimal n)
length-integer_text (negsuc n) h = omega (arith, length-decimal (n + 1))

normalised-le : (n : ℤ) → IsStatus n → normalised n ≤ 384
unfolding normalised
normalised-le (pos n) h = omega arith
normalised-le (negsuc n) h = omega arith

length-status_text : (n : ℕ) → length (status_text n) ≤ 7
unfolding status_text
length-status_text n = elim (Bool-cases (n == 0)) [
  | inl zero_status ↦ rw zero_status (omega arith)
  | inr other ↦ rw other (omega arith)
]

module _ {W : Type 0} (env : Environment W) where
  next_outcome-Sound :
      (e : CommandExecution) (returncode : ℕ) (stdout : Bytes) (next : List Token × Bool)
      → IsBounded e
      → returncode ≤ 384
      → Sound (next_outcome env e returncode stdout next)
  unfolding next_outcome final_result
  next_outcome-Sound e returncode stdout ([], piped) bounded h =
      length-final_report e.accumulated_output _ e.permission_history bounded.permission (
        rw (length-append (status_text returncode), length-append (decimal returncode))
          (omega (arith, length-status_text returncode, length-decimal returncode)))
  next_outcome-Sound e returncode stdout (token ∷ tokens, piped) bounded h = record {
    output = bounded.output;
    permission = bounded.permission;
  }

  append_result-IsBounded :
      (e : CommandExecution) (piping : Bool) (command : Text) (returncode : ℕ)
      (result : CompletedProcess)
      → IsBounded e
      → IsBounded (append_result env e piping command returncode result)
  unfolding append_result
  append_result-IsBounded e piping command returncode result bounded = record {
    output = length-bounded_history _ light_max_chars history_truncation_marker (omega arith);
    permission = bounded.permission;
  }

  execute_outcome-Sound :
      (e : CommandExecution) (command : Text) (process : Result Text CompletedProcess)
      → IsBounded e
      → HasStatus process
      → Sound (execute_outcome env e command process)
  unfolding execute_outcome completed_result continue_or_finish final_result
  execute_outcome-Sound e command (err message) bounded h =
      length-final_report _ (codes "failure (execution error)") e.permission_history
        bounded.permission (omega arith)
  execute_outcome-Sound e command (ok result) bounded h =
      elim (Bool-cases (ltb max_command_output_chars (decoded_length env result))) [
        | inl large ↦ rw large (
            length-final_report _ _ e.permission_history bounded.permission (
              rw (length-append (integer_text result.returncode))
                (omega (arith, length-integer_text result.returncode h))))
        | inr small ↦ rw small (
            next_outcome-Sound _ _ result.stdout _
              (append_result-IsBounded e _ command _ result bounded)
              (normalised-le result.returncode h))
      ]

  failed_with-HasStatus :
      (code : ℕ) (message : Text) → code ≤ 255 → HasStatus (failed_with env.system code message)
  unfolding failed_with
  failed_with-HasStatus code message h = elim (Result-cases (env.system.encode message)) [
    | inl (bytes, encoded) ↦ rw encoded h
    | inr (error, failed) ↦ rw failed tt
  ]

  launch_outcome-HasStatus :
      (outcome : Result LaunchError CompletedProcess)
      → HasStatus outcome
      → HasStatus (launch_outcome env.system outcome)
  unfolding launch_outcome
  launch_outcome-HasStatus (ok process) h = h
  launch_outcome-HasStatus (err LaunchError.timeout_expired) h =
      failed_with-HasStatus 124 _ (omega arith)
  launch_outcome-HasStatus (err (LaunchError.file_not_found true true message)) h =
      failed_with-HasStatus 127 message (omega arith)
  launch_outcome-HasStatus (err (LaunchError.file_not_found true false message)) h = tt
  launch_outcome-HasStatus (err (LaunchError.file_not_found false _ message)) h = tt
  launch_outcome-HasStatus (err (LaunchError.permission_error message)) h =
      failed_with-HasStatus 126 message (omega arith)
  launch_outcome-HasStatus (err (LaunchError.os_error true message)) h =
      failed_with-HasStatus 126 message (omega arith)
  launch_outcome-HasStatus (err (LaunchError.os_error false message)) h = tt
  launch_outcome-HasStatus (err (LaunchError.launch_failed message)) h = tt

-- What the operating system promises of the processes that it runs.
abbrev pub GivesStatus : {W : Type 0} → System W → Type 0
GivesStatus {W} system =
    (argv : List Text) (base : FilePath) (stdin : Bytes) (w : W)
    → HasStatus (system.run argv base stdin w).0

module _ {W : Type 0} (env : Environment W) (gives : GivesStatus env.system) where
  launch-HasStatus :
      (ready : CommandReady) (stdin : Option Bytes) (executable : Text) (w : W)
      → HasStatus (launch env.system ready stdin executable w).0
  unfolding launch
  launch-HasStatus ready stdin executable w =
      elim (Result-cases (stdin_bytes env.system ready stdin)) [
        | inl (bytes, encoded) ↦
            rw (encoded, launch) (launch_outcome-HasStatus env _ (gives _ _ bytes w))
        | inr (message, failed) ↦ rw (failed, launch) tt
      ]

  unrequired-HasStatus :
      (ready : CommandReady) (stdin : Option Bytes) (w : W) (error : RequireError)
      → env.system.require ready.command_name w ≡ err error
      → HasStatus (run_command env.system ready stdin w).0
  unfolding run_command
  unrequired-HasStatus ready stdin w RequireError.missing h =
      rw (h, run_command) (failed_with-HasStatus env 127 _ (omega arith))
  unrequired-HasStatus ready stdin w (RequireError.not_executable message) h =
      rw (h, run_command) (failed_with-HasStatus env 126 message (omega arith))
  unrequired-HasStatus ready stdin w (RequireError.unexpected message) h = rw (h, run_command) tt

  run_command-HasStatus :
      (ready : CommandReady) (stdin : Option Bytes) (w : W)
      → HasStatus (run_command env.system ready stdin w).0
  unfolding run_command
  run_command-HasStatus ready stdin w =
      elim (Result-cases (env.system.require ready.command_name w)) [
        | inl (executable, found) ↦
            rw (found, run_command) (launch-HasStatus ready stdin executable w)
        | inr (error, failed) ↦ unrequired-HasStatus ready stdin w error failed
      ]

  step_process-HasStatus :
      (failure : Option Text) (ready : Option CommandReady) (stdin : Option Bytes) (w : W)
      → HasStatus (step_process env failure ready stdin w).0
  unfolding step_process
  step_process-HasStatus (some failure) ready stdin w =
      failed_with-HasStatus env 1 failure (omega arith)
  step_process-HasStatus none none stdin w = tt
  step_process-HasStatus none (some ready) stdin w = run_command-HasStatus ready stdin w

  execute_file_command-Sound :
      (status : GuardStatus) (message : Option Text) (e : CommandExecution) (w : W)
      → IsBounded e
      → Sound (execute_file_command env status message e w).0
  unfolding execute_file_command
  execute_file_command-Sound status message e w bounded =
      elim (Option-cases (command_label e.ready (split_command e.remaining).0)) [
        | inl lacks ↦ rw (lacks, execute_file_command) tt
        | inr (command, labelled) ↦
            rw (labelled, execute_file_command)
              (execute_outcome-Sound env _ command _
                (record {
                  output = bounded.output;
                  permission =
                      length-recorded_permission message e.permission_history bounded.permission;
                })
                (step_process-HasStatus _ e.ready e.stdin w))
      ]

  -- A step keeps the histories within their limits, and its report within the limit for tool outputs.
  pub step-Sound : (e : CommandExecution) (w : W) → IsBounded e → Sound (step env e w).0
  unfolding step prepare_step
  step-Sound e w bounded = elim (Option-cases (prepared env (split_command e.remaining).0 w)) [
    | inl lacks ↦ rw (lacks, step, prepare_step) tt
    | inr (result, is) ↦ elim (Result-cases result) [
      | inl (command, good) ↦
          rw (is, good, step, prepare_step)
            (execute_file_command-Sound _ _ _ _
              (record { output = bounded.output; permission = bounded.permission }))
      | inr (message, bad) ↦
          rw (is, bad, step, prepare_step)
            (execute_file_command-Sound _ _ _ _
              (record { output = bounded.output; permission = bounded.permission }))
    ]
  ]

  abbrev pub ReportSound : Option (Option Report × W) → Type 0
  ReportSound none = Unit {0}
  ReportSound (some (none, after)) = Unit {0}
  ReportSound (some (some report, after)) = length report.text ≤ light_max_chars

  after_step-Sound :
      (rest : CommandExecution → W → Option (Option Report × W)) (outcome : StepOutcome × W)
      → ((e : CommandExecution) (w : W) → IsBounded e → ReportSound (rest e w))
      → Sound outcome.0
      → ReportSound (after_step env rest outcome)
  after_step-Sound rest (continues next, after) sound bounded = sound next after bounded
  after_step-Sound rest (finished report, after) sound h = h
  after_step-Sound rest (raised, after) sound h = tt

  pub chain-ReportSound :
      (fuel : ℕ) (e : CommandExecution) (w : W) → IsBounded e → ReportSound (chain env fuel e w)
  unfolding chain
  chain-ReportSound zero e w bounded = tt
  chain-ReportSound (suc fuel) e w bounded =
      after_step-Sound (chain env fuel) (step env e w) (chain-ReportSound fuel)
        (step-Sound e w bounded)
