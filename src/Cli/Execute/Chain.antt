-- ===== src/Cli/Execute/Chain.antt =====
-- The chain of guarded steps as a shell: what it does for one command, and that it runs a script as
-- the grammar of the shell says.
use roboz.Prelude.{
  ℕ, zero, suc, ◌≤◌, ◌≡◌, refl, ap, ◌∙◌, Bool, true, false, Option, none, some, List, [], ◌∷◌, ◌++◌,
  map, if◌then◌else◌, ltb, length, Result, ok, err, Bool-cases, option_map, Option-cases,
  Result-cases, inl, inr,
}
use roboz.Prelude.Int.{pos}
use roboz.Prelude.Text.{Text, codes, decimal}
use roboz.Truncation.{light_max_chars, TruncationSpec, single, remove}
use roboz.Guard.Policy.{GuardFileSingle, GuardStatus}
use roboz.Cli.Contracts.{Token, value}
use roboz.Cli.Sequence.{split_command, next_command, pipes_into}
use roboz.Cli.Zsh.{Script, script_tokens, eval_script}
use roboz.Cli.Zsh.Stream.{drive, proceed, follow, drive-script}
use roboz.Cli.History.{
  max_command_output_chars, history_truncation_marker, bounded_history, framed_cli_output,
}
use roboz.Cli.Process.{Bytes, CompletedProcess, CommandReady}
use roboz.Cli.Execute.{
  PreparedCommand, CommandExecution, Report, Environment, integer_text, normalised, status_text,
  failure_of, recorded_permission, result_body, is_some, too_large_text, StepOutcome, finished,
  raised, piped_stdout, guard_item, prepared, prepare_step, guard_step, final_result, step_process,
  decoded_length, append_result, next_outcome, continue_or_finish, completed_result,
  execute_outcome, execute_file_command, message_text, step, after_step, chain, command_label,
  with_permission, with_prepared,
}

-- What a command leaves for the next one.
pub record Running (W : Type 0) : Type 0 where
  pub stdout : Bytes
  pub accumulated_output : Text
  pub permission_history : Text
  pub world : W

-- An end of the chain before the end of its script.
abbrev pub Halted : Type 0 → Type 0
Halted W = Option Report × W

abbrev at :
    {W : Type 0}
    → List Token
    → Option Bytes
    → Running W
    → Option Text
    → Option CommandReady
    → TruncationSpec
    → CommandExecution
at remaining stdin s failure ready truncation = record {
  remaining = remaining;
  stdin = stdin;
  accumulated_output = s.accumulated_output;
  permission_history = s.permission_history;
  failure = failure;
  ready = ready;
  truncation = truncation;
}

is_some-piped_stdout : (piped : Bool) (stdout : Bytes) → is_some (piped_stdout piped stdout) ≡ piped
is_some-piped_stdout true stdout = refl
is_some-piped_stdout false stdout = refl

module _ {W : Type 0} (env : Environment W) where
  -- A process that ended is recorded, unless its output is too large; any other end halts.
  abbrev pub record_process :
      (piped piping : Bool)
      → Text
      → Running W
      → Result Text CompletedProcess × W
      → Result (Halted W) (Running W × ℕ)
  record_process piped piping command s (err message, after) = err (
    some (
        final_result env (s.accumulated_output ++ framed_cli_output command message)
          (codes "failure (execution error)") s.permission_history),
    after,
  )
  record_process piped piping command s (ok result, after) =
      if ltb max_command_output_chars (decoded_length env result)
      then err (
        some (
            final_result env (too_large_text (decoded_length env result))
              (codes "failure (output too large; exit "
                ++ (integer_text result.returncode ++ codes ")"))
              s.permission_history),
        after,
      )
      else ok (
        record {
          stdout = result.stdout;
          accumulated_output =
              bounded_history
                (s.accumulated_output
                  ++ (framed_cli_output command (
                        result_body piped piping command (normalised result.returncode)
                          (env.system.decode result.stdout) (env.system.decode result.stderr))
                      ++ codes "\n"))
                (pos light_max_chars) history_truncation_marker;
          permission_history = s.permission_history;
          world = after;
        },
        normalised result.returncode,
      )

  -- The guard's conversation, then the process.
  abbrev pub run_guarded :
      (piped piping : Bool)
      → Text
      → Option Text
      → Option CommandReady
      → List (GuardFileSingle CommandReady)
      → Running W
      → Result (Halted W) (Running W × ℕ)
  run_guarded piped piping command failure ready items s =
      let (verdict, exchanges) = guard_step env items s.world in
      let message = message_text env verdict.message in
      record_process piped piping command
        (record {
          stdout = s.stdout;
          accumulated_output = s.accumulated_output;
          permission_history = recorded_permission message s.permission_history;
          world = s.world;
        })
        (step_process env (failure_of verdict.status message failure) ready
          (piped_stdout piped s.stdout) (env.heard exchanges s.world))

  abbrev pub run_prepared :
      (piped piping : Bool)
      → Text
      → Option (Result Text PreparedCommand)
      → Running W
      → Result (Halted W) (Running W × ℕ)
  run_prepared piped piping word none s = err (none, s.world)
  run_prepared piped piping word (some (err message)) s =
      run_guarded piped piping word (some message) none [] s
  run_prepared piped piping word (some (ok command)) s =
      run_guarded piped piping command.ready.display_command none (some command.ready)
        (map (guard_item command.ready) command.operations) s

  -- One command of a script, as a step of the shell.
  abbrev pub run_one :
      List Token → (piped piping : Bool) → Running W → Result (Halted W) (Running W × ℕ)
  run_one [] piped piping s = err (none, s.world)
  run_one (token ∷ tokens) piped piping s =
      run_prepared piped piping (codes (value token)) (prepared env (token ∷ tokens) s.world) s

  -- What a step of the chain is, if its command runs as `r`.
  abbrev Agrees :
      List Token → TruncationSpec → StepOutcome × W → Result (Halted W) (Running W × ℕ) → Type 0
  Agrees remaining truncation outcome (err (some report, after)) =
      outcome ≡ (finished report, after)
  Agrees remaining truncation outcome (err (none, after)) = outcome ≡ (raised, after)
  Agrees remaining truncation outcome (ok (s, returncode)) =
      (stdin : Option Bytes) × (failure : Option Text) × (ready : Option CommandReady) × (outcome
        ≡ (
          next_outcome env (at remaining stdin s failure ready truncation) returncode s.stdout
              (next_command remaining returncode),
          s.world,
        ))

  execute-Agrees :
      (remaining : List Token) (piped : Bool) (s : Running W) (failure : Option Text)
      (ready : Option CommandReady) (truncation : TruncationSpec) (command : Text)
      (process : Result Text CompletedProcess × W)
      → Agrees remaining truncation
          (
            execute_outcome env
                (at remaining (piped_stdout piped s.stdout) s failure ready truncation)
                command
                process.0,
            process.1,
          )
          (record_process piped (pipes_into (split_command remaining).1) command s process)
  unfolding execute_outcome completed_result continue_or_finish append_result
  execute-Agrees remaining piped s failure ready truncation command (err message, after) = refl
  execute-Agrees remaining piped s failure ready truncation command (ok result, after) =
      elim (Bool-cases (ltb max_command_output_chars (decoded_length env result))) [
        | inl large ↦ rw large refl
        | inr small ↦ rw (small, is_some-piped_stdout) (_, _, _, refl)
      ]

  abbrev guarded_outcome :
      CommandExecution → List (GuardFileSingle CommandReady) → W → StepOutcome × W
  guarded_outcome e items w =
      let (verdict, exchanges) = guard_step env items w in
      execute_file_command env verdict.status (message_text env verdict.message) e
        (env.heard exchanges w)

  Agrees-resp :
      (remaining : List Token) (truncation : TruncationSpec) {o o2 : StepOutcome × W}
      {r r2 : Result (Halted W) (Running W × ℕ)}
      → o ≡ o2
      → r ≡ r2
      → Agrees remaining truncation o2 r2
      → Agrees remaining truncation o r
  Agrees-resp remaining truncation same runs agrees = rw (same, runs) agrees

  pub execute_file_command-labelled :
      (status : GuardStatus) (message : Option Text) (e : CommandExecution) (w : W) (command : Text)
      → command_label e.ready (split_command e.remaining).0 ≡ some command
      → execute_file_command env status message e w ≡ (
          let (process, after) =
            step_process env (failure_of status message e.failure) e.ready e.stdin w in
          (
            execute_outcome env
                (with_permission e (recorded_permission message e.permission_history))
                command
                process,
            after,
          ))
  unfolding execute_file_command
  execute_file_command-labelled status message e w command h = rw (h, execute_file_command) refl

  pub step-prepared :
      (e e2 : CommandExecution) (items : List (GuardFileSingle CommandReady)) (w : W)
      → prepare_step env e w ≡ some (e2, items)
      → step env e w ≡ guarded_outcome e2 items w
  unfolding step
  step-prepared e e2 items w h = rw (h, step) refl

  pub step-raised :
      (e : CommandExecution) (w : W) → prepare_step env e w ≡ none → step env e w ≡ (raised, w)
  unfolding step
  step-raised e w h = rw (h, step) refl

  guarded-Agrees :
      (remaining : List Token) (piped : Bool) (s : Running W) (failure : Option Text)
      (ready : Option CommandReady) (truncation : TruncationSpec) (command : Text)
      (items : List (GuardFileSingle CommandReady))
      → command_label ready (split_command remaining).0 ≡ some command
      → Agrees remaining truncation
          (guarded_outcome
            (at remaining (piped_stdout piped s.stdout) s failure ready truncation)
            items
            s.world)
          (run_guarded piped (pipes_into (split_command remaining).1) command failure ready items s)
  guarded-Agrees remaining piped s failure ready truncation command items h =
      let (verdict, exchanges) = guard_step env items s.world in
      let message = message_text env verdict.message in
      Agrees-resp remaining truncation
        (execute_file_command-labelled verdict.status message
          (at remaining (piped_stdout piped s.stdout) s failure ready truncation)
          (env.heard exchanges s.world) command h)
        refl
        (execute-Agrees remaining piped
          (record {
            stdout = s.stdout;
            accumulated_output = s.accumulated_output;
            permission_history = recorded_permission message s.permission_history;
            world = s.world;
          })
          failure ready truncation command
          (step_process env (failure_of verdict.status message failure) ready
            (piped_stdout piped s.stdout) (env.heard exchanges s.world)))

  pub prepare_step-raised :
      (e : CommandExecution) (w : W)
      → prepared env (split_command e.remaining).0 w ≡ none
      → prepare_step env e w ≡ none
  unfolding prepare_step
  prepare_step-raised e w h = rw (h, prepare_step) refl

  pub prepare_step-failed :
      (e : CommandExecution) (w : W) (message : Text)
      → prepared env (split_command e.remaining).0 w ≡ some (err message)
      → prepare_step env e w ≡ some (with_prepared e (some message) none, [])
  unfolding prepare_step
  prepare_step-failed e w message h = rw (h, prepare_step) refl

  pub prepare_step-ready :
      (e : CommandExecution) (w : W) (command : PreparedCommand)
      → prepared env (split_command e.remaining).0 w ≡ some (ok command)
      → prepare_step env e w
        ≡ some (
          with_prepared e none (some command.ready),
          map (guard_item command.ready) command.operations,
        )
  unfolding prepare_step
  prepare_step-ready e w command h = rw (h, prepare_step) refl

  label-first :
      (remaining tokens : List Token) (token : Token)
      → (split_command remaining).0 ≡ token ∷ tokens
      → command_label none (split_command remaining).0 ≡ some (codes (value token))
  unfolding command_label
  label-first remaining tokens token h = rw (h, command_label) refl

  reached-Agrees :
      (remaining : List Token) (piped : Bool) (s : Running W) (failure : Option Text)
      (ready : Option CommandReady) (truncation : TruncationSpec) (tokens : List Token)
      → (split_command remaining).0 ≡ tokens
      → Agrees remaining truncation
          (step env (at remaining (piped_stdout piped s.stdout) s failure ready truncation) s.world)
          (run_one tokens piped (pipes_into (split_command remaining).1) s)
  unfolding prepared
  reached-Agrees remaining piped s failure ready truncation [] h =
      let e = at remaining (piped_stdout piped s.stdout) s failure ready truncation in
      step-raised e s.world (prepare_step-raised e s.world (rw h refl))
  reached-Agrees remaining piped s failure ready truncation (token ∷ tokens) h =
      let e = at remaining (piped_stdout piped s.stdout) s failure ready truncation in
      let same = ap (λ ts. prepared env ts s.world) h in
      let run = λ (r : Option (Result Text PreparedCommand)).
        run_prepared piped (pipes_into (split_command remaining).1) (codes (value token)) r s in
      elim (Option-cases (prepared env (token ∷ tokens) s.world)) [
        | inl lacks ↦
            Agrees-resp remaining truncation
              (step-raised e s.world (prepare_step-raised e s.world (same ∙ lacks))) (ap run lacks)
              refl
        | inr (result, is) ↦ elim (Result-cases result) [
          | inl (command, good) ↦
              let both = is ∙ ap some good in
              Agrees-resp remaining truncation
                (step-prepared e _ _ s.world (prepare_step-ready e s.world command (same ∙ both)))
                (ap run both)
                (guarded-Agrees remaining piped s none (some command.ready) truncation
                  command.ready.display_command (map (guard_item command.ready) command.operations)
                  (unfold command_label in refl))
          | inr (message, bad) ↦
              let both = is ∙ ap some bad in
              Agrees-resp remaining truncation
                (step-prepared e _ _ s.world (prepare_step-failed e s.world message (same ∙ both)))
                (ap run both)
                (guarded-Agrees remaining piped s (some message) none truncation
                  (codes (value token)) [] (label-first remaining tokens token h))
        ]
      ]

  -- The report at the end of a script.
  abbrev pub report_of : Result (Halted W) (Running W × ℕ) → Option Report × W
  report_of (err halted) = halted
  report_of (ok (s, returncode)) = (
    some (
        final_result env s.accumulated_output
          (status_text returncode ++ (codes " (exit " ++ (decimal returncode ++ codes ")")))
          s.permission_history),
    s.world,
  )

  abbrev Follows : ℕ → Type 0
  Follows fuel =
      (remaining : List Token) (piped : Bool) (s : Running W) (failure : Option Text)
      (ready : Option CommandReady) (truncation : TruncationSpec)
      → chain env fuel (at remaining (piped_stdout piped s.stdout) s failure ready truncation)
          s.world
        ≡ option_map report_of (drive run_one fuel remaining piped s)

  after-next_outcome :
      (fuel : ℕ) (follows : Follows fuel) (remaining : List Token) (stdin : Option Bytes)
      (s : Running W) (failure : Option Text) (ready : Option CommandReady)
      (truncation : TruncationSpec) (returncode : ℕ) (next : List Token × Bool)
      → after_step env (chain env fuel) (
        next_outcome env (at remaining stdin s failure ready truncation) returncode s.stdout next,
        s.world,
      )
        ≡ option_map report_of (proceed (drive run_one fuel) next (s, returncode))
  unfolding next_outcome proceed
  after-next_outcome fuel follows remaining stdin s failure ready truncation returncode
        ([], piped) =
      refl
  after-next_outcome fuel follows remaining stdin s failure ready truncation returncode
        (token ∷ tokens, piped) =
      follows (token ∷ tokens) piped s failure ready
        (single (record { threshold = pos 0; severity = remove }))

  after-outcome :
      (fuel : ℕ) (follows : Follows fuel) (remaining : List Token) (truncation : TruncationSpec)
      (outcome : StepOutcome × W) (r : Result (Halted W) (Running W × ℕ))
      → Agrees remaining truncation outcome r
      → after_step env (chain env fuel) outcome
        ≡ option_map report_of
            (follow (λ done. proceed (drive run_one fuel) (next_command remaining done.1) done) r)
  unfolding follow
  after-outcome fuel follows remaining truncation outcome (err (none, after)) h = rw h refl
  after-outcome fuel follows remaining truncation outcome (err (some report, after)) h = rw h refl
  after-outcome fuel follows remaining truncation outcome (ok (s, returncode))
        (stdin, failure, ready, h) =
      rw h (
        after-next_outcome fuel follows remaining stdin s failure ready truncation returncode
          (next_command remaining returncode))

  chain-drive : (fuel : ℕ) → Follows fuel
  unfolding chain drive
  chain-drive zero remaining piped s failure ready truncation = refl
  chain-drive (suc fuel) remaining piped s failure ready truncation =
      after-outcome fuel (chain-drive fuel) remaining truncation _ _
        (reached-Agrees remaining piped s failure ready truncation (split_command remaining).0 refl)

-- The execution that `resolve_command` starts from.
abbrev pub started : List Token → TruncationSpec → CommandExecution
started tokens truncation = record {
  remaining = tokens;
  stdin = none;
  accumulated_output = [];
  permission_history = [];
  failure = none;
  ready = none;
  truncation = truncation;
}

abbrev pub nothing_run : {W : Type 0} → W → Running W
nothing_run w = record { stdout = []; accumulated_output = []; permission_history = []; world = w }

-- For every script, in every environment, the chain of guarded steps runs the commands that the
-- shell's grammar selects, in its order and with its piping, and ends in the same world with the
-- report of the last status, or with the report of the command that halted it. As many rounds as
-- the script has tokens are enough.
pub chain-script :
    {W : Type 0} (env : Environment W) (script : Script) (truncation : TruncationSpec) (fuel : ℕ)
    (w : W)
    → length (script_tokens script) ≤ fuel
    → chain env fuel (started (script_tokens script) truncation) w
      ≡ some (report_of env (eval_script (run_one env) script (nothing_run w)))
chain-script env script truncation fuel w h =
    chain-drive env fuel (script_tokens script) false (nothing_run w) none none truncation
    ∙ ap (option_map (report_of env)) (drive-script (run_one env) script fuel (nothing_run w) h)
