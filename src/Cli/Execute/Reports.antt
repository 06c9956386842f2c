-- ===== src/Cli/Execute/Reports.antt =====
-- Every script ends with a report, and every report is within its limit.
use roboz.Prelude.{
  ℕ, ◌≤◌, ◌≡◌, refl, ap, ◌∙◌, Bool, true, false, Option, none, some, List, [], ◌∷◌, length, Result,
  ok, err, ◌>>=◌, ltb, Bool-cases, inl, inr, arith, map,
}
use roboz.Prelude.Text.{Text, codes}
use roboz.Truncation.{light_max_chars, TruncationSpec}
use roboz.Cli.Contracts.{Token, value}
use roboz.Cli.Zsh.{
  Pipeline, last, feed, Connector, Script, command_tokens, script_tokens, runs_after, eval_pipeline,
  eval_rest, eval_script,
}
use roboz.Cli.History.{max_command_output_chars}
use roboz.Cli.Process.{CompletedProcess, CommandReady}
use roboz.Cli.Execute.{
  PreparedCommand, Report, Environment, decoded_length, prepared, chain, guard_step, message_text,
  recorded_permission, step_process, failure_of, piped_stdout, guard_item,
}
use roboz.Guard.Policy.{GuardFileSingle}
use roboz.Cli.Execute.Chain.{
  Running, Halted, nothing_run, started, record_process, run_guarded, run_prepared, run_one,
  report_of, chain-script,
}
use roboz.Cli.Execute.Bounds.{GivesStatus, chain-ReportSound}

-- The result is no IndexError.
abbrev pub Reports : {W A : Type 0} → Result (Halted W) A → Type 0
Reports (ok done) = Unit {0}
Reports (err (some report, w)) = Unit {0}
Reports (err (none, w)) = ⊥

bind-Reports :
    {W A B : Type 0} (r : Result (Halted W) A) (f : A → Result (Halted W) B)
    → Reports r
    → ((a : A) → Reports (f a))
    → Reports (r >>= f)
bind-Reports (ok done) f h k = k done
bind-Reports (err (some report, w)) f h k = tt
bind-Reports (err (none, w)) f h k = h

module _ {W : Type 0} (env : Environment W) where
  record_process-Reports :
      (piped piping : Bool) (command : Text) (s : Running W)
      (process : Result Text CompletedProcess × W)
      → Reports (record_process env piped piping command s process)
  record_process-Reports piped piping command s (err message, after) = tt
  record_process-Reports piped piping command s (ok result, after) =
      elim (Bool-cases (ltb max_command_output_chars (decoded_length env result))) [
        | inl large ↦ rw large tt
        | inr small ↦ rw small tt
      ]

  run_guarded-Reports :
      (piped piping : Bool) (command : Text) (failure : Option Text) (ready : Option CommandReady)
      (items : List (GuardFileSingle CommandReady)) (s : Running W)
      → Reports (run_guarded env piped piping command failure ready items s)
  run_guarded-Reports piped piping command failure ready items s =
      let (verdict, exchanges) = guard_step env items s.world in
      let message = message_text env verdict.message in
      record_process-Reports piped piping command
        (record {
          stdout = s.stdout;
          accumulated_output = s.accumulated_output;
          permission_history = recorded_permission message s.permission_history;
          world = s.world;
        })
        (step_process env (failure_of verdict.status message failure) ready
          (piped_stdout piped s.stdout) (env.heard exchanges s.world))

  run_prepared-Reports :
      (piped piping : Bool) (word : Text) (r : Result Text PreparedCommand) (s : Running W)
      → Reports (run_prepared env piped piping word (some r) s)
  run_prepared-Reports piped piping word (ok command) s =
      run_guarded-Reports piped piping command.ready.display_command none (some command.ready)
        (map (guard_item command.ready) command.operations) s
  run_prepared-Reports piped piping word (err message) s =
      run_guarded-Reports piped piping word (some message) none [] s

  run_one-Reports :
      (token : Token) (tokens : List Token) (piped piping : Bool) (s : Running W)
      → Reports (run_one env (token ∷ tokens) piped piping s)
  unfolding prepared
  run_one-Reports token tokens piped piping s =
      run_prepared-Reports piped piping (codes (value token)) _ s

  eval_pipeline-Reports :
      (piped : Bool) (p : Pipeline) (s : Running W)
      → Reports (eval_pipeline (run_one env) piped p s)
  eval_pipeline-Reports piped (last c) s = run_one-Reports _ _ piped false s
  eval_pipeline-Reports piped (feed c p) s =
      bind-Reports (run_one env (command_tokens c) piped true s) _
        (run_one-Reports _ _ piped true s) (λ done. eval_pipeline-Reports true p done.0)

  eval_rest-Reports :
      (rest : List (Connector × Pipeline)) (done : Running W × ℕ)
      → Reports (eval_rest (run_one env) rest done)
  eval_rest-Reports [] done = tt
  eval_rest-Reports ((connector, p) ∷ rest) done = elim (Bool-cases (runs_after connector done.1)) [
    | inl runs ↦ rw runs (
        bind-Reports (eval_pipeline (run_one env) false p done.0) _
          (eval_pipeline-Reports false p done.0) (eval_rest-Reports rest))
    | inr skips ↦ rw skips (eval_rest-Reports rest done)
  ]

  eval_script-Reports :
      (script : Script) (s : Running W) → Reports (eval_script (run_one env) script s)
  eval_script-Reports script s =
      bind-Reports (eval_pipeline (run_one env) false script.first s) _
        (eval_pipeline-Reports false script.first s) (eval_rest-Reports script.rest)

  reported :
      (r : Result (Halted W) (Running W × ℕ))
      → Reports r
      → (report : Report) × (after : W) × (report_of env r ≡ (some report, after))
  reported (ok done) h = (_, _, refl)
  reported (err (some report, after)) h = (report, after, refl)
  reported (err (none, after)) h = absurd h

-- Every script ends with a report, and the report is within the limit for tool outputs, whatever
-- its commands print, if the operating system gives exit statuses.
pub length-chain :
    {W : Type 0} (env : Environment W) (script : Script) (truncation : TruncationSpec) (fuel : ℕ)
    (w : W)
    → GivesStatus env.system
    → length (script_tokens script) ≤ fuel
    → (report : Report) × (after : W) × (chain env fuel
          (started (script_tokens script) truncation)
          w
        ≡ some (some report, after))
      × (length report.text ≤ light_max_chars)
length-chain env script truncation fuel w gives room =
    let (report, after, is) =
      reported env (eval_script (run_one env) script (nothing_run w))
        (eval_script-Reports env script (nothing_run w)) in
    let ends = chain-script env script truncation fuel w room ∙ ap some is in
    (
      report,
      after,
      ends,
      rw ends at (
          chain-ReportSound env gives fuel (started (script_tokens script) truncation) w
            (record { output = omega arith; permission = omega arith })),
    )
