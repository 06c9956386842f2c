-- ===== src/Cli/Execute.antt =====
-- execute.py and command.py: one guarded step of a script (prepare, guard, execute) and the chain of
-- the steps.
pub mod Chain
pub mod Safety
pub mod Bounds
pub mod Reports
use roboz.Prelude.{
  ℕ, zero, suc, ◌+◌, String, Bool, true, false, not, ◌||◌, Option, none, some, List, [], ◌∷◌, ◌++◌,
  map, if◌then◌else◌, ltb, leb, ◌==◌, length, Result, ok, err, ◌>>=◌,
}
use roboz.Prelude.Int.{ℤ, pos, negsuc}
use roboz.Prelude.Text.{Text, codes, join, decimal}
use roboz.Truncation.{light_max_chars, Truncation, TruncationSpec, single, remove}
use roboz.Guard.Policy.{
  FilePath, Operation, GuardStatus, allowed, denied, GuardFileSingle, GuardContext,
}
use roboz.Guard.Approval.{Reply, Exchange, GuardMessage, GuardFilesResult, guard_items}
use roboz.Cli.Contracts.{Token, value, ParsedCommand}
use roboz.Cli.Sequence.{split_command, next_command, pipes_into}
use roboz.Cli.Tokens.{TokenError, TokenPolicy, validate_tokens}
use roboz.Cli.History.{
  max_command_output_chars, max_permission_history_chars, history_truncation_marker,
  permission_truncation_marker, bounded_history, framed_cli_output, final_report,
}
use roboz.Cli.Process.{Bytes, CompletedProcess, CommandReady, System, failed_with, run_command}

pub record PreparedCommand : Type 0 where
  pub ready : CommandReady
  pub operations : List (Operation × FilePath)

-- `prepare_command` reads the file system; the text is that of a ValueError or an OSError.
pub record CommandSpec (W : Type 0) : Type 0 where
  pub policy : TokenPolicy
  pub prepare_command : ParsedCommand → FilePath → W → Result Text PreparedCommand

pub record CommandExecution : Type 0 where
  pub remaining : List Token
  pub stdin : Option Bytes
  pub accumulated_output : Text
  pub permission_history : Text
  pub failure : Option Text
  pub ready : Option CommandReady
  pub truncation : TruncationSpec

-- `Str(value=…, truncation=…)`
pub record Report : Type 0 where
  pub text : Text
  pub truncation : TruncationSpec

-- What the tools of the chain are built from, on a world W that holds the files, the processes and
-- the user.
pub record Environment (W : Type 0) : Type 0 where
  pub commands : String → Option (CommandSpec W)
  pub system : System W
  pub base : FilePath
  pub guard : GuardContext
  pub full_match : FilePath → Text → Bool
  -- the answer to the n-th prompt of a step, and the world after a conversation
  pub ask : W → ℕ → Reply
  pub heard : List Exchange → W → W
  pub token_message : TokenError → Text
  pub guard_message : GuardMessage → Text
  pub truncation : TruncationSpec

-- `str(n)` of an integer
unfoldable pub integer_text : ℤ → Text
integer_text (pos n) = decimal n
integer_text (negsuc n) = codes "-" ++ decimal (n + 1)

-- A process that a signal ended has the status that a shell gives it.
unfoldable pub normalised : ℤ → ℕ
normalised (pos n) = n
normalised (negsuc n) = 128 + (n + 1)

unfoldable pub status_text : ℕ → Text
status_text returncode = if returncode == 0 then codes "success" else codes "failure"

-- The first token's value, or the label of the prepared command. `none` is an IndexError.
unfoldable pub command_label : Option CommandReady → List Token → Option Text
command_label (some ready) tokens = some ready.display_command
command_label none [] = none
command_label none (token ∷ tokens) = some (codes (value token))

unfoldable pub failure_of : GuardStatus → Option Text → Option Text → Option Text
failure_of allowed message failure = failure
failure_of denied (some (c ∷ message)) failure =
    some (codes "Permission denied; see permission report above")
failure_of denied _ failure = some (codes "Permission denied")

abbrev pub present : Text → List Text
present [] = []
present (c ∷ text) = (c ∷ text) ∷ []

unfoldable pub recorded_permission : Option Text → Text → Text
unfolding bounded_history join
recorded_permission (some (c ∷ message)) history =
    bounded_history (join (codes "\n") (present history ++ (c ∷ message) ∷ []))
      (pos max_permission_history_chars) permission_truncation_marker
recorded_permission _ history = history

-- The body of a command's frame in the report.
unfoldable pub result_body :
    (piped piping : Bool) → (command : Text) (returncode : ℕ) (stdout stderr : Text) → Text
result_body piped piping command returncode stdout stderr =
    let body = if piping then codes "[stdout: piped to next command]" else stdout in
    let marked =
      if returncode == 0
      then (elim body [
        | [] ↦ codes "[success] Command completed with no output: " ++ command
        | c ∷ rest ↦ c ∷ rest
      ])
      else codes "[error] Command failed (exit " ++ (decimal returncode ++ (codes ")\n" ++ body)) in
    let fed = if piped then codes "[stdin: piped from previous command]\n" ++ marked else marked in
    elim stderr [ [] ↦ fed | c ∷ rest ↦ fed ++ (codes "\nstderr:\n" ++ (c ∷ rest)) ]

abbrev pub is_some : {A : Type 0} → Option A → Bool
is_some none = false
is_some (some a) = true

unfoldable pub too_large_text : ℕ → Text
too_large_text actual =
    codes "[error] Command output too large ("
    ++ (decimal actual
        ++ (codes " chars; max "
            ++ (decimal max_command_output_chars
                ++ codes
                    "). Chain stopped with no partial output returned.\nRetry with bounded commands: `wc -l`, `head`, `tail`, `rg --count`, `rg --max-count`, or narrower paths. Start bounded reads with `head` or `tail`.")))

-- What a step does next: go on, report, or raise an IndexError.
pub data StepOutcome : Type 0 where
  continues : CommandExecution → StepOutcome
  finished : Report → StepOutcome
  raised : StepOutcome

abbrev pub with_prepared : CommandExecution → Option Text → Option CommandReady → CommandExecution
with_prepared e failure ready = record {
  remaining = e.remaining;
  stdin = e.stdin;
  accumulated_output = e.accumulated_output;
  permission_history = e.permission_history;
  failure = failure;
  ready = ready;
  truncation = e.truncation;
}

abbrev pub with_permission : CommandExecution → Text → CommandExecution
with_permission e permission_history = record {
  remaining = e.remaining;
  stdin = e.stdin;
  accumulated_output = e.accumulated_output;
  permission_history = permission_history;
  failure = e.failure;
  ready = e.ready;
  truncation = e.truncation;
}

abbrev with_output : CommandExecution → Text → CommandExecution
with_output e accumulated_output = record {
  remaining = e.remaining;
  stdin = e.stdin;
  accumulated_output = accumulated_output;
  permission_history = e.permission_history;
  failure = e.failure;
  ready = e.ready;
  truncation = e.truncation;
}

-- The step that goes on with `remaining`; its report frames are hidden from the conversation.
abbrev with_next : CommandExecution → List Token → Option Bytes → CommandExecution
with_next e remaining stdin = record {
  remaining = remaining;
  stdin = stdin;
  accumulated_output = e.accumulated_output;
  permission_history = e.permission_history;
  failure = e.failure;
  ready = e.ready;
  truncation = single (record { threshold = pos 0; severity = remove });
}

abbrev pub piped_stdout : Bool → Bytes → Option Bytes
piped_stdout true stdout = some stdout
piped_stdout false stdout = none

abbrev guard_item : CommandReady → Operation × FilePath → GuardFileSingle CommandReady
guard_item ready (operation, path) = record {
  operation = operation;
  location = path;
  value = ready;
}

module _ {W : Type 0} (env : Environment W) where
  -- The part of `_prepare_step` under `try`. `none` is an IndexError.
  unfoldable pub prepared : List Token → W → Option (Result Text PreparedCommand)
  prepared [] w = none
  prepared (token ∷ tokens) w = some (elim (env.commands (value token)) [
    | none ↦ err (codes "Unsupported command: '" ++ (codes (value token) ++ codes "'"))
    | some spec ↦ elim (validate_tokens (token ∷ tokens) spec.policy) [
      | err error ↦ err (env.token_message error)
      | ok parsed ↦ spec.prepare_command parsed env.base w
    ]
  ])

  unfoldable pub prepare_step :
      CommandExecution → W → Option (CommandExecution × List (GuardFileSingle CommandReady))
  prepare_step e w = elim (prepared (split_command e.remaining).0 w) [
    | none ↦ none
    | some (err message) ↦ some (with_prepared e (some message) none, [])
    | some (ok command) ↦ some (
      with_prepared e none (some command.ready),
      map (guard_item command.ready) command.operations,
    )
  ]

  unfoldable pub guard_step :
      List (GuardFileSingle CommandReady) → W → GuardFilesResult CommandReady × List Exchange
  guard_step items w = guard_items env.full_match env.base env.guard (env.ask w) items

  unfoldable pub final_result : Text → Text → Text → Report
  final_result history summary permission_history = record {
    text = final_report history summary permission_history;
    truncation = env.truncation;
  }

  -- The part of `_execute_step` under `try`: the process of a failed, a missing, or a ready command.
  unfoldable pub step_process :
      Option Text → Option CommandReady → Option Bytes → W → Result Text CompletedProcess × W
  step_process (some failure) ready stdin w = (failed_with env.system 1 failure, w)
  step_process none none stdin w = (err (codes "Missing prepared command"), w)
  step_process none (some ready) stdin w = run_command env.system ready stdin w

  unfoldable pub decoded_length : CompletedProcess → ℕ
  decoded_length result =
      length (env.system.decode result.stdout) + length (env.system.decode result.stderr)

  unfoldable pub append_result :
      CommandExecution → (piping : Bool) → Text → ℕ → CompletedProcess → CommandExecution
  append_result e piping command returncode result = with_output e (
      bounded_history
        (e.accumulated_output
          ++ (framed_cli_output command (
                result_body (is_some e.stdin) piping command returncode
                  (env.system.decode result.stdout) (env.system.decode result.stderr))
              ++ codes "\n"))
        (pos light_max_chars) history_truncation_marker)

  unfoldable pub next_outcome : CommandExecution → ℕ → Bytes → List Token × Bool → StepOutcome
  next_outcome e returncode stdout ([], piped) = finished (
      final_result e.accumulated_output
        (status_text returncode ++ (codes " (exit " ++ (decimal returncode ++ codes ")")))
        e.permission_history)
  next_outcome e returncode stdout (token ∷ tokens, piped) =
      continues (with_next e (token ∷ tokens) (piped_stdout piped stdout))

  unfoldable pub continue_or_finish : CommandExecution → ℕ → Bytes → StepOutcome
  continue_or_finish e returncode stdout =
      next_outcome e returncode stdout (next_command e.remaining returncode)

  unfoldable pub completed_result : CommandExecution → Text → CompletedProcess → StepOutcome
  completed_result e command result =
      if ltb max_command_output_chars (decoded_length result)
      then finished (
          final_result (too_large_text (decoded_length result))
            (codes "failure (output too large; exit "
              ++ (integer_text result.returncode ++ codes ")"))
            e.permission_history)
      else continue_or_finish
          (append_result e (pipes_into (split_command e.remaining).1) command
            (normalised result.returncode) result)
          (normalised result.returncode) result.stdout

  unfoldable pub execute_outcome :
      CommandExecution → Text → Result Text CompletedProcess → StepOutcome
  execute_outcome e command (err message) = finished (
      final_result (e.accumulated_output ++ framed_cli_output command message)
        (codes "failure (execution error)") e.permission_history)
  execute_outcome e command (ok result) = completed_result e command result

  -- `execute_file_command`, on the status and the message of the guard's result.
  unfoldable pub execute_file_command :
      GuardStatus → Option Text → CommandExecution → W → StepOutcome × W
  execute_file_command status message e w =
      elim (command_label e.ready (split_command e.remaining).0) [
        | none ↦ (raised, w)
        | some command ↦
            let recorded = with_permission e (recorded_permission message e.permission_history) in
            let (process, after) =
              step_process (failure_of status message e.failure) e.ready e.stdin w in
            (execute_outcome recorded command process, after)
      ]

  abbrev pub message_text : Option GuardMessage → Option Text
  message_text none = none
  message_text (some message) = some (env.guard_message message)

  -- One round of the chain of tools: resolve or continue, guard, execute.
  unfoldable pub step : CommandExecution → W → StepOutcome × W
  step e w = elim (prepare_step e w) [
    | none ↦ (raised, w)
    | some (ready, items) ↦
        let (verdict, exchanges) = guard_step items w in
        execute_file_command verdict.status (message_text verdict.message) ready
          (env.heard exchanges w)
  ]

  abbrev pub after_step :
      (CommandExecution → W → Option (Option Report × W))
      → StepOutcome × W
      → Option (Option Report × W)
  after_step rest (continues next, after) = rest next after
  after_step rest (finished report, after) = some (some report, after)
  after_step rest (raised, after) = some (none, after)

  -- The tool `continue` feeds an execution back to the guard; a report ends the chain. `none` is
  -- the lack of fuel, and a report of `none` an IndexError.
  unfoldable pub chain : ℕ → CommandExecution → W → Option (Option Report × W)
  chain zero e w = none
  chain (suc fuel) e w = after_step (chain fuel) (step e w)
