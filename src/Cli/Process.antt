-- ===== src/Cli/Process.antt =====
-- execute.py, `_run_command`: launching a prepared command, and the exit codes of its failures.
use roboz.Prelude.{
  ℕ, String, Bool, true, false, Option, none, some, List, [], ◌∷◌, ◌++◌, drop, Result, ok, err,
  ◌>>=◌,
}
use roboz.Prelude.Int.{ℤ, pos}
use roboz.Prelude.Text.{Text, codes}
use roboz.Guard.Policy.{FilePath}

abbrev pub Bytes : Type 0
Bytes = List ℕ

pub record CompletedProcess : Type 0 where
  pub returncode : ℤ
  pub stdout : Bytes
  pub stderr : Bytes

pub record CommandReady : Type 0 where
  pub command_name : String
  pub argv : List Text
  pub base_workdir : FilePath
  pub display_command : Text
  pub stdin : Option Text

-- The exceptions, each with its text. `unexpected` is any exception that the code has no clause for.
pub data RequireError : Type 0 where
  missing : RequireError
  not_executable unexpected : Text → RequireError

pub data LaunchError : Type 0 where
  timeout_expired : LaunchError
  -- whether the file is the executable, and whether the working directory is one
  file_not_found : Bool → Bool → Text → LaunchError
  permission_error : Text → LaunchError
  -- whether the number is ENOEXEC
  os_error : Bool → Text → LaunchError
  launch_failed : Text → LaunchError

-- The operating system and the codec, on a world W of files and processes.
pub record System (W : Type 0) : Type 0 where
  pub require : String → W → Result RequireError Text
  pub run : List Text → FilePath → Bytes → W → Result LaunchError CompletedProcess × W
  -- an error of the codec is an exception, given by its text
  pub encode : Text → Result Text Bytes
  pub decode : Bytes → Text

module _ {W : Type 0} (system : System W) where
  unfoldable pub failed_with : ℕ → Text → Result Text CompletedProcess
  failed_with returncode message = system.encode message >>= λ bytes.
      ok (record { returncode = pos returncode; stdout = []; stderr = bytes })

  unfoldable pub launch_outcome : Result LaunchError CompletedProcess → Result Text CompletedProcess
  launch_outcome (ok process) = ok process
  launch_outcome (err timeout_expired) =
      failed_with 124 (codes "Command timed out after 60 seconds")
  launch_outcome (err (file_not_found true true message)) = failed_with 127 message
  launch_outcome (err (file_not_found _ _ message)) = err message
  launch_outcome (err (permission_error message)) = failed_with 126 message
  launch_outcome (err (os_error true message)) = failed_with 126 message
  launch_outcome (err (os_error false message)) = err message
  launch_outcome (err (launch_failed message)) = err message

  abbrev inline_text : Option Text → Text
  inline_text none = []
  inline_text (some text) = text

  unfoldable pub stdin_bytes : CommandReady → Option Bytes → Result Text Bytes
  stdin_bytes ready (some piped) = ok piped
  stdin_bytes ready none = system.encode (inline_text ready.stdin)

  -- `err` is an exception that leaves the function, given by its text.
  unfoldable pub launch : CommandReady → Option Bytes → Text → W → Result Text CompletedProcess × W
  launch ready stdin executable w = elim (stdin_bytes ready stdin) [
    | err message ↦ (err message, w)
    | ok bytes ↦
        let (outcome, after) =
          system.run (executable ∷ drop 1 ready.argv) ready.base_workdir bytes w in
        (launch_outcome outcome, after)
  ]

  unfoldable pub run_command : CommandReady → Option Bytes → W → Result Text CompletedProcess × W
  run_command ready stdin w = elim (system.require ready.command_name w) [
    | ok executable ↦ launch ready stdin executable w
    | err missing ↦ (
      failed_with 127 (codes "Command '" ++ (codes ready.command_name ++ codes "' not found")),
      w,
    )
    | err (not_executable message) ↦ (failed_with 126 message, w)
    | err (unexpected message) ↦ (err message, w)
  ]
