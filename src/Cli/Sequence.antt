-- ===== src/Cli/Sequence.antt =====
-- sequence.py: consuming a token stream by its control operators.
use roboz.Prelude.{ℕ, ◌≡◌, refl, Bool, true, false, not, List, [], ◌∷◌, ◌==◌, if◌then◌else◌}
use roboz.Cli.Contracts.{
  Token, cmd, ctl, pth, ControlOperator, and_then, or_else, semicolon, bar, cat, head,
}

abbrev pub is_control : Token → Bool
is_control (ctl _) = true
is_control _ = false

abbrev cons_first : Token → List Token × List Token → List Token × List Token
cons_first token (before, after) = (token ∷ before, after)

-- The current command, and the rest of the stream from its control operator on.
unfoldable pub split_command : List Token → List Token × List Token
split_command [] = ([], [])
split_command (token ∷ tokens) =
    if is_control token then ([], token ∷ tokens) else cons_first token (split_command tokens)

-- The `match` on the operator: whether the pipeline behind it runs.
abbrev pub pipeline_enabled : ControlOperator → Bool → ℕ → Bool
pipeline_enabled and_then run returncode = returncode == 0
pipeline_enabled or_else run returncode = not (returncode == 0)
pipeline_enabled semicolon run returncode = true
pipeline_enabled bar run returncode = run

abbrev is_bar : ControlOperator → Bool
is_bar bar = true
is_bar _ = false

-- The loop of `next_command`, with its variable `run_pipeline`.
unfoldable pub next_from : Bool → List Token → ℕ → List Token × Bool
next_from run [] returncode = ([], false)
next_from run (ctl operator ∷ tokens) returncode = elim (pipeline_enabled operator run returncode) [
  | true ↦ (tokens, is_bar operator)
  | false ↦ next_from false tokens returncode
]
next_from run (_ ∷ tokens) returncode = next_from run tokens returncode

unfoldable pub next_command : List Token → ℕ → List Token × Bool
unfolding next_from
next_command tokens returncode = next_from true tokens returncode

-- Whether a tail feeds the next command: `tail and tail[0] == ("|", "CTL")`
unfoldable pub pipes_into : List Token → Bool
pipes_into (ctl bar ∷ tokens) = true
pipes_into _ = false

-- cat a && head b ; head c
abbrev sample : List Token
sample =
    cmd cat ∷ pth "a" ∷ ctl and_then ∷ cmd head ∷ pth "b" ∷ ctl semicolon ∷ cmd head ∷ pth "c" ∷ []

split_command-sample : split_command sample ≡ (
  cmd cat ∷ pth "a" ∷ [],
  ctl and_then ∷ cmd head ∷ pth "b" ∷ ctl semicolon ∷ cmd head ∷ pth "c" ∷ [],
)
unfolding split_command
split_command-sample = refl

next_command_skips : next_command sample 1 ≡ (cmd head ∷ pth "c" ∷ [], false)
unfolding next_command
next_command_skips = refl
