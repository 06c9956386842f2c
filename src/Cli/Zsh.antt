-- ===== src/Cli/Zsh.antt =====
-- The meaning that zsh gives to a list of pipelines, written over its grammar, as the specification
-- of sequence.py. The children compare it with the stream of tokens.
pub mod Stream
pub mod Grammar
use roboz.Prelude.{
  ℕ, Bool, true, false, not, String, List, [], ◌∷◌, ◌++◌, map, ◌==◌, Result, ok, ◌>>=◌,
  if◌then◌else◌,
}
use roboz.Cli.Contracts.{
  Token, cmd, ctl, flg, arg, pth, CommandName, ControlOperator, and_then, or_else, semicolon, bar,
}

-- What may stand behind the name of a command.
pub data Word : Type 0 where
  flag_word argument_word path_word : String → Word

abbrev pub word_token : Word → Token
word_token (flag_word text) = flg text
word_token (argument_word text) = arg text
word_token (path_word text) = pth text

pub record Command : Type 0 where
  pub name : CommandName
  pub words : List Word

-- command | command | …
pub data Pipeline : Type 0 where
  last : Command → Pipeline
  feed : Command → Pipeline → Pipeline

pub data Connector : Type 0 where
  on_success on_failure always : Connector

abbrev pub connector_operator : Connector → ControlOperator
connector_operator on_success = and_then
connector_operator on_failure = or_else
connector_operator always = semicolon

-- A first pipeline, and the others with the connector in front of each.
pub record Script : Type 0 where
  pub first : Pipeline
  pub rest : List (Connector × Pipeline)

-- The tokens of each phrase, with the tokens that follow it.
abbrev pub command_tokens : Command → List Token
command_tokens c = cmd c.name ∷ map word_token c.words

abbrev pub pipeline_tokens : Pipeline → List Token → List Token
pipeline_tokens (last c) tail = command_tokens c ++ tail
pipeline_tokens (feed c p) tail = command_tokens c ++ (ctl bar ∷ pipeline_tokens p tail)

abbrev pub rest_tokens : List (Connector × Pipeline) → List Token
rest_tokens [] = []
rest_tokens ((connector, p) ∷ rest) =
    ctl (connector_operator connector) ∷ pipeline_tokens p (rest_tokens rest)

abbrev pub script_tokens : Script → List Token
script_tokens script = pipeline_tokens script.first (rest_tokens script.rest)

abbrev pub runs_after : Connector → ℕ → Bool
runs_after on_success status = status == 0
runs_after on_failure status = not (status == 0)
runs_after always status = true

-- `run tokens piped piping s` runs one command; `piped` says that it reads the output before it, and
-- `piping` that the next command reads its own. An `err` is an outcome that ends the whole script.
module _ {S H : Type 0} (run : List Token → Bool → Bool → S → Result H (S × ℕ)) where
  -- Every command of a pipeline runs, and the status is that of the last.
  abbrev pub eval_pipeline : Bool → Pipeline → S → Result H (S × ℕ)
  eval_pipeline piped (last c) s = run (command_tokens c) piped false s
  eval_pipeline piped (feed c p) s =
      run (command_tokens c) piped true s >>= λ done. eval_pipeline true p done.0

  -- A pipeline that its connector skips leaves the status as it was.
  abbrev pub eval_rest : List (Connector × Pipeline) → S × ℕ → Result H (S × ℕ)
  eval_rest [] done = ok done
  eval_rest ((connector, p) ∷ rest) done =
      (if runs_after connector done.1 then eval_pipeline false p done.0 else ok done) >>= λ next.
      eval_rest rest next

  abbrev pub eval_script : Script → S → Result H (S × ℕ)
  eval_script script s = eval_pipeline false script.first s >>= eval_rest script.rest
