-- ===== src/Cli/Tokens.antt =====
-- tokens.py: the arguments of a command against its token rules. The children have the proofs.
pub mod Options
pub mod Steps
pub mod Layout
use roboz.Prelude.{
  ℕ, zero, suc, ◌+◌, String, str_eq, ◌≡◌, refl, Bool, true, false, not, ◌&&◌, ◌||◌, Option, none,
  some, List, [], ◌∷◌, ◌++◌, Result, ok, err, ◌>>=◌, ◌>>◌, raise_if, if◌then◌else◌,
}
use roboz.Cli.Contracts.{
  TokenTag, cmd_tag, flg_tag, arg_tag, pth_tag, Token, cmd, flg, arg, pth, tag, value, tag_eq,
  CommandName, command_text, TokenRule, ParsedCommand,
}

pub data TokenError : Type 0 where
  first_token unsupported_token option_after_terminator option_after_operand repeated_option :
      TokenError
  missing_option_value forbidden_pair : TokenError

-- `_matching_rule`: the first rule of the command that has the tag and matches the whole value.
unfoldable pub matching_rule : Token → List TokenRule → Result TokenError TokenRule
matching_rule token [] = err unsupported_token
matching_rule token (rule ∷ rules) =
    if tag_eq (tag token) rule.tag && rule.fullmatch (value token)
    then ok rule
    else matching_rule token rules

unfoldable pub has_option : String → List (String × ℕ) → Bool
has_option key [] = false
has_option key ((name, index) ∷ options) = str_eq name key || has_option key options

-- The variables of the loop of `_parse_arguments`.
pub record Progress : Type 0 where
  pub operands : List ℕ
  pub options : List (String × ℕ)
  pub options_ended : Bool

abbrev pub is_empty : List ℕ → Bool
is_empty [] = true
is_empty (_ ∷ _) = false

module _ (allowed : List TokenRule) where
  abbrev add_option :
      ℕ → Progress → TokenRule → String → Result TokenError (Progress × Option TokenTag)
  add_option index p rule name = do
    raise_if p.options_ended option_after_terminator
    raise_if (not (is_empty p.operands)) option_after_operand
    raise_if (has_option name p.options) repeated_option
    ok (
      record p { options = p.options ++ (name, index) ∷ []; options_ended = rule.ends_options },
      rule.takes,
    )

  abbrev place : ℕ → Progress → TokenRule → Result TokenError (Progress × Option TokenTag)
  place index p rule = elim (rule.option) [
    | none ↦ ok (record p { operands = p.operands ++ index ∷ [] }, none)
    | some name ↦ add_option index p rule name
  ]

  -- One token: the new variables, and the tag that the next token must have as its value.
  unfoldable pub admit : ℕ → Token → Progress → Result TokenError (Progress × Option TokenTag)
  admit index token p = matching_rule token allowed >>= place index p

  unfoldable pub option_value : TokenTag → Token → Result TokenError (Unit {0})
  option_value takes following = do
    raise_if (not (tag_eq (tag following) takes)) missing_option_value
    rule ← matching_rule following allowed
    ok tt

  unfoldable pub parse_from : ℕ → List Token → Progress → Result TokenError Progress
  parse_from index [] p = ok p
  parse_from index (token ∷ []) p = admit index token p >>= λ next. elim (next.1) [
    | none ↦ ok next.0
    | some takes ↦ err missing_option_value
  ]
  parse_from index (token ∷ following ∷ tokens) p = admit index token p >>= λ next. elim (next.1) [
    | none ↦ parse_from (suc index) (following ∷ tokens) next.0
    | some takes ↦ option_value takes following >>= λ _. parse_from (suc (suc index)) tokens next.0
  ]

abbrev fresh : Progress
fresh = record { operands = []; options = []; options_ended = false }

abbrev parsed_of : List Token → Progress → ParsedCommand
parsed_of tokens p = record { tokens = tokens; operands = p.operands; options = p.options }

unfoldable pub parse_arguments :
    List TokenRule → Token → List Token → Result TokenError ParsedCommand
parse_arguments allowed first arguments = do
  p ← parse_from allowed 1 arguments fresh
  ok (parsed_of (first ∷ arguments) p)

unfoldable pub check_pairs :
    List (String × String) → List (String × ℕ) → Result TokenError (Unit {0})
check_pairs [] options = ok tt
check_pairs ((left, right) ∷ pairs) options =
    raise_if (has_option left options && has_option right options) forbidden_pair
    >> check_pairs pairs options

-- The part of a `CommandSpec` that the validation reads.
pub record TokenPolicy : Type 0 where
  pub command : CommandName
  pub allowed : List TokenRule
  pub forbidden_pairs : List (String × String)

abbrev is_command : CommandName → Token → Bool
is_command name (cmd other) = str_eq (command_text other) (command_text name)
is_command name _ = false

unfoldable pub validate_tokens : List Token → TokenPolicy → Result TokenError ParsedCommand
validate_tokens [] spec = err first_token
validate_tokens (first ∷ arguments) spec = do
  raise_if (not (is_command spec.command first)) first_token
  parsed ← parse_arguments spec.allowed first arguments
  check_pairs spec.forbidden_pairs parsed.options
  ok parsed
