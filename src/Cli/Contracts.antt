-- ===== src/Cli/Contracts.antt =====
-- contracts.py: tokens, the field validator of `FileCommand`, and the parsed command.
use roboz.Prelude.{
  ℕ, String, ◌≡◌, arith, Bool, true, false, Option, List, [], ◌∷◌, map, Result, ok, err,
}

pub data CommandName : Type 0 where
  cp mv pwd cat head tail wc tee touch mkdir grep rg ls find diff gio rm : CommandName

-- && || ; |
pub data ControlOperator : Type 0 where
  and_then or_else semicolon bar : ControlOperator

pub data TokenTag : Type 0 where
  cmd_tag flg_tag arg_tag pth_tag ctl_tag : TokenTag

-- The tagged pairs. A command token holds one of the names and a control token one of the
-- operators, as the `Literal` types of the pairs demand.
pub data Token : Type 0 where
  cmd : CommandName → Token
  ctl : ControlOperator → Token
  flg arg pth : String → Token

abbrev pub tag : Token → TokenTag
tag (cmd _) = cmd_tag
tag (ctl _) = ctl_tag
tag (flg _) = flg_tag
tag (arg _) = arg_tag
tag (pth _) = pth_tag

abbrev pub command_text : CommandName → String
command_text cp = "cp"
command_text mv = "mv"
command_text pwd = "pwd"
command_text cat = "cat"
command_text head = "head"
command_text tail = "tail"
command_text wc = "wc"
command_text tee = "tee"
command_text touch = "touch"
command_text mkdir = "mkdir"
command_text grep = "grep"
command_text rg = "rg"
command_text ls = "ls"
command_text find = "find"
command_text diff = "diff"
command_text gio = "gio"
command_text rm = "rm"

abbrev pub operator_text : ControlOperator → String
operator_text and_then = "&&"
operator_text or_else = "||"
operator_text semicolon = ";"
operator_text bar = "|"

abbrev pub value : Token → String
value (cmd name) = command_text name
value (ctl operator) = operator_text operator
value (flg text) = text
value (arg text) = text
value (pth text) = text

-- The messages of `validate_sequence`, in the order of the source.
pub data SequenceError : Type 0 where
  operator_without_command not_a_command missing_operator dangling_operator : SequenceError

-- One round of the loop of `validate_sequence`: the new value of `expect_command`.
unfoldable pub expect_next : Bool → Token → Result SequenceError Bool
expect_next true (ctl _) = err operator_without_command
expect_next false (ctl _) = ok true
expect_next true (cmd _) = ok false
expect_next false (cmd _) = err missing_operator
expect_next true _ = err not_a_command
expect_next false _ = ok false

unfoldable pub sequence_from : Bool → List Token → Result SequenceError (Unit {0})
sequence_from true [] = err dangling_operator
sequence_from false [] = ok tt
sequence_from expect (token ∷ tokens) = elim (expect_next expect token) [
  | ok expect' ↦ sequence_from expect' tokens
  | err error ↦ err error
]

unfoldable pub validate_sequence : List Token → Result SequenceError (List Token)
unfolding sequence_from expect_next
validate_sequence tokens = elim (sequence_from true tokens) [
  | ok _ ↦ ok tokens
  | err error ↦ err error
]

-- A rule of a command: the compiled pattern stands as the test that `fullmatch` makes of it.
pub record TokenRule : Type 0 where
  pub tag : TokenTag
  pub fullmatch : String → Bool
  pub option : Option String
  pub takes : Option TokenTag
  pub ends_options : Bool

pub record ParsedCommand : Type 0 where
  pub tokens : List Token
  pub operands : List ℕ
  pub options : List (String × ℕ)

unfoldable pub argv : ParsedCommand → List String
argv parsed = map value parsed.tokens

abbrev pub tag_eq : TokenTag → TokenTag → Bool
tag_eq cmd_tag cmd_tag = true
tag_eq flg_tag flg_tag = true
tag_eq arg_tag arg_tag = true
tag_eq pth_tag pth_tag = true
tag_eq ctl_tag ctl_tag = true
tag_eq _ _ = false

pub tag_eq→eq : (a b : TokenTag) → tag_eq a b ≡ true → a ≡ b
tag_eq→eq a b h = ground arith
