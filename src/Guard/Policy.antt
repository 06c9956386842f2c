-- ===== src/Guard/Policy.antt =====
-- Rules, policy verdicts and the policy check.
use roboz.Prelude.{
  Bool, true, false, ◌&&◌, ◌||◌, not, Option, none, some, List, [], ◌∷◌, ◌++◌, if◌then◌else◌,
}
use roboz.Prelude.Text.{Text, codes, text_eq, starts_with, ends_with, without_last, join}

pub data ActionVerdict : Type 0 where
  deny allow : ActionVerdict

pub data GuardStatus : Type 0 where
  allowed denied : GuardStatus

pub data GuardDenyReason : Type 0 where
  user_declined policy_denied : GuardDenyReason

pub data Operation : Type 0 where
  read create delete stage : Operation

unfoldable pub operation_eq : Operation → Operation → Bool
operation_eq read read = true
operation_eq create create = true
operation_eq delete delete = true
operation_eq stage stage = true
operation_eq _ _ = false

-- A path of pathlib: its parts, and whether it is absolute.
pub record FilePath : Type 0 where
  pub absolute : Bool
  pub parts : List Text

unfoldable pub relative_text : List Text → Text
unfolding join
relative_text [] = codes "."
relative_text (part ∷ parts) = join (codes "/") (part ∷ parts)

-- `path.as_posix()`
unfoldable pub as_posix : FilePath → Text
unfolding relative_text join
as_posix path = elim (path.absolute) [
  | true ↦ codes "/" ++ join (codes "/") path.parts
  | false ↦ relative_text path.parts
]

-- The part of `relative_to` that compares: the parts behind the prefix.
unfoldable pub strip_parts : List Text → List Text → Option (List Text)
strip_parts [] parts = some parts
strip_parts (b ∷ base) [] = none
strip_parts (b ∷ base) (p ∷ parts) = if text_eq b p then strip_parts base parts else none

pub data RulePattern : Type 0 where
  literal : Text → RulePattern
  callback : (Unit {0} → Text) → RulePattern

unfoldable pub pattern_text : RulePattern → Text
pattern_text (literal text) = text
pattern_text (callback make) = make tt

pub record PermissionRule : Type 0 where
  pub pattern : RulePattern
  pub operations : List Operation

unfoldable pub has_operation : Operation → List Operation → Bool
has_operation operation [] = false
has_operation operation (other ∷ operations) =
    operation_eq operation other || has_operation operation operations

-- One location to guard, with the payload of the calling tool.
pub record GuardFileSingle (V : Type 0) : Type 0 where
  pub operation : Operation
  pub location : FilePath
  pub value : V

pub record GuardFileSingleResult (V : Type 0) : Type 0 where
  pub location : FilePath
  pub value : V
  pub verdict : ActionVerdict

pub record GuardContext : Type 0 where
  pub takes_precedence : ActionVerdict
  pub deny_rules : List PermissionRule
  pub allow_rules : List PermissionRule
  pub ask_rules : List PermissionRule
  pub default_verdict : ActionVerdict
  pub has_pipe : Bool

unfoldable pub policy_verdict : Bool → Bool → GuardContext → ActionVerdict
policy_verdict true true ctx = ctx.takes_precedence
policy_verdict true false ctx = allow
policy_verdict false true ctx = deny
policy_verdict false false ctx = ctx.default_verdict

-- Both paths are absolute, or none is.
abbrev pub same_anchor : FilePath → FilePath → Bool
same_anchor base path = if base.absolute then path.absolute else not path.absolute

-- `full_match` is pathlib's, on a path and the text of a pattern.
module _ (full_match : FilePath → Text → Bool) (base : FilePath) where
  -- The path that a pattern is compared with. `none` is the ValueError of `relative_to`.
  unfoldable pub comparable : Text → FilePath → Option FilePath
  unfolding strip_parts starts_with text_eq
  comparable pattern path =
      if starts_with (codes "/") pattern
      then some path
      else if same_anchor base path
      then (elim (strip_parts base.parts path.parts) [
        | none ↦ none
        | some parts ↦ some (record { absolute = false; parts = parts })
      ])
      else none

  unfoldable pub path_matches : Text → FilePath → Bool
  unfolding as_posix ends_with text_eq without_last
  path_matches pattern path =
      ends_with (codes "/**") pattern && text_eq (as_posix path) (without_last 3 pattern)
      || full_match path pattern

  unfoldable pub rule_matches : {V : Type 0} → PermissionRule → GuardFileSingle V → Bool
  unfolding has_operation operation_eq pattern_text comparable path_matches
  rule_matches rule item =
      if has_operation item.operation rule.operations
      then (elim (comparable (pattern_text rule.pattern) item.location) [
        | none ↦ false
        | some path ↦ path_matches (pattern_text rule.pattern) path
      ])
      else false

  -- `_matches`: the first rule that matches ends the loop.
  unfoldable pub matches : {V : Type 0} → List PermissionRule → GuardFileSingle V → Bool
  matches [] item = false
  matches (rule ∷ rules) item = rule_matches rule item || matches rules item

  unfoldable pub item_verdict : {V : Type 0} → GuardContext → GuardFileSingle V → ActionVerdict
  item_verdict ctx item =
      policy_verdict (matches ctx.allow_rules item) (matches ctx.deny_rules item) ctx

  -- The item of the first denial of `_check_policy`.
  unfoldable pub first_denied :
      {V : Type 0} → GuardContext → List (GuardFileSingle V) → Option (GuardFileSingle V)
  first_denied ctx [] = none
  first_denied ctx (item ∷ items) = elim (item_verdict ctx item) [
    | deny ↦ some item
    | allow ↦ first_denied ctx items
  ]
