-- ===== src/Truncation.antt =====
-- models/truncation.py and llm/_truncation.py: which messages of a conversation reach the model,
-- and how much of each.
pub mod Select
pub mod Content
pub mod Context
use roboz.Prelude.{
  ℕ, Bool, true, false, ◌&&◌, ◌||◌, Option, none, some, List, [], ◌∷◌, ltb, leb, ◌==◌,
  if◌then◌else◌,
}
use roboz.Prelude.Int.{ℤ, pos, negsuc, leb_ℤ}

abbrev pub light_max_chars : ℕ
light_max_chars = 40000

pub data Severity : Type 0 where
  light stub remove : Severity

-- A negative threshold matches nothing.
pub record Truncation : Type 0 where
  pub threshold : ℤ
  pub severity : Severity

pub data TruncationSpec : Type 0 where
  single : Truncation → TruncationSpec
  graded : List Truncation → TruncationSpec

unfoldable pub to_rules_list : TruncationSpec → List Truncation
to_rules_list (single rule) = rule ∷ []
to_rules_list (graded rules) = rules

-- The members of the `IntEnum`.
abbrev pub rank : Severity → ℕ
rank light = 1
rank stub = 2
rank remove = 3

-- `DEFAULT`, `NO_TRUNCATION`, `NO_MESSAGE`, `ERROR_RETRY` and `GRADED`
abbrev pub rule : ℤ → Severity → Truncation
rule threshold severity = record { threshold = threshold; severity = severity }

abbrev pub default_truncation : TruncationSpec
default_truncation = single (rule (pos 0) light)

abbrev pub no_truncation : TruncationSpec
no_truncation = single (rule (negsuc 0) light)

abbrev pub no_message : TruncationSpec
no_message = single (rule (pos 0) remove)

abbrev pub error_retry : TruncationSpec
error_retry = graded (rule (pos 0) light ∷ rule (pos 5) remove ∷ [])

abbrev pub graded_output : TruncationSpec
graded_output = graded (rule (pos 0) light ∷ rule (pos 50) stub ∷ rule (pos 200) remove ∷ [])

unfoldable pub applies : ℕ → Truncation → Bool
applies distance rule = leb_ℤ (pos 0) rule.threshold && leb_ℤ rule.threshold (pos distance)

unfoldable pub applicable : ℕ → List Truncation → List Truncation
applicable distance [] = []
applicable distance (rule ∷ rules) =
    let rest = applicable distance rules in if applies distance rule then rule ∷ rest else rest

-- The order of the keys (threshold, severity).
unfoldable pub key_less : Truncation → Truncation → Bool
key_less r s =
    if leb_ℤ s.threshold r.threshold
    then leb_ℤ r.threshold s.threshold && ltb (rank r.severity) (rank s.severity)
    else true

-- `max` keeps the first of equal keys.
unfoldable pub best_of : Truncation → List Truncation → Truncation
best_of best [] = best
best_of best (rule ∷ rules) = best_of (if key_less best rule then rule else best) rules

unfoldable pub max_rule : List Truncation → Option Truncation
max_rule [] = none
max_rule (rule ∷ rules) = some (best_of rule rules)

unfoldable pub select_truncation : ℕ → TruncationSpec → Option Truncation
select_truncation distance rules = max_rule (applicable distance (to_rules_list rules))
