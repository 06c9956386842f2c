-- ===== src/Tests/Truncation.antt =====
-- Conversations cut for the model, and the theorems at them.
use roboz.Prelude.{ℕ, ◌+◌, ◌≡◌, refl, true, false, Option, none, some, List, [], ◌∷◌, Memᴰ}
use roboz.Prelude.Int.{pos}
use roboz.Prelude.Text.{Text, codes}
use roboz.Truncation.{
  Severity, light, stub, remove, Truncation, TruncationSpec, single, graded, rule, to_rules_list,
  default_truncation, no_message, no_truncation, graded_output, applies, key_less,
  select_truncation,
}
use roboz.Truncation.Select.{select_truncation-IsMax}
use roboz.Truncation.Content.{
  Json, text, array, item, no_items, truncate_str_values, IsShort, truncate_str_values-IsShort,
}
use roboz.Truncation.Context.{
  Role, system, user, Message, get_truncated_messages, by_age, systems,
  get_truncated_messages-by_age, systems-get_truncated_messages,
}

select_truncation-IsMax_example :
    Memᴰ (rule (pos 50) stub) (to_rules_list graded_output)
    × (applies 60 (rule (pos 50) stub) ≡ true)
    × ((s : Truncation)
        → Memᴰ s (to_rules_list graded_output)
        → applies 60 s ≡ true
        → key_less (rule (pos 50) stub) s ≡ false)
unfolding select_truncation roboz.Truncation.max_rule roboz.Truncation.applicable to_rules_list
    applies roboz.Truncation.best_of key_less
select_truncation-IsMax_example = select_truncation-IsMax 60 graded_output refl

abbrev value : Json
value = array (item (text (codes "long text")) (item (text (codes "abc")) no_items))

truncate_str_values-IsShort_example :
    IsShort (4 + 3) (truncate_str_values 4 value)
    × (truncate_str_values 4 (truncate_str_values 4 value) ≡ truncate_str_values 4 value)
    × (IsShort 4 value → truncate_str_values 4 value ≡ value)
truncate_str_values-IsShort_example = truncate_str_values-IsShort 4 value

abbrev said : Role → Text → TruncationSpec → Message ℕ
said role content truncation = record {
  role = role;
  content = content;
  images = 7 ∷ [];
  truncation = truncation;
}

abbrev conversation : List (Message ℕ)
conversation =
    said system (codes "rules") no_message
    ∷ said user (codes "gone") no_message
    ∷ said user (codes "hello") default_truncation
    ∷ []

-- Keeps the first two characters, and drops what is to be removed.
abbrev two_characters : Text → Severity → Option Text
two_characters content remove = none
two_characters (a ∷ b ∷ rest) severity = some (a ∷ b ∷ [])
two_characters content severity = some content

cut :
    get_truncated_messages select_truncation two_characters conversation
    ≡ said system (codes "rules") no_message ∷ said user (codes "he") default_truncation ∷ []
unfolding get_truncated_messages roboz.Truncation.Context.context_from
    roboz.Truncation.Context.add_some roboz.Truncation.Context.surviving select_truncation
    roboz.Truncation.max_rule roboz.Truncation.applicable to_rules_list applies
    roboz.Truncation.Context.truncate_message roboz.Truncation.best_of
cut = refl

get_truncated_messages-by_age_example :
    get_truncated_messages select_truncation two_characters conversation
    ≡ by_age select_truncation two_characters conversation
get_truncated_messages-by_age_example =
    get_truncated_messages-by_age select_truncation two_characters conversation

systems-get_truncated_messages_example :
    systems select_truncation two_characters
      (get_truncated_messages select_truncation two_characters conversation)
    ≡ systems select_truncation two_characters conversation
systems-get_truncated_messages_example =
    systems-get_truncated_messages select_truncation two_characters conversation
