-- ===== src/Compaction.antt =====
-- shed/tools/compactification/summarize.py and summary_prompts.py: the summary of a conversation,
-- asked for again when it is too long. A message is its role and its content.
pub mod Shortest
pub mod Compactify
pub mod Prefix
pub mod Replaced
use roboz.Prelude.{
  ℕ, zero, suc, ◌+◌, ◌-◌, ◌*◌, ◌/◌, ◌%◌, max, ◌≡◌, refl, Bool, true, false, Option, none, some,
  List, [], ◌∷◌, ◌++◌, ltb, leb, ◌==◌, if◌then◌else◌, length, Result, ok, err,
}
use roboz.Prelude.Text.{Text, codes, decimal, strip}
use roboz.Truncation.Context.{Role, system, user, assistant}

abbrev pub summary_length_attempts : ℕ
summary_length_attempts = 3

abbrev pub Note : Type 0
Note = Role × Text

-- `max_chars` with the accepted length that the tolerance, a whole number of per cent, makes of it.
pub record Limit : Type 0 where
  pub max_chars : ℕ
  pub accepted_max_chars : ℕ

unfoldable pub accepted_max_chars : ℕ → ℕ → ℕ
accepted_max_chars max_chars tolerance_percent = (max_chars * (100 + tolerance_percent) + 99) / 100

unfoldable pub limit_of : Option ℕ → ℕ → Option Limit
unfolding accepted_max_chars
limit_of none tolerance_percent = none
limit_of (some max_chars) tolerance_percent = some (record {
  max_chars = max_chars;
  accepted_max_chars = accepted_max_chars max_chars tolerance_percent;
})

-- `round` of the fraction of two numbers, to the even neighbour of a half
unfoldable pub round_fraction : ℕ → ℕ → ℕ
round_fraction n d =
    if ltb (2 * (n % d)) d
    then n / d
    else if ltb d (2 * (n % d))
    then n / d + 1
    else n / d + n / d % 2

unfoldable pub overage : ℕ → ℕ → Text
unfolding round_fraction decimal
overage response_chars max_chars =
    if ltb 0 max_chars
    then codes "roughly "
      ++ (decimal (max 1 (round_fraction ((response_chars - max_chars) * 100) max_chars))
          ++ codes "% over")
    else codes "over"

unfoldable pub build_summary_length_feedback : ℕ → ℕ → Text
unfolding overage
build_summary_length_feedback response_chars max_chars =
    codes "The response was "
    ++ (overage response_chars max_chars
        ++ codes
            " the requested budget. Rewrite it substantially shorter. Use that percentage only as a rough guide; do not count characters or preserve content merely because it appeared before. Remove complete low-priority items first and leave comfortable headroom.")

unfoldable pub size_instructions : Option ℕ → Text
unfolding decimal
size_instructions none = []
size_instructions (some max_chars) =
    codes "\n\n## Output size\n\nThe requested budget for the decoded `value` string is "
    ++ (decimal max_chars
        ++ codes
            " characters. Do not count characters or pack the response to the boundary. Select decisively, drop the least important content first, and aim comfortably below the budget.")

unfoldable pub build_summary_user_prompt : Text → Text → Option ℕ → Text
unfolding size_instructions
build_summary_user_prompt instructions conversation max_chars =
    codes "## Instructions\n\n"
    ++ (instructions
        ++ (size_instructions max_chars
            ++ (codes "\n\n## Conversation content\n\n" ++ conversation)))

pub data SummaryError (E : Type 0) : Type 0 where
  instructions_empty : SummaryError E
  provider : E → SummaryError E

-- What the summary uses: a completion of the model, Python's json for an object with the one field
-- `value`, the text of a system prompt, and the event pipe, which may be missing.
pub record Services (W E : Type 0) : Type 0 where
  pub complete_summary : List Note → W → Result E Text × W
  pub dumps_value : Text → Text
  pub basic_system_prompt : Text → Text
  pub pipe : Option (Note → W → W)

module _ {W E : Type 0} (services : Services W E) where
  abbrev pub Answer : Type 0
  Answer = Result (SummaryError E) Text × List Note × W

  unfoldable pub pipe_all : List Note → W → W
  pipe_all [] w = w
  pipe_all (note ∷ notes) w = elim services.pipe [
    | none ↦ w
    | some pipe ↦ pipe_all notes (pipe note w)
  ]

  unfoldable pub feedback : Text → ℕ → List Note
  unfolding build_summary_length_feedback
  feedback response max_chars =
      (assistant, services.dumps_value response)
      ∷ (user, build_summary_length_feedback (length response) max_chars)
      ∷ []

  -- `if not shortest or len(response) < len(shortest)`
  unfoldable pub shorter : Text → Text → Text
  shorter [] response = response
  shorter (c ∷ shortest) response =
      if ltb (length response) (length (c ∷ shortest)) then response else c ∷ shortest

  -- The limit that a response goes beyond.
  unfoldable pub exceeded : Option Limit → Text → Option ℕ
  exceeded none response = none
  exceeded (some limit) response =
      if leb (length response) limit.accepted_max_chars then none else some limit.max_chars

  -- What a round does with the response; `again` are the rounds behind it.
  unfoldable pub after_response :
      (Text → List Note → W → Answer) → Text → List Note → Option ℕ → Text → W → Answer
  after_response again shortest messages none response w = (ok response, messages, w)
  after_response again shortest messages (some max_chars) response w =
      again (shorter shortest response) (messages ++ feedback response max_chars)
        (pipe_all (feedback response max_chars) w)

  unfoldable pub after_completion :
      (Text → List Note → W → Answer) → Option Limit → Text → List Note → Result E Text × W → Answer
  after_completion again limit shortest messages (err error, w) =
      (err (provider error), messages, w)
  after_completion again limit shortest messages (ok response, w) =
      after_response again shortest messages (exceeded limit response) response w

  -- The loop, with so many attempts left.
  unfoldable pub complete_from : Option Limit → ℕ → Text → List Note → W → Answer
  complete_from limit zero shortest messages w = (ok shortest, messages, w)
  complete_from limit (suc left) shortest messages w =
      after_completion (complete_from limit left) limit shortest messages
        (services.complete_summary messages w)

  unfoldable pub attempts_of : Option Limit → ℕ
  attempts_of none = 1
  attempts_of (some limit) = summary_length_attempts

  unfoldable pub complete_with_length_limit : Option ℕ → ℕ → List Note → W → Answer
  unfolding limit_of
  complete_with_length_limit max_chars tolerance_percent messages w =
      let limit = limit_of max_chars tolerance_percent in
      complete_from limit (attempts_of limit) [] messages w

  unfoldable pub initial_messages : Text → Text → Text → Option ℕ → List Note
  unfolding build_summary_user_prompt
  initial_messages system_prompt instructions conversation max_chars =
      (system, services.basic_system_prompt system_prompt)
      ∷ (user, build_summary_user_prompt instructions conversation max_chars)
      ∷ []

  unfoldable pub summarize :
      (instructions system_prompt conversation : Text) → Option ℕ → ℕ → W → Answer
  summarize [] system_prompt conversation max_chars tolerance_percent w =
      (err instructions_empty, [], w)
  summarize (c ∷ instructions) system_prompt conversation max_chars tolerance_percent w =
      let messages = initial_messages system_prompt (c ∷ instructions) conversation max_chars in
      complete_with_length_limit max_chars tolerance_percent messages (pipe_all messages w)

  unfoldable pub summarize_conversation_segment :
      (instructions system_prompt conversation : Text) → Option ℕ → ℕ → W → Answer
  unfolding strip
  summarize_conversation_segment instructions = summarize (strip instructions)
