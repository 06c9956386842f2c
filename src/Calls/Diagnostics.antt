-- ===== src/Calls/Diagnostics.antt =====
-- llm/_diagnostics.py, LLMResponseDiagnostics, and the parts of a chunk that llm/calls.py reads.
use roboz.Prelude.{
  ℕ, ◌+◌, Bool, true, Option, none, some, List, [], ◌∷◌, length, if◌then◌else◌, String,
}
use roboz.Prelude.Text.{Text}

-- The values of a provider. `choices` of a response is a list or a false value.
pub record Values (V : Type 0) : Type 0 where
  -- `getattr(value, name, None)` and, for a dict, `value.get(name)`; none for None
  pub attr : String → V → Option V
  pub is_dict : V → Bool
  pub item : String → V → Option V
  -- the items of a list or a tuple
  pub elements : V → Option (List V)
  pub as_text : V → Option Text
  -- an int that is no bool
  pub as_number : V → Option ℕ

pub record Diagnostics : Type 0 where
  pub reasoning_chars : ℕ
  pub reasoning_chunks : ℕ
  pub reasoning_tokens : Option ℕ
  pub finish_reason : Option Text
  pub provider_generation_id : Option Text
  pub stream_chunks : Option ℕ
  pub content_chunks : Option ℕ

abbrev pub empty_diagnostics : Diagnostics
empty_diagnostics = record {
  reasoning_chars = 0;
  reasoning_chunks = 0;
  reasoning_tokens = none;
  finish_reason = none;
  provider_generation_id = none;
  stream_chunks = none;
  content_chunks = none;
}

abbrev pub for_stream : Diagnostics
for_stream = record empty_diagnostics { stream_chunks = some 0; content_chunks = some 0 }

-- `isinstance(text, str) and text`
abbrev pub or_else : {A : Type 0} → Option A → Option A → Option A
or_else (some new) old = some new
or_else none old = old

abbrev pub non_empty : Option Text → Option Text
non_empty none = none
non_empty (some []) = none
non_empty (some (c ∷ text)) = some (c ∷ text)

abbrev pub first_of : {A : Type 0} → Option (List A) → Option A
first_of none = none
first_of (some []) = none
first_of (some (x ∷ xs)) = some x

abbrev pub count_if : Bool → Option ℕ → Option ℕ
count_if counts none = none
count_if counts (some n) = some (n + (if counts then 1 else 0))

module _ {V : Type 0} (values : Values V) where
  abbrev text_in : Option V → Option Text
  text_in none = none
  text_in (some v) = non_empty (values.as_text v)

  -- `_field`
  unfoldable pub field : String → Option V → Option V
  field name none = none
  field name (some v) = if values.is_dict v then values.item name v else values.attr name v

  abbrev pub elements_in : Option V → Option (List V)
  elements_in none = none
  elements_in (some v) = values.elements v

  unfoldable pub first_choice : V → Option V
  unfolding field
  first_choice response = first_of (elements_in (field "choices" (some response)))

  -- The first field of some that is a text.
  unfoldable pub first_text : List String → V → Option Text
  unfolding field
  first_text [] v = none
  first_text (name ∷ names) v = or_else (text_in (field name (some v))) (first_text names v)

  abbrev chars_of : Option Text → ℕ
  chars_of none = 0
  chars_of (some text) = length text

  unfoldable pub detail_chars : List V → ℕ
  unfolding first_text
  detail_chars [] = 0
  detail_chars (detail ∷ details) =
      chars_of (first_text ("text" ∷ "summary" ∷ []) detail) + detail_chars details

  unfoldable pub observe_details : Option (List V) → Diagnostics → Diagnostics
  unfolding detail_chars
  observe_details none d = d
  observe_details (some []) d = d
  observe_details (some (detail ∷ details)) d = record d {
    reasoning_chunks = d.reasoning_chunks + 1;
    reasoning_chars = d.reasoning_chars + detail_chars (detail ∷ details);
  }

  unfoldable pub observe_direct : Option Text → Option (List V) → Diagnostics → Diagnostics
  unfolding observe_details
  observe_direct (some text) details d = record d {
    reasoning_chars = d.reasoning_chars + length text;
    reasoning_chunks = d.reasoning_chunks + 1;
  }
  observe_direct none details d = observe_details details d

  -- `_observe_reasoning`
  unfoldable pub observe_reasoning : Option V → Diagnostics → Diagnostics
  unfolding observe_direct field first_text
  observe_reasoning none d = d
  observe_reasoning (some v) d =
      observe_direct (first_text ("reasoning" ∷ "reasoning_content" ∷ []) v)
        (elements_in (field "reasoning_details" (some v))) d

  abbrev number_in : Option V → Option ℕ
  number_in none = none
  number_in (some v) = values.as_number v

  unfoldable pub observe_usage : Option V → Diagnostics → Diagnostics
  unfolding field
  observe_usage usage d =
      let tokens = number_in (field "reasoning_tokens" (field "completion_tokens_details" usage)) in
      record d { reasoning_tokens = or_else tokens d.reasoning_tokens }

  abbrev pub observed_finish : V → Option Text
  observed_finish chunk = text_in (field "finish_reason" (first_choice chunk))

  abbrev pub observed_id : V → Option Text
  observed_id chunk = text_in (field "id" (some chunk))

  unfoldable pub observe_chunk : V → Bool → Diagnostics → Diagnostics
  unfolding observe_reasoning first_choice field
  observe_chunk chunk has_content d =
      observe_reasoning (field "delta" (first_choice chunk)) (record d {
        stream_chunks = count_if true d.stream_chunks;
        content_chunks = count_if has_content d.content_chunks;
        provider_generation_id = or_else d.provider_generation_id (observed_id chunk);
        finish_reason = or_else (observed_finish chunk) d.finish_reason;
      })

  unfoldable pub from_response : V → Option V → Diagnostics
  unfolding observe_reasoning first_choice observe_usage field
  from_response response usage =
      let read = observe_reasoning (field "message" (first_choice response)) empty_diagnostics in
      let d = observe_usage usage read in
      record d {
        finish_reason = or_else (observed_finish response) d.finish_reason;
        provider_generation_id = or_else (observed_id response) d.provider_generation_id;
      }
