-- ===== src/Tests/Completion.antt =====
-- A completion with a repair, and the theorems at it.
use roboz.Prelude.{
  ℕ, suc, ◌+◌, ◌≡◌, refl, true, false, Option, none, some, List, [], ◌∷◌, Result, ok, err, length,
  ◌==◌, if◌then◌else◌,
}
use roboz.Prelude.Text.{Text, codes, starts_with, text_eq}
use roboz.Truncation.{no_truncation}
use roboz.Truncation.Context.{user, Message}
use roboz.Truncation.Content.{Json, text, object, Fields, no_fields, field, lookup}
use roboz.Completion.{Failure, Tool, Reader, decode_raw_json, last_part, parse_response}
use roboz.Completion.Repair.{Setting, Reply, structured, get_completion}
use roboz.Completion.Accepted.{Accepted, parse_response-Accepted}
use roboz.Completion.Attempts.{Ended, get_completion-Ended}

abbrev invocation : Fields
invocation =
    field (codes "action") (text (codes "add"))
      (field (codes "rationale") (text (codes "asked")) no_fields)

abbrev reader : Reader
reader = record {
  open_fence = λ s. none;
  close_fence = λ s. none;
  raw_decode = λ s. if text_eq s (codes "{add}") then some (object invocation, 5) else none;
  invoke_accepts = λ fields. true;
}

abbrev add : Tool
add = record { name = codes "add"; accepts = λ fields. text_eq (codes "") (codes "") }

last_thought : last_part (codes "a</t>b</t>c") (codes "</t>") ≡ codes "c"
unfolding last_part roboz.Completion.last_part_from roboz.Prelude.Text.starts_with
last_thought = refl

-- The first reply holds no object, the second has one behind a prefix.
abbrev setting : Setting (Unit {0}) ℕ ℕ
setting = record {
  action_fix_prompt = codes "no such action";
  json_fix_prompt = codes "send json";
  pydantic_fix_prompt = codes "wrong fields";
  error_trace = λ e. codes "error";
  reduce_escapes = λ t. t;
  reader = reader;
  request = λ messages w.
      (ok (if w == 0 then codes "hm" else codes "so {add}", (codes "model", none) ∷ []), suc w);
  truncate_for_context = λ messages. messages;
  on_attempt_start = λ w. w;
  pipe = λ message w. w;
  include_raw_response = false;
  active_tools = some (add ∷ []);
  output_model = none;
}

abbrev question : Message (Unit {0})
question = record { role = user; content = codes "3 + 4"; images = []; truncation = no_truncation }

second : get_completion setting 5 (question ∷ []) 0 ≡ (ok (structured invocation), 2)
unfolding get_completion roboz.Completion.last_part roboz.Completion.last_part_from
    roboz.Completion.without_labels roboz.Completion.find_brace roboz.Completion.without_key
    roboz.Completion.with_key roboz.Completion.with_telemetry roboz.Completion.is_name
    roboz.Completion.strip_outer_code_fences roboz.Completion.as_object roboz.Completion.decode_at
    roboz.Completion.decode_cleaned roboz.Completion.decode_raw_json roboz.Completion.tool_input
    roboz.Completion.first_named roboz.Completion.validated roboz.Completion.and_validated
    roboz.Completion.parse_response roboz.Truncation.Content.lookup roboz.Prelude.Text.strip
    roboz.Prelude.Text.strip_left roboz.Prelude.Text.strip_right roboz.Prelude.Text.is_space
    roboz.Prelude.Text.text_eq roboz.Prelude.Text.starts_with roboz.Completion.Repair.fix_prompt
    roboz.Completion.Repair.repair_content roboz.Completion.Repair.repair_message
    roboz.Completion.Repair.after_prompted roboz.Completion.Repair.after_failure
    roboz.Completion.Repair.after_parse roboz.Completion.Repair.after_request
    roboz.Completion.Repair.attempt_from roboz.Completion.Repair.complete
second = refl

get_completion-Ended_example :
    Ended setting (question ∷ []) 0 5 (get_completion setting 5 (question ∷ []) 0)
get_completion-Ended_example = get_completion-Ended setting 5 question [] 0 refl

parse_response-Accepted_example :
    (decode_raw_json reader {X = ℕ} (codes "so {add}") ≡ ok invocation)
    × Accepted reader (add ∷ []) none invocation
unfolding roboz.Completion.last_part roboz.Completion.last_part_from roboz.Completion.without_labels
    roboz.Completion.find_brace roboz.Completion.without_key roboz.Completion.with_key
    roboz.Completion.with_telemetry roboz.Completion.is_name
    roboz.Completion.strip_outer_code_fences roboz.Completion.as_object roboz.Completion.decode_at
    roboz.Completion.decode_cleaned roboz.Completion.decode_raw_json roboz.Completion.tool_input
    roboz.Completion.first_named roboz.Completion.validated roboz.Completion.and_validated
    roboz.Completion.parse_response roboz.Truncation.Content.lookup roboz.Prelude.Text.strip
    roboz.Prelude.Text.strip_left roboz.Prelude.Text.strip_right roboz.Prelude.Text.is_space
    roboz.Prelude.Text.text_eq roboz.Prelude.Text.starts_with
parse_response-Accepted_example =
    parse_response-Accepted reader {X = ℕ} (add ∷ []) none (codes "so {add}") refl
