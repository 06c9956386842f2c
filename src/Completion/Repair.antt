-- ===== src/Completion/Repair.antt =====
-- llm/completion.py, `get_completion` and `_reprompt_on_error`: the attempts at a completion, each
-- behind the reports on the replies before it.
use roboz.Prelude.{
  ℕ, zero, suc, Bool, true, false, Option, none, some, List, [], ◌∷◌, ◌++◌, Result, ok, err,
}
use roboz.Prelude.Text.{Text, codes}
use roboz.Truncation.{error_retry}
use roboz.Truncation.Context.{error, Message}
use roboz.Truncation.Content.{Json, Fields}
use roboz.Completion.{
  Failure, nonexistent_tool, json_decode_error, validation_error, messages_empty, output_format,
  Tool, Reader, parse_response, with_telemetry,
}

abbrev pub Telemetry : Type 0
Telemetry = List (Text × Option Json)

-- The texts of the prompts, and the arguments of a completion that do not change. `request` is the
-- transport, and `pipe` what the error pipe does with a message.
pub record Setting (I X W : Type 0) : Type 0 where
  pub action_fix_prompt : Text
  pub json_fix_prompt : Text
  pub pydantic_fix_prompt : Text
  pub error_trace : Failure X → Text
  pub reduce_escapes : Text → Text
  pub reader : Reader
  pub request : List (Message I) → W → Result (Failure X) (Text × Telemetry) × W
  pub truncate_for_context : List (Message I) → List (Message I)
  pub on_attempt_start : W → W
  pub pipe : Message I → W → W
  pub include_raw_response : Bool
  pub active_tools : Option (List Tool)
  pub output_model : Option (Fields → Bool)

pub data Reply : Type 0 where
  raw : Text → Reply
  structured : Fields → Reply

abbrev pub or_empty : Option (List Tool) → List Tool
or_empty none = []
or_empty (some tools) = tools

abbrev pub is_raw_mode : Option (List Tool) → Option (Fields → Bool) → Bool
is_raw_mode none none = true
is_raw_mode _ _ = false

module _ {I X W : Type 0} (setting : Setting I X W) where
  -- The prompt for an error; the others are raised again.
  unfoldable pub fix_prompt : Failure X → Option Text
  fix_prompt nonexistent_tool = some setting.action_fix_prompt
  fix_prompt json_decode_error = some setting.json_fix_prompt
  fix_prompt validation_error = some setting.pydantic_fix_prompt
  fix_prompt _ = none

  abbrev pub previous : Bool → Text → Text
  previous true raw_response = codes "Previous message: '" ++ (raw_response ++ codes "'\n")
  previous false raw_response = []

  -- An empty prompt is left out.
  unfoldable pub repair_content : Text → Failure X → Text → Text
  repair_content raw_response e [] = setting.error_trace e
  repair_content raw_response e (c ∷ prompt) =
      previous setting.include_raw_response raw_response
      ++ ((c ∷ prompt) ++ (codes "\n" ++ setting.error_trace e))

  unfoldable pub repair_message : Text → Failure X → Text → Message I
  unfolding repair_content
  repair_message raw_response e prompt = record {
    role = error;
    content = setting.reduce_escapes (repair_content raw_response e prompt);
    images = [];
    truncation = error_retry;
  }

  abbrev pub Answer : Type 0
  Answer = Result (Failure X) Reply × W

  abbrev pub Again : Type 0
  Again = Text → List (Message I) → W → Answer

  unfoldable pub after_prompted :
      Again → Text → List (Message I) → Failure X → W → Option Text → Answer
  unfolding repair_message
  after_prompted again raw_response messages e w none = (err e, w)
  after_prompted again raw_response messages e w (some prompt) =
      let message = repair_message raw_response e prompt in
      again raw_response (messages ++ (message ∷ [])) (setting.pipe message w)

  -- The clauses of `except`.
  unfoldable pub after_failure : Again → Text → List (Message I) → Failure X → W → Answer
  unfolding after_prompted fix_prompt
  after_failure again raw_response messages e w =
      after_prompted again raw_response messages e w (fix_prompt e)

  unfoldable pub after_parse :
      Again → Text → List (Message I) → Telemetry → W → Result (Failure X) Fields → Answer
  unfolding after_failure
  after_parse again raw_response messages meta w (ok parsed) =
      (ok (structured (with_telemetry meta parsed)), w)
  after_parse again raw_response messages meta w (err e) =
      after_failure again raw_response messages e w

  abbrev pub parse : Text → Result (Failure X) Fields
  parse = parse_response setting.reader (or_empty setting.active_tools) setting.output_model

  unfoldable pub after_request :
      Again → Text → List (Message I) → Result (Failure X) (Text × Telemetry) × W → Answer
  unfolding after_failure after_parse
  after_request again raw_response messages (err e, w) =
      after_failure again raw_response messages e w
  after_request again raw_response messages (ok (response, meta), w) =
      after_parse again response messages meta w (parse response)

  abbrev pub send : List (Message I) → W → Result (Failure X) (Text × Telemetry) × W
  send messages w =
      setting.request (setting.truncate_for_context messages) (setting.on_attempt_start w)

  -- The loop, with so many tries left.
  unfoldable pub attempt_from : ℕ → Again
  unfolding after_request
  attempt_from zero raw_response messages w = (err output_format, w)
  attempt_from (suc left) raw_response messages w =
      after_request (attempt_from left) raw_response messages (send messages w)

  unfoldable pub raw_reply : Result (Failure X) (Text × Telemetry) × W → Answer
  raw_reply (err e, w) = (err e, w)
  raw_reply (ok (response, meta), w) = (ok (raw response), w)

  -- With neither a list of tools nor an output model, the text of the first reply.
  unfoldable pub complete : (is_raw : Bool) → ℕ → List (Message I) → W → Answer
  unfolding attempt_from raw_reply
  complete is_raw tries [] w = (err messages_empty, w)
  complete true (suc tries) (first ∷ messages) w = raw_reply (send (first ∷ messages) w)
  complete true zero (first ∷ messages) w = attempt_from 0 [] (first ∷ messages) w
  complete false tries (first ∷ messages) w = attempt_from tries [] (first ∷ messages) w

  unfoldable pub get_completion : ℕ → List (Message I) → W → Answer
  unfolding complete
  get_completion tries messages w =
      complete (is_raw_mode setting.active_tools setting.output_model) tries messages w
