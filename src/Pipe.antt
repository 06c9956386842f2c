-- ===== src/Pipe.antt =====
-- runtime/pipe.py: the events that a pipe emits for one agent.
pub mod Sequence
pub mod Stream
use roboz.Prelude.{
  ℕ, zero, suc, ◌+◌, String, str_eq, Bool, true, false, ◌&&◌, Option, none, some, List, [], ◌∷◌,
  ◌++◌, if◌then◌else◌,
}
use roboz.Prelude.Text.{Text}

pub data Event (M : Type 0) : Type 0 where
  -- name of the agent and sequence number
  started stopped : String → ℕ → Event M
  -- the message, its number, and the id of the stream that it completes
  message : M → ℕ → Option ℕ → Event M
  -- id, text, index of the chunk, number
  message_delta : ℕ → Text → ℕ → ℕ → Event M
  script_output : Text → ℕ → Event M
  runtime_event : Text → ℕ → Event M
  -- endpoint and model
  images_omitted : String → String → ℕ → Event M

abbrev pub sequence_of : {M : Type 0} → Event M → ℕ
sequence_of (started name n) = n
sequence_of (stopped name n) = n
sequence_of (message m n id) = n
sequence_of (message_delta id delta chunk n) = n
sequence_of (script_output content n) = n
sequence_of (runtime_event content n) = n
sequence_of (images_omitted endpoint model n) = n

-- `uuids` counts the ids taken so far, which are fresh; `events` are those that an attached sink has
-- been called with, in order.
pub record Pipe (M : Type 0) : Type 0 where
  pub dry_run : Bool
  pub agent_name : String
  pub sequence : ℕ
  pub message_id : Option ℕ
  pub chunk_index : ℕ
  pub uuids : ℕ
  pub image_omission : Option (String × String)
  pub cancelled : Bool
  pub interrupted : Bool
  pub events : List (Event M)

abbrev same_selection : String × String → Option (String × String) → Bool
same_selection selection none = false
same_selection (endpoint, model) (some (other, other_model)) =
    str_eq endpoint other && str_eq model other_model

module _ {M : Type 0} where
  -- `self._sequence += 1` and `self._emit(event)`
  unfoldable pub emit : (ℕ → Event M) → Pipe M → Pipe M
  emit event p = record p {
    sequence = p.sequence + 1;
    events = p.events ++ event (p.sequence + 1) ∷ [];
  }

  unfoldable pub unless_dry : (Pipe M → Pipe M) → Pipe M → Pipe M
  unless_dry act p = if p.dry_run then p else act p

  abbrev fresh_run : Bool → String → Pipe M → Pipe M
  fresh_run dry_run name p = record {
    dry_run = dry_run;
    agent_name = name;
    sequence = 0;
    message_id = none;
    chunk_index = 0;
    uuids = p.uuids;
    image_omission = none;
    cancelled = false;
    interrupted = false;
    events = p.events;
  }

  unfoldable pub initialize : Bool → String → Pipe M → Pipe M
  initialize dry_run name p = unless_dry (emit (started name)) (fresh_run dry_run name p)

  unfoldable pub finalize_run : Pipe M → Pipe M
  finalize_run p = unless_dry (emit (stopped p.agent_name)) p

  unfoldable pub report_image_omission : String → String → Bool → Pipe M → Pipe M
  report_image_omission endpoint model false p = record p { image_omission = none }
  report_image_omission endpoint model true p =
      let noted = record p { image_omission = some (endpoint, model) } in
      if same_selection (endpoint, model) p.image_omission
      then noted
      else unless_dry (emit (images_omitted endpoint model)) noted

  unfoldable pub start_message : Pipe M → Pipe M
  start_message p = record p { message_id = some p.uuids; chunk_index = 0; uuids = p.uuids + 1 }

  unfoldable pub clear_message : Option ℕ → Pipe M → Pipe M
  clear_message none p = p
  clear_message (some id) p = record p { message_id = none; chunk_index = 0 }

  unfoldable pub emit_message : M → Pipe M → Pipe M
  emit_message m p = emit (λ n. message m n p.message_id) (clear_message p.message_id p)

  -- The delta of a stream that has an id.
  unfoldable pub emit_chunk : Text → ℕ → Pipe M → Pipe M
  emit_chunk delta id p =
      emit (message_delta id delta (p.chunk_index + 1))
        (record p { chunk_index = p.chunk_index + 1 })

  unfoldable pub emit_delta : Text → Option ℕ → Pipe M → Pipe M
  emit_delta delta (some id) p = emit_chunk delta id p
  emit_delta delta none p = emit_chunk delta p.uuids (start_message p)

  unfoldable pub emit_message_delta : Text → Pipe M → Pipe M
  emit_message_delta [] p = p
  emit_message_delta (c ∷ delta) p = unless_dry (emit_delta (c ∷ delta) p.message_id) p

  unfoldable pub emit_script_output : Text → Pipe M → Pipe M
  emit_script_output content p = emit (script_output content) p

  unfoldable pub emit_runtime_event : Text → Pipe M → Pipe M
  emit_runtime_event content p = unless_dry (emit (runtime_event content)) p

  unfoldable pub cancel : Pipe M → Pipe M
  cancel p = record p { cancelled = true }

  unfoldable pub interrupt : Pipe M → Pipe M
  interrupt p = record p { interrupted = true }

  unfoldable pub clear_interrupt : Pipe M → Pipe M
  clear_interrupt p = record p { interrupted = false }

-- What may happen during a run.
pub data Call (M : Type 0) : Type 0 where
  finalizes starts_message cancels interrupts clears_interrupt : Call M
  reports_omission : String → String → Bool → Call M
  emits_message : M → Call M
  emits_delta emits_script emits_runtime : Text → Call M

unfoldable pub perform : {M : Type 0} → Call M → Pipe M → Pipe M
perform finalizes p = finalize_run p
perform starts_message p = start_message p
perform cancels p = cancel p
perform interrupts p = interrupt p
perform clears_interrupt p = clear_interrupt p
perform (reports_omission endpoint model omitted) p = report_image_omission endpoint model omitted p
perform (emits_message m) p = emit_message m p
perform (emits_delta delta) p = emit_message_delta delta p
perform (emits_script content) p = emit_script_output content p
perform (emits_runtime content) p = emit_runtime_event content p

unfoldable pub perform_all : {M : Type 0} → List (Call M) → Pipe M → Pipe M
perform_all [] p = p
perform_all (call ∷ calls) p = perform_all calls (perform call p)
