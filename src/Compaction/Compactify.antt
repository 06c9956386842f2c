-- ===== src/Compaction/Compactify.antt =====
-- shed/tools/compactification/compactify_messages.py: the compaction of the live conversation. The
-- threshold is a whole number of per cent, and the fractions of it are exact.
use roboz.Prelude.{
  ℕ, zero, suc, ◌+◌, ◌-◌, ◌*◌, ◌/◌, min, Bool, true, false, ◌||◌, Option, none, some, List, [], ◌∷◌,
  ◌++◌, ltb, leb, ◌==◌, length, take, drop, Result, ok, err, ◌>>◌,
}
use roboz.Prelude.Text.{Text, strip}
use roboz.Compaction.{Services, SummaryError, Answer, summarize_conversation_segment}

pub data MessageKind : Type 0 where
  auto_load_banner auto_loaded_skill compacted_context interrupted_generation librarian_activity
        librarian_routine startup_context system_message user_notification :
      MessageKind

-- `message_kind in BOOTSTRAP_MESSAGE_KINDS`
unfoldable pub is_bootstrap : Option MessageKind → Bool
is_bootstrap (some system_message) = true
is_bootstrap (some startup_context) = true
is_bootstrap (some auto_load_banner) = true
is_bootstrap (some auto_loaded_skill) = true
is_bootstrap _ = false

pub data State : Type 0 where
  is_ok is_compacted is_blocked : State

-- The numbers that the texts of the status are made of.
pub record CompactifyStatus : Type 0 where
  pub status : State
  pub consumed : ℕ
  pub to_compaction : ℕ
  pub max_tokens : ℕ
  pub compactions : ℕ
  pub compaction_summary : Option Text

pub data CompactionError (E : Type 0) : Type 0 where
  invalid_threshold invalid_timeout skill_message_empty : CompactionError E
  signal : E → CompactionError E
  summary_error : SummaryError E → CompactionError E

-- What compaction reads of a message, and makes of a summary.
pub record Messages (M : Type 0) : Type 0 where
  pub kind : M → Option MessageKind
  pub render_content : M → Text
  pub get_truncated_messages_for_context : List M → List M
  pub conversation_text : List M → Text
  pub compacted_message : Text → M

-- The settings, with the window of the resolved endpoint.
pub record CompactionContext (W E : Type 0) : Type 0 where
  pub max_tokens : ℕ
  pub threshold_percent : ℕ
  pub timeout_s : Option ℕ
  pub system_prompt : Text
  pub skill_message : Text
  pub services : Services W E
  pub raise_if_cancelled : W → Result E (Unit {0})
  pub raise_if_interrupted : W → Result E (Unit {0})

-- The result with the conversation, the number of compactions, and the world behind it.
pub record Compaction (M W E : Type 0) : Type 0 where
  pub result : Result (CompactionError E) CompactifyStatus
  pub messages : List M
  pub count : ℕ
  pub world : W

module _ {M W E : Type 0} (model : Messages M) (ctx : CompactionContext W E) where
  unfoldable pub sum_tokens : List M → ℕ
  sum_tokens [] = 0
  sum_tokens (message ∷ messages) =
      (length (model.render_content message) + 3) / 4 + sum_tokens messages

  unfoldable pub estimate_conversation_tokens : List M → ℕ
  estimate_conversation_tokens messages =
      sum_tokens (model.get_truncated_messages_for_context messages)

  unfoldable pub bootstrap_prefix_len : List M → ℕ
  bootstrap_prefix_len [] = 0
  bootstrap_prefix_len (message ∷ messages) = elim (is_bootstrap (model.kind message)) [
    | true ↦ suc (bootstrap_prefix_len messages)
    | false ↦ 0
  ]

  abbrev pub threshold_tokens : ℕ
  threshold_tokens = ctx.max_tokens * ctx.threshold_percent / 100

  abbrev pub target_tokens : ℕ
  target_tokens = min threshold_tokens ctx.max_tokens - 1

  abbrev pub status_of : State → ℕ → ℕ → Option Text → CompactifyStatus
  status_of status consumed compactions summary = record {
    status = status;
    consumed = consumed;
    to_compaction = threshold_tokens - consumed;
    max_tokens = ctx.max_tokens;
    compactions = compactions;
    compaction_summary = summary;
  }

  unfoldable pub as_signal : Result E (Unit {0}) → Result (CompactionError E) (Unit {0})
  as_signal (ok done) = ok done
  as_signal (err e) = err (signal e)

  unfoldable pub check_controls : W → Result (CompactionError E) (Unit {0})
  unfolding as_signal
  check_controls w = as_signal (ctx.raise_if_cancelled w >> ctx.raise_if_interrupted w)

  unfoldable pub validate_threshold : ℕ → Result (CompactionError E) (Unit {0})
  validate_threshold zero = err invalid_threshold
  validate_threshold (suc n) = ok tt

  unfoldable pub validate_timeout : Option ℕ → Result (CompactionError E) (Unit {0})
  validate_timeout (some zero) = err invalid_timeout
  validate_timeout _ = ok tt

  abbrev pub left_as_is :
      Result (CompactionError E) CompactifyStatus → List M → ℕ → W → Compaction M W E
  left_as_is result messages count w = record {
    result = result;
    messages = messages;
    count = count;
    world = w;
  }

  -- The bootstrap messages, then the one that holds the summary.
  unfoldable pub candidate : List M → Text → List M
  candidate messages summary =
      take (bootstrap_prefix_len messages) messages ++ (model.compacted_message summary ∷ [])

  -- Behind the last test: the conversation and the counter change, unless a signal is set.
  unfoldable pub replace_messages :
      Text → List M → ℕ → W → Result (CompactionError E) (Unit {0}) → Compaction M W E
  replace_messages summary messages count w (err e) = left_as_is (err e) messages count w
  replace_messages summary messages count w (ok done) = record {
    result = ok (
        status_of is_compacted (estimate_conversation_tokens (candidate messages summary))
          (suc count) (some summary));
    messages = candidate messages summary;
    count = suc count;
    world = w;
  }

  unfoldable pub blocked : List M → ℕ → W → Compaction M W E
  blocked messages count w =
      left_as_is (ok (status_of is_blocked (estimate_conversation_tokens messages) count none))
        messages count w

  unfoldable pub too_large : ℕ → List M → Text → Bool
  too_large max_chars messages summary =
      ltb max_chars (length summary)
      || ltb target_tokens (estimate_conversation_tokens (candidate messages summary))

  unfoldable pub after_controls :
      ℕ → Text → List M → ℕ → W → Result (CompactionError E) (Unit {0}) → Compaction M W E
  unfolding blocked replace_messages check_controls
  after_controls max_chars summary messages count w (err e) = left_as_is (err e) messages count w
  after_controls max_chars summary messages count w (ok done) =
      elim (too_large max_chars messages summary) [
        | true ↦ blocked messages count w
        | false ↦ replace_messages summary messages count w (check_controls w)
      ]

  unfoldable pub after_summary : ℕ → List M → ℕ → Answer ctx.services → Compaction M W E
  unfolding after_controls check_controls
  after_summary max_chars messages count (err e, notes, w) =
      left_as_is (err (summary_error e)) messages count w
  after_summary max_chars messages count (ok summary, notes, w) =
      after_controls max_chars summary messages count w (check_controls w)

  unfoldable pub summarized : ℕ → List M → ℕ → W → Compaction M W E
  unfolding blocked after_summary
  summarized zero messages count w = blocked messages count w
  summarized (suc n) messages count w = after_summary (suc n) messages count (
      summarize_conversation_segment ctx.services (strip ctx.skill_message) ctx.system_prompt
        (model.conversation_text (drop (bootstrap_prefix_len messages) messages)) (some (suc n)) 0
        w)

  abbrev pub max_chars_of : List M → ℕ
  max_chars_of messages = (target_tokens - estimate_conversation_tokens (candidate messages [])) * 4

  unfoldable pub after_skill : Text → List M → ℕ → W → Compaction M W E
  unfolding summarized
  after_skill [] messages count w = left_as_is (err skill_message_empty) messages count w
  after_skill (c ∷ skill_message) messages count w =
      summarized (max_chars_of messages) messages count w

  -- `percent_used < threshold_percent`
  unfoldable pub is_below : ℕ → Bool
  is_below consumed =
      ctx.max_tokens == 0 || ltb (consumed * 100) (ctx.threshold_percent * ctx.max_tokens)

  unfoldable pub over_threshold : List M → ℕ → W → Compaction M W E
  unfolding blocked after_skill
  over_threshold messages count w = elim (leb (length messages) (bootstrap_prefix_len messages)) [
    | true ↦ blocked messages count w
    | false ↦ after_skill (strip ctx.skill_message) messages count w
  ]

  unfoldable pub measured : List M → ℕ → W → Compaction M W E
  unfolding over_threshold
  measured messages count w = elim (is_below (estimate_conversation_tokens messages)) [
    | true ↦
        left_as_is (ok (status_of is_ok (estimate_conversation_tokens messages) count none))
          messages count w
    | false ↦ over_threshold messages count w
  ]

  unfoldable pub after_guards :
      Result (CompactionError E) (Unit {0}) → List M → ℕ → W → Compaction M W E
  unfolding measured
  after_guards (err e) messages count w = left_as_is (err e) messages count w
  after_guards (ok done) messages count w = measured messages count w

  unfoldable pub compactify_messages_when_needed : List M → ℕ → W → Compaction M W E
  unfolding after_guards check_controls
  compactify_messages_when_needed messages count w =
      after_guards
        (validate_threshold ctx.threshold_percent
          >> validate_timeout ctx.timeout_s
          >> check_controls w)
        messages count w
