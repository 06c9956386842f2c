-- ===== src/Tests/Compaction.antt =====
-- Summaries and a compaction, and the theorems at them.
use roboz.Prelude.{
  ℕ, suc, ◌+◌, ◌-◌, ◌*◌, ◌≡◌, refl, none, some, Option, List, [], ◌∷◌, take, Result, ok, err,
}
use roboz.Prelude.Text.{Text, codes}
use roboz.Truncation.Context.{user}
use roboz.Compaction.{
  Note, Services, accepted_max_chars, round_fraction, complete_with_length_limit,
}
use roboz.Compaction.Shortest.{Ended, complete_with_length_limit-Ended}
use roboz.Compaction.Compactify.{
  MessageKind, system_message, compacted_context, Messages, CompactionContext,
  compactify_messages_when_needed,
}
use roboz.Compaction.Replaced.{Leaves, compactify_messages_when_needed-Leaves}

-- The world counts the requests; each is answered with four characters fewer than the last one.
abbrev answers : Services ℕ ℕ
answers = record {
  complete_summary = λ notes w. (ok (take (12 - 4 * w) (codes "a long summary")), suc w);
  dumps_value = λ t. t;
  basic_system_prompt = λ t. t;
  pipe = none;
}

abbrev asked : List Note
asked = (user, codes "summarise") ∷ []

accepts : accepted_max_chars 5 15 ≡ 6
unfolding accepted_max_chars
accepts = refl

to_even : round_fraction 5 2 ≡ 2
unfolding round_fraction
to_even = refl

third : (complete_with_length_limit answers (some 5) 15 asked 0).0 ≡ ok (codes "a lo")
unfolding complete_with_length_limit roboz.Compaction.complete_from roboz.Compaction.attempts_of
    roboz.Compaction.after_completion roboz.Compaction.after_response roboz.Compaction.exceeded
    roboz.Compaction.pipe_all roboz.Compaction.feedback
third = refl

complete_with_length_limit-Ended_example :
    Ended answers
      (record { max_chars = 5; accepted_max_chars = accepted_max_chars 5 15 })
      asked
      0
      3
      (complete_with_length_limit answers (some 5) 15 asked 0)
complete_with_length_limit-Ended_example = complete_with_length_limit-Ended answers 5 15 asked 0

abbrev Marked : Type 0
Marked = Option MessageKind × Text

abbrev marked : Messages Marked
marked = record {
  kind = λ m. m.0;
  render_content = λ m. m.1;
  get_truncated_messages_for_context = λ messages. messages;
  conversation_text = λ messages. codes "conversation";
  compacted_message = λ summary. (some compacted_context, summary);
}

abbrev window : CompactionContext ℕ ℕ
window = record {
  max_tokens = 8;
  threshold_percent = 80;
  timeout_s = none;
  system_prompt = codes "s";
  skill_message = codes "go on";
  services = answers;
  raise_if_cancelled = λ w. ok tt;
  raise_if_interrupted = λ w. ok tt;
}

abbrev history : List Marked
history =
    (some system_message, codes "be short")
    ∷ (none, codes "what is the answer to it?")
    ∷ (none, codes "it is forty-two")
    ∷ []

replaces :
    (compactify_messages_when_needed marked window history 0 0).messages
    ≡ (some system_message, codes "be short") ∷ (some compacted_context, codes "a long summa") ∷ []
unfolding compactify_messages_when_needed complete_with_length_limit accepted_max_chars
    roboz.Compaction.Compactify.after_controls roboz.Compaction.Compactify.after_guards
    roboz.Compaction.Compactify.after_skill roboz.Compaction.Compactify.after_summary
    roboz.Compaction.Compactify.as_signal roboz.Compaction.Compactify.blocked
    roboz.Compaction.Compactify.check_controls roboz.Compaction.Compactify.measured
    roboz.Compaction.Compactify.over_threshold roboz.Compaction.Compactify.replace_messages
    roboz.Compaction.Compactify.summarized roboz.Compaction.Compactify.too_large
    roboz.Compaction.Compactify.validate_threshold roboz.Compaction.Compactify.validate_timeout
    roboz.Compaction.Compactify.is_below roboz.Compaction.Compactify.estimate_conversation_tokens
    roboz.Compaction.Compactify.sum_tokens roboz.Compaction.Compactify.bootstrap_prefix_len
    roboz.Compaction.Compactify.is_bootstrap roboz.Compaction.Compactify.candidate
    roboz.Compaction.summarize_conversation_segment roboz.Compaction.summarize
    roboz.Compaction.complete_from roboz.Compaction.attempts_of roboz.Compaction.after_completion
    roboz.Compaction.after_response roboz.Compaction.exceeded roboz.Compaction.limit_of
    roboz.Compaction.initial_messages roboz.Compaction.pipe_all roboz.Prelude.Text.strip
    roboz.Prelude.Text.strip_left roboz.Prelude.Text.strip_right roboz.Prelude.Text.is_space
replaces = refl

compactify_messages_when_needed-Leaves_example :
    Leaves marked window history 0 (compactify_messages_when_needed marked window history 0 0)
compactify_messages_when_needed-Leaves_example =
    compactify_messages_when_needed-Leaves marked window history 0 0
