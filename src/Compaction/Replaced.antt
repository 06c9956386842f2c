-- ===== src/Compaction/Replaced.antt =====
-- What a compaction leaves of the conversation and of its counter.
use roboz.Prelude.{
  ℕ, zero, suc, ◌*◌, ◌≤◌, ◌<◌, min, ◌≡◌, ◌⊎◌, true, false, none, some, List, [], ◌∷◌, ◌++◌, All,
  take, refl, arith, leb, length, Result, ok, err, Bool-cases, inl, inr,
}
use roboz.Prelude.Text.{Text, strip}
use roboz.Compaction.{Answer}
use roboz.Compaction.Compactify.{
  is_ok, is_blocked, is_compacted, CompactionError, Messages, CompactionContext, Compaction,
  estimate_conversation_tokens, bootstrap_prefix_len, threshold_tokens, target_tokens, status_of,
  left_as_is, candidate, blocked, too_large, replace_messages, after_controls, check_controls,
  after_summary, summarized, max_chars_of, after_skill, is_below, over_threshold, measured,
  after_guards, compactify_messages_when_needed,
}
use roboz.Compaction.Prefix.{
  Bootstrap, Split, bootstrap_prefix_len-Split, bootstrap_prefix_len-Bootstrap,
}

module _ {M W E : Type 0} (model : Messages M) (ctx : CompactionContext W E) (messages : List M)
    (count : ℕ) where
  abbrev tokens : List M → ℕ
  tokens conversation = estimate_conversation_tokens model ctx conversation

  abbrev pub with_summary : List M → Text → List M
  with_summary boot summary = boot ++ model.compacted_message summary ∷ []

  -- The share of the window that the conversation takes is less than the threshold.
  abbrev pub Under : Type 0
  Under =
      (ctx.max_tokens ≡ 0)
      ⊎ (estimate_conversation_tokens model ctx messages * 100
          < ctx.threshold_percent * ctx.max_tokens)

  -- Why a conversation that is not under the threshold stays: all its messages are bootstrap ones; or
  -- these leave no room for a summary; or a summary takes more characters or tokens than they leave.
  pub data Stuck : Type 0 where
    nothing_behind : All (λ message. Bootstrap (model.kind message)) messages → Stuck
    no_space :
        (boot : List M)
        → Split model messages boot
        → target_tokens model ctx ≤ estimate_conversation_tokens model ctx (with_summary boot [])
        → Stuck
    too_long :
        (boot : List M) (summary : Text)
        → Split model messages boot
        → (max_chars_of model ctx messages < length summary)
          ⊎ (target_tokens model ctx
              < estimate_conversation_tokens model ctx (with_summary boot summary))
        → Stuck

  -- A compaction ends with an exception or a status that it reports of the conversation as it was,
  -- or with the conversation and its counter changed.
  pub data Leaves : Compaction M W E → Type 0 where
    raises :
        {e : CompactionError E} {w : W} → Leaves (left_as_is model ctx (err e) messages count w)
    below :
        {w : W}
        → Under
        → Leaves (
            left_as_is model ctx
              (ok (
                status_of model ctx is_ok
                  (estimate_conversation_tokens model ctx messages)
                  count
                  none))
              messages
              count
              w)
    no_room :
        {w : W}
        → ¬ Under
        → Stuck
        → Leaves (
            left_as_is model ctx
              (ok (
                status_of model ctx is_blocked
                  (estimate_conversation_tokens model ctx messages)
                  count
                  none))
              messages
              count
              w)
    replaced :
        {w : W} (boot : List M) (summary : Text)
        → ¬ Under
        → Split model messages boot
        → estimate_conversation_tokens model ctx (with_summary boot summary)
          < min (threshold_tokens model ctx) ctx.max_tokens
        → Leaves (
            left_as_is model ctx
              (ok (
                status_of model ctx is_compacted
                  (estimate_conversation_tokens model ctx (with_summary boot summary))
                  (suc count)
                  (some summary)))
              (with_summary boot summary)
              (suc count)
              w)

  is_below-Under :
      is_below model ctx (estimate_conversation_tokens model ctx messages) ≡ true → Under
  unfolding is_below
  is_below-Under h = ground arith

  is_below-not_Under :
      is_below model ctx (estimate_conversation_tokens model ctx messages) ≡ false → ¬ Under
  unfolding is_below
  is_below-not_Under h (inl no_window) = ground arith
  is_below-not_Under h (inr less) = ground arith

  abbrev boot_of : List M
  boot_of = take (bootstrap_prefix_len model ctx messages) messages

  module _ (reached : ¬ Under) (split : Split model messages boot_of) where
    blocked-Leaves : (w : W) → Stuck → Leaves (blocked model ctx messages count w)
    unfolding blocked
    blocked-Leaves w stuck = no_room reached stuck

    replace_messages-Leaves :
        (summary : Text) (w : W) (r : Result (CompactionError E) (Unit {0}))
        → estimate_conversation_tokens model ctx (candidate model ctx messages summary)
          < min (threshold_tokens model ctx) ctx.max_tokens
        → Leaves (replace_messages model ctx summary messages count w r)
    unfolding replace_messages candidate
    replace_messages-Leaves summary w (err e) fits = raises
    replace_messages-Leaves summary w (ok done) fits = replaced boot_of summary reached split fits

    too_large-Stuck :
        (summary : Text)
        → too_large model ctx (max_chars_of model ctx messages) messages summary ≡ true
        → Stuck
    unfolding too_large candidate
    too_large-Stuck summary h = too_long boot_of summary split (ground arith)

    too_large-false :
        (max_chars : ℕ) (summary : Text)
        → 0 < target_tokens model ctx
        → too_large model ctx max_chars messages summary ≡ false
        → estimate_conversation_tokens model ctx (candidate model ctx messages summary)
          < min (threshold_tokens model ctx) ctx.max_tokens
    unfolding too_large
    too_large-false max_chars summary room h = ground arith

    after_controls-Leaves :
        (max_chars : ℕ) (summary : Text) (w : W) (r : Result (CompactionError E) (Unit {0}))
        → max_chars ≡ max_chars_of model ctx messages
        → 0 < target_tokens model ctx
        → Leaves (after_controls model ctx max_chars summary messages count w r)
    unfolding after_controls
    after_controls-Leaves max_chars summary w (err e) is room = raises
    after_controls-Leaves max_chars summary w (ok done) is room =
        elim (Bool-cases (too_large model ctx max_chars messages summary)) [
          | inl large ↦
              rw (large, after_controls)
                (blocked-Leaves w (too_large-Stuck summary (rw is at large)))
          | inr fits ↦
              rw (fits, after_controls)
                (replace_messages-Leaves summary w (check_controls model ctx w)
                  (too_large-false max_chars summary room fits))
        ]

    after_summary-Leaves :
        (max_chars : ℕ) (answer : Answer ctx.services)
        → max_chars ≡ max_chars_of model ctx messages
        → 0 < target_tokens model ctx
        → Leaves (after_summary model ctx max_chars messages count answer)
    unfolding after_summary
    after_summary-Leaves max_chars (err e, notes, w) is room = raises
    after_summary-Leaves max_chars (ok summary, notes, w) is room =
        after_controls-Leaves max_chars summary w (check_controls model ctx w) is room

    summarized-Leaves :
        (max_chars : ℕ) (w : W)
        → max_chars ≡ max_chars_of model ctx messages
        → Leaves (summarized model ctx max_chars messages count w)
    unfolding summarized candidate
    summarized-Leaves zero w is = blocked-Leaves w (no_space boot_of split (omega arith))
    summarized-Leaves (suc n) w is = after_summary-Leaves (suc n) _ is (omega arith)

    after_skill-Leaves :
        (skill_message : Text) (w : W)
        → Leaves (after_skill model ctx skill_message messages count w)
    unfolding after_skill
    after_skill-Leaves [] w = raises
    after_skill-Leaves (c ∷ skill_message) w = summarized-Leaves _ w refl

  over_threshold-Leaves : (w : W) → ¬ Under → Leaves (over_threshold model ctx messages count w)
  unfolding over_threshold
  over_threshold-Leaves w reached =
      elim (Bool-cases (leb (length messages) (bootstrap_prefix_len model ctx messages))) [
        | inl none_behind ↦
            rw (none_behind, over_threshold)
              (no_room reached
                (nothing_behind (bootstrap_prefix_len-Bootstrap model ctx messages (ground arith))))
        | inr more ↦
            rw (more, over_threshold)
              (after_skill-Leaves reached
                (bootstrap_prefix_len-Split model ctx messages (ground arith))
                (strip ctx.skill_message) w)
      ]

  measured-Leaves : (w : W) → Leaves (measured model ctx messages count w)
  unfolding measured
  measured-Leaves w =
      elim (Bool-cases (is_below model ctx (estimate_conversation_tokens model ctx messages))) [
        | inl low ↦ rw (low, measured) (below (is_below-Under low))
        | inr high ↦ rw (high, measured) (over_threshold-Leaves w (is_below-not_Under high))
      ]

  after_guards-Leaves :
      (r : Result (CompactionError E) (Unit {0})) (w : W)
      → Leaves (after_guards model ctx r messages count w)
  unfolding after_guards
  after_guards-Leaves (err e) w = raises
  after_guards-Leaves (ok done) w = measured-Leaves w

  -- A compaction either changes nothing, with an exception or with a status: below its threshold where
  -- the conversation takes less than the threshold's share of the window, or the window is not known;
  -- and blocked where it does not, because all messages are bootstrap ones, or there is no room for a
  -- summary, or the summary is too long. Or it keeps the longest run of bootstrap messages that
  -- the conversation begins with, replaces all others, of which there are some, by one with the
  -- summary, and counts itself; and the conversation is then estimated, and reported, at fewer tokens
  -- than the threshold and than the window.
  pub compactify_messages_when_needed-Leaves :
      (w : W) → Leaves (compactify_messages_when_needed model ctx messages count w)
  unfolding compactify_messages_when_needed
  compactify_messages_when_needed-Leaves w = after_guards-Leaves _ w
