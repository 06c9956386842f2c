-- ===== src/Truncation/Context.antt =====
-- llm/_truncation.py, `get_truncated_messages_for_context`: the messages of a request.
use roboz.Prelude.{
  ℕ, suc, ◌+◌, ◌-◌, ◌≡◌, refl, sym, ap, ◌∙◌, Bool, true, false, Option, none, some, List, [], ◌∷◌,
  arith, length, Option-cases, Bool-cases, inl, inr,
}
use mathlib.Core.Option.{some-injective}
use roboz.Prelude.Text.{Text}
use roboz.Truncation.{Severity, stub, Truncation, TruncationSpec}

pub data Role : Type 0 where
  system assistant user error : Role

-- The fields of a message that the truncation reads or changes.
pub record Message (I : Type 0) : Type 0 where
  pub role : Role
  pub content : Text
  pub images : List I
  pub truncation : TruncationSpec

abbrev pub is_system : Role → Bool
is_system system = true
is_system _ = false

module _ {I : Type 0} (select : ℕ → TruncationSpec → Option Truncation)
    (truncate : Text → Severity → Option Text) where
  abbrev kept_images : Severity → List I → List I
  kept_images stub images = []
  kept_images _ images = images

  unfoldable pub truncate_message : Message I → Severity → Option (Message I)
  truncate_message message severity = elim (truncate message.content severity) [
    | none ↦ none
    | some content ↦ some (record {
      role = message.role;
      content = content;
      images = kept_images severity message.images;
      truncation = message.truncation;
    })
  ]

  -- One round of the loop: what the message at this distance adds to the result.
  unfoldable pub surviving : ℕ → Message I → Option (Message I)
  surviving distance message = elim (is_system message.role) [
    | true ↦ some message
    | false ↦ elim (select distance message.truncation) [
      | none ↦ some message
      | some rule ↦ truncate_message message rule.severity
    ]
  ]

  unfoldable pub add_some : Option (Message I) → List (Message I) → List (Message I)
  add_some none messages = messages
  add_some (some message) messages = message ∷ messages

  -- The loop over `enumerate(messages)`, from index `i` of `n` messages.
  unfoldable pub context_from : (n i : ℕ) → List (Message I) → List (Message I)
  context_from n i [] = []
  context_from n i (message ∷ messages) =
      add_some (surviving (n - 1 - i) message) (context_from n (suc i) messages)

  unfoldable pub get_truncated_messages : List (Message I) → List (Message I)
  get_truncated_messages messages = context_from (length messages) 0 messages

  -- Each message by its age, the number of messages after it.
  abbrev pub by_age : List (Message I) → List (Message I)
  by_age [] = []
  by_age (message ∷ messages) = add_some (surviving (length messages) message) (by_age messages)

  context_from-by_age :
      (n i : ℕ) (messages : List (Message I))
      → n ≡ i + length messages
      → context_from n i messages ≡ by_age messages
  unfolding context_from
  context_from-by_age n i [] h = refl
  context_from-by_age n i (message ∷ messages) h =
      let age : n - 1 - i ≡ length messages = omega arith in
      rw (age, context_from-by_age n (suc i) messages (omega arith)) refl

  -- The loop treats every message by its age alone, the number of messages behind it, and keeps the
  -- survivors in their order.
  pub get_truncated_messages-by_age :
      (messages : List (Message I)) → get_truncated_messages messages ≡ by_age messages
  unfolding get_truncated_messages
  get_truncated_messages-by_age messages =
      context_from-by_age (length messages) 0 messages (omega arith)

  abbrev keep_if : Bool → Message I → List (Message I) → List (Message I)
  keep_if true message messages = message ∷ messages
  keep_if false message messages = messages

  abbrev pub systems : List (Message I) → List (Message I)
  systems [] = []
  systems (message ∷ messages) = keep_if (is_system message.role) message (systems messages)

  systems-first :
      (kept : Bool) (message : Message I) (messages : List (Message I))
      → is_system message.role ≡ kept
      → systems (message ∷ messages) ≡ keep_if kept message (systems messages)
  systems-first kept message messages h = ap (λ b. keep_if b message (systems messages)) h

  truncated_role :
      (message : Message I) (severity : Severity) {kept : Message I}
      → truncate_message message severity ≡ some kept
      → kept.role ≡ message.role
  unfolding truncate_message
  truncated_role message severity h = elim (Option-cases (truncate message.content severity)) [
    | inl gone ↦ ground arith
    | inr (content, left) ↦ ground arith
  ]

  surviving-system :
      (distance : ℕ) (message : Message I)
      → is_system message.role ≡ true
      → surviving distance message ≡ some message
  unfolding surviving
  surviving-system distance message h = rw (h, surviving) refl

  surviving-role :
      (distance : ℕ) (message : Message I) {kept : Message I}
      → is_system message.role ≡ false
      → surviving distance message ≡ some kept
      → is_system kept.role ≡ false
  unfolding surviving
  surviving-role distance message {kept} other h =
      let left = rw (other, surviving) at h in
      elim (Option-cases (select distance message.truncation)) [
        | inl whole ↦
            let same : message ≡ kept = some-injective message kept (rw whole at left) in
            rw same at other
        | inr (rule, chosen) ↦ rw (truncated_role message rule.severity (rw chosen at left)) other
      ]

  systems-add_some :
      (kept : Option (Message I)) (messages : List (Message I))
      → ((message : Message I) → kept ≡ some message → is_system message.role ≡ false)
      → systems (add_some kept messages) ≡ systems messages
  unfolding add_some
  systems-add_some none messages h = refl
  systems-add_some (some message) messages h = systems-first false message messages (h message refl)

  systems-by_age : (messages : List (Message I)) → systems (by_age messages) ≡ systems messages
  unfolding add_some
  systems-by_age [] = refl
  systems-by_age (message ∷ messages) = elim (Bool-cases (is_system message.role)) [
    | inl kept ↦
        ap (λ o. systems (add_some o (by_age messages)))
          (surviving-system (length messages) message kept)
        ∙ (systems-first true message (by_age messages) kept
            ∙ (ap (λ rest. message ∷ rest) (systems-by_age messages)
                ∙ sym (systems-first true message messages kept)))
    | inr other ↦
        systems-add_some (surviving (length messages) message) (by_age messages)
          (λ m. surviving-role (length messages) message other)
        ∙ (systems-by_age messages ∙ sym (systems-first false message messages other))
  ]

  -- The system messages of a conversation all reach the model, unchanged and in their order, whatever
  -- their truncation says.
  pub systems-get_truncated_messages :
      (messages : List (Message I)) → systems (get_truncated_messages messages) ≡ systems messages
  systems-get_truncated_messages messages =
      ap systems (get_truncated_messages-by_age messages) ∙ systems-by_age messages
