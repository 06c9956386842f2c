-- ===== src/Completion/Attempts.antt =====
-- The attempts at a completion: what each had asked, and how they end.
use roboz.Prelude.{
  ℕ, zero, suc, ◌+◌, ◌<◌, ◌≡◌, refl, false, none, some, List, [], ◌∷◌, ◌++◌, arith, Result, ok, err,
  Option-cases, inl, inr,
}
use roboz.Prelude.Text.{Text}
use roboz.Truncation.Context.{Message}
use roboz.Truncation.Content.{Fields}
use roboz.Completion.{Failure, output_format, with_telemetry}
use roboz.Completion.Repair.{
  Telemetry, Setting, structured, Answer, Again, fix_prompt, repair_message, parse, send,
  is_raw_mode, after_prompted, after_failure, after_parse, after_request, attempt_from, complete,
  get_completion,
}

module _ {I X W : Type 0} (setting : Setting I X W) where
  -- An attempt fails by its request, or by the reply to it; with the last reply.
  pub data Fails (last : Text) (messages : List (Message I)) (w : W)
      : Text → Failure X → W → Type 0 where
    by_request :
        {e : Failure X} {after : W}
        → send setting messages w ≡ (err e, after)
        → Fails last messages w last e after
    by_reply :
        {response : Text} (meta : Telemetry) {e : Failure X} {after : W}
        → send setting messages w ≡ (ok (response, meta), after)
        → parse setting response ≡ err e
        → Fails last messages w response e after

  module _ (start : List (Message I)) (w₀ : W) where
    -- So many attempts have failed, each with an error that has a prompt, and each behind the
    -- report on the one before it.
    pub data Repaired : ℕ → Text → List (Message I) → W → Type 0 where
      fresh : Repaired 0 [] start w₀
      repaired :
          {n : ℕ} {last response prompt : Text} {messages : List (Message I)} {w after : W}
          {e : Failure X}
          → Repaired n last messages w
          → Fails last messages w response e after
          → fix_prompt setting e ≡ some prompt
          → Repaired
              (suc n)
              response
              (messages ++ (repair_message setting response e prompt ∷ []))
              (setting.pipe (repair_message setting response e prompt) after)

    -- How they end: with a reply that is accepted, with an error that has no prompt, or with as many
    -- failures as there are tries.
    pub data Ended (tries : ℕ) : Answer setting → Type 0 where
      answered :
          {n : ℕ} {last response : Text} {messages : List (Message I)} {w after : W}
          {meta : Telemetry} {parsed : Fields}
          → Repaired n last messages w
          → n < tries
          → send setting messages w ≡ (ok (response, meta), after)
          → parse setting response ≡ ok parsed
          → Ended tries (ok (structured (with_telemetry meta parsed)), after)
      raised :
          {n : ℕ} {last response : Text} {messages : List (Message I)} {w after : W} {e : Failure X}
          → Repaired n last messages w
          → n < tries
          → Fails last messages w response e after
          → fix_prompt setting e ≡ none
          → Ended tries (err e, after)
      spent :
          {last : Text} {messages : List (Message I)} {w : W}
          → Repaired tries last messages w
          → Ended tries (err output_format, w)

    module _ (tries n : ℕ) (again : Again setting)
        (ends : (last : Text) (messages : List (Message I)) (w : W)
          → Repaired (suc n) last messages w
          → Ended tries (again last messages w))
        {last : Text} {messages : List (Message I)} {w : W} (so_far : Repaired n last messages w)
        (left : n < tries) where
      after_failure-Ended :
          (response : Text) (e : Failure X) (after : W)
          → Fails last messages w response e after
          → Ended tries (after_failure setting again response messages e after)
      unfolding after_failure after_prompted
      after_failure-Ended response e after fails = elim (Option-cases (fix_prompt setting e)) [
        | inl no_prompt ↦
            rw (no_prompt, after_failure, after_prompted) (raised so_far left fails no_prompt)
        | inr (prompt, is) ↦
            rw (is, after_failure, after_prompted) (ends _ _ _ (repaired so_far fails is))
      ]

      after_parse-Ended :
          (response : Text) (meta : Telemetry) (after : W) (r : Result (Failure X) Fields)
          → send setting messages w ≡ (ok (response, meta), after)
          → parse setting response ≡ r
          → Ended tries (after_parse setting again response messages meta after r)
      unfolding after_parse
      after_parse-Ended response meta after (ok parsed) sent is = answered so_far left sent is
      after_parse-Ended response meta after (err e) sent is =
          after_failure-Ended response e after (by_reply meta sent is)

      after_request-Ended :
          (r : Result (Failure X) (Text × Telemetry) × W)
          → send setting messages w ≡ r
          → Ended tries (after_request setting again last messages r)
      unfolding after_request
      after_request-Ended (err e, after) is = after_failure-Ended last e after (by_request is)
      after_request-Ended (ok (response, meta), after) is =
          after_parse-Ended response meta after (parse setting response) is refl

    attempt_from-Ended :
        (tries n left : ℕ) (last : Text) (messages : List (Message I)) (w : W)
        → n + left ≡ tries
        → Repaired n last messages w
        → Ended tries (attempt_from setting left last messages w)
    unfolding attempt_from
    attempt_from-Ended tries n zero last messages w h so_far =
        let all : n ≡ tries = omega arith in spent (rw all at so_far)
    attempt_from-Ended tries n (suc left) last messages w h so_far =
        after_request-Ended tries n (attempt_from setting left)
          (λ last messages w more.
            attempt_from-Ended tries (suc n) left last messages w (omega arith) more)
          so_far (omega arith) (send setting messages w) refl

  complete-structured :
      (tries : ℕ) (first : Message I) (messages : List (Message I)) (w : W)
      → complete setting false tries (first ∷ messages) w
        ≡ attempt_from setting tries [] (first ∷ messages) w
  unfolding complete
  complete-structured tries first messages w = refl

  -- A structured completion, one with a list of tools or an output model, ends after at most as many
  -- requests as it has tries. Each request is cut from the messages followed by the reports on all
  -- failures before it. The completion is the first reply that is accepted, with its telemetry; an
  -- error that has no prompt is raised at once; and when all tries have failed, the error is that of
  -- the output's format.
  pub get_completion-Ended :
      (tries : ℕ) (first : Message I) (messages : List (Message I)) (w : W)
      → is_raw_mode setting.active_tools setting.output_model ≡ false
      → Ended (first ∷ messages) w tries (get_completion setting tries (first ∷ messages) w)
  unfolding get_completion
  get_completion-Ended tries first messages w h =
      rw (h, complete-structured tries first messages w)
        (attempt_from-Ended (first ∷ messages) w tries 0 tries [] (first ∷ messages) w (omega arith)
          fresh)
