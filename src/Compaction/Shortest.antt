-- ===== src/Compaction/Shortest.antt =====
-- The attempts at a summary: what each had been asked, and which text they leave.
use roboz.Prelude.{
  ℕ, zero, suc, ◌+◌, ◌≤◌, ◌<◌, ◌≡◌, refl, some, List, Memᴰ, [], ◌∷◌, ◌++◌, arith, leb, ltb, length,
  Result, ok, err, Bool-cases, inl, inr,
}
use roboz.Prelude.Text.{Text}
use roboz.Compaction.{
  Note, Limit, Services, SummaryError, provider, Answer, feedback, pipe_all, shorter, exceeded,
  accepted_max_chars, after_response, after_completion, complete_from, complete_with_length_limit,
}

abbrev pub NotLonger : Text → List Text → Type 0
NotLonger text [] = Unit {0}
NotLonger text (seen ∷ rest) = (length text ≤ length seen) × NotLonger text rest

module _ {W E : Type 0} (services : Services W E) (limit : Limit) (start : List Note) (w₀ : W) where
  -- The responses that were too long, the last one first, with the request and the world behind
  -- them: each response answers the request before it, and its feedback follows in the next one.
  pub data TooLong : List Text → List Note → W → Type 0 where
    none_yet : TooLong [] start w₀
    too_long :
        {seen : List Text} {messages : List Note} {w after : W} (response : Text)
        → TooLong seen messages w
        → services.complete_summary messages w ≡ (ok response, after)
        → limit.accepted_max_chars < length response
        → TooLong
            (response ∷ seen)
            (messages ++ feedback services response limit.max_chars)
            (pipe_all services (feedback services response limit.max_chars) after)

  -- How the attempts end: with a response that is short enough, with the exception of a request,
  -- or with the shortest of as many responses as there are attempts.
  pub data Ended (attempts : ℕ) : Answer services → Type 0 where
    in_time :
        {seen : List Text} {messages : List Note} {w after : W} {response : Text}
        → TooLong seen messages w
        → length seen < attempts
        → services.complete_summary messages w ≡ (ok response, after)
        → length response ≤ limit.accepted_max_chars
        → Ended attempts (ok response, messages, after)
    failed :
        {seen : List Text} {messages : List Note} {w after : W} {error : E}
        → TooLong seen messages w
        → length seen < attempts
        → services.complete_summary messages w ≡ (err error, after)
        → Ended attempts (err (provider error), messages, after)
    spent :
        {seen : List Text} {messages : List Note} {w : W} {shortest : Text}
        → TooLong seen messages w
        → length seen ≡ attempts
        → Memᴰ shortest seen
        → NotLonger shortest seen
        → Ended attempts (ok shortest, messages, w)

-- What `shortest` is behind the responses seen so far.
data Best : Text → List Text → Type 0 where
  nothing : Best [] []
  best :
      {text : Text} {seen : List Text}
      → 0 < length text
      → Memᴰ text seen
      → NotLonger text seen
      → Best text seen

NotLonger-le :
    (text longer : Text) (seen : List Text)
    → length text ≤ length longer
    → NotLonger longer seen
    → NotLonger text seen
NotLonger-le text longer [] h all = tt
NotLonger-le text longer (r ∷ seen) h (first, all) =
    (omega arith, NotLonger-le text longer seen h all)

module _ {W E : Type 0} (services : Services W E) where
  shorter-Best :
      (response shortest : Text) (seen : List Text)
      → 0 < length response
      → Best shortest seen
      → Best (shorter services shortest response) (response ∷ seen)
  unfolding shorter
  shorter-Best response [] [] some_text nothing = best some_text (Memᴰ.head refl) (omega arith, tt)
  shorter-Best response [] seen some_text (best h among all) = absurd (omega arith)
  shorter-Best response (c ∷ shortest) seen some_text (best h among all) =
      elim (Bool-cases (ltb (length response) (length (c ∷ shortest)))) [
        | inl less ↦ rw less (
            best some_text (Memᴰ.head refl)
              (omega arith, NotLonger-le response (c ∷ shortest) seen (ground arith) all))
        | inr more ↦ rw more (best h (Memᴰ.tail among) (ground arith, all))
      ]

  module _ (limit : Limit) (start : List Note) (w₀ : W) where
    after_response-Ended :
        (attempts : ℕ) (again : Text → List Note → W → Answer services) (shortest response : Text)
        {seen : List Text} {messages : List Note} {w after : W}
        → TooLong services limit start w₀ seen messages w
        → length seen < attempts
        → Best shortest seen
        → services.complete_summary messages w ≡ (ok response, after)
        → ((asked : List Note) (next : W)
            → TooLong services limit start w₀ (response ∷ seen) asked next
            → Best (shorter services shortest response) (response ∷ seen)
            → Ended services limit start w₀ attempts
                (again (shorter services shortest response) asked next))
        → Ended services limit start w₀ attempts (
            after_response services again shortest messages
              (exceeded services (some limit) response)
              response
              after)
    unfolding after_response exceeded
    after_response-Ended attempts again shortest response {seen} long left kept is ends =
        elim (Bool-cases (leb (length response) limit.accepted_max_chars)) [
          | inl short ↦ rw (short, after_response) (in_time long left is (ground arith))
          | inr more ↦
              let exceeds : limit.accepted_max_chars < length response = ground arith in
              rw (more, after_response)
                (ends _ _ (too_long response long is exceeds)
                  (shorter-Best response shortest seen (omega arith) kept))
        ]

    after_completion-Ended :
        (attempts : ℕ) (again : Text → List Note → W → Answer services) (shortest : Text)
        (reply : Result E Text × W) {seen : List Text} {messages : List Note} {w : W}
        → TooLong services limit start w₀ seen messages w
        → length seen < attempts
        → Best shortest seen
        → services.complete_summary messages w ≡ reply
        → ((response : Text) (asked : List Note) (next : W)
            → TooLong services limit start w₀ (response ∷ seen) asked next
            → Best (shorter services shortest response) (response ∷ seen)
            → Ended services limit start w₀ attempts
                (again (shorter services shortest response) asked next))
        → Ended services limit start w₀ attempts
            (after_completion services again (some limit) shortest messages reply)
    unfolding after_completion
    after_completion-Ended attempts again shortest (err error, after) long left kept is ends =
        failed long left is
    after_completion-Ended attempts again shortest (ok response, after) long left kept is ends =
        after_response-Ended attempts again shortest response long left kept is (ends response)

    spent-Ended :
        (attempts : ℕ) (shortest : Text) (seen : List Text) {messages : List Note} {w : W}
        → 0 < attempts
        → TooLong services limit start w₀ seen messages w
        → length seen ≡ attempts
        → Best shortest seen
        → Ended services limit start w₀ attempts (ok shortest, messages, w)
    spent-Ended attempts [] [] some_attempts long all nothing = absurd (omega arith)
    spent-Ended attempts shortest seen some_attempts long all (best h among shorter_than) =
        spent long all among shorter_than

    complete_from-Ended :
        (attempts left : ℕ) (shortest : Text) (seen : List Text) (messages : List Note) (w : W)
        → 0 < attempts
        → length seen + left ≡ attempts
        → TooLong services limit start w₀ seen messages w
        → Best shortest seen
        → Ended services limit start w₀ attempts
            (complete_from services (some limit) left shortest messages w)
    unfolding complete_from
    complete_from-Ended attempts zero shortest seen messages w some_attempts all long kept =
        spent-Ended attempts shortest seen some_attempts long (omega arith) kept
    complete_from-Ended attempts (suc left) shortest seen messages w some_attempts all long kept =
        after_completion-Ended attempts (complete_from services (some limit) left) shortest
          (services.complete_summary messages w) long (omega arith) kept refl
          (λ response asked next longer keeps.
            complete_from-Ended attempts left (shorter services shortest response) (response ∷ seen)
              asked next some_attempts (omega arith) longer keeps)

  -- A summary with a limit ends after at most three requests, each behind the first one with the
  -- feedback on the response before it: with the first response within the accepted length, with
  -- the exception of a request, or with the shortest of three responses that were too long.
  pub complete_with_length_limit-Ended :
      (max_chars tolerance_percent : ℕ) (messages : List Note) (w : W)
      → Ended services
          (record {
            max_chars = max_chars;
            accepted_max_chars = accepted_max_chars max_chars tolerance_percent;
          })
          messages
          w
          3
          (complete_with_length_limit services (some max_chars) tolerance_percent messages w)
  unfolding complete_with_length_limit roboz.Compaction.limit_of roboz.Compaction.attempts_of
  complete_with_length_limit-Ended max_chars tolerance_percent messages w =
      complete_from-Ended _ messages w 3 3 [] [] messages w (omega arith) refl none_yet nothing
