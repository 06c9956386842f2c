-- ===== src/Retry/Attempts.antt =====
-- The attempts of a call: how many there are, and what the ones before the last had done.
use roboz.Prelude.{
  ℕ, zero, suc, ◌-◌, ◌≤◌, ◌<◌, ◌≡◌, ◌≢◌, refl, sym, Bool, true, false, not, Option, none, some,
  List, [], ◌∷◌, arith, leb, length, Result, ok, err, Bool-cases, inl, inr,
}
use roboz.Retry.{
  Timing, Settings, delay_of, Outcome, returned, retryable, fatal, PrepareRetry, Run, may_retry,
  noted, after_sleep, after_decision, after_attempt, retry_from, run_with_retry,
}
use roboz.Retry.Backoff.{SleepsEnough, backoff_sleep-Paused}

-- A list of the attempts in which none but the last is marked.
abbrev pub QuietBefore : List Bool → Type 0
QuietBefore [] = Unit {0}
QuietBefore (b ∷ []) = Unit {0}
QuietBefore (b ∷ c ∷ bs) = (b ≡ false) × QuietBefore (c ∷ bs)

module _ {W S T E : Type 0} (timing : Timing W S) (settings : Settings)
    (prepare_retry : Option (PrepareRetry W E)) (fn : ℕ → W → (Outcome T E × Bool) × W) where
  -- The call ends, after at most so many attempts; without `prepare_retry`, no attempt before the
  -- last had emitted output.
  abbrev pub Ends : ℕ → Option (Run timing settings prepare_retry fn) → Type 0
  Ends bound o =
      (run : Run timing settings prepare_retry fn) × (o ≡ some run)
      × (length run.1 ≤ bound)
      × (prepare_retry ≡ none → QuietBefore run.1)

module _ {W S T E : Type 0} (timing : Timing W S) (settings : Settings)
    (prepare_retry : Option (PrepareRetry W E)) (fn : ℕ → W → (Outcome T E × Bool) × W)
    (sleeps : SleepsEnough timing) (polls : 0 < settings.poll_interval) where
  abbrev loop : ℕ → ℕ → ℕ → W → Option (Run timing settings prepare_retry fn)
  loop fuel rounds attempt w = retry_from timing settings prepare_retry fn fuel rounds attempt w

  QuietBefore-first :
      (b : Bool) (bs : List Bool) → b ≡ false → QuietBefore bs → QuietBefore (b ∷ bs)
  QuietBefore-first b [] h quiet = tt
  QuietBefore-first b (c ∷ bs) h quiet = (h, quiet)

  noted-Ends :
      (bound : ℕ) (emitted : Bool) (o : Option (Run timing settings prepare_retry fn))
      → (prepare_retry ≡ none → emitted ≡ false)
      → Ends timing settings prepare_retry fn bound o
      → Ends timing settings prepare_retry fn
          (suc bound)
          (noted timing settings prepare_retry fn emitted o)
  noted-Ends bound emitted o silent ((end, attempts, w), is, bounded, quiet) = (
    (end, emitted ∷ attempts, w),
    rw is refl,
    omega arith,
    λ h. QuietBefore-first emitted attempts (silent h) (quiet h),
  )

  true≢false : true ≢ false
  true≢false e = cc

  not-true : (b : Bool) → not b ≡ true → b ≡ false
  not-true true e = cc
  not-true false e = refl

  may_retry-true :
      (error : E) (attempt : ℕ) (emitted : Bool) (w : W)
      → (may_retry timing settings prepare_retry fn error attempt emitted w).0 ≡ true
      → (attempt < settings.max_attempts) × (prepare_retry ≡ none → emitted ≡ false)
  unfolding may_retry
  may_retry-true error attempt emitted w h = elim (Bool-cases (leb settings.max_attempts attempt)) [
    | inl spent ↦ absurd (true≢false (sym (rw (spent, may_retry) at h)))
    | inr left ↦
        (ground arith, λ none_given. not-true emitted (rw (left, none_given, may_retry) at h))
  ]

  after_sleep-Ends :
      (bound : ℕ) (again : W → Option (Run timing settings prepare_retry fn)) (emitted : Bool)
      (r : Result S (Unit {0}) × W)
      → (prepare_retry ≡ none → emitted ≡ false)
      → ((w : W) → Ends timing settings prepare_retry fn bound (again w))
      → Ends timing settings prepare_retry fn
          (suc bound)
          (after_sleep timing settings prepare_retry fn again emitted (some r))
  unfolding after_sleep
  after_sleep-Ends bound again emitted (err signal, w) silent ends = (_, refl, omega arith, λ h. tt)
  after_sleep-Ends bound again emitted (ok done, w) silent ends =
      noted-Ends bound emitted (again w) silent (ends w)

  delay_of-le : (attempt : ℕ) → delay_of settings attempt ≤ settings.max_delay
  unfolding delay_of
  delay_of-le attempt = ground arith

  module _ (rounds : ℕ) (enough : settings.max_delay < rounds) where
    after_decision-Ends :
        (bound : ℕ) (again : W → Option (Run timing settings prepare_retry fn)) (attempt : ℕ)
        (error : E) (emitted : Bool) (decision : Bool × W)
        → (decision.0 ≡ true → prepare_retry ≡ none → emitted ≡ false)
        → (decision.0 ≡ true → (w : W) → Ends timing settings prepare_retry fn bound (again w))
        → Ends timing settings prepare_retry fn (suc bound) (
            after_decision timing settings prepare_retry fn again rounds attempt error emitted
              decision)
    unfolding after_decision
    after_decision-Ends bound again attempt error emitted (false, w) silent ends =
        (_, refl, omega arith, λ h. tt)
    after_decision-Ends bound again attempt error emitted (true, w) silent ends =
        let (r, is, paused) =
          backoff_sleep-Paused timing sleeps rounds settings.poll_interval
            (delay_of settings attempt) w polls (omega (arith, delay_of-le attempt)) in
        rw is (after_sleep-Ends bound again emitted r (silent refl) (ends refl))

    after_attempt-Ends :
        (bound : ℕ) (again : W → Option (Run timing settings prepare_retry fn)) (attempt : ℕ)
        (r : (Outcome T E × Bool) × W)
        → (attempt < settings.max_attempts
            → (w : W) → Ends timing settings prepare_retry fn bound (again w))
        → Ends timing settings prepare_retry fn
            (suc bound)
            (after_attempt timing settings prepare_retry fn again rounds attempt r)
    unfolding after_attempt
    after_attempt-Ends bound again attempt ((returned t, emitted), w) ends =
        (_, refl, omega arith, λ h. tt)
    after_attempt-Ends bound again attempt ((fatal error, emitted), w) ends =
        (_, refl, omega arith, λ h. tt)
    after_attempt-Ends bound again attempt ((retryable error, emitted), w) ends =
        let decision = may_retry timing settings prepare_retry fn error attempt emitted w in
        after_decision-Ends bound again attempt error emitted decision
          (λ goes. (may_retry-true error attempt emitted w goes).1)
          (λ goes. ends (may_retry-true error attempt emitted w goes).0)

    retry_from-Ends :
        (fuel attempt : ℕ) (w : W)
        → settings.max_attempts - attempt < fuel
        → Ends timing settings prepare_retry fn
            (suc (settings.max_attempts - attempt))
            (loop fuel rounds attempt w)
    unfolding retry_from
    retry_from-Ends zero attempt w h = absurd (omega arith)
    retry_from-Ends (suc fuel) attempt w h =
        after_attempt-Ends (settings.max_attempts - attempt) (loop fuel rounds (suc attempt))
          attempt (fn attempt w)
          (λ more next.
            let next_bound : suc (settings.max_attempts - suc attempt)
                ≡ settings.max_attempts - attempt =
              omega arith in
            rw next_bound at (retry_from-Ends fuel (suc attempt) next (omega arith)))

-- A call with retries ends, whatever its attempts do, after at most `max_attempts`, if a sleep takes at
-- least its time, and the poll interval and `max_attempts` are positive; and without
-- `prepare_retry` no attempt before the last had emitted output. As much fuel as there may be attempts
-- is enough, and for each pause one round more than the longest delay.
pub run_with_retry-Ends :
    {W S T E : Type 0} (timing : Timing W S) (settings : Settings)
    (prepare_retry : Option (PrepareRetry W E)) (fn : ℕ → W → (Outcome T E × Bool) × W)
    → SleepsEnough timing
    → 0 < settings.poll_interval
    → 0 < settings.max_attempts
    → (fuel rounds : ℕ) (w : W) → settings.max_attempts ≤ fuel
    → settings.max_delay < rounds
    → Ends timing settings prepare_retry fn settings.max_attempts
        (run_with_retry timing settings prepare_retry fn fuel rounds w)
unfolding run_with_retry
run_with_retry-Ends timing settings prepare_retry fn sleeps polls some_attempts fuel rounds w room
      enough =
    let bound : suc (settings.max_attempts - 1) ≡ settings.max_attempts = omega arith in
    rw bound at (
      retry_from-Ends timing settings prepare_retry fn sleeps polls rounds enough fuel 1 w
        (omega arith))
