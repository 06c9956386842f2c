-- ===== src/Retry.antt =====
-- llm/_retry.py: a call with retries, and the pause between two attempts.
pub mod Backoff
pub mod Attempts
use roboz.Prelude.{
  ℕ, zero, suc, ◌+◌, ◌-◌, ◌*◌, ◌^◌, min, Bool, true, false, not, Option, none, some, List, [], ◌∷◌,
  leb, Result, ok, err, if◌then◌else◌,
}

-- Signals and the clock, on a world W. Times are counted in one unit, such as milliseconds.
pub record Timing (W S : Type 0) : Type 0 where
  pub now : W → ℕ
  -- the first of the control signals that is set
  pub set_signal : W → Option S
  pub sleep : ℕ → W → W

-- An attempt returns, raises one of the retryable errors, or raises another exception.
pub data Outcome (T E : Type 0) : Type 0 where
  returned : T → Outcome T E
  retryable fatal : E → Outcome T E

pub record Settings : Type 0 where
  pub max_attempts : ℕ
  pub base_delay : ℕ
  pub max_delay : ℕ
  pub poll_interval : ℕ

unfoldable pub delay_of : Settings → ℕ → ℕ
delay_of settings attempt = min settings.max_delay (settings.base_delay * 2 ^ (attempt - 1))

module _ {W S : Type 0} (timing : Timing W S) where
  -- `_cancellable_backoff_sleep`, with its deadline and fuel for its rounds; `err` is the exception of
  -- a signal.
  unfoldable pub sleep_until :
      (fuel poll_interval deadline : ℕ) → W → Option (Result S (Unit {0}) × W)
  sleep_until zero poll_interval deadline w = none
  sleep_until (suc fuel) poll_interval deadline w = elim (timing.set_signal w) [
    | some signal ↦ some (err signal, w)
    | none ↦
        let again =
          sleep_until fuel poll_interval deadline
            (timing.sleep (min poll_interval (deadline - timing.now w)) w) in
        if leb deadline (timing.now w) then some (ok tt, w) else again
  ]

  unfoldable pub backoff_sleep :
      (fuel poll_interval delay : ℕ) → W → Option (Result S (Unit {0}) × W)
  backoff_sleep fuel poll_interval delay w = sleep_until fuel poll_interval (timing.now w + delay) w

-- How a call ends.
pub data End (T E S : Type 0) : Type 0 where
  value : T → End T E S
  failed : E → End T E S
  signalled : S → End T E S

-- `prepare_retry(error, attempt, max_attempts, output_emitted)`, on the world.
abbrev pub PrepareRetry : (W E : Type 0) → Type 0
PrepareRetry W E = E → ℕ → ℕ → Bool → W → Bool × W

module _ {W S T E : Type 0} (timing : Timing W S) (settings : Settings)
    (prepare_retry : Option (PrepareRetry W E))
    -- `fn(state)` for the n-th attempt, with the final value of `state.output_emitted`
    (fn : ℕ → W → (Outcome T E × Bool) × W) where
  -- Whether another attempt is made after a retryable error.
  unfoldable pub may_retry : E → ℕ → Bool → W → Bool × W
  may_retry error attempt output_emitted w =
      if leb settings.max_attempts attempt then (false, w) else (elim prepare_retry [
        | none ↦ (not output_emitted, w)
        | some prepare ↦ prepare error attempt settings.max_attempts output_emitted w
      ])

  -- The end of a call, the `output_emitted` of each attempt in order, and the world.
  abbrev pub Run : Type 0
  Run = End T E S × List Bool × W

  abbrev pub noted : Bool → Option Run → Option Run
  noted emitted none = none
  noted emitted (some (end, attempts, w)) = some (end, emitted ∷ attempts, w)

  unfoldable pub after_sleep :
      (W → Option Run) → Bool → Option (Result S (Unit {0}) × W) → Option Run
  after_sleep again emitted none = none
  after_sleep again emitted (some (err signal, w)) = some (signalled signal, emitted ∷ [], w)
  after_sleep again emitted (some (ok done, w)) = noted emitted (again w)

  unfoldable pub after_decision : (W → Option Run) → ℕ → ℕ → E → Bool → Bool × W → Option Run
  after_decision again fuel attempt error emitted (false, w) = some (failed error, emitted ∷ [], w)
  after_decision again fuel attempt error emitted (true, w) =
      after_sleep again emitted
        (backoff_sleep timing fuel settings.poll_interval (delay_of settings attempt) w)

  unfoldable pub after_attempt : (W → Option Run) → ℕ → ℕ → (Outcome T E × Bool) × W → Option Run
  after_attempt again fuel attempt ((returned t, emitted), w) = some (value t, emitted ∷ [], w)
  after_attempt again fuel attempt ((fatal error, emitted), w) =
      some (failed error, emitted ∷ [], w)
  after_attempt again fuel attempt ((retryable error, emitted), w) =
      after_decision again fuel attempt error emitted (may_retry error attempt emitted w)

  -- The loop from an attempt on: fuel for the attempts, and fuel for the rounds of each pause.
  unfoldable pub retry_from : (fuel rounds attempt : ℕ) → W → Option Run
  retry_from zero rounds attempt w = none
  retry_from (suc fuel) rounds attempt w =
      after_attempt (retry_from fuel rounds (suc attempt)) rounds attempt (fn attempt w)

  unfoldable pub run_with_retry : (fuel rounds : ℕ) → W → Option Run
  run_with_retry fuel rounds w = retry_from fuel rounds 1 w
