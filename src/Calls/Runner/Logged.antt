-- ===== src/Calls/Runner/Logged.antt =====
-- The events that the attempts of a call add, one for each retry.
use roboz.Prelude.{
  ℕ, zero, suc, ◌+◌, ◌<◌, ◌≡◌, inl, inr, refl, ap, sym, ◌∙◌, Bool, true, false, Option, none, some,
  List, [], ◌∷◌, ◌++◌, leb, arith, Result, ok, err, Bool-cases, Option-cases, append_nil,
  append_assoc,
}
use roboz.Retry.{
  Timing, Settings, delay_of, Outcome, End, value, failed, signalled, sleep_until, backoff_sleep,
  may_retry, noted, after_sleep, after_decision, after_attempt, retry_from, PrepareRetry,
}
use mathlib.Core.Path.{subst}
use roboz.Calls.Stream.{Completion}
use roboz.Calls.Errors.{LlmError, is_retryable, error_kind, classify_call_error}
use roboz.Calls.Runner.{
  Event, retrying, Raised, exception, base_exception, Failure, llm_failure, base_failure, Signal,
  State, emit_event, timing_of, outcome_of, attempted, run_attempt, superseded, cannot_supersede,
  prepare_retry,
}
use roboz.Calls.Runner.Retries.{
  Transient, is_retryable-Transient, Superseded, cannot_supersede-Superseded, Retrying, no_more,
  again,
}

module _ {W : Type 0} (timing : Timing W Signal) where
  data Same (events : List Event) : Option (Result Signal (Unit {0}) × State W) → Type 0 where
    not_ended : Same events none
    slept :
        {result : Result Signal (Unit {0})} {state : State W}
        → state.events ≡ events
        → Same events (some (result, state))

  sleep_until-Same :
      (fuel poll_interval deadline : ℕ) (state : State W)
      → Same state.events (sleep_until (timing_of timing) fuel poll_interval deadline state)
  unfolding sleep_until
  sleep_until-Same zero poll_interval deadline state = not_ended
  sleep_until-Same (suc fuel) poll_interval deadline state =
      elim (Option-cases (timing.set_signal state.world)) [
        | inr (signal, is_set) ↦ rw (is_set, sleep_until) (slept refl)
        | inl unset ↦ (elim (Bool-cases (leb deadline (timing.now state.world))) [
          | inl over ↦ rw (unset, over, sleep_until) (slept refl)
          | inr waits ↦
              rw (unset, waits, sleep_until) (sleep_until-Same fuel poll_interval deadline _)
        ])
      ]

  backoff_sleep-Same :
      (fuel poll_interval delay : ℕ) (state : State W)
      → Same state.events (backoff_sleep (timing_of timing) fuel poll_interval delay state)
  unfolding backoff_sleep
  backoff_sleep-Same fuel poll_interval delay state =
      sleep_until-Same fuel poll_interval (timing.now state.world + delay) state

module _ {W V : Type 0} (timing : Timing W Signal) (settings : Settings)
    (replacement : Option (W → W))
    (external_call : ℕ → W → (Result Raised (Completion V) × Bool) × W)
    (set_abandoned : ℕ → W → W) where
  abbrev pub Attempts : Type 0
  Attempts = Option (End (Completion V) Failure Signal × List Bool × State W)

  -- Where the end of the attempts comes from: a completion, and an exception that is no Exception, come
  -- from an attempt.
  pub data Comes : End (Completion V) Failure Signal → Type 0 where
    from_value :
        {completion : Completion V} (attempt : ℕ) (w : W)
        → (external_call attempt w).0.0 ≡ ok completion
        → Comes (value completion)
    from_failure : (e : LlmError) → Comes (failed (llm_failure e))
    from_base :
        {b : ℕ} (attempt : ℕ) (w : W)
        → (external_call attempt w).0.0 ≡ err (base_exception b)
        → Comes (failed (base_failure b))
    from_signal : (signal : Signal) → Comes (signalled signal)

  -- What the attempts from one on add to the events.
  pub data Logged (attempt : ℕ) (events : List Event) : Attempts → Type 0 where
    no_run : Logged attempt events none
    logged :
        {end : End (Completion V) Failure Signal} {emitted : List Bool} {state : State W}
        (retries : List Event)
        → Retrying settings.max_attempts replacement attempt retries
        → state.events ≡ events ++ retries
        → Comes end
        → Logged attempt events (some (end, emitted, state))

  retried :
      {attempt : ℕ} {events : List Event} (e : LlmError) (abandoned emitted : Bool)
      (result : Attempts)
      → attempt < settings.max_attempts
      → Transient e
      → Superseded abandoned replacement
      → Logged
          (attempt + 1)
          (events ++ retrying (attempt + 1) settings.max_attempts (error_kind e) abandoned ∷ [])
          result
      → Logged attempt events (
          noted
            (timing_of timing)
            settings
            (some (prepare_retry timing settings replacement external_call set_abandoned))
            (run_attempt timing settings replacement external_call set_abandoned)
            emitted
            result)
  retried e abandoned emitted none more is allowed no_run = no_run
  retried {events = events} e abandoned emitted (some (end, before, state)) more is allowed
        (logged retries numbered same comes) =
      logged (_ ∷ retries) (again e more is allowed numbered) (same ∙ append_assoc events _ retries)
        comes

  abbrev clock : Timing (State W) Signal
  clock = timing_of timing

  abbrev prepare : Option (PrepareRetry (State W) Failure)
  prepare = some (prepare_retry timing settings replacement external_call set_abandoned)

  abbrev attempt_at : ℕ → State W → (Outcome (Completion V) Failure × Bool) × State W
  attempt_at attempt state =
      run_attempt timing settings replacement external_call set_abandoned attempt state

  none-Logged :
      {attempt : ℕ} {events : List Event} {end : End (Completion V) Failure Signal}
      {emitted : List Bool} {state : State W}
      → state.events ≡ events
      → Comes end
      → Logged attempt events (some (end, emitted, state))
  none-Logged {events = events} same comes =
      logged [] no_more (same ∙ sym (append_nil events)) comes

  superseded-events :
      (emitted : Bool) (start : Option (W → W)) (state : State W)
      → (superseded emitted start state).events ≡ state.events
  superseded-events false start state = refl
  superseded-events true none state = refl
  superseded-events true (some start) state = refl

  suc_is : (n : ℕ) → suc n ≡ n + 1
  suc_is n = omega arith

  after_sleep-Logged :
      (attempt : ℕ) (events : List Event) (e : LlmError) (abandoned emitted : Bool)
      (next : State W → Attempts) (slept_to : Option (Result Signal (Unit {0}) × State W))
      → attempt < settings.max_attempts
      → Transient e
      → Superseded abandoned replacement
      → Same timing
          (events ++ retrying (attempt + 1) settings.max_attempts (error_kind e) abandoned ∷ [])
          slept_to
      → ((state : State W) → Logged (attempt + 1) state.events (next state))
      → Logged attempt events (after_sleep clock settings prepare attempt_at next emitted slept_to)
  unfolding after_sleep
  after_sleep-Logged attempt events e abandoned emitted next none more is allowed not_ended later =
      no_run
  after_sleep-Logged attempt events e abandoned emitted next (some (err signal, state)) more is
        allowed (slept same) later =
      logged (_ ∷ []) (again e more is allowed no_more) same (from_signal signal)
  after_sleep-Logged attempt events e abandoned emitted next (some (ok done, state)) more is allowed
        (slept same) later =
      retried e abandoned emitted (next state) more is allowed
        (subst (λ es. Logged (attempt + 1) es (next state)) same (later state))

  after_decision-Logged :
      (attempt rounds : ℕ) (e : LlmError) (emitted : Bool) (next : State W → Attempts)
      (state : State W)
      → is_retryable e ≡ true
      → ((state : State W) → Logged (attempt + 1) state.events (next state))
      → Logged attempt state.events (
          after_decision clock settings prepare attempt_at next rounds attempt
            (llm_failure e)
            emitted
            (may_retry clock settings prepare attempt_at (llm_failure e) attempt emitted state))
  unfolding after_decision may_retry prepare_retry
  after_decision-Logged attempt rounds e emitted next state is later =
      elim (Bool-cases (leb settings.max_attempts attempt)) [
        | inl spent ↦ rw spent (none-Logged refl (from_failure e))
        | inr more ↦ elim (Bool-cases (cannot_supersede emitted replacement)) [
          | inl cannot ↦ rw (more, cannot) (none-Logged refl (from_failure e))
          | inr can ↦
              let reported =
                emit_event (retrying (attempt + 1) settings.max_attempts (error_kind e) emitted)
                  state in
              let begun = superseded emitted replacement reported in
              rw (more, can)
                (after_sleep-Logged attempt state.events e emitted emitted next _ (ground arith)
                  (is_retryable-Transient e is)
                  (cannot_supersede-Superseded emitted replacement can)
                  (subst
                    (λ es. Same timing es (
                      backoff_sleep clock rounds settings.poll_interval (delay_of settings attempt)
                        begun))
                    (superseded-events emitted replacement reported)
                    (backoff_sleep-Same timing rounds settings.poll_interval
                      (delay_of settings attempt) begun))
                  later)
        ]
      ]

  after_attempt-Logged :
      (attempt rounds : ℕ) (next : State W → Attempts) (events : List Event) (before : W)
      (called : (Result Raised (Completion V) × Bool) × W)
      → external_call attempt before ≡ called
      → ((state : State W) → Logged (attempt + 1) state.events (next state))
      → Logged attempt events (
          after_attempt clock settings prepare attempt_at next rounds attempt
            (attempted (set_abandoned attempt) events called))
  unfolding after_attempt outcome_of
  after_attempt-Logged attempt rounds next events before ((ok completion, emitted), w) came later =
      none-Logged refl (from_value attempt before (ap (λ r. r.0.0) came))
  after_attempt-Logged attempt rounds next events before ((err (base_exception b), emitted), w) came
        later =
      none-Logged refl (from_base attempt before (ap (λ r. r.0.0) came))
  after_attempt-Logged attempt rounds next events before ((err (exception e), emitted), w) came
        later =
      elim (Bool-cases (is_retryable (classify_call_error e))) [
        | inl is ↦ rw is (
            after_decision-Logged attempt rounds (classify_call_error e) emitted next
              (record { world = set_abandoned attempt w; events = events }) is later)
        | inr is_not ↦ rw is_not (none-Logged refl (from_failure (classify_call_error e)))
      ]

  pub retry_from-Logged :
      (fuel rounds attempt : ℕ) (state : State W)
      → Logged attempt state.events
          (retry_from clock settings prepare attempt_at fuel rounds attempt state)
  unfolding retry_from run_attempt
  retry_from-Logged zero rounds attempt state = no_run
  retry_from-Logged (suc fuel) rounds attempt state =
      after_attempt-Logged attempt rounds _ state.events state.world
        (external_call attempt state.world) refl
        (λ next.
          subst
            (λ n.
              Logged n next.events
                (retry_from clock settings prepare attempt_at fuel rounds (suc attempt) next))
            (suc_is attempt) (retry_from-Logged fuel rounds (suc attempt) next))
