-- ===== src/Tests/Retry.antt =====
-- Calls with retries, and the theorems at them.
use roboz.Prelude.{ℕ, ◌+◌, ◌≡◌, refl, Bool, false, none, some, [], ◌∷◌, leb, if◌then◌else◌, arith}
use roboz.Retry.{
  Timing, Settings, Outcome, returned, retryable, fatal, value, failed, run_with_retry,
  backoff_sleep,
}
use roboz.Retry.Attempts.{Ends, run_with_retry-Ends}

-- The world is the time; a signal is set from 100 on.
abbrev clock : Timing ℕ ℕ
clock = record {
  now = λ w. w;
  set_signal = λ w. if leb 100 w then some w else none;
  sleep = λ n w. w + n;
}

abbrev settings : Settings
settings = record { max_attempts = 3; base_delay = 5; max_delay = 40; poll_interval = 2 }

-- Each attempt takes one unit of time; the second returns.
abbrev second_time : ℕ → ℕ → (Outcome ℕ ℕ × Bool) × ℕ
second_time attempt w = ((if leb 2 attempt then returned attempt else retryable 0, false), w + 1)

returns :
    run_with_retry clock settings none second_time 3 41 0 ≡ some (value 2, false ∷ false ∷ [], 7)
unfolding run_with_retry roboz.Retry.retry_from roboz.Retry.after_attempt roboz.Retry.after_decision
    roboz.Retry.may_retry roboz.Retry.after_sleep backoff_sleep roboz.Retry.sleep_until
    roboz.Retry.delay_of
returns = refl

run_with_retry-Ends_example :
    Ends clock settings none second_time 3 (run_with_retry clock settings none second_time 3 41 0)
run_with_retry-Ends_example =
    run_with_retry-Ends clock settings none second_time (λ n w. omega arith) (omega arith)
      (omega arith) 3 41 0 (omega arith) (omega arith)
