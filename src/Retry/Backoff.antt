-- ===== src/Retry/Backoff.antt =====
-- The pause between two attempts ends: with a signal, or when its time is over.
use roboz.Prelude.{
  ℕ, zero, suc, ◌+◌, ◌-◌, ◌≤◌, ◌<◌, ◌≡◌, refl, min, none, some, inl, inr, leb, arith, Result, ok,
  err, Bool-cases, Option-cases,
}
use roboz.Retry.{Timing, sleep_until, backoff_sleep}

-- What the documentation of `time.sleep` and `time.monotonic` says: a sleep takes at least its time.
abbrev pub SleepsEnough : {W S : Type 0} → Timing W S → Type 0
SleepsEnough {W} timing = (n : ℕ) (w : W) → timing.now w + n ≤ timing.now (timing.sleep n w)

module _ {W S : Type 0} (timing : Timing W S) where
  -- The result of a pause: a signal that is set, or the world at or after the deadline.
  abbrev pub Paused : ℕ → Result S (Unit {0}) × W → Type 0
  Paused deadline (ok done, w) = (deadline ≤ timing.now w) × (timing.set_signal w ≡ none)
  Paused deadline (err signal, w) = timing.set_signal w ≡ some signal

module _ {W S : Type 0} (timing : Timing W S) (sleeps : SleepsEnough timing) where
  sleep_until-Paused :
      (fuel poll_interval deadline : ℕ) (w : W)
      → 0 < poll_interval
      → deadline - timing.now w < fuel
      → (r : Result S (Unit {0}) × W) × (sleep_until timing fuel poll_interval deadline w ≡ some r)
        × Paused timing deadline r
  unfolding sleep_until
  sleep_until-Paused zero poll_interval deadline w h room = absurd (omega arith)
  sleep_until-Paused (suc fuel) poll_interval deadline w h room =
      elim (Option-cases (timing.set_signal w)) [
        | inr (signal, is_set) ↦ ((err signal, w), rw (is_set, sleep_until) refl, is_set)
        | inl unset ↦ elim (Bool-cases (leb deadline (timing.now w))) [
          | inl over ↦ ((ok tt, w), rw (unset, over, sleep_until) refl, (ground arith, unset))
          | inr waits ↦
              let n = min poll_interval (deadline - timing.now w) in
              let (r, is, paused) =
                sleep_until-Paused fuel poll_interval deadline (timing.sleep n w) h
                  (ground (arith, sleeps n w)) in
              (r, rw (unset, waits, sleep_until) is, paused)
        ]
      ]

  -- A pause ends: at a signal that is set, or at or after its time. Its rounds are at most one more
  -- than its time, if a sleep takes at least the time that it is given.
  pub backoff_sleep-Paused :
      (fuel poll_interval delay : ℕ) (w : W)
      → 0 < poll_interval
      → delay < fuel
      → (r : Result S (Unit {0}) × W) × (backoff_sleep timing fuel poll_interval delay w ≡ some r)
        × Paused timing (timing.now w + delay) r
  unfolding backoff_sleep
  backoff_sleep-Paused fuel poll_interval delay w h room =
      sleep_until-Paused fuel poll_interval (timing.now w + delay) w h (omega arith)
