-- ===== src/Scripts/Server/Ends.antt =====
-- A run ends: waits let time pass, up to the deadline, and chunks use up the limit.
use roboz.Prelude.{
  ℕ, zero, suc, ◌+◌, ◌-◌, ◌≤◌, ◌<◌, ◌≡◌, refl, ap, Bool, true, false, ◌||◌, Option, none, some,
  List, [], ◌∷◌, arith, ltb, length, take, Result, ok, err, Bool-cases, Result-cases, inl, inr,
}
use roboz.Prelude.Text.{Text}
use roboz.Scripts.{ExecutionPolicy, Completed, Response, output_limit}
use roboz.Scripts.Server.{
  Raised, deadline_expired, os_error, value_error, cancelled, System, Host, Stream, Rounds, check,
  yielding, output_of, outcome_of, finished, is_running, cleaned, after_chunk, after_read,
  after_select, after_check, read_output, after_spawn, after_lock, behind_gate, execute,
}

-- Time does not go back, and a wait that brings nothing takes some.
pub record Elapses {W D E : Type 0} (system : System W D E) : Type 0 where
  pub spawn-le : (path : Text) (w : W) → system.now w ≤ system.now (system.spawn path w).1
  pub select-le : (w : W) → system.now w ≤ system.now (system.select w).1
  pub select-lt :
      (w : W) → (system.select w).0 ≡ false → system.now w < system.now (system.select w).1
  pub pause-lt : (w : W) → system.now w < system.now (system.pause w)
  pub read-le : (w : W) → system.now w ≤ system.now (system.read w).1

pub data Ended {A : Type 0} : Option A → Type 0 where
  ended : {a : A} → Ended (some a)

module _ {W D E : Type 0} (system : System W D E) where
  pub yielding-Ended :
      (responses : List Response) (o : Option (Stream system Completed))
      → Ended o
      → Ended (yielding system responses o)
  yielding-Ended responses none e = elim e [ ]
  yielding-Ended responses (some stream) ended = ended

module _ {W D E : Type 0} (system : System W D E) (elapses : Elapses system) where
  abbrev rounds_left : ℕ → Bool → ℕ → W → ℕ
  rounds_left deadline true remaining w = (deadline - system.now w) + remaining + 1
  rounds_left deadline false remaining w = (deadline - system.now w) + remaining

  module _ (deadline fuel : ℕ) (again : Rounds system)
      (ends : (streams : Bool) (remaining : ℕ) (d : D) (w : W)
        → rounds_left deadline streams remaining w < fuel
        → Ended (again streams remaining d w)) where
    after_chunk-Ended :
        (remaining : ℕ) (d : D) (c : ℕ) (chunk : List ℕ) (w : W)
        → (deadline - system.now w) + remaining < fuel
        → Ended (after_chunk system again remaining d (c ∷ chunk) w)
    unfolding after_chunk
    after_chunk-Ended remaining d c chunk w h =
        let decoded = system.decode d (take remaining (c ∷ chunk)) false in
        elim (Bool-cases (ltb remaining (length (c ∷ chunk)))) [
          | inl over ↦ rw over (
              yielding-Ended system (output_of system decoded.0)
                (some (finished system decoded.1 (some (outcome_of system output_limit none [])) w))
                ended)
          | inr within ↦
              let less : rounds_left deadline true (remaining - length (c ∷ chunk)) w < fuel =
                ground arith in
              rw within (
                yielding-Ended system (output_of system decoded.0)
                  (again true (remaining - length (c ∷ chunk)) decoded.1 w)
                  (ends true (remaining - length (c ∷ chunk)) decoded.1 w less))
        ]

    after_read-Ended :
        (remaining : ℕ) (d : D) (r : Result Text (List ℕ) × W)
        → (deadline - system.now r.1) + remaining < fuel
        → Ended (after_read system again remaining d r)
    unfolding after_read
    after_read-Ended remaining d (err text, w) h = ended
    after_read-Ended remaining d (ok [], w) h = ends false remaining d w h
    after_read-Ended remaining d (ok (c ∷ chunk), w) h = after_chunk-Ended remaining d c chunk w h

    after_select-Ended :
        (remaining : ℕ) (d : D) (w : W) (r : Bool × W)
        → system.select w ≡ r
        → system.now w < deadline
        → (deadline - system.now w) + remaining < fuel
        → Ended (after_select system again remaining d r)
    unfolding after_select
    after_select-Ended remaining d w (false, next) is before h =
        let later : system.now w < system.now next =
          rw is at (elapses.select-lt w (ap (λ (s : Bool × W). s.0) is)) in
        ends true remaining d next (omega arith)
    after_select-Ended remaining d w (true, next) is before h =
        let later : system.now w ≤ system.now next = rw is at (elapses.select-le w) in
        after_read-Ended remaining d (system.read next) (omega (arith, elapses.read-le next))

    after_check-Ended_err :
        (streams : Bool) (remaining : ℕ) (d : D) (w : W) (e : Raised E)
        → Ended (after_check system again streams remaining d w (err e))
    unfolding after_check
    after_check-Ended_err streams remaining d w deadline_expired = ended
    after_check-Ended_err streams remaining d w (os_error text) = ended
    after_check-Ended_err streams remaining d w (value_error e) = ended
    after_check-Ended_err streams remaining d w (cancelled e) = ended

    after_check-Ended_ok :
        (streams : Bool) (remaining : ℕ) (d : D) (w : W) (done : Unit {0})
        → system.now w < deadline
        → rounds_left deadline streams remaining w ≤ fuel
        → Ended (after_check system again streams remaining d w (ok done))
    unfolding after_check
    after_check-Ended_ok true remaining d w done before h =
        after_select-Ended remaining d w (system.select w) refl before (omega arith)
    after_check-Ended_ok false remaining d w done before h =
        ends false remaining d (system.pause w) (omega (arith, elapses.pause-lt w))

    check-lt :
        (w : W) {done : Unit {0}} → check system deadline w ≡ ok done → system.now w < deadline
    unfolding check
    check-lt w h = elim (Result-cases (system.check_cancelled w)) [
      | inl (passed, is) ↦ ground arith
      | inr (e, is) ↦ absurd (ground arith)
    ]

    after_check-Ended :
        (streams : Bool) (remaining : ℕ) (d : D) (w : W)
        → rounds_left deadline streams remaining w ≤ fuel
        → Ended (after_check system again streams remaining d w (check system deadline w))
    after_check-Ended streams remaining d w h = elim (Result-cases (check system deadline w)) [
      | inl (done, passed) ↦
          rw passed (after_check-Ended_ok streams remaining d w done (check-lt w passed) h)
      | inr (e, stopped) ↦ rw stopped (after_check-Ended_err streams remaining d w e)
    ]

  read_output-Ended :
      (fuel deadline : ℕ) (streams : Bool) (remaining : ℕ) (d : D) (w : W)
      → rounds_left deadline streams remaining w < fuel
      → Ended (read_output system fuel deadline streams remaining d w)
  unfolding read_output
  read_output-Ended zero deadline streams remaining d w h = absurd (omega arith)
  read_output-Ended (suc fuel) deadline streams remaining d w h =
      elim (Bool-cases (streams || is_running system (system.returncode w))) [
        | inl goes_on ↦
            rw (goes_on, read_output)
              (after_check-Ended deadline fuel (read_output system fuel deadline)
                (λ streams remaining d w. read_output-Ended fuel deadline streams remaining d w)
                streams remaining d w (omega arith))
        | inr over ↦ rw (over, read_output) ended
      ]

  cleaned-Ended : {o : Option (Stream system Completed)} → Ended o → Ended (cleaned system o)
  unfolding cleaned
  cleaned-Ended ended = ended

  module _ (fuel deadline : ℕ) (policy : ExecutionPolicy) where
    after_spawn-Ended :
        (r : Result Text (Unit {0}) × W)
        → (deadline - system.now r.1) + policy.max_output_bytes + 1 < fuel
        → Ended (after_spawn system fuel deadline policy r)
    unfolding after_spawn
    after_spawn-Ended (err text, w) h = ended
    after_spawn-Ended (ok done, w) h =
        cleaned-Ended
          (read_output-Ended fuel deadline true policy.max_output_bytes system.decoder w h)

    after_lock-Ended :
        (path : Text) (w : W) (r : Result (Raised E) (Unit {0}))
        → (deadline - system.now w) + policy.max_output_bytes + 1 < fuel
        → Ended (after_lock system fuel deadline policy path w r)
    unfolding after_lock
    after_lock-Ended path w (err e) h = ended
    after_lock-Ended path w (ok done) h =
        after_spawn-Ended (system.spawn path w) (omega (arith, elapses.spawn-le path w))

    behind_gate-Ended :
        (path : Text) (host : Host W) (locked : Bool)
        → (deadline - system.now host.world) + policy.max_output_bytes + 1 < fuel
        → Ended (behind_gate system fuel deadline policy path host locked)
    unfolding behind_gate
    behind_gate-Ended path host true h = ended
    behind_gate-Ended path host false h =
        after_lock-Ended path host.world (check system deadline host.world) h

    pub execute-Ended :
        (path : Text) (host : Host W)
        → (deadline - system.now host.world) + policy.max_output_bytes + 1 < fuel
        → Ended (execute system fuel deadline policy path host)
    unfolding execute
    execute-Ended path host h = behind_gate-Ended path host host.locked h
