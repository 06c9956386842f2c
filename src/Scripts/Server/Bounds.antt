-- ===== src/Scripts/Server/Bounds.antt =====
-- The responses of a run: output within the limit, and a completion that the wire accepts.
use roboz.Prelude.{
  ℕ, zero, suc, ◌+◌, ◌-◌, ◌*◌, ◌≤◌, ◌≡◌, refl, Bool, true, false, ◌||◌, Option, none, some, List,
  [], ◌∷◌, arith, ltb, length, take, Result, ok, err, Bool-cases, inl, inr, length-take,
}
use roboz.Prelude.Int.{ℤ, pos, negsuc}
use roboz.Prelude.Text.{Text}
use roboz.Scripts.{
  Completed, Response, output_chunk, validate_outcome, outcome, max_diagnostic_chars, busy, timeout,
  failed, output_limit,
}
use roboz.Scripts.Client.{is_listed}
use roboz.Scripts.Server.{
  Raised, deadline_expired, os_error, value_error, cancelled, System, Stream, Rounds, check,
  output_of, yielding, is_running, outcome_of, status_of_code, finished, after_chunk, after_read,
  after_select, after_check, read_output,
}

-- What the incremental decoder of UTF-8 with replacement promises: no byte becomes more than three
-- bytes of text, counted when its character is complete. `pending` is how many bytes it holds back.
pub record Expands {W D E : Type 0} (system : System W D E) (utf8 : Text → List ℕ) : Type 0 where
  pub pending : D → ℕ
  pub pending-decoder : pending system.decoder ≡ 0
  pub decode-le :
      (d : D) (bytes : List ℕ) (final : Bool)
      → length (utf8 (system.decode d bytes final).0) + 3 * pending (system.decode d bytes final).1
        ≤ 3 * (pending d + length bytes)

-- The bytes of the output, if all responses are output.
module _ (utf8 : Text → List ℕ) where
  abbrev pub output_bytes : List Response → ℕ
  output_bytes [] = 0
  output_bytes (output_chunk text ∷ responses) = length (utf8 text) + output_bytes responses
  output_bytes (_ ∷ responses) = output_bytes responses

abbrev pub IsOutput : List Response → Type 0
IsOutput [] = Unit {0}
IsOutput (output_chunk text ∷ responses) = IsOutput responses
IsOutput (_ ∷ responses) = ⊥

-- An exception, or a completion of an execution that the wire accepts.
abbrev pub Fits : {E : Type 0} → Result (Raised E) Completed → Type 0
Fits (err e) = Unit {0}
Fits (ok completed) =
    (is_listed completed.status ≡ false)
    × (validate_outcome completed.status completed.exit_code ≡ ok tt)
    × (length completed.diagnostic ≤ max_diagnostic_chars)

-- So too for what a run, if it ends, has yielded.
module _ {W D E : Type 0} (system : System W D E) (utf8 : Text → List ℕ) where
  pub data Bounded (n : ℕ) : Option (Stream system Completed) → Type 0 where
    running : Bounded n none
    bounded :
        {responses : List Response} {end : Result (Raised E) Completed} {w : W}
        → IsOutput responses
        → output_bytes utf8 responses ≤ n
        → Fits end
        → Bounded n (some (responses, end, w))

  pub Bounded-mono :
      {n m : ℕ} {o : Option (Stream system Completed)} → n ≤ m → Bounded n o → Bounded m o
  Bounded-mono h running = running
  Bounded-mono h (bounded outputs within fits) = bounded outputs (omega arith) fits

  yielding-Bounded :
      (text : Text) {n : ℕ} {o : Option (Stream system Completed)}
      → Bounded n o
      → Bounded (length (utf8 text) + n) (yielding system (output_of system text) o)
  unfolding output_of
  yielding-Bounded text running = running
  yielding-Bounded [] (bounded outputs within fits) = bounded outputs (omega arith) fits
  yielding-Bounded (c ∷ text) (bounded outputs within fits) = bounded outputs (omega arith) fits

  output_of-Bounded :
      (text : Text) {end : Result (Raised E) Completed} (w : W)
      → Fits end
      → Bounded (length (utf8 text)) (some (output_of system text, end, w))
  unfolding output_of
  output_of-Bounded [] w fits = bounded tt (omega arith) fits
  output_of-Bounded (c ∷ text) w fits = bounded tt (omega arith) fits

  outcome_of-code :
      (exit_code : Option ℤ)
      → Fits (outcome_of system (status_of_code system exit_code) exit_code [])
  unfolding outcome_of outcome validate_outcome status_of_code
  outcome_of-code none = (refl, refl, omega arith)
  outcome_of-code (some (pos zero)) = (refl, refl, omega arith)
  outcome_of-code (some (pos (suc n))) = (refl, refl, omega arith)
  outcome_of-code (some (negsuc n)) = (refl, refl, omega arith)

  pub outcome_of-failed : (text : Text) → Fits (outcome_of system failed none text)
  unfolding outcome_of outcome validate_outcome
  outcome_of-failed text = (refl, refl, omega (arith, length-take {0} max_diagnostic_chars text))

  pub outcome_of-timeout : Fits (outcome_of system timeout none [])
  unfolding outcome_of outcome validate_outcome
  outcome_of-timeout = (refl, refl, omega arith)

  outcome_of-output_limit : Fits (outcome_of system output_limit none [])
  unfolding outcome_of outcome validate_outcome
  outcome_of-output_limit = (refl, refl, omega arith)

  pub outcome_of-busy : (text : Text) → Fits (outcome_of system busy none text)
  unfolding outcome_of outcome validate_outcome
  outcome_of-busy text = (refl, refl, omega (arith, length-take {0} max_diagnostic_chars text))

  module _ (expands : Expands system utf8) where
    abbrev held : D → ℕ
    held = expands.pending

    tail-Bounded :
        (d : D) {end : Result (Raised E) Completed} (w : W)
        → Fits end
        → Bounded (3 * held d) (some (output_of system (system.decode d [] true).0, end, w))
    tail-Bounded d w fits =
        Bounded-mono (omega (arith, expands.decode-le d [] true))
          (output_of-Bounded (system.decode d [] true).0 w fits)

    finished-Bounded :
        (d : D) (end : Result (Raised E) Completed) (w : W)
        → Fits end
        → Bounded (3 * held d) (some (finished system d (some end) w))
    unfolding finished
    finished-Bounded d end w fits = tail-Bounded d w fits

    finished-Bounded_code : (d : D) (w : W) → Bounded (3 * held d) (some (finished system d none w))
    unfolding finished
    finished-Bounded_code d w = tail-Bounded d w (outcome_of-code (system.returncode w))

    abbrev AreBounded : Rounds system → Type 0
    AreBounded again =
        (streams : Bool) (remaining : ℕ) (d : D) (w : W)
        → Bounded (3 * (held d + remaining)) (again streams remaining d w)

    after_chunk-Bounded :
        (again : Rounds system) (remaining : ℕ) (d : D) (chunk : List ℕ) (w : W)
        → AreBounded again
        → Bounded (3 * (held d + remaining)) (after_chunk system again remaining d chunk w)
    unfolding after_chunk
    after_chunk-Bounded again remaining d chunk w all =
        let decoded = system.decode d (take remaining chunk) false in
        let expanded = expands.decode-le d (take remaining chunk) false in
        let taken = length-take {0} remaining chunk in
        elim (Bool-cases (ltb remaining (length chunk))) [
          | inl over ↦ rw over (
              Bounded-mono (omega arith) (
                yielding-Bounded decoded.0
                  (finished-Bounded decoded.1 _ w outcome_of-output_limit)))
          | inr within ↦
              let fits : length chunk ≤ remaining = ground arith in
              rw within (
                Bounded-mono (omega arith)
                  (yielding-Bounded decoded.0 (all true (remaining - length chunk) decoded.1 w)))
        ]

    after_read-Bounded :
        (again : Rounds system) (remaining : ℕ) (d : D) (r : Result Text (List ℕ) × W)
        → AreBounded again
        → Bounded (3 * (held d + remaining)) (after_read system again remaining d r)
    unfolding after_read
    after_read-Bounded again remaining d (err text, w) all =
        Bounded-mono (omega arith) (finished-Bounded d _ w (outcome_of-failed text))
    after_read-Bounded again remaining d (ok [], w) all = all false remaining d w
    after_read-Bounded again remaining d (ok (c ∷ chunk), w) all =
        after_chunk-Bounded again remaining d (c ∷ chunk) w all

    after_select-Bounded :
        (again : Rounds system) (remaining : ℕ) (d : D) (r : Bool × W)
        → AreBounded again
        → Bounded (3 * (held d + remaining)) (after_select system again remaining d r)
    unfolding after_select
    after_select-Bounded again remaining d (false, w) all = all true remaining d w
    after_select-Bounded again remaining d (true, w) all =
        after_read-Bounded again remaining d (system.read w) all

    after_check-Bounded :
        (again : Rounds system) (streams : Bool) (remaining : ℕ) (d : D) (w : W)
        (r : Result (Raised E) (Unit {0}))
        → AreBounded again
        → Bounded (3 * (held d + remaining)) (after_check system again streams remaining d w r)
    unfolding after_check
    after_check-Bounded again streams remaining d w (err deadline_expired) all =
        Bounded-mono (omega arith) (finished-Bounded d _ w outcome_of-timeout)
    after_check-Bounded again streams remaining d w (err (os_error text)) all =
        Bounded-mono (omega arith) (finished-Bounded d _ w (outcome_of-failed text))
    after_check-Bounded again streams remaining d w (err (value_error e)) all =
        bounded tt (omega arith) tt
    after_check-Bounded again streams remaining d w (err (cancelled e)) all =
        bounded tt (omega arith) tt
    after_check-Bounded again true remaining d w (ok done) all =
        after_select-Bounded again remaining d (system.select w) all
    after_check-Bounded again false remaining d w (ok done) all =
        all false remaining d (system.pause w)

    pub read_output-Bounded :
        (fuel deadline : ℕ) (streams : Bool) (remaining : ℕ) (d : D) (w : W)
        → Bounded
            (3 * (held d + remaining))
            (read_output system fuel deadline streams remaining d w)
    unfolding read_output
    read_output-Bounded zero deadline streams remaining d w = running
    read_output-Bounded (suc fuel) deadline streams remaining d w =
        elim (Bool-cases (streams || is_running system (system.returncode w))) [
          | inl goes_on ↦
              rw (goes_on, read_output)
                (after_check-Bounded (read_output system fuel deadline) streams remaining d w
                  (check system deadline w)
                  (λ streams remaining d w.
                    read_output-Bounded fuel deadline streams remaining d w))
          | inr over ↦
              rw (over, read_output) (Bounded-mono (omega arith) (finished-Bounded_code d w))
        ]
