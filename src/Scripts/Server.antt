-- ===== src/Scripts/Server.antt =====
-- shed/tools/safe_scripts/server.py, `_execute` and `Scripts.events`: one run of a script as the
-- stream of its responses, behind the gate that lets one script run at a time. The consumer takes
-- the stream to its end.
pub mod Gate
pub mod Bounds
pub mod Ends
use roboz.Prelude.{
  ℕ, zero, suc, ◌+◌, ◌-◌, Bool, true, false, ◌||◌, Option, none, some, List, [], ◌∷◌, ◌++◌, ltb,
  leb, ◌==◌, if◌then◌else◌, length, take, drop, Result, ok, err,
}
use roboz.Prelude.Int.{ℤ, pos}
use roboz.Prelude.Text.{Text, codes}
use roboz.Scripts.{
  ExecutionPolicy, Completed, Response, output_chunk, completion, ValueError, success, refused,
  busy, failed, timeout, output_limit, ScriptStatus, outcome,
}

-- What ends a generator before its completion: the private exception of the deadline, an OSError
-- and a ValueError with their texts, and any other, which a cancellation is.
pub data Raised (E : Type 0) : Type 0 where
  deadline_expired : Raised E
  os_error : Text → Raised E
  value_error : ValueError → Raised E
  cancelled : E → Raised E

-- The operating system: the caller's check, the clock, and a process with its pipe. `select` waits
-- a tenth of a second for the pipe, or for nothing when there is no stream. `D` is the state of the
-- incremental decoder.
pub record System (W D E : Type 0) : Type 0 where
  pub check_cancelled : W → Result E (Unit {0})
  pub now : W → ℕ
  pub spawn : Text → W → Result Text (Unit {0}) × W
  pub returncode : W → Option ℤ
  pub select : W → Bool × W
  pub pause : W → W
  pub read : W → Result Text (List ℕ) × W
  pub terminate : W → W
  pub wait : W → W
  pub decoder : D
  pub decode : D → List ℕ → Bool → Text × D
  pub error_text : ValueError → Text

-- The gate, `execution_lock`, and the world.
pub record Host (W : Type 0) : Type 0 where
  pub locked : Bool
  pub world : W

module _ {W D E : Type 0} (system : System W D E) where
  -- The responses yielded so far are in front of those of the rest.
  abbrev pub Stream : Type 0 → Type 0
  Stream A = List Response × Result (Raised E) A × W

  unfoldable pub check : ℕ → W → Result (Raised E) (Unit {0})
  check deadline w = elim (system.check_cancelled w) [
    | err e ↦ err (cancelled e)
    | ok done ↦ if leb deadline (system.now w) then err deadline_expired else ok tt
  ]

  -- `if text := ...: yield OutputChunk(output=text)`
  unfoldable pub output_of : Text → List Response
  output_of [] = []
  output_of (c ∷ text) = output_chunk (c ∷ text) ∷ []

  abbrev pub yielding : {A : Type 0} → List Response → Option (Stream A) → Option (Stream A)
  yielding responses none = none
  yielding responses (some (later, end, w)) = some (responses ++ later, end, w)

  unfoldable pub outcome_of : ScriptStatus → Option ℤ → Text → Result (Raised E) Completed
  outcome_of status exit_code diagnostic = elim (outcome status exit_code diagnostic) [
    | err e ↦ err (value_error e)
    | ok completed ↦ ok completed
  ]

  abbrev pub is_zero : Option ℤ → Bool
  is_zero (some (pos zero)) = true
  is_zero _ = false

  unfoldable pub status_of_code : Option ℤ → ScriptStatus
  status_of_code exit_code = if is_zero exit_code then success else failed

  -- Behind the loop: the decoder's tail, and the completion of the process when the loop left none.
  unfoldable pub finished : D → Option (Result (Raised E) Completed) → W → Stream Completed
  unfolding output_of outcome_of status_of_code
  finished d (some end) w = (output_of (system.decode d [] true).0, end, w)
  finished d none w = (
    output_of (system.decode d [] true).0,
    outcome_of (status_of_code (system.returncode w)) (system.returncode w) [],
    w,
  )

  -- The rounds of the loop are over whether the pipe is open, what remains of the limit, and the
  -- decoder.
  abbrev pub Rounds : Type 0
  Rounds = Bool → ℕ → D → W → Option (Stream Completed)

  -- A chunk: what is within the limit is decoded, and a chunk beyond it ends the loop.
  unfoldable pub after_chunk : Rounds → ℕ → D → List ℕ → W → Option (Stream Completed)
  unfolding output_of outcome_of finished
  after_chunk again remaining d chunk w =
      let decoded = system.decode d (take remaining chunk) false in
      yielding (output_of decoded.0) (elim (ltb remaining (length chunk)) [
        | true ↦ some (finished decoded.1 (some (outcome_of output_limit none [])) w)
        | false ↦ again true (remaining - length chunk) decoded.1 w
      ])

  unfoldable pub after_read : Rounds → ℕ → D → Result Text (List ℕ) × W → Option (Stream Completed)
  unfolding finished outcome_of after_chunk
  after_read again remaining d (err text, w) =
      some (finished d (some (outcome_of failed none text)) w)
  after_read again remaining d (ok [], w) = again false remaining d w
  after_read again remaining d (ok (c ∷ chunk), w) = after_chunk again remaining d (c ∷ chunk) w

  unfoldable pub after_select : Rounds → ℕ → D → Bool × W → Option (Stream Completed)
  unfolding after_read
  after_select again remaining d (false, w) = again true remaining d w
  after_select again remaining d (true, w) = after_read again remaining d (system.read w)

  unfoldable pub after_check :
      Rounds → Bool → ℕ → D → W → Result (Raised E) (Unit {0}) → Option (Stream Completed)
  unfolding finished outcome_of after_select
  after_check again streams remaining d w (err deadline_expired) =
      some (finished d (some (outcome_of timeout none [])) w)
  after_check again streams remaining d w (err (os_error text)) =
      some (finished d (some (outcome_of failed none text)) w)
  after_check again streams remaining d w (err e) = some ([], err e, w)
  after_check again true remaining d w (ok done) = after_select again remaining d (system.select w)
  after_check again false remaining d w (ok done) = again false remaining d (system.pause w)

  abbrev pub is_running : Option ℤ → Bool
  is_running none = true
  is_running (some exit_code) = false

  -- `while streams or process.poll() is None`, with fuel.
  unfoldable pub read_output : ℕ → ℕ → Rounds
  unfolding after_check finished check
  read_output zero deadline streams remaining d w = none
  read_output (suc fuel) deadline streams remaining d w =
      elim (streams || is_running (system.returncode w)) [
        | false ↦ some (finished d none w)
        | true ↦ after_check (read_output fuel deadline) streams remaining d w (check deadline w)
      ]

  -- The callbacks of the stack, in their order: the process is ended, its pipe is closed and it is
  -- waited for, and the gate is opened.
  abbrev pub Run : Type 0
  Run = List Response × Result (Raised E) Completed × Host W

  unfoldable pub cleaned_up : Stream Completed → Run
  cleaned_up (responses, end, w) =
      (responses, end, record { locked = false; world = system.wait (system.terminate w) })

  unfoldable pub cleaned : Option (Stream Completed) → Option Run
  unfolding cleaned_up
  cleaned none = none
  cleaned (some stream) = some (cleaned_up stream)

  unfoldable pub after_spawn : ℕ → ℕ → ExecutionPolicy → Result Text (Unit {0}) × W → Option Run
  unfolding cleaned read_output
  after_spawn fuel deadline policy (err text, w) =
      some ([], err (os_error text), record { locked = false; world = w })
  after_spawn fuel deadline policy (ok done, w) =
      cleaned (read_output fuel deadline true policy.max_output_bytes system.decoder w)

  unfoldable pub after_lock :
      ℕ → ℕ → ExecutionPolicy → Text → W → Result (Raised E) (Unit {0}) → Option Run
  unfolding after_spawn
  after_lock fuel deadline policy path w (err e) =
      some ([], err e, record { locked = false; world = w })
  after_lock fuel deadline policy path w (ok done) =
      after_spawn fuel deadline policy (system.spawn path w)

  -- `_execute`, by whether the gate is shut
  unfoldable pub behind_gate : ℕ → ℕ → ExecutionPolicy → Text → Host W → Bool → Option Run
  unfolding outcome_of after_lock check
  behind_gate fuel deadline policy path host true =
      some ([], outcome_of busy none (codes "another script is running"), host)
  behind_gate fuel deadline policy path host false =
      after_lock fuel deadline policy path host.world (check deadline host.world)

  unfoldable pub execute : ℕ → ℕ → ExecutionPolicy → Text → Host W → Option Run
  unfolding behind_gate
  execute fuel deadline policy path host = behind_gate fuel deadline policy path host host.locked
