-- ===== src/Scripts/Events/Stream.antt =====
-- A request is answered by a whole stream that the client accepts, and the gate is left as it was.
use roboz.Prelude.{
  ℕ, ◌+◌, ◌-◌, ◌*◌, ◌<◌, ◌≡◌, refl, true, false, Bool, Option, none, some, List, [], ◌∷◌, ◌++◌, map,
  arith, length-take, Result, ok, err,
}
use roboz.Prelude.Text.{Text}
use roboz.Scripts.{
  ExecutionPolicy, Completed, Response, completion, response, validate_outcome, outcome, failed,
  timeout, max_diagnostic_chars,
}
use roboz.Scripts.Server.{
  Raised, deadline_expired, os_error, value_error, cancelled, System, Host, Run, Stream, check,
  outcome_of,
}
use roboz.Scripts.Server.Bounds.{Expands, outcome_of-failed, outcome_of-timeout}
use roboz.Scripts.Server.Ends.{Elapses, Ended, ended, execute-Ended}
use roboz.Scripts.Discovery.{Files, Root, valid_script}
use roboz.Scripts.Discovery.Listing.{Completes, discover-Ended, root_size}
use roboz.Scripts.Client.{is_discovery_status, responses}
use roboz.Scripts.Client.Accepts.{responses_from-execution, responses_from-discovery}
use roboz.Scripts.Events.Selected.{Shape, Closes, Selected, selected, select_operation-Selected}
use roboz.Scripts.Events.{
  Events, in_host, after_valid, select_operation, handled, completed_by, with_completion, events,
}

abbrev pub is_discovery : Option Text → Bool
is_discovery none = true
is_discovery (some script) = false

module _ {W D E : Type 0} (system : System W D E) (files : Files) (root : Root)
    (utf8 : Text → List ℕ) where
  -- How a request is answered: with a whole stream that the client accepts as it is, a completion at
  -- its end; or, broken off by the caller's check, with a part of one. The gate is as it was.
  pub data Answers (script : Option Text) (max_output_bytes : ℕ) (locked : Bool)
      : Events system files root → Type 0 where
    whole :
        {stream : List Response} {host : Host W} (before : List Response) (completed : Completed)
        → stream ≡ before ++ completion completed ∷ []
        → responses utf8 (is_discovery script) max_output_bytes (map response stream)
          ≡ (stream, ok tt)
        → host.locked ≡ locked
        → Answers script max_output_bytes locked (stream, ok tt, host)
    broken_off :
        {stream : List Response} {host : Host W} (e : E)
        → host.locked ≡ locked
        → Answers script max_output_bytes locked (stream, err (cancelled e), host)

  accepted :
      (script : Option Text) (max_output_bytes : ℕ) (stream : List Response) (completed : Completed)
      → Shape system files root utf8 script (3 * max_output_bytes) stream
      → Closes system files root utf8 script (ok completed)
      → responses utf8
          (is_discovery script)
          max_output_bytes
          (map response (stream ++ completion completed ∷ []))
        ≡ (stream ++ completion completed ∷ [], ok tt)
  unfolding responses
  accepted none max_output_bytes stream completed entries (status, code, valid, short) =
      responses_from-discovery utf8 max_output_bytes 0 stream completed entries status code
  accepted (some script) max_output_bytes stream completed (outputs, within)
        (status, valid, short) =
      responses_from-execution utf8 max_output_bytes 0 stream completed outputs (omega arith) status

  -- What the handlers make of the end of an operation.
  data Handled (script : Option Text) : Result (Raised E) Completed → Type 0 where
    completed_with :
        (completed : Completed)
        → Closes system files root utf8 script (ok completed)
        → Handled script (ok completed)
    cancelled_by : (e : E) → Handled script (err (cancelled e))

  timeout-Completes : Completes (outcome_of system timeout none [])
  unfolding outcome_of outcome validate_outcome is_discovery_status
  timeout-Completes = (refl, refl, refl, omega arith)

  failed-Completes : (text : Text) → Completes (outcome_of system failed none text)
  unfolding outcome_of outcome validate_outcome is_discovery_status
  failed-Completes text =
      (refl, refl, refl, omega (arith, length-take {0} max_diagnostic_chars text))

  Handled-timeout :
      (script : Option Text) → Handled script (handled system files root (err deadline_expired))
  unfolding handled outcome_of outcome validate_outcome
  Handled-timeout none = completed_with _ timeout-Completes
  Handled-timeout (some script) = completed_with _ (outcome_of-timeout system utf8)

  Handled-failed :
      (script : Option Text) (text : Text) → Handled script (outcome_of system failed none text)
  unfolding outcome_of outcome validate_outcome
  Handled-failed none text = completed_with _ (failed-Completes text)
  Handled-failed (some script) text = completed_with _ (outcome_of-failed system utf8 text)

  handled-Handled :
      (script : Option Text) (end : Result (Raised E) Completed)
      → Closes system files root utf8 script end
      → Handled script (handled system files root end)
  unfolding handled
  handled-Handled script (err deadline_expired) closes = Handled-timeout script
  handled-Handled script (err (os_error text)) closes = Handled-failed script text
  handled-Handled script (err (value_error e)) closes = Handled-failed script (system.error_text e)
  handled-Handled script (err (cancelled e)) closes = cancelled_by e
  handled-Handled script (ok completed) closes = completed_with completed closes

  completed_by-Answers :
      (script : Option Text) (max_output_bytes : ℕ) (locked : Bool) (stream : List Response)
      (host : Host W) {end : Result (Raised E) Completed}
      → Shape system files root utf8 script (3 * max_output_bytes) stream
      → host.locked ≡ locked
      → Handled script end
      → Answers script max_output_bytes locked (completed_by system files root stream end host)
  completed_by-Answers script max_output_bytes locked stream host shape kept
        (completed_with completed closes) =
      whole stream completed refl (accepted script max_output_bytes stream completed shape closes)
        kept
  completed_by-Answers script max_output_bytes locked stream host shape kept (cancelled_by e) =
      broken_off e kept

  with_completion-Answers :
      (script : Option Text) (max_output_bytes : ℕ) (locked : Bool) {o : Option (Run system)}
      → Ended o
      → Selected system files root utf8 script (3 * max_output_bytes) locked o
      → (answer : Events system files root) × (with_completion system files root o ≡ some answer)
        × Answers script max_output_bytes locked answer
  unfolding with_completion
  with_completion-Answers script max_output_bytes locked {o = none} e shape = elim e [ ]
  with_completion-Answers script max_output_bytes locked {o = some (stream, end, host)} ended
        (selected shape closes kept) =
      (
        completed_by system files root stream (handled system files root end) host,
        refl,
        completed_by-Answers script max_output_bytes locked stream host shape kept
            (handled-Handled script end closes),
      )

  in_host-Ended :
      (host : Host W) {o : Option (Stream system Completed)}
      → Ended o
      → Ended (in_host system files root host o)
  in_host-Ended host {o = none} e = elim e [ ]
  in_host-Ended host {o = some (stream, end, w)} ended = ended

  module _ (elapses : Elapses system) (fuel deadline : ℕ) (policy : ExecutionPolicy)
      (enough : root_size root < fuel) where
    after_valid-Ended :
        (host : Host W) (path : Option (List Text))
        → (deadline - system.now host.world) + policy.max_output_bytes + 1 < fuel
        → Ended (after_valid system files root fuel deadline policy host path)
    unfolding after_valid
    after_valid-Ended host none h = ended
    after_valid-Ended host (some path) h =
        execute-Ended system elapses fuel deadline policy _ host h

    select_operation-Ended :
        (script : Option Text) (host : Host W) (r : Result (Raised E) (Unit {0}))
        → (deadline - system.now host.world) + policy.max_output_bytes + 1 < fuel
        → Ended (select_operation system files root fuel deadline policy script host r)
    unfolding select_operation
    select_operation-Ended script host (err e) h = ended
    select_operation-Ended none host (ok done) h =
        in_host-Ended host (discover-Ended system files fuel deadline root host.world enough)
    select_operation-Ended (some script) host (ok done) h =
        after_valid-Ended host (valid_script files script) h

  -- Every request is answered: by a stream that the client's checks accept as it is, and that ends
  -- with a completion, or, when the caller's check raises its exception, by a part of one; and the
  -- gate is as it was before. Time is to pass in waits that bring nothing, and the decoder to make at
  -- most three bytes of text of each byte. As much fuel as the timeout, the output limit, and two is
  -- enough for a script, and as the root has items for a discovery.
  pub events-Answers :
      (expands : Expands system utf8) (elapses : Elapses system) (fuel : ℕ)
      (policy : ExecutionPolicy) (script : Option Text) (host : Host W)
      → policy.timeout_s + policy.max_output_bytes + 1 < fuel
      → root_size root < fuel
      → (answer : Events system files root) × (events system files root fuel policy script host
          ≡ some answer)
        × Answers script policy.max_output_bytes host.locked answer
  unfolding events
  events-Answers expands elapses fuel policy script host room enough =
      let deadline = system.now host.world + policy.timeout_s in
      let checked = check system deadline host.world in
      with_completion-Answers script policy.max_output_bytes host.locked
        (select_operation-Ended elapses fuel deadline policy enough script host checked
          (omega arith))
        (select_operation-Selected system files root utf8 expands policy fuel deadline script host
          checked)
