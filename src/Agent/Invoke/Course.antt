-- ===== src/Agent/Invoke/Course.antt =====
-- The course of an invocation, from its initialization to the step that it ends with.
use roboz.Prelude.{ℕ, zero, suc, ◌≡◌, ◌≢◌, refl, Bool, Option, none, some, ok, err}
use roboz.Agent.{Output, invoke, value, stop, Tool}
use roboz.Agent.Run.{
  Raised, Host, Session, Step, in_world, advance_by_step, Ending, completed, ended_by,
  after_advance, run_loop,
}
use roboz.Agent.Invoke.{Lifecycle, Prepared, prepare, without_ephemeral, Ended, run_prepared}

-- The steps from one on: they end at a tool that returns a stop, or at an exception that no step has
-- handled, with the session that it leaves.
pub data Loops {O W : Type 0} (host : Host O W)
    : Option (Tool O) → Output O → Session O W → Ending → Session O W → Type 0 where
  returns :
      {previous t : Option (Tool O)} {output : Output O} {s after : Session O W}
      → advance_by_step host previous output s ≡ (ok (t, stop), after)
      → Loops host previous output s completed after
  raises :
      {previous : Option (Tool O)} {output : Output O} {s after : Session O W} {e : Raised}
      → advance_by_step host previous output s ≡ (err e, after)
      → Loops host previous output s (ended_by e) after
  steps :
      {previous t : Option (Tool O)} {output next : Output O} {s after last : Session O W}
      {ending : Ending}
      → advance_by_step host previous output s ≡ (ok (t, next), after)
      → next ≢ stop
      → Loops host t next after ending last
      → Loops host previous output s ending last

-- An invocation ends where its pipe cannot be initialized, where its messages or skills cannot be
-- prepared, or with its steps.
pub data Course {O W : Type 0} (host : Host O W) (life : Lifecycle O W) (dry_run : Bool)
    (input : Output O) (before : Session O W) : Ending → Session O W → Type 0 where
  uninitialized :
      {e : Raised} {w : W}
      → life.initialize dry_run before.world ≡ (err e, w)
      → Course host life dry_run input before (ended_by e) (in_world host before w)
  unprepared :
      {done : Unit {0}} {w : W} {e : Raised} {s : Session O W}
      → life.initialize dry_run before.world ≡ (ok done, w)
      → prepare host life (in_world host before w) ≡ (err e, s)
      → Course host life dry_run input before (ended_by e) s
  ran :
      {done prepared : Unit {0}} {w : W} {s last : Session O W} {ending : Ending}
      → life.initialize dry_run before.world ≡ (ok done, w)
      → prepare host life (in_world host before w) ≡ (ok prepared, s)
      → Loops host none input (without_ephemeral host life s) ending last
      → Course host life dry_run input before ending last

module _ {O W : Type 0} (host : Host O W) where
  -- The loop goes on, or has gone through steps to an end.
  data Looped (previous : Option (Tool O)) (output : Output O) (s : Session O W)
      : Option (Ending × Session O W) → Type 0 where
    loops_on : Looped previous output s none
    looped :
        {ending : Ending} {last : Session O W}
        → Loops host previous output s ending last
        → Looped previous output s (some (ending, last))

  onward :
      {previous t : Option (Tool O)} {output : Output O} {s after : Session O W} (next : Output O)
      (rest : Option (Ending × Session O W))
      → advance_by_step host previous output s ≡ (ok (t, next), after)
      → next ≢ stop
      → Looped t next after rest
      → Looped previous output s rest
  onward next none is goes loops_on = loops_on
  onward next (some (ending, last)) is goes (looped later) = looped (steps is goes later)

  after_advance-Looped :
      {previous : Option (Tool O)} {output : Output O} {s : Session O W}
      (rest : Option (Tool O) → Output O → Session O W → Option (Ending × Session O W))
      (step : Step host)
      → advance_by_step host previous output s ≡ step
      → ((t : Option (Tool O)) (next : Output O) (after : Session O W)
          → Looped t next after (rest t next after))
      → Looped previous output s (after_advance host rest step)
  unfolding after_advance
  after_advance-Looped rest (err error, after) is later = looped (raises is)
  after_advance-Looped rest (ok (t, stop), after) is later = looped (returns is)
  after_advance-Looped rest (ok (t, invoke action), after) is later =
      onward (invoke action) _ is (λ e. cc) (later t (invoke action) after)
  after_advance-Looped rest (ok (t, value o), after) is later =
      onward (value o) _ is (λ e. cc) (later t (value o) after)

  run_loop-Looped :
      (fuel : ℕ) (previous : Option (Tool O)) (output : Output O) (s : Session O W)
      → Looped previous output s (run_loop host fuel previous output s)
  unfolding run_loop
  run_loop-Looped zero previous output s = loops_on
  run_loop-Looped (suc fuel) previous output s =
      after_advance-Looped (run_loop host fuel) _ refl (run_loop-Looped fuel)

module _ {O W : Type 0} (host : Host O W) (life : Lifecycle O W) (dry_run : Bool) (input : Output O)
    (before : Session O W) where
  pub data EndsBy : Ended host life → Type 0 where
    unended : EndsBy none
    ends_by :
        {ending : Ending} {last : Session O W}
        → Course host life dry_run input before ending last
        → EndsBy (some (ending, last))

  run_loop-EndsBy :
      {done prepared : Unit {0}} {w : W} {s : Session O W} (rest : Ended host life)
      → life.initialize dry_run before.world ≡ (ok done, w)
      → prepare host life (in_world host before w) ≡ (ok prepared, s)
      → Looped host none input (without_ephemeral host life s) rest
      → EndsBy rest
  run_loop-EndsBy none started is loops_on = unended
  run_loop-EndsBy (some (ending, last)) started is (looped steps_made) =
      ends_by (ran started is steps_made)

  pub run_prepared-EndsBy :
      {done : Unit {0}} {w : W} (fuel : ℕ) (p : Prepared host life)
      → life.initialize dry_run before.world ≡ (ok done, w)
      → prepare host life (in_world host before w) ≡ p
      → EndsBy (run_prepared host life fuel input p)
  unfolding run_prepared
  run_prepared-EndsBy fuel (err e, s) started is = ends_by (unprepared started is)
  run_prepared-EndsBy fuel (ok done, s) started is =
      run_loop-EndsBy _ started is
        (run_loop-Looped host fuel none input (without_ephemeral host life s))
