-- ===== src/Agent/Invoke/Settled.antt =====
-- How an invocation is left, however it ends.
use roboz.Prelude.{
  ℕ, String, ◌≡◌, ◌≢◌, ◌⊎◌, inl, inr, refl, ap, Bool, true, false, Option, none, some, List, [],
  ◌∷◌, ◌++◌, Result, ok, err,
}
use roboz.Agent.{Output, stop}
use roboz.Agent.Run.{
  Raised, content_filtered, provider_error, interrupted, keyboard_interrupt, cancelled, failure,
  misuse, Host, Session, in_world, Ending, completed, ended_by,
}
use roboz.Agent.Invoke.{
  Status, run_completed, run_cancelled, run_failed, Contexts, Lifecycle, Invocation, status_of,
  result_of, Ended, bound, entered, or_raised, finish, finished, after_initialize, run_initialized,
  invoke_agent, first_input, reset,
}
use roboz.Agent.Invoke.Begun.{
  Begins, ToolsBegin, EndBegins, not_ended, has_ended, run_initialized-EndBegins,
}
use roboz.Agent.Invoke.Course.{Course, uninitialized, EndsBy, unended, ends_by, run_prepared-EndsBy}

-- The status that a course is reported with, and what is due to the caller: the stop of a tool, a stop
-- in place of a cancellation, or the exception.
pub data Due {O : Type 0} : Ending → Status → Result Raised (Output O) → Type 0 where
  completes : Due completed run_completed (ok stop)
  cancels : Due (ended_by cancelled) run_cancelled (ok stop)
  breaks_off : Due (ended_by keyboard_interrupt) run_cancelled (err keyboard_interrupt)
  fails :
      {e : Raised} → e ≢ cancelled → e ≢ keyboard_interrupt → Due (ended_by e) run_failed (err e)

-- What is due is given, unless the report raises.
pub data Given {O : Type 0} (due : Result Raised (Output O))
    : Result Raised (Unit {0}) → Result Raised (Output O) → Type 0 where
  as_due : {done : Unit {0}} → Given due (ok done) due
  unreported : {e : Raised} → Given due (err e) (err e)

-- An invocation that ends by a course is reported once as it is due; it restores the context
-- variables, and its messages are those of the course, which begin with the system prompt.
pub data Invoked {O W : Type 0} (host : Host O W) (life : Lifecycle O W) (before : Invocation O W)
    (dry_run : Bool) (input : Output O)
    : Option (Result Raised (Output O) × Invocation O W) → Type 0 where
  goes_on : Invoked host life before dry_run input none
  settles :
      {result due : Result Raised (Output O)} {after : Invocation O W} {ending : Ending}
      {last : Session O W} (status : Status)
      → Course host life dry_run input before.session ending last
      → Due ending status due
      → Given due (life.finalize_run status last.world).0 result
      → after.session ≡ in_world host last (life.finalize_run status last.world).1
      → after.statuses ≡ before.statuses ++ status ∷ []
      → after.contexts ≡ before.contexts
      → ((e : Raised) × ((life.initialize dry_run before.session.world).0 ≡ err e))
        ⊎ Begins life.full_system_prompt after.session.messages
      → Invoked host life before dry_run input (some (result, after))

module _ {O W : Type 0} (host : Host O W) (life : Lifecycle O W) where
  ending-Due : (ending : Ending) → Due {O = O} ending (status_of ending) (result_of ending)
  unfolding status_of result_of
  ending-Due completed = completes
  ending-Due (ended_by cancelled) = cancels
  ending-Due (ended_by keyboard_interrupt) = breaks_off
  ending-Due (ended_by content_filtered) = fails (λ e. cc) (λ e. cc)
  ending-Due (ended_by provider_error) = fails (λ e. cc) (λ e. cc)
  ending-Due (ended_by interrupted) = fails (λ e. cc) (λ e. cc)
  ending-Due (ended_by failure) = fails (λ e. cc) (λ e. cc)
  ending-Due (ended_by (misuse error)) = fails (λ e. cc) (λ e. cc)

  or_raised-Given :
      (ending : Ending) (reported : Result Raised (Unit {0}))
      → Given (result_of ending) reported (or_raised host life reported ending)
  or_raised-Given ending (err e) = unreported
  or_raised-Given ending (ok done) = as_due

  abbrev Unstarted : Bool → Invocation O W → Session O W → Type 0
  Unstarted dry_run i s =
      ((e : Raised) × ((life.initialize dry_run i.session.world).0 ≡ err e))
      ⊎ Begins life.full_system_prompt s.messages

  finish-Invoked :
      (dry_run : Bool) (input : Output O) (i : Invocation O W)
      (entry : Option (List String) × Contexts) (ending : Ending) (s : Session O W)
      → reset host life entry.0 entry.1.active_agents ≡ i.contexts.active_agents
      → Course host life dry_run input i.session ending s
      → Unstarted dry_run i s
      → Invoked host life i dry_run input
          (some (finish host life entry i.contexts i.statuses ending s))
  unfolding finish
  finish-Invoked dry_run input i entry ending s restores course begun =
      settles (status_of ending) course (ending-Due ending) (or_raised-Given ending _) refl refl
        (ap (λ agents. record i.contexts { active_agents = agents }) restores) begun

  finished-Invoked :
      (dry_run : Bool) (input : Output O) (i : Invocation O W)
      (entry : Option (List String) × Contexts) (tools : ToolsBegin host life)
      (ended : Ended host life)
      → reset host life entry.0 entry.1.active_agents ≡ i.contexts.active_agents
      → EndsBy host life dry_run input i.session ended
      → EndBegins host life tools ended
      → Invoked host life i dry_run input (finished host life entry i.contexts i.statuses ended)
  finished-Invoked dry_run input i entry tools none restores unended not_ended = goes_on
  finished-Invoked dry_run input i entry tools (some (ending, s)) restores (ends_by course)
        (has_ended begun) =
      finish-Invoked dry_run input i entry ending s restores course (inr begun)

  entered-restores :
      (dry_run : Bool) (contexts : Contexts)
      → reset host life
          (entered host life dry_run (bound host life contexts)).0
          (entered host life dry_run (bound host life contexts)).1.active_agents
        ≡ contexts.active_agents
  unfolding bound
  entered-restores true contexts = refl
  entered-restores false contexts = refl

  after_initialize-Invoked :
      (fuel : ℕ) (dry_run : Bool) (input : Output O) (i : Invocation O W)
      (tools : ToolsBegin host life) (started : Result Raised (Unit {0}) × W)
      → life.initialize dry_run i.session.world ≡ started
      → Invoked host life i dry_run input (after_initialize host life fuel dry_run input i started)
  unfolding after_initialize bound run_initialized
  after_initialize-Invoked fuel dry_run input i tools (err e, w) is =
      finish-Invoked dry_run input i (none, bound host life i.contexts) (ended_by e) _ refl
        (uninitialized is) (inl (e, ap (λ r. r.0) is))
  after_initialize-Invoked fuel dry_run input i tools (ok done, w) is =
      finished-Invoked dry_run input i (entered host life dry_run (bound host life i.contexts))
        tools _ (entered-restores dry_run i.contexts)
        (run_prepared-EndsBy host life dry_run input i.session fuel _ is refl)
        (run_initialized-EndBegins host life tools fuel input (in_world host i.session w))

  -- However an invocation ends, the active agents, the endpoint and the output are bound as before it,
  -- and the run is finalized once: as completed when a step gave the stop of a tool, which it then
  -- returns; as cancelled when a step or a preparation raised a cancellation, for which it returns a
  -- stop, or a KeyboardInterrupt, which it raises; and as failed when another exception was raised,
  -- which it raises too. If the report itself raises, that is raised in place of the result. Its
  -- messages are those that the last step left, and they begin with the system prompt, if there is one
  -- and the pipe could be initialized, on the condition that no tool takes the prompt away from the
  -- beginning of the messages that it is given. The loop of steps need not end, and the statement is
  -- about those that do within the fuel.
  pub invoke_agent-Invoked :
      (fuel : ℕ) (dry_run : Bool) (input : Option O) (i : Invocation O W)
      → ToolsBegin host life
      → Invoked host life i dry_run
          (first_input host life input)
          (invoke_agent host life fuel dry_run input i)
  unfolding invoke_agent
  invoke_agent-Invoked fuel dry_run input i tools =
      after_initialize-Invoked fuel dry_run _ i tools (life.initialize dry_run i.session.world) refl
