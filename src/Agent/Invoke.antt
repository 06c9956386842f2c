-- ===== src/Agent/Invoke.antt =====
-- agent/core.py, `invoke` with what it begins and ends with, and the context variables of
-- agent/_execution_context.py and runtime/io.py that it binds.
pub mod Begun
pub mod Course
pub mod Settled
use roboz.Prelude.{
  ℕ, zero, suc, String, Bool, true, false, not, Option, none, some, List, [], ◌∷◌, ◌++◌, Result, ok,
  err, if◌then◌else◌,
}
use roboz.Prelude.Text.{Text}
use roboz.Agent.{
  Output, invoke, value, stop, Tool, Skill, Agent, Refusal, init_skill, get_next_tool,
}
use roboz.Agent.Run.{
  Raised, content_filtered, provider_error, interrupted, keyboard_interrupt, cancelled, failure,
  misuse, Entry, auto_load_banner, system_message, startup_context, auto_loaded_skill, Host, Answer,
  Session, append_and_pipe, in_world, left_by, with_agent, allows_user_interaction, Ending,
  completed, ended_by, run_loop,
}

-- RunStatus
pub data Status : Type 0 where
  run_completed run_cancelled run_failed : Status

-- An initial message: a path, by its number, or a text, or a value of another type.
pub data Initial : Type 0 where
  at_path : ℕ → Initial
  given_text : Text → Initial
  wrong_type : Initial

pub data Channel : Type 0 where
  cli api : Channel

-- The context variables. The endpoint is known by the agent that owns it.
pub record Contexts : Type 0 where
  pub active_agents : List String
  pub agent_endpoint : Option String
  pub output : Option Channel

pub record Lifecycle (O W : Type 0) : Type 0 where
  pub name : String
  pub full_system_prompt : Text
  pub initial_messages : List Initial
  -- `_get_stored_message`
  pub stored_message : ℕ → W → Result Raised (Option Text) × W
  -- `_initialize_pipe_for_invoke(dry_run=...)`, and `pipe.finalize_run(status=...)`
  pub initialize : Bool → W → Result Raised (Unit {0}) × W
  pub finalize_run : Status → W → Result Raised (Unit {0}) × W
  -- a call of a tool that is not observed
  pub plain_call : Tool O → Output O → List (Entry O) → W → Answer O W

-- `statuses` are those that the pipe was finalized with.
pub record Invocation (O W : Type 0) : Type 0 where
  pub session : Session O W
  pub contexts : Contexts
  pub statuses : List Status

-- The status and the result of an ending. A cancelled run returns a stop.
unfoldable pub status_of : Ending → Status
status_of completed = run_completed
status_of (ended_by cancelled) = run_cancelled
status_of (ended_by keyboard_interrupt) = run_cancelled
status_of (ended_by content_filtered) = run_failed
status_of (ended_by provider_error) = run_failed
status_of (ended_by interrupted) = run_failed
status_of (ended_by failure) = run_failed
status_of (ended_by (misuse error)) = run_failed

unfoldable pub result_of : {O : Type 0} → Ending → Result Raised (Output O)
result_of completed = ok stop
result_of (ended_by cancelled) = ok stop
result_of (ended_by keyboard_interrupt) = err keyboard_interrupt
result_of (ended_by content_filtered) = err content_filtered
result_of (ended_by provider_error) = err provider_error
result_of (ended_by interrupted) = err interrupted
result_of (ended_by failure) = err failure
result_of (ended_by (misuse error)) = err (misuse error)

module _ {O W : Type 0} (host : Host O W) (life : Lifecycle O W) where
  abbrev pub Prepared : Type 0
  Prepared = Result Raised (Unit {0}) × Session O W

  abbrev pub and_then : Prepared → (Session O W → Prepared) → Prepared
  and_then (err e, s) rest = (err e, s)
  and_then (ok done, s) rest = rest s

  unfoldable pub append_stored : Result Raised (Option Text) → Session O W → Prepared
  append_stored (err e) s = (err e, s)
  append_stored (ok none) s = (ok tt, s)
  append_stored (ok (some text)) s = (ok tt, append_and_pipe host (startup_context text) s)

  unfoldable pub append_initial : Initial → Session O W → Prepared
  unfolding append_stored
  append_initial (at_path path) s =
      let (stored, after) = life.stored_message path s.world in
      append_stored stored (in_world host s after)
  append_initial (given_text text) s = (ok tt, append_and_pipe host (startup_context text) s)
  append_initial wrong_type s = (err failure, s)

  unfoldable pub append_initials : List Initial → Session O W → Prepared
  unfolding append_initial
  append_initials [] s = (ok tt, s)
  append_initials (i ∷ initials) s = and_then (append_initial i s) (append_initials initials)

  abbrev pub cleared : Session O W → Session O W
  cleared s = record s { messages = [] }

  abbrev pub with_system : Text → Session O W → Session O W
  with_system [] s = s
  with_system (c ∷ prompt) s = append_and_pipe host (system_message (c ∷ prompt)) s

  unfoldable pub init_messages : Session O W → Prepared
  unfolding append_initials
  init_messages s =
      append_initials life.initial_messages (with_system life.full_system_prompt (cleared s))

  unfoldable pub after_skill_call : Tool O → Result Raised (Output O) → Session O W → Prepared
  after_skill_call t (err e) s = (err e, s)
  after_skill_call t (ok output) s = (ok tt, append_and_pipe host (auto_loaded_skill t output) s)

  unfoldable pub call_skill_tool :
      String → Result (Refusal O) (Tool O × Agent O) → Session O W → Prepared
  unfolding after_skill_call
  call_skill_tool name (err (error, agent)) s = (err (misuse error), with_agent host s agent)
  call_skill_tool name (ok (t, agent)) s =
      let (result, messages, after) = life.plain_call t (invoke name) s.messages s.world in
      after_skill_call t result (left_by host (with_agent host s agent) messages after)

  unfoldable pub after_init_skill : String → Result (Refusal O) (Agent O) → Session O W → Prepared
  unfolding call_skill_tool
  after_init_skill name (err (error, agent)) s = (err (misuse error), with_agent host s agent)
  after_init_skill name (ok agent) s =
      call_skill_tool name (get_next_tool host.link agent.prompt_llm_tool (invoke name) agent)
        (with_agent host s agent)

  unfoldable pub load_each : List (Skill O) → Session O W → Prepared
  unfolding after_init_skill
  load_each [] s = (ok tt, s)
  load_each (skill ∷ skills) s =
      and_then (after_init_skill skill.name (init_skill host.link (invoke skill.name) s.agent) s)
        (load_each skills)

  unfoldable pub auto_load_skills : List (Skill O) → Session O W → Prepared
  unfolding load_each
  auto_load_skills [] s = (ok tt, s)
  auto_load_skills (skill ∷ skills) s =
      load_each (skill ∷ skills) (append_and_pipe host auto_load_banner s)

  abbrev pub without_loaded : Session O W → Session O W
  without_loaded s = with_agent host s (record s.agent { loaded_skills = [] })

  abbrev pub without_ephemeral : Session O W → Session O W
  without_ephemeral s = with_agent host s (record s.agent { ephemeral_default_tools = [] })

  abbrev pub Ended : Type 0
  Ended = Option (Ending × Session O W)

  unfoldable pub run_prepared : ℕ → Output O → Prepared → Ended
  run_prepared fuel input (err e, s) = some (ended_by e, s)
  run_prepared fuel input (ok done, s) = run_loop host fuel none input (without_ephemeral s)

  -- The messages and the skills that a run begins with.
  unfoldable pub prepare : Session O W → Prepared
  unfolding init_messages auto_load_skills
  prepare s =
      and_then (init_messages s)
        (λ begun. auto_load_skills begun.agent.auto_loaded_skills (without_loaded begun))

  unfoldable pub run_initialized : ℕ → Output O → Session O W → Ended
  unfolding run_prepared prepare
  run_initialized fuel input s = run_prepared fuel input (prepare s)

  -- A token of `set` keeps the value before, if the variable has been set.
  abbrev pub reset : {A : Type 0} → Option A → A → A
  reset none current = current
  reset (some before) current = before

  abbrev pub channel_of : Option Channel → Option Channel
  channel_of bound = elim (allows_user_interaction host) [
    | true ↦ (elim bound [ none ↦ some cli | some channel ↦ some channel ])
    | false ↦ none
  ]

  unfoldable pub bound : Contexts → Contexts
  bound contexts = record contexts {
    agent_endpoint = some life.name;
    output = channel_of contexts.output;
  }

  unfoldable pub push_active_agent : Contexts → Contexts
  push_active_agent contexts = record contexts {
    active_agents = contexts.active_agents ++ life.name ∷ [];
  }

  -- `push_active_agent`, unless it is a dry run, with its token.
  abbrev pub entered : Bool → Contexts → Option (List String) × Contexts
  entered true contexts = (none, contexts)
  entered false contexts = (some contexts.active_agents, push_active_agent contexts)

  abbrev pub ResultOf : Type 0
  ResultOf = Result Raised (Output O) × Invocation O W

  -- An exception of `finalize_run` takes the place of the result.
  abbrev pub or_raised : Result Raised (Unit {0}) → Ending → Result Raised (Output O)
  or_raised (err e) ending = err e
  or_raised (ok done) ending = result_of ending

  -- The clause `finally`, with the tokens of the stack, the endpoint and the output.
  unfoldable pub finish :
      Option (List String) × Contexts → Contexts → List Status → Ending → Session O W → ResultOf
  unfolding status_of result_of
  finish (stack_token, contexts) tokens statuses ending s =
      let (finalized, after) = life.finalize_run (status_of ending) s.world in
      (
        or_raised finalized ending,
        record {
          session = in_world host s after;
          contexts = record {
            active_agents = reset stack_token contexts.active_agents;
            agent_endpoint = tokens.agent_endpoint;
            output = tokens.output;
          };
          statuses = statuses ++ status_of ending ∷ [];
        },
      )

  abbrev pub finished :
      Option (List String) × Contexts → Contexts → List Status → Ended → Option ResultOf
  finished entry tokens statuses none = none
  finished entry tokens statuses (some (ending, s)) = some (finish entry tokens statuses ending s)

  unfoldable pub after_initialize :
      ℕ → Bool → Output O → Invocation O W → Result Raised (Unit {0}) × W → Option ResultOf
  unfolding finish bound run_initialized
  after_initialize fuel dry_run input i (err e, w) = some (
      finish (none, bound i.contexts) i.contexts i.statuses (ended_by e)
        (in_world host i.session w))
  after_initialize fuel dry_run input i (ok done, w) =
      finished (entered dry_run (bound i.contexts)) i.contexts i.statuses
        (run_initialized fuel input (in_world host i.session w))

  -- `Empty() if input is None else input`
  abbrev pub first_input : Option O → Output O
  first_input none = value host.empty
  first_input (some o) = value o

  -- For so many steps at most.
  unfoldable pub invoke_agent : ℕ → Bool → Option O → Invocation O W → Option ResultOf
  unfolding after_initialize
  invoke_agent fuel dry_run input i =
      after_initialize fuel dry_run (first_input input) i (life.initialize dry_run i.session.world)
