-- ===== src/Tests/Agent.antt =====
-- A small agent, and the theorems at it.
use roboz.Prelude.{
  err, false, ℕ, String, if◌then◌else◌, ◌≡◌, refl, Bool, true, none, some, List, [], ◌∷◌, ok,
}
use mathlib.Core.Option.{some-injective}
use roboz.Agent.{
  Output, invoke, value, stop, Tool, Skill, Agent, AgentError, cycle, get_next_tool, skill_of,
  init_skill, has_ref, pop_ephemeral_default_tool,
}
use roboz.Agent.Schedule.{NextIs, get_next_tool-NextIs}
use roboz.Prelude.Text.{codes}
use roboz.Agent.Invoke.{Lifecycle, given_text, Contexts, Invocation, run_completed, invoke_agent}
use roboz.Agent.Invoke.Settled.{Invoked, invoke_agent-Invoked}
use roboz.Agent.Run.{
  system_message, startup_context, interrupted, interrupted_generation, finalized, Entry, Host,
  Session, advance_by_step, run_loop, Ending, completed,
}
use roboz.Agent.Steps.{Stepped, advance_by_step-Stepped}
use roboz.Agent.Invoke.Begun.{Begins, no_prompt, with_prompt, ToolsBegin}
use roboz.Agent.Skills.{InOrder, init_skill-InOrder}

abbrev tool : ℕ → String → List ℕ → Tool ℕ
tool n name parents = record {
  ref = n;
  id = n;
  name = name;
  returns_invoke = false;
  chained_to = parents;
  chain_condition = λ output. true;
}

abbrev fetch : Tool ℕ
fetch = tool 1 "fetch" []

abbrev parse : Tool ℕ
parse = tool 2 "parse" (1 ∷ [])

abbrev report : Tool ℕ
report = tool 3 "report" []

abbrev ask_model : Tool ℕ
ask_model = tool 4 "prompt_llm" []

abbrev search : Tool ℕ
search = tool 5 "search" []

abbrev search_skill : Skill ℕ
search_skill = record { ref = 1; name = "search"; depends_on = none; tools = search ∷ [] }

abbrev agent : Agent ℕ
agent = record {
  default_tools = report ∷ [];
  prompt_llm_tool = some ask_model;
  active_tools = fetch ∷ [];
  passive_tools = parse ∷ [];
  skills = search_skill ∷ [];
  auto_loaded_skills = [];
  loaded_skills = [];
  ephemeral_default_tools = [];
}

abbrev any_link : Tool ℕ → Tool ℕ → Bool
any_link parent t = true

get_next_tool-NextIs_example : NextIs any_link fetch agent (value 7) (parse, agent)
unfolding get_next_tool roboz.Agent.next_of roboz.Agent.chained_tools roboz.Agent.chained_from
    roboz.Agent.links_of
get_next_tool-NextIs_example = get_next_tool-NextIs any_link fetch agent 7 refl

abbrev with_search : Agent ℕ
with_search = record agent { active_tools = fetch ∷ search ∷ []; loaded_skills = 1 ∷ [] }

search_loads : init_skill any_link (invoke "search") agent ≡ ok with_search
unfolding init_skill skill_of roboz.Agent.find_skill roboz.Agent.load_skill has_ref
    roboz.Agent.dependency_loaded roboz.Agent.add_skill roboz.Agent.init_tools
    roboz.Agent.check_default_tools roboz.Agent.init_tools_checked roboz.Agent.validate_tool_chains
    roboz.Agent.duplicate_names roboz.Agent.without_repeats roboz.Agent.active_name
    roboz.Agent.duplicate_ids roboz.Agent.validate_links roboz.Agent.validate_parents
    roboz.Agent.register roboz.Agent.put roboz.Agent.find_id
search_loads = refl

search_depends :
    (skill : Skill ℕ) → skill_of any_link "search" agent ≡ some skill → none ≡ skill.depends_on
unfolding skill_of roboz.Agent.find_skill
search_depends skill called =
    let same : search_skill ≡ skill = some-injective search_skill skill called in rw (← same) refl

init_skill-InOrder_example :
    InOrder (λ skill. none) (1 ∷ [])
    × ((skill : Skill ℕ)
        → skill_of any_link "search" agent ≡ some skill
        → has_ref skill.ref (1 ∷ []) ≡ true)
init_skill-InOrder_example =
    init_skill-InOrder any_link (λ skill. none) "search" agent {after = with_search} search_depends
      tt search_loads

abbrev ask_user_tool : Tool ℕ
ask_user_tool = tool 9 "prompt_user" []

-- A host whose world says whether the user has interrupted; a call is then broken off.
abbrev host : Host ℕ Bool
host = record {
  empty = 0;
  link = any_link;
  is_cancelled = λ w. false;
  is_interrupted = λ w. w;
  clear_interrupt = λ w. false;
  call = λ t output messages w. (if w then err interrupted else ok (value t.id), messages, w);
  prompt_user_tool = some ask_user_tool;
  prompt = λ question messages w. (ok (value 8), messages, w);
}

abbrev session : Session ℕ Bool
session = record { agent = agent; messages = []; world = true }

abbrev after_interruption : Session ℕ Bool
after_interruption = record {
  agent = agent;
  messages = interrupted_generation ∷ finalized ask_user_tool (value 8) ∷ [];
  world = false;
}

interruption :
    advance_by_step host none (value 0) session ≡ (ok (none, value 0), after_interruption)
unfolding advance_by_step get_next_tool roboz.Agent.next_of roboz.Agent.chained_tools
    pop_ephemeral_default_tool roboz.Agent.take_first roboz.Agent.Run.call_tool
    roboz.Agent.Run.after_call roboz.Agent.Run.handle roboz.Agent.Run.handle_interrupt
    roboz.Agent.Run.ask_user roboz.Agent.Run.after_prompt roboz.Agent.Run.append_and_pipe
interruption = refl

-- The tool is interrupted, and the user is asked.
advance_by_step-Stepped_example :
    Stepped host none (value 0) session (advance_by_step host none (value 0) session)
advance_by_step-Stepped_example = advance_by_step-Stepped host none (value 0) session

abbrev stopped_session : Session ℕ Bool
stopped_session = record { agent = agent; messages = []; world = false }

-- A host whose tools drop all messages but the first, and stop the run.
abbrev only_first : List (Entry ℕ) → List (Entry ℕ)
only_first [] = []
only_first (message ∷ messages) = message ∷ []

abbrev stopping : Host ℕ Bool
stopping = record host { call = λ t output messages w. (ok stop, only_first messages, w) }

abbrev after_stop : Session ℕ Bool
after_stop = record {
  agent = record agent { ephemeral_default_tools = ask_model ∷ [] };
  messages = finalized report stop ∷ [];
  world = false;
}

stops : run_loop stopping 3 none (value 0) stopped_session ≡ some (completed, after_stop)
unfolding run_loop roboz.Agent.Run.after_advance advance_by_step get_next_tool roboz.Agent.next_of
    roboz.Agent.chained_tools pop_ephemeral_default_tool roboz.Agent.take_first
    roboz.Agent.Run.call_tool roboz.Agent.Run.after_call roboz.Agent.Run.append_and_pipe
stops = refl

-- An agent that begins with a text.
abbrev life : Lifecycle ℕ Bool
life = record {
  name = "agent";
  full_system_prompt = codes "Be brief.";
  initial_messages = given_text (codes "Hello") ∷ [];
  stored_message = λ path w. (ok none, w);
  initialize = λ dry_run w. (ok tt, w);
  finalize_run = λ status w. (ok tt, w);
  plain_call = λ t output messages w. (ok (value 1), messages, w);
}

abbrev nested : Contexts
nested = record { active_agents = "parent" ∷ []; agent_endpoint = some "parent"; output = none }

abbrev invocation : Invocation ℕ Bool
invocation = record { session = stopped_session; contexts = nested; statuses = [] }

abbrev after_invocation : Invocation ℕ Bool
after_invocation = record {
  session = record {
    agent = record agent { ephemeral_default_tools = ask_model ∷ []; loaded_skills = [] };
    messages = system_message (codes "Be brief.") ∷ finalized report stop ∷ [];
    world = false;
  };
  contexts = nested;
  statuses = run_completed ∷ [];
}

invoked : invoke_agent stopping life 3 false none invocation ≡ some (ok stop, after_invocation)
unfolding invoke_agent roboz.Agent.Run.append_and_pipe run_loop roboz.Agent.Run.after_advance
    advance_by_step get_next_tool roboz.Agent.next_of roboz.Agent.chained_tools
    pop_ephemeral_default_tool roboz.Agent.take_first roboz.Agent.Run.call_tool
    roboz.Agent.Run.after_call
invoked = refl

only_first-Begins :
    (messages : List (Entry ℕ))
    → Begins (codes "Be brief.") messages
    → Begins (codes "Be brief.") (only_first messages)
only_first-Begins messages (no_prompt empty) = no_prompt empty
only_first-Begins messages (with_prompt rest starts) = with_prompt [] (rw starts refl)

abbrev tools_begin : ToolsBegin stopping life
tools_begin = record {
  while_running = record {
    by_call = λ t output messages w begun. only_first-Begins messages begun;
    by_prompt = λ question messages w begun. begun;
  };
  while_loading = λ t output messages w begun. begun;
}

-- The run completes, and the parent's contexts are as before.
invoke_agent-Invoked_example :
    Invoked stopping life invocation false
      (value 0)
      (invoke_agent stopping life 3 false none invocation)
invoke_agent-Invoked_example =
    invoke_agent-Invoked stopping life 3 false none invocation tools_begin
