-- ===== src/Agent.antt =====
-- agent/core.py: the registry of an agent's tools, its skills, and the choice of the next tool.
pub mod Schedule
pub mod Skills
pub mod Run
pub mod Kept
pub mod Steps
pub mod Invoke
use roboz.Prelude.{
  ℕ, zero, suc, String, str_eq, Bool, true, false, not, ◌&&◌, ◌||◌, Option, none, some, List, [],
  ◌∷◌, ◌++◌, ◌==◌, Result, ok, err, ◌>>=◌, ◌>>◌, raise_if, if◌then◌else◌,
}

-- What a tool gives back: a call of a tool by name, a value of the tool's own, or a stop.
pub data Output (O : Type 0) : Type 0 where
  invoke : String → Output O
  value : O → Output O
  stop : Output O

-- `ref` is the identity of the object, and `id` the identity in the graph, which the tools of one
-- factory share; `chained_to` holds the ids of the parents.
pub record Tool (O : Type 0) : Type 0 where
  pub ref : ℕ
  pub id : ℕ
  pub name : String
  -- its output may be an Invoke
  pub returns_invoke : Bool
  pub chained_to : List ℕ
  pub chain_condition : Output O → Bool

pub record Skill (O : Type 0) : Type 0 where
  pub ref : ℕ
  pub name : String
  pub depends_on : Option ℕ
  pub tools : List (Tool O)

pub record Agent (O : Type 0) : Type 0 where
  pub default_tools : List (Tool O)
  pub prompt_llm_tool : Option (Tool O)
  pub active_tools : List (Tool O)
  pub passive_tools : List (Tool O)
  pub skills : List (Skill O)
  pub auto_loaded_skills : List (Skill O)
  pub loaded_skills : List ℕ
  pub ephemeral_default_tools : List (Tool O)

pub data AgentError : Type 0 where
  default_is_chained default_invokes duplicate_name duplicate_id unknown_parent wrong_link :
      AgentError
  unknown_tool missing_dependency many_links no_default_tool : AgentError

-- What is raised, and the agent that it leaves.
abbrev pub Refusal : Type 0 → Type 0
Refusal O = AgentError × Agent O

unfoldable pub has_ref : ℕ → List ℕ → Bool
has_ref r [] = false
has_ref r (other ∷ refs) = r == other || has_ref r refs

-- The skill that the one given depends on, if any, is loaded.
unfoldable pub dependency_loaded : Option ℕ → List ℕ → Bool
dependency_loaded none loaded = true
dependency_loaded (some skill) loaded = has_ref skill loaded

module _ {O : Type 0} where
  -- `tools[t.id] = t` of a dict: the place of the first entry is kept.
  unfoldable pub put : Tool O → List (Tool O) → List (Tool O)
  put t [] = t ∷ []
  put t (other ∷ tools) =
      let rest = put t tools in if t.id == other.id then t ∷ tools else other ∷ rest

  abbrev pub is_chained : Tool O → Bool
  is_chained t = elim (t.chained_to) [ [] ↦ false | parent ∷ parents ↦ true ]

  -- The loop of `_init_tools`.
  unfoldable pub register : List (Tool O) → Agent O → Agent O
  register [] agent = agent
  register (t ∷ tools) agent =
      if is_chained t
      then register tools (record agent { passive_tools = put t agent.passive_tools })
      else register tools (record agent { active_tools = put t agent.active_tools })

  -- `set(tools) | set(more)`, in an order of its own; here that of the lists.
  unfoldable pub without_repeats : List ℕ → List (Tool O) → List (Tool O)
  without_repeats seen [] = []
  without_repeats seen (t ∷ tools) = elim (has_ref t.ref seen) [
    | true ↦ without_repeats seen tools
    | false ↦ t ∷ without_repeats (t.ref ∷ seen) tools
  ]

  unfoldable pub find_id : ℕ → List (Tool O) → Option (Tool O)
  find_id i [] = none
  find_id i (t ∷ tools) = if t.id == i then some t else find_id i tools

  unfoldable pub find_name : String → List (Tool O) → Option (Tool O)
  find_name name [] = none
  find_name name (t ∷ tools) = if str_eq t.name name then some t else find_name name tools

  unfoldable pub active_name : String → List (Tool O) → Bool
  active_name name [] = false
  active_name name (t ∷ tools) =
      (not (is_chained t) && str_eq t.name name) || active_name name tools

  unfoldable pub duplicate_names : List (Tool O) → Bool
  duplicate_names [] = false
  duplicate_names (t ∷ tools) =
      (not (is_chained t) && active_name t.name tools) || duplicate_names tools

  unfoldable pub duplicate_ids : List ℕ → List (Tool O) → Bool
  duplicate_ids seen [] = false
  duplicate_ids seen (t ∷ tools) = has_ref t.id seen || duplicate_ids (t.id ∷ seen) tools

  -- The entries that one passive tool adds to `chained_tools`: one for each of its parents that is
  -- the tool.
  unfoldable pub links_of : ℕ → Output O → Tool O → List ℕ → List (Tool O)
  links_of id output passive [] = []
  links_of id output passive (parent ∷ parents) =
      let rest = links_of id output passive parents in
      if parent == id && passive.chain_condition output then passive ∷ rest else rest

  unfoldable pub chained_from : ℕ → Output O → List (Tool O) → List (Tool O)
  chained_from id output [] = []
  chained_from id output (passive ∷ tools) =
      links_of id output passive passive.chained_to ++ chained_from id output tools

  unfoldable pub chained_tools : Option (Tool O) → Output O → Agent O → List (Tool O)
  chained_tools none output agent = []
  chained_tools (some t) output agent = chained_from t.id output agent.passive_tools

  abbrev with_prompt : List (Tool O) → Option (Tool O) → List (Tool O)
  with_prompt tools none = tools
  with_prompt tools (some t) = tools ++ t ∷ []

  -- The tools of one scheduling cycle.
  abbrev pub cycle : Agent O → List (Tool O)
  cycle agent = with_prompt agent.default_tools agent.prompt_llm_tool

  unfoldable pub take_first : List (Tool O) → Agent O → Result (Refusal O) (Tool O × Agent O)
  take_first [] agent = err (no_default_tool, agent)
  take_first (t ∷ tools) agent = ok (t, record agent { ephemeral_default_tools = tools })

  unfoldable pub pop_ephemeral_default_tool : Agent O → Result (Refusal O) (Tool O × Agent O)
  pop_ephemeral_default_tool agent = elim (agent.ephemeral_default_tools) [
    | [] ↦ take_first (cycle agent) agent
    | t ∷ tools ↦ take_first (t ∷ tools) agent
  ]

  unfoldable pub next_of : List (Tool O) → Agent O → Result (Refusal O) (Tool O × Agent O)
  next_of [] agent = pop_ephemeral_default_tool agent
  next_of (t ∷ []) agent = ok (t, agent)
  next_of (t ∷ u ∷ tools) agent = err (many_links, agent)

  unfoldable pub invoked_tool : String → Agent O → Result (Refusal O) (Tool O × Agent O)
  invoked_tool action agent = elim (find_name action agent.active_tools) [
    | none ↦ err (unknown_tool, agent)
    | some t ↦ ok (t, agent)
  ]

  -- `link parent tool` is `_validate_link`, on the types of the two tools.
  module _ (link : Tool O → Tool O → Bool) where
    unfoldable pub validate_parents : List (Tool O) → Tool O → List ℕ → Result AgentError (Unit {0})
    validate_parents all t [] = ok tt
    validate_parents all t (parent ∷ parents) = elim (find_id parent all) [
      | none ↦ err unknown_parent
      | some other ↦ raise_if (not (link other t)) wrong_link >> validate_parents all t parents
    ]

    unfoldable pub validate_links : List (Tool O) → List (Tool O) → Result AgentError (Unit {0})
    validate_links all [] = ok tt
    validate_links all (t ∷ tools) = validate_parents all t t.chained_to >> validate_links all tools

    unfoldable pub validate_tool_chains : List (Tool O) → Result AgentError (Unit {0})
    validate_tool_chains tools = do
      raise_if (duplicate_names tools) duplicate_name
      raise_if (duplicate_ids [] tools) duplicate_id
      validate_links tools tools

    unfoldable pub check_default_tools : List (Tool O) → Result AgentError (Unit {0})
    check_default_tools [] = ok tt
    check_default_tools (t ∷ tools) = do
      raise_if (is_chained t) default_is_chained
      raise_if t.returns_invoke default_invokes
      check_default_tools tools

    abbrev pub leaving : Agent O → Result AgentError (Unit {0}) → Result (Refusal O) (Agent O)
    leaving agent (ok done) = ok agent
    leaving agent (err error) = err (error, agent)

    -- Behind the check of the default tools: the tools stay registered when their chains are refused.
    unfoldable pub init_tools_checked :
        List (Tool O) → Agent O → Result AgentError (Unit {0}) → Result (Refusal O) (Agent O)
    init_tools_checked tools agent (err error) = err (error, agent)
    init_tools_checked tools agent (ok done) =
        leaving (register (without_repeats [] tools) agent)
          (validate_tool_chains (without_repeats [] (tools ++ agent.default_tools)))

    -- `_init_tools`; the list holds the tools given and those of the skill. The tool that asks the
    -- model is made anew, under the same identity.
    unfoldable pub init_tools : List (Tool O) → Agent O → Result (Refusal O) (Agent O)
    unfolding init_tools_checked
    init_tools tools agent =
        init_tools_checked tools agent (check_default_tools agent.default_tools)

    -- `add(skill=skill)`
    unfoldable pub add_skill : Skill O → Agent O → Result (Refusal O) (Agent O)
    add_skill skill agent =
        init_tools (agent.active_tools ++ (agent.passive_tools ++ skill.tools)) agent

    unfoldable pub find_skill : String → List (Skill O) → Option (Skill O)
    find_skill name [] = none
    find_skill name (skill ∷ skills) =
        if str_eq skill.name name then some skill else find_skill name skills

    -- `(self._skills | self._auto_loaded_skills).get(action)`
    unfoldable pub skill_of : String → Agent O → Option (Skill O)
    skill_of action agent = elim (find_skill action agent.auto_loaded_skills) [
      | some skill ↦ some skill
      | none ↦ find_skill action agent.skills
    ]

    unfoldable pub load_skill : Skill O → Agent O → Result (Refusal O) (Agent O)
    load_skill skill agent =
        if has_ref skill.ref agent.loaded_skills
        then ok agent
        else if dependency_loaded skill.depends_on agent.loaded_skills
        then add_skill skill (record agent { loaded_skills = skill.ref ∷ agent.loaded_skills })
        else err (missing_dependency, agent)

    unfoldable pub init_skill : Output O → Agent O → Result (Refusal O) (Agent O)
    init_skill (invoke action) agent = elim (skill_of action agent) [
      | none ↦ ok agent
      | some skill ↦ load_skill skill agent
    ]
    init_skill _ agent = ok agent

    unfoldable pub get_next_tool :
        Option (Tool O) → Output O → Agent O → Result (Refusal O) (Tool O × Agent O)
    get_next_tool previous (invoke action) agent =
        init_skill (invoke action) agent >>= invoked_tool action
    get_next_tool previous output agent = next_of (chained_tools previous output agent) agent
