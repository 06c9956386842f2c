-- ===== src/Agent/Skills.antt =====
-- The skills that an agent has loaded.
use roboz.Prelude.{
  ℕ, ◌≡◌, refl, sym, ◌∙◌, inl, inr, String, Bool, true, false, Option, some, List, [], ◌∷◌, Result,
  ok, err, arith, Bool-cases, Option-cases,
}
use mathlib.Core.Option.{some-injective}
use roboz.Agent.{
  invoke, Tool, is_chained, without_repeats, leaving, init_tools_checked, AgentError, Skill, Agent,
  has_ref, register, init_tools, add_skill, skill_of, dependency_loaded, load_skill, init_skill,
}

-- The newest first: no skill stands twice, and the skill that one depends on was loaded before it.
abbrev pub InOrder : (ℕ → Option ℕ) → List ℕ → Type 0
InOrder depends_on [] = Unit {0}
InOrder depends_on (skill ∷ loaded) =
    (has_ref skill loaded ≡ false)
    × (dependency_loaded (depends_on skill) loaded ≡ true)
    × InOrder depends_on loaded

has_ref-first : (skill : ℕ) (loaded : List ℕ) → has_ref skill (skill ∷ loaded) ≡ true
unfolding has_ref
has_ref-first skill loaded = ground arith

module _ {O : Type 0} (link : Tool O → Tool O → Bool) where
  register-loaded :
      (tools : List (Tool O)) (agent : Agent O)
      → (register tools agent).loaded_skills ≡ agent.loaded_skills
  unfolding register
  register-loaded [] agent = refl
  register-loaded (t ∷ tools) agent = elim (Bool-cases (is_chained t)) [
    | inl chained ↦ rw chained (register-loaded tools _)
    | inr free ↦ rw free (register-loaded tools _)
  ]

  leaving-ok :
      (agent : Agent O) (r : Result AgentError (Unit {0})) {after : Agent O}
      → leaving link agent r ≡ ok after
      → after ≡ agent
  leaving-ok agent (ok done) h = ground arith
  leaving-ok agent (err error) h = absurd (ground arith)

  init_tools_checked-loaded :
      (tools : List (Tool O)) (agent : Agent O) (r : Result AgentError (Unit {0})) {after : Agent O}
      → init_tools_checked link tools agent r ≡ ok after
      → after.loaded_skills ≡ agent.loaded_skills
  unfolding init_tools_checked
  init_tools_checked-loaded tools agent (err error) h = absurd (ground arith)
  init_tools_checked-loaded tools agent (ok done) {after} h =
      let same : after ≡ register (without_repeats [] tools) agent = leaving-ok _ _ h in
      rw same (register-loaded (without_repeats [] tools) agent)

  init_tools-loaded :
      (tools : List (Tool O)) (agent : Agent O) {after : Agent O}
      → init_tools link tools agent ≡ ok after
      → after.loaded_skills ≡ agent.loaded_skills
  unfolding init_tools
  init_tools-loaded tools agent h = init_tools_checked-loaded tools agent _ h

  load_skill-InOrder :
      (depends_on : ℕ → Option ℕ) (skill : Skill O) (agent : Agent O) {after : Agent O}
      → depends_on skill.ref ≡ skill.depends_on
      → InOrder depends_on agent.loaded_skills
      → load_skill link skill agent ≡ ok after
      → InOrder depends_on after.loaded_skills × (has_ref skill.ref after.loaded_skills ≡ true)
  unfolding load_skill add_skill
  load_skill-InOrder depends_on skill agent {after} same ordered h =
      elim (Bool-cases (has_ref skill.ref agent.loaded_skills)) [
        | inl loaded ↦ let kept : after ≡ agent = ground arith in rw kept (ordered, loaded)
        | inr new ↦ elim (Bool-cases (dependency_loaded skill.depends_on agent.loaded_skills)) [
          | inr lacks ↦ absurd (ground arith)
          | inl there ↦
              let grown : after.loaded_skills ≡ skill.ref ∷ agent.loaded_skills =
                init_tools-loaded _ _ (rw (new, there, load_skill, add_skill) at h) in
              rw grown ((new, rw same there, ordered), has_ref-first skill.ref agent.loaded_skills)
        ]
      ]

  -- A call that loads a skill keeps the loaded skills in order: none is loaded twice, and none before
  -- the skill that it depends on. A call of a skill leaves it loaded.
  pub init_skill-InOrder :
      (depends_on : ℕ → Option ℕ) (action : String) (agent : Agent O) {after : Agent O}
      → ((skill : Skill O)
          → skill_of link action agent ≡ some skill
          → depends_on skill.ref ≡ skill.depends_on)
      → InOrder depends_on agent.loaded_skills
      → init_skill link (invoke action) agent ≡ ok after
      → InOrder depends_on after.loaded_skills
        × ((skill : Skill O)
            → skill_of link action agent ≡ some skill
            → has_ref skill.ref after.loaded_skills ≡ true)
  unfolding init_skill
  init_skill-InOrder depends_on action agent {after} faithful ordered h =
      elim (Option-cases (skill_of link action agent)) [
        | inl unknown ↦
            let kept : after ≡ agent = ground arith in
            (rw kept ordered, λ skill called. absurd (ground arith))
        | inr (skill, found) ↦
            let (in_order, loaded) =
              load_skill-InOrder depends_on skill agent (faithful skill found) ordered
                (rw (found, init_skill) at h) in
            (
              in_order,
              λ other called.
                  let same : other ≡ skill = some-injective other skill (sym called ∙ found) in
                  rw same loaded,
            )
      ]
