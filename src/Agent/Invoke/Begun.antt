-- ===== src/Agent/Invoke/Begun.antt =====
-- What the messages of an invocation begin with.
use roboz.Prelude.{
  ℕ, String, ◌≡◌, refl, ap, ◌∙◌, Option, none, some, List, [], ◌∷◌, ◌++◌, Result, ok, err,
}
use roboz.Prelude.Text.{Text}
use roboz.Agent.{Output, invoke, Tool, Skill, Agent, Refusal, init_skill}
use roboz.Agent.Run.{
  Raised, Entry, auto_load_banner, system_message, startup_context, auto_loaded_skill, Host,
  Session, append_and_pipe, Ending,
}
use roboz.Agent.Kept.{ToolsKeep, EndKeeps, goes_on, ends, run_loop-EndKeeps}
use roboz.Agent.Invoke.{
  Initial, at_path, given_text, wrong_type, Lifecycle, Prepared, and_then, append_stored,
  append_initial, append_initials, with_system, init_messages, after_skill_call, call_skill_tool,
  after_init_skill, load_each, auto_load_skills, without_loaded, without_ephemeral, prepare, Ended,
  run_prepared, run_initialized,
}

-- The messages begin with the system prompt, if there is one.
pub data Begins {O : Type 0} (prompt : Text) (messages : List (Entry O)) : Type 0 where
  no_prompt : prompt ≡ [] → Begins prompt messages
  with_prompt :
      (rest : List (Entry O)) → messages ≡ system_message prompt ∷ rest → Begins prompt messages

module _ {O : Type 0} where
  Begins-append :
      (prompt : Text) (messages : List (Entry O)) (added : List (Entry O)) {longer : List (Entry O)}
      → longer ≡ messages ++ added
      → Begins prompt messages
      → Begins prompt longer
  Begins-append prompt messages added is (no_prompt empty) = no_prompt empty
  Begins-append prompt messages added is (with_prompt rest starts) =
      with_prompt (rest ++ added) (is ∙ ap (λ ms. ms ++ added) starts)

-- The tools leave the system prompt, if there is one, where the messages begin.
pub record ToolsBegin {O W : Type 0} (host : Host O W) (life : Lifecycle O W) : Type 0 where
  pub while_running : ToolsKeep host (Begins life.full_system_prompt)
  pub while_loading :
      (t : Tool O) (output : Output O) (messages : List (Entry O)) (w : W)
      → Begins life.full_system_prompt messages
      → Begins life.full_system_prompt (life.plain_call t output messages w).1

module _ {O W : Type 0} (host : Host O W) (life : Lifecycle O W)
    (tools : ToolsBegin host life) where
  abbrev prompt : Text
  prompt = life.full_system_prompt

  abbrev IsBegun : Session O W → Type 0
  IsBegun s = Begins prompt s.messages

  append_and_pipe-IsBegun :
      (entry : Entry O) (s : Session O W) → IsBegun s → IsBegun (append_and_pipe host entry s)
  unfolding append_and_pipe
  append_and_pipe-IsBegun entry s begun = Begins-append prompt s.messages (entry ∷ []) refl begun

  and_then-IsBegun :
      (p : Prepared host life) (rest : Session O W → Prepared host life)
      → IsBegun p.1
      → ((s : Session O W) → IsBegun s → IsBegun (rest s).1)
      → IsBegun (and_then host life p rest).1
  and_then-IsBegun (err e, s) rest begun later = begun
  and_then-IsBegun (ok done, s) rest begun later = later s begun

  append_stored-IsBegun :
      (stored : Result Raised (Option Text)) (s : Session O W)
      → IsBegun s
      → IsBegun (append_stored host life stored s).1
  unfolding append_stored
  append_stored-IsBegun (err e) s begun = begun
  append_stored-IsBegun (ok none) s begun = begun
  append_stored-IsBegun (ok (some text)) s begun =
      append_and_pipe-IsBegun (startup_context text) s begun

  append_initial-IsBegun :
      (i : Initial) (s : Session O W) → IsBegun s → IsBegun (append_initial host life i s).1
  unfolding append_initial
  append_initial-IsBegun (at_path path) s begun = append_stored-IsBegun _ _ begun
  append_initial-IsBegun (given_text text) s begun =
      append_and_pipe-IsBegun (startup_context text) s begun
  append_initial-IsBegun wrong_type s begun = begun

  append_initials-IsBegun :
      (initials : List Initial) (s : Session O W)
      → IsBegun s
      → IsBegun (append_initials host life initials s).1
  unfolding append_initials
  append_initials-IsBegun [] s begun = begun
  append_initials-IsBegun (i ∷ initials) s begun =
      and_then-IsBegun (append_initial host life i s) _ (append_initial-IsBegun i s begun)
        (append_initials-IsBegun initials)

  after_skill_call-IsBegun :
      (t : Tool O) (result : Result Raised (Output O)) (s : Session O W)
      → IsBegun s
      → IsBegun (after_skill_call host life t result s).1
  unfolding after_skill_call
  after_skill_call-IsBegun t (err e) s begun = begun
  after_skill_call-IsBegun t (ok output) s begun =
      append_and_pipe-IsBegun (auto_loaded_skill t output) s begun

  call_skill_tool-IsBegun :
      (name : String) (next : Result (Refusal O) (Tool O × Agent O)) (s : Session O W)
      → IsBegun s
      → IsBegun (call_skill_tool host life name next s).1
  unfolding call_skill_tool
  call_skill_tool-IsBegun name (err (error, agent)) s begun = begun
  call_skill_tool-IsBegun name (ok (t, agent)) s begun =
      after_skill_call-IsBegun t _ _ (tools.while_loading t (invoke name) s.messages s.world begun)

  after_init_skill-IsBegun :
      (name : String) (loaded : Result (Refusal O) (Agent O)) (s : Session O W)
      → IsBegun s
      → IsBegun (after_init_skill host life name loaded s).1
  unfolding after_init_skill
  after_init_skill-IsBegun name (err (error, agent)) s begun = begun
  after_init_skill-IsBegun name (ok agent) s begun = call_skill_tool-IsBegun name _ _ begun

  load_each-IsBegun :
      (skills : List (Skill O)) (s : Session O W)
      → IsBegun s
      → IsBegun (load_each host life skills s).1
  unfolding load_each
  load_each-IsBegun [] s begun = begun
  load_each-IsBegun (skill ∷ skills) s begun =
      and_then-IsBegun _ (load_each host life skills)
        (after_init_skill-IsBegun skill.name (init_skill host.link (invoke skill.name) s.agent) s
          begun)
        (load_each-IsBegun skills)

  auto_load_skills-IsBegun :
      (skills : List (Skill O)) (s : Session O W)
      → IsBegun s
      → IsBegun (auto_load_skills host life skills s).1
  unfolding auto_load_skills
  auto_load_skills-IsBegun [] s begun = begun
  auto_load_skills-IsBegun (skill ∷ skills) s begun =
      load_each-IsBegun (skill ∷ skills) _ (append_and_pipe-IsBegun auto_load_banner s begun)

  with_system-Begins :
      (text : Text) (s : Session O W)
      → s.messages ≡ []
      → Begins text (with_system host life text s).messages
  unfolding append_and_pipe
  with_system-Begins [] s empty = no_prompt refl
  with_system-Begins (c ∷ text) s empty = with_prompt [] (rw empty refl)

  prepare-IsBegun : (s : Session O W) → IsBegun (prepare host life s).1
  unfolding prepare init_messages
  prepare-IsBegun s =
      and_then-IsBegun (init_messages host life s) _
        (append_initials-IsBegun life.initial_messages _ (with_system-Begins prompt _ refl))
        (λ begun starts.
          auto_load_skills-IsBegun begun.agent.auto_loaded_skills (without_loaded host life begun)
            starts)

  pub data EndBegins : Ended host life → Type 0 where
    not_ended : EndBegins none
    has_ended :
        {ending : Ending} {s : Session O W}
        → Begins life.full_system_prompt s.messages
        → EndBegins (some (ending, s))

  kept-EndBegins :
      (rest : Ended host life)
      → EndKeeps host
          (Begins prompt)
          (λ messages entry. Begins-append prompt messages (entry ∷ []) refl)
          tools.while_running
          rest
      → EndBegins rest
  kept-EndBegins none goes_on = not_ended
  kept-EndBegins (some (ending, s)) (ends kept) = has_ended kept

  run_prepared-EndBegins :
      (fuel : ℕ) (input : Output O) (p : Prepared host life)
      → IsBegun p.1
      → EndBegins (run_prepared host life fuel input p)
  unfolding run_prepared
  run_prepared-EndBegins fuel input (err e, s) begun = has_ended begun
  run_prepared-EndBegins fuel input (ok done, s) begun = kept-EndBegins _ (
      run_loop-EndKeeps host (Begins prompt) _ tools.while_running fuel none input
        (without_ephemeral host life s) begun)

  pub run_initialized-EndBegins :
      (fuel : ℕ) (input : Output O) (s : Session O W)
      → EndBegins (run_initialized host life fuel input s)
  unfolding run_initialized
  run_initialized-EndBegins fuel input s = run_prepared-EndBegins fuel input _ (prepare-IsBegun s)
