-- ===== src/Agent/Kept.antt =====
-- What a run keeps of its messages: a predicate that its tools and the appended messages keep.
use roboz.Prelude.{
  ℕ, zero, suc, inl, inr, Bool, true, false, Option, none, some, List, [], ◌∷◌, ◌++◌, Result, ok,
  err, Option-cases, Result-cases, if◌then◌else◌,
}
use roboz.Agent.{Output, invoke, value, stop, Tool, get_next_tool}
use roboz.Agent.Run.{
  Raised, content_filtered, provider_error, interrupted, keyboard_interrupt, cancelled, failure,
  misuse, Entry, finalized, interrupted_generation, UserPrompt, after_interrupt, retry_filtered,
  retry_request, Host, Session, Step, append_and_pipe, with_agent, after_prompt, ask_user,
  handle_interrupt, allows_user_interaction, handle, after_call, call_tool, advance_by_step, Ending,
  after_advance, run_loop,
}

-- The tools of a run leave messages with the predicate if they are given such.
pub record ToolsKeep {O W : Type 0} (host : Host O W) (IsKept : List (Entry O) → Type 0)
    : Type 0 where
  pub by_call :
      (t : Tool O) (output : Output O) (messages : List (Entry O)) (w : W)
      → IsKept messages
      → IsKept (host.call t output messages w).1
  pub by_prompt :
      (question : UserPrompt) (messages : List (Entry O)) (w : W)
      → IsKept messages
      → IsKept (host.prompt question messages w).1

module _ {O W : Type 0} (host : Host O W) (IsKept : List (Entry O) → Type 0)
    (appends : (messages : List (Entry O)) (entry : Entry O)
      → IsKept messages
      → IsKept (messages ++ entry ∷ []))
    (tools : ToolsKeep host IsKept) where
  abbrev Keeps : Step host → Type 0
  Keeps step = IsKept step.1.messages

  after_prompt-Keeps :
      (t : Tool O) (reply : Result Raised (Output O)) (s : Session O W)
      → IsKept s.messages
      → Keeps (after_prompt host t reply s)
  unfolding after_prompt append_and_pipe
  after_prompt-Keeps t (err error) s kept = kept
  after_prompt-Keeps t (ok reply) s kept = appends s.messages (finalized t reply) kept

  ask_user-Keeps :
      (question : UserPrompt) (s : Session O W)
      → IsKept s.messages
      → Keeps (ask_user host question s)
  unfolding ask_user
  ask_user-Keeps question s kept = elim (Option-cases host.prompt_user_tool) [
    | inl lacks ↦ rw (lacks, ask_user) kept
    | inr (t, has) ↦
        rw (has, ask_user)
          (after_prompt-Keeps t _ _ (tools.by_prompt question s.messages s.world kept))
  ]

  handle_interrupt-Keeps : (s : Session O W) → IsKept s.messages → Keeps (handle_interrupt host s)
  unfolding handle_interrupt append_and_pipe
  handle_interrupt-Keeps s kept =
      ask_user-Keeps after_interrupt _ (appends s.messages interrupted_generation kept)

  if-Keeps : (test : Bool) (a b : Step host) → Keeps a → Keeps b → Keeps (if test then a else b)
  if-Keeps true a b h k = h
  if-Keeps false a b h k = k

  handle-Keeps :
      (error : Raised) (s : Session O W) → IsKept s.messages → Keeps (handle host error s)
  unfolding handle
  handle-Keeps content_filtered s kept =
      if-Keeps (allows_user_interaction host) _ _ (ask_user-Keeps retry_filtered s kept) kept
  handle-Keeps provider_error s kept =
      if-Keeps (allows_user_interaction host) _ _ (ask_user-Keeps retry_request s kept) kept
  handle-Keeps interrupted s kept =
      if-Keeps (allows_user_interaction host) _ _ (handle_interrupt-Keeps s kept) kept
  handle-Keeps keyboard_interrupt s kept =
      if-Keeps (allows_user_interaction host) _ _
        (if-Keeps (host.is_interrupted s.world) _ _ (handle_interrupt-Keeps s kept) kept) kept
  handle-Keeps cancelled s kept = kept
  handle-Keeps failure s kept = kept
  handle-Keeps (misuse error) s kept = kept

  after_call-Keeps :
      (t : Tool O) (result : Result Raised (Output O)) (s : Session O W)
      → IsKept s.messages
      → Keeps (after_call host t result s)
  unfolding after_call append_and_pipe
  after_call-Keeps t (err error) s kept = handle-Keeps error s kept
  after_call-Keeps t (ok output) s kept = appends s.messages (finalized t output) kept

  advance_by_step-Keeps :
      (previous : Option (Tool O)) (output : Output O) (s : Session O W)
      → IsKept s.messages
      → Keeps (advance_by_step host previous output s)
  unfolding advance_by_step call_tool
  advance_by_step-Keeps previous output s kept =
      if-Keeps (host.is_cancelled s.world) _ _ (handle-Keeps cancelled s kept)
        (elim (Result-cases (get_next_tool host.link previous output s.agent)) [
          | inl ((t, agent), next) ↦ rw next (
              if-Keeps (host.is_cancelled s.world) _ _
                (handle-Keeps cancelled (with_agent host s agent) kept)
                (after_call-Keeps t _ _ (tools.by_call t output s.messages s.world kept)))
          | inr ((error, agent), failed) ↦
              rw failed (handle-Keeps (misuse error) (with_agent host s agent) kept)
        ])

  pub data EndKeeps : Option (Ending × Session O W) → Type 0 where
    goes_on : EndKeeps none
    ends : {ending : Ending} {s : Session O W} → IsKept s.messages → EndKeeps (some (ending, s))

  after_advance-EndKeeps :
      (rest : Option (Tool O) → Output O → Session O W → Option (Ending × Session O W))
      (step : Step host)
      → ((t : Option (Tool O)) (output : Output O) (s : Session O W)
          → IsKept s.messages
          → EndKeeps (rest t output s))
      → Keeps step
      → EndKeeps (after_advance host rest step)
  unfolding after_advance
  after_advance-EndKeeps rest (err error, s) goes kept = ends kept
  after_advance-EndKeeps rest (ok (t, stop), s) goes kept = ends kept
  after_advance-EndKeeps rest (ok (t, invoke action), s) goes kept = goes t (invoke action) s kept
  after_advance-EndKeeps rest (ok (t, value o), s) goes kept = goes t (value o) s kept

  pub run_loop-EndKeeps :
      (fuel : ℕ) (previous : Option (Tool O)) (output : Output O) (s : Session O W)
      → IsKept s.messages
      → EndKeeps (run_loop host fuel previous output s)
  unfolding run_loop
  run_loop-EndKeeps zero previous output s kept = goes_on
  run_loop-EndKeeps (suc fuel) previous output s kept =
      after_advance-EndKeeps (run_loop host fuel) _ (run_loop-EndKeeps fuel)
        (advance_by_step-Keeps previous output s kept)
