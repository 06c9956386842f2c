-- ===== src/Agent/Run.antt =====
-- agent/core.py: one step of an agent with its exceptions, and the loop of `invoke`.
use roboz.Prelude.{
  ℕ, zero, suc, Bool, true, false, Option, none, some, List, [], ◌∷◌, ◌++◌, Result, ok, err,
  if◌then◌else◌,
}
use roboz.Prelude.Text.{Text}
use roboz.Agent.{Output, invoke, value, stop, Tool, Agent, AgentError, get_next_tool}

-- The exceptions of a tool call. `cancelled` is ExternalCallCancelledError or StopAgent, and
-- `failure` any other.
pub data Raised : Type 0 where
  content_filtered provider_error interrupted keyboard_interrupt cancelled failure : Raised
  misuse : AgentError → Raised

-- The messages that a run adds: the result of a tool, the note of an interrupt, and those that it
-- begins with.
pub data Entry (O : Type 0) : Type 0 where
  finalized : Tool O → Output O → Entry O
  interrupted_generation auto_load_banner : Entry O
  system_message startup_context : Text → Entry O
  auto_loaded_skill : Tool O → Output O → Entry O

pub data UserPrompt : Type 0 where
  after_interrupt retry_filtered retry_request : UserPrompt

-- What a tool leaves, whether it returns or raises: its result, the messages, which it is given to
-- change, and the world.
abbrev pub Answer : (O W : Type 0) → Type 0
Answer O W = Result Raised (Output O) × List (Entry O) × W

-- What a run uses of its pipe and its tools, on a world W.
pub record Host (O W : Type 0) : Type 0 where
  pub empty : O
  pub link : Tool O → Tool O → Bool
  pub is_cancelled : W → Bool
  pub is_interrupted : W → Bool
  pub clear_interrupt : W → W
  pub call : Tool O → Output O → List (Entry O) → W → Answer O W
  -- the tool that prompts the user, where the mode of the agent allows it
  pub prompt_user_tool : Option (Tool O)
  pub prompt : UserPrompt → List (Entry O) → W → Answer O W

pub record Session (O W : Type 0) : Type 0 where
  pub agent : Agent O
  pub messages : List (Entry O)
  pub world : W

-- How a run ends: with a stop, or with an exception. A cancelled run returns a stop as well.
pub data Ending : Type 0 where
  completed : Ending
  ended_by : Raised → Ending

module _ {O W : Type 0} (host : Host O W) where
  abbrev pub Step : Type 0
  Step = Result Raised (Option (Tool O) × Output O) × Session O W

  unfoldable pub append_and_pipe : Entry O → Session O W → Session O W
  append_and_pipe entry s = record {
    agent = s.agent;
    messages = s.messages ++ entry ∷ [];
    world = s.world;
  }

  abbrev pub in_world : Session O W → W → Session O W
  in_world s w = record { agent = s.agent; messages = s.messages; world = w }

  abbrev pub left_by : Session O W → List (Entry O) → W → Session O W
  left_by s messages w = record { agent = s.agent; messages = messages; world = w }

  abbrev pub with_agent : Session O W → Agent O → Session O W
  with_agent s agent = record { agent = agent; messages = s.messages; world = s.world }

  -- The default tools begin anew.
  abbrev pub rescheduled : Session O W → Session O W
  rescheduled s = with_agent s (record s.agent { ephemeral_default_tools = [] })

  unfoldable pub after_prompt : Tool O → Result Raised (Output O) → Session O W → Step
  after_prompt t (err error) s = (err error, s)
  after_prompt t (ok reply) s =
      (ok (none, value host.empty), rescheduled (append_and_pipe (finalized t reply) s))

  unfoldable pub ask_user : UserPrompt → Session O W → Step
  ask_user question s = elim host.prompt_user_tool [
    | none ↦ (err failure, s)
    | some t ↦
        let (reply, messages, after) = host.prompt question s.messages s.world in
        after_prompt t reply (left_by s messages after)
  ]

  unfoldable pub handle_interrupt : Session O W → Step
  handle_interrupt s =
      ask_user after_interrupt
        (append_and_pipe interrupted_generation (in_world s (host.clear_interrupt s.world)))

  abbrev pub allows_user_interaction : Bool
  allows_user_interaction = elim host.prompt_user_tool [ none ↦ false | some t ↦ true ]

  -- The clauses of `except`.
  unfoldable pub handle : Raised → Session O W → Step
  handle content_filtered s =
      if allows_user_interaction then ask_user retry_filtered s else (err content_filtered, s)
  handle provider_error s =
      if allows_user_interaction then ask_user retry_request s else (err provider_error, s)
  handle interrupted s =
      if allows_user_interaction then handle_interrupt s else (err interrupted, s)
  handle keyboard_interrupt s =
      if allows_user_interaction
      then (if host.is_interrupted s.world then handle_interrupt s else (err keyboard_interrupt, s))
      else (err keyboard_interrupt, s)
  handle cancelled s = (err cancelled, s)
  handle failure s = (err failure, s)
  handle (misuse error) s = (err (misuse error), s)

  unfoldable pub after_call : Tool O → Result Raised (Output O) → Session O W → Step
  after_call t (err error) s = handle error s
  after_call t (ok output) s = (ok (some t, output), append_and_pipe (finalized t output) s)

  unfoldable pub call_tool : Output O → Tool O × Agent O → Session O W → Step
  call_tool output (t, agent) s =
      let ready = with_agent s agent in
      let (result, messages, after) = host.call t output s.messages s.world in
      if host.is_cancelled s.world
      then handle cancelled ready
      else after_call t result (left_by ready messages after)

  unfoldable pub advance_by_step : Option (Tool O) → Output O → Session O W → Step
  advance_by_step previous output s =
      if host.is_cancelled s.world
      then handle cancelled s
      else (elim (get_next_tool host.link previous output s.agent) [
        | err (error, agent) ↦ handle (misuse error) (with_agent s agent)
        | ok next ↦ call_tool output next s
      ])

  unfoldable pub after_advance :
      (Option (Tool O) → Output O → Session O W → Option (Ending × Session O W))
      → Step
      → Option (Ending × Session O W)
  after_advance rest (err error, s) = some (ended_by error, s)
  after_advance rest (ok (t, stop), s) = some (completed, s)
  after_advance rest (ok (t, invoke action), s) = rest t (invoke action) s
  after_advance rest (ok (t, value o), s) = rest t (value o) s

  -- The loop of `invoke`, for so many steps at most.
  unfoldable pub run_loop :
      ℕ → Option (Tool O) → Output O → Session O W → Option (Ending × Session O W)
  run_loop zero previous output s = none
  run_loop (suc fuel) previous output s =
      after_advance (run_loop fuel) (advance_by_step previous output s)
