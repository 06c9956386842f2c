-- ===== src/Agent/Steps.antt =====
-- What one step of an agent does: it calls a tool, asks the user after an exception, or raises one.
use roboz.Prelude.{
  ◌≡◌, inl, inr, refl, true, false, Option, none, some, List, [], ◌∷◌, ◌++◌, ok, err, Bool-cases,
  Option-cases, Result-cases,
}
use roboz.Agent.{Output, value, Tool, Agent, AgentError, get_next_tool}
use roboz.Agent.Run.{
  Raised, content_filtered, provider_error, interrupted, keyboard_interrupt, cancelled, failure,
  misuse, Entry, finalized, interrupted_generation, UserPrompt, after_interrupt, retry_filtered,
  retry_request, Answer, Host, Session, Step, append_and_pipe, left_by, with_agent, after_prompt,
  ask_user, handle_interrupt, handle, after_call, call_tool, advance_by_step,
}

-- The exceptions after which the user is asked, with the question, and the messages and the world
-- that it is asked with: an interrupt is noted and cleared before.
pub data Recovers {O W : Type 0} (host : Host O W) (s : Session O W)
    : Raised → UserPrompt → List (Entry O) → W → Type 0 where
  from_filter : Recovers host s content_filtered retry_filtered s.messages s.world
  from_provider : Recovers host s provider_error retry_request s.messages s.world
  from_interrupt :
      Recovers host s interrupted after_interrupt
        (s.messages ++ interrupted_generation ∷ [])
        (host.clear_interrupt s.world)
  from_keyboard :
      host.is_interrupted s.world ≡ true
      → Recovers host s keyboard_interrupt after_interrupt
          (s.messages ++ interrupted_generation ∷ [])
          (host.clear_interrupt s.world)

-- The exceptions that end a run also where the user can be asked.
pub data Final {O W : Type 0} (host : Host O W) (s : Session O W) : Raised → Type 0 where
  by_cancel : Final host s cancelled
  by_failure : Final host s failure
  by_misuse : {error : AgentError} → Final host s (misuse error)
  by_keyboard : host.is_interrupted s.world ≡ false → Final host s keyboard_interrupt

-- How an exception is handled: it is raised again where nobody can be asked, or where it is final;
-- or the user is asked, and then the step goes on from the empty value with the default tools
-- anew, unless the question raises an exception in its turn.
pub data Handled {O W : Type 0} (host : Host O W) (s : Session O W) (e : Raised)
    : Step host → Type 0 where
  unasked : host.prompt_user_tool ≡ none → Handled host s e (err e, s)
  final : Final host s e → Handled host s e (err e, s)
  asked :
      {t : Tool O} {question : UserPrompt} {before messages : List (Entry O)} {w after : W}
      {reply : Output O}
      → host.prompt_user_tool ≡ some t
      → Recovers host s e question before w
      → host.prompt question before w ≡ (ok reply, messages, after)
      → Handled host s e (
        ok (none, value host.empty),
        record {
          agent = record s.agent { ephemeral_default_tools = [] };
          messages = messages ++ finalized t reply ∷ [];
          world = after;
        },
      )
  failed_to_ask :
      {question : UserPrompt} {before messages : List (Entry O)} {w after : W} {again : Raised}
      {left : Session O W}
      → Recovers host s e question before w
      → host.prompt question before w ≡ (err again, messages, after)
      → left ≡ record { agent = s.agent; messages = messages; world = after }
      → Handled host s e (err again, left)

-- A step: the run is cancelled, or no tool can be chosen; or the tool that is chosen returns, and its
-- result is appended to the messages that it leaves; or it raises an exception that is handled.
pub data Stepped {O W : Type 0} (host : Host O W) (previous : Option (Tool O)) (output : Output O)
    (s : Session O W) : Step host → Type 0 where
  stopped :
      {left : Session O W}
      → host.is_cancelled s.world ≡ true
      → left ≡ s
      → Stepped host previous output s (err cancelled, left)
  unchosen :
      {error : AgentError} {agent : Agent O}
      → host.is_cancelled s.world ≡ false
      → get_next_tool host.link previous output s.agent ≡ err (error, agent)
      → Stepped host previous output s (err (misuse error), with_agent host s agent)
  returned :
      {t : Tool O} {agent : Agent O} {result : Output O} {messages : List (Entry O)} {w : W}
      → host.is_cancelled s.world ≡ false
      → get_next_tool host.link previous output s.agent ≡ ok (t, agent)
      → host.call t output s.messages s.world ≡ (ok result, messages, w)
      → Stepped host previous output s (
        ok (some t, result),
        record { agent = agent; messages = messages ++ finalized t result ∷ []; world = w },
      )
  raised :
      {t : Tool O} {agent : Agent O} {e : Raised} {messages : List (Entry O)} {w : W}
      {step : Step host}
      → host.is_cancelled s.world ≡ false
      → get_next_tool host.link previous output s.agent ≡ ok (t, agent)
      → host.call t output s.messages s.world ≡ (err e, messages, w)
      → Handled host (left_by host (with_agent host s agent) messages w) e step
      → Stepped host previous output s step

module _ {O W : Type 0} (host : Host O W) where
  after_prompt-Handled :
      (s at : Session O W) (e : Raised) (question : UserPrompt) (t : Tool O) (answer : Answer O W)
      → at.agent ≡ s.agent
      → host.prompt_user_tool ≡ some t
      → Recovers host s e question at.messages at.world
      → host.prompt question at.messages at.world ≡ answer
      → Handled host s e (after_prompt host t answer.0 (left_by host at answer.1 answer.2))
  unfolding after_prompt append_and_pipe
  after_prompt-Handled s at e question t (err again, messages, after) same has recovers is =
      failed_to_ask recovers is (rw same refl)
  after_prompt-Handled s at e question t (ok reply, messages, after) same has recovers is =
      rw same (asked has recovers is)

  ask_user-asks :
      (question : UserPrompt) (at : Session O W) {t : Tool O}
      → host.prompt_user_tool ≡ some t
      → ask_user host question at
        ≡ after_prompt host t (host.prompt question at.messages at.world).0 (
            left_by host at
              (host.prompt question at.messages at.world).1
              (host.prompt question at.messages at.world).2)
  unfolding ask_user after_prompt append_and_pipe
  ask_user-asks question at has = rw (has, ask_user) refl

  ask_user-Handled :
      (s at : Session O W) (e : Raised) (question : UserPrompt) {t : Tool O}
      → at.agent ≡ s.agent
      → host.prompt_user_tool ≡ some t
      → Recovers host s e question at.messages at.world
      → Handled host s e (ask_user host question at)
  ask_user-Handled s at e question {t} same has recovers =
      rw (ask_user-asks question at has)
        (after_prompt-Handled s at e question t _ same has recovers refl)

  handle_interrupt-Handled :
      (s : Session O W) (e : Raised) {t : Tool O}
      → host.prompt_user_tool ≡ some t
      → Recovers host s e after_interrupt
          (s.messages ++ interrupted_generation ∷ [])
          (host.clear_interrupt s.world)
      → Handled host s e (handle_interrupt host s)
  unfolding handle_interrupt append_and_pipe
  handle_interrupt-Handled s e has recovers =
      ask_user-Handled s _ e after_interrupt refl has recovers

  unasked-handle :
      (e : Raised) (s : Session O W) → host.prompt_user_tool ≡ none → handle host e s ≡ (err e, s)
  unfolding handle
  unasked-handle content_filtered s h = rw (h, handle) refl
  unasked-handle provider_error s h = rw (h, handle) refl
  unasked-handle interrupted s h = rw (h, handle) refl
  unasked-handle keyboard_interrupt s h = rw (h, handle) refl
  unasked-handle cancelled s h = refl
  unasked-handle failure s h = refl
  unasked-handle (misuse error) s h = refl

  handle-interrupt :
      (s : Session O W) {t : Tool O}
      → host.prompt_user_tool ≡ some t
      → handle host interrupted s ≡ handle_interrupt host s
  unfolding handle
  handle-interrupt s has = rw (has, handle) refl

  handle-keyboard :
      (s : Session O W) {t : Tool O}
      → host.prompt_user_tool ≡ some t
      → host.is_interrupted s.world ≡ true
      → handle host keyboard_interrupt s ≡ handle_interrupt host s
  unfolding handle
  handle-keyboard s has flag = rw (has, flag, handle) refl

  handle-final :
      (s : Session O W) {t : Tool O}
      → host.prompt_user_tool ≡ some t
      → host.is_interrupted s.world ≡ false
      → handle host keyboard_interrupt s ≡ (err keyboard_interrupt, s)
  unfolding handle
  handle-final s has no_flag = rw (has, no_flag, handle) refl

  handle-filter :
      (s : Session O W) {t : Tool O}
      → host.prompt_user_tool ≡ some t
      → handle host content_filtered s ≡ ask_user host retry_filtered s
  unfolding handle
  handle-filter s has = rw (has, handle) refl

  handle-provider :
      (s : Session O W) {t : Tool O}
      → host.prompt_user_tool ≡ some t
      → handle host provider_error s ≡ ask_user host retry_request s
  unfolding handle
  handle-provider s has = rw (has, handle) refl

  asked-Handled :
      (e : Raised) (s : Session O W) {t : Tool O}
      → host.prompt_user_tool ≡ some t
      → Handled host s e (handle host e s)
  asked-Handled content_filtered s h =
      rw (handle-filter s h)
        (ask_user-Handled s s content_filtered retry_filtered refl h from_filter)
  asked-Handled provider_error s h =
      rw (handle-provider s h)
        (ask_user-Handled s s provider_error retry_request refl h from_provider)
  asked-Handled interrupted s h =
      rw (handle-interrupt s h) (handle_interrupt-Handled s interrupted h from_interrupt)
  asked-Handled keyboard_interrupt s h = elim (Bool-cases (host.is_interrupted s.world)) [
    | inl flag ↦
        rw (handle-keyboard s h flag)
          (handle_interrupt-Handled s keyboard_interrupt h (from_keyboard flag))
    | inr no_flag ↦ rw (handle-final s h no_flag) (final (by_keyboard no_flag))
  ]
  asked-Handled cancelled s h = unfold handle in final by_cancel
  asked-Handled failure s h = unfold handle in final by_failure
  asked-Handled (misuse error) s h = unfold handle in final by_misuse

  handle-Handled : (e : Raised) (s : Session O W) → Handled host s e (handle host e s)
  handle-Handled e s = elim (Option-cases host.prompt_user_tool) [
    | inl lacks ↦ rw (unasked-handle e s lacks) (unasked lacks)
    | inr (t, has) ↦ asked-Handled e s has
  ]

  after_call-Stepped :
      (previous : Option (Tool O)) (output : Output O) (s : Session O W) (t : Tool O)
      (agent : Agent O) (answer : Answer O W)
      → host.is_cancelled s.world ≡ false
      → get_next_tool host.link previous output s.agent ≡ ok (t, agent)
      → host.call t output s.messages s.world ≡ answer
      → Stepped host previous output s
          (after_call host t answer.0 (left_by host (with_agent host s agent) answer.1 answer.2))
  unfolding after_call append_and_pipe
  after_call-Stepped previous output s t agent (err e, messages, w) going next is =
      raised going next is (handle-Handled e _)
  after_call-Stepped previous output s t agent (ok result, messages, w) going next is =
      returned going next is

  call_tool-going :
      (output : Output O) (t : Tool O) (agent : Agent O) (s : Session O W)
      → host.is_cancelled s.world ≡ false
      → call_tool host output (t, agent) s
        ≡ after_call host t (host.call t output s.messages s.world).0 (
            left_by host
              (with_agent host s agent)
              (host.call t output s.messages s.world).1
              (host.call t output s.messages s.world).2)
  unfolding call_tool
  call_tool-going output t agent s going = rw (going, call_tool) refl

  -- A step raises a cancellation if the run is cancelled, and a misuse if no tool can be chosen, with the
  -- agent that this leaves. Otherwise it calls the tool that is chosen: its result stands behind
  -- the messages that the tool leaves; or the exception that it raises is handled. That is raised
  -- again where nobody can be asked, and also where it is a cancellation, a failure, a misuse, or a
  -- KeyboardInterrupt without the flag of an interrupt. After any other the user is asked, an interrupt
  -- being noted in the messages and cleared before; the reply stands behind the messages that the
  -- question leaves, and the step goes on from the empty value with the default tools anew, unless the
  -- question raises an exception in its turn.
  pub advance_by_step-Stepped :
      (previous : Option (Tool O)) (output : Output O) (s : Session O W)
      → Stepped host previous output s (advance_by_step host previous output s)
  unfolding advance_by_step
  advance_by_step-Stepped previous output s = elim (Bool-cases (host.is_cancelled s.world)) [
    | inl stop_now ↦ rw (stop_now, advance_by_step) (unfold handle in stopped stop_now refl)
    | inr going ↦ elim (Result-cases (get_next_tool host.link previous output s.agent)) [
      | inl ((t, agent), next) ↦
          rw (going, next, advance_by_step, call_tool-going output t agent s going)
            (after_call-Stepped previous output s t agent _ going next refl)
      | inr ((error, agent), refused) ↦
          rw (going, refused, advance_by_step) (unfold handle in unchosen going refused)
    ]
  ]
