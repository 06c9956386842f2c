-- ===== src/Scripts/Client.antt =====
-- shed/tools/safe_scripts/client.py: the checks of a client on the responses of the helper, and the
-- result that it collects from them. `utf8` is the encoding of a text.
pub mod Accepts
use roboz.Prelude.{
  ℕ, ◌+◌, ◌*◌, Bool, true, false, not, ◌&&◌, ◌||◌, Option, none, some, List, [], ◌∷◌, ◌++◌, ltb,
  ◌==◌, if◌then◌else◌, length, Result, ok, err, ◌>>◌, raise_if,
}
use roboz.Prelude.Int.{ℤ}
use roboz.Prelude.Text.{Text, codes, ends_with}
use roboz.Scripts.{
  ScriptStatus, listed, success, refused, busy, failed, timeout, output_limit, Completed, Response,
  output_chunk, script_entry, completion, Greeting, Message, greeting, request, response,
  greeting_policy, ExecutionPolicy, ValueError,
}

pub data ClientError : Type 0 where
  expected_greeting output_exceeds_limit invalid_discovery_completion invalid_execution_completion
        data_after_completion invalid_response no_completion :
      ClientError
  rejected : ValueError → ClientError

abbrev or_rejected : Result ValueError ExecutionPolicy → Greeting → Result ClientError Greeting
or_rejected (err e) hello = err (rejected e)
or_rejected (ok policy) hello = ok hello

-- `_greeting`, of the first message
unfoldable pub accept_greeting : Message → Result ClientError Greeting
unfolding greeting_policy
accept_greeting (greeting hello) = or_rejected (greeting_policy hello) hello
accept_greeting _ = err expected_greeting

-- `message.status not in {"listed", "refused", "failed", "timeout"}`
unfoldable pub is_discovery_status : ScriptStatus → Bool
is_discovery_status listed = true
is_discovery_status refused = true
is_discovery_status failed = true
is_discovery_status timeout = true
is_discovery_status _ = false

abbrev pub is_listed : ScriptStatus → Bool
is_listed listed = true
is_listed _ = false

abbrev pub is_given : Option ℤ → Bool
is_given none = false
is_given (some exit_code) = true

-- The checks on a completion. `more` says that bytes are pending behind it.
unfoldable pub check_completion : Bool → Bool → Completed → Result ClientError (Unit {0})
unfolding is_discovery_status
check_completion discovery more completed =
    raise_if
      (discovery && (not (is_discovery_status completed.status) || is_given completed.exit_code))
      invalid_discovery_completion
    >> raise_if (not discovery && is_listed completed.status) invalid_execution_completion
    >> raise_if more data_after_completion

module _ (utf8 : Text → List ℕ) (discovery : Bool) (max_output_bytes : ℕ) where
  -- The responses up to the completion, and why they end when they are refused.
  abbrev pub Accepted : Type 0
  Accepted = List Response × Result ClientError (Unit {0})

  abbrev pub before : Response → Accepted → Accepted
  before first (rest, end) = (first ∷ rest, end)

  abbrev pub last : Completed → Result ClientError (Unit {0}) → Accepted
  last completed (err e) = ([], err e)
  last completed (ok done) = (completion completed ∷ [], ok tt)

  abbrev pub is_empty {ℓ} : {A : Type ℓ} → List A → Bool
  is_empty [] = true
  is_empty (x ∷ xs) = false

  -- The loop of `_responses`, over the messages that the frames hold.
  unfoldable pub responses_from : ℕ → List Message → Accepted
  unfolding check_completion
  responses_from total [] = ([], err no_completion)
  responses_from total (response (output_chunk output) ∷ messages) =
      let counted = total + length (utf8 output) in
      let rest = responses_from counted messages in
      if discovery
      then ([], err invalid_response)
      else if ltb (max_output_bytes * 3) counted
      then ([], err output_exceeds_limit)
      else before (output_chunk output) rest
  responses_from total (response (script_entry script description) ∷ messages) =
      let rest = responses_from total messages in
      if discovery
      then before (script_entry script description) rest
      else ([], err invalid_response)
  responses_from total (response (completion completed) ∷ messages) =
      last completed (check_completion discovery (not (is_empty messages)) completed)
  responses_from total (greeting hello ∷ messages) = ([], err invalid_response)
  responses_from total (request script ∷ messages) = ([], err invalid_response)

  unfoldable pub responses : List Message → Accepted
  unfolding responses_from
  responses messages = responses_from 0 messages

pub record ScriptEntry : Type 0 where
  pub script : Text
  pub description : Text

pub record ShellScriptResult : Type 0 where
  pub status : ScriptStatus
  pub exit_code : Option ℤ
  pub scripts : List ScriptEntry
  pub output : Text

module _ (sort_entries : List ScriptEntry → List ScriptEntry) where
  -- A line break before the diagnostic, where the transcript does not end with one.
  abbrev pub separator : Text → Text
  separator [] = []
  separator (c ∷ transcript) = if ends_with (codes "\n") (c ∷ transcript) then [] else codes "\n"

  abbrev pub with_diagnostic : Text → Text → Text
  with_diagnostic transcript [] = transcript
  with_diagnostic transcript (c ∷ diagnostic) =
      transcript ++ (separator transcript ++ c ∷ diagnostic)

  abbrev pub result_of : List ScriptEntry → Text → Completed → ShellScriptResult
  result_of entries transcript completed = record {
    status = completed.status;
    exit_code = completed.exit_code;
    scripts = sort_entries entries;
    output = with_diagnostic transcript completed.diagnostic;
  }

  -- `collect`, with what the sink is given: the chunks, one by one.
  unfoldable pub collect_from :
      List ScriptEntry → Text → List Response → List Text × Result ClientError ShellScriptResult
  collect_from entries transcript [] = ([], err no_completion)
  collect_from entries transcript (completion completed ∷ events) =
      ([], ok (result_of entries transcript completed))
  collect_from entries transcript (script_entry script description ∷ events) =
      collect_from (entries ++ record { script = script; description = description } ∷ [])
        transcript events
  collect_from entries transcript (output_chunk output ∷ events) =
      let (sunk, result) = collect_from entries (transcript ++ output) events in
      (output ∷ sunk, result)

  unfoldable pub collect : List Response → List Text × Result ClientError ShellScriptResult
  unfolding collect_from
  collect events = collect_from [] [] events
