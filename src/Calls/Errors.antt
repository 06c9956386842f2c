-- ===== src/Calls/Errors.antt =====
-- The exceptions of a call: `_classify_call_error` of llm/calls.py, and the classification of a
-- provider's exceptions in llm/_diagnostics.py.
use roboz.Prelude.{
  ℕ, ◌&&◌, ◌||◌, Bool, true, false, Option, none, some, List, [], ◌∷◌, leb, ltb, ◌==◌,
  if◌then◌else◌, ◌++◌,
}
use roboz.Prelude.Text.{Text, codes, contains, lower}

-- The classes of exceptions.py under LLMError.
pub data LlmError : Type 0 where
  interrupted cancelled timed_out : LlmError
  auth insufficient_funds rate_limit context_limit content_filtered provider_request : LlmError
  provider_unavailable unknown_provider client image_input output_format other_llm_error : LlmError

-- An exception of a provider, with what is asked of it. `status_code` is an int that is no bool.
pub record ProviderError : Type 0 where
  pub is_rate_limit_error : Bool
  pub is_context_length_error : Bool
  pub status_code : Option ℕ
  pub code : Text
  pub text : Text
  pub is_transport_error : Bool

pub data CallError : Type 0 where
  llm_error : LlmError → CallError
  call_interrupted call_cancelled call_timed_out : CallError
  raised : ProviderError → CallError

unfoldable pub has_any : Text → List Text → Bool
unfolding contains
has_any haystack [] = false
has_any haystack (needle ∷ needles) = contains needle haystack || has_any haystack needles

abbrev pub status_in : ℕ → ℕ → Option ℕ → Bool
status_in low high none = false
status_in low high (some status) = leb low status && ltb status high

abbrev pub is_status : ℕ → Option ℕ → Bool
is_status n none = false
is_status n (some status) = status == n

-- `" ".join(part for part in [provider_code, text] if part)`
unfoldable pub haystack_of : Text → Text → Text
haystack_of [] text = text
haystack_of (c ∷ code) [] = c ∷ code
haystack_of (c ∷ code) (d ∷ text) = (c ∷ code) ++ codes " " ++ (d ∷ text)

unfoldable pub classify_status : Option ℕ → Bool → Text → LlmError
unfolding has_any
classify_status status is_transport haystack =
    if status_in 500 600 status
    then provider_unavailable
    else if is_status 401 status
        || is_status 403 status
        || has_any haystack
            (codes "auth" ∷ codes "api key" ∷ codes "unauthorized" ∷ codes "forbidden" ∷ [])
    then auth
    else if is_status 402 status
        || has_any haystack
            (codes "insufficient" ∷ codes "funds" ∷ codes "balance" ∷ codes "quota_exceeded" ∷ [])
    then insufficient_funds
    else if is_status 429 status
        || contains (codes "rate") haystack && contains (codes "limit") haystack
    then rate_limit
    else if has_any haystack (
        codes "context"
        ∷ codes "maximum context"
        ∷ codes "token limit"
        ∷ codes "too many tokens"
        ∷ [])
    then context_limit
    else if has_any haystack (codes "unavailable" ∷ codes "overloaded" ∷ codes "timeout" ∷ [])
        || is_transport
    then provider_unavailable
    else if status_in 400 500 status
    then provider_request
    else unknown_provider

unfoldable pub classify_llm_provider_error : ProviderError → LlmError
unfolding classify_status haystack_of
classify_llm_provider_error error =
    if error.is_rate_limit_error
    then rate_limit
    else if error.is_context_length_error
    then context_limit
    else classify_status error.status_code error.is_transport_error
        (haystack_of (lower error.code) (lower error.text))

unfoldable pub classify_call_error : CallError → LlmError
unfolding classify_llm_provider_error
classify_call_error (llm_error e) = e
classify_call_error call_interrupted = interrupted
classify_call_error call_cancelled = cancelled
classify_call_error call_timed_out = timed_out
classify_call_error (raised error) = classify_llm_provider_error error

-- `_RETRYABLE_LLM_ERRORS`
unfoldable pub is_retryable : LlmError → Bool
is_retryable rate_limit = true
is_retryable provider_unavailable = true
is_retryable interrupted = false
is_retryable cancelled = false
is_retryable timed_out = false
is_retryable auth = false
is_retryable insufficient_funds = false
is_retryable context_limit = false
is_retryable content_filtered = false
is_retryable provider_request = false
is_retryable unknown_provider = false
is_retryable client = false
is_retryable image_input = false
is_retryable output_format = false
is_retryable other_llm_error = false

pub data FailureKind : Type 0 where
  failed_kind timed_out_kind cancelled_kind interrupted_kind : FailureKind

pub data Level : Type 0 where
  info warning error : Level

pub record ObservedFailure : Type 0 where
  pub kind : FailureKind
  pub level : Level

-- The level is warning under LLMProviderRequestError.
unfoldable pub observed_llm_failure : LlmError → ObservedFailure
observed_llm_failure interrupted = record { kind = interrupted_kind; level = error }
observed_llm_failure cancelled = record { kind = cancelled_kind; level = error }
observed_llm_failure timed_out = record { kind = timed_out_kind; level = error }
observed_llm_failure auth = record { kind = failed_kind; level = warning }
observed_llm_failure insufficient_funds = record { kind = failed_kind; level = warning }
observed_llm_failure rate_limit = record { kind = failed_kind; level = warning }
observed_llm_failure context_limit = record { kind = failed_kind; level = warning }
observed_llm_failure content_filtered = record { kind = failed_kind; level = warning }
observed_llm_failure provider_request = record { kind = failed_kind; level = warning }
observed_llm_failure provider_unavailable = record { kind = failed_kind; level = error }
observed_llm_failure unknown_provider = record { kind = failed_kind; level = error }
observed_llm_failure client = record { kind = failed_kind; level = error }
observed_llm_failure image_input = record { kind = failed_kind; level = error }
observed_llm_failure output_format = record { kind = failed_kind; level = error }
observed_llm_failure other_llm_error = record { kind = failed_kind; level = error }

-- LLMErrorKind
pub data ErrorKind : Type 0 where
  kind_interrupted kind_cancelled kind_timeout kind_auth kind_insufficient_funds : ErrorKind
  kind_rate_limit kind_context_limit kind_content_filter kind_provider_request : ErrorKind
  kind_provider_unavailable kind_unknown_provider_error : ErrorKind

unfoldable pub error_kind : LlmError → ErrorKind
error_kind interrupted = kind_interrupted
error_kind cancelled = kind_cancelled
error_kind timed_out = kind_timeout
error_kind auth = kind_auth
error_kind insufficient_funds = kind_insufficient_funds
error_kind rate_limit = kind_rate_limit
error_kind context_limit = kind_context_limit
error_kind content_filtered = kind_content_filter
error_kind provider_request = kind_provider_request
error_kind provider_unavailable = kind_provider_unavailable
error_kind unknown_provider = kind_unknown_provider_error
error_kind client = kind_unknown_provider_error
error_kind image_input = kind_unknown_provider_error
error_kind output_format = kind_unknown_provider_error
error_kind other_llm_error = kind_unknown_provider_error
