-- ===== src/Dependencies/Reasons.antt =====
-- dependencies.py: the reason code of an exception, the failure that a check reports, and
-- `check_dependency` of shed/dependency_health.py.
pub mod Innermost
use roboz.Prelude.{
  ℕ, zero, suc, Bool, true, false, ◌||◌, ◌&&◌, Option, none, some, List, [], ◌∷◌, ◌++◌, ◌==◌, map,
  if◌then◌else◌,
}
use roboz.Prelude.Text.{Text, codes, contains, starts_with, lower, join, decimal, strip_right}
use roboz.Dependencies.Causes.{Exceptions, causes, or_else}
use mathlib.Core.List.{reverse}

-- DependencyReasonCode
pub data ReasonCode : Type 0 where
  not_found missing_credentials authentication_failed connection_failed tls_failed : ReasonCode
  timeout protocol_error model_unavailable check_failed : ReasonCode

-- What is asked of an exception: its classes, its attributes, and its texts.
pub record Facts : Type 0 where
  pub is_timeout_error : Bool
  pub is_ssl_error : Bool
  -- ConnectionError or OSError
  pub is_os_error : Bool
  -- TypeError, ValueError or AttributeError
  pub is_value_error : Bool
  pub status_code : Option ℕ
  pub response_status_code : Option ℕ
  pub type_name : Text
  pub text : Text
  -- the diagnostic message of a body, where the body has an error
  pub body_message : Option Text

abbrev pub is_denied : Option ℕ → Bool
is_denied none = false
is_denied (some status) = status == 401 || status == 403

unfoldable pub lacks_credentials : Text → Bool
lacks_credentials message =
    (starts_with (codes "set ") message && contains (codes "api_key") message)
    || contains (codes "not found in environment") message
    || contains (codes "not configured") message
    || (contains (codes "missing") message
        && (contains (codes "key") message || contains (codes "credential") message))

unfoldable pub denies : Text → Text → Bool
denies name message =
    contains (codes "authentication") name
    || contains (codes "auth") name
    || contains (codes "authentication") message
    || contains (codes "credentials") message

-- The tests of the name and the message, in lower case.
unfoldable pub reason_of_texts : Facts → Text → Text → ReasonCode
unfolding lacks_credentials denies
reason_of_texts facts name message =
    if contains (codes "timeout") name || contains (codes "timed out") message
    then timeout
    else if contains (codes "ssl") name
        || contains (codes "tls") name
        || contains (codes "certificate") message
    then tls_failed
    else if lacks_credentials message
    then missing_credentials
    else if denies name message
    then authentication_failed
    else if facts.is_os_error || contains (codes "connection") name
    then connection_failed
    else if facts.is_value_error
    then protocol_error
    else check_failed

-- `_reason_code`
unfoldable pub reason_code : Facts → ReasonCode
unfolding reason_of_texts
reason_code facts =
    if facts.is_timeout_error
    then timeout
    else if facts.is_ssl_error
    then tls_failed
    else if is_denied (or_else facts.status_code facts.response_status_code)
    then authentication_failed
    else reason_of_texts facts (lower facts.type_name) (lower facts.text)

abbrev pub is_check_failed : ReasonCode → Bool
is_check_failed check_failed = true
is_check_failed not_found = false
is_check_failed missing_credentials = false
is_check_failed authentication_failed = false
is_check_failed connection_failed = false
is_check_failed tls_failed = false
is_check_failed timeout = false
is_check_failed protocol_error = false
is_check_failed model_unavailable = false

-- `f"{type(error).__name__}{status_text}: {text}".rstrip(": ")`
abbrev pub status_text : Option ℕ → Text
status_text none = []
status_text (some status) = codes " (HTTP " ++ (decimal status ++ codes ")")

abbrev pub message_text : Option Text → Text → Text
message_text (some message) text = message
message_text none text = text

unfoldable pub exception_message : Facts → Text
exception_message facts =
    strip_right (λ c. c == 58 || c == 32)
      (facts.type_name
        ++ (status_text facts.status_code
            ++ (codes ": " ++ message_text facts.body_message facts.text)))

pub record DependencyFailure : Type 0 where
  pub reason_code : ReasonCode
  pub message : Text

-- A check returns None or a failure, or another value, or raises the exception of an id.
pub data Checked : Type 0 where
  available : Checked
  reported : DependencyFailure → Checked
  other_value : Checked
  raised : ℕ → Checked

module _ (facts : ℕ → Facts) where
  -- The first code that is no CHECK_FAILED.
  unfoldable pub first_reason : List ℕ → ReasonCode
  unfolding reason_code
  first_reason [] = check_failed
  first_reason (cause ∷ reversed) =
      let rest = first_reason reversed in
      if is_check_failed (reason_code (facts cause)) then rest else reason_code (facts cause)

  unfoldable pub reason_code_of_chain : List ℕ → ReasonCode
  unfolding first_reason
  reason_code_of_chain chain = first_reason (reverse chain)

  module _ (fuel : ℕ) (exceptions : Exceptions) where
    abbrev pub with_chain : {A : Type 0} → (List ℕ → A) → Option (List ℕ) → Option A
    with_chain f none = none
    with_chain f (some chain) = some (f chain)

    unfoldable pub reason_code_for_exception : ℕ → Option ReasonCode
    unfolding reason_code_of_chain causes
    reason_code_for_exception e = with_chain reason_code_of_chain (causes fuel exceptions e)

    -- `DependencyFailure.from_exception`, with `redact_dependency_message`
    unfoldable pub from_exception : (Text → Text) → ℕ → Option DependencyFailure
    unfolding reason_code_of_chain exception_message causes
    from_exception redact e =
        with_chain
          (λ chain. record {
            reason_code = reason_code_of_chain chain;
            message = redact (
                join (codes "\nCaused by: ")
                  (map (λ cause. exception_message (facts cause)) chain));
          })
          (causes fuel exceptions e)

    abbrev pub failed : Option DependencyFailure → Option (Option DependencyFailure)
    failed none = none
    failed (some failure) = some (some failure)

    -- `check_dependency`, with the id of the TypeError that it raises for another value. The result is
    -- none when the fuel ran out.
    unfoldable pub check_dependency :
        (Text → Text) → ℕ → Checked → Option (Option DependencyFailure)
    unfolding from_exception
    check_dependency redact type_error available = some none
    check_dependency redact type_error (reported failure) = some (some failure)
    check_dependency redact type_error other_value = failed (from_exception redact type_error)
    check_dependency redact type_error (raised e) = failed (from_exception redact e)
