-- ===== src/Tests/Dependencies.antt =====
-- Dependencies with a repeated identity, exceptions that cause each other, and the theorems at them.
use roboz.Prelude.{
  ℕ, zero, suc, ◌<◌, ◌==◌, false, Option, if◌then◌else◌, arith, ◌≡◌, refl, none, some, List, [],
  ◌∷◌, map, String, ok, err,
}
use roboz.Dependencies.{Resource, type_error, dedupe_external_dependencies, first_of, Distinct}
use roboz.Dependencies.First.{dedupe_external_dependencies-first}
use mathlib.Core.Option.{some-injective}
use roboz.Prelude.Text.{codes}
use roboz.Dependencies.Causes.{Exceptions, next_cause, causes}
use roboz.Dependencies.Causes.Reached.{Reaches, at_start, onward, Found, causes-Found}
use roboz.Dependencies.Reasons.{Facts, authentication_failed, reason_code_for_exception}
use roboz.Dependencies.Reasons.Innermost.{Reasoned, reason_code_for_exception-Reasoned}

abbrev resources : List (Resource ℕ)
resources =
    record { dependency_id = "executable:git"; body = 1 }
    ∷ record { dependency_id = "executable:zsh"; body = 2 }
    ∷ record { dependency_id = "executable:git"; body = 3 }
    ∷ []

rejects :
    dedupe_external_dependencies {D = ℕ}
      (some (record { dependency_id = "x"; body = 1 }) ∷ none ∷ [])
    ≡ err type_error
unfolding dedupe_external_dependencies roboz.Dependencies.dedupe_from roboz.Dependencies.is_seen
rejects = refl

dedupe_external_dependencies-first_example :
    (unique : List (Resource ℕ)) × (dedupe_external_dependencies (map some resources) ≡ ok unique)
    × ((id : String) → first_of id unique ≡ first_of id resources)
    × Distinct unique
dedupe_external_dependencies-first_example = dedupe_external_dependencies-first resources

-- The first exception is raised from the second, which was raised while the first was handled.
abbrev cause_of : ℕ → Option ℕ
cause_of zero = none
cause_of (suc zero) = some 2
cause_of (suc (suc n)) = none

abbrev context_of : ℕ → Option ℕ
context_of zero = none
context_of (suc zero) = none
context_of (suc (suc n)) = some 1

abbrev exceptions : Exceptions
exceptions = record { cause = cause_of; context = context_of; suppress_context = λ e. false }

next_small : (e f : ℕ) → next_cause exceptions e ≡ some f → f < 3
unfolding next_cause
next_small zero f h = cc
next_small (suc zero) f h = let is : 2 ≡ f = some-injective 2 f h in rw (← is) (omega arith)
next_small (suc (suc n)) f h = let is : 1 ≡ f = some-injective 1 f h in rw (← is) (omega arith)

reached_small : (f : ℕ) → Reaches (next_cause exceptions) 1 f → f < 3
reached_small f at_start = omega arith
reached_small f (onward {e} _ reached is) = next_small e f is

abbrev facts_of : ℕ → Facts
facts_of e = record {
  is_timeout_error = false;
  is_ssl_error = false;
  is_os_error = false;
  is_value_error = false;
  status_code = if e == 2 then some 401 else none;
  response_status_code = none;
  type_name = codes "ProviderError";
  text = codes "denied";
  body_message = none;
}

walks_cycle : causes 4 exceptions 1 ≡ some (1 ∷ 2 ∷ [])
unfolding causes
walks_cycle = refl

inner : reason_code_for_exception facts_of 4 exceptions 1 ≡ some authentication_failed
unfolding reason_code_for_exception
inner = refl

-- Each of the two exceptions is found once.
causes-Found_example : Found (next_cause exceptions) 1 (causes 4 exceptions 1)
causes-Found_example = causes-Found exceptions 1 3 4 reached_small (omega arith)

-- The status of the inner exception decides.
reason_code_for_exception-Reasoned_example :
    Reasoned facts_of (next_cause exceptions) 1 (reason_code_for_exception facts_of 4 exceptions 1)
reason_code_for_exception-Reasoned_example =
    reason_code_for_exception-Reasoned facts_of exceptions 1 3 4 reached_small (omega arith)
