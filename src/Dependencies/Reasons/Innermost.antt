-- ===== src/Dependencies/Reasons/Innermost.antt =====
-- The reason code of an exception is that of its innermost cause that has one.
use roboz.Prelude.{
  ℕ, ◌<◌, ◌≡◌, refl, sym, ap, ◌∙◌, true, false, Option, none, some, List, [], ◌∷◌, ◌++◌, All,
  All-append, append_assoc, Bool-cases, inl, inr,
}
use mathlib.Core.List.{reverse, reverse-cons, reverse-append, reverse-reverse}
use roboz.Dependencies.Causes.{Exceptions, next_cause, causes}
use roboz.Dependencies.Causes.Reached.{Reaches, Follows, Distinct, Found, found, causes-Found}
use roboz.Dependencies.Reasons.{
  ReasonCode, check_failed, not_found, missing_credentials, authentication_failed,
  connection_failed, tls_failed, timeout, protocol_error, model_unavailable, is_check_failed, Facts,
  reason_code, first_reason, reason_code_of_chain, with_chain, reason_code_for_exception,
}

is_check_failed-true : (code : ReasonCode) → is_check_failed code ≡ true → code ≡ check_failed
is_check_failed-true check_failed h = refl
is_check_failed-true not_found h = cc
is_check_failed-true missing_credentials h = cc
is_check_failed-true authentication_failed h = cc
is_check_failed-true connection_failed h = cc
is_check_failed-true tls_failed h = cc
is_check_failed-true timeout h = cc
is_check_failed-true protocol_error h = cc
is_check_failed-true model_unavailable h = cc

module _ (facts : ℕ → Facts) where
  abbrev pub Unclassified : ℕ → Type 0
  Unclassified cause = reason_code (facts cause) ≡ check_failed

  -- The code of a chain of causes: that of the last one which is classified.
  pub data Classified (chain : List ℕ) : ReasonCode → Type 0 where
    none_is : All Unclassified chain → Classified chain check_failed
    innermost :
        (outer : List ℕ) (cause : ℕ) (inner : List ℕ)
        → chain ≡ outer ++ cause ∷ inner
        → All Unclassified inner
        → is_check_failed (reason_code (facts cause)) ≡ false
        → Classified chain (reason_code (facts cause))

  data First (causes : List ℕ) : ReasonCode → Type 0 where
    none_first : All Unclassified causes → First causes check_failed
    first :
        (before : List ℕ) (cause : ℕ) (rest : List ℕ)
        → causes ≡ before ++ cause ∷ rest
        → All Unclassified before
        → is_check_failed (reason_code (facts cause)) ≡ false
        → First causes (reason_code (facts cause))

  First-later :
      (cause : ℕ) (causes : List ℕ) {code : ReasonCode}
      → Unclassified cause
      → First causes code
      → First (cause ∷ causes) code
  First-later cause causes un (none_first all) = none_first (un, all)
  First-later cause causes un (first before found_cause rest is all classified) =
      first (cause ∷ before) found_cause rest (ap (λ l. cause ∷ l) is) (un, all) classified

  first_reason-First : (causes : List ℕ) → First causes (first_reason facts causes)
  unfolding first_reason
  first_reason-First [] = none_first tt
  first_reason-First (cause ∷ causes) =
      elim (Bool-cases (is_check_failed (reason_code (facts cause)))) [
        | inl un ↦ rw un (
            First-later cause causes (is_check_failed-true (reason_code (facts cause)) un)
              (first_reason-First causes))
        | inr classified ↦ rw classified (first [] cause causes refl tt classified)
      ]

  All-reverse : (causes : List ℕ) → All Unclassified causes → All Unclassified (reverse causes)
  All-reverse [] h = tt
  All-reverse (cause ∷ causes) h =
      rw (reverse-cons cause causes)
        (All-append Unclassified (reverse causes) (cause ∷ []) (All-reverse causes h.1) (h.0, tt))

  turned :
      (chain before : List ℕ) (cause : ℕ) (rest : List ℕ)
      → reverse chain ≡ before ++ cause ∷ rest
      → chain ≡ reverse rest ++ cause ∷ reverse before
  turned chain before cause rest is =
      sym (reverse-reverse chain)
      ∙ (ap reverse is
          ∙ (reverse-append before (cause ∷ rest)
              ∙ (ap (λ l. l ++ reverse before) (reverse-cons cause rest)
                  ∙ append_assoc (reverse rest) (cause ∷ []) (reverse before))))

  First-Classified :
      (chain : List ℕ) {code : ReasonCode} → First (reverse chain) code → Classified chain code
  First-Classified chain (none_first all) =
      none_is (rw (reverse-reverse chain) at (All-reverse (reverse chain) all))
  First-Classified chain (first before cause rest is all classified) =
      innermost (reverse rest) cause (reverse before) (turned chain before cause rest is)
        (All-reverse before all) classified

  -- The code of an exception, whose causes are a chain.
  pub data Reasoned (next : ℕ → Option ℕ) (e : ℕ) : Option ReasonCode → Type 0 where
    reasoned :
        {code : ReasonCode} (chain : List ℕ)
        → Follows next (some e) chain
        → All (Reaches next e) chain
        → Distinct chain
        → Classified chain code
        → Reasoned next e (some code)

  Found-Reasoned :
      (next : ℕ → Option ℕ) (e fuel : ℕ) (exceptions : Exceptions) (result : Option (List ℕ))
      → Found next e result
      → Reasoned next e (with_chain facts fuel exceptions (reason_code_of_chain facts) result)
  unfolding reason_code_of_chain
  Found-Reasoned next e fuel exceptions (some chain) (found follows reached complete distinct) =
      reasoned chain follows reached distinct
        (First-Classified chain (first_reason-First (reverse chain)))
  Found-Reasoned next e fuel exceptions none f = elim f [ ]

  -- Every exception gets a reason code: that of the innermost of its causes which is classified, and
  -- CHECK_FAILED when none is. The causes are a chain without repetition, so a cycle among them does
  -- not matter. As much fuel as there are exceptions, and one, is enough.
  pub reason_code_for_exception-Reasoned :
      (exceptions : Exceptions) (e size fuel : ℕ)
      → ((f : ℕ) → Reaches (next_cause exceptions) e f → f < size)
      → size < fuel
      → Reasoned (next_cause exceptions) e (reason_code_for_exception facts fuel exceptions e)
  unfolding reason_code_for_exception
  reason_code_for_exception-Reasoned exceptions e size fuel bounded room =
      Found-Reasoned (next_cause exceptions) e fuel exceptions _
        (causes-Found exceptions e size fuel bounded room)
