-- ===== src/Guard/Approval/Outcome.antt =====
-- When the guard allows an operation, and what it does otherwise.
use mathlib.Core.List.{append-nil, append_assoc}
use roboz.Prelude.{
  ℕ, suc, ◌+◌, ◌≡◌, refl, ap, sym, ◌∙◌, ◌⊎◌, inl, inr, true, false, List, Memᴰ, [], ◌∷◌, ◌++◌,
  arith, Bool-cases, length,
}
use roboz.Guard.Policy.{ActionVerdict, deny, allow, GuardStatus, allowed, denied, GuardFileSingle}
use roboz.Guard.Approval.{
  Reply, approves, Exchange, exchange, why_not, reason_of, GuardFilesResult, item_result,
  request_from, denied_result, allowed_result,
}

-- The answers from the n-th prompt on approve every item.
abbrev pub Approved {ℓ} : {A : Type ℓ} → (ℕ → Reply) → ℕ → List A → Type 0
Approved ask n [] = Unit
Approved ask n (item ∷ items) = (approves (ask n) ≡ true) × Approved ask (suc n) items

-- The exchanges of the prompts for the items, the first of them being the n-th.
abbrev pub exchanges_from :
    {V : Type 0} → (ℕ → Reply) → ℕ → List (GuardFileSingle V) → List Exchange
exchanges_from ask n [] = []
exchanges_from ask n (item ∷ items) =
    record { operation = item.operation; location = item.location; answer = ask n }
    ∷ exchanges_from ask (suc n) items

pub verdict_cases : (v : ActionVerdict) → (v ≡ deny) ⊎ (v ≡ allow)
verdict_cases deny = inl refl
verdict_cases allow = inr refl

-- The prompts for items from the count-th on, and the status behind them: every item is approved, or
-- one is not, and then none behind it is asked for.
pub data Prompts {V : Type 0} (ask : ℕ → Reply) (count : ℕ) (pending : List (GuardFileSingle V))
    : GuardStatus → List Exchange → Type 0 where
  all_approved :
      Approved ask count pending
      → Prompts ask count pending allowed (exchanges_from ask count pending)
  refused :
      (before : List (GuardFileSingle V)) (item : GuardFileSingle V)
      (after : List (GuardFileSingle V))
      → pending ≡ before ++ item ∷ after
      → Approved ask count before
      → approves (ask (count + length before)) ≡ false
      → Prompts ask count pending denied (exchanges_from ask count (before ++ item ∷ []))

module _ {V : Type 0} (ask : ℕ → Reply) (items : List (GuardFileSingle V)) where
  abbrev asked : List Exchange → GuardFileSingle V → ℕ → List Exchange
  asked made item count = made ++ exchange item (ask count) ∷ []

  request_from-approved :
      (count : ℕ) (made : List Exchange) (item : GuardFileSingle V)
      (pending : List (GuardFileSingle V))
      → approves (ask count) ≡ true
      → request_from ask items count made (item ∷ pending)
        ≡ request_from ask items (suc count) (asked made item count) pending
  unfolding request_from
  request_from-approved count made item pending said = rw (said, request_from)

  abbrev refusal : List Exchange → GuardFileSingle V → ℕ → GuardFilesResult V × List Exchange
  refusal made item count = (
    denied_result item
        (record { exchanges = asked made item count; diagnostic = why_not (ask count) })
        (reason_of (ask count)),
    asked made item count,
  )

  request_from-declined :
      (count : ℕ) (made : List Exchange) (item : GuardFileSingle V)
      (pending : List (GuardFileSingle V))
      → approves (ask count) ≡ false
      → request_from ask items count made (item ∷ pending) ≡ refusal made item count
  unfolding request_from
  request_from-declined count made item pending declined = rw (declined, request_from)

  pub request_from→Approved :
      (count : ℕ) (made : List Exchange) (pending : List (GuardFileSingle V))
      → (request_from ask items count made pending).0.status ≡ allowed
      → Approved ask count pending
  unfolding request_from denied_result
  request_from→Approved count made [] h = tt
  request_from→Approved count made (item ∷ pending) h =
      ground (arith, request_from→Approved (suc count) (asked made item count) pending)

  -- If every prompt is approved, the result is that of an allowed operation.
  pub Approved→allowed :
      (count : ℕ) (made : List Exchange) (pending : List (GuardFileSingle V))
      → Approved ask count pending
      → (exchanges : List Exchange) × (request_from ask items count made pending
          ≡ (allowed_result items exchanges, exchanges))
  unfolding request_from
  Approved→allowed count made [] h = (made, refl)
  Approved→allowed count made (item ∷ pending) h =
      let (exchanges, e) = Approved→allowed (suc count) (asked made item count) pending h.1 in
      (exchanges, request_from-approved count made item pending h.0 ∙ e)

  -- The result allows all the items, or denies one of them.
  pub request_from-results :
      (count : ℕ) (made : List Exchange) (pending : List (GuardFileSingle V))
      → ((e : List Exchange) × ((request_from ask items count made pending).0
            ≡ allowed_result items e))
        ⊎ ((item : GuardFileSingle V) × Memᴰ item pending
            × ((request_from ask items count made pending).0.status ≡ denied)
            × ((request_from ask items count made pending).0.items ≡ item_result deny item ∷ []))
  unfolding request_from denied_result
  request_from-results count made [] = inl (made, refl)
  request_from-results count made (item ∷ pending) = elim (Bool-cases (approves (ask count))) [
    | inl said ↦ elim (request_from-results (suc count) (asked made item count) pending) [
      | inl (e, all) ↦ inl (e, rw (request_from-approved count made item pending said) all)
      | inr (other, m, d, one) ↦ inr (
        other,
        Memᴰ.tail m,
        rw (request_from-approved count made item pending said) d,
        rw (request_from-approved count made item pending said) one,
      )
    ]
    | inr declined ↦ inr (
      item,
      Memᴰ.head refl,
      rw (request_from-declined count made item pending declined),
      rw (request_from-declined count made item pending declined),
    )
  ]

  Prompts-more :
      {count : ℕ} {item : GuardFileSingle V} {pending : List (GuardFileSingle V)}
      {status : GuardStatus} {exchanges : List Exchange}
      → approves (ask count) ≡ true
      → Prompts ask (suc count) pending status exchanges
      → Prompts ask count (item ∷ pending) status (exchange item (ask count) ∷ exchanges)
  Prompts-more said (all_approved later) = all_approved (said, later)
  Prompts-more {count} {item} said (refused before other after together later declined) =
      let shifted : count + length (item ∷ before) ≡ suc count + length before = omega arith in
      refused (item ∷ before) other after (ap (λ l. item ∷ l) together) (said, later)
        (rw shifted declined)

  -- The exchanges made before come first.
  pub request_from-Prompts :
      (count : ℕ) (made : List Exchange) (pending : List (GuardFileSingle V))
      → (new : List Exchange) × ((request_from ask items count made pending).1 ≡ made ++ new)
        × Prompts ask count pending (request_from ask items count made pending).0.status new
  unfolding request_from allowed_result denied_result
  request_from-Prompts count made [] = ([], sym (append-nil made), all_approved tt)
  request_from-Prompts count made (item ∷ pending) = elim (Bool-cases (approves (ask count))) [
    | inl said ↦
        let (new, is, prompts) = request_from-Prompts (suc count) (asked made item count) pending in
        (
          exchange item (ask count) ∷ new,
          rw (request_from-approved count made item pending said)
              (is ∙ append_assoc made (exchange item (ask count) ∷ []) new),
          rw (request_from-approved count made item pending said) (Prompts-more said prompts),
        )
    | inr declined ↦
        let first : count + length {A = GuardFileSingle V} [] ≡ count = omega arith in
        (
          exchange item (ask count) ∷ [],
          rw (request_from-declined count made item pending declined) refl,
          rw (request_from-declined count made item pending declined)
              (refused [] item pending refl tt (rw first declined)),
        )
  ]
