-- ===== src/Dependencies/Causes/Reached.antt =====
-- The causes that the walk finds: those that are reached, each once.
use roboz.Prelude.{
  ℕ, zero, suc, ◌<◌, ◌≡◌, inl, inr, refl, sym, true, false, Option, none, some, List, [], ◌∷◌, ◌==◌,
  arith, All, Bool-cases,
}
use mathlib.Core.Path.{subst}
use mathlib.Core.Option.{some-injective}
use roboz.Dependencies.Causes.{
  Exceptions, has_id, next_cause, next_linked, prepend, chain_from, causes, cause_chain,
}
use roboz.Dependencies.Causes.Seen.{
  unseen, has_id-first, unseen_lt, Covered, nothing, before, within, Covered-shift, Apart,
  true≢false, Apart-first, Apart-later, unseen_none,
}

-- The exceptions that are reached from one.
pub data Reaches (next : ℕ → Option ℕ) (start : ℕ) : ℕ → Type 0 where
  at_start : Reaches next start start
  onward : {e : ℕ} (f : ℕ) → Reaches next start e → next e ≡ some f → Reaches next start f

-- No exception stands twice.
abbrev pub Distinct : List ℕ → Type 0
Distinct [] = Unit {0}
Distinct (e ∷ chain) = (has_id e chain ≡ false) × Distinct chain

module _ (next : ℕ → Option ℕ) where
  -- Each of a chain is the next of the one before it.
  abbrev pub Follows : Option ℕ → List ℕ → Type 0
  Follows current [] = Unit {0}
  Follows current (e ∷ chain) = (current ≡ some e) × Follows (next e) chain

  abbrev Closed : List ℕ → List ℕ → List ℕ → Type 0
  Closed seen chain members = All (λ x. Covered seen chain (next x)) members

  Closed-shift :
      (e : ℕ) (seen chain members : List ℕ)
      → Closed (e ∷ seen) chain members
      → Closed seen (e ∷ chain) members
  Closed-shift e seen chain [] h = tt
  Closed-shift e seen chain (x ∷ members) h =
      (Covered-shift e seen chain (next x) h.0, Closed-shift e seen chain members h.1)

  module _ (start : ℕ) where
    data Walked (seen : List ℕ) (current : Option ℕ) : Option (List ℕ) → Type 0 where
      walked :
          {chain : List ℕ}
          → All (Reaches next start) chain
          → Distinct chain
          → Apart seen chain
          → Closed seen chain chain
          → Covered seen chain current
          → Follows current chain
          → Walked seen current (some chain)

    prepend-Walked :
        (e : ℕ) (seen : List ℕ) (rest : Option (List ℕ))
        → Reaches next start e
        → has_id e seen ≡ false
        → Walked (e ∷ seen) (next e) rest
        → Walked seen (some e) (prepend e rest)
    prepend-Walked e seen (some chain) reached new
          (walked all_reached distinct apart closed covered follows) =
        walked (reached, all_reached) (Apart-first e seen chain apart, distinct)
          (new, Apart-later e seen chain apart)
          (Covered-shift e seen chain (next e) covered, Closed-shift e seen chain chain closed)
          (within (has_id-first e chain)) (refl, follows)
    prepend-Walked e seen none reached new w = elim w [ ]

    abbrev Reached : Option ℕ → Type 0
    Reached current = (e : ℕ) → current ≡ some e → Reaches next start e

    module _ (size : ℕ) (bounded : (e : ℕ) → Reaches next start e → e < size) where
      chain_from-Walked :
          (fuel : ℕ) (seen : List ℕ) (current : Option ℕ)
          → Reached current
          → unseen size seen < fuel
          → Walked seen current (chain_from fuel next seen current)
      unfolding chain_from
      chain_from-Walked zero seen current reached room = absurd (omega arith)
      chain_from-Walked (suc fuel) seen none reached room = walked tt tt tt tt nothing tt
      chain_from-Walked (suc fuel) seen (some e) reached room = elim (Bool-cases (has_id e seen)) [
        | inl repeats ↦ rw repeats (walked tt tt tt tt (before repeats) tt)
        | inr new ↦
            let here = reached e refl in
            let fewer = unseen_lt size e seen (bounded e here) new in
            rw new (
              prepend-Walked e seen (chain_from fuel next (e ∷ seen) (next e)) here new (
                chain_from-Walked fuel (e ∷ seen) (next e) (λ f is. onward f here is)
                  (omega arith)))
      ]

    covered_now : (chain : List ℕ) (f : ℕ) → Covered [] chain (some f) → has_id f chain ≡ true
    unfolding has_id
    covered_now chain f (before h) = absurd (true≢false (sym h))
    covered_now chain f (within h) = h

    closed_at :
        (seen chain members : List ℕ) (f : ℕ)
        → Closed seen chain members
        → has_id f members ≡ true
        → Covered seen chain (next f)
    unfolding has_id
    closed_at seen chain [] f h is = absurd (true≢false (sym is))
    closed_at seen chain (x ∷ members) f h is = elim (Bool-cases (f == x)) [
      | inl same ↦
          let same_id : x ≡ f = ground arith in subst (λ y. Covered seen chain (next y)) same_id h.0
      | inr other ↦ closed_at seen chain members f h.1 (rw other at is)
    ]

    all_within :
        (chain : List ℕ)
        → Closed [] chain chain
        → Covered [] chain (some start)
        → (f : ℕ) → Reaches next start f
        → has_id f chain ≡ true
    all_within chain closed begins f at_start = covered_now chain start begins
    all_within chain closed begins f (onward {e} _ reached is) =
        covered_now chain f
          (rw is at (closed_at [] chain chain e closed (all_within chain closed begins e reached)))

    -- A walk ends with a chain: each the next of the one before, from the start on, and the exceptions
    -- that are reached, each once.
    pub data Found : Option (List ℕ) → Type 0 where
      found :
          {chain : List ℕ}
          → Follows (some start) chain
          → All (Reaches next start) chain
          → ((f : ℕ) → Reaches next start f → has_id f chain ≡ true)
          → Distinct chain
          → Found (some chain)

    Walked-Found : (result : Option (List ℕ)) → Walked [] (some start) result → Found result
    Walked-Found (some chain) (walked reached distinct apart closed covered follows) =
        found follows reached (all_within chain closed covered) distinct
    Walked-Found none w = elim w [ ]

start_reached : (next : ℕ → Option ℕ) (start e : ℕ) → some start ≡ some e → Reaches next start e
start_reached next start e is = subst (Reaches next start) (some-injective start e is) at_start

-- The walk along the causes ends, also where exceptions cause each other in a cycle, with the
-- exceptions that are reached by `__cause__`, or by `__context__` where there is no cause and it is not
-- suppressed: each once, from the given one on. As many rounds as there are exceptions, and one, are
-- enough.
pub causes-Found :
    (exceptions : Exceptions) (e size fuel : ℕ)
    → ((f : ℕ) → Reaches (next_cause exceptions) e f → f < size)
    → size < fuel
    → Found (next_cause exceptions) e (causes fuel exceptions e)
unfolding causes
causes-Found exceptions e size fuel bounded room = Walked-Found (next_cause exceptions) e _ (
    chain_from-Walked (next_cause exceptions) e size bounded fuel [] (some e)
      (start_reached (next_cause exceptions) e) (omega (arith, unseen_none size)))

-- So does the walk along all links, for the test of transport errors.
pub cause_chain-Found :
    (exceptions : Exceptions) (e size fuel : ℕ)
    → ((f : ℕ) → Reaches (next_linked exceptions) e f → f < size)
    → size < fuel
    → Found (next_linked exceptions) e (cause_chain fuel exceptions e)
unfolding cause_chain
cause_chain-Found exceptions e size fuel bounded room = Walked-Found (next_linked exceptions) e _ (
    chain_from-Walked (next_linked exceptions) e size bounded fuel [] (some e)
      (start_reached (next_linked exceptions) e) (omega (arith, unseen_none size)))
