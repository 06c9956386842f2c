-- ===== src/Dependencies/Causes.antt =====
-- dependencies.py, `_causes`, and llm/_diagnostics.py, `_cause_chain`: the walk along the causes of an
-- exception. Exceptions are known by their ids.
pub mod Seen
pub mod Reached
use roboz.Prelude.{
  ℕ, zero, suc, Bool, true, false, ◌||◌, Option, none, some, List, [], ◌∷◌, ◌==◌, if◌then◌else◌,
}

pub record Exceptions : Type 0 where
  pub cause : ℕ → Option ℕ
  pub context : ℕ → Option ℕ
  pub suppress_context : ℕ → Bool

-- `id(current) in seen`
unfoldable pub has_id : ℕ → List ℕ → Bool
has_id e [] = false
has_id e (known ∷ seen) = e == known || has_id e seen

abbrev pub or_else : Option ℕ → Option ℕ → Option ℕ
or_else (some e) other = some e
or_else none other = other

unfoldable pub next_cause : Exceptions → ℕ → Option ℕ
next_cause exceptions e =
    or_else (exceptions.cause e)
      (if exceptions.suppress_context e then none else exceptions.context e)

-- `current.__cause__ or current.__context__`
unfoldable pub next_linked : Exceptions → ℕ → Option ℕ
next_linked exceptions e = or_else (exceptions.cause e) (exceptions.context e)

abbrev pub prepend : ℕ → Option (List ℕ) → Option (List ℕ)
prepend e none = none
prepend e (some chain) = some (e ∷ chain)

-- The loop, with fuel for its rounds.
unfoldable pub chain_from : ℕ → (ℕ → Option ℕ) → List ℕ → Option ℕ → Option (List ℕ)
unfolding has_id
chain_from zero next seen current = none
chain_from (suc fuel) next seen none = some []
chain_from (suc fuel) next seen (some e) =
    let rest = chain_from fuel next (e ∷ seen) (next e) in
    if has_id e seen then some [] else prepend e rest

unfoldable pub causes : ℕ → Exceptions → ℕ → Option (List ℕ)
unfolding chain_from next_cause
causes fuel exceptions e = chain_from fuel (next_cause exceptions) [] (some e)

unfoldable pub cause_chain : ℕ → Exceptions → ℕ → Option (List ℕ)
unfolding chain_from next_linked
cause_chain fuel exceptions e = chain_from fuel (next_linked exceptions) [] (some e)
