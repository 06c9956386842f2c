-- ===== src/Cli/Transfers/Keys.antt =====
-- Operations as keys: equal keys, and the keys that are taken.
use roboz.Prelude.{
  str_eq, eq_iff, ◌≡◌, ◌⊎◌, inl, inr, refl, sym, Bool, true, false, ◌&&◌, ◌||◌, List, [], ◌∷◌,
  Bool-cases,
}
use roboz.Guard.Policy.{Operation, read, create, delete, stage, operation_eq}
use roboz.Cli.Transfers.{Location, location_eq, has_operation, from_keys}

and-true : (a b : Bool) → (a && b) ≡ true → (a ≡ true) × (b ≡ true)
and-true true b h = (refl, h)
and-true false b h = cc

or-right : (a b : Bool) → b ≡ true → (a || b) ≡ true
or-right true b h = refl
or-right false b h = h

or-left : (a b : Bool) → a ≡ true → (a || b) ≡ true
or-left true b h = refl
or-left false b h = cc

location_eq-true : (l r : Location) → location_eq l r ≡ true → l ≡ r
unfolding location_eq
location_eq-true [] [] h = refl
location_eq-true [] (r ∷ right) h = cc
location_eq-true (l ∷ left) [] h = cc
location_eq-true (l ∷ left) (r ∷ right) h =
    let (first, rest) = and-true (str_eq l r) (location_eq left right) h in
    let same : l ≡ r = (eq_iff l r).0 first in
    let others : left ≡ right = location_eq-true left right rest in cc

operation_eq-true : (o p : Operation) → operation_eq o p ≡ true → o ≡ p
unfolding operation_eq
operation_eq-true read read h = refl
operation_eq-true create create h = refl
operation_eq-true delete delete h = refl
operation_eq-true stage stage h = refl
operation_eq-true o p h = cc

abbrev pub Required : Type 0
Required = Operation × Location

abbrev same_operation : Required → Required → Bool
same_operation o other = operation_eq o.0 other.0 && location_eq o.1 other.1

same_operation-true : (o other : Required) → same_operation o other ≡ true → o ≡ other
same_operation-true (operation, l) (other_operation, r) h =
    let (first, second) = and-true (operation_eq operation other_operation) (location_eq l r) h in
    let same : operation ≡ other_operation = operation_eq-true operation other_operation first in
    let here : l ≡ r = location_eq-true l r second in cc

or-cases : (a b : Bool) → (a || b) ≡ true → (a ≡ true) ⊎ (b ≡ true)
or-cases true b h = inl refl
or-cases false b h = inr h

-- A key stands among the keys so far, or among those that are taken.
pub from_keys-has :
    (o : Required) (seen operations : List Required)
    → has_operation o operations ≡ true
    → (has_operation o seen ≡ true) ⊎ (has_operation o (from_keys seen operations) ≡ true)
unfolding has_operation from_keys
from_keys-has o seen [] h = inr h
from_keys-has o seen (x ∷ operations) h = elim (Bool-cases (has_operation x seen)) [
  | inl known ↦ rw known (elim (or-cases (same_operation o x) (has_operation o operations) h) [
    | inl same ↦ inl (rw (sym (same_operation-true o x same)) at known)
    | inr later ↦ elim (from_keys-has o (x ∷ seen) operations later) [
      | inr taken ↦ inr taken
      | inl before ↦ elim (or-cases (same_operation o x) (has_operation o seen) before) [
        | inl same ↦ inl (rw (sym (same_operation-true o x same)) at known)
        | inr seen_before ↦ inl seen_before
      ]
    ]
  ])
  | inr new ↦ rw new (elim (or-cases (same_operation o x) (has_operation o operations) h) [
    | inl same ↦ inr (or-left (same_operation o x) _ same)
    | inr later ↦ elim (from_keys-has o (x ∷ seen) operations later) [
      | inr taken ↦ inr (or-right (same_operation o x) _ taken)
      | inl before ↦ elim (or-cases (same_operation o x) (has_operation o seen) before) [
        | inl same ↦ inr (or-left (same_operation o x) _ same)
        | inr seen_before ↦ inl seen_before
      ]
    ]
  ])
]

location_eq_refl : (l : Location) → location_eq l l ≡ true
unfolding location_eq
location_eq_refl [] = refl
location_eq_refl (part ∷ parts) = rw ((eq_iff part part).1 refl) (location_eq_refl parts)

operation_eq_refl : (o : Operation) → operation_eq o o ≡ true
unfolding operation_eq
operation_eq_refl read = refl
operation_eq_refl create = refl
operation_eq_refl delete = refl
operation_eq_refl stage = refl

pub has_operation-first :
    (o : Required) (operations : List Required) → has_operation o (o ∷ operations) ≡ true
unfolding has_operation
has_operation-first (operation, l) operations =
    rw (operation_eq_refl operation, location_eq_refl l) refl

pub has_operation-later :
    (o other : Required) (operations : List Required)
    → has_operation o operations ≡ true
    → has_operation o (other ∷ operations) ≡ true
unfolding has_operation
has_operation-later o other operations h = or-right (same_operation o other) _ h
