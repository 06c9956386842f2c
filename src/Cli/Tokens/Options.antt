-- ===== src/Cli/Tokens/Options.antt =====
-- Lists of options and of operand indices, as the validation builds them.
use roboz.Prelude.{
  ℕ, zero, suc, ◌+◌, ◌-◌, ◌≤◌, String, str_eq, eq_iff, ◌≡◌, refl, ◌⊎◌, inl, inr, true, false,
  Option, none, some, List, [], ◌∷◌, ◌++◌, Result, ok, arith, range_from, range_from-snoc,
}
use roboz.Cli.Contracts.{TokenTag}
use roboz.Cli.Tokens.{TokenError, has_option, Progress, is_empty}

-- No name stands twice.
abbrev pub Distinct : List (String × ℕ) → Type 0
Distinct [] = Unit
Distinct ((name, index) ∷ options) = (has_option name options ≡ false) × Distinct options

has_option-snoc :
    (key name : String) (index : ℕ) (options : List (String × ℕ))
    → has_option key options ≡ false
    → str_eq name key ≡ false
    → has_option key (options ++ (name, index) ∷ []) ≡ false
unfolding has_option
has_option-snoc key name index [] h k = ground arith
has_option-snoc key name index ((other, j) ∷ options) h k =
    ground (arith, has_option-snoc key name index options)

pub Distinct-snoc :
    (name : String) (index : ℕ) (options : List (String × ℕ))
    → has_option name options ≡ false
    → Distinct options
    → Distinct (options ++ (name, index) ∷ [])
unfolding has_option
Distinct-snoc name index [] h d = (refl, tt)
Distinct-snoc name index ((other, j) ∷ options) h d = (
  has_option-snoc other name index options d.0
      (ground (arith, eq_iff other name, eq_iff name other)),
  Distinct-snoc name index options (ground arith) d.1,
)

pub operands_snoc :
    (start index : ℕ)
    → start ≤ index
    → (operands : List ℕ) → operands ≡ range_from start (index - start)
    → operands ++ index ∷ [] ≡ range_from start (suc index - start)
operands_snoc start index h operands e =
    let last : start + (index - start) ≡ index = omega arith in
    let count : suc index - start ≡ suc (index - start) = omega arith in
    rw count (cc (e, last, range_from-snoc start (index - start)))

pub is_empty→nil : (l : List ℕ) → is_empty l ≡ true → l ≡ []
is_empty→nil [] h = refl
is_empty→nil (x ∷ l) h = cc

range_from-nil : (start count : ℕ) → is_empty (range_from start count) ≡ true → count ≡ 0
range_from-nil start zero h = refl
range_from-nil start (suc count) h = cc

pub range_from_self : (start : ℕ) → range_from start (start - start) ≡ []
range_from_self start = let none_left : start - start ≡ 0 = omega arith in rw none_left

pub continue_cases :
    (takes : Option TokenTag) (operand : Result TokenError Progress)
    (option : TokenTag → Result TokenError Progress) {q : Progress}
    → (elim takes as (λ _. Result TokenError Progress) [ none ↦ operand | some t ↦ option t ])
      ≡ ok q
    → ((takes ≡ none) × (operand ≡ ok q)) ⊎ ((t : TokenTag) × (takes ≡ some t) × (option t ≡ ok q))
continue_cases none operand option h = inl (refl, h)
continue_cases (some t) operand option h = inr (t, refl, h)
