-- ===== src/Dependencies/Causes/Seen.antt =====
-- Ids in lists, and how many are left to be seen.
use roboz.Prelude.{
  ℕ, zero, suc, ◌+◌, ◌≤◌, ◌<◌, ◌≡◌, ◌≢◌, ◌⊎◌, inl, inr, refl, sym, ◌∙◌, true, false, Option, none,
  some, List, [], ◌∷◌, ◌==◌, arith, if◌then◌else◌, All, Bool-cases,
}
use mathlib.Core.Path.{subst}
use roboz.Dependencies.Causes.{has_id}

-- How many of the exceptions below a number have not been seen.
abbrev pub unseen : ℕ → List ℕ → ℕ
unseen zero seen = 0
unseen (suc n) seen = (if has_id n seen then 0 else 1) + unseen n seen

pub has_id-first : (e : ℕ) (seen : List ℕ) → has_id e (e ∷ seen) ≡ true
unfolding has_id
has_id-first e seen = ground arith

pub has_id-later :
    (e known : ℕ) (seen : List ℕ) → has_id e seen ≡ true → has_id e (known ∷ seen) ≡ true
unfolding has_id
has_id-later e known seen h = ground arith

has_id-other : (e known : ℕ) (seen : List ℕ) → e ≢ known → has_id e (known ∷ seen) ≡ has_id e seen
unfolding has_id
has_id-other e known seen h = ground arith

unseen_le : (n e : ℕ) (seen : List ℕ) → unseen n (e ∷ seen) ≤ unseen n seen
unseen_le zero e seen = omega arith
unseen_le (suc n) e seen = elim (Bool-cases (has_id n seen)) [
  | inl is ↦ rw (is, has_id-later n e seen is) (omega (arith, unseen_le n e seen))
  | inr is_not ↦ elim (Bool-cases (has_id n (e ∷ seen))) [
    | inl now ↦ rw (is_not, now) (omega (arith, unseen_le n e seen))
    | inr never ↦ rw (is_not, never) (omega (arith, unseen_le n e seen))
  ]
]

pub unseen_lt :
    (n e : ℕ) (seen : List ℕ) → e < n → has_id e seen ≡ false → unseen n (e ∷ seen) < unseen n seen
unseen_lt zero e seen h new = absurd (omega arith)
unseen_lt (suc n) e seen h new = elim (Bool-cases (e == n)) [
  | inl same ↦
      let is : n ≡ e = ground arith in
      rw (is, new, has_id-first e seen) (omega (arith, unseen_le e e seen))
  | inr other ↦
      let differs : n ≢ e = ground arith in
      rw (has_id-other n e seen differs) (omega (arith, unseen_lt n e seen (ground arith) new))
]

-- What may stand behind a chain, or behind one of it: nothing, or an exception that has been seen.
pub data Covered (seen chain : List ℕ) : Option ℕ → Type 0 where
  nothing : Covered seen chain none
  before : {f : ℕ} → has_id f seen ≡ true → Covered seen chain (some f)
  within : {f : ℕ} → has_id f chain ≡ true → Covered seen chain (some f)

has_id-shift :
    (f e : ℕ) (seen chain : List ℕ)
    → has_id f (e ∷ seen) ≡ true
    → (has_id f seen ≡ true) ⊎ (has_id f (e ∷ chain) ≡ true)
unfolding has_id
has_id-shift f e seen chain h = elim (Bool-cases (f == e)) [
  | inl same ↦ inr (ground arith)
  | inr other ↦ inl (ground arith)
]

pub Covered-shift :
    (e : ℕ) (seen chain : List ℕ) (target : Option ℕ)
    → Covered (e ∷ seen) chain target
    → Covered seen (e ∷ chain) target
Covered-shift e seen chain none nothing = nothing
Covered-shift e seen chain (some f) (within h) = within (has_id-later f e chain h)
Covered-shift e seen chain (some f) (before h) = elim (has_id-shift f e seen chain h) [
  | inl seen_before ↦ before seen_before
  | inr here ↦ within here
]

abbrev pub Apart : List ℕ → List ℕ → Type 0
Apart seen chain = All (λ x. has_id x seen ≡ false) chain

pub true≢false : true ≢ false
true≢false e = cc

pub Apart-first : (e : ℕ) (seen chain : List ℕ) → Apart (e ∷ seen) chain → has_id e chain ≡ false
unfolding has_id
Apart-first e seen [] h = refl
Apart-first e seen (x ∷ chain) h = elim (Bool-cases (e == x)) [
  | inl same ↦
      let is : x ≡ e = ground arith in
      absurd
        (true≢false (sym (has_id-first e seen) ∙ subst (λ y. has_id y (e ∷ seen) ≡ false) is h.0))
  | inr other ↦ rw other (Apart-first e seen chain h.1)
]

pub Apart-later : (e : ℕ) (seen chain : List ℕ) → Apart (e ∷ seen) chain → Apart seen chain
unfolding has_id
Apart-later e seen [] h = tt
Apart-later e seen (x ∷ chain) h = (ground arith, Apart-later e seen chain h.1)

pub unseen_none : (n : ℕ) → unseen n [] ≡ n
unfolding has_id
unseen_none zero = refl
unseen_none (suc n) = omega (arith, unseen_none n)
