-- ===== src/Scripts/Frames/Cut.antt =====
-- Where the first newline of the bytes read stands, when a line and its newline are on the way.
use roboz.Prelude.{
  ℕ, suc, ◌≤◌, ◌≡◌, refl, ap, false, none, some, List, [], ◌∷◌, ◌++◌, arith, ◌==◌, length, take,
  drop, Bool-cases, Option-cases, ◌⊎◌, inl, inr,
}
use roboz.Scripts.Frames.{find_newline}

-- A frame begins with a line, and its newline is the first one.
find-some :
    (c : ℕ) (rest : List ℕ) {i : ℕ}
    → find_newline (c ∷ rest) ≡ some i
    → ((c ≡ b'\n') × (i ≡ 0))
      ⊎ ((c == b'\n' ≡ false) × (j : ℕ) × (find_newline rest ≡ some j) × (i ≡ suc j))
unfolding find_newline
find-some c rest h = elim (Bool-cases (c == b'\n')) [
  | inl is ↦ inl (ground arith, ground arith)
  | inr other ↦ elim (Option-cases (find_newline rest)) [
    | inl gone ↦ absurd (ground arith)
    | inr (j, found) ↦ inr (other, j, found, ground arith)
  ]
]

find-none :
    (c : ℕ) (rest : List ℕ)
    → find_newline (c ∷ rest) ≡ none
    → (c == b'\n' ≡ false) × (find_newline rest ≡ none)
unfolding find_newline
find-none c rest h = elim (Option-cases (find_newline rest)) [
  | inl gone ↦ (ground arith, gone)
  | inr (j, found) ↦ absurd (ground arith)
]

-- Where the newline is found, the line stands before it.
pub cut-line :
    (pending bytes line rest : List ℕ) (i : ℕ)
    → find_newline line ≡ none
    → pending ++ bytes ≡ line ++ b'\n' ∷ rest
    → find_newline pending ≡ some i
    → (take i pending ≡ line) × (drop (suc i) pending ++ bytes ≡ rest) × (i ≡ length line)
cut-line [] bytes line rest i plain h found = absurd (unfold find_newline in cc)
cut-line (c ∷ pending) bytes [] rest i plain h found = elim (find-some c pending found) [
  | inl (is, first) ↦ rw first (refl, cc, refl)
  | inr (other, j, later, next) ↦ absurd (ground arith)
]
cut-line (c ∷ pending) bytes (d ∷ line) rest i plain h found = elim (find-some c pending found) [
  | inl (is, first) ↦ let same : c ≡ d = cc in absurd (ground (arith, find-none d line plain))
  | inr (other, j, later, next) ↦
      let (same, left, size) =
        cut-line pending bytes line rest j (find-none d line plain).1 (cc) later in
      rw next let same_head : c ≡ d = cc in (rw (same_head, same) refl, left, ap suc size)
]

-- Where none is found, a part of the line is missing.
pub no_cut-lt :
    (pending bytes line rest : List ℕ)
    → pending ++ bytes ≡ line ++ b'\n' ∷ rest
    → find_newline pending ≡ none
    → length pending ≤ length line
no_cut-lt [] bytes line rest h gone = omega arith
no_cut-lt (c ∷ pending) bytes [] rest h gone =
    let is : c ≡ b'\n' = cc in absurd (ground (arith, find-none c pending gone))
no_cut-lt (c ∷ pending) bytes (d ∷ line) rest h gone =
    omega (arith, no_cut-lt pending bytes line rest (cc) (find-none c pending gone).1)

pub nil_of_append : (xs ys : List ℕ) → xs ++ ys ≡ [] → xs ≡ []
nil_of_append [] ys h = refl
nil_of_append (x ∷ xs) ys h = absurd (cc)
