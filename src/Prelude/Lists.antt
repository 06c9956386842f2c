-- ===== src/Prelude/Lists.antt =====
-- Lists measured and indexed by native numbers, under the library's names.
use Prim.Native.Nat.{ℕ, zero, suc, ◌+◌, ◌-◌, min}
use mathlib.Core.Logic.{◌⊎◌, inl, inr}
use mathlib.Core.Path.{sym, subst}
use mathlib.Core.Logic.{◌⊎◌, inl, inr}
use mathlib.Core.Path.{◌≡◌, refl, ap}
use mathlib.Core.List.{Memᴰ, map, List, [], ◌∷◌, ◌++◌}
use mathlib.Core.Option.{Option, none, some}
use native.Mathlib.Omega.{arith}

module _ {ℓ} {A : Type ℓ} where
  abbrev pub length : List A → ℕ
  length [] = 0
  length (x ∷ xs) = suc (length xs)

  abbrev pub take : ℕ → List A → List A
  take zero xs = []
  take (suc n) [] = []
  take (suc n) (x ∷ xs) = x ∷ take n xs

  abbrev pub drop : ℕ → List A → List A
  drop zero xs = xs
  drop (suc n) [] = []
  drop (suc n) (x ∷ xs) = drop n xs

  abbrev pub All {κ} : (A → Type κ) → List A → Type κ
  All P [] = Unit
  All P (x ∷ xs) = P x × All P xs

  pub length-append : (xs ys : List A) → length (xs ++ ys) ≡ length xs + length ys
  length-append [] ys = omega arith
  length-append (x ∷ xs) ys = omega (arith, length-append xs ys)

  pub length-take : (n : ℕ) (xs : List A) → length (take n xs) ≡ min n (length xs)
  length-take zero xs = omega arith
  length-take (suc n) [] = omega arith
  length-take (suc n) (x ∷ xs) = omega (arith, length-take n xs)

  pub length-drop : (n : ℕ) (xs : List A) → length (drop n xs) ≡ length xs - n
  length-drop zero xs = omega arith
  length-drop (suc n) [] = omega arith
  length-drop (suc n) (x ∷ xs) = omega (arith, length-drop n xs)

module _ {ℓ} {A : Type ℓ} where
  abbrev pub get_elem? : List A → ℕ → Option A
  get_elem? [] i = none
  get_elem? (x ∷ xs) zero = some x
  get_elem? (x ∷ xs) (suc i) = get_elem? xs i

  pub get_elem?-of_drop :
      (i : ℕ) (xs ys : List A) {y : A} → drop i xs ≡ y ∷ ys → get_elem? xs i ≡ some y
  get_elem?-of_drop zero [] ys h = cc
  get_elem?-of_drop zero (x ∷ xs) ys h = cc
  get_elem?-of_drop (suc i) [] ys h = cc
  get_elem?-of_drop (suc i) (x ∷ xs) ys h = get_elem?-of_drop i xs ys h

  pub drop-suc_of_drop :
      (i : ℕ) (xs ys : List A) {y : A} → drop i xs ≡ y ∷ ys → drop (suc i) xs ≡ ys
  drop-suc_of_drop zero [] ys h = cc
  drop-suc_of_drop zero (x ∷ xs) ys h = cc
  drop-suc_of_drop (suc i) [] ys h = cc
  drop-suc_of_drop (suc i) (x ∷ xs) ys h = drop-suc_of_drop i xs ys h

  pub All-map {κ μ} :
      (P : A → Type κ) (Q : A → Type μ) (xs : List A) → ((x : A) → P x → Q x) → All P xs → All Q xs
  All-map P Q [] f h = tt
  All-map P Q (x ∷ xs) f h = (f x h.0, All-map P Q xs f h.1)

  pub All-append {κ} : (P : A → Type κ) (xs ys : List A) → All P xs → All P ys → All P (xs ++ ys)
  All-append P [] ys h k = k
  All-append P (x ∷ xs) ys h k = (h.0, All-append P xs ys h.1 k)

-- The numbers from `start` on, `count` of them.
abbrev pub range_from : ℕ → ℕ → List ℕ
range_from start zero = []
range_from start (suc count) = start ∷ range_from (suc start) count

pub range_from-snoc :
    (start count : ℕ)
    → range_from start count ++ (start + count) ∷ [] ≡ range_from start (suc count)
range_from-snoc start zero = ground arith
range_from-snoc start (suc count) = ground (arith, range_from-snoc (suc start) count)

pub All-mem {ℓ κ} : {A : Type ℓ} (P : A → Type κ) (xs : List A) {x : A} → All P xs → Memᴰ x xs → P x
All-mem P [] h m = elim m [ ]
All-mem P (y ∷ ys) h (Memᴰ.head e) = subst P (sym e) h.0
All-mem P (y ∷ ys) h (Memᴰ.tail m) = All-mem P ys h.1 m

module _ {ℓ} {A : Type ℓ} where
  pub mem_of_left : {x : A} (xs ys : List A) → Memᴰ x xs → Memᴰ x (xs ++ ys)
  mem_of_left [] ys m = elim m [ ]
  mem_of_left (y ∷ xs) ys (Memᴰ.head same) = Memᴰ.head same
  mem_of_left (y ∷ xs) ys (Memᴰ.tail m) = Memᴰ.tail (mem_of_left xs ys m)

  pub mem_of_right : {x : A} (xs ys : List A) → Memᴰ x ys → Memᴰ x (xs ++ ys)
  mem_of_right [] ys m = m
  mem_of_right (y ∷ xs) ys m = Memᴰ.tail (mem_of_right xs ys m)

  pub mem_of_append : {x : A} (xs ys : List A) → Memᴰ x (xs ++ ys) → Memᴰ x xs ⊎ Memᴰ x ys
  mem_of_append [] ys m = inr m
  mem_of_append (y ∷ xs) ys (Memᴰ.head same) = inl (Memᴰ.head same)
  mem_of_append (y ∷ xs) ys (Memᴰ.tail m) = elim (mem_of_append xs ys m) [
    | inl left ↦ inl (Memᴰ.tail left)
    | inr right ↦ inr right
  ]

  pub append_nil : (xs : List A) → xs ++ [] ≡ xs
  append_nil [] = refl
  append_nil (x ∷ xs) = ap (λ l. x ∷ l) (append_nil xs)

  pub append_assoc : (xs ys zs : List A) → (xs ++ ys) ++ zs ≡ xs ++ (ys ++ zs)
  append_assoc [] ys zs = refl
  append_assoc (x ∷ xs) ys zs = ap (λ l. x ∷ l) (append_assoc xs ys zs)

pub map-append {ℓ κ} :
    {A : Type ℓ} {B : Type κ} (f : A → B) (xs ys : List A) → map f (xs ++ ys) ≡ map f xs ++ map f ys
map-append f [] ys = refl
map-append f (x ∷ xs) ys = ap (λ l. f x ∷ l) (map-append f xs ys)

pub range_from-append :
    (start m n : ℕ) → range_from start (m + n) ≡ range_from start m ++ range_from (start + m) n
range_from-append start zero n =
    let none_left : 0 + n ≡ n = omega arith in
    let here : start + 0 ≡ start = omega arith in rw (none_left, here) refl
range_from-append start (suc m) n =
    let count : suc m + n ≡ suc (m + n) = omega arith in
    let next : start + suc m ≡ suc start + m = omega arith in
    rw (count, next) (ap (λ l. start ∷ l) (range_from-append (suc start) m n))
