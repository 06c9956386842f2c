-- ===== src/Prelude/Text.antt =====
-- Text as the list of its code points, with the operations of Python's `str` that the sources use.
use Prim.Native.Nat.{ℕ, zero, suc, ◌≤◌, ◌+◌, ◌-◌, ◌/◌, ◌%◌, ◌<◌}
use Prim.Native.Char.{code}
use Prim.Native.String.{String}
use mathlib.Core.Path.{◌≡◌, refl}
use mathlib.Core.Bool.{Bool, true, false, ◌&&◌, ◌||◌}
use mathlib.Core.List.{List, [], ◌∷◌, ◌++◌, map, reverse}
use native.Mathlib.Omega.{arith}
use mathlib.Core.Logic.{inl, inr}
use roboz.Prelude.Tests.{Bool-cases, leb, ltb, ◌==◌, if◌then◌else◌}
use roboz.Prelude.Lists.{length, take}

abbrev pub Text : Type 0
Text = List ℕ

-- The code points of a literal. `String` has its own `[]` and `∷`.
abbrev pub codes : String → Text
codes String.[] = []
codes (String.◌∷◌ c s) = code c ∷ codes s

unfoldable pub text_eq : Text → Text → Bool
text_eq [] [] = true
text_eq [] (y ∷ ys) = false
text_eq (x ∷ xs) [] = false
text_eq (x ∷ xs) (y ∷ ys) = x == y && text_eq xs ys

unfoldable pub starts_with : Text → Text → Bool
starts_with [] text = true
starts_with (x ∷ xs) [] = false
starts_with (x ∷ xs) (y ∷ ys) = x == y && starts_with xs ys

-- `needle in haystack`
unfoldable pub contains : Text → Text → Bool
unfolding starts_with
contains needle [] = starts_with needle []
contains needle (c ∷ haystack) = starts_with needle (c ∷ haystack) || contains needle haystack

-- `text.endswith(suffix)`
unfoldable pub ends_with : Text → Text → Bool
unfolding starts_with
ends_with suffix text = starts_with (reverse suffix) (reverse text)

-- `text[:-n]` for a positive n
unfoldable pub without_last : ℕ → Text → Text
without_last n text = take (length text - n) text

-- What `str.strip` removes.
unfoldable pub is_space : ℕ → Bool
is_space c =
    (leb 9 c && leb c 13)
    || (leb 28 c && leb c 32)
    || c == 133
    || c == 160
    || c == 5760
    || (leb 8192 c && leb c 8202)
    || c == 8232
    || c == 8233
    || c == 8239
    || c == 8287
    || c == 12288

unfoldable pub strip_left : (ℕ → Bool) → Text → Text
strip_left drops [] = []
strip_left drops (c ∷ text) = elim (drops c) [ true ↦ strip_left drops text | false ↦ c ∷ text ]

unfoldable pub strip_right : (ℕ → Bool) → Text → Text
unfolding strip_left
strip_right drops text = reverse (strip_left drops (reverse text))

unfoldable pub strip : Text → Text
unfolding strip_right is_space
strip text = strip_left is_space (strip_right is_space text)

-- `str.lower` on the letters of ASCII. It decides the comparisons of the sources, which are with
-- lower-case ASCII words that no other code point is mapped to.
unfoldable pub lower : Text → Text
lower = map (λ c. if leb 65 c && leb c 90 then c + 32 else c)

-- `separator.join(texts)`
unfoldable pub join : Text → List Text → Text
join separator [] = []
join separator (text ∷ []) = text
join separator (text ∷ next ∷ texts) = text ++ (separator ++ join separator (next ∷ texts))

-- `str(n)`. The fuel is the number itself, which has more units than digits.
digits_from : ℕ → ℕ → Text → Text
digits_from zero n acc = acc
digits_from (suc fuel) n acc =
    let more = digits_from fuel (n / 10) ((n % 10 + 48) ∷ acc) in
    if ltb n 10 then (n + 48) ∷ acc else more

unfoldable pub decimal : ℕ → Text
unfolding digits_from
decimal n = digits_from (suc n) n []

length-digits_from : (fuel n : ℕ) (acc : Text) → length (digits_from fuel n acc) ≤ fuel + length acc
unfolding digits_from
length-digits_from zero n acc = omega arith
length-digits_from (suc fuel) n acc = elim (Bool-cases (ltb n 10)) [
  | inl last ↦ rw last (omega arith)
  | inr more ↦ rw more (omega (arith, length-digits_from fuel (n / 10) ((n % 10 + 48) ∷ acc)))
]

pub length-decimal : (n : ℕ) → length (decimal n) ≤ suc n
unfolding decimal
length-decimal n = omega (arith, length-digits_from (suc n) n [])

length-digits_from_grows : (fuel n : ℕ) (acc : Text) → length acc ≤ length (digits_from fuel n acc)
unfolding digits_from
length-digits_from_grows zero n acc = omega arith
length-digits_from_grows (suc fuel) n acc = elim (Bool-cases (ltb n 10)) [
  | inl last ↦ rw last (omega arith)
  | inr more ↦ rw more (omega (arith, length-digits_from_grows fuel (n / 10) ((n % 10 + 48) ∷ acc)))
]

length-digits_from-suc :
    (fuel n : ℕ) (acc : Text) → suc (length acc) ≤ length (digits_from (suc fuel) n acc)
unfolding digits_from
length-digits_from-suc fuel n acc = elim (Bool-cases (ltb n 10)) [
  | inl last ↦ rw last (omega arith)
  | inr more ↦ rw more (omega (arith, length-digits_from_grows fuel (n / 10) ((n % 10 + 48) ∷ acc)))
]

length-digits_from_mono :
    (fuel more_fuel n m : ℕ) (acc more : Text)
    → n ≤ m
    → m < more_fuel
    → length acc ≤ length more
    → length (digits_from fuel n acc) ≤ length (digits_from more_fuel m more)
unfolding digits_from
length-digits_from_mono zero more_fuel n m acc more h room longer =
    omega (arith, length-digits_from_grows more_fuel m more)
length-digits_from_mono (suc fuel) zero n m acc more h room longer = absurd (omega arith)
length-digits_from_mono (suc fuel) (suc more_fuel) n m acc more h room longer =
    elim (Bool-cases (ltb n 10)) [
      | inl last ↦ rw last (omega (arith, length-digits_from-suc more_fuel m more))
      | inr not_last ↦
          let big : ltb m 10 ≡ false = ground arith in
          rw (not_last, big)
            (length-digits_from_mono fuel more_fuel (n / 10) (m / 10) ((n % 10 + 48) ∷ acc)
              ((m % 10 + 48) ∷ more) (omega arith) (ground arith) (omega arith))
    ]

pub length-decimal_mono : (n m : ℕ) → n ≤ m → length (decimal n) ≤ length (decimal m)
unfolding decimal
length-decimal_mono n m h =
    length-digits_from_mono (suc n) (suc m) n m [] [] h (omega arith) (omega arith)

decimal-1205 : decimal 1205 ≡ codes "1205"
unfolding decimal
decimal-1205 = refl

yes_please : lower (strip (codes "  Yes \n")) ≡ codes "yes"
unfolding lower strip
yes_please = refl
