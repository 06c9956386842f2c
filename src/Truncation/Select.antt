-- ===== src/Truncation/Select.antt =====
-- The rule that applies to a message of a given age.
use roboz.Prelude.{
  ℕ, ◌≡◌, refl, ◌⊎◌, Bool, true, false, none, some, List, [], ◌∷◌, Memᴰ, arith, inl, inr,
  Bool-cases, if◌then◌else◌, ltb, All, All-mem,
}
use roboz.Prelude.Int.{pos}
use roboz.Truncation.{
  light, stub, remove, Truncation, TruncationSpec, rule, to_rules_list, graded_output, applies,
  applicable, key_less, best_of, max_rule, select_truncation,
}

key_less_trans :
    (a b c : Truncation) → key_less a b ≡ false → key_less b c ≡ false → key_less a c ≡ false
unfolding key_less
key_less_trans a b c h k = ground arith

key_less-asym : (a b : Truncation) → key_less a b ≡ true → key_less b a ≡ false
unfolding key_less
key_less-asym a b h = ground arith

key_less_irrefl : (a : Truncation) → key_less a a ≡ false
unfolding key_less
key_less_irrefl a = ground arith

applicable-mem :
    (distance : ℕ) (rules : List Truncation) {r : Truncation}
    → Memᴰ r rules
    → applies distance r ≡ true
    → Memᴰ r (applicable distance rules)
unfolding applicable
applicable-mem distance [] m h = elim m [ ]
applicable-mem distance (first ∷ rules) {r} (Memᴰ.head same) h =
    let kept : applies distance first ≡ true = rw same at h in rw kept (Memᴰ.head same)
applicable-mem distance (first ∷ rules) (Memᴰ.tail m) h =
    elim (Bool-cases (applies distance first)) [
      | inl kept ↦ rw kept (Memᴰ.tail (applicable-mem distance rules m h))
      | inr left ↦ rw left (applicable-mem distance rules m h)
    ]

mem_of_if :
    {A : Type 0} {x : A} (keep : Bool) (y : A) (rest : List A)
    → Memᴰ x (if keep then y ∷ rest else rest)
    → ((x ≡ y) × (keep ≡ true)) ⊎ Memᴰ x rest
mem_of_if true y rest (Memᴰ.head e) = inl (e, refl)
mem_of_if true y rest (Memᴰ.tail m) = inr m
mem_of_if false y rest m = inr m

mem-applicable :
    (distance : ℕ) (rules : List Truncation) {r : Truncation}
    → Memᴰ r (applicable distance rules)
    → Memᴰ r rules × (applies distance r ≡ true)
unfolding applicable
mem-applicable distance [] m = elim m [ ]
mem-applicable distance (first ∷ rules) m =
    elim (mem_of_if (applies distance first) first (applicable distance rules) m) [
      | inl (same, holds) ↦ (Memᴰ.head same, rw same holds)
      | inr deep ↦
          let (deeper, holds) = mem-applicable distance rules deep in (Memᴰ.tail deeper, holds)
    ]

-- `r` is one of the rules, and none has a greater key.
abbrev IsMax : List Truncation → Truncation → Type 0
IsMax rules r = Memᴰ r rules × All (λ s. key_less r s ≡ false) rules

IsMax-resp : (rules : List Truncation) {r r2 : Truncation} → r ≡ r2 → IsMax rules r2 → IsMax rules r
IsMax-resp rules same h = rw same h

IsMax-keep :
    (best first : Truncation) (rules : List Truncation) (r : Truncation)
    → key_less best first ≡ false
    → IsMax (best ∷ rules) r
    → IsMax (best ∷ first ∷ rules) r
IsMax-keep best first rules r less (Memᴰ.head same, (above, all)) =
    (Memᴰ.head same, (above, (key_less_trans r best first above less, all)))
IsMax-keep best first rules r less (Memᴰ.tail m, (above, all)) =
    (Memᴰ.tail (Memᴰ.tail m), (above, (key_less_trans r best first above less, all)))

best_of-greater :
    (best first : Truncation) (rules : List Truncation)
    → key_less best first ≡ true
    → best_of best (first ∷ rules) ≡ best_of first rules
unfolding best_of
best_of-greater best first rules less = rw less refl

best_of-keeps :
    (best first : Truncation) (rules : List Truncation)
    → key_less best first ≡ false
    → best_of best (first ∷ rules) ≡ best_of best rules
unfolding best_of
best_of-keeps best first rules less = rw less refl

best_of-IsMax :
    (best : Truncation) (rules : List Truncation) → IsMax (best ∷ rules) (best_of best rules)
unfolding best_of
best_of-IsMax best [] = (Memᴰ.head refl, (key_less_irrefl best, tt))
best_of-IsMax best (first ∷ rules) = elim (Bool-cases (key_less best first)) [
  | inl less ↦
      let (m, (above, all)) = best_of-IsMax first rules in
      IsMax-resp (best ∷ first ∷ rules) (best_of-greater best first rules less) (
        Memᴰ.tail m,
        (key_less_trans _ first best above (key_less-asym best first less), (above, all)),
      )
  | inr not_less ↦
      IsMax-resp (best ∷ first ∷ rules) (best_of-keeps best first rules not_less)
        (IsMax-keep best first rules _ not_less (best_of-IsMax best rules))
]

max_rule-IsMax :
    (rules : List Truncation) {r : Truncation} → max_rule rules ≡ some r → IsMax rules r
unfolding max_rule
max_rule-IsMax [] h = cc
max_rule-IsMax (first ∷ rules) {r} h =
    let same : r ≡ best_of first rules = cc in
    IsMax-resp (first ∷ rules) same (best_of-IsMax first rules)

max_rule-eq-none : (rules : List Truncation) → max_rule rules ≡ none → rules ≡ []
unfolding max_rule
max_rule-eq-none [] h = refl
max_rule-eq-none (first ∷ rules) h = cc

-- The selected rule is one of the rules; it applies at the distance; and no rule that applies has
-- a greater threshold, or as great a threshold and a greater severity.
pub select_truncation-IsMax :
    (distance : ℕ) (spec : TruncationSpec) {r : Truncation}
    → select_truncation distance spec ≡ some r
    → Memᴰ r (to_rules_list spec)
      × (applies distance r ≡ true)
      × ((s : Truncation)
          → Memᴰ s (to_rules_list spec)
          → applies distance s ≡ true
          → key_less r s ≡ false)
unfolding select_truncation
select_truncation-IsMax distance spec {r} h =
    let (m, all) = max_rule-IsMax (applicable distance (to_rules_list spec)) h in
    let (place, holds) = mem-applicable distance (to_rules_list spec) m in
    (
      place,
      holds,
      λ s n applied.
          All-mem (λ s. key_less r s ≡ false) _ all
            (applicable-mem distance (to_rules_list spec) n applied),
    )

-- No rule is selected exactly when none applies.
pub select_truncation-eq-none :
    (distance : ℕ) (spec : TruncationSpec) {r : Truncation}
    → select_truncation distance spec ≡ none
    → Memᴰ r (to_rules_list spec)
    → applies distance r ≡ false
unfolding select_truncation
select_truncation-eq-none distance spec {r} h m = elim (Bool-cases (applies distance r)) [
  | inl holds ↦
      let found = applicable-mem distance (to_rules_list spec) m holds in
      let empty = max_rule-eq-none (applicable distance (to_rules_list spec)) h in
      elim (rw empty at found) [ ]
  | inr fails ↦ fails
]

-- Bulky output is kept with its strings capped for fifty messages, as a placeholder for the next
-- hundred and fifty, and then dropped.
pub select_truncation-graded_output :
    (distance : ℕ)
    → select_truncation distance graded_output
      ≡ some (
          if ltb distance 50
          then rule (pos 0) light
          else if ltb distance 200
          then rule (pos 50) stub
          else rule (pos 200) remove)
unfolding select_truncation applicable applies max_rule best_of key_less to_rules_list
select_truncation-graded_output distance = ground arith
