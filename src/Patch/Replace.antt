-- ===== src/Patch/Replace.antt =====
-- `count` and `replace` against a description of what they mean.
use roboz.Prelude.{
  ℕ, zero, suc, ◌-◌, ◌≤◌, ◌≡◌, refl, sym, ap, ◌∙◌, true, false, [], ◌∷◌, ◌++◌, length, arith,
  Bool-cases, inl, inr, drop, length-drop,
}
use roboz.Prelude.Text.{Text, starts_with}
use roboz.Patch.{count_from, count, replace_from, replace}

-- Reading a text from the left, an occurrence of `old` is written as `new`, and a character where
-- none starts is kept; so many occurrences are met.
pub data Rewrites (old new : Text) : Text → Text → ℕ → Type 0 where
  done : Rewrites old new [] [] 0
  keep :
      (c : ℕ) (t r : Text) (n : ℕ)
      → starts_with old (c ∷ t) ≡ false
      → Rewrites old new t r n
      → Rewrites old new (c ∷ t) (c ∷ r) n
  swap :
      (t r : Text) (n : ℕ) → Rewrites old new t r n → Rewrites old new (old ++ t) (new ++ r) (suc n)

-- A text that starts with another is that text and the rest behind it.
starts_with-drop :
    (old text : Text) → starts_with old text ≡ true → text ≡ old ++ drop (length old) text
unfolding starts_with
starts_with-drop [] text h = refl
starts_with-drop (x ∷ xs) [] h = cc
starts_with-drop (x ∷ xs) (y ∷ ys) h =
    let same : y ≡ x = ground arith in
    let rest : starts_with xs ys ≡ true = ground arith in
    rw same (ap (λ l. x ∷ l) (starts_with-drop xs ys rest))

count_from-drop :
    (old : Text) (skip : ℕ) (text : Text)
    → count_from old skip text ≡ count_from old 0 (drop skip text)
unfolding count_from
count_from-drop old zero text = refl
count_from-drop old (suc skip) [] = refl
count_from-drop old (suc skip) (c ∷ text) = count_from-drop old skip text

replace_from-drop :
    (old new : Text) (skip : ℕ) (text : Text)
    → replace_from old new skip text ≡ replace_from old new 0 (drop skip text)
unfolding replace_from
replace_from-drop old new zero text = refl
replace_from-drop old new (suc skip) [] = refl
replace_from-drop old new (suc skip) (c ∷ text) = replace_from-drop old new skip text

module _ (first : ℕ) (rest new : Text) where
  -- The text that is looked for.
  abbrev old : Text
  old = first ∷ rest

  Rewrites-resp :
      {t t2 r r2 : Text} {n n2 : ℕ}
      → t ≡ t2
      → r ≡ r2
      → n ≡ n2
      → Rewrites old new t2 r2 n2
      → Rewrites old new t r n
  Rewrites-resp text result number h = rw (text, result, number) h

  replace_from-met :
      (c : ℕ) (text : Text)
      → starts_with old (c ∷ text) ≡ true
      → replace_from old new 0 (c ∷ text) ≡ new ++ replace_from old new 0 (drop (length rest) text)
  unfolding replace_from
  replace_from-met c text met =
      let behind : length old - 1 ≡ length rest = omega arith in
      rw (met, replace_from)
        (ap (λ l. new ++ l)
          (ap (λ n. replace_from old new n text) behind
            ∙ replace_from-drop old new (length rest) text))

  count_from-met :
      (c : ℕ) (text : Text)
      → starts_with old (c ∷ text) ≡ true
      → count_from old 0 (c ∷ text) ≡ suc (count_from old 0 (drop (length rest) text))
  unfolding count_from
  count_from-met c text met =
      let behind : length old - 1 ≡ length rest = omega arith in
      rw (met, count_from)
        (ap suc (ap (λ n. count_from old n text) behind ∙ count_from-drop old (length rest) text))

  replace_from-Rewrites :
      (fuel : ℕ) (text : Text)
      → length text ≤ fuel
      → Rewrites old new text (replace_from old new 0 text) (count_from old 0 text)
  unfolding replace_from count_from
  replace_from-Rewrites fuel [] h = done
  replace_from-Rewrites zero (c ∷ text) h = absurd (omega arith)
  replace_from-Rewrites (suc fuel) (c ∷ text) h = elim (Bool-cases (starts_with old (c ∷ text))) [
    | inr other ↦
        rw (other, replace_from, count_from)
          (keep c text _ _ other (replace_from-Rewrites fuel text (omega arith)))
    | inl met ↦
        Rewrites-resp (starts_with-drop old (c ∷ text) met) (replace_from-met c text met)
          (count_from-met c text met)
          (swap _ _ _ (
            replace_from-Rewrites fuel (drop (length rest) text)
              (omega (arith, length-drop (length rest) text))))
  ]

  -- Replacing and counting agree with that reading, for every text that is looked for but the empty
  -- one.
  pub replace-Rewrites :
      (text : Text) → Rewrites old new text (replace old new text) (count old text)
  unfolding replace count
  replace-Rewrites text = replace_from-Rewrites (length text) text (omega arith)

-- Without an occurrence, nothing changes.
pub Rewrites-none : (old new : Text) {t r : Text} {n : ℕ} → Rewrites old new t r n → n ≡ 0 → t ≡ r
Rewrites-none old new done h = refl
Rewrites-none old new (keep c t r n other rewrites) h =
    ap (λ l. c ∷ l) (Rewrites-none old new rewrites h)
Rewrites-none old new (swap t r n rewrites) h = absurd (omega arith)

-- With one occurrence, the result has `new` in its place, and the rest of the text around it.
pub Rewrites-one :
    (old new : Text) {t r : Text} {n : ℕ}
    → Rewrites old new t r n
    → n ≡ 1
    → (before : Text) × (after : Text) × (t ≡ before ++ (old ++ after))
      × (r ≡ before ++ (new ++ after))
Rewrites-one old new done h = absurd (omega arith)
Rewrites-one old new (keep c t r n other rewrites) h =
    let (before, after, text, result) = Rewrites-one old new rewrites h in
    (c ∷ before, after, ap (λ l. c ∷ l) text, ap (λ l. c ∷ l) result)
Rewrites-one old new (swap t r n rewrites) h =
    let same = Rewrites-none old new rewrites (omega arith) in
    ([], t, refl, ap (λ l. new ++ l) (sym same))
