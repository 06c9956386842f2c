-- ===== src/Patch/Perform.antt =====
-- What a patch does to a file.
use roboz.Prelude.{
  ℕ, ◌<◌, ◌≡◌, refl, ◌⊎◌, inl, inr, Bool, false, not, ◌&&◌, ◌∷◌, ◌++◌, arith, Bool-cases, ltb, ◌==◌,
  Result, ok,
}
use roboz.Prelude.Text.{Text}
use roboz.Patch.{count, replace, File, written, replace_text, perform_replace}
use roboz.Patch.Replace.{Rewrites, replace-Rewrites, Rewrites-one}

module _ {W : Type 0} (file : File W) where
  -- Nothing was written, and the result says that the patch failed.
  abbrev pub Refused : Result Text (Bool × Text) × W → W → Type 0
  Refused (result, after) w = (after ≡ w) × ((message : Text) × (result ≡ ok (false, message)))

  -- One write was made: of the text with its occurrences rewritten, of which there was at least one,
  -- and no other if not all are to be replaced.
  abbrev pub Applied : (old new text : Text) → Bool → Result Text (Bool × Text) × W → W → Type 0
  Applied old new text replace_all (result, after) w =
      (updated : Text) × (n : ℕ) × Rewrites old new text updated n
      × (0 < n)
      × (replace_all ≡ false → n ≡ 1)
      × (after ≡ (file.write_text updated w).1)

  replace_text-Applied :
      (first : ℕ) (rest new text : Text) (replace_all : Bool) (w : W)
      → Refused (replace_text file (first ∷ rest) new replace_all text w) w
        ⊎ Applied
            (first ∷ rest)
            new
            text
            replace_all
            (replace_text file (first ∷ rest) new replace_all text w)
            w
  unfolding replace_text written
  replace_text-Applied first rest new text replace_all w =
      elim (Bool-cases (count (first ∷ rest) text == 0)) [
        | inl lacks ↦ inl (rw (lacks, replace_text) (refl, (_, refl)))
        | inr has ↦ elim (Bool-cases (not replace_all && ltb 1 (count (first ∷ rest) text))) [
          | inl many ↦ inl (rw (has, many, replace_text) (refl, (_, refl)))
          | inr fits ↦ inr (
            replace (first ∷ rest) new text,
            count (first ∷ rest) text,
            replace-Rewrites first rest new text,
            ground arith,
            λ single. ground arith,
            rw (has, fits, replace_text) refl,
          )
        ]
      ]

  -- A patch of a file that can be read either fails and writes nothing, or writes the text once, with
  -- the occurrences of the old string rewritten: at least one of them, and just one if not all are
  -- to be replaced.
  pub perform_replace-Applied :
      (first : ℕ) (rest new text : Text) (replace_all : Bool) (w : W)
      → file.read_text w ≡ ok text
      → Refused (perform_replace file (first ∷ rest) new replace_all w) w
        ⊎ Applied
            (first ∷ rest)
            new
            text
            replace_all
            (perform_replace file (first ∷ rest) new replace_all w)
            w
  unfolding perform_replace
  perform_replace-Applied first rest new text replace_all w h =
      rw (h, perform_replace) (replace_text-Applied first rest new text replace_all w)

  -- A patch that does not replace all: it either fails and writes nothing, or the old string stood
  -- once in the file, and the text written has the new string in its place and the rest around it.
  pub perform_replace-single :
      (first : ℕ) (rest new text : Text) (w : W)
      → file.read_text w ≡ ok text
      → Refused (perform_replace file (first ∷ rest) new false w) w
        ⊎ ((before : Text) × (after : Text) × (text ≡ before ++ ((first ∷ rest) ++ after))
            × ((perform_replace file (first ∷ rest) new false w).1
                ≡ (file.write_text (before ++ (new ++ after)) w).1))
  perform_replace-single first rest new text w h =
      elim (perform_replace-Applied first rest new text false w h) [
        | inl refused ↦ inl refused
        | inr (updated, n, rewrites, some_met, single, world) ↦
            let (before, after, stood, became) =
              Rewrites-one (first ∷ rest) new rewrites (single refl) in
            inr (before, after, stood, rw became at world)
      ]
