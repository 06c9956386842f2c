-- ===== src/Calls/Images/Note.antt =====
-- The length of a note on omitted images: the references that are taken leave room for the rest.
use roboz.Prelude.{
  ℕ, suc, ◌+◌, ◌-◌, ◌≤◌, ◌≡◌, refl, Bool, true, false, List, [], ◌∷◌, ◌++◌, ltb, ◌==◌, length,
  arith, if◌then◌else◌, Bool-cases, inl, inr, length-append,
}
use roboz.Prelude.Text.{Text, codes, decimal, join, length-decimal_mono}
use roboz.Calls.Images.{
  Naming, reference_of, references_from, prefix_of, suffix, remainder, reserved, with_remainder,
  image_omission_note, image_omission_max_chars,
}

-- The length of references, each but the first behind a separator.
abbrev joined : Bool → List Text → ℕ
joined separated [] = 0
joined separated (r ∷ references) = length r + (if separated then 2 else 0) + joined true references

length-join :
    (r : Text) (references : List Text)
    → length (join (codes ", ") (r ∷ references)) ≡ length r + joined true references
unfolding join
length-join r [] = omega arith
length-join r (next ∷ references) = omega (
  arith,
  length-append r (codes ", " ++ join (codes ", ") (next ∷ references)),
  length-join next references,
)

length-join_all :
    (references : List Text) → length (join (codes ", ") references) ≡ joined false references
unfolding join
length-join_all [] = refl
length-join_all (r ∷ references) = omega (arith, length-join r references)

joined-append :
    (separated : Bool) (references : List Text) (r : Text)
    → joined separated (references ++ r ∷ []) ≤ joined separated references + (2 + length r)
joined-append true [] r = omega arith
joined-append false [] r = omega arith
joined-append separated (s ∷ references) r = omega (arith, joined-append true references r)

length-remainder_mono : (n m : ℕ) → n ≤ m → length (remainder n) ≤ length (remainder m)
length-remainder_mono n m h = omega (
  arith,
  length-decimal_mono n m h,
  length-append (decimal n) (codes " more images"),
  length-append (decimal m) (codes " more images"),
)

module _ {I : Type 0} (naming : Naming I) where
  references_from-fit :
      (used index : ℕ) (separated : Bool) (images : List I)
      → used ≤ image_omission_max_chars
      → used + joined separated (references_from naming used index separated images)
        ≤ image_omission_max_chars
  unfolding references_from
  references_from-fit used index separated [] h = omega arith
  references_from-fit used index separated (image ∷ images) h =
      let size = length (reference_of naming index image) + (if separated then 2 else 0) in
      elim (Bool-cases (ltb image_omission_max_chars (used + size))) [
        | inl full ↦ rw full (omega arith)
        | inr room ↦ rw room (
            omega (arith, references_from-fit (used + size) (suc index) true images (ground arith)))
      ]

  length-with_remainder :
      (count : ℕ) (references : List Text)
      → length (join (codes ", ") (with_remainder count references))
        ≤ joined false references + (2 + length (remainder count))
  length-with_remainder count references = elim (Bool-cases (count == length references)) [
    | inl all_named ↦ rw all_named (omega (arith, length-join_all references))
    | inr some_left ↦
        let rest = remainder (count - length references) in
        rw some_left (
          omega (
            arith,
            length-join_all (references ++ rest ∷ []),
            joined-append false references rest,
            length-remainder_mono (count - length references) count (omega arith),
          ))
  ]

  -- When the reason and the count of the images leave any room, a note on omitted images has at
  -- most _IMAGE_OMISSION_MAX_CHARS, whatever the names of the images are.
  pub length-image_omission_note :
      (reason : Text) (images : List I)
      → reserved reason (length images) ≤ image_omission_max_chars
      → length (image_omission_note naming reason images) ≤ image_omission_max_chars
  unfolding image_omission_note
  length-image_omission_note reason images room =
      let used = reserved reason (length images) in
      let references = references_from naming used 1 false images in
      let text = join (codes ", ") (with_remainder (length images) references) in
      omega (
        arith,
        length-append (prefix_of reason) (text ++ suffix),
        length-append text (suffix),
        length-with_remainder (length images) references,
        references_from-fit used 1 false images room,
      )
