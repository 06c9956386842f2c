-- ===== src/Patch.antt =====
-- apply_patch.py: the literal replacement in one file, with what it uses of Python's `str`.
pub mod Replace
pub mod Perform
use roboz.Prelude.{
  ℕ, zero, suc, ◌-◌, ◌+◌, Bool, true, false, not, ◌&&◌, List, [], ◌∷◌, ◌++◌, length, ltb, ◌==◌,
  Result, ok, err, if◌then◌else◌,
}
use roboz.Prelude.Text.{Text, codes, starts_with, decimal}

-- `text.count(old)` for a text `old` that is not empty: occurrences that do not overlap, from the
-- left. `skip` counts the characters that belong to the occurrence before.
unfoldable pub count_from : Text → ℕ → Text → ℕ
count_from old skip [] = 0
count_from old (suc skip) (c ∷ text) = count_from old skip text
count_from old zero (c ∷ text) = elim (starts_with old (c ∷ text)) [
  | true ↦ suc (count_from old (length old - 1) text)
  | false ↦ count_from old zero text
]

unfoldable pub count : Text → Text → ℕ
unfolding count_from starts_with
count old text = count_from old 0 text

-- `text.replace(old, new)`, for the same texts.
unfoldable pub replace_from : (old new : Text) → ℕ → Text → Text
replace_from old new skip [] = []
replace_from old new (suc skip) (c ∷ text) = replace_from old new skip text
replace_from old new zero (c ∷ text) = elim (starts_with old (c ∷ text)) [
  | true ↦ new ++ replace_from old new (length old - 1) text
  | false ↦ c ∷ replace_from old new zero text
]

unfoldable pub replace : (old new text : Text) → Text
unfolding replace_from starts_with
replace old new text = replace_from old new 0 text

-- An OSError, with its text, or another exception, which the code does not catch.
pub data FileError : Type 0 where
  os_error uncaught : Text → FileError

-- The file that is edited, on a world W.
pub record File (W : Type 0) : Type 0 where
  pub make_parent : W → Result FileError W
  pub read_text : W → Result FileError Text
  pub write_text : Text → W → Result FileError (Unit {0}) × W

module _ {W : Type 0} (file : File W) where
  -- What an error becomes: a failure with a message, or an exception.
  unfoldable pub file_failure : Text → FileError → Result Text (Bool × Text)
  file_failure prefix (os_error message) = ok (false, prefix ++ message)
  file_failure prefix (uncaught message) = err message

  abbrev outcome_of : Text → Text → Result FileError (Unit {0}) → Result Text (Bool × Text)
  outcome_of prefix done (ok _) = ok (true, done)
  outcome_of prefix done (err error) = file_failure prefix error

  unfoldable pub written : Text → Text → Text → W → Result Text (Bool × Text) × W
  written prefix done text w =
      let (outcome, after) = file.write_text text w in (outcome_of prefix done outcome, after)

  unfoldable pub rewrite_file : Text → W → Result Text (Bool × Text) × W
  rewrite_file new w = elim (file.make_parent w) [
    | err error ↦ (file_failure (codes "apply_patch: could not write file: ") error, w)
    | ok made ↦
        written (codes "apply_patch: could not write file: ")
          (codes "[success] via full-file rewrite.") new made
  ]

  -- What is done with the text of the file.
  unfoldable pub replace_text :
      (old new : Text) → (replace_all : Bool) → Text → W → Result Text (Bool × Text) × W
  unfolding count replace
  replace_text old new replace_all text w =
      if count old text == 0
      then (ok (false, codes "apply_patch: old_string not found"), w)
      else if not replace_all && ltb 1 (count old text)
      then (
        ok (
          false,
          codes "apply_patch: old_string matched "
              ++ (decimal (count old text)
                  ++ codes
                      " times; use replace_all=true to replace all, or include more context so the match is unique"),
        ),
        w,
      )
      else written (codes "apply_patch: could not write file: ")
          (codes "[success] Replaced " ++ (decimal (count old text) ++ codes " occurrence(s)."))
          (replace old new text) w

  -- `_perform_replace`; `err` is an exception that leaves it.
  unfoldable pub perform_replace :
      (old new : Text) → (replace_all : Bool) → W → Result Text (Bool × Text) × W
  perform_replace [] new replace_all w = rewrite_file new w
  perform_replace (c ∷ old) new replace_all w = elim (file.read_text w) [
    | err error ↦ (file_failure (codes "apply_patch: could not read file: ") error, w)
    | ok text ↦ replace_text (c ∷ old) new replace_all text w
  ]
