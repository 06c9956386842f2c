-- ===== src/Scripts/Discovery.antt =====
-- shed/tools/safe_scripts/server.py, `_valid_script`, `_description` and `_discover`: which files are
-- scripts, and the listing of them. A path below the root is the list of its parts.
pub mod Listing
use roboz.Prelude.{
  ℕ, zero, suc, ◌+◌, Bool, true, false, not, ◌&&◌, ◌||◌, Option, none, some, List, [], ◌∷◌, ◌++◌,
  ◌==◌, if◌then◌else◌, length, take, drop, Result, ok, err,
}
use roboz.Prelude.Text.{Text, codes, text_eq, starts_with, strip, join}
use roboz.Scripts.{Response, script_entry, Completed, listed, refused, is_one_of}
use roboz.Scripts.Server.{System, Raised, Stream, check, yielding, outcome_of}

abbrev pub description_chars : ℕ
description_chars = 512

-- pathlib's reading of a name, and what the file system says of paths below the root: symbolic
-- links, regular files, and whether the file they lead to is below the root too.
pub record Files : Type 0 where
  pub parts : Text → List Text
  pub is_absolute : Text → Bool
  pub is_windows_absolute : Text → Bool
  pub suffix : Text → Text
  pub is_symlink : List Text → Bool
  pub is_file : List Text → Bool
  pub is_within_root : List Text → Bool
  pub lines : List Text → List Text

module _ (files : Files) where
  -- Whether the path, or one above it that is longer than the prefix, is a link.
  unfoldable pub has_symlink : List Text → List Text → Bool
  has_symlink prefix [] = false
  has_symlink prefix (part ∷ parts) =
      files.is_symlink (prefix ++ part ∷ []) || has_symlink (prefix ++ part ∷ []) parts

  unfoldable pub is_unsafe_name : Text → Bool
  unfolding is_one_of
  is_unsafe_name name =
      length name == 0
      || files.is_absolute name
      || files.is_windows_absolute name
      || is_one_of (codes "..") (files.parts name)
      || not (text_eq (files.suffix name) (codes ".sh"))
      || files.is_symlink []

  -- `_valid_script`
  unfoldable pub valid_script : Text → Option (List Text)
  unfolding is_unsafe_name has_symlink
  valid_script name =
      if is_unsafe_name name
      then none
      else if has_symlink [] (files.parts name)
      then none
      else if files.is_file (files.parts name) && files.is_within_root (files.parts name)
      then some (files.parts name)
      else none

-- `_description`, of the lines behind the first
unfoldable pub description_from : List Text → Text
description_from [] = []
description_from (line ∷ lines) = elim (starts_with (codes "#") line) [
  | true ↦ elim (strip (drop 1 line)) [
    | [] ↦ description_from lines
    | c ∷ text ↦ take description_chars (c ∷ text)
  ]
  | false ↦ elim (strip line) [ [] ↦ description_from lines | c ∷ text ↦ [] ]
]

-- `_description`: a first line that names the interpreter is passed over.
unfoldable pub description : List Text → Text
unfolding description_from
description [] = []
description (line ∷ lines) = elim (starts_with (codes "#!") line) [
  | true ↦ description_from lines
  | false ↦ description_from (line ∷ lines)
]

-- What `scandir` gives, in its order: a directory has its own items, and a link or another kind of
-- file is skipped.
pub data Items : Type 0 where
  no_items : Items
  directory : (name : Text) → Items → Items → Items
  regular : (name : Text) → Items → Items
  skipped : (name : Text) → Items → Items

-- `_discover`, of the root: a link, something else than a directory, or a directory.
pub data Root : Type 0 where
  symlink absent : Root
  scanned : Items → Root

module _ {W D E : Type 0} (system : System W D E) (files : Files) where
  -- The directories that are still to be scanned.
  abbrev pub Stack : Type 0
  Stack = List (List Text × Items)

  abbrev pub posix : List Text → Text
  posix = join (codes "/")

  abbrev pub entry_of : List Text → Option (List Text) → List Response
  entry_of path none = []
  entry_of path (some valid) = script_entry (posix path) (description (files.lines valid)) ∷ []

  abbrev pub after_item :
      Result (Raised E) (Unit {0})
      → W
      → Option (Stream system Completed)
      → Option (Stream system Completed)
  after_item (err e) w later = some ([], err e, w)
  after_item (ok done) w later = later

  -- The two loops of `_discover`, with fuel: over the items of a directory, and over the stack. The
  -- world goes on with `pause` at each item.
  unfoldable pub scan : ℕ → ℕ → List Text → Items → Stack → W → Option (Stream system Completed)
  unfolding check outcome_of valid_script description
  scan zero deadline path items stack w = none
  scan (suc fuel) deadline path no_items [] w =
      after_item (check system deadline w) w (some ([], outcome_of system listed none [], w))
  scan (suc fuel) deadline path no_items ((next, items) ∷ stack) w =
      after_item (check system deadline w) w (scan fuel deadline next items stack (system.pause w))
  scan (suc fuel) deadline path (directory name inner items) stack w =
      after_item (check system deadline w) w
        (scan fuel deadline path items ((path ++ name ∷ [], inner) ∷ stack) (system.pause w))
  scan (suc fuel) deadline path (regular name items) stack w =
      after_item (check system deadline w) w (
        yielding system
          (entry_of (path ++ name ∷ []) (valid_script files (posix (path ++ name ∷ []))))
          (scan fuel deadline path items stack (system.pause w)))
  scan (suc fuel) deadline path (skipped name items) stack w =
      after_item (check system deadline w) w (scan fuel deadline path items stack (system.pause w))

  unfoldable pub discover : ℕ → ℕ → Root → W → Option (Stream system Completed)
  unfolding scan outcome_of
  discover fuel deadline symlink w =
      some ([], outcome_of system refused none (codes "script directory is a symlink"), w)
  discover fuel deadline absent w = some (
    [],
    outcome_of system listed none (codes "script directory is absent; install trusted .sh files"),
    w,
  )
  discover fuel deadline (scanned items) w = scan fuel deadline [] no_items (([], items) ∷ []) w
