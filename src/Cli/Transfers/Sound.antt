-- ===== src/Cli/Transfers/Sound.antt =====
-- Sources and destinations that are accepted.
use roboz.Prelude.{
  ℕ, String, ◌≡◌, refl, Bool, true, false, not, List, [], ◌∷◌, ltb, Result, ok, err, ◌>>=◌, ◌>>◌,
  raise_if, All,
}
use roboz.Cli.Transfers.{
  Location, Files, TransferError, symlink, no_source, hard_linked, no_directory, no_regular_file,
  aliases_source, parent, has_identity, Transfer, validate_regular_source, validate_transfer_source,
  validate_existing, validate_sources,
}
use roboz.Cli.Transfers.Separate.{then-ok, raise_if-ok}

-- A result that is a value has a property.
pub data Only {A : Type 0} (P : A → Type 0) : Result TransferError A → Type 0 where
  holds : {a : A} → P a → Only P (ok a)
  raises : {e : TransferError} → Only P (err e)

module _ {A : Type 0} {P : A → Type 0} where
  pub Only-then :
      (first : Result TransferError (Unit {0})) (rest : Result TransferError A)
      → (first ≡ ok tt → Only P rest)
      → Only P (first >> rest)
  Only-then (ok done) rest later = later refl
  Only-then (err e) rest later = raises

  pub Only-map :
      {Q : A → Type 0} (result : Result TransferError A)
      → Only P result
      → ((a : A) → P a → Q a)
      → Only Q result
  Only-map (ok a) (holds p) step = holds (step a p)
  Only-map (err e) raises step = raises

  pub Only-bind :
      {B : Type 0} {Q : B → Type 0} (first : Result TransferError B)
      (rest : B → Result TransferError A)
      → Only Q first
      → ((b : B) → Q b → Only P (rest b))
      → Only P (first >>= rest)
  Only-bind (ok b) rest (holds q) later = later b q
  Only-bind (err e) rest raises later = raises

pub not-false : (b : Bool) → not b ≡ false → b ≡ true
not-false true h = refl
not-false false h = cc

module _ (files : Files) where
  -- A source is a directory or a regular file without other links.
  pub data SoundSource (source : Location) : Type 0 where
    directory : files.is_symlink source ≡ false → files.is_dir source ≡ true → SoundSource source
    regular :
        files.is_symlink source ≡ false
        → files.is_file source ≡ true
        → ltb 1 (files.st_nlink source) ≡ false
        → SoundSource source

  -- What may stand at a destination: nothing; a directory for a directory; or a regular file without
  -- other links for a file; but no source.
  pub data Usable (source_ids : List (ℕ × ℕ)) (source target : Location) : Type 0 where
    free : files.exists target ≡ false → Usable source_ids source target
    merges :
        files.is_dir source ≡ true
        → files.is_dir target ≡ true
        → has_identity (files.identity target) source_ids ≡ false
        → Usable source_ids source target
    replaces_file :
        files.is_dir source ≡ false
        → files.is_file target ≡ true
        → ltb 1 (files.st_nlink target) ≡ false
        → has_identity (files.identity target) source_ids ≡ false
        → Usable source_ids source target

  abbrev pub SoundTransfer : List (ℕ × ℕ) → Transfer → Type 0
  SoundTransfer source_ids (source, target) =
      (files.is_dir (parent target) ≡ true)
      × (files.is_symlink target ≡ false)
      × Usable source_ids source target

  validate_regular_source-Sound :
      (source : Location) (is_directory : Bool)
      → files.is_dir source ≡ is_directory
      → files.is_symlink source ≡ false
      → validate_regular_source files source is_directory ≡ ok tt
      → SoundSource source
  unfolding validate_regular_source
  validate_regular_source-Sound source true is_directory no_link h = directory no_link is_directory
  validate_regular_source-Sound source false is_directory no_link h =
      let (is_file, single) = then-ok _ (raise_if (ltb 1 (files.st_nlink source)) hard_linked) h in
      regular no_link (not-false (files.is_file source) (raise_if-ok _ no_source is_file))
        (raise_if-ok _ hard_linked single)

  pub validate_sources-Sound :
      (named : List (Location × String))
      → validate_sources files named ≡ ok tt
      → All (λ n. SoundSource n.0) named
  unfolding validate_sources validate_transfer_source
  validate_sources-Sound [] h = tt
  validate_sources-Sound ((source, name) ∷ named) h =
      let (here, later) = then-ok _ (validate_sources files named) h in
      let (no_link, kind) =
        then-ok _ (validate_regular_source files source (files.is_dir source)) here in
      (
        validate_regular_source-Sound source (files.is_dir source) refl
            (raise_if-ok _ symlink no_link) kind,
        validate_sources-Sound named later,
      )

  pub validate_existing-Usable :
      (source target : Location) (source_ids : List (ℕ × ℕ)) (is_directory exists : Bool)
      → files.is_dir source ≡ is_directory
      → files.exists target ≡ exists
      → validate_existing files target source_ids is_directory exists ≡ ok tt
      → Usable source_ids source target
  unfolding validate_existing
  validate_existing-Usable source target source_ids is_directory false kind exists h = free exists
  validate_existing-Usable source target source_ids true true kind exists h =
      let (is_dir, fresh) =
        then-ok _ (raise_if (has_identity (files.identity target) source_ids) aliases_source) h in
      merges kind (not-false (files.is_dir target) (raise_if-ok _ no_directory is_dir))
        (raise_if-ok _ aliases_source fresh)
  validate_existing-Usable source target source_ids false true kind exists h =
      let (is_file, rest) =
        then-ok _
          (raise_if (ltb 1 (files.st_nlink target)) hard_linked
            >> raise_if (has_identity (files.identity target) source_ids) aliases_source)
          h in
      let (single, fresh) =
        then-ok _ (raise_if (has_identity (files.identity target) source_ids) aliases_source)
          rest in
      replaces_file kind (not-false (files.is_file target) (raise_if-ok _ no_regular_file is_file))
        (raise_if-ok _ hard_linked single) (raise_if-ok _ aliases_source fresh)
