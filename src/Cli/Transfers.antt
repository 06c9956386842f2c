-- ===== src/Cli/Transfers.antt =====
-- shed/tools/cli_commands/commands/transfers.py: the transfers of cp and mv, and the operations that
-- they need. A location is the list of its parts below the root, and the files are those of one moment.
pub mod Separate
pub mod Sound
pub mod Resolved
pub mod Keys
pub mod Prepared
use roboz.Prelude.{
  ℕ, suc, String, str_eq, Bool, true, false, not, ◌&&◌, ◌||◌, Option, none, some, List, [], ◌∷◌,
  ◌++◌, ltb, ◌==◌, map, if◌then◌else◌, Result, ok, err, ◌>>=◌, ◌>>◌, raise_if,
}
use roboz.Guard.Policy.{Operation, read, create, delete, operation_eq}

abbrev pub Location : Type 0
Location = List String

pub record Files : Type 0 where
  pub is_symlink : Location → Bool
  pub is_dir : Location → Bool
  pub is_file : Location → Bool
  pub exists : Location → Bool
  pub st_nlink : Location → ℕ
  -- `st_dev` and `st_ino`
  pub identity : Location → ℕ × ℕ

pub data TransferError : Type 0 where
  symlink no_source hard_linked no_directory no_regular_file aliases_source no_parent :
      TransferError
  duplicate_source conflicting_destinations overlapping : TransferError

-- `left.is_relative_to(right)`
unfoldable pub is_relative_to : Location → Location → Bool
is_relative_to left [] = true
is_relative_to [] (r ∷ right) = false
is_relative_to (l ∷ left) (r ∷ right) = str_eq l r && is_relative_to left right

unfoldable pub location_eq : Location → Location → Bool
location_eq [] [] = true
location_eq [] (r ∷ right) = false
location_eq (l ∷ left) [] = false
location_eq (l ∷ left) (r ∷ right) = str_eq l r && location_eq left right

abbrev pub parent : Location → Location
parent [] = []
parent (part ∷ []) = []
parent (part ∷ next ∷ parts) = part ∷ parent (next ∷ parts)

unfoldable pub has_identity : ℕ × ℕ → List (ℕ × ℕ) → Bool
has_identity id [] = false
has_identity id (other ∷ ids) = (id.0 == other.0 && id.1 == other.1) || has_identity id ids

unfoldable pub has_location : Location → List Location → Bool
unfolding location_eq
has_location l [] = false
has_location l (known ∷ seen) = location_eq l known || has_location l seen

-- The conflicts of two locations: one is the other or stands below it.
unfoldable pub related : Location → Location → Bool
unfolding is_relative_to
related left right = is_relative_to left right || is_relative_to right left

unfoldable pub any_related : Location → List Location → Bool
unfolding related
any_related l [] = false
any_related l (other ∷ locations) = related l other || any_related l locations

-- The loop over the sources, with those seen so far.
unfoldable pub reject_duplicates : List Location → List Location → Result TransferError (Unit {0})
unfolding has_location
reject_duplicates seen [] = ok tt
reject_duplicates seen (source ∷ sources) =
    raise_if (has_location source seen) duplicate_source
    >> reject_duplicates (source ∷ seen) sources

-- `combinations(targets, 2)`
unfoldable pub reject_conflicts : List Location → Result TransferError (Unit {0})
unfolding any_related
reject_conflicts [] = ok tt
reject_conflicts (target ∷ targets) =
    raise_if (any_related target targets) conflicting_destinations >> reject_conflicts targets

-- `product(sources, targets)`
unfoldable pub reject_overlaps : List Location → List Location → Result TransferError (Unit {0})
unfolding any_related
reject_overlaps [] targets = ok tt
reject_overlaps (source ∷ sources) targets =
    raise_if (any_related source targets) overlapping >> reject_overlaps sources targets

abbrev pub Transfer : Type 0
Transfer = Location × Location

abbrev pub sources_of : List Transfer → List Location
sources_of transfers = map (λ t. t.0) transfers

abbrev pub targets_of : List Transfer → List Location
targets_of transfers = map (λ t. t.1) transfers

unfoldable pub validate_transfer_overlap : List Transfer → Result TransferError (Unit {0})
unfolding reject_duplicates reject_conflicts reject_overlaps
validate_transfer_overlap transfers =
    reject_duplicates [] (sources_of transfers)
    >> (reject_conflicts (targets_of transfers)
        >> reject_overlaps (sources_of transfers) (targets_of transfers))

module _ (files : Files) where
  unfoldable pub validate_regular_source : Location → Bool → Result TransferError (Unit {0})
  validate_regular_source source true = ok tt
  validate_regular_source source false =
      raise_if (not (files.is_file source)) no_source
      >> raise_if (ltb 1 (files.st_nlink source)) hard_linked

  unfoldable pub validate_transfer_source : Location → Result TransferError (Unit {0})
  unfolding validate_regular_source
  validate_transfer_source source =
      raise_if (files.is_symlink source) symlink
      >> validate_regular_source source (files.is_dir source)

  -- The tests of a destination that exists.
  unfoldable pub validate_existing :
      Location → List (ℕ × ℕ) → Bool → Bool → Result TransferError (Unit {0})
  validate_existing target source_ids directory false = ok tt
  validate_existing target source_ids directory true =
      raise_if (directory && not (files.is_dir target)) no_directory
      >> (raise_if (not directory && not (files.is_file target)) no_regular_file
          >> (raise_if (not directory && ltb 1 (files.st_nlink target)) hard_linked
              >> raise_if (has_identity (files.identity target) source_ids) aliases_source))

  unfoldable pub validate_transfer_target :
      Location → List (ℕ × ℕ) → Bool → Result TransferError (Unit {0})
  unfolding validate_existing has_identity
  validate_transfer_target target source_ids directory =
      raise_if (files.is_symlink target) symlink
      >> validate_existing target source_ids directory (files.exists target)

  unfoldable pub validate_sources : List (Location × String) → Result TransferError (Unit {0})
  unfolding validate_transfer_source
  validate_sources [] = ok tt
  validate_sources ((source, name) ∷ named) =
      validate_transfer_source source >> validate_sources named

  abbrev pub source_ids_of : List (Location × String) → List (ℕ × ℕ)
  source_ids_of named = map (λ n. files.identity n.0) named

  -- `target /= name`, unless the name is a dot or two.
  unfoldable pub target_of : Bool → Location → String → Location
  target_of into_directory destination name =
      if into_directory && not (str_eq name "." || str_eq name "..")
      then destination ++ name ∷ []
      else destination

  abbrev pub with_transfer :
      Transfer → Result TransferError (List Transfer) → Result TransferError (List Transfer)
  with_transfer transfer transfers = transfers >>= λ others. ok (transfer ∷ others)

  unfoldable pub map_targets :
      List (ℕ × ℕ)
      → Bool
      → Location
      → List (Location × String)
      → Result TransferError (List Transfer)
  unfolding target_of validate_transfer_target
  map_targets source_ids into_directory destination [] = ok []
  map_targets source_ids into_directory destination ((source, name) ∷ named) =
      let target = target_of into_directory destination name in
      raise_if (not (files.is_dir (parent target))) no_parent
      >> (validate_transfer_target target source_ids (files.is_dir source)
          >> with_transfer (source, target)
              (map_targets source_ids into_directory destination named))

  unfoldable pub checked_overlap : List Transfer → Result TransferError (List Transfer)
  unfolding validate_transfer_overlap
  checked_overlap transfers = validate_transfer_overlap transfers >> ok transfers

  -- The sources come with their names.
  unfoldable pub resolve_transfers :
      List (Location × String) → Location → Bool → Result TransferError (List Transfer)
  unfolding validate_sources map_targets checked_overlap
  resolve_transfers named destination into_directory =
      validate_sources named
      >> (map_targets (source_ids_of named) into_directory destination named >>= checked_overlap)

  -- Whether a transfer replaces what stands at its destination.
  abbrev pub replaces : Operation → Location → Bool
  replaces source_operation destination =
      files.exists destination
      && (not (files.is_dir destination) || operation_eq source_operation delete)

  abbrev pub with_replaced :
      Bool → Location → List (Operation × Location) → List (Operation × Location)
  with_replaced true destination rest = (read, destination) ∷ (delete, destination) ∷ rest
  with_replaced false destination rest = rest

  unfoldable pub operations_of : Operation → List Transfer → List (Operation × Location)
  operations_of source_operation [] = []
  operations_of source_operation ((source, destination) ∷ transfers) =
      let rest = operations_of source_operation transfers in
      (source_operation, source)
      ∷ (create, destination)
      ∷ with_replaced (replaces source_operation destination) destination rest

unfoldable pub has_operation : Operation × Location → List (Operation × Location) → Bool
unfolding location_eq
has_operation o [] = false
has_operation o (other ∷ operations) =
    (operation_eq o.0 other.0 && location_eq o.1 other.1) || has_operation o operations

-- `list(dict.fromkeys(operations))`, with the keys so far
unfoldable pub from_keys :
    List (Operation × Location) → List (Operation × Location) → List (Operation × Location)
unfolding has_operation
from_keys seen [] = []
from_keys seen (o ∷ operations) =
    let rest = from_keys (o ∷ seen) operations in if has_operation o seen then rest else o ∷ rest

-- The operations of `_prepared_transfer`.
unfoldable pub prepared_operations : Files → Operation → List Transfer → List (Operation × Location)
unfolding from_keys operations_of
prepared_operations files source_operation transfers =
    from_keys [] (operations_of files source_operation transfers)
