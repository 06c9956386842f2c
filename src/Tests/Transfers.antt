-- ===== src/Tests/Transfers.antt =====
-- A file and a directory that are copied into a directory, and the theorems at them.
use roboz.Prelude.{
  ℕ, String, ◌≡◌, refl, true, false, ◌||◌, if◌then◌else◌, str_eq, List, [], ◌∷◌, ok, err, All,
}
use roboz.Guard.Policy.{Operation, read, create, delete}
use roboz.Cli.Transfers.{
  Location, Files, Transfer, location_eq, resolve_transfers, prepared_operations, duplicate_source,
}
use roboz.Cli.Transfers.Resolved.{Resolved, resolve_transfers-Resolved}
use roboz.Cli.Transfers.Prepared.{Guarded, prepared_operations-Guarded}

abbrev notes : Location
notes = "notes" ∷ []

abbrev plan : Location
plan = "plan" ∷ []

abbrev archive : Location
archive = "archive" ∷ []

abbrev archived : Location
archived = "archive" ∷ "plan" ∷ []

-- A number for each location.
abbrev identity_of : Location → ℕ
identity_of [] = 0
identity_of (part ∷ []) = if str_eq part "notes" then 1 else 2
identity_of (part ∷ next ∷ parts) = 3

-- There are a directory notes, a file plan, and a directory archive with a file plan.
abbrev files : Files
files = record {
  is_symlink = λ l. false;
  is_dir = λ l. location_eq l [] || location_eq l notes || location_eq l archive;
  is_file = λ l. location_eq l plan || location_eq l archived;
  exists = λ l.
      location_eq l notes || location_eq l archive || location_eq l plan || location_eq l archived;
  st_nlink = λ l. 1;
  identity = λ l. (1, identity_of l);
}

abbrev named : List (Location × String)
named = (notes, "notes") ∷ (plan, "plan") ∷ []

abbrev transfers : List Transfer
transfers = (notes, "archive" ∷ "notes" ∷ []) ∷ (plan, archived) ∷ []

resolves : resolve_transfers files named archive true ≡ ok transfers
unfolding resolve_transfers
resolves = refl

twice :
    resolve_transfers files ((plan, "plan") ∷ (plan, "plan") ∷ []) archive true
    ≡ err duplicate_source
unfolding resolve_transfers
twice = refl

guards :
    prepared_operations files read transfers
    ≡ (read, notes)
      ∷ (create, "archive" ∷ "notes" ∷ [])
      ∷ (read, plan)
      ∷ (create, archived)
      ∷ (read, archived)
      ∷ (delete, archived)
      ∷ []
unfolding prepared_operations roboz.Guard.Policy.operation_eq
guards = refl

-- Both are copied into the archive.
resolve_transfers-Resolved_example :
    Resolved files named archive true (resolve_transfers files named archive true)
resolve_transfers-Resolved_example = resolve_transfers-Resolved files named archive true

-- The file in the archive is read and deleted.
prepared_operations-Guarded_example :
    All (Guarded files read (prepared_operations files read transfers)) transfers
prepared_operations-Guarded_example = prepared_operations-Guarded files read transfers
