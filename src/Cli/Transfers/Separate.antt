-- ===== src/Cli/Transfers/Separate.antt =====
-- What transfers that are accepted keep apart.
use roboz.Prelude.{
  ◌≡◌, refl, Bool, true, false, ◌||◌, List, [], ◌∷◌, Result, ok, err, ◌>>◌, raise_if, All,
}
use roboz.Cli.Transfers.{
  Location, TransferError, conflicting_destinations, overlapping, duplicate_source, is_relative_to,
  location_eq, has_location, related, any_related, reject_duplicates, reject_conflicts,
  reject_overlaps,
}

pub then-ok :
    (first rest : Result TransferError (Unit {0}))
    → (first >> rest) ≡ ok tt
    → (first ≡ ok tt) × (rest ≡ ok tt)
then-ok (ok done) rest h = (refl, h)
then-ok (err e) rest h = cc

pub raise_if-ok : (b : Bool) (e : TransferError) → raise_if b e ≡ ok tt → b ≡ false
raise_if-ok false e h = refl
raise_if-ok true e h = cc

pub or-false : (a b : Bool) → (a || b) ≡ false → (a ≡ false) × (b ≡ false)
or-false false b h = (refl, h)
or-false true b h = cc

-- Neither of two locations is the other or stands below it.
abbrev pub Apart : Location → Location → Type 0
Apart left right = (is_relative_to left right ≡ false) × (is_relative_to right left ≡ false)

abbrev pub AllApart : List Location → Type 0
AllApart [] = Unit {0}
AllApart (l ∷ locations) = All (Apart l) locations × AllApart locations

abbrev pub Distinct : List Location → Type 0
Distinct [] = Unit {0}
Distinct (l ∷ locations) = All (λ other. location_eq other l ≡ false) locations × Distinct locations

any_related-Apart :
    (l : Location) (locations : List Location)
    → any_related l locations ≡ false
    → All (Apart l) locations
unfolding any_related related
any_related-Apart l [] h = tt
any_related-Apart l (other ∷ locations) h =
    let (here, later) = or-false (related l other) (any_related l locations) h in
    (
      or-false (is_relative_to l other) (is_relative_to other l) here,
      any_related-Apart l locations later,
    )

pub reject_conflicts-AllApart :
    (targets : List Location) → reject_conflicts targets ≡ ok tt → AllApart targets
unfolding reject_conflicts
reject_conflicts-AllApart [] h = tt
reject_conflicts-AllApart (target ∷ targets) h =
    let (here, later) = then-ok _ (reject_conflicts targets) h in
    (
      any_related-Apart target targets (raise_if-ok _ conflicting_destinations here),
      reject_conflicts-AllApart targets later,
    )

pub reject_overlaps-Apart :
    (sources targets : List Location)
    → reject_overlaps sources targets ≡ ok tt
    → All (λ source. All (Apart source) targets) sources
unfolding reject_overlaps
reject_overlaps-Apart [] targets h = tt
reject_overlaps-Apart (source ∷ sources) targets h =
    let (here, later) = then-ok _ (reject_overlaps sources targets) h in
    (
      any_related-Apart source targets (raise_if-ok _ overlapping here),
      reject_overlaps-Apart sources targets later,
    )

split_seen :
    (source : Location) (seen sources : List Location)
    → All (λ l. has_location l (source ∷ seen) ≡ false) sources
    → All (λ l. location_eq l source ≡ false) sources
      × All (λ l. has_location l seen ≡ false) sources
unfolding has_location
split_seen source seen [] h = (tt, tt)
split_seen source seen (l ∷ sources) h =
    let (unlike, unseen) = or-false (location_eq l source) (has_location l seen) h.0 in
    let (others, others_unseen) = split_seen source seen sources h.1 in
    ((unlike, others), (unseen, others_unseen))

pub reject_duplicates-Distinct :
    (seen sources : List Location)
    → reject_duplicates seen sources ≡ ok tt
    → All (λ l. has_location l seen ≡ false) sources × Distinct sources
unfolding reject_duplicates
reject_duplicates-Distinct seen [] h = (tt, tt)
reject_duplicates-Distinct seen (source ∷ sources) h =
    let (here, later) = then-ok _ (reject_duplicates (source ∷ seen) sources) h in
    let (unseen, distinct) = reject_duplicates-Distinct (source ∷ seen) sources later in
    let (unlike, others) = split_seen source seen sources unseen in
    ((raise_if-ok _ duplicate_source here, others), (unlike, distinct))
