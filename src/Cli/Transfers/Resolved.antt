-- ===== src/Cli/Transfers/Resolved.antt =====
-- The transfers that are accepted: one for each source, between usable locations that are apart.
use roboz.Prelude.{
  ℕ, String, ◌≡◌, refl, sym, ap, ◌∙◌, Bool, List, [], ◌∷◌, map, Result, ok, err, ◌>>◌, All,
}
use mathlib.Core.Path.{subst}
use roboz.Cli.Transfers.{
  Location, Files, TransferError, symlink, no_parent, parent, Transfer, sources_of, targets_of,
  validate_transfer_overlap, validate_existing, validate_transfer_target, source_ids_of, target_of,
  map_targets, checked_overlap, resolve_transfers, reject_conflicts, reject_overlaps,
}
use roboz.Cli.Transfers.Separate.{
  Apart, AllApart, Distinct, then-ok, raise_if-ok, reject_conflicts-AllApart, reject_overlaps-Apart,
  reject_duplicates-Distinct,
}
use roboz.Cli.Transfers.Sound.{
  Only, holds, raises, Only-then, Only-map, Only-bind, not-false, SoundSource, SoundTransfer,
  validate_sources-Sound, validate_existing-Usable,
}

module _ (files : Files) where
  module _ (source_ids : List (ℕ × ℕ)) (into_directory : Bool) (destination : Location) where
    abbrev planned : List (Location × String) → List Transfer
    planned named = map (λ n. (n.0, target_of files into_directory destination n.1)) named

    Mapped : List (Location × String) → List Transfer → Type 0
    Mapped named transfers =
        (transfers ≡ planned named) × All (SoundTransfer files source_ids) transfers

    map_targets-Mapped :
        (named : List (Location × String))
        → Only (Mapped named) (map_targets files source_ids into_directory destination named)
    unfolding map_targets Mapped validate_transfer_target
    map_targets-Mapped [] = holds (refl, tt)
    map_targets-Mapped ((source, name) ∷ named) =
        let target = target_of files into_directory destination name in
        Only-then _ _ (λ has_parent. Only-then _ _ (λ valid.
          let (no_link, usable) =
            then-ok _
              (validate_existing files target source_ids (files.is_dir source)
                (files.exists target))
              valid in
          Only-bind _ _ (map_targets-Mapped named) (λ others mapped. holds (
            ap (λ ts. (source, target) ∷ ts) mapped.0,
            (
              (
                not-false (files.is_dir (parent target)) (raise_if-ok _ no_parent has_parent),
                raise_if-ok _ symlink no_link,
                validate_existing-Usable files source target source_ids (files.is_dir source)
                    (files.exists target) refl refl usable,
              ),
              mapped.1,
            ),
          ))))

  -- Transfers that are accepted, or an error.
  pub data Resolved (named : List (Location × String)) (destination : Location)
      (into_directory : Bool) : Result TransferError (List Transfer) → Type 0 where
    resolved :
        {transfers : List Transfer}
        → transfers ≡ map (λ n. (n.0, target_of files into_directory destination n.1)) named
        → All (λ n. SoundSource files n.0) named
        → All (SoundTransfer files (source_ids_of files named)) transfers
        → Distinct (sources_of transfers)
        → AllApart (targets_of transfers)
        → All (λ source. All (Apart source) (targets_of transfers)) (sources_of transfers)
        → Resolved named destination into_directory (ok transfers)
    rejected : {e : TransferError} → Resolved named destination into_directory (err e)

  Separated : List Transfer → Type 0
  Separated transfers =
      Distinct (sources_of transfers)
      × AllApart (targets_of transfers)
      × All (λ source. All (Apart source) (targets_of transfers)) (sources_of transfers)

  checked_overlap-Separated :
      (transfers : List Transfer)
      → Only (λ ts. (ts ≡ transfers) × Separated ts) (checked_overlap files transfers)
  unfolding checked_overlap validate_transfer_overlap Separated
  checked_overlap-Separated transfers =
      let sources = sources_of transfers in
      let targets = targets_of transfers in
      Only-then _ _ (λ valid.
        let (unlike, rest) =
          then-ok _ (reject_conflicts targets >> reject_overlaps sources targets) valid in
        let (conflict_free, disjoint) = then-ok _ (reject_overlaps sources targets) rest in
        holds (
          refl,
          (
            (reject_duplicates-Distinct [] sources unlike).1,
            reject_conflicts-AllApart targets conflict_free,
            reject_overlaps-Apart sources targets disjoint,
          ),
        ))

  Accepted : List (Location × String) → Location → Bool → List Transfer → Type 0
  Accepted named destination into_directory transfers =
      (transfers ≡ map (λ n. (n.0, target_of files into_directory destination n.1)) named)
      × All (λ n. SoundSource files n.0) named
      × All (SoundTransfer files (source_ids_of files named)) transfers
      × Separated transfers

  Accepted-Resolved :
      (named : List (Location × String)) (destination : Location) (into_directory : Bool)
      (result : Result TransferError (List Transfer))
      → Only (Accepted named destination into_directory) result
      → Resolved named destination into_directory result
  unfolding Accepted Separated
  Accepted-Resolved named destination into_directory (ok transfers) (holds a) =
      resolved a.0 a.1 a.2 a.3.0 a.3.1 a.3.2
  Accepted-Resolved named destination into_directory (err e) raises = rejected

  -- Transfers that are accepted are one for each source in order, to the destination or below it under
  -- its name; each source is a directory or a regular file without other links, and is no
  -- symlink; each destination has a directory above it, is no symlink, and is free, or a directory
  -- for a directory, or a regular file without other links for a file, and aliases no source; no source
  -- stands twice, and no destination is related to a source or to another destination.
  pub resolve_transfers-Resolved :
      (named : List (Location × String)) (destination : Location) (into_directory : Bool)
      → Resolved named destination into_directory
          (resolve_transfers files named destination into_directory)
  unfolding resolve_transfers Accepted Mapped
  resolve_transfers-Resolved named destination into_directory =
      Accepted-Resolved named destination into_directory _ (
        Only-then _ _ (λ valid.
          Only-bind _ _
            (map_targets-Mapped (source_ids_of files named) into_directory destination named)
            (λ transfers mapped. Only-map _ (checked_overlap-Separated transfers) (λ ts separate. (
              separate.0 ∙ mapped.0,
              validate_sources-Sound files named valid,
              subst (All (SoundTransfer files (source_ids_of files named))) (sym separate.0)
                  mapped.1,
              separate.1,
            )))))
