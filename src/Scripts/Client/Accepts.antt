-- ===== src/Scripts/Client/Accepts.antt =====
-- Streams that a client accepts as they are.
use roboz.Prelude.{
  ℕ, ◌+◌, ◌*◌, ◌≤◌, ◌≡◌, refl, ap, true, false, List, [], ◌∷◌, ◌++◌, map, arith, ltb, length, ok,
}
use roboz.Prelude.Text.{Text}
use roboz.Scripts.{Completed, Response, output_chunk, script_entry, completion, response}
use roboz.Scripts.Client.{
  before, is_discovery_status, is_given, is_listed, check_completion, responses_from,
}
use roboz.Scripts.Server.Bounds.{output_bytes, IsOutput}
use roboz.Scripts.Discovery.Listing.{AreEntries}

check_completion-execution :
    (completed : Completed)
    → is_listed completed.status ≡ false
    → check_completion false false completed ≡ ok tt
unfolding check_completion
check_completion-execution completed h = rw h refl

check_completion-discovery :
    (completed : Completed)
    → is_discovery_status completed.status ≡ true
    → is_given completed.exit_code ≡ false
    → check_completion true false completed ≡ ok tt
unfolding check_completion
check_completion-discovery completed h g = rw (h, g) refl

module _ (utf8 : Text → List ℕ) (max_output_bytes : ℕ) where
  -- Output that stays within three times the advertised limit, and a completion of an execution.
  pub responses_from-execution :
      (total : ℕ) (responses : List Response) (completed : Completed)
      → IsOutput responses
      → total + output_bytes utf8 responses ≤ max_output_bytes * 3
      → is_listed completed.status ≡ false
      → responses_from utf8 false max_output_bytes total
          (map response (responses ++ completion completed ∷ []))
        ≡ (responses ++ completion completed ∷ [], ok tt)
  unfolding responses_from
  responses_from-execution total [] completed outputs within h =
      rw (check_completion-execution completed h) refl
  responses_from-execution total (output_chunk text ∷ responses) completed outputs within h =
      let short : ltb (max_output_bytes * 3) (total + length (utf8 text)) ≡ false = ground arith in
      rw short (
        ap (before utf8 false max_output_bytes (output_chunk text)) (
          responses_from-execution (total + length (utf8 text)) responses completed outputs
            (omega arith) h))
  responses_from-execution total (script_entry script text ∷ responses) completed outputs within h =
      absurd outputs
  responses_from-execution total (completion other ∷ responses) completed outputs within h =
      absurd outputs

  -- Entries, and a completion of a discovery.
  pub responses_from-discovery :
      (total : ℕ) (responses : List Response) (completed : Completed)
      → AreEntries responses
      → is_discovery_status completed.status ≡ true
      → is_given completed.exit_code ≡ false
      → responses_from utf8 true max_output_bytes total
          (map response (responses ++ completion completed ∷ []))
        ≡ (responses ++ completion completed ∷ [], ok tt)
  unfolding responses_from
  responses_from-discovery total [] completed entries h g =
      rw (check_completion-discovery completed h g) refl
  responses_from-discovery total (script_entry script text ∷ responses) completed entries h g =
      ap (before utf8 true max_output_bytes (script_entry script text))
        (responses_from-discovery total responses completed entries h g)
  responses_from-discovery total (output_chunk text ∷ responses) completed entries h g =
      absurd entries
  responses_from-discovery total (completion other ∷ responses) completed entries h g =
      absurd entries
