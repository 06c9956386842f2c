-- ===== src/Scripts/Discovery/Listing.antt =====
-- A discovery ends, and its responses are entries and a completion that the wire accepts.
use roboz.Prelude.{
  ℕ, zero, suc, ◌+◌, ◌≤◌, ◌<◌, ◌≡◌, refl, true, false, Option, none, some, List, [], ◌∷◌, ◌++◌,
  arith, length, Result, ok, err, length-take,
}
use roboz.Prelude.Text.{Text}
use roboz.Scripts.{
  Completed, Response, script_entry, listed, refused, outcome, validate_outcome,
  max_diagnostic_chars,
}
use roboz.Scripts.Client.{is_discovery_status, is_given}
use roboz.Scripts.Server.{Raised, System, Stream, check, yielding, outcome_of}
use roboz.Scripts.Server.Ends.{Ended, ended, yielding-Ended}
use roboz.Scripts.Discovery.{
  Files, Items, no_items, directory, regular, skipped, Root, symlink, absent, scanned, Stack, posix,
  entry_of, after_item, valid_script, scan, discover,
}

abbrev pub AreEntries : List Response → Type 0
AreEntries [] = Unit {0}
AreEntries (script_entry script description ∷ responses) = AreEntries responses
AreEntries (_ ∷ responses) = ⊥

-- An exception, or a completion of a discovery that the wire accepts.
abbrev pub Completes : {E : Type 0} → Result (Raised E) Completed → Type 0
Completes (err e) = Unit {0}
Completes (ok completed) =
    (is_discovery_status completed.status ≡ true)
    × (is_given completed.exit_code ≡ false)
    × (validate_outcome completed.status completed.exit_code ≡ ok tt)
    × (length completed.diagnostic ≤ max_diagnostic_chars)

-- How many items a directory holds, at any depth, with one for its end.
abbrev pub size : Items → ℕ
size no_items = 1
size (directory name inner items) = suc (size inner + size items)
size (regular name items) = suc (size items)
size (skipped name items) = suc (size items)

abbrev pub root_size : Root → ℕ
root_size symlink = 0
root_size absent = 0
root_size (scanned items) = size items

module _ {W D E : Type 0} (system : System W D E) (files : Files) where
  abbrev stack_size : Stack system files → ℕ
  stack_size [] = 0
  stack_size ((path, items) ∷ stack) = size items + stack_size stack

  pub data Lists : Option (Stream system Completed) → Type 0 where
    scanning : Lists none
    lists :
        {responses : List Response} {end : Result (Raised E) Completed} {w : W}
        → AreEntries responses
        → Completes end
        → Lists (some (responses, end, w))

  after_item-Lists :
      (r : Result (Raised E) (Unit {0})) (w : W) {later : Option (Stream system Completed)}
      → Lists later
      → Lists (after_item system files r w later)
  after_item-Lists (err e) w all = lists tt tt
  after_item-Lists (ok done) w all = all

  entry_of-Lists :
      (path : List Text) (valid : Option (List Text)) {later : Option (Stream system Completed)}
      → Lists later
      → Lists (yielding system (entry_of system files path valid) later)
  entry_of-Lists path valid scanning = scanning
  entry_of-Lists path none (lists entries completes) = lists entries completes
  entry_of-Lists path (some parts) (lists entries completes) = lists entries completes

  listed-Completes : Completes (outcome_of system listed none [])
  unfolding outcome_of outcome validate_outcome is_discovery_status
  listed-Completes = (refl, refl, refl, omega arith)

  listed-Completes_text : (text : Text) → Completes (outcome_of system listed none text)
  unfolding outcome_of outcome validate_outcome is_discovery_status
  listed-Completes_text text =
      (refl, refl, refl, omega (arith, length-take {0} max_diagnostic_chars text))

  refused-Completes : (text : Text) → Completes (outcome_of system refused none text)
  unfolding outcome_of outcome validate_outcome is_discovery_status
  refused-Completes text =
      (refl, refl, refl, omega (arith, length-take {0} max_diagnostic_chars text))

  scan-Lists :
      (fuel deadline : ℕ) (path : List Text) (items : Items) (stack : Stack system files) (w : W)
      → Lists (scan system files fuel deadline path items stack w)
  unfolding scan
  scan-Lists zero deadline path items stack w = scanning
  scan-Lists (suc fuel) deadline path no_items [] w =
      after_item-Lists (check system deadline w) w (lists tt listed-Completes)
  scan-Lists (suc fuel) deadline path no_items ((next, items) ∷ stack) w =
      after_item-Lists (check system deadline w) w
        (scan-Lists fuel deadline next items stack (system.pause w))
  scan-Lists (suc fuel) deadline path (directory name inner items) stack w =
      after_item-Lists (check system deadline w) w
        (scan-Lists fuel deadline path items ((path ++ name ∷ [], inner) ∷ stack) (system.pause w))
  scan-Lists (suc fuel) deadline path (regular name items) stack w =
      after_item-Lists (check system deadline w) w (
        entry_of-Lists (path ++ name ∷ []) _
          (scan-Lists fuel deadline path items stack (system.pause w)))
  scan-Lists (suc fuel) deadline path (skipped name items) stack w =
      after_item-Lists (check system deadline w) w
        (scan-Lists fuel deadline path items stack (system.pause w))

  pub discover-Lists :
      (fuel deadline : ℕ) (root : Root) (w : W) → Lists (discover system files fuel deadline root w)
  unfolding discover
  discover-Lists fuel deadline symlink w = lists tt (refused-Completes _)
  discover-Lists fuel deadline absent w = lists tt (listed-Completes_text _)
  discover-Lists fuel deadline (scanned items) w = scan-Lists fuel deadline [] no_items _ w

  after_item-Ended :
      (r : Result (Raised E) (Unit {0})) (w : W) {later : Option (Stream system Completed)}
      → Ended later
      → Ended (after_item system files r w later)
  after_item-Ended (err e) w done = ended
  after_item-Ended (ok passed) w done = done

  scan-Ended :
      (fuel deadline : ℕ) (path : List Text) (items : Items) (stack : Stack system files) (w : W)
      → size items + stack_size stack ≤ fuel
      → Ended (scan system files fuel deadline path items stack w)
  unfolding scan
  scan-Ended zero deadline path no_items stack w h = absurd (omega arith)
  scan-Ended zero deadline path (directory name inner items) stack w h = absurd (omega arith)
  scan-Ended zero deadline path (regular name items) stack w h = absurd (omega arith)
  scan-Ended zero deadline path (skipped name items) stack w h = absurd (omega arith)
  scan-Ended (suc fuel) deadline path no_items [] w h =
      after_item-Ended (check system deadline w) w ended
  scan-Ended (suc fuel) deadline path no_items ((next, items) ∷ stack) w h =
      after_item-Ended (check system deadline w) w
        (scan-Ended fuel deadline next items stack (system.pause w) (omega arith))
  scan-Ended (suc fuel) deadline path (directory name inner items) stack w h =
      after_item-Ended (check system deadline w) w (
        scan-Ended fuel deadline path items ((path ++ name ∷ [], inner) ∷ stack) (system.pause w)
          (omega arith))
  scan-Ended (suc fuel) deadline path (regular name items) stack w h =
      after_item-Ended (check system deadline w) w (
        yielding-Ended system
          (entry_of system files (path ++ name ∷ [])
            (valid_script files (posix system files (path ++ name ∷ []))))
          (scan system files fuel deadline path items stack (system.pause w))
          (scan-Ended fuel deadline path items stack (system.pause w) (omega arith)))
  scan-Ended (suc fuel) deadline path (skipped name items) stack w h =
      after_item-Ended (check system deadline w) w
        (scan-Ended fuel deadline path items stack (system.pause w) (omega arith))

  -- With a unit of fuel for every item, a discovery ends.
  pub discover-Ended :
      (fuel deadline : ℕ) (root : Root) (w : W)
      → root_size root < fuel
      → Ended (discover system files fuel deadline root w)
  unfolding discover
  discover-Ended fuel deadline symlink w h = ended
  discover-Ended fuel deadline absent w h = ended
  discover-Ended fuel deadline (scanned items) w h =
      scan-Ended fuel deadline [] no_items (([], items) ∷ []) w (omega arith)
