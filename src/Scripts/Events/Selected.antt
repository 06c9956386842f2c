-- ===== src/Scripts/Events/Selected.antt =====
-- What an operation yields, by what is requested, and how it ends.
use roboz.Prelude.{
  ℕ, ◌*◌, ◌≤◌, ◌≡◌, refl, Bool, Option, none, some, List, [], arith, length-take, Result, ok, err,
}
use roboz.Prelude.Text.{Text}
use roboz.Scripts.{
  ExecutionPolicy, Completed, Response, validate_outcome, outcome, refused, max_diagnostic_chars,
}
use roboz.Scripts.Server.{Raised, System, Host, Run, Stream, outcome_of}
use roboz.Scripts.Server.Bounds.{Expands, output_bytes, IsOutput, Fits}
use roboz.Scripts.Server.Gate.{Served, unserved, served, execute-Served}
use roboz.Scripts.Discovery.{Files, Root, valid_script}
use roboz.Scripts.Discovery.Listing.{AreEntries, Completes, Lists, scanning, lists, discover-Lists}
use roboz.Scripts.Client.{responses}
use roboz.Scripts.Events.{in_host, after_valid, select_operation}

module _ {W D E : Type 0} (system : System W D E) (files : Files) (root : Root)
    (utf8 : Text → List ℕ) where
  abbrev pub Shape : Option Text → ℕ → List Response → Type 0
  Shape none n responses = AreEntries responses
  Shape (some script) n responses = IsOutput responses × (output_bytes utf8 responses ≤ n)

  abbrev pub Closes : Option Text → Result (Raised E) Completed → Type 0
  Closes none end = Completes end
  Closes (some script) end = Fits end

  pub data Selected (script : Option Text) (n : ℕ) (locked : Bool)
      : Option (Run system) → Type 0 where
    unselected : Selected script n locked none
    selected :
        {responses : List Response} {end : Result (Raised E) Completed} {host : Host W}
        → Shape script n responses
        → Closes script end
        → host.locked ≡ locked
        → Selected script n locked (some (responses, end, host))

  Selected-Served :
      {script : Text} {n : ℕ} {locked : Bool} {o : Option (Run system)}
      → Served system utf8 n locked o
      → Selected (some script) n locked o
  Selected-Served unserved = unselected
  Selected-Served (served outputs within fits kept) = selected (outputs, within) fits kept

  Selected-Lists :
      {n : ℕ} (host : Host W) {o : Option (Stream system Completed)}
      → Lists system files o
      → Selected none n host.locked (in_host system files root host o)
  Selected-Lists host scanning = unselected
  Selected-Lists host (lists entries completes) = selected entries completes refl

  refused-Fits : (text : Text) → Fits (outcome_of system refused none text)
  unfolding outcome_of outcome validate_outcome
  refused-Fits text = (refl, refl, omega (arith, length-take {0} max_diagnostic_chars text))

  nothing-Shape : (script : Option Text) (n : ℕ) → Shape script n []
  nothing-Shape none n = tt
  nothing-Shape (some script) n = (tt, omega arith)

  raised-Closes : (script : Option Text) (e : Raised E) → Closes script (err e)
  raised-Closes none e = tt
  raised-Closes (some script) e = tt

  module _ (expands : Expands system utf8) (policy : ExecutionPolicy) where
    abbrev pub limit : ℕ
    limit = 3 * policy.max_output_bytes

    after_valid-Selected :
        (fuel deadline : ℕ) (script : Text) (host : Host W) (path : Option (List Text))
        → Selected
            (some script)
            limit
            host.locked
            (after_valid system files root fuel deadline policy host path)
    unfolding after_valid
    after_valid-Selected fuel deadline script host none =
        selected (tt, omega arith) (refused-Fits _) refl
    after_valid-Selected fuel deadline script host (some path) =
        Selected-Served (execute-Served system utf8 expands policy fuel deadline _ host)

    pub select_operation-Selected :
        (fuel deadline : ℕ) (script : Option Text) (host : Host W)
        (r : Result (Raised E) (Unit {0}))
        → Selected script limit host.locked
            (select_operation system files root fuel deadline policy script host r)
    unfolding select_operation
    select_operation-Selected fuel deadline script host (err e) =
        selected (nothing-Shape script limit) (raised-Closes script e) refl
    select_operation-Selected fuel deadline none host (ok done) =
        Selected-Lists host (discover-Lists system files fuel deadline root host.world)
    select_operation-Selected fuel deadline (some script) host (ok done) =
        after_valid-Selected fuel deadline script host (valid_script files script)
