-- ===== src/Scripts/Server/Gate.antt =====
-- One run behind the gate: what it yields, and how it leaves the gate.
use roboz.Prelude.{
  ℕ, ◌*◌, ◌≤◌, ◌≡◌, refl, true, false, Option, none, some, List, arith, Bool, Result, ok, err,
}
use roboz.Prelude.Text.{Text}
use roboz.Scripts.{ExecutionPolicy, Completed, Response}
use roboz.Scripts.Server.{
  Raised, System, Host, Stream, Run, check, cleaned_up, cleaned, behind_gate, after_spawn,
  after_lock, execute,
}
use roboz.Scripts.Server.Bounds.{
  Expands, output_bytes, IsOutput, Fits, Bounded, Bounded-mono, running, bounded, outcome_of-busy,
  read_output-Bounded,
}

module _ {W D E : Type 0} (system : System W D E) (utf8 : Text → List ℕ) where
  -- If the run ends: only output within the bound, an exception or a completion that the wire
  -- accepts, and the gate as it was found.
  pub data Served (n : ℕ) (locked : Bool) : Option (Run system) → Type 0 where
    unserved : Served n locked none
    served :
        {responses : List Response} {end : Result (Raised E) Completed} {host : Host W}
        → IsOutput responses
        → output_bytes utf8 responses ≤ n
        → Fits end
        → host.locked ≡ locked
        → Served n locked (some (responses, end, host))

  cleaned-Served :
      {n : ℕ} {o : Option (Stream system Completed)}
      → Bounded system utf8 n o
      → Served n false (cleaned system o)
  unfolding cleaned cleaned_up
  cleaned-Served running = unserved
  cleaned-Served (bounded outputs within fits) = served outputs within fits refl

  module _ (expands : Expands system utf8) (policy : ExecutionPolicy) where
    abbrev limit : ℕ
    limit = 3 * policy.max_output_bytes

    after_spawn-Served :
        (fuel deadline : ℕ) (r : Result Text (Unit {0}) × W)
        → Served limit false (after_spawn system fuel deadline policy r)
    unfolding after_spawn
    after_spawn-Served fuel deadline (err text, w) = served tt (omega arith) tt refl
    after_spawn-Served fuel deadline (ok done, w) = cleaned-Served (
        Bounded-mono system utf8 (omega (arith, expands.pending-decoder)) (
          read_output-Bounded system utf8 expands fuel deadline true policy.max_output_bytes
            system.decoder w))

    after_lock-Served :
        (fuel deadline : ℕ) (path : Text) (w : W) (r : Result (Raised E) (Unit {0}))
        → Served limit false (after_lock system fuel deadline policy path w r)
    unfolding after_lock
    after_lock-Served fuel deadline path w (err e) = served tt (omega arith) tt refl
    after_lock-Served fuel deadline path w (ok done) =
        after_spawn-Served fuel deadline (system.spawn path w)

    behind_gate-Served :
        (fuel deadline : ℕ) (path : Text) (host : Host W) (locked : Bool)
        → host.locked ≡ locked
        → Served limit locked (behind_gate system fuel deadline policy path host locked)
    unfolding behind_gate
    behind_gate-Served fuel deadline path host true h =
        served tt (omega arith) (outcome_of-busy system utf8 _) h
    behind_gate-Served fuel deadline path host false h =
        after_lock-Served fuel deadline path host.world (check system deadline host.world)

    pub execute-Served :
        (fuel deadline : ℕ) (path : Text) (host : Host W)
        → Served limit host.locked (execute system fuel deadline policy path host)
    unfolding execute
    execute-Served fuel deadline path host =
        behind_gate-Served fuel deadline path host host.locked refl
