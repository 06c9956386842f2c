-- ===== src/Scripts/Events.antt =====
-- shed/tools/safe_scripts/server.py, `Scripts.events`: a request as the whole stream of its
-- responses, the completion last.
pub mod Selected
pub mod Stream
use roboz.Prelude.{
  ℕ, ◌+◌, Bool, true, false, Option, none, some, List, [], ◌∷◌, ◌++◌, Result, ok, err,
}
use roboz.Prelude.Text.{Text, codes, join}
use roboz.Scripts.{
  ExecutionPolicy, Completed, Response, completion, refused, failed, timeout, ValueError, outcome,
}
use roboz.Scripts.Server.{
  Raised, deadline_expired, os_error, value_error, cancelled, System, Host, Run, check, outcome_of,
  execute,
}
use roboz.Scripts.Discovery.{Files, Root, discover, valid_script}

module _ {W D E : Type 0} (system : System W D E) (files : Files) (root : Root) where
  abbrev pub in_host :
      Host W → Option (List Response × Result (Raised E) Completed × W) → Option (Run system)
  in_host host none = none
  in_host host (some (responses, end, w)) = some (responses, end, record host { world = w })

  unfoldable pub after_valid :
      ℕ → ℕ → ExecutionPolicy → Host W → Option (List Text) → Option (Run system)
  unfolding execute outcome_of
  after_valid fuel deadline policy host none =
      some ([], outcome_of system refused none (codes "only installed .sh files may run"), host)
  after_valid fuel deadline policy host (some path) =
      execute system fuel deadline policy (join (codes "/") path) host

  unfoldable pub select_operation :
      ℕ
      → ℕ
      → ExecutionPolicy
      → Option Text
      → Host W
      → Result (Raised E) (Unit {0})
      → Option (Run system)
  unfolding discover valid_script after_valid
  select_operation fuel deadline policy script host (err e) = some ([], err e, host)
  select_operation fuel deadline policy none host (ok done) =
      in_host host (discover system files fuel deadline root host.world)
  select_operation fuel deadline policy (some script) host (ok done) =
      after_valid fuel deadline policy host (valid_script files script)

  -- The handlers: a deadline is a timeout, and an OSError or a ValueError a failure.
  unfoldable pub handled : Result (Raised E) Completed → Result (Raised E) Completed
  unfolding outcome_of
  handled (err deadline_expired) = outcome_of system timeout none []
  handled (err (os_error text)) = outcome_of system failed none text
  handled (err (value_error e)) = outcome_of system failed none (system.error_text e)
  handled end = end

  abbrev pub Events : Type 0
  Events = List Response × Result (Raised E) (Unit {0}) × Host W

  -- `yield completion`
  abbrev pub completed_by : List Response → Result (Raised E) Completed → Host W → Events
  completed_by responses (err e) host = (responses, err e, host)
  completed_by responses (ok completed) host = (responses ++ completion completed ∷ [], ok tt, host)

  unfoldable pub with_completion : Option (Run system) → Option Events
  unfolding handled
  with_completion none = none
  with_completion (some (responses, end, host)) = some (completed_by responses (handled end) host)

  unfoldable pub events : ℕ → ExecutionPolicy → Option Text → Host W → Option Events
  unfolding with_completion select_operation check
  events fuel policy script host =
      let deadline = system.now host.world + policy.timeout_s in
      with_completion
        (select_operation fuel deadline policy script host (check system deadline host.world))
