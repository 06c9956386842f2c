-- ===== src/Cli/Execute/Safety.antt =====
-- What has to be true before a step launches a process.
use roboz.Prelude.{
  ◌≡◌, refl, ap, ◌∙◌, ◌⊎◌, inl, inr, true, Option, none, some, List, [], ◌∷◌, map, ok, All,
  Option-cases, Result-cases,
}
use roboz.Prelude.Text.{Text}
use roboz.Guard.Policy.{GuardStatus, allowed, denied, allow, item_verdict}
use roboz.Guard.Approval.{Exchange}
use roboz.Guard.Approval.Outcome.{Approved}
use roboz.Guard.Decision.{pending, guard_items_iff}
use roboz.Cli.Sequence.{split_command}
use roboz.Cli.Execute.{
  PreparedCommand, CommandExecution, Environment, prepared, guard_item, guard_step, step,
  step_process, failure_of, execute_file_command, command_label,
}
use roboz.Cli.Execute.Chain.{
  step-prepared, step-raised, prepare_step-raised, prepare_step-failed, prepare_step-ready,
  execute_file_command-labelled,
}

module _ {W : Type 0} (env : Environment W) where
  failure_of-denied :
      (message failure : Option Text)
      → (text : Text) × (failure_of denied message failure ≡ some text)
  unfolding failure_of
  failure_of-denied none failure = (_, refl)
  failure_of-denied (some []) failure = (_, refl)
  failure_of-denied (some (c ∷ text)) failure = (_, refl)

  failure_of-failed :
      (status : GuardStatus) (message : Option Text) (failure : Text)
      → (text : Text) × (failure_of status message (some failure) ≡ some text)
  unfolding failure_of
  failure_of-failed allowed message failure = (failure, refl)
  failure_of-failed denied message failure = failure_of-denied message (some failure)

  -- A denied command, or one that was not prepared, launches nothing.
  execute-unlaunched :
      (status : GuardStatus) (message : Option Text) (e : CommandExecution) (w : W)
      → (text : Text) × (failure_of status message e.failure ≡ some text)
      → (execute_file_command env status message e w).1 ≡ w
  unfolding step_process execute_file_command
  execute-unlaunched status message e w (text, fails) =
      elim (Option-cases (command_label e.ready (split_command e.remaining).0)) [
        | inl lacks ↦ rw (lacks, execute_file_command) refl
        | inr (command, labelled) ↦
            rw (execute_file_command-labelled env status message e w command labelled, fails) refl
      ]

  -- The command of a step is authorised: the policy allows each of its operations, and the user
  -- approved each that an ask rule matches.
  abbrev pub Authorised : PreparedCommand → W → Type 0
  Authorised command w =
      let items = map (guard_item command.ready) command.operations in
      let asked = pending env.full_match env.base env.guard (env.ask w) items in
      All (λ item. item_verdict env.full_match env.base env.guard item ≡ allow) items
      × ((env.guard.has_pipe ≡ true) ⊎ (asked ≡ []))
      × Approved (env.ask w) 0 asked

  status-cases : (status : GuardStatus) → (status ≡ allowed) ⊎ (status ≡ denied)
  status-cases allowed = inl refl
  status-cases denied = inr refl

  -- Whatever a step changes in the world, beyond the conversation with the user, it changes for a
  -- command that was prepared and authorised.
  pub step-Authorised :
      (e : CommandExecution) (w : W)
      → ((step env e w).1 ≡ w)
        ⊎ ((exchanges : List Exchange) × ((step env e w).1 ≡ env.heard exchanges w))
        ⊎ ((command : PreparedCommand) × (prepared env (split_command e.remaining).0 w
              ≡ some (ok command))
            × Authorised command w)
  unfolding guard_step
  step-Authorised e w = elim (Option-cases (prepared env (split_command e.remaining).0 w)) [
    | inl lacks ↦ inl (ap (λ o. o.1) (step-raised env e w (prepare_step-raised env e w lacks)))
    | inr (result, is) ↦ elim (Result-cases result) [
      | inr (message, bad) ↦ inr (
          inl (
            _,
            ap (λ o. o.1)
                  (step-prepared env e _ _ w
                    (prepare_step-failed env e w message (is ∙ ap some bad)))
                ∙ execute-unlaunched _ _ _ _ (failure_of-failed _ _ message),
          ))
      | inl (command, good) ↦
          let items = map (guard_item command.ready) command.operations in
          elim (status-cases (guard_step env items w).0.status) [
            | inl passed ↦ inr (
                inr (
                  command,
                  is ∙ ap some good,
                  (guard_items_iff env.full_match env.base env.guard (env.ask w) items).0 passed,
                ))
            | inr stopped ↦ inr (
                inl (
                  _,
                  ap (λ o. o.1)
                        (step-prepared env e _ _ w
                          (prepare_step-ready env e w command (is ∙ ap some good)))
                      ∙ execute-unlaunched _ _ _ _ (rw stopped (failure_of-denied _ none)),
                ))
          ]
    ]
  ]
