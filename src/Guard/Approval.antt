-- ===== src/Guard/Approval.antt =====
-- Approvals by the user, and the guard as a whole.
pub mod Outcome
use roboz.Prelude.{
  ℕ, zero, suc, Bool, true, false, not, ◌||◌, Option, none, some, List, [], ◌∷◌, ◌++◌, map,
  if◌then◌else◌,
}
use roboz.Prelude.Text.{Text, codes, text_eq, strip, lower}
use roboz.Guard.Policy.{
  ActionVerdict, deny, allow, GuardStatus, allowed, denied, GuardDenyReason, user_declined,
  policy_denied, Operation, FilePath, GuardFileSingle, GuardFileSingleResult, GuardContext, matches,
  first_denied,
}

-- What `interact_with_user` gives back: a reply, a time-out, or one of the errors that the loop
-- catches.
pub data Reply : Type 0 where
  reply : Text → Reply
  no_reply unavailable : Reply

unfoldable pub approves : Reply → Bool
unfolding lower strip text_eq
approves (reply text) =
    text_eq (lower (strip text)) (codes "y") || text_eq (lower (strip text)) (codes "yes")
approves _ = false

-- The messages of a result, as data: the prompts with their replies, and the final diagnostic.
pub data Diagnostic : Type 0 where
  denied_operation : Operation → FilePath → Diagnostic
  no_interaction_context no_reply_received declined_by_user : Diagnostic

pub record Exchange : Type 0 where
  pub operation : Operation
  pub location : FilePath
  pub answer : Reply

pub record GuardMessage : Type 0 where
  pub exchanges : List Exchange
  pub diagnostic : Option Diagnostic

-- What a `Truncation(threshold=0, severity=…)` of the guard says.
pub data Shown : Type 0 where
  light removed : Shown

pub record GuardFilesResult (V : Type 0) : Type 0 where
  pub status : GuardStatus
  pub deny_reason : Option GuardDenyReason
  pub items : List (GuardFileSingleResult V)
  pub message : Option GuardMessage
  pub truncation : Shown

abbrev nonempty_message : List Exchange → Option GuardMessage
nonempty_message [] = none
nonempty_message (e ∷ es) = some (record { exchanges = e ∷ es; diagnostic = none })

abbrev why_not : Reply → Option Diagnostic
why_not (reply text) = some declined_by_user
why_not no_reply = some no_reply_received
why_not unavailable = none

abbrev reason_of : Reply → GuardDenyReason
reason_of unavailable = policy_denied
reason_of _ = user_declined

module _ {V : Type 0} where
  abbrev pub item_result : ActionVerdict → GuardFileSingle V → GuardFileSingleResult V
  item_result verdict item = record {
    location = item.location;
    value = item.value;
    verdict = verdict;
  }

  unfoldable pub denied_result :
      GuardFileSingle V → GuardMessage → GuardDenyReason → GuardFilesResult V
  denied_result item message reason = record {
    status = denied;
    deny_reason = some reason;
    items = item_result deny item ∷ [];
    message = some message;
    truncation = light;
  }

  unfoldable pub allowed_result : List (GuardFileSingle V) → List Exchange → GuardFilesResult V
  allowed_result items exchanges = record {
    status = allowed;
    deny_reason = none;
    items = map (item_result allow) items;
    message = nonempty_message exchanges;
    truncation = removed;
  }

  abbrev pub exchange : GuardFileSingle V → Reply → Exchange
  exchange item answer = record {
    operation = item.operation;
    location = item.location;
    answer = answer;
  }

  -- The loop over the pending items: `ask n` is the answer to the n-th prompt. Items and exchanges
  -- of the prompts made so far come back with the result.
  unfoldable pub request_from :
      (ask : ℕ → Reply) (items : List (GuardFileSingle V)) (count : ℕ) (exchanges : List Exchange)
      → List (GuardFileSingle V)
      → GuardFilesResult V × List Exchange
  request_from ask items count exchanges [] = (allowed_result items exchanges, exchanges)
  request_from ask items count exchanges (item ∷ pending) =
      let made = exchanges ++ exchange item (ask count) ∷ [] in
      elim (approves (ask count)) [
        | true ↦ request_from ask items (suc count) made pending
        | false ↦ (
          denied_result item (record { exchanges = made; diagnostic = why_not (ask count) })
              (reason_of (ask count)),
          made,
        )
      ]

  unfoldable pub pending_items :
      (GuardFileSingle V → Bool) → List (GuardFileSingle V) → List (GuardFileSingle V)
  pending_items asks [] = []
  pending_items asks (item ∷ items) =
      let rest = pending_items asks items in if asks item then item ∷ rest else rest

  -- `_request_approvals`, with the exchanges that took place.
  unfoldable pub request_approvals :
      (ask : ℕ → Reply) (has_pipe : Bool) (items pending : List (GuardFileSingle V))
      → GuardFilesResult V × List Exchange
  unfolding request_from
  request_approvals ask true items pending = request_from ask items 0 [] pending
  request_approvals ask false items [] = request_from ask items 0 [] []
  request_approvals ask false items (item ∷ pending) = (
    denied_result item (record { exchanges = []; diagnostic = some no_interaction_context })
        policy_denied,
    [],
  )

  -- `guard_items`, where the context has a base; without one the code raises a ValueError first.
  unfoldable pub guard_items :
      (full_match : FilePath → Text → Bool) (base : FilePath) (ctx : GuardContext) (ask : ℕ → Reply)
      → List (GuardFileSingle V)
      → GuardFilesResult V × List Exchange
  unfolding request_approvals
  guard_items full_match base ctx ask items = elim (first_denied full_match base ctx items) [
    | some item ↦ (
      denied_result item
          (record {
            exchanges = [];
            diagnostic = some (denied_operation item.operation item.location);
          })
          policy_denied,
      [],
    )
    | none ↦
        request_approvals ask ctx.has_pipe items
          (pending_items (matches full_match base ctx.ask_rules) items)
  ]
