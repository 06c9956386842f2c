-- ===== src/Tests/Guard.antt =====
-- Runs of the guard, and its theorems at them.
use roboz.Prelude.{ℕ, ◌≡◌, refl, ◌↔◌, ◌⊎◌, Bool, true, some, List, [], ◌∷◌, Memᴰ, All}
use roboz.Prelude.Text.{Text, codes, text_eq}
use roboz.Guard.Policy.{
  deny, allow, allowed, denied, policy_denied, read, delete, FilePath, as_posix, literal,
  GuardFileSingle, GuardContext, item_verdict, matches,
}
use roboz.Guard.Approval.{Reply, reply, no_reply, guard_items}
use roboz.Guard.Approval.Outcome.{Approved}
use roboz.Guard.Decision.{
  pending, guard_items_iff, guard_items-denied, guard_items-deny_rule, IsFaithful,
  guard_items-IsFaithful, Asks, guard_items-exchanges,
}

-- Patterns that match only the path they spell.
abbrev spelled_match : FilePath → Text → Bool
spelled_match path pattern = text_eq (as_posix path) pattern

abbrev base : FilePath
base = record { absolute = true; parts = codes "work" ∷ [] }

abbrev at_work : Text → FilePath
at_work name = record { absolute = true; parts = codes "work" ∷ name ∷ [] }

abbrev read_a : GuardFileSingle ℕ
read_a = record { operation = read; location = at_work (codes "a"); value = 1 }

abbrev delete_b : GuardFileSingle ℕ
delete_b = record { operation = delete; location = at_work (codes "b"); value = 2 }

abbrev items : List (GuardFileSingle ℕ)
items = read_a ∷ delete_b ∷ []

-- Reading is allowed by default; deletions of b are to be asked for, and those of c are denied.
abbrev ctx : GuardContext
ctx = record {
  takes_precedence = deny;
  deny_rules = record { pattern = literal (codes "c"); operations = delete ∷ [] } ∷ [];
  allow_rules = [];
  ask_rules = record { pattern = literal (codes "b"); operations = delete ∷ [] } ∷ [];
  default_verdict = allow;
  has_pipe = true;
}

abbrev delete_c : GuardFileSingle ℕ
delete_c = record { operation = delete; location = at_work (codes "c"); value = 3 }

abbrev yes_man : ℕ → Reply
yes_man n = reply (codes " Yes ")

abbrev silent : ℕ → Reply
silent n = no_reply

approved : (guard_items spelled_match base ctx yes_man items).0.status ≡ allowed
unfolding guard_items roboz.Guard.Policy.first_denied item_verdict roboz.Guard.Policy.policy_verdict
    matches roboz.Guard.Policy.rule_matches roboz.Guard.Approval.pending_items
    roboz.Guard.Approval.approves roboz.Guard.Approval.allowed_result
approved = refl

unanswered : (guard_items spelled_match base ctx silent items).0.status ≡ denied
unfolding guard_items roboz.Guard.Policy.first_denied item_verdict roboz.Guard.Policy.policy_verdict
    matches roboz.Guard.Policy.rule_matches roboz.Guard.Approval.pending_items
    roboz.Guard.Approval.approves roboz.Guard.Approval.denied_result
unanswered = refl

guard_items_iff_example :
    ((guard_items spelled_match base ctx yes_man items).0.status ≡ allowed) ↔ (
      All (λ item. item_verdict spelled_match base ctx item ≡ allow) items
      × ((ctx.has_pipe ≡ true) ⊎ (pending spelled_match base ctx yes_man items ≡ []))
      × Approved yes_man 0 (pending spelled_match base ctx yes_man items))
guard_items_iff_example = guard_items_iff spelled_match base ctx yes_man items

guard_items-denied_example :
    ((guard_items spelled_match base ctx yes_man (read_a ∷ delete_c ∷ [])).0.status ≡ denied)
    × ((guard_items spelled_match base ctx yes_man (read_a ∷ delete_c ∷ [])).0.deny_reason
        ≡ some policy_denied)
    × ((guard_items spelled_match base ctx yes_man (read_a ∷ delete_c ∷ [])).1 ≡ [])
unfolding item_verdict matches roboz.Guard.Policy.policy_verdict roboz.Guard.Policy.rule_matches
guard_items-denied_example =
    guard_items-denied spelled_match base ctx yes_man (read_a ∷ delete_c ∷ [])
      (Memᴰ.tail (Memᴰ.head refl)) refl

guard_items-deny_rule_example :
    ((guard_items spelled_match base ctx yes_man (read_a ∷ delete_c ∷ [])).0.status ≡ denied)
    × ((guard_items spelled_match base ctx yes_man (read_a ∷ delete_c ∷ [])).0.deny_reason
        ≡ some policy_denied)
    × ((guard_items spelled_match base ctx yes_man (read_a ∷ delete_c ∷ [])).1 ≡ [])
unfolding matches roboz.Guard.Policy.rule_matches
guard_items-deny_rule_example =
    guard_items-deny_rule spelled_match base ctx yes_man (read_a ∷ delete_c ∷ []) refl
      (Memᴰ.tail (Memᴰ.head refl)) refl

guard_items-IsFaithful_example :
    IsFaithful spelled_match base ctx yes_man items
      (guard_items spelled_match base ctx yes_man items).0
guard_items-IsFaithful_example = guard_items-IsFaithful spelled_match base ctx yes_man items

guard_items-exchanges_example :
    Asks spelled_match base ctx silent items
      (guard_items spelled_match base ctx silent items).0.status
      (guard_items spelled_match base ctx silent items).1
guard_items-exchanges_example = guard_items-exchanges spelled_match base ctx silent items
