-- ===== src/Guard/Decision.antt =====
-- The decision of `guard_items`: when an operation is allowed, and what is asked on the way.
use roboz.Prelude.{
  ℕ, ◌≡◌, ◌≢◌, refl, sym, ap, ◌∙◌, ◌⊎◌, inl, inr, ◌↔◌, Bool, true, false, none, some, List, Memᴰ,
  [], ◌∷◌, map, arith, All, Option-cases, if◌then◌else◌, All-mem,
}
use mathlib.Core.Path.{subst}
use roboz.Prelude.Text.{Text}
use roboz.Guard.Policy.{
  deny, allow, GuardStatus, allowed, denied, policy_denied, FilePath, GuardFileSingle, GuardContext,
  matches, first_denied, item_verdict, policy_verdict,
}
use roboz.Guard.Approval.{
  Reply, Exchange, GuardFilesResult, item_result, request_from, pending_items, request_approvals,
  guard_items, denied_result, allowed_result,
}
use roboz.Guard.Approval.Outcome.{
  verdict_cases, Approved, request_from→Approved, Approved→allowed, request_from-results, Prompts,
  request_from-Prompts,
}

mem_of_if :
    {A : Type 0} {x : A} (keep : Bool) (y : A) (rest : List A)
    → Memᴰ x (if keep then y ∷ rest else rest)
    → (x ≡ y) ⊎ Memᴰ x rest
mem_of_if true y rest (Memᴰ.head e) = inl e
mem_of_if true y rest (Memᴰ.tail m) = inr m
mem_of_if false y rest m = inr m

deny≢allow : deny ≢ allow
deny≢allow = λ e. cc

module _ {V : Type 0} (full_match : FilePath → Text → Bool) (base : FilePath) (ctx : GuardContext)
    (ask : ℕ → Reply) where
  first_denied-none :
      (items : List (GuardFileSingle V))
      → first_denied full_match base ctx items ≡ none
      → All (λ item. item_verdict full_match base ctx item ≡ allow) items
  unfolding first_denied
  first_denied-none [] h = tt
  first_denied-none (item ∷ items) h = (ground arith, first_denied-none items (ground arith))

  none-first_denied :
      (items : List (GuardFileSingle V))
      → All (λ item. item_verdict full_match base ctx item ≡ allow) items
      → first_denied full_match base ctx items ≡ none
  unfolding first_denied
  none-first_denied [] h = refl
  none-first_denied (item ∷ items) h = ground (arith, none-first_denied items h.1)

  first_denied-some :
      {item : GuardFileSingle V} (items : List (GuardFileSingle V))
      → Memᴰ item items
      → item_verdict full_match base ctx item ≡ deny
      → (first : GuardFileSingle V) × (first_denied full_match base ctx items ≡ some first)
  first_denied-some items m h = elim (Option-cases (first_denied full_match base ctx items)) [
    | inl none_denied ↦ absurd (
        deny≢allow (
          sym h
          ∙ All-mem (λ i. item_verdict full_match base ctx i ≡ allow) items
              (first_denied-none items none_denied) m))
    | inr found ↦ found
  ]

  request_approvals→ :
      (has_pipe : Bool) (items waiting : List (GuardFileSingle V))
      → (request_approvals ask has_pipe items waiting).0.status ≡ allowed
      → ((has_pipe ≡ true) ⊎ (waiting ≡ [])) × Approved ask 0 waiting
  unfolding request_approvals denied_result
  request_approvals→ true items waiting h =
      (inl refl, request_from→Approved ask items 0 [] waiting h)
  request_approvals→ false items [] h = (inr refl, tt)
  request_approvals→ false items (item ∷ waiting) h = cc

  request_approvals← :
      (has_pipe : Bool) (items waiting : List (GuardFileSingle V))
      → (has_pipe ≡ true) ⊎ (waiting ≡ [])
      → Approved ask 0 waiting
      → (request_approvals ask has_pipe items waiting).0.status ≡ allowed
  unfolding request_approvals allowed_result
  request_approvals← true items waiting can h =
      let (e, same) = Approved→allowed ask items 0 [] waiting h in ap (λ r. r.0.status) same
  request_approvals← false items [] can h = unfold request_from in refl
  request_approvals← false items (item ∷ waiting) (inl with_pipe) h = cc
  request_approvals← false items (item ∷ waiting) (inr none_left) h = cc

  -- The items whose operation the user has to approve.
  abbrev pub pending : List (GuardFileSingle V) → List (GuardFileSingle V)
  pending items = pending_items (matches full_match base ctx.ask_rules) items

  forward :
      (items : List (GuardFileSingle V))
      → (guard_items full_match base ctx ask items).0.status ≡ allowed
      → All (λ item. item_verdict full_match base ctx item ≡ allow) items
        × ((ctx.has_pipe ≡ true) ⊎ (pending items ≡ []))
        × Approved ask 0 (pending items)
  unfolding guard_items denied_result
  forward items h = elim (Option-cases (first_denied full_match base ctx items)) [
    | inl none_denied ↦
        let (can, said) = request_approvals→ ctx.has_pipe items (pending items) (ground arith) in
        (first_denied-none items none_denied, can, said)
    | inr (item, found) ↦ absurd (ground arith)
  ]

  backward :
      (items : List (GuardFileSingle V))
      → All (λ item. item_verdict full_match base ctx item ≡ allow) items
        × ((ctx.has_pipe ≡ true) ⊎ (pending items ≡ []))
        × Approved ask 0 (pending items)
      → (guard_items full_match base ctx ask items).0.status ≡ allowed
  unfolding guard_items
  backward items (every, can, said) =
      rw (none-first_denied items every, guard_items)
        (request_approvals← ctx.has_pipe items (pending items) can said)

  -- The guard allows an operation exactly when the policy allows every item, and the user, asked
  -- in order, approves every item that an ask rule matches; without a pipe there must be no such
  -- item.
  pub guard_items_iff :
      (items : List (GuardFileSingle V))
      → ((guard_items full_match base ctx ask items).0.status ≡ allowed) ↔ (
          All (λ item. item_verdict full_match base ctx item ≡ allow) items
          × ((ctx.has_pipe ≡ true) ⊎ (pending items ≡ []))
          × Approved ask 0 (pending items))
  guard_items_iff items = (forward items, backward items)

  -- An item that the policy denies ends the guard before anyone is asked: the result is a denial by
  -- policy, and no prompt was made.
  pub guard_items-denied :
      {item : GuardFileSingle V} (items : List (GuardFileSingle V))
      → Memᴰ item items
      → item_verdict full_match base ctx item ≡ deny
      → ((guard_items full_match base ctx ask items).0.status ≡ denied)
        × ((guard_items full_match base ctx ask items).0.deny_reason ≡ some policy_denied)
        × ((guard_items full_match base ctx ask items).1 ≡ [])
  unfolding guard_items denied_result
  guard_items-denied items m h =
      let (first, found) = first_denied-some items m h in
      (rw (found, guard_items), rw (found, guard_items), rw (found, guard_items))

  -- With deny rules taking precedence, an item that a deny rule matches is never allowed, whatever
  -- the allow rules, the default and the answers are: the guard denies by policy and asks nobody.
  pub guard_items-deny_rule :
      {item : GuardFileSingle V} (items : List (GuardFileSingle V))
      → ctx.takes_precedence ≡ deny
      → Memᴰ item items
      → matches full_match base ctx.deny_rules item ≡ true
      → ((guard_items full_match base ctx ask items).0.status ≡ denied)
        × ((guard_items full_match base ctx ask items).0.deny_reason ≡ some policy_denied)
        × ((guard_items full_match base ctx ask items).1 ≡ [])
  unfolding item_verdict policy_verdict
  guard_items-deny_rule items precedence m rule = guard_items-denied items m (ground arith)

  -- What the items of a result say, by its status.
  pub record IsFaithful (items : List (GuardFileSingle V)) (r : GuardFilesResult V) : Type 0 where
    pub kept : r.status ≡ allowed → r.items ≡ map (item_result allow) items
    pub named :
        r.status ≡ denied
        → (item : GuardFileSingle V) × Memᴰ item items × (r.items ≡ item_result deny item ∷ [])

  first_denied-mem :
      (items : List (GuardFileSingle V)) (item : GuardFileSingle V)
      → first_denied full_match base ctx items ≡ some item
      → Memᴰ item items
  unfolding first_denied
  first_denied-mem [] item h = cc
  first_denied-mem (other ∷ items) item h =
      elim (verdict_cases (item_verdict full_match base ctx other)) [
        | inl denies ↦ Memᴰ.head (ground arith)
        | inr allows ↦ Memᴰ.tail (first_denied-mem items item (ground arith))
      ]

  pending-mem :
      (asks : GuardFileSingle V → Bool) (items : List (GuardFileSingle V))
      {item : GuardFileSingle V}
      → Memᴰ item (pending_items asks items)
      → Memᴰ item items
  unfolding pending_items
  pending-mem asks [] m = elim m [ ]
  pending-mem asks (other ∷ items) m = elim (mem_of_if (asks other) other _ m) [
    | inl e ↦ Memᴰ.head e
    | inr later ↦ Memᴰ.tail (pending-mem asks items later)
  ]

  allowed-IsFaithful :
      (items : List (GuardFileSingle V)) (e : List Exchange)
      → IsFaithful items (allowed_result items e)
  unfolding allowed_result
  allowed-IsFaithful items e = record { kept = λ _. refl; named = λ h. cc }

  denied-IsFaithful :
      (items : List (GuardFileSingle V)) {item : GuardFileSingle V} (m : Memᴰ item items)
      (r : GuardFilesResult V)
      → r.status ≡ denied
      → r.items ≡ item_result deny item ∷ []
      → IsFaithful items r
  denied-IsFaithful items {item} m r d one = record { kept = λ h. cc; named = λ h. (item, m, one) }

  request_approvals-IsFaithful :
      (has_pipe : Bool) (items waiting : List (GuardFileSingle V))
      → ((item : GuardFileSingle V) → Memᴰ item waiting → Memᴰ item items)
      → IsFaithful items (request_approvals ask has_pipe items waiting).0
  unfolding request_approvals denied_result
  request_approvals-IsFaithful true items waiting sub =
      elim (request_from-results ask items 0 [] waiting) [
        | inl (e, all) ↦ rw all (allowed-IsFaithful items e)
        | inr (item, m, d, one) ↦ denied-IsFaithful items (sub item m) _ d one
      ]
  request_approvals-IsFaithful false items [] sub =
      unfold request_from in allowed-IsFaithful items []
  request_approvals-IsFaithful false items (item ∷ waiting) sub =
      denied-IsFaithful items (sub item (Memᴰ.head refl)) _ refl refl

  -- An allowed operation keeps every item in order, with its location and payload and the verdict
  -- allow; a denial names one item of the operation, with the verdict deny.
  pub guard_items-IsFaithful :
      (items : List (GuardFileSingle V))
      → IsFaithful items (guard_items full_match base ctx ask items).0
  unfolding guard_items denied_result
  guard_items-IsFaithful items = elim (Option-cases (first_denied full_match base ctx items)) [
    | inl none_denied ↦
        rw (none_denied, guard_items)
          (request_approvals-IsFaithful ctx.has_pipe items (pending items)
            (λ item. pending-mem (matches full_match base ctx.ask_rules) items))
    | inr (item, found) ↦
        rw (found, guard_items)
          (denied-IsFaithful items (first_denied-mem items item found) _ refl refl)
  ]

  -- What is asked for an operation, and its status behind that.
  pub data Asks (items : List (GuardFileSingle V)) : GuardStatus → List Exchange → Type 0 where
    by_policy :
        {item : GuardFileSingle V}
        → Memᴰ item items
        → item_verdict full_match base ctx item ≡ deny
        → Asks items denied []
    nobody_there :
        All (λ item. item_verdict full_match base ctx item ≡ allow) items
        → ctx.has_pipe ≡ false
        → pending items ≢ []
        → Asks items denied []
    nothing_to_ask :
        All (λ item. item_verdict full_match base ctx item ≡ allow) items
        → pending items ≡ []
        → Asks items allowed []
    asks :
        {status : GuardStatus} {exchanges : List Exchange}
        → All (λ item. item_verdict full_match base ctx item ≡ allow) items
        → ctx.has_pipe ≡ true
        → Prompts ask 0 (pending items) status exchanges
        → Asks items status exchanges

  first_denied-verdict :
      (items : List (GuardFileSingle V)) (item : GuardFileSingle V)
      → first_denied full_match base ctx items ≡ some item
      → item_verdict full_match base ctx item ≡ deny
  unfolding first_denied
  first_denied-verdict [] item h = cc
  first_denied-verdict (other ∷ items) item h =
      elim (verdict_cases (item_verdict full_match base ctx other)) [
        | inl denies ↦ ground arith
        | inr allows ↦ first_denied-verdict items item (ground arith)
      ]

  request_approvals-Asks :
      (has_pipe : Bool) (items waiting : List (GuardFileSingle V))
      → has_pipe ≡ ctx.has_pipe
      → waiting ≡ pending items
      → All (λ item. item_verdict full_match base ctx item ≡ allow) items
      → Asks items
          (request_approvals ask has_pipe items waiting).0.status
          (request_approvals ask has_pipe items waiting).1
  unfolding request_approvals request_from allowed_result denied_result
  request_approvals-Asks true items waiting piped is every =
      let (new, made, prompts) = request_from-Prompts ask items 0 [] waiting in
      rw made (
        asks every (sym piped) (
          subst (λ l. Prompts ask 0 l (request_from ask items 0 [] waiting).0.status new) is
            prompts))
  request_approvals-Asks false items [] piped is every = nothing_to_ask every (sym is)
  request_approvals-Asks false items (item ∷ waiting) piped is every =
      nobody_there every (sym piped) (λ empty. cc)

  -- Nobody is asked when the policy denies an item, or when there are items to ask for and no pipe to
  -- ask with: the operation is denied. Otherwise the prompts are for the items that an ask rule
  -- matches, in their order, one for each, up to the first that is not approved: the operation
  -- is denied if there is one, and if there is none all are asked for and it is allowed.
  pub guard_items-exchanges :
      (items : List (GuardFileSingle V))
      → Asks items
          (guard_items full_match base ctx ask items).0.status
          (guard_items full_match base ctx ask items).1
  unfolding guard_items denied_result
  guard_items-exchanges items = elim (Option-cases (first_denied full_match base ctx items)) [
    | inl none_denied ↦
        rw (none_denied, guard_items)
          (request_approvals-Asks ctx.has_pipe items (pending items) refl refl
            (first_denied-none items none_denied))
    | inr (item, found) ↦
        rw (found, guard_items)
          (by_policy (first_denied-mem items item found) (first_denied-verdict items item found))
  ]
