-- ===== src/External/Slots.antt =====
-- The calls of runtime/_external.py that share its semaphore, with the turns of their threads in any
-- order: `run_cancellable_external_call` begins a call.
use roboz.Prelude.{ℕ, ◌+◌, ◌≡◌, refl, false, none, List, [], ◌∷◌, ◌++◌, arith, All}
use roboz.External.{waiting, unstarted, Call, Turn, turn_of, max_workers}
use roboz.External.Calls.{IsPaired, before_slot, holds, turn_of-Kept}

module _ {T E S : Type 0} where
  abbrev pub new_call : Call T E S
  new_call = record { caller = waiting; worker = unstarted; result_queue = none; abandoned = false }

  -- The slots that are free and the calls that have begun, in a pool that is reached.
  pub data Reach : ℕ → List (Call T E S) → Type 0 where
    at_start : Reach max_workers []
    begins :
        {slots : ℕ} {calls : List (Call T E S)} → Reach slots calls → Reach slots (new_call ∷ calls)
    takes_turn :
        (turn : Turn T E S) (before : List (Call T E S)) (call : Call T E S)
        (after : List (Call T E S)) {slots : ℕ}
        → Reach slots (before ++ call ∷ after)
        → Reach (turn_of turn call slots).slots (before ++ (turn_of turn call slots).call ∷ after)

  abbrev pub held : List (Call T E S) → ℕ
  held [] = 0
  held (call ∷ calls) = holds call + held calls

  held-append : (xs ys : List (Call T E S)) → held (xs ++ ys) ≡ held xs + held ys
  held-append [] ys = omega arith
  held-append (x ∷ xs) ys = rw (held-append xs ys) (omega arith)

  pub record Sound (slots : ℕ) (calls : List (Call T E S)) : Type 0 where
    pub paired : All IsPaired calls
    pub conserved : slots + held calls ≡ max_workers

  replace-IsPaired :
      (before : List (Call T E S)) (call new : Call T E S) (after : List (Call T E S))
      → (IsPaired call → IsPaired new)
      → All IsPaired (before ++ call ∷ after)
      → All IsPaired (before ++ new ∷ after)
  replace-IsPaired [] call new after step h = (step h.0, h.1)
  replace-IsPaired (x ∷ before) call new after step h =
      (h.0, replace-IsPaired before call new after step h.1)

  IsPaired-at :
      (before : List (Call T E S)) (call : Call T E S) (after : List (Call T E S))
      → All IsPaired (before ++ call ∷ after)
      → IsPaired call
  IsPaired-at [] call after h = h.0
  IsPaired-at (x ∷ before) call after h = IsPaired-at before call after h.1

  replace-conserved :
      (before : List (Call T E S)) (call new : Call T E S) (after : List (Call T E S))
      (slots left : ℕ)
      → left + holds new ≡ slots + holds call
      → slots + held (before ++ call ∷ after) ≡ max_workers
      → left + held (before ++ new ∷ after) ≡ max_workers
  replace-conserved before call new after slots left same total =
      omega (arith, held-append before (call ∷ after), held-append before (new ∷ after))

  -- In every reachable pool, whatever the order of the turns, the free slots and the slots that the
  -- calls hold are together max_workers; a call whose caller ended with an outcome has a worker
  -- that put the same outcome; and the queue of a call has an outcome only when its worker has put
  -- it and its caller has not got it.
  pub Reach-Sound : {slots : ℕ} {calls : List (Call T E S)} → Reach slots calls → Sound slots calls
  Reach-Sound at_start = record { paired = tt; conserved = refl }
  Reach-Sound (begins r) =
      let sound = Reach-Sound r in
      record { paired = (before_slot, sound.paired); conserved = omega (arith, sound.conserved) }
  Reach-Sound (takes_turn turn before call after {slots} r) =
      let sound = Reach-Sound r in
      let kept = turn_of-Kept turn call slots (IsPaired-at before call after sound.paired) in
      let new = turn_of turn call slots in
      record {
        paired = replace-IsPaired before call new.call after (λ old. kept.paired) sound.paired;
        conserved =
            replace-conserved before call new.call after slots new.slots kept.conserved
              sound.conserved;
      }
