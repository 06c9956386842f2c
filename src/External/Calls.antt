-- ===== src/External/Calls.antt =====
-- What the two threads of a call keep between them, whatever the order of their turns.
use roboz.Prelude.{
  ℕ, zero, suc, ◌+◌, ◌≡◌, refl, Bool, Option, none, some, List, [], ◌∷◌, arith, leb, Result,
  Bool-cases, Result-cases, inl, inr, ◌⊎◌,
}
use roboz.External.{
  Caller, waiting, starting, awaiting, ended, End, finished, stopped, timed_out, not_started,
  Worker, unstarted, running, releasing, exited, Call, Shared, Round, Turn, caller_turn,
  worker_turn, abandons, acquire_slot, start_worker, get_result, await_result, caller_at,
  put_outcome, worker_at, turn_of,
}

module _ {T E S : Type 0} where
  -- An end without a worker's outcome.
  abbrev pub IsLeft : End T E S → Type 0
  IsLeft (finished o) = ⊥
  IsLeft (stopped signal) = Unit {0}
  IsLeft timed_out = Unit {0}
  IsLeft (not_started e) = Unit {0}

  -- Which states of a caller and a worker go together, and what the queue holds then.
  pub data Paired : Caller T E S → Worker T E S → Option (Result E T) → Type 0 where
    before_slot : Paired waiting unstarted none
    with_slot : Paired starting unstarted none
    at_work : Paired awaiting running none
    put : {o p : Result E T} → o ≡ p → Paired awaiting (releasing o) (some p)
    gone : {o p : Result E T} → o ≡ p → Paired awaiting (exited o) (some p)
    got_put : {o p : Result E T} → o ≡ p → Paired (ended (finished p)) (releasing o) none
    got_gone : {o p : Result E T} → o ≡ p → Paired (ended (finished p)) (exited o) none
    left_before : {end : End T E S} → IsLeft end → Paired (ended end) unstarted none
    left_working : {end : End T E S} → IsLeft end → Paired (ended end) running none
    left_put :
        {end : End T E S} {o p : Result E T}
        → IsLeft end
        → Paired (ended end) (releasing o) (some p)
    left_gone :
        {end : End T E S} {o p : Result E T} → IsLeft end → Paired (ended end) (exited o) (some p)

  -- A caller holds a slot from its acquisition to the start of its worker, and a worker until it
  -- has released it.
  abbrev pub held_by_caller : Caller T E S → ℕ
  held_by_caller starting = 1
  held_by_caller waiting = 0
  held_by_caller awaiting = 0
  held_by_caller (ended end) = 0

  abbrev pub held_by_worker : Worker T E S → ℕ
  held_by_worker unstarted = 0
  held_by_worker running = 1
  held_by_worker (releasing o) = 1
  held_by_worker (exited o) = 0

  abbrev pub holds : Call T E S → ℕ
  holds call = held_by_caller call.caller + held_by_worker call.worker

  pub record Kept (slots : ℕ) (shared : Shared T E S) : Type 0 where
    pub paired : Paired shared.call.caller shared.call.worker shared.call.result_queue
    pub conserved : shared.slots + holds shared.call ≡ slots

  abandons-IsLeft :
      (signals : List S) (time_left : Option ℕ)
      → (abandons {T = T} {E = E} signals time_left ≡ none)
        ⊎ ((end : End T E S) × IsLeft end × (abandons signals time_left ≡ some end))
  unfolding abandons
  abandons-IsLeft (signal ∷ signals) time_left = inr (stopped signal, tt, refl)
  abandons-IsLeft [] none = inl refl
  abandons-IsLeft [] (some zero) = inr (timed_out, tt, refl)
  abandons-IsLeft [] (some (suc n)) = inl (ground arith)

  module _ (slots : ℕ) (abandoned : Bool) where
    abbrev call_of : Caller T E S → Worker T E S → Option (Result E T) → Call T E S
    call_of caller worker queue = record {
      caller = caller;
      worker = worker;
      result_queue = queue;
      abandoned = abandoned;
    }

    acquire_slot-Kept : Kept (slots + 0) (acquire_slot none (call_of waiting unstarted none) slots)
    unfolding acquire_slot
    acquire_slot-Kept = elim (Bool-cases (leb 1 slots)) [
      | inl room ↦ rw room (record { paired = with_slot; conserved = ground arith })
      | inr none_left ↦ rw none_left (record { paired = before_slot; conserved = omega arith })
    ]

    caller_at-Kept :
        (round : Round T E S) {caller : Caller T E S} {worker : Worker T E S}
        {queue : Option (Result E T)}
        → Paired caller worker queue
        → Kept
            (slots + (held_by_caller caller + held_by_worker worker))
            (caller_at caller round (call_of caller worker queue) slots)
    unfolding caller_at start_worker await_result acquire_slot get_result
    caller_at-Kept round before_slot = elim (abandons-IsLeft round.signals_set round.time_left) [
      | inl stays ↦ rw stays acquire_slot-Kept
      | inr (end, left, is) ↦ rw is (record { paired = left_before left; conserved = refl })
    ]
    caller_at-Kept round with_slot = elim (Result-cases round.started) [
      | inl (done, is) ↦ rw is (record { paired = at_work; conserved = refl })
      | inr (e, is) ↦ rw is (record { paired = left_before tt; conserved = omega arith })
    ]
    caller_at-Kept round at_work = elim (abandons-IsLeft round.signals_set round.time_left) [
      | inl stays ↦ rw stays (record { paired = at_work; conserved = refl })
      | inr (end, left, is) ↦ rw is (record { paired = left_working left; conserved = refl })
    ]
    caller_at-Kept round (put same) = elim (abandons-IsLeft round.signals_set round.time_left) [
      | inl stays ↦ rw stays (record { paired = got_put same; conserved = refl })
      | inr (end, left, is) ↦ rw is (record { paired = left_put left; conserved = refl })
    ]
    caller_at-Kept round (gone same) = elim (abandons-IsLeft round.signals_set round.time_left) [
      | inl stays ↦ rw stays (record { paired = got_gone same; conserved = refl })
      | inr (end, left, is) ↦ rw is (record { paired = left_gone left; conserved = refl })
    ]
    caller_at-Kept round (got_put same) = record { paired = got_put same; conserved = refl }
    caller_at-Kept round (got_gone same) = record { paired = got_gone same; conserved = refl }
    caller_at-Kept round (left_before left) = record { paired = left_before left; conserved = refl }
    caller_at-Kept round (left_working left) = record {
      paired = left_working left;
      conserved = refl;
    }
    caller_at-Kept round (left_put left) = record { paired = left_put left; conserved = refl }
    caller_at-Kept round (left_gone left) = record { paired = left_gone left; conserved = refl }

    worker_at-Kept :
        (outcome : Result E T) {caller : Caller T E S} {worker : Worker T E S}
        {queue : Option (Result E T)}
        → Paired caller worker queue
        → Kept
            (slots + (held_by_caller caller + held_by_worker worker))
            (worker_at worker outcome (call_of caller worker queue) slots)
    unfolding worker_at put_outcome
    worker_at-Kept outcome before_slot = record { paired = before_slot; conserved = refl }
    worker_at-Kept outcome with_slot = record { paired = with_slot; conserved = refl }
    worker_at-Kept outcome at_work = record { paired = put refl; conserved = refl }
    worker_at-Kept outcome (put same) = record { paired = gone same; conserved = omega arith }
    worker_at-Kept outcome (gone same) = record { paired = gone same; conserved = refl }
    worker_at-Kept outcome (got_put same) = record {
      paired = got_gone same;
      conserved = omega arith;
    }
    worker_at-Kept outcome (got_gone same) = record { paired = got_gone same; conserved = refl }
    worker_at-Kept outcome (left_before left) = record {
      paired = left_before left;
      conserved = refl;
    }
    worker_at-Kept outcome (left_working left) = record { paired = left_put left; conserved = refl }
    worker_at-Kept outcome (left_put left) = record {
      paired = left_gone left;
      conserved = omega arith;
    }
    worker_at-Kept outcome (left_gone left) = record { paired = left_gone left; conserved = refl }

  abbrev pub IsPaired : Call T E S → Type 0
  IsPaired call = Paired call.caller call.worker call.result_queue

  pub turn_of-Kept :
      (turn : Turn T E S) (call : Call T E S) (slots : ℕ)
      → IsPaired call
      → Kept (slots + holds call) (turn_of turn call slots)
  unfolding turn_of
  turn_of-Kept (caller_turn round) call slots paired =
      caller_at-Kept slots call.abandoned round paired
  turn_of-Kept (worker_turn outcome) call slots paired =
      worker_at-Kept slots call.abandoned outcome paired
