-- ===== src/External.antt =====
-- runtime/_external.py: calls of blocking code, each by a caller and a worker thread, that share the
-- slots of one semaphore. A step is one round of a loop of a caller, or one action of a worker.
pub mod Slots
pub mod Calls
use roboz.Prelude.{
  ℕ, suc, ◌+◌, ◌-◌, ◌<◌, ◌≡◌, Bool, true, false, Option, none, some, List, [], ◌∷◌, leb, ◌==◌,
  if◌then◌else◌, Result, ok, err,
}

abbrev pub max_workers : ℕ
max_workers = 8

abbrev pub expired : Option ℕ → Bool
expired none = false
expired (some time_left) = time_left == 0

-- `put_nowait`: the outcome is dropped when the queue is full.
unfoldable pub put_outcome : {E T : Type 0} → Result E T → Option (Result E T) → Option (Result E T)
put_outcome outcome none = some outcome
put_outcome outcome (some earlier) = some earlier

-- An outcome of a call is `ok` for _CallSucceeded and `err` for _CallFailed.
module _ (T E S : Type 0) where
  -- How a call ends for its caller: with the outcome of its worker, by a control signal, by its
  -- deadline, or because the thread did not start.
  pub data End : Type 0 where
    finished : Result E T → End
    stopped : S → End
    timed_out : End
    not_started : E → End

  pub data Caller : Type 0 where
    waiting starting awaiting : Caller
    ended : End → Caller

  -- A worker puts its outcome before it releases its slot.
  pub data Worker : Type 0 where
    unstarted running : Worker
    releasing exited : Result E T → Worker

  pub record Call : Type 0 where
    pub caller : Caller
    pub worker : Worker
    pub result_queue : Option (Result E T)
    pub abandoned : Bool

  pub record Shared : Type 0 where
    pub call : Call
    pub slots : ℕ

  -- What a round finds: the signals that are set, in their order, the time that is left, and whether
  -- a thread starts.
  pub record Round : Type 0 where
    pub signals_set : List S
    pub time_left : Option ℕ
    pub started : Result E (Unit {0})

  -- A turn of one of the two threads of a call.
  pub data Turn : Type 0 where
    caller_turn : Round → Turn
    worker_turn : Result E T → Turn

module _ {T E S : Type 0} where
  -- `_raise_if_any_signal_set`, then the deadline
  unfoldable pub abandons : List S → Option ℕ → Option (End T E S)
  abandons (signal ∷ signals) time_left = some (stopped signal)
  abandons [] time_left = if expired time_left then some timed_out else none

  -- `_acquire_slot`
  unfoldable pub acquire_slot : Option (End T E S) → Call T E S → ℕ → Shared T E S
  acquire_slot (some end) call slots = record {
    call = record call { caller = ended end; abandoned = true };
    slots = slots;
  }
  acquire_slot none call slots =
      if leb 1 slots
      then record { call = record call { caller = starting }; slots = slots - 1 }
      else record { call = call; slots = slots }

  -- `_start_worker`
  unfoldable pub start_worker : Result E (Unit {0}) → Call T E S → ℕ → Shared T E S
  start_worker (ok done) call slots = record {
    call = record call { caller = awaiting; worker = running };
    slots = slots;
  }
  start_worker (err e) call slots = record {
    call = record call { caller = ended (not_started e) };
    slots = suc slots;
  }

  unfoldable pub get_result : Option (Result E T) → Call T E S → ℕ → Shared T E S
  get_result none call slots = record { call = call; slots = slots }
  get_result (some outcome) call slots = record {
    call = record call { caller = ended (finished outcome); result_queue = none };
    slots = slots;
  }

  -- `_await_result`
  unfoldable pub await_result : Option (End T E S) → Call T E S → ℕ → Shared T E S
  unfolding get_result
  await_result (some end) call slots = record {
    call = record call { caller = ended end; abandoned = true };
    slots = slots;
  }
  await_result none call slots = get_result call.result_queue call slots

  unfoldable pub caller_at : Caller T E S → Round T E S → Call T E S → ℕ → Shared T E S
  unfolding abandons acquire_slot start_worker await_result
  caller_at waiting round call slots =
      acquire_slot (abandons round.signals_set round.time_left) call slots
  caller_at starting round call slots = start_worker round.started call slots
  caller_at awaiting round call slots =
      await_result (abandons round.signals_set round.time_left) call slots
  caller_at (ended end) round call slots = record { call = call; slots = slots }

  -- `_worker`: its function ends with an outcome, which it puts; and then it releases its slot.
  unfoldable pub worker_at : Worker T E S → Result E T → Call T E S → ℕ → Shared T E S
  unfolding put_outcome
  worker_at unstarted outcome call slots = record { call = call; slots = slots }
  worker_at running outcome call slots = record {
    call = record call {
      worker = releasing outcome;
      result_queue = put_outcome outcome call.result_queue;
    };
    slots = slots;
  }
  worker_at (releasing put) outcome call slots = record {
    call = record call { worker = exited put };
    slots = suc slots;
  }
  worker_at (exited put) outcome call slots = record { call = call; slots = slots }

  unfoldable pub turn_of : Turn T E S → Call T E S → ℕ → Shared T E S
  unfolding caller_at worker_at
  turn_of (caller_turn round) call slots = caller_at call.caller round call slots
  turn_of (worker_turn outcome) call slots = worker_at call.worker outcome call slots
