-- ===== src/Tests/External.antt =====
-- A call whose worker brings 5, beside a call that has no slot yet.
use roboz.Prelude.{ℕ, false, none, some, [], ◌∷◌, ok}
use roboz.External.{ended, finished, releasing, Call, Round, caller_turn, worker_turn, turn_of}
use roboz.External.Slots.{Reach, at_start, begins, takes_turn, Sound, Reach-Sound, new_call}

abbrev in_time : Round ℕ ℕ ℕ
in_time = record { signals_set = []; time_left = some 3; started = ok tt }

abbrev call_that_ended : Call ℕ ℕ ℕ
call_that_ended = record {
  caller = ended (finished (ok 5));
  worker = releasing (ok 5);
  result_queue = none;
  abandoned = false;
}

two_calls : Reach {T = ℕ} {E = ℕ} {S = ℕ} 7 (call_that_ended ∷ new_call ∷ [])
unfolding turn_of
two_calls = takes_turn (caller_turn in_time) [] _ (new_call ∷ []) (
    takes_turn (worker_turn (ok 5)) [] _ (new_call ∷ []) (
      takes_turn (caller_turn in_time) [] _ (new_call ∷ [])
        (takes_turn (caller_turn in_time) [] _ (new_call ∷ []) (begins (begins at_start)))))

-- Two calls begin, and the second acquires a slot, starts its worker and gets its outcome.
Reach-Sound_example : Sound {T = ℕ} {E = ℕ} {S = ℕ} 7 (call_that_ended ∷ new_call ∷ [])
Reach-Sound_example = Reach-Sound two_calls
