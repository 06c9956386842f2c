-- ===== src/Tests/Pipe.antt =====
-- A run of a pipe, and the theorems at it.
use roboz.Prelude.{ℕ, ◌≡◌, refl, true, false, none, some, List, [], ◌∷◌, ◌++◌}
use roboz.Prelude.Text.{codes}
use roboz.Pipe.{
  Event, started, stopped, images_omitted, message, message_delta, Pipe, initialize, Call,
  finalizes, starts_message, reports_omission, emits_message, emits_delta, perform_all,
}
use roboz.Pipe.Sequence.{Numbered, perform_all-Numbered}
use roboz.Pipe.Stream.{stream_calls, stream_events, stream-events}

abbrev idle : Pipe ℕ
idle = record {
  dry_run = false;
  agent_name = "unknown";
  sequence = 0;
  message_id = none;
  chunk_index = 0;
  uuids = 0;
  image_omission = none;
  cancelled = false;
  interrupted = false;
  events = [];
}

abbrev calls : List (Call ℕ)
calls =
    emits_delta (codes "He")
    ∷ emits_message 5
    ∷ reports_omission "api" "model" true
    ∷ reports_omission "api" "model" true
    ∷ finalizes
    ∷ []

-- The second report of the same omission is silent.
run :
    (perform_all calls (initialize false "agent" idle)).events
    ≡ started "agent" 1
      ∷ message_delta 0 (codes "He") 1 2
      ∷ message 5 3 (some 0)
      ∷ images_omitted "api" "model" 4
      ∷ stopped "agent" 5
      ∷ []
unfolding perform_all roboz.Pipe.perform roboz.Pipe.finalize_run roboz.Pipe.unless_dry
    roboz.Pipe.report_image_omission roboz.Pipe.emit_message roboz.Pipe.emit
    roboz.Pipe.clear_message roboz.Pipe.emit_message_delta initialize roboz.Pipe.emit_delta
    roboz.Pipe.emit_chunk roboz.Pipe.start_message
run = refl

perform_all-Numbered_example : Numbered idle (perform_all calls idle)
perform_all-Numbered_example = perform_all-Numbered calls idle

stream-events_example :
    (perform_all
      (starts_message ∷ stream_calls ((72, codes "e") ∷ (108, codes "lo") ∷ []) 5)
      idle).events
    ≡ [] ++ stream_events 0 0 0 ((72, codes "e") ∷ (108, codes "lo") ∷ []) 5
stream-events_example = stream-events ((72, codes "e") ∷ (108, codes "lo") ∷ []) 5 idle refl
