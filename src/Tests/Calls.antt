-- ===== src/Tests/Calls.antt =====
-- Requests with images, a stream of two chunks and a call with a retry, and the theorems at them.
use roboz.Prelude.{
  ℕ, zero, suc, ◌+◌, ◌-◌, ◌≡◌, ◌≤◌, refl, Bool, true, false, Option, none, some, List, [], ◌∷◌,
  length, ok, err, arith, Result, if◌then◌else◌, String, str_eq, ◌++◌, leb, ◌<◌,
}
use roboz.Prelude.Text.{Text, codes}
use roboz.Calls.Images.{Naming, Record, encode_image_messages, image_omission_note}
use roboz.Calls.Images.Note.{length-image_omission_note}
use roboz.Calls.Images.Window.{Encodes, encode_image_messages-Encodes}
use roboz.Calls.Diagnostics.{Values, for_stream}
use roboz.Calls.Stream.{Provider, type_error, Completion, call_streaming_llm_api}
use roboz.Calls.Stream.Sent.{Delivers, Streamed}
use roboz.Calls.Stream.Delivered.{call_streaming_llm_api-Streamed}
use roboz.Calls.Errors.{ProviderError, raised, kind_provider_unavailable}
use roboz.Calls.Runner.{
  Raised, exception, base_exception, base_failure, Signal, run, started, retrying, succeeded,
}
use roboz.Calls.Runner.Reports.{Runs, run-Runs}
use roboz.Retry.{Timing, Settings}

abbrev if_named : ℕ → Option Text
if_named zero = none
if_named (suc n) = some (codes "photo.png")

abbrev naming : Naming ℕ
naming = record { filename = if_named; dumps = λ name. 34 ∷ name }

-- Nine images in two messages.
abbrev records : List (Record ℕ ℕ)
records =
    record { fields = 1; is_user = true; content = some (codes "a"); images = 1 ∷ 2 ∷ [] }
    ∷ record { fields = 2; is_user = false; content = none; images = [] }
    ∷ record {
      fields = 3;
      is_user = true;
      content = some (codes "b");
      images = 3 ∷ 4 ∷ 5 ∷ 6 ∷ 7 ∷ 8 ∷ 9 ∷ [];
    }
    ∷ []

-- The first of the nine images is left out.
encode_image_messages-Encodes_example :
    Encodes true records (9 - 8) (encode_image_messages naming true records)
encode_image_messages-Encodes_example = encode_image_messages-Encodes naming true records

-- A note on two images.
length-image_omission_note_example :
    length (image_omission_note naming (codes "Images omitted:") (1 ∷ 2 ∷ [])) ≤ 2048
unfolding roboz.Prelude.Text.decimal
length-image_omission_note_example =
    length-image_omission_note naming (codes "Images omitted:") (1 ∷ 2 ∷ []) (omega arith)

-- A value is a text, the choices of a chunk, or a chunk, its choice and its delta.
pub data Value : Type 0 where
  text_value : Text → Value
  choices_of : Text → Value
  chunk_of : Text → Value

abbrev attr_of : String → Value → Option Value
attr_of name (text_value text) = none
attr_of name (choices_of text) = none
attr_of name (chunk_of text) =
    if str_eq name "choices"
    then some (choices_of text)
    else if str_eq name "delta"
    then some (chunk_of text)
    else if str_eq name "content"
    then some (text_value text)
    else none

abbrev items_of : Value → Option (List Value)
items_of (choices_of text) = some (chunk_of text ∷ [])
items_of (text_value text) = none
items_of (chunk_of text) = none

abbrev text_of : Value → Option Text
text_of (text_value text) = some text
text_of (choices_of text) = none
text_of (chunk_of text) = none

abbrev values : Values Value
values = record {
  attr = attr_of;
  is_dict = λ v. false;
  item = λ name v. none;
  elements = items_of;
  as_text = text_of;
  as_number = λ v. none;
}

-- The world is the time and what has been delivered. The call is abandoned from 2 on.
abbrev provider : Provider (ℕ × List Text) Value ℕ
provider = record {
  create = λ w. (err 0, w);
  create_stream = λ with_options w. (
    if with_options
        then err (type_error 1)
        else ok (ok (chunk_of (codes "a")) ∷ ok (chunk_of (codes "b")) ∷ []),
    w,
  );
  await = λ w. (suc w.0, w.1);
  observe = λ w. w;
  close = λ w. w;
  is_abandoned = λ w. leb 2 w.0;
  raise_if_set = λ w. none;
  index_error = 9;
  on_delta = λ delta w. (ok tt, (w.0, w.1 ++ delta ∷ []));
}

later_too : (n : ℕ) → leb 2 n ≡ true → leb 2 (suc n) ≡ true
later_too n h = ground arith

abbrev delivers : Delivers provider
delivers = record {
  delivered = λ w. w.1;
  while_await = λ w. refl;
  while_observe = λ w. refl;
  while_close = λ w. refl;
  while_create = λ b w. refl;
  by_delta = λ delta w. refl;
  stays_await = λ w h. later_too w.0 h;
  stays_observe = λ w h. h;
  stays_close = λ w h. h;
}

-- The second chunk comes too late.
call_streaming_llm_api-Streamed_example :
    Streamed provider delivers [] (call_streaming_llm_api values provider (0, []))
call_streaming_llm_api-Streamed_example =
    call_streaming_llm_api-Streamed values provider delivers (0, [])

stops : (call_streaming_llm_api values provider (0, [])).1 ≡ (2, codes "a" ∷ [])
unfolding call_streaming_llm_api
stops = refl

-- The world is the time.
abbrev clock : Timing ℕ Signal
clock = record { now = λ w. w; set_signal = λ w. none; sleep = λ n w. w + n }

abbrev settings : Settings
settings = record { max_attempts = 3; base_delay = 1; max_delay = 4; poll_interval = 1 }

abbrev provider_down : ProviderError
provider_down = record {
  is_rate_limit_error = false;
  is_context_length_error = false;
  status_code = some 503;
  code = [];
  text = codes "Service down";
  is_transport_error = false;
}

abbrev answer : Completion ℕ
answer = record {
  content = codes "hi";
  telemetry = record { token_input = none; token_output = none };
  diagnostics = for_stream;
}

abbrev second_time : ℕ → ℕ → (Result Raised (Completion ℕ) × Bool) × ℕ
second_time attempt w =
    ((if leb 2 attempt then ok answer else err (exception (raised provider_down)), false), w)

abbrev not_noted : ℕ → ℕ → ℕ
not_noted attempt w = w

-- The second attempt returns.
run-Runs_example :
    Runs clock 3 none second_time (run clock settings none second_time not_noted 3 5 none 0)
run-Runs_example =
    run-Runs clock settings none second_time not_noted (λ n w. omega arith) (omega arith)
      (omega arith) 3 5 none 0 (omega arith) (omega arith)

-- The first attempt is broken off by a KeyboardInterrupt.
abbrev broken_off : ℕ → ℕ → (Result Raised (Completion ℕ) × Bool) × ℕ
broken_off attempt w = ((err (base_exception 1), false), w)

unreported :
    run clock settings none broken_off not_noted 3 5 none 0
    ≡ some (err (base_failure 1), record { world = 0; events = started ∷ [] })
unfolding run roboz.Retry.retry_from roboz.Retry.after_attempt
unreported = refl

reported :
    run clock settings none second_time not_noted 3 5 none 0
    ≡ some (
      ok answer,
      record {
        world = 1;
        events = started ∷ retrying 2 3 kind_provider_unavailable false ∷ succeeded ∷ [];
      },
    )
unfolding run roboz.Retry.retry_from roboz.Retry.after_attempt roboz.Retry.after_decision
    roboz.Retry.may_retry roboz.Retry.after_sleep roboz.Retry.backoff_sleep roboz.Retry.sleep_until
    roboz.Retry.delay_of
reported = refl
