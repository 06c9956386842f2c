-- ===== src/Calls/Stream.antt =====
-- llm/calls.py, `_call_streaming_llm_api` with `_delta_gate`, and `_call_non_streaming_llm_api`: one
-- request to a provider.
pub mod Delivered
pub mod Sent
use roboz.Prelude.{
  ℕ, suc, ◌+◌, Bool, true, false, Option, none, some, List, [], ◌∷◌, ◌++◌, if◌then◌else◌, Result,
  ok, err, String, option_map,
}
use roboz.Prelude.Text.{Text, codes, join}
use roboz.Calls.Diagnostics.{
  Values, Diagnostics, for_stream, field, or_else, non_empty, first_of, observe_chunk,
  observe_usage, from_response,
}

-- `create` of a client raises a TypeError or another exception.
pub data CreateError (E : Type 0) : Type 0 where
  type_error other_error : E → CreateError E

-- The provider and the caller, on a world W. A stream is what it will bring: chunks, or an exception.
pub record Provider (W V E : Type 0) : Type 0 where
  pub create : W → Result E V × W
  -- with `stream=True`, and with `stream_options` or without
  pub create_stream : Bool → W → Result (CreateError E) (List (Result E V)) × W
  -- The wait for the next chunk, and the time that its diagnostics take.
  pub await : W → W
  pub observe : W → W
  -- `stream.close()`, whose exceptions are logged
  pub close : W → W
  -- whether the attempt is abandoned or a control signal is set
  pub is_abandoned : W → Bool
  -- the exception of the first control signal that is set
  pub raise_if_set : W → Option E
  -- of `choices[0]` without a choice
  pub index_error : E
  pub on_delta : Text → W → Result E (Unit {0}) × W

pub record Telemetry (V : Type 0) : Type 0 where
  pub token_input : Option V
  pub token_output : Option V

pub record Completion (V : Type 0) : Type 0 where
  pub content : Text
  pub telemetry : Telemetry V
  pub diagnostics : Diagnostics

-- What the loop has read of a stream, and whether output has been emitted.
pub record Reading (W V : Type 0) : Type 0 where
  pub chunks : List Text
  pub usage : Option V
  pub diagnostics : Diagnostics
  pub output_emitted : Bool
  pub world : W

-- The loop ends with what it has read, or with an exception.
pub record Read (W V E : Type 0) : Type 0 where
  pub error : Option E
  pub reading : Reading W V

abbrev text_or_empty : Option Text → Text
text_or_empty none = []
text_or_empty (some text) = text

abbrev pub is_text : Text → Bool
is_text [] = false
is_text (c ∷ text) = true

module _ {W V E : Type 0} (values : Values V) (provider : Provider W V E) where
  -- `getattr`, and then the item of a dict
  unfoldable pub attr_or_item : String → Option V → Option V
  attr_or_item name none = none
  attr_or_item name (some v) =
      or_else (values.attr name v) (if values.is_dict v then values.item name v else none)

  abbrev elements_in : Option V → Option (List V)
  elements_in none = none
  elements_in (some v) = values.elements v

  abbrev text_in : Option V → Text
  text_in none = []
  text_in (some v) = text_or_empty (values.as_text v)

  unfoldable pub stream_delta_content : V → Text
  unfolding attr_or_item
  stream_delta_content chunk =
      let choice = first_of (elements_in (attr_or_item "choices" (some chunk))) in
      text_in (attr_or_item "content" (attr_or_item "delta" choice))

  unfoldable pub telemetry_from_usage : Option V → Telemetry V
  unfolding field
  telemetry_from_usage usage = record {
    token_input = field values "prompt_tokens" usage;
    token_output = field values "completion_tokens" usage;
  }

  abbrev pub after_delta : Reading W V → Result E (Unit {0}) × W → Read W V E
  after_delta reading (ok done, w) = record {
    error = none;
    reading = record reading { output_emitted = true; world = w };
  }
  after_delta reading (err e, w) = record {
    error = some e;
    reading = record reading { output_emitted = true; world = w };
  }

  -- `gate` of `_delta_gate`
  unfoldable pub gate : Text → Reading W V → Read W V E
  gate delta reading =
      if provider.is_abandoned reading.world
      then record { error = none; reading = reading }
      else after_delta reading (provider.on_delta delta reading.world)

  -- An empty delta is not delivered.
  unfoldable pub deliver : Text → Reading W V → Read W V E
  unfolding gate
  deliver [] reading = record { error = none; reading = reading }
  deliver (c ∷ delta) reading =
      gate (c ∷ delta) (record reading { chunks = reading.chunks ++ (c ∷ delta) ∷ [] })

  -- A chunk that has arrived, at its wait's world.
  unfoldable pub take_chunk : V → Reading W V → Read W V E
  unfolding deliver stream_delta_content field
  take_chunk chunk reading =
      let delta = stream_delta_content chunk in
      deliver delta (record reading {
        usage = or_else (field values "usage" (some chunk)) reading.usage;
        diagnostics = observe_chunk values chunk (is_text delta) reading.diagnostics;
        world = provider.observe reading.world;
      })

  abbrev pub unless_error : Read W V E → (Reading W V → Read W V E) → Read W V E
  unless_error read rest = elim read.error [ some e ↦ read | none ↦ rest read.reading ]

  abbrev pub awaited : Reading W V → Reading W V
  awaited reading = record reading { world = provider.await reading.world }

  -- The loop over the chunks, which ends when the call is abandoned.
  unfoldable pub read_stream : List (Result E V) → Reading W V → Read W V E
  unfolding take_chunk
  read_stream [] reading = record { error = none; reading = reading }
  read_stream (err e ∷ stream) reading = record { error = some e; reading = awaited reading }
  read_stream (ok chunk ∷ stream) reading =
      let arrived = awaited reading in
      let rest = unless_error (take_chunk chunk arrived) (read_stream stream) in
      if provider.is_abandoned arrived.world
      then record { error = none; reading = arrived }
      else rest

  abbrev pub at_start : W → Reading W V
  at_start w = record {
    chunks = [];
    usage = none;
    diagnostics = for_stream;
    output_emitted = false;
    world = w;
  }

  unfoldable pub completion_of : Reading W V → Completion V
  unfolding telemetry_from_usage
  completion_of reading = record {
    content = join [] reading.chunks;
    telemetry = telemetry_from_usage reading.usage;
    diagnostics = observe_usage values reading.usage reading.diagnostics;
  }

  -- The completion or the exception, `output_emitted` and the world.
  abbrev pub Called : Type 0
  Called = (Result E (Completion V) × Bool) × W

  abbrev pub result_of : Option E → Reading W V → Result E (Completion V)
  result_of none reading = ok (completion_of reading)
  result_of (some e) reading = err e

  unfoldable pub closed : Read W V E → Called
  unfolding completion_of
  closed read = (
    (result_of read.error read.reading, read.reading.output_emitted),
    provider.close read.reading.world,
  )

  unfoldable pub after_create : Result (CreateError E) (List (Result E V)) × W → Called
  unfolding closed read_stream
  after_create (ok stream, w) = closed (read_stream stream (at_start w))
  after_create (err (type_error e), w) = ((err e, false), w)
  after_create (err (other_error e), w) = ((err e, false), w)

  -- The request without `stream_options`, for a client that does not know them.
  unfoldable pub or_without_options : Result (CreateError E) (List (Result E V)) × W → Called
  unfolding after_create
  or_without_options (ok stream, w) = after_create (ok stream, w)
  or_without_options (err (type_error e), w) = after_create (provider.create_stream false w)
  or_without_options (err (other_error e), w) = after_create (err (other_error e), w)

  unfoldable pub call_streaming_llm_api : W → Called
  unfolding or_without_options
  call_streaming_llm_api w = or_without_options (provider.create_stream true w)

  -- `response.choices[0].message.content`; none when there is no choice
  unfoldable pub response_content : V → Option Text
  unfolding field
  response_content response =
      option_map (λ choice. text_in (field values "content" (field values "message" (some choice))))
        (first_of (elements_in (values.attr "choices" response)))

  abbrev pub read_response : Option Text → V → W → Called
  read_response none response w = ((err provider.index_error, false), w)
  read_response (some content) response w =
      let usage = values.attr "usage" response in
      (
        (
          ok (record {
            content = content;
            telemetry = telemetry_from_usage usage;
            diagnostics = from_response values response usage;
          }),
          false,
        ),
        w,
      )

  unfoldable pub after_response : Result E V × W → Called
  unfolding response_content
  after_response (err e, w) = ((err e, false), w)
  after_response (ok response, w) = read_response (response_content response) response w

  unfoldable pub call_non_streaming_llm_api : W → Called
  unfolding after_response
  call_non_streaming_llm_api w = after_response (provider.create w)

  -- The call that the worker of an attempt makes: it streams when the endpoint does and the deltas
  -- are asked for.
  unfoldable pub call_chat_completion : Bool → W → Called
  unfolding call_streaming_llm_api call_non_streaming_llm_api
  call_chat_completion streams w = elim (provider.raise_if_set w) [
    | some e ↦ ((err e, false), w)
    | none ↦ if streams then call_streaming_llm_api w else call_non_streaming_llm_api w
  ]
