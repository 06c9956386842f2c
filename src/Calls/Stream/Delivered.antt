-- ===== src/Calls/Stream/Delivered.antt =====
-- What a call has delivered to `on_delta`, and what its completion says of it.
use roboz.Prelude.{
  ℕ, ◌+◌, ◌≡◌, inl, inr, refl, ap, ◌∙◌, true, false, some, List, [], ◌∷◌, ◌++◌, length, arith,
  Result, ok, err, Bool-cases, Option-cases, length-append,
}
use roboz.Prelude.Text.{Text}
use roboz.Calls.Diagnostics.{Values, count_if, observe_usage}
use roboz.Calls.Stream.{
  Provider, Reading, Read, CreateError, type_error, other_error, after_delta, gate, deliver,
  is_text, take_chunk, unless_error, awaited, read_stream, at_start, completion_of, closed,
  after_create, or_without_options, call_streaming_llm_api,
}
use roboz.Calls.Stream.Sent.{
  Delivers, Sent, Streamed, completes, fails, content_chunks-observe_chunk, nothing-Sent, moved,
  kept_back, passed_on,
}

module _ {W V E : Type 0} (values : Values V) (provider : Provider W V E)
    (delivers : Delivers provider) (before : List Text) where
  record Holds (reading : Reading W V) : Type 0 where
    so_far : Sent provider delivers before reading.chunks reading.output_emitted reading.world
    counted : reading.diagnostics.content_chunks ≡ some (length reading.chunks)

  after_delta-Holds :
      (c : ℕ) (delta : Text) (reading : Reading W V) (result : Result E (Unit {0}) × W)
      → provider.is_abandoned reading.world ≡ false
      → delivers.delivered result.1 ≡ delivers.delivered reading.world ++ (c ∷ delta) ∷ []
      → Sent provider delivers before reading.chunks reading.output_emitted reading.world
      → reading.diagnostics.content_chunks ≡ some (length reading.chunks + 1)
      → Holds
          (after_delta values provider
            (record reading { chunks = reading.chunks ++ (c ∷ delta) ∷ [] })
            result).reading
  after_delta-Holds c delta reading (ok done, w) not_yet more s counts = record {
    so_far = passed_on provider delivers before (c ∷ delta) w not_yet more s;
    counted = rw (length-append reading.chunks ((c ∷ delta) ∷ [])) counts;
  }
  after_delta-Holds c delta reading (err e, w) not_yet more s counts = record {
    so_far = passed_on provider delivers before (c ∷ delta) w not_yet more s;
    counted = rw (length-append reading.chunks ((c ∷ delta) ∷ [])) counts;
  }

  deliver-Holds :
      (delta : Text) (reading : Reading W V)
      → Sent provider delivers before reading.chunks reading.output_emitted reading.world
      → reading.diagnostics.content_chunks ≡ count_if (is_text delta) (some (length reading.chunks))
      → Holds (deliver values provider delta reading).reading
  unfolding deliver gate
  deliver-Holds [] reading s counts = record {
    so_far = s;
    counted = rw counts (ap some (omega arith));
  }
  deliver-Holds (c ∷ delta) reading s counts =
      elim (Bool-cases (provider.is_abandoned reading.world)) [
        | inl gone ↦ rw gone (record {
          so_far = kept_back provider delivers before (c ∷ delta) gone s;
          counted = rw (length-append reading.chunks ((c ∷ delta) ∷ [])) counts;
        })
        | inr not_yet ↦ rw not_yet (
            after_delta-Holds c delta reading (provider.on_delta (c ∷ delta) reading.world) not_yet
              (delivers.by_delta (c ∷ delta) reading.world) s counts)
      ]

  take_chunk-Holds :
      (chunk : V) (reading : Reading W V)
      → Holds reading
      → Holds (take_chunk values provider chunk reading).reading
  unfolding take_chunk
  take_chunk-Holds chunk reading h =
      deliver-Holds _ _
        (moved provider delivers before reading.world (provider.observe reading.world)
          (delivers.while_observe reading.world) (delivers.stays_observe reading.world) h.so_far)
        (content_chunks-observe_chunk values chunk _ reading.diagnostics
          ∙ ap (count_if _) h.counted)

  awaited-Holds : (reading : Reading W V) → Holds reading → Holds (awaited values provider reading)
  awaited-Holds reading h = record {
    so_far =
        moved provider delivers before reading.world (provider.await reading.world)
          (delivers.while_await reading.world) (delivers.stays_await reading.world) h.so_far;
    counted = h.counted;
  }

  unless_error-Holds :
      (read : Read W V E) (rest : Reading W V → Read W V E)
      → Holds read.reading
      → ((reading : Reading W V) → Holds reading → Holds (rest reading).reading)
      → Holds (unless_error values provider read rest).reading
  unless_error-Holds read rest h later = elim (Option-cases read.error) [
    | inl none_is ↦ rw none_is (later read.reading h)
    | inr (e, is) ↦ rw is h
  ]

  read_stream-Holds :
      (stream : List (Result E V)) (reading : Reading W V)
      → Holds reading
      → Holds (read_stream values provider stream reading).reading
  unfolding read_stream
  read_stream-Holds [] reading h = h
  read_stream-Holds (err e ∷ stream) reading h = awaited-Holds reading h
  read_stream-Holds (ok chunk ∷ stream) reading h =
      let arrived = awaited values provider reading in
      let here = awaited-Holds reading h in
      elim (Bool-cases (provider.is_abandoned (provider.await reading.world))) [
        | inl gone ↦ rw gone here
        | inr not_yet ↦ rw not_yet (
            unless_error-Holds (take_chunk values provider chunk arrived)
              (read_stream values provider stream) (take_chunk-Holds chunk arrived here)
              (read_stream-Holds stream))
      ]

  closed-Streamed :
      (read : Read W V E)
      → Holds read.reading
      → Streamed provider delivers before (closed values provider read)
  unfolding closed completion_of observe_usage
  closed-Streamed read h =
      let end =
        moved provider delivers before read.reading.world (provider.close read.reading.world)
          (delivers.while_close read.reading.world) (delivers.stays_close read.reading.world)
          h.so_far in
      elim (Option-cases read.error) [
        | inl none_is ↦ rw none_is (completes refl h.counted end)
        | inr (e, is) ↦ rw is (fails end)
      ]

  at_start-Holds : (w : W) → delivers.delivered w ≡ before → Holds (at_start values provider w)
  at_start-Holds w same = record {
    so_far = nothing-Sent provider delivers before w same;
    counted = refl;
  }

  after_create-Streamed :
      (result : Result (CreateError E) (List (Result E V)) × W)
      → delivers.delivered result.1 ≡ before
      → Streamed provider delivers before (after_create values provider result)
  unfolding after_create
  after_create-Streamed (ok stream, w) same =
      closed-Streamed _ (read_stream-Holds stream _ (at_start-Holds w same))
  after_create-Streamed (err (type_error e), w) same =
      fails (nothing-Sent provider delivers before w same)
  after_create-Streamed (err (other_error e), w) same =
      fails (nothing-Sent provider delivers before w same)

  or_without_options-Streamed :
      (result : Result (CreateError E) (List (Result E V)) × W)
      → delivers.delivered result.1 ≡ before
      → Streamed provider delivers before (or_without_options values provider result)
  unfolding or_without_options
  or_without_options-Streamed (ok stream, w) same = after_create-Streamed (ok stream, w) same
  or_without_options-Streamed (err (type_error e), w) same =
      after_create-Streamed (provider.create_stream false w) (delivers.while_create false w ∙ same)
  or_without_options-Streamed (err (other_error e), w) same =
      after_create-Streamed (err (other_error e), w) same

-- Of a streaming call, the completion's content is the texts of the chunks that were read, of which the
-- first ones were delivered in order, and all of them unless the call was abandoned;
-- output_emitted says whether any was delivered, also when the call fails; and the diagnostics count
-- the texts. A text counts as delivered when on_delta is called with it, nothing else is to deliver,
-- and an abandoned call is to stay abandoned.
pub call_streaming_llm_api-Streamed :
    {W V E : Type 0} (values : Values V) (provider : Provider W V E) (delivers : Delivers provider)
    (w : W)
    → Streamed provider delivers (delivers.delivered w) (call_streaming_llm_api values provider w)
unfolding call_streaming_llm_api
call_streaming_llm_api-Streamed values provider delivers w =
    or_without_options-Streamed values provider delivers (delivers.delivered w)
      (provider.create_stream true w) (delivers.while_create true w)
