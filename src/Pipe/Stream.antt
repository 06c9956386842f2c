-- ===== src/Pipe/Stream.antt =====
-- The events of a streamed message.
use roboz.Prelude.{ℕ, ◌+◌, ◌≡◌, refl, ap, ◌∙◌, false, some, List, [], ◌∷◌, ◌++◌, append_assoc}
use roboz.Prelude.Text.{Text}
use roboz.Pipe.{
  Event, message, message_delta, Pipe, emit, unless_dry, start_message, clear_message, emit_message,
  emit_chunk, emit_delta, emit_message_delta, Call, starts_message, emits_message, emits_delta,
  perform, perform_all,
}

-- A text that is not empty, by its first character and the rest.
abbrev pub Delta : Type 0
Delta = ℕ × Text

abbrev pub delta_call : {M : Type 0} → Delta → Call M
delta_call (c, rest) = emits_delta (c ∷ rest)

abbrev pub stream_calls : {M : Type 0} → List Delta → M → List (Call M)
stream_calls [] m = emits_message m ∷ []
stream_calls (delta ∷ deltas) m = delta_call delta ∷ stream_calls deltas m

-- The chunks of one id, numbered from `index`, and the message with that id, all with consecutive
-- event numbers from `n`.
abbrev pub stream_events : {M : Type 0} → (id index n : ℕ) → List Delta → M → List (Event M)
stream_events id index n [] m = message m (n + 1) (some id) ∷ []
stream_events id index n ((c, rest) ∷ deltas) m =
    message_delta id (c ∷ rest) (index + 1) (n + 1) ∷ stream_events id (index + 1) (n + 1) deltas m

module _ {M : Type 0} where
  emit_message-events :
      (m : M) (id : ℕ) (p : Pipe M)
      → p.message_id ≡ some id
      → (emit_message m p).events ≡ p.events ++ message m (p.sequence + 1) (some id) ∷ []
  unfolding emit_message emit clear_message
  emit_message-events m id p streams = rw (streams, emit_message) refl

  emit_message_delta-chunk :
      (c : ℕ) (rest : Text) (id : ℕ) (p : Pipe M)
      → p.dry_run ≡ false
      → p.message_id ≡ some id
      → emit_message_delta (c ∷ rest) p ≡ emit_chunk (c ∷ rest) id p
  unfolding emit_message_delta unless_dry emit_delta
  emit_message_delta-chunk c rest id p wet streams = rw (wet, streams, emit_message_delta) refl

  stream-from :
      (deltas : List Delta) (m : M) (id : ℕ) (p : Pipe M)
      → p.dry_run ≡ false
      → p.message_id ≡ some id
      → (perform_all (stream_calls deltas m) p).events
        ≡ p.events ++ stream_events id p.chunk_index p.sequence deltas m
  unfolding perform_all perform emit_chunk emit
  stream-from [] m id p wet streams = emit_message-events m id p streams
  stream-from ((c, rest) ∷ deltas) m id p wet streams =
      ap (λ q. (perform_all (stream_calls deltas m) q).events)
        (emit_message_delta-chunk c rest id p wet streams)
      ∙ (stream-from deltas m id (emit_chunk (c ∷ rest) id p) wet streams
          ∙ append_assoc p.events
              (message_delta id (c ∷ rest) (p.chunk_index + 1) (p.sequence + 1) ∷ [])
              (stream_events id (p.chunk_index + 1) (p.sequence + 1) deltas m))

  -- A message that is started, streamed in parts that are not empty, and then emitted, adds a chunk
  -- for each part and the message, in their order and with consecutive numbers; the chunks are
  -- numbered from 1, and all carry the new id.
  pub stream-events :
      (deltas : List Delta) (m : M) (p : Pipe M)
      → p.dry_run ≡ false
      → (perform_all (starts_message ∷ stream_calls deltas m) p).events
        ≡ p.events ++ stream_events p.uuids 0 p.sequence deltas m
  unfolding perform_all perform start_message
  stream-events deltas m p wet = stream-from deltas m p.uuids (start_message p) wet refl
