-- ===== src/Calls/Stream/Sent.antt =====
-- What a streaming call has sent to `on_delta` of the texts that it has read.
use roboz.Prelude.{
  ◌≡◌, ◌≢◌, ◌⊎◌, inl, inr, refl, sym, ◌∙◌, Bool, true, false, Option, none, some, List, [], ◌∷◌,
  ◌++◌, length, Result, ok, err, append_nil, append_assoc,
}
use roboz.Prelude.Text.{Text, join}
use roboz.Calls.Diagnostics.{
  Values, Diagnostics, count_if, observe_details, observe_direct, observe_reasoning, observe_chunk,
}
use roboz.Calls.Stream.{Provider, Completion}

module _ {V : Type 0} (values : Values V) where
  content_chunks-observe_details :
      (details : Option (List V)) (d : Diagnostics)
      → (observe_details values details d).content_chunks ≡ d.content_chunks
  unfolding observe_details
  content_chunks-observe_details none d = refl
  content_chunks-observe_details (some []) d = refl
  content_chunks-observe_details (some (detail ∷ details)) d = refl

  content_chunks-observe_direct :
      (direct : Option Text) (details : Option (List V)) (d : Diagnostics)
      → (observe_direct values direct details d).content_chunks ≡ d.content_chunks
  unfolding observe_direct
  content_chunks-observe_direct (some text) details d = refl
  content_chunks-observe_direct none details d = content_chunks-observe_details details d

  content_chunks-observe_reasoning :
      (v : Option V) (d : Diagnostics)
      → (observe_reasoning values v d).content_chunks ≡ d.content_chunks
  unfolding observe_reasoning
  content_chunks-observe_reasoning none d = refl
  content_chunks-observe_reasoning (some v) d = content_chunks-observe_direct _ _ d

  pub content_chunks-observe_chunk :
      (chunk : V) (has_content : Bool) (d : Diagnostics)
      → (observe_chunk values chunk has_content d).content_chunks
        ≡ count_if has_content d.content_chunks
  unfolding observe_chunk
  content_chunks-observe_chunk chunk has_content d = content_chunks-observe_reasoning _ _

-- The texts that have been delivered, in a world, change by `on_delta` only; and a call that is
-- abandoned stays so.
pub record Delivers {W V E : Type 0} (provider : Provider W V E) : Type 0 where
  pub delivered : W → List Text
  pub while_await : (w : W) → delivered (provider.await w) ≡ delivered w
  pub while_observe : (w : W) → delivered (provider.observe w) ≡ delivered w
  pub while_close : (w : W) → delivered (provider.close w) ≡ delivered w
  pub while_create : (b : Bool) (w : W) → delivered (provider.create_stream b w).1 ≡ delivered w
  pub by_delta :
      (delta : Text) (w : W) → delivered (provider.on_delta delta w).1 ≡ delivered w ++ delta ∷ []
  pub stays_await :
      (w : W) → provider.is_abandoned w ≡ true → provider.is_abandoned (provider.await w) ≡ true
  pub stays_observe :
      (w : W) → provider.is_abandoned w ≡ true → provider.is_abandoned (provider.observe w) ≡ true
  pub stays_close :
      (w : W) → provider.is_abandoned w ≡ true → provider.is_abandoned (provider.close w) ≡ true

abbrev pub is_some_text : List Text → Bool
is_some_text [] = false
is_some_text (text ∷ texts) = true

module _ {W V E : Type 0} (provider : Provider W V E) (delivers : Delivers provider) where
  -- Of the chunks that were read, the first ones were delivered since a list; and all of them, unless
  -- the call is abandoned.
  pub record Sent (before : List Text) (chunks : List Text) (emitted : Bool) (w : W) : Type 0 where
    pub sent : List Text
    pub unsent : List Text
    pub read : chunks ≡ sent ++ unsent
    pub delivered : delivers.delivered w ≡ before ++ sent
    pub all_or_abandoned : (unsent ≡ []) ⊎ (provider.is_abandoned w ≡ true)
    pub emits : emitted ≡ is_some_text sent

  -- An end of a call, with what was delivered since a list.
  pub data Streamed (before : List Text) : (Result E (Completion V) × Bool) × W → Type 0 where
    completes :
        {completion : Completion V} {emitted : Bool} {w : W} {chunks : List Text}
        → completion.content ≡ join [] chunks
        → completion.diagnostics.content_chunks ≡ some (length chunks)
        → Sent before chunks emitted w
        → Streamed before ((ok completion, emitted), w)
    fails :
        {e : E} {emitted : Bool} {w : W} {chunks : List Text}
        → Sent before chunks emitted w
        → Streamed before ((err e, emitted), w)

module _ {W V E : Type 0} (provider : Provider W V E) (delivers : Delivers provider)
    (before : List Text) where
  pub nothing-Sent :
      (w : W) → delivers.delivered w ≡ before → Sent provider delivers before [] false w
  nothing-Sent w same = record {
    sent = [];
    unsent = [];
    read = refl;
    delivered = same ∙ sym (append_nil before);
    all_or_abandoned = inl refl;
    emits = refl;
  }

  pub moved :
      {chunks : List Text} {emitted : Bool} (w next : W)
      → delivers.delivered next ≡ delivers.delivered w
      → (provider.is_abandoned w ≡ true → provider.is_abandoned next ≡ true)
      → Sent provider delivers before chunks emitted w
      → Sent provider delivers before chunks emitted next
  moved w next same stays s = record {
    sent = s.sent;
    unsent = s.unsent;
    read = s.read;
    delivered = same ∙ s.delivered;
    all_or_abandoned = elim s.all_or_abandoned [ inl all ↦ inl all | inr gone ↦ inr (stays gone) ];
    emits = s.emits;
  }

  is_some_text-snoc : (texts : List Text) (text : Text) → is_some_text (texts ++ text ∷ []) ≡ true
  is_some_text-snoc [] text = refl
  is_some_text-snoc (first ∷ texts) text = refl

  true≢false : true ≢ false
  true≢false e = cc

  -- A chunk that is read by an abandoned call.
  pub kept_back :
      {chunks : List Text} {emitted : Bool} {w : W} (delta : Text)
      → provider.is_abandoned w ≡ true
      → Sent provider delivers before chunks emitted w
      → Sent provider delivers before (chunks ++ delta ∷ []) emitted w
  kept_back delta gone s = record {
    sent = s.sent;
    unsent = s.unsent ++ delta ∷ [];
    read = rw s.read (append_assoc s.sent s.unsent (delta ∷ []));
    delivered = s.delivered;
    all_or_abandoned = inr gone;
    emits = s.emits;
  }

  -- A chunk that is delivered.
  pub passed_on :
      {chunks : List Text} {emitted : Bool} {w : W} (delta : Text) (next : W)
      → provider.is_abandoned w ≡ false
      → delivers.delivered next ≡ delivers.delivered w ++ delta ∷ []
      → Sent provider delivers before chunks emitted w
      → Sent provider delivers before (chunks ++ delta ∷ []) true next
  passed_on delta next not_yet more s =
      let all : s.unsent ≡ [] = elim s.all_or_abandoned [
        | inl is ↦ is
        | inr gone ↦ absurd (true≢false (sym gone ∙ not_yet))
      ] in
      record {
        sent = s.sent ++ delta ∷ [];
        unsent = [];
        read = rw (s.read, all, append_nil s.sent) (sym (append_nil (s.sent ++ delta ∷ [])));
        delivered = rw (more, s.delivered) (append_assoc before s.sent (delta ∷ []));
        all_or_abandoned = inl refl;
        emits = sym (is_some_text-snoc s.sent delta);
      }
