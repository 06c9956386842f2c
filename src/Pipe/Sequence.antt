-- ===== src/Pipe/Sequence.antt =====
-- The numbers of the events of a run.
use roboz.Prelude.{
  ℕ, suc, ◌+◌, ◌≡◌, refl, sym, ap, ◌∙◌, Bool, true, false, Option, none, some, List, [], ◌∷◌, ◌++◌,
  map, length, length-append, range_from, arith, if◌then◌else◌, append_nil, append_assoc,
  map-append, range_from-append,
}
use roboz.Prelude.Text.{Text}
use roboz.Pipe.{
  Event, sequence_of, images_omitted, Pipe, same_selection, emit, unless_dry, finalize_run,
  report_image_omission, start_message, clear_message, emit_message, emit_chunk, emit_delta,
  emit_message_delta, emit_script_output, emit_runtime_event, cancel, interrupt, clear_interrupt,
  Call, finalizes, starts_message, cancels, interrupts, clears_interrupt, reports_omission,
  emits_message, emits_delta, emits_script, emits_runtime, perform, perform_all,
}

-- From `p` to `after`, events were added, with the numbers that follow that of `p`.
pub record Numbered {M : Type 0} (p after : Pipe M) : Type 0 where
  pub added : List (Event M)
  pub extends : after.events ≡ p.events ++ added
  pub numbers : map sequence_of added ≡ range_from (suc p.sequence) (length added)
  pub last : after.sequence ≡ p.sequence + length added

module _ {M : Type 0} where
  silent-Numbered :
      (p after : Pipe M) → after.events ≡ p.events → after.sequence ≡ p.sequence → Numbered p after
  silent-Numbered p after events number = record {
    added = [];
    extends = events ∙ sym (append_nil p.events);
    numbers = refl;
    last = omega arith;
  }

  emit-Numbered :
      (p ready : Pipe M) (event : ℕ → Event M)
      → ((n : ℕ) → sequence_of (event n) ≡ n)
      → ready.events ≡ p.events
      → ready.sequence ≡ p.sequence
      → Numbered p (emit event ready)
  unfolding emit
  emit-Numbered p ready event numbered events number = record {
    added = event (ready.sequence + 1) ∷ [];
    extends = rw events refl;
    numbers = rw numbered (ap (λ n. n ∷ []) (omega arith));
    last = omega arith;
  }

  Numbered-trans : (p q r : Pipe M) → Numbered p q → Numbered q r → Numbered p r
  Numbered-trans p q r one two = record {
    added = one.added ++ two.added;
    extends =
        two.extends
        ∙ (ap (λ l. l ++ two.added) one.extends ∙ append_assoc p.events one.added two.added);
    numbers =
        let later : suc p.sequence + length one.added ≡ suc q.sequence = omega (arith, one.last) in
        rw
          (
            map-append sequence_of one.added two.added,
            length-append one.added two.added,
            range_from-append (suc p.sequence) (length one.added) (length two.added),
            one.numbers,
            two.numbers,
            later,
          )
          refl;
    last = omega (arith, one.last, two.last, length-append one.added two.added);
  }

  if-Numbered :
      (test : Bool) (p a b : Pipe M)
      → Numbered p a
      → Numbered p b
      → Numbered p (if test then a else b)
  if-Numbered true p a b h k = h
  if-Numbered false p a b h k = k

  unless_dry-Numbered :
      (p ready : Pipe M) (event : ℕ → Event M)
      → ((n : ℕ) → sequence_of (event n) ≡ n)
      → ready.events ≡ p.events
      → ready.sequence ≡ p.sequence
      → Numbered p (unless_dry (emit event) ready)
  unfolding unless_dry
  unless_dry-Numbered p ready event numbered events number =
      if-Numbered ready.dry_run p _ _ (silent-Numbered p ready events number)
        (emit-Numbered p ready event numbered events number)

  clear_message-same :
      (id : Option ℕ) (p : Pipe M)
      → ((clear_message id p).events ≡ p.events) × ((clear_message id p).sequence ≡ p.sequence)
  unfolding clear_message
  clear_message-same none p = (refl, refl)
  clear_message-same (some id) p = (refl, refl)

  emit_delta-Numbered :
      (delta : Text) (id : Option ℕ) (p : Pipe M) → Numbered p (emit_delta delta id p)
  unfolding emit_delta emit_chunk start_message
  emit_delta-Numbered delta none p = emit-Numbered p _ _ (λ n. refl) refl refl
  emit_delta-Numbered delta (some id) p = emit-Numbered p _ _ (λ n. refl) refl refl

  perform-Numbered : (call : Call M) (p : Pipe M) → Numbered p (perform call p)
  unfolding perform finalize_run start_message report_image_omission emit_message emit_message_delta
      emit_script_output emit_runtime_event cancel interrupt clear_interrupt unless_dry
  perform-Numbered finalizes p =
      if-Numbered p.dry_run p _ _ (silent-Numbered p p refl refl)
        (emit-Numbered p p _ (λ n. refl) refl refl)
  perform-Numbered starts_message p = silent-Numbered p _ refl refl
  perform-Numbered cancels p = silent-Numbered p _ refl refl
  perform-Numbered interrupts p = silent-Numbered p _ refl refl
  perform-Numbered clears_interrupt p = silent-Numbered p _ refl refl
  perform-Numbered (reports_omission endpoint model false) p = silent-Numbered p _ refl refl
  perform-Numbered (reports_omission endpoint model true) p =
      if-Numbered (same_selection (endpoint, model) p.image_omission) p _ _
        (silent-Numbered p (record p { image_omission = some (endpoint, model) }) refl refl)
        (unless_dry-Numbered p (record p { image_omission = some (endpoint, model) })
          (images_omitted endpoint model) (λ n. refl) refl refl)
  perform-Numbered (emits_message m) p =
      let (events, number) = clear_message-same p.message_id p in
      emit-Numbered p (clear_message p.message_id p) _ (λ n. refl) events number
  perform-Numbered (emits_delta []) p = silent-Numbered p p refl refl
  perform-Numbered (emits_delta (c ∷ delta)) p =
      if-Numbered p.dry_run p _ _ (silent-Numbered p p refl refl)
        (emit_delta-Numbered (c ∷ delta) p.message_id p)
  perform-Numbered (emits_script content) p = emit-Numbered p p _ (λ n. refl) refl refl
  perform-Numbered (emits_runtime content) p =
      if-Numbered p.dry_run p _ _ (silent-Numbered p p refl refl)
        (emit-Numbered p p _ (λ n. refl) refl refl)

  -- Whatever is called on a pipe between two initialisations, its events carry consecutive numbers, in
  -- the order in which they are emitted, and the pipe's number is that of the last.
  pub perform_all-Numbered : (calls : List (Call M)) (p : Pipe M) → Numbered p (perform_all calls p)
  unfolding perform_all
  perform_all-Numbered [] p = silent-Numbered p p refl refl
  perform_all-Numbered (call ∷ calls) p =
      Numbered-trans p (perform call p) (perform_all calls (perform call p))
        (perform-Numbered call p) (perform_all-Numbered calls (perform call p))
