-- ===== src/Scripts/Frames/RoundTrip.antt =====
-- Messages that are framed, sent, and delivered in pieces are read as they were.
use roboz.Prelude.{
  ℕ, zero, suc, ◌+◌, ◌≤◌, ◌<◌, ◌≡◌, refl, sym, ap, ◌∙◌, false, none, some, List, [], ◌∷◌, ◌++◌,
  arith, ltb, leb, length, take, drop, ok, Bool-cases, Option-cases, inl, inr, append_assoc,
  length-append, All, >>=-eq-ok,
}
use roboz.Scripts.{Message, Codec, encode, encode_all, max_frame_bytes}
use roboz.Scripts.Frames.Cut.{cut-line, no_cut-lt, nil_of_append}
use roboz.Scripts.Frames.{
  quiet, arrived, Connection, find_newline, take_frame, after_poll, after_find, after_check,
  read_from,
}

-- The codec writes a message as one line, and reads it back.
pub record ReadsBack (codec : Codec) (message : Message) : Type 0 where
  pub one_line : find_newline (codec.dump_json message) ≡ none
  pub reads_back : codec.validate_json (codec.dump_json message) ≡ some message

module _ {W E : Type 0} (connection : Connection W E) where
  -- In so many waits, with no deadline expired and no check failed, the bytes arrive.
  pub data Delivers : ℕ → W → List ℕ → Type 0 where
    all : {w : W} → connection.check w ≡ ok tt → connection.expired w ≡ false → Delivers 0 w []
    waits :
        {n : ℕ} {w next : W} {bytes : List ℕ}
        → connection.check w ≡ ok tt
        → connection.expired w ≡ false
        → connection.poll w ≡ (quiet, next)
        → Delivers n next bytes
        → Delivers (suc n) w bytes
    brings :
        {n : ℕ} {w next : W} (c : ℕ) (chunk : List ℕ) {rest bytes : List ℕ}
        → connection.check w ≡ ok tt
        → connection.expired w ≡ false
        → connection.poll w ≡ (arrived (c ∷ chunk), next)
        → Delivers n next rest
        → bytes ≡ (c ∷ chunk) ++ rest
        → Delivers (suc n) w bytes

  Delivers-goes_on :
      {n : ℕ} {w : W} {bytes : List ℕ}
      → Delivers n w bytes
      → (connection.check w ≡ ok tt) × (connection.expired w ≡ false)
  Delivers-goes_on (all checked open_) = (checked, open_)
  Delivers-goes_on (waits checked open_ polled rest) = (checked, open_)
  Delivers-goes_on (brings c chunk checked open_ polled rest is) = (checked, open_)

  module _ (codec : Codec) (message : Message) (frame : List ℕ)
      (framed : encode codec message ≡ ok frame) (codes : ReadsBack codec message) where
    encode-ok :
        (frame ≡ codec.dump_json message ++ b'\n' ∷ [])
        × (length (codec.dump_json message) < max_frame_bytes)
    unfolding encode
    encode-ok = elim (Bool-cases (ltb max_frame_bytes (length (codec.dump_json message) + 1))) [
      | inl large ↦ absurd (ground arith)
      | inr fits ↦ (ground arith, ground arith)
    ]

    -- What reading the message leaves: the bytes behind it, read or still to come.
    abbrev Left : ℕ → List ℕ → ℕ → List ℕ → W → Type 0
    Left fuel rest n pending w =
        (left : List ℕ) × (m : ℕ) × (next : W) × (bytes : List ℕ) × (read_from codec connection fuel
            pending w
          ≡ some (ok message, left, next))
        × Delivers m next bytes
        × (left ++ bytes ≡ rest)
        × (m ≤ n)

    read_from-found :
        (fuel n i : ℕ) (pending bytes rest : List ℕ) (w : W)
        → Delivers n w bytes
        → pending ++ bytes ≡ frame ++ rest
        → find_newline pending ≡ some i
        → Left (suc fuel) rest n pending w
    unfolding read_from after_check after_find take_frame
    read_from-found fuel n i pending bytes rest w delivers h found =
        let (is, fits) = encode-ok in
        let (checked, open_) = Delivers-goes_on delivers in
        let (line, left, size) =
          cut-line pending bytes (codec.dump_json message) rest i codes.one_line
            (h
              ∙ (ap (λ f. f ++ rest) is ∙ append_assoc (codec.dump_json message) (b'\n' ∷ []) rest))
            found in
        let short : ltb max_frame_bytes (i + 1) ≡ false = ground arith in
        let reads : codec.validate_json (take i pending) ≡ some message =
          rw line codes.reads_back in
        (
          drop (suc i) pending,
          n,
          w,
          bytes,
          rw (checked, after_check, open_, found, after_find, short, reads) refl,
          delivers,
          left,
          omega arith,
        )

    -- A round that finds no newline waits.
    read_from-wait :
        (fuel : ℕ) (pending bytes rest : List ℕ) (w : W)
        → connection.check w ≡ ok tt
        → connection.expired w ≡ false
        → pending ++ bytes ≡ frame ++ rest
        → find_newline pending ≡ none
        → read_from codec connection (suc fuel) pending w
          ≡ after_poll codec connection
              (read_from codec connection fuel)
              pending
              (connection.poll w)
    unfolding read_from after_check after_find
    read_from-wait fuel pending bytes rest w checked open_ h gone =
        let (is, fits) = encode-ok in
        let part =
          no_cut-lt pending bytes (codec.dump_json message) rest
            (h
              ∙ (ap (λ f. f ++ rest) is ∙ append_assoc (codec.dump_json message) (b'\n' ∷ []) rest))
            gone in
        let short : leb max_frame_bytes (length pending) ≡ false = ground arith in
        rw (checked, after_check, open_, gone, after_find, short) refl

    -- Without the newline there is more to come.
    not_all :
        (pending rest : List ℕ) → pending ++ [] ≡ frame ++ rest → find_newline pending ≡ none → ⊥
    not_all pending rest h gone =
        let (is, fits) = encode-ok in
        let part =
          no_cut-lt pending [] (codec.dump_json message) rest
            (h
              ∙ (ap (λ f. f ++ rest) is ∙ append_assoc (codec.dump_json message) (b'\n' ∷ []) rest))
            gone in
        omega (
          arith,
          ap length h,
          ap length is,
          length-append {0} pending [],
          length-append {0} frame rest,
          length-append {0} (codec.dump_json message) (b'\n' ∷ []),
        )

    found_or_not :
        (fuel n : ℕ) (pending bytes rest : List ℕ) (w : W)
        → Delivers n w bytes
        → pending ++ bytes ≡ frame ++ rest
        → (find_newline pending ≡ none → Left (suc fuel) rest n pending w)
        → Left (suc fuel) rest n pending w
    found_or_not fuel n pending bytes rest w delivers h waiting =
        elim (Option-cases (find_newline pending)) [
          | inr (i, found) ↦ read_from-found fuel n i pending bytes rest w delivers h found
          | inl gone ↦ waiting gone
        ]

    -- A wait goes on to what is left behind it.
    Left-after :
        (fuel n : ℕ) (pending more rest : List ℕ) (w next : W)
        → read_from codec connection (suc fuel) pending w
          ≡ read_from codec connection fuel more next
        → Left fuel rest n more next
        → Left (suc fuel) rest (suc n) pending w
    Left-after fuel n pending more rest w next step
          (left, m, last, bytes, read, later, same, below) =
        (left, m, last, bytes, step ∙ read, later, same, omega arith)

    read_from-message :
        (fuel n : ℕ) (pending bytes rest : List ℕ) (w : W)
        → n < fuel
        → Delivers n w bytes
        → pending ++ bytes ≡ frame ++ rest
        → Left fuel rest n pending w
    unfolding after_poll
    read_from-message zero n pending bytes rest w less delivers h = absurd (omega arith)
    read_from-message (suc fuel) zero pending [] rest w less (all checked open_) h =
        found_or_not fuel 0 pending [] rest w (all checked open_) h
          (λ gone. absurd (not_all pending rest h gone))
    read_from-message (suc fuel) zero pending (c ∷ bytes) rest w less delivers h = elim delivers [ ]
    read_from-message (suc fuel) (suc n) pending bytes rest w less
          (waits {next} checked open_ polled later) h =
        found_or_not fuel (suc n) pending bytes rest w (waits checked open_ polled later) h (λ gone.
          Left-after fuel n pending pending rest w next
            (read_from-wait fuel pending bytes rest w checked open_ h gone
              ∙ rw (polled, after_poll) refl)
            (read_from-message fuel n pending bytes rest next (omega arith) later h))
    read_from-message (suc fuel) (suc n) pending bytes rest w less
          (brings {next} c chunk {rest = behind} checked open_ polled later is) h =
        found_or_not fuel (suc n) pending bytes rest w
          (brings c chunk checked open_ polled later is) h
          (λ gone.
            Left-after fuel n pending (pending ++ c ∷ chunk) rest w next
              (read_from-wait fuel pending bytes rest w checked open_ h gone
                ∙ rw (polled, after_poll) refl)
              (read_from-message fuel n (pending ++ c ∷ chunk) behind rest next (omega arith) later
                (append_assoc pending (c ∷ chunk) behind ∙ (ap (λ b. pending ++ b) (sym is) ∙ h))))

  -- Reading once for each message gives them in order, and leaves nothing.
  abbrev pub Received : Codec → ℕ → List Message → List ℕ → W → Type 0
  Received codec fuel [] pending w = pending ≡ []
  Received codec fuel (message ∷ messages) pending w =
      (left : List ℕ) × (next : W) × (read_from codec connection fuel pending w
        ≡ some (ok message, left, next))
      × Received codec fuel messages left next

  Received-sent :
      (codec : Codec) (fuel n : ℕ) (messages : List Message) (sent pending bytes : List ℕ) (w : W)
      → n < fuel
      → encode_all codec messages ≡ ok sent
      → All (ReadsBack codec) messages
      → Delivers n w bytes
      → pending ++ bytes ≡ sent
      → Received codec fuel messages pending w
  unfolding encode_all
  Received-sent codec fuel n [] sent pending bytes w less h codes delivers is =
      let nothing : [] ≡ sent = cc in nil_of_append pending bytes (is ∙ sym nothing)
  Received-sent codec fuel n (message ∷ messages) sent pending bytes w less h codes delivers is =
      let (frame, framed, later) = >>=-eq-ok (encode codec message) _ h in
      let (behind, encoded, all_sent) = >>=-eq-ok (encode_all codec messages) _ later in
      let joined : frame ++ behind ≡ sent = cc in
      let (left, m, next, rest, read, on, same, below) =
        read_from-message codec message frame framed codes.0 fuel n pending bytes behind w less
          delivers (is ∙ sym joined) in
      (
        left,
        next,
        read,
        Received-sent codec fuel m messages behind left rest next (omega arith) encoded codes.1 on
            same,
      )

  -- Messages that the sender encodes are read as they were, each once and in order, in whatever
  -- pieces the connection delivers the bytes, if no check fails and no deadline expires on the way,
  -- and a read may wait as often as the connection does. The codec is to write each message as one
  -- line that it reads back.
  pub read-encode_all :
      (codec : Codec) (fuel n : ℕ) (messages : List Message) (sent : List ℕ) (w : W)
      → n < fuel
      → encode_all codec messages ≡ ok sent
      → All (ReadsBack codec) messages
      → Delivers n w sent
      → Received codec fuel messages [] w
  read-encode_all codec fuel n messages sent w less h codes delivers =
      Received-sent codec fuel n messages sent [] sent w less h codes delivers refl
