-- ===== src/Scripts/Frames.antt =====
-- shed/tools/safe_scripts/protocol.py, `FrameReader`: messages out of the bytes that a connection
-- delivers in pieces of any length.
pub mod Cut
pub mod RoundTrip
use roboz.Prelude.{
  ℕ, zero, suc, ◌+◌, Bool, true, false, Option, none, some, List, [], ◌∷◌, ◌++◌, ltb, leb, ◌==◌,
  if◌then◌else◌, length, take, drop, Result, ok, err,
}
use roboz.Scripts.{Message, Codec, ValueError, frame_too_long, invalid_frame, max_frame_bytes}

-- What a wait of a tenth of a second brings: nothing, bytes, or the end of the stream.
pub data Poll : Type 0 where
  quiet : Poll
  arrived : List ℕ → Poll

pub data ReadError (E : Type 0) : Type 0 where
  stopped : E → ReadError E
  timed_out disconnected : ReadError E
  invalid : ValueError → ReadError E

-- The socket with `select`, the clock and the check of the caller.
pub record Connection (W E : Type 0) : Type 0 where
  pub check : W → Result E (Unit {0})
  pub expired : W → Bool
  pub poll : W → Poll × W

-- `pending.find(b"\n")`
unfoldable pub find_newline : List ℕ → Option ℕ
find_newline [] = none
find_newline (c ∷ rest) = elim (c == b'\n') [
  | true ↦ some 0
  | false ↦ elim (find_newline rest) [ none ↦ none | some i ↦ some (suc i) ]
]

module _ {W E : Type 0} (codec : Codec) (connection : Connection W E) where
  -- The result with `pending` and the world behind it.
  abbrev pub Read : Type 0
  Read = Result (ReadError E) Message × List ℕ × W

  abbrev pub decoded : Option Message → Result (ReadError E) Message
  decoded none = err (invalid invalid_frame)
  decoded (some message) = ok message

  unfoldable pub take_frame : ℕ → List ℕ → W → Read
  take_frame newline pending w =
      if ltb max_frame_bytes (newline + 1)
      then (err (invalid frame_too_long), pending, w)
      else (decoded (codec.validate_json (take newline pending)), drop (suc newline) pending, w)

  unfoldable pub after_poll : (List ℕ → W → Option Read) → List ℕ → Poll × W → Option Read
  after_poll again pending (quiet, w) = again pending w
  after_poll again pending (arrived [], w) = some (err disconnected, pending, w)
  after_poll again pending (arrived (c ∷ chunk), w) = again (pending ++ c ∷ chunk) w

  unfoldable pub after_find : (List ℕ → W → Option Read) → List ℕ → W → Option ℕ → Option Read
  unfolding take_frame after_poll
  after_find again pending w (some newline) = some (take_frame newline pending w)
  after_find again pending w none = elim (leb max_frame_bytes (length pending)) [
    | true ↦ some (err (invalid frame_too_long), pending, w)
    | false ↦ after_poll again pending (connection.poll w)
  ]

  unfoldable pub after_check :
      (List ℕ → W → Option Read) → List ℕ → W → Result E (Unit {0}) → Option Read
  unfolding after_find find_newline
  after_check again pending w (err e) = some (err (stopped e), pending, w)
  after_check again pending w (ok done) = elim (connection.expired w) [
    | true ↦ some (err timed_out, pending, w)
    | false ↦ after_find again pending w (find_newline pending)
  ]

  -- The loop of `read`, with fuel.
  unfoldable pub read_from : ℕ → List ℕ → W → Option Read
  unfolding after_check
  read_from zero pending w = none
  read_from (suc fuel) pending w = after_check (read_from fuel) pending w (connection.check w)
