-- ===== src/Scripts.antt =====
-- shed/tools/safe_scripts/protocol.py: the messages between the helper that runs scripts and its
-- clients, the bounds on them, and the frames that carry them.
pub mod Frames
pub mod Server
pub mod Discovery
pub mod Events
pub mod Client
use roboz.Prelude.{
  ℕ, zero, suc, ◌+◌, Bool, true, false, ◌||◌, Option, none, some, List, [], ◌∷◌, ◌++◌, ltb, leb,
  ◌==◌, if◌then◌else◌, length, take, Result, ok, err, ◌>>◌, ◌>>=◌, raise_if, not,
}
use roboz.Prelude.Int.{ℤ, pos, negsuc}
use roboz.Prelude.Text.{Text, codes, text_eq}

abbrev pub max_diagnostic_chars : ℕ
max_diagnostic_chars = 4096

abbrev pub max_frame_bytes : ℕ
max_frame_bytes = 524288

abbrev pub protocol_version : ℕ
protocol_version = 2

pub data ScriptStatus : Type 0 where
  listed success refused busy failed timeout output_limit : ScriptStatus

pub record Completed : Type 0 where
  pub status : ScriptStatus
  pub exit_code : Option ℤ
  pub diagnostic : Text

pub data Response : Type 0 where
  output_chunk : Text → Response
  script_entry : (script description : Text) → Response
  completion : Completed → Response

pub record Greeting : Type 0 where
  pub protocol : ℕ
  pub roboz : Text
  pub timeout_s : ℕ
  pub max_output_bytes : ℕ

pub data Message : Type 0 where
  greeting : Greeting → Message
  request : Option Text → Message
  response : Response → Message

-- A ValueError, by what it says.
pub data ValueError : Type 0 where
  success_without_zero failed_with_zero unexpected_exit_code protocol_mismatch invalid_policy
        invalid_env_name frame_too_long invalid_frame :
      ValueError

-- `Completed.validate_outcome`
unfoldable pub validate_outcome : ScriptStatus → Option ℤ → Result ValueError (Unit {0})
validate_outcome success (some (pos zero)) = ok tt
validate_outcome success _ = err success_without_zero
validate_outcome failed (some (pos zero)) = err failed_with_zero
validate_outcome failed _ = ok tt
validate_outcome _ none = ok tt
validate_outcome _ (some exit_code) = err unexpected_exit_code

-- `Completed.outcome`: the diagnostic is cut, and the result is validated.
unfoldable pub outcome : ScriptStatus → Option ℤ → Text → Result ValueError Completed
unfolding validate_outcome
outcome status exit_code diagnostic = validate_outcome status exit_code >>= λ valid. ok (record {
  status = status;
  exit_code = exit_code;
  diagnostic = take max_diagnostic_chars diagnostic;
})

-- The variables of `ReservedScriptEnv`.
abbrev pub reserved_script_env : List Text
reserved_script_env =
    codes "PATH"
    ∷ codes "BASH_ENV"
    ∷ codes "ENV"
    ∷ codes "SHELLOPTS"
    ∷ codes "BASHOPTS"
    ∷ codes "LD_PRELOAD"
    ∷ codes "LD_LIBRARY_PATH"
    ∷ codes "PYTHONPATH"
    ∷ []

unfoldable pub is_one_of : Text → List Text → Bool
is_one_of name [] = false
is_one_of name (reserved ∷ rest) = text_eq name reserved || is_one_of name rest

unfoldable pub contains_code : ℕ → Text → Bool
contains_code code [] = false
contains_code code (c ∷ text) = c == code || contains_code code text

unfoldable pub is_invalid_name : Text → Bool
unfolding contains_code is_one_of
is_invalid_name name =
    length name == 0
    || contains_code b'=' name
    || contains_code 0 name
    || is_one_of name reserved_script_env

unfoldable pub any_invalid_name : List Text → Bool
unfolding is_invalid_name
any_invalid_name [] = false
any_invalid_name (name ∷ names) = is_invalid_name name || any_invalid_name names

-- `ExecutionPolicy`, with its validation: both limits are positive.
pub record ExecutionPolicy : Type 0 where
  pub timeout_s : ℕ
  pub max_output_bytes : ℕ
  pub env_allowlist : List Text

unfoldable pub execution_policy : ℕ → ℕ → List Text → Result ValueError ExecutionPolicy
unfolding any_invalid_name
execution_policy timeout_s max_output_bytes env_allowlist =
    raise_if (timeout_s == 0 || max_output_bytes == 0) invalid_policy
    >> raise_if (any_invalid_name env_allowlist) invalid_env_name
    >> ok (record {
      timeout_s = timeout_s;
      max_output_bytes = max_output_bytes;
      env_allowlist = env_allowlist;
    })

-- `Greeting.policy`
unfoldable pub greeting_policy : Greeting → Result ValueError ExecutionPolicy
unfolding execution_policy
greeting_policy hello =
    raise_if (not (hello.protocol == protocol_version)) protocol_mismatch
    >> execution_policy hello.timeout_s hello.max_output_bytes []

-- The texts of the messages, of pydantic's json: `validate_json` also applies the bounds of the
-- fields and `validate_outcome`.
pub record Codec : Type 0 where
  pub dump_json : Message → List ℕ
  pub validate_json : List ℕ → Option Message

-- A frame is a text and its newline.
unfoldable pub encode : Codec → Message → Result ValueError (List ℕ)
encode codec message =
    raise_if (ltb max_frame_bytes (length (codec.dump_json message) + 1)) frame_too_long
    >> ok (codec.dump_json message ++ b'\n' ∷ [])

-- What the session sends for its events, one frame after the other.
unfoldable pub encode_all : Codec → List Message → Result ValueError (List ℕ)
encode_all codec [] = ok []
encode_all codec (message ∷ messages) =
    encode codec message >>= λ frame. encode_all codec messages >>= λ frames. ok (frame ++ frames)
