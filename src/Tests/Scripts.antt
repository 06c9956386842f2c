-- ===== src/Tests/Scripts.antt =====
-- A helper that runs one script, frames on a connection, and the theorems at them.
use roboz.Prelude.{
  ℕ, zero, suc, ◌+◌, ◌≡◌, ◌<◌, refl, Bool, true, false, Option, none, some, List, [], ◌∷◌, ◌++◌,
  map, arith, Result, ok, err, if◌then◌else◌, ltb, leb, ◌==◌, length, All,
}
use roboz.Prelude.Int.{pos}
use roboz.Prelude.Text.{Text, codes, text_eq}
use roboz.Scripts.{
  Message, request, response, Response, output_chunk, script_entry, completion, Completed, success,
  Codec, encode_all, encode, max_frame_bytes, ExecutionPolicy, ValueError, any_invalid_name,
  is_invalid_name,
}
use roboz.Scripts.Frames.{quiet, arrived, Connection, find_newline}
use roboz.Scripts.Frames.RoundTrip.{
  ReadsBack, Delivers, all, waits, brings, Received, read-encode_all,
}
use roboz.Scripts.Server.{System, Host}
use roboz.Scripts.Server.Bounds.{Expands}
use roboz.Scripts.Server.Ends.{Elapses}
use roboz.Scripts.Discovery.{Files, no_items, regular, Root, scanned, description}
use roboz.Scripts.Events.{Events, events}
use roboz.Scripts.Events.Stream.{Answers, events-Answers}

-- The world is the time. The pipe brings two bytes at each time before 3, and then closes.
abbrev helper : System ℕ (Unit {0}) ℕ
helper = record {
  check_cancelled = λ w. ok tt;
  now = λ w. w;
  spawn = λ path w. (ok tt, w);
  returncode = λ w. if ltb 4 w then some (pos 0) else none;
  select = λ w. (true, suc w);
  pause = λ w. suc w;
  read = λ w. (ok (if ltb w 3 then codes "hi" else []), w);
  terminate = λ w. w;
  wait = λ w. w;
  decoder = tt;
  decode = λ d bytes final. (bytes, d);
  error_text = λ e. codes "error";
}

abbrev files : Files
files = record {
  parts = λ name. name ∷ [];
  is_absolute = λ name. false;
  is_windows_absolute = λ name. false;
  suffix = λ name. codes ".sh";
  is_symlink = λ path. false;
  is_file = λ path. true;
  is_within_root = λ path. true;
  lines = λ path. codes "#!/bin/bash" ∷ codes "#" ∷ codes "# greets" ∷ [];
}

abbrev root : Root
root = scanned (regular (codes "greet.sh") no_items)

abbrev policy : ExecutionPolicy
policy = record { timeout_s = 9; max_output_bytes = 20; env_allowlist = [] }

abbrev open_host : Host ℕ
open_host = record { locked = false; world = 0 }

greets : description (files.lines (codes "greet.sh" ∷ [])) ≡ codes "greets"
unfolding description roboz.Prelude.Text.starts_with roboz.Prelude.Text.strip
greets = refl

abbrev finish : Completed
finish = record { status = success; exit_code = some (pos 0); diagnostic = [] }

runs :
    events helper files root 31 policy (some (codes "greet.sh")) open_host
    ≡ some (
      output_chunk (codes "hi") ∷ output_chunk (codes "hi") ∷ completion finish ∷ [],
      ok tt,
      record { locked = false; world = 5 },
    )
unfolding events text_eq roboz.Scripts.outcome
runs = refl

helper-Expands : Expands helper (λ t. t)
helper-Expands = record {
  pending = λ d. 0;
  pending-decoder = refl;
  decode-le = λ d bytes final. omega arith;
}

helper-Elapses : Elapses helper
helper-Elapses = record {
  spawn-le = λ path w. omega arith;
  select-le = λ w. omega arith;
  select-lt = λ w h. omega arith;
  pause-lt = λ w. omega arith;
  read-le = λ w. omega arith;
}

events-Answers_example :
    (answer : Events helper files root) × (events helper files root 31 policy
        (some (codes "greet.sh"))
        open_host
      ≡ some answer)
    × Answers helper files root (λ t. t) (some (codes "greet.sh")) 20 false answer
events-Answers_example =
    events-Answers helper files root (λ t. t) helper-Expands helper-Elapses 31 policy
      (some (codes "greet.sh")) open_host (omega arith) (omega arith)

-- A codec of two requests.
abbrev codec : Codec
codec = record {
  dump_json = λ m. elim m [ request (some s) ↦ s | _ ↦ codes "list" ];
  validate_json =
      λ bytes. some (request (if text_eq bytes (codes "list") then none else some bytes));
}

abbrev requests : List Message
requests = request none ∷ request (some (codes "a.sh")) ∷ []

-- The world counts the waits: the bytes arrive in two pieces, across the frames.
abbrev line : Connection ℕ ℕ
line = record {
  check = λ w. ok tt;
  expired = λ w. false;
  poll = λ w. (
    if w == 0 then arrived (codes "list\na.") else if w == 2 then arrived (codes "sh\n") else quiet,
    suc w,
  );
}

requests_read_back : All (ReadsBack codec) requests
unfolding find_newline text_eq
requests_read_back = (
  record { one_line = refl; reads_back = refl },
  (record { one_line = refl; reads_back = refl }, tt),
)

line-Delivers : Delivers line 3 0 (codes "list\na.sh\n")
line-Delivers =
    brings b'l' (codes "ist\na.") refl refl refl
      (waits refl refl refl (brings b's' (codes "h\n") refl refl refl (all refl refl) refl)) refl

read-encode_all_example : Received line codec 4 requests [] 0
unfolding encode_all encode
read-encode_all_example =
    read-encode_all line codec 4 3 requests (codes "list\na.sh\n") 0 (omega arith) refl
      requests_read_back line-Delivers
