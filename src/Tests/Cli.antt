-- ===== src/Tests/Cli.antt =====
-- Runs of the file commands, and their theorems at them.
use roboz.Prelude.{
  ℕ, ◌+◌, ◌≤◌, ◌≡◌, refl, ◌↔◌, ◌⊎◌, str_eq, true, false, none, some, List, [], ◌∷◌, map, ok, length,
  arith, if◌then◌else◌,
}
use roboz.Prelude.Int.{pos}
use roboz.Prelude.Text.{codes}
use roboz.Truncation.{light_max_chars, default_truncation}
use roboz.Guard.Policy.{FilePath, GuardContext, deny, allow, read}
use roboz.Guard.Approval.{Reply, no_reply, Exchange}
use roboz.Cli.Contracts.{
  Token, cmd, flg, arg, pth, cat, head, ParsedCommand, argv, pth_tag, flg_tag, arg_tag,
  validate_sequence,
}
use roboz.Cli.Sequence.{split_command}
use roboz.Cli.Zsh.{
  Script, last, feed, on_success, path_word, flag_word, argument_word, script_tokens, eval_script,
}
use roboz.Cli.Zsh.Grammar.{Spelled, validate_sequence_iff}
use roboz.Cli.Tokens.{TokenPolicy, validate_tokens}
use roboz.Cli.Tokens.Layout.{IsLayout, validate_tokens-IsLayout}
use roboz.Cli.Process.{Bytes, CompletedProcess, CommandReady, System, RequireError, LaunchError}
use roboz.Cli.Execute.{
  PreparedCommand, CommandSpec, CommandExecution, Report, Environment, prepared, step, chain,
}
use roboz.Cli.Execute.Chain.{started, nothing_run, run_one, report_of, chain-script}
use roboz.Cli.Execute.Safety.{Authorised, step-Authorised}
use roboz.Cli.Execute.Reports.{length-chain}

abbrev work : FilePath
work = record { absolute = true; parts = codes "work" ∷ [] }

abbrev a_file : FilePath
a_file = record { absolute = true; parts = codes "work" ∷ codes "a" ∷ [] }

-- head [-n count] [path …]
abbrev head_policy : TokenPolicy
head_policy = record {
  command = head;
  allowed =
      record {
        tag = flg_tag;
        fullmatch = λ text. str_eq text "-n";
        option = some "-n";
        takes = some arg_tag;
        ends_options = false;
      }
      ∷ record {
        tag = arg_tag;
        fullmatch = λ text. true;
        option = none;
        takes = none;
        ends_options = false;
      }
      ∷ record {
        tag = pth_tag;
        fullmatch = λ text. true;
        option = none;
        takes = none;
        ends_options = false;
      }
      ∷ [];
  forbidden_pairs = [];
}

abbrev head_ready : ParsedCommand → CommandReady
head_ready parsed = record {
  command_name = "head";
  argv = map codes (argv parsed);
  base_workdir = work;
  display_command = codes "head";
  stdin = none;
}

abbrev head_spec : CommandSpec ℕ
head_spec = record {
  policy = head_policy;
  prepare_command =
      λ parsed base w. ok (record { ready = head_ready parsed; operations = (read, a_file) ∷ [] });
}

-- A world that counts the processes; each prints ok and succeeds.
abbrev counting : System ℕ
counting = record {
  require = λ name w. ok (codes "/usr/bin/head");
  run = λ argv base stdin w.
      (ok (record { returncode = pos 0; stdout = codes "ok"; stderr = [] }), w + 1);
  encode = λ text. ok text;
  decode = λ bytes. bytes;
}

abbrev open_guard : GuardContext
open_guard = record {
  takes_precedence = deny;
  deny_rules = [];
  allow_rules = [];
  ask_rules = [];
  default_verdict = allow;
  has_pipe = false;
}

abbrev env : Environment ℕ
env = record {
  commands = λ name. if str_eq name "head" then some head_spec else none;
  system = counting;
  base = work;
  guard = open_guard;
  full_match = λ path pattern. false;
  ask = λ w n. no_reply;
  heard = λ exchanges w. w;
  token_message = λ error. codes "Invalid command";
  guard_message = λ message. codes "Denied";
  truncation = default_truncation;
}

-- head -n 2 a | head && cat a
abbrev script : Script
script = record {
  first =
      feed (record { name = head; words = flag_word "-n" ∷ argument_word "2" ∷ path_word "a" ∷ [] })
        (last (record { name = head; words = [] }));
  rest = (on_success, last (record { name = cat; words = path_word "a" ∷ [] })) ∷ [];
}

chain-script_example :
    chain env 9 (started (script_tokens script) default_truncation) 0
    ≡ some (report_of env (eval_script (run_one env) script (nothing_run 0)))
chain-script_example = chain-script env script default_truncation 9 0 (omega arith)

-- Two processes ran, and the third command was refused without one.
two_processes : (report_of env (eval_script (run_one env) script (nothing_run 0))).1 ≡ 2
unfolding prepared validate_tokens roboz.Cli.Tokens.parse_arguments roboz.Cli.Tokens.parse_from
    roboz.Cli.Tokens.admit roboz.Cli.Tokens.matching_rule roboz.Cli.Tokens.has_option
    roboz.Cli.Tokens.option_value roboz.Cli.Tokens.check_pairs roboz.Cli.Execute.step_process
    roboz.Cli.Execute.failure_of roboz.Cli.Execute.guard_step roboz.Guard.Approval.guard_items
    roboz.Guard.Policy.first_denied roboz.Guard.Policy.item_verdict
    roboz.Guard.Policy.policy_verdict roboz.Guard.Policy.matches
    roboz.Guard.Approval.request_approvals roboz.Guard.Approval.request_from
    roboz.Guard.Approval.pending_items roboz.Guard.Approval.allowed_result
    roboz.Cli.Process.run_command roboz.Cli.Process.launch roboz.Cli.Process.stdin_bytes
    roboz.Cli.Process.launch_outcome roboz.Cli.Process.failed_with roboz.Cli.Execute.decoded_length
    roboz.Cli.Execute.normalised
two_processes = refl

step-Authorised_example :
    ((step env (started (script_tokens script) default_truncation) 0).1 ≡ 0)
    ⊎ ((exchanges : List Exchange) × ((step env
            (started (script_tokens script) default_truncation)
            0).1
          ≡ env.heard exchanges 0))
    ⊎ ((command : PreparedCommand) × (prepared env (split_command (script_tokens script)).0 0
          ≡ some (ok command))
        × Authorised env command 0)
step-Authorised_example = step-Authorised env (started (script_tokens script) default_truncation) 0

length-chain_example :
    (report : Report) × (after : ℕ) × (chain env 9
        (started (script_tokens script) default_truncation)
        0
      ≡ some (some report, after))
    × (length report.text ≤ light_max_chars)
length-chain_example =
    length-chain env script default_truncation 9 0 (λ argv base stdin w. omega arith) (omega arith)

validate_sequence_iff_example :
    (validate_sequence (script_tokens script) ≡ ok (script_tokens script))
    ↔ Spelled (script_tokens script)
validate_sequence_iff_example = validate_sequence_iff (script_tokens script)

abbrev head_tokens : List Token
head_tokens = cmd head ∷ flg "-n" ∷ arg "2" ∷ pth "a" ∷ []

abbrev head_parsed : ParsedCommand
head_parsed = record { tokens = head_tokens; operands = 3 ∷ []; options = ("-n", 1) ∷ [] }

validate_tokens-IsLayout_example : IsLayout head_policy head_tokens head_parsed
unfolding validate_tokens roboz.Cli.Tokens.parse_arguments roboz.Cli.Tokens.parse_from
    roboz.Cli.Tokens.admit roboz.Cli.Tokens.matching_rule roboz.Cli.Tokens.has_option
    roboz.Cli.Tokens.option_value roboz.Cli.Tokens.check_pairs
validate_tokens-IsLayout_example = validate_tokens-IsLayout head_policy head_tokens head_parsed refl
