-- ===== src/Cli/Tokens/Layout.antt =====
-- What an accepted command looks like: options with their values, then operands to the end.
use roboz.Prelude.{
  ℕ, ◌-◌, ◌<◌, ◌≤◌, String, eq_iff, ◌≡◌, refl, inl, inr, false, ◌&&◌, List, [], ◌∷◌, ok, arith,
  length, All, range_from, Result-cases,
}
use roboz.Cli.Contracts.{cmd, CommandName, command_text, Token, TokenRule, ParsedCommand}
use roboz.Cli.Tokens.{
  has_option, fresh, parsed_of, parse_from, parse_arguments, TokenPolicy, validate_tokens,
  check_pairs,
}
use roboz.Cli.Tokens.Options.{Distinct}
use roboz.Cli.Tokens.Steps.{Justified, Sound, parse_from-Sound}

-- An accepted command: its name, its options with their values, and its operands to the end.
pub record IsLayout (spec : TokenPolicy) (tokens : List Token) (parsed : ParsedCommand)
    : Type 0 where
  pub name : CommandName
  pub arguments : List Token
  pub spelled : tokens ≡ cmd name ∷ arguments
  pub named : command_text name ≡ command_text spec.command
  pub kept : parsed.tokens ≡ tokens
  pub start : ℕ
  pub start-pos : 0 < start
  pub start-le : start ≤ length tokens
  pub operands : parsed.operands ≡ range_from start (length tokens - start)
  pub options : All (Justified spec.allowed tokens start) parsed.options
  pub distinct : Distinct parsed.options
  pub compatible :
      All
        (λ pair. (has_option pair.0 parsed.options && has_option pair.1 parsed.options) ≡ false)
        spec.forbidden_pairs

check_pairs-compatible :
    (pairs : List (String × String)) (options : List (String × ℕ))
    → check_pairs pairs options ≡ ok tt
    → All (λ pair. (has_option pair.0 options && has_option pair.1 options) ≡ false) pairs
unfolding check_pairs
check_pairs-compatible [] options h = tt
check_pairs-compatible ((left, right) ∷ pairs) options h =
    (ground arith, check_pairs-compatible pairs options (ground arith))

fresh-Sound : (allowed : List TokenRule) (all : List Token) → Sound allowed all 1 fresh
fresh-Sound allowed all = record {
  start = 1;
  start-pos = omega arith;
  start-le = omega arith;
  operands = refl;
  options = tt;
  distinct = tt;
}

-- A command that passes the validation consists of its name, then options, each with the value
-- that its rule demands, then operands up to the last token. Every option is declared by the rule
-- that its token matched, no option stands twice, and no forbidden pair is there.
pub validate_tokens-IsLayout :
    (spec : TokenPolicy) (tokens : List Token) (parsed : ParsedCommand)
    → validate_tokens tokens spec ≡ ok parsed
    → IsLayout spec tokens parsed
unfolding validate_tokens parse_arguments
validate_tokens-IsLayout spec [] parsed h = cc
validate_tokens-IsLayout spec (cmd name ∷ arguments) parsed h =
    elim (Result-cases (parse_from spec.allowed 1 arguments fresh)) [
      | inl (p, progressed) ↦
          let s =
            parse_from-Sound spec.allowed (cmd name ∷ arguments) 1 (length (cmd name ∷ arguments))
              arguments fresh p (omega arith) refl (fresh-Sound _ _) progressed in
          let same : parsed ≡ parsed_of (cmd name ∷ arguments) p = ground arith in
          let pairs : check_pairs spec.forbidden_pairs p.options ≡ ok tt = ground arith in
          rw same (record {
            name = name;
            arguments = arguments;
            spelled = refl;
            named = (eq_iff (command_text name) (command_text spec.command)).0 (ground arith);
            kept = refl;
            start = s.start;
            start-pos = s.start-pos;
            start-le = s.start-le;
            operands = s.operands;
            options = s.options;
            distinct = s.distinct;
            compatible = check_pairs-compatible spec.forbidden_pairs p.options pairs;
          })
      | inr (error, failed) ↦ absurd (ground arith)
    ]
validate_tokens-IsLayout spec (_ ∷ arguments) parsed h = cc
