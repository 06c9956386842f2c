-- ===== src/Cli/Zsh/Grammar.antt =====
-- Which streams the validator of `FileCommand` accepts: the scripts of the grammar.
use roboz.Prelude.{◌≡◌, refl, ap, ◌∙◌, ◌↔◌, true, false, List, [], ◌∷◌, ◌++◌, map, ok, arith}
use roboz.Cli.Contracts.{
  Token, cmd, ctl, flg, arg, pth, CommandName, ControlOperator, and_then, or_else, semicolon, bar,
  expect_next, sequence_from, validate_sequence,
}
use roboz.Cli.Zsh.{
  Word, flag_word, argument_word, path_word, word_token, Command, Pipeline, last, feed, Connector,
  on_success, on_failure, always, connector_operator, Script, command_tokens, pipeline_tokens,
  rest_tokens, script_tokens,
}

-- `tokens` spells a script.
pub record Spelled (tokens : List Token) : Type 0 where
  pub script : Script
  pub spelling : script_tokens script ≡ tokens

accepts-words :
    (words : List Word) (tail : List Token)
    → sequence_from false (map word_token words ++ tail) ≡ sequence_from false tail
unfolding sequence_from expect_next
accepts-words [] tail = refl
accepts-words (flag_word _ ∷ words) tail = accepts-words words tail
accepts-words (argument_word _ ∷ words) tail = accepts-words words tail
accepts-words (path_word _ ∷ words) tail = accepts-words words tail

accepts-command :
    (c : Command) (tail : List Token)
    → sequence_from true (command_tokens c ++ tail) ≡ sequence_from false tail
unfolding sequence_from expect_next
accepts-command c tail = accepts-words c.words tail

accepts-operator :
    (operator : ControlOperator) (tail : List Token)
    → sequence_from false (ctl operator ∷ tail) ≡ sequence_from true tail
unfolding sequence_from expect_next
accepts-operator operator tail = refl

accepts-pipeline :
    (p : Pipeline) (tail : List Token)
    → sequence_from true (pipeline_tokens p tail) ≡ sequence_from false tail
accepts-pipeline (last c) tail = accepts-command c tail
accepts-pipeline (feed c p) tail =
    accepts-command c _ ∙ accepts-operator bar _ ∙ accepts-pipeline p tail

accepts-rest : (rest : List (Connector × Pipeline)) → sequence_from false (rest_tokens rest) ≡ ok tt
accepts-rest [] = unfold sequence_from in refl
accepts-rest ((connector, p) ∷ rest) =
    accepts-operator (connector_operator connector) _
    ∙ accepts-pipeline p (rest_tokens rest)
    ∙ accepts-rest rest

accepts-script : (script : Script) → sequence_from true (script_tokens script) ≡ ok tt
accepts-script script =
    accepts-pipeline script.first (rest_tokens script.rest) ∙ accepts-rest script.rest

-- Building the script back from an accepted stream.
abbrev first_word : Word → Pipeline → Pipeline
first_word w (last c) = last (record c { words = w ∷ c.words })
first_word w (feed c p) = feed (record c { words = w ∷ c.words }) p

abbrev second : Token → List Token → List Token
second t [] = []
second t (x ∷ xs) = x ∷ t ∷ xs

second-pipeline :
    (w : Word) (p : Pipeline) (tail : List Token)
    → pipeline_tokens (first_word w p) tail ≡ second (word_token w) (pipeline_tokens p tail)
second-pipeline w (last c) tail = refl
second-pipeline w (feed c p) tail = refl

add_word :
    (w : Word) (name : CommandName) {tokens : List Token}
    → Spelled (cmd name ∷ tokens)
    → Spelled (cmd name ∷ word_token w ∷ tokens)
add_word w name s = record {
  script = record s.script { first = first_word w s.script.first };
  spelling = second-pipeline w s.script.first _ ∙ ap (second (word_token w)) s.spelling;
}

connect :
    (connector : Connector) (name : CommandName) {tokens : List Token}
    → Spelled tokens
    → Spelled (cmd name ∷ ctl (connector_operator connector) ∷ tokens)
connect connector name s = record {
  script = record {
    first = last (record { name = name; words = [] });
    rest = (connector, s.script.first) ∷ s.script.rest;
  };
  spelling = ap (λ l. cmd name ∷ ctl (connector_operator connector) ∷ l) s.spelling;
}

add_command :
    (operator : ControlOperator) (name : CommandName) {tokens : List Token}
    → Spelled tokens
    → Spelled (cmd name ∷ ctl operator ∷ tokens)
add_command bar name s = record {
  script = record s.script { first = feed (record { name = name; words = [] }) s.script.first };
  spelling = ap (λ l. cmd name ∷ ctl bar ∷ l) s.spelling;
}
add_command and_then name s = connect on_success name s
add_command or_else name s = connect on_failure name s
add_command semicolon name s = connect always name s

Spelled-from :
    (name : CommandName) (tokens : List Token)
    → sequence_from false tokens ≡ ok tt
    → Spelled (cmd name ∷ tokens)
unfolding sequence_from expect_next
Spelled-from name [] h = record {
  script = record { first = last (record { name = name; words = [] }); rest = [] };
  spelling = refl;
}
Spelled-from name (flg text ∷ tokens) h =
    add_word (flag_word text) name (Spelled-from name tokens h)
Spelled-from name (arg text ∷ tokens) h =
    add_word (argument_word text) name (Spelled-from name tokens h)
Spelled-from name (pth text ∷ tokens) h =
    add_word (path_word text) name (Spelled-from name tokens h)
Spelled-from name (cmd other ∷ tokens) h = cc
Spelled-from name (ctl operator ∷ cmd next ∷ tokens) h =
    add_command operator name (Spelled-from next tokens h)
Spelled-from name (ctl operator ∷ []) h = cc
Spelled-from name (ctl operator ∷ ctl other ∷ tokens) h = cc
Spelled-from name (ctl operator ∷ flg text ∷ tokens) h = cc
Spelled-from name (ctl operator ∷ arg text ∷ tokens) h = cc
Spelled-from name (ctl operator ∷ pth text ∷ tokens) h = cc

spelled : (tokens : List Token) → sequence_from true tokens ≡ ok tt → Spelled tokens
unfolding sequence_from expect_next
spelled [] h = cc
spelled (cmd name ∷ tokens) h = Spelled-from name tokens h
spelled (ctl operator ∷ tokens) h = cc
spelled (flg text ∷ tokens) h = cc
spelled (arg text ∷ tokens) h = cc
spelled (pth text ∷ tokens) h = cc

-- The validator accepts a stream exactly when it spells a script, and returns it unchanged.
pub validate_sequence_iff :
    (tokens : List Token) → (validate_sequence tokens ≡ ok tokens) ↔ Spelled tokens
unfolding validate_sequence
validate_sequence_iff tokens = (
  λ h. spelled tokens (ground arith),
  λ s. rw (← s.spelling) (ground (arith, accepts-script s.script)),
)
