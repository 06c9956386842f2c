-- ===== src/Cli/Tokens/Steps.antt =====
-- The rounds of `_parse_arguments` keep the layout of an accepted command.
use roboz.Prelude.{
  ℕ, suc, ◌+◌, ◌-◌, ◌<◌, ◌≤◌, String, ◌≡◌, refl, sym, ap, ◌∙◌, ◌⊎◌, inl, inr, Bool, true, false,
  Option, none, some, List, [], ◌∷◌, ◌++◌, ok, arith, length, drop, get_elem?, get_elem?-of_drop,
  drop-suc_of_drop, All, All-map, All-append, range_from, >>=-eq-ok, Option-cases, Result-cases,
}
use roboz.Cli.Contracts.{TokenTag, Token, tag, tag_eq→eq, TokenRule}
use roboz.Cli.Tokens.{
  matching_rule, has_option, Progress, is_empty, place, admit, option_value, parse_from,
}
use roboz.Cli.Tokens.Options.{
  Distinct, Distinct-snoc, operands_snoc, is_empty→nil, range_from_self, continue_cases,
}

module _ (allowed : List TokenRule) (all : List Token) where
  -- The value that an option takes stands behind it, has the tag and is an allowed token.
  pub record Valued (index start : ℕ) (takes : TokenTag) : Type 0 where
    pub following : Token
    pub rule : TokenRule
    pub at : get_elem? all (suc index) ≡ some following
    pub tagged : tag following ≡ takes
    pub matched : matching_rule following allowed ≡ ok rule
    pub before : suc index < start

  abbrev pub Value : ℕ → ℕ → Option TokenTag → Type 0
  Value index start none = Unit
  Value index start (some takes) = Valued index start takes

  -- An option of the result: the token at its index matched a rule that declares it.
  pub record Justified (start : ℕ) (option : String × ℕ) : Type 0 where
    pub token : Token
    pub rule : TokenRule
    pub at : get_elem? all option.1 ≡ some token
    pub matched : matching_rule token allowed ≡ ok rule
    pub named : rule.option ≡ some option.0
    pub before : option.1 < start
    pub value : Value option.1 start rule.takes

  -- The options stand before `start`, and the operands are all the tokens from `start` to `index`.
  pub record Sound (index : ℕ) (p : Progress) : Type 0 where
    pub start : ℕ
    pub start-pos : 0 < start
    pub start-le : start ≤ index
    pub operands : p.operands ≡ range_from start (index - start)
    pub options : All (Justified start) p.options
    pub distinct : Distinct p.options

  Value-mono :
      (index start more : ℕ) (takes : Option TokenTag)
      → start ≤ more
      → Value index start takes
      → Value index more takes
  Value-mono index start more none h v = tt
  Value-mono index start more (some takes) h v = record {
    following = v.following;
    rule = v.rule;
    at = v.at;
    tagged = v.tagged;
    matched = v.matched;
    before = omega arith;
  }

  Justified-mono :
      (start more : ℕ)
      → start ≤ more
      → (option : String × ℕ) → Justified start option
      → Justified more option
  Justified-mono start more h option j = record {
    token = j.token;
    rule = j.rule;
    at = j.at;
    matched = j.matched;
    named = j.named;
    before = omega arith;
    value = Value-mono option.1 start more j.rule.takes h j.value;
  }

  add_operand :
      (index : ℕ) (p : Progress)
      → Sound index p
      → Sound (suc index) (record p { operands = p.operands ++ index ∷ [] })
  add_operand index p s = record {
    start = s.start;
    start-pos = s.start-pos;
    start-le = omega arith;
    operands = operands_snoc s.start index s.start-le p.operands s.operands;
    options = s.options;
    distinct = s.distinct;
  }

  module _ (index next : ℕ) (p : Progress) (token : Token) (rule : TokenRule) (name : String)
      (at : get_elem? all index ≡ some token) (matched : matching_rule token allowed ≡ ok rule)
      (named : rule.option ≡ some name) (room : index < next) (value : Value index next rule.takes)
      (no_operands : is_empty p.operands ≡ true) (new : has_option name p.options ≡ false) where
    add_option-Sound :
        (ended : Bool)
        → Sound index p
        → Sound next (record p { options = p.options ++ (name, index) ∷ []; options_ended = ended })
    add_option-Sound ended s = record {
      start = next;
      start-pos = omega arith;
      start-le = omega arith;
      operands = is_empty→nil p.operands no_operands ∙ sym (range_from_self next);
      options =
          All-append (Justified next) p.options _
            (All-map (Justified s.start) (Justified next) p.options
              (Justified-mono s.start next (omega (arith, s.start-le))) s.options)
            (
              record {
                token = token;
                rule = rule;
                at = at;
                matched = matched;
                named = named;
                before = room;
                value = value;
              },
              tt,
            );
      distinct = Distinct-snoc name index p.options new s.distinct;
    }

  -- What one token does, by the kind of the rule that it matches.
  abbrev Kind : ℕ → Progress → Progress → Option TokenTag → TokenRule → Type 0
  Kind index p q takes rule =
      ((takes ≡ none) × (q ≡ record p { operands = p.operands ++ index ∷ [] }))
      ⊎ ((name : String) × (rule.option ≡ some name)
          × (is_empty p.operands ≡ true)
          × (has_option name p.options ≡ false)
          × (takes ≡ rule.takes)
          × (q ≡ record p {
            options = p.options ++ (name, index) ∷ [];
            options_ended = rule.ends_options;
          }))

  place-Kind :
      (index : ℕ) (p q : Progress) (takes : Option TokenTag) (rule : TokenRule)
      → place allowed index p rule ≡ ok (q, takes)
      → Kind index p q takes rule
  place-Kind index p q takes rule h = elim (Option-cases (rule.option)) [
    | inl operand ↦ inl (ground arith, ground arith)
    | inr (name, named) ↦ inr (name, named, ground arith, ground arith, ground arith, ground arith)
  ]

  -- One token keeps the layout. `next` is the index behind the token and the value that it takes.
  admit-Sound :
      (index next : ℕ) (token : Token) (p q : Progress) (takes : Option TokenTag)
      → get_elem? all index ≡ some token
      → Sound index p
      → admit allowed index token p ≡ ok (q, takes)
      → index < next
      → (takes ≡ none → next ≡ suc index)
      → Value index next takes
      → Sound next q
  unfolding admit
  admit-Sound index next token p q takes at s h room single value =
      let (rule, matched, placed) = >>=-eq-ok (matching_rule token allowed) _ h in
      elim (place-Kind index p q takes rule placed) [
        | inl (none_taken, e) ↦ rw (e, single none_taken) (add_operand index p s)
        | inr (name, named, no_operands, new, taken, e) ↦ rw e (
            add_option-Sound index next p token rule name at matched named room (rw taken at value)
              no_operands new rule.ends_options s)
      ]

  option_value-inv :
      (takes : TokenTag) (following : Token)
      → option_value allowed takes following ≡ ok tt
      → (tag following ≡ takes) × (rule : TokenRule) × (matching_rule following allowed ≡ ok rule)
  unfolding option_value
  option_value-inv takes following h = elim (Result-cases (matching_rule following allowed)) [
    | inl (rule, matched) ↦ (tag_eq→eq (tag following) takes (ground arith), rule, matched)
    | inr (error, failed) ↦ absurd (ground arith)
  ]

  -- The rest of a round, behind `admit`.
  abbrev Continues : ℕ → Token → List Token → Progress → Progress × Option TokenTag → Type 0
  Continues index following tokens q next =
      ((next.1 ≡ none) × (parse_from allowed (suc index) (following ∷ tokens) next.0 ≡ ok q))
      ⊎ ((takes : TokenTag) × (next.1 ≡ some takes)
          × (option_value allowed takes following ≡ ok tt)
          × (parse_from allowed (suc (suc index)) tokens next.0 ≡ ok q))

  parse_from-inv :
      (index : ℕ) (token following : Token) (tokens : List Token) (p q : Progress)
      → parse_from allowed index (token ∷ following ∷ tokens) p ≡ ok q
      → (next : Progress × Option TokenTag) × (admit allowed index token p ≡ ok next)
        × Continues index following tokens q next
  unfolding parse_from
  parse_from-inv index token following tokens p q h =
      let (next, admitted, continued) = >>=-eq-ok (admit allowed index token p) _ h in
      elim (continue_cases next.1 _ _ continued) [
        | inl (e, parsed) ↦ (next, admitted, inl (e, parsed))
        | inr (takes, e, valued_and_parsed) ↦
            let (_, valued, parsed) =
              >>=-eq-ok (option_value allowed takes following) _ valued_and_parsed in
            (next, admitted, inr (takes, e, valued, parsed))
      ]

  pub parse_from-Sound :
      (index stop : ℕ) (tokens : List Token) (p q : Progress)
      → index + length tokens ≡ stop
      → drop index all ≡ tokens
      → Sound index p
      → parse_from allowed index tokens p ≡ ok q
      → Sound stop q
  unfolding parse_from
  parse_from-Sound index stop [] p q count rest s h =
      let here : index ≡ stop = omega arith in let same : p ≡ q = cc in rw (← here, ← same) s
  parse_from-Sound index stop (token ∷ []) p q count rest s h =
      let (next, admitted, continued) = >>=-eq-ok (admit allowed index token p) _ h in
      elim (continue_cases next.1 _ _ continued) [
        | inl (e, same) ↦
            admit-Sound index stop token p q none (get_elem?-of_drop index all [] rest) s
              (cc (admitted, e, same)) (omega arith) (λ _. omega arith) tt
        | inr (takes, e, failed) ↦ cc
      ]
  parse_from-Sound index stop (token ∷ following ∷ tokens) p q count rest s h =
      let (next, admitted, continued) = parse_from-inv index token following tokens p q h in
      elim continued [
        | inl (e, parsed) ↦
            parse_from-Sound (suc index) stop (following ∷ tokens) next.0 q (omega arith)
              (drop-suc_of_drop index all (following ∷ tokens) rest)
              (admit-Sound index (suc index) token p next.0 none
                (get_elem?-of_drop index all (following ∷ tokens) rest) s
                (admitted ∙ ap (λ t. ok (next.0, t)) e) (omega arith) (λ _. refl) tt)
              parsed
        | inr (takes, e, valued, parsed) ↦
            let behind = drop-suc_of_drop index all (following ∷ tokens) rest in
            let (tagged, rule, matched) = option_value-inv takes following valued in
            parse_from-Sound (suc (suc index)) stop tokens next.0 q (omega arith)
              (drop-suc_of_drop (suc index) all tokens behind)
              (admit-Sound index (suc (suc index)) token p next.0 (some takes)
                (get_elem?-of_drop index all (following ∷ tokens) rest) s
                (admitted ∙ ap (λ t. ok (next.0, t)) e) (omega arith) (λ taken. cc)
                (record {
                  following = following;
                  rule = rule;
                  at = get_elem?-of_drop (suc index) all tokens behind;
                  tagged = tagged;
                  matched = matched;
                  before = omega arith;
                }))
              parsed
      ]
