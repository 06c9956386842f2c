-- ===== src/Completion/Accepted.antt =====
-- The replies that are accepted.
use roboz.Prelude.{
  ◌≡◌, refl, ap, Bool, true, false, Option, none, some, List, Memᴰ, [], ◌∷◌, Result, ok, err,
  if◌then◌else◌, ◌⊎◌, Bool-cases, inl, inr,
}
use roboz.Prelude.Text.{Text, codes}
use roboz.Truncation.Content.{Json, Fields, lookup}
use roboz.Completion.{
  Failure, Tool, Reader, without_key, is_name, decode_raw_json, tool_input, first_named, validated,
  and_validated, parse_response,
}

-- An object is accepted by the output model when there are no tools, and without an output model
-- when it is an invocation that names a tool which accepts the rest of it.
pub data Accepted (reader : Reader) (tools : List Tool)
    : Option (Fields → Bool) → Fields → Type 0 where
  by_model :
      {accepts : Fields → Bool} {decoded : Fields}
      → tools ≡ []
      → accepts decoded ≡ true
      → Accepted reader tools (some accepts) decoded
  by_tool :
      {decoded : Fields} (t : Tool)
      → Memᴰ t tools
      → reader.invoke_accepts decoded ≡ true
      → is_name t.name (lookup (codes "action") decoded) ≡ true
      → t.accepts (without_key (codes "rationale") (without_key (codes "action") decoded)) ≡ true
      → Accepted reader tools none decoded

-- The first tool of the name that accepts the object, which is the result.
abbrev Named : List Tool → Fields → Fields → Type 0
Named tools decoded parsed =
    (decoded ≡ parsed)
    × (t : Tool) × Memᴰ t tools
    × (is_name t.name (lookup (codes "action") decoded) ≡ true)
    × (t.accepts (without_key (codes "rationale") (without_key (codes "action") decoded)) ≡ true)

module _ (reader : Reader) {X : Type 0} where
  ok-if :
      (b : Bool) (decoded : Fields) (e : Failure X) {parsed : Fields}
      → (if b then ok decoded else err e) ≡ ok parsed
      → (decoded ≡ parsed) × (b ≡ true)
  ok-if true decoded e h = (cc, refl)
  ok-if false decoded e h = absurd cc

  tool_input-ok :
      (t : Tool) (decoded : Fields) (rationale : Option Json) {parsed : Fields}
      → tool_input reader {X = X} t decoded rationale ≡ ok parsed
      → (decoded ≡ parsed)
        × (t.accepts (without_key (codes "rationale") (without_key (codes "action") decoded))
            ≡ true)
  unfolding tool_input
  tool_input-ok t decoded none h = absurd cc
  tool_input-ok t decoded (some rationale) h = ok-if _ decoded _ h

  first_named-ok :
      (tools : List Tool) (decoded : Fields) {parsed : Fields}
      → first_named reader {X = X} tools decoded ≡ ok parsed
      → Named tools decoded parsed
  unfolding first_named
  first_named-ok [] decoded h = absurd cc
  first_named-ok (t ∷ tools) decoded h =
      elim (Bool-cases (is_name t.name (lookup (codes "action") decoded))) [
        | inl names ↦
            let (is, accepts) =
              tool_input-ok t decoded (lookup (codes "rationale") decoded)
                (rw (names, first_named) at h) in
            (is, t, Memᴰ.head refl, names, accepts)
        | inr differs ↦
            let (is, named, among, names, accepts) =
              first_named-ok tools decoded (rw (differs, first_named) at h) in
            (is, named, Memᴰ.tail among, names, accepts)
      ]

  validated-ok :
      (tools : List Tool) (model : Option (Fields → Bool)) (decoded : Fields) {parsed : Fields}
      → (tools ≡ []) ⊎ (model ≡ none)
      → validated reader {X = X} tools model decoded ≡ ok parsed
      → (decoded ≡ parsed) × Accepted reader tools model decoded
  unfolding validated
  validated-ok tools (some accepts) decoded (inl no_tools) h =
      let (is, accepted) = ok-if (accepts decoded) decoded _ h in (is, by_model no_tools accepted)
  validated-ok tools (some accepts) decoded (inr e) h = absurd cc
  validated-ok [] none decoded one h = absurd cc
  validated-ok (t ∷ tools) none decoded one h = elim (Bool-cases (reader.invoke_accepts decoded)) [
    | inl invokes ↦
        let (is, named, among, names, accepts) =
          first_named-ok (t ∷ tools) decoded (rw (invokes, validated) at h) in
        (is, by_tool named among invokes names accepts)
    | inr refused ↦ let stops = rw (refused, validated) at h in absurd cc
  ]

  and_validated-ok :
      (tools : List Tool) (model : Option (Fields → Bool)) (r : Result (Failure X) Fields)
      {parsed : Fields}
      → (tools ≡ []) ⊎ (model ≡ none)
      → and_validated reader tools model r ≡ ok parsed
      → (r ≡ ok parsed) × Accepted reader tools model parsed
  unfolding and_validated
  and_validated-ok tools model (err e) one h = absurd cc
  and_validated-ok tools model (ok decoded) one h =
      let (is, accepted) = validated-ok tools model decoded one h in (ap ok is, rw is at accepted)

  -- A reply is accepted only as the JSON object that it holds: the output model accepts it, and there
  -- are no tools; or there is no output model, it is an invocation, and one of the tools has its
  -- name and accepts what it holds besides the action and the rationale.
  pub parse_response-Accepted :
      (tools : List Tool) (model : Option (Fields → Bool)) (raw_response : Text) {parsed : Fields}
      → parse_response reader {X = X} tools model raw_response ≡ ok parsed
      → (decode_raw_json reader {X = X} raw_response ≡ ok parsed)
        × Accepted reader tools model parsed
  unfolding parse_response
  parse_response-Accepted [] model raw_response h =
      and_validated-ok [] model (decode_raw_json reader raw_response) (inl refl) h
  parse_response-Accepted (t ∷ tools) none raw_response h =
      and_validated-ok (t ∷ tools) none (decode_raw_json reader raw_response) (inr refl) h
  parse_response-Accepted (t ∷ tools) (some accepts) raw_response h = absurd cc
