-- ===== src/Completion.antt =====
-- llm/completion.py, the reading of a reply: the text of a model to a JSON object that the active
-- tools, or the output model, accept.
pub mod Accepted
pub mod Repair
pub mod Attempts
use roboz.Prelude.{
  ℕ, zero, suc, ◌-◌, ◌≡◌, refl, Bool, true, false, ◌&&◌, Option, none, some, List, [], ◌∷◌, ◌==◌,
  if◌then◌else◌, length, take, drop, Result, ok, err, ◌>>◌, raise_if, not,
}
use roboz.Prelude.Text.{Text, codes, text_eq, starts_with, strip, strip_left, is_space}
use roboz.Truncation.Content.{Json, text, scalar, array, object, Fields, no_fields, field, lookup}

-- The exceptions of a completion; `other` is one of the transport.
pub data Failure (X : Type 0) : Type 0 where
  nonexistent_tool json_decode_error validation_error both_given key_error messages_empty
        output_format :
      Failure X
  other : X → Failure X

-- A tool with the validation of its input model.
pub record Tool : Type 0 where
  pub name : Text
  pub accepts : Fields → Bool

-- What the reading uses: the two patterns of a code fence, with the end of a match at the start and
-- the start of a match at the end; `raw_decode` of Python's json; the validation of `Invoke`.
pub record Reader : Type 0 where
  pub open_fence : Text → Option ℕ
  pub close_fence : Text → Option ℕ
  pub raw_decode : Text → Option (Json × ℕ)
  pub invoke_accepts : Fields → Bool

-- `text.split(tag)[-1]`: `skip` code points of a tag are left, `start` is the last part so far.
unfoldable pub last_part_from : Text → ℕ → (start rest : Text) → Text
last_part_from tag skip start [] = start
last_part_from tag (suc skip) start (c ∷ rest) = last_part_from tag skip start rest
last_part_from tag zero start (c ∷ rest) = elim (starts_with tag (c ∷ rest)) [
  | true ↦ last_part_from tag (length tag - 1) (drop (length tag) (c ∷ rest)) rest
  | false ↦ last_part_from tag zero start rest
]

unfoldable pub last_part : Text → Text → Text
unfolding last_part_from
last_part raw_response tag = last_part_from tag 0 raw_response raw_response

-- The loop over the labels to ignore.
unfoldable pub without_labels : Text → List Text → Text
without_labels raw_response [] = raw_response
without_labels raw_response (tag ∷ tags) = without_labels (last_part raw_response tag) tags

abbrev pub think_tags : List Text
think_tags = codes "</think>" ∷ codes "◁/think▷" ∷ []

-- `cleaned.find("{")`
unfoldable pub find_brace : Text → Option ℕ
find_brace [] = none
find_brace (c ∷ rest) = elim (c == 123) [
  | true ↦ some 0
  | false ↦ elim (find_brace rest) [ none ↦ none | some i ↦ some (suc i) ]
]

-- `del fields[name]`, of a dictionary, which has a key once
unfoldable pub without_key : Text → Fields → Fields
without_key name no_fields = no_fields
without_key name (field key j fields) = elim (text_eq key name) [
  | true ↦ fields
  | false ↦ field key j (without_key name fields)
]

-- `fields[name] = value`
unfoldable pub with_key : Text → Json → Fields → Fields
with_key name value no_fields = field name value no_fields
with_key name value (field key j fields) = elim (text_eq key name) [
  | true ↦ field key value fields
  | false ↦ field key j (with_key name value fields)
]

-- The loop over the telemetry, whose missing values are left out.
unfoldable pub with_telemetry : List (Text × Option Json) → Fields → Fields
with_telemetry [] fields = fields
with_telemetry ((key, none) ∷ meta) fields = with_telemetry meta fields
with_telemetry ((key, some value) ∷ meta) fields = with_telemetry meta (with_key key value fields)

-- `name == value`, of a name and what `get` finds
unfoldable pub is_name : Text → Option Json → Bool
is_name name (some (text t)) = text_eq name t
is_name name _ = false

abbrev opened : Text → Option ℕ → Text
opened s none = s
opened s (some end) = drop end s

abbrev closed : Text → Option ℕ → Text
closed s none = s
closed s (some start) = take start s

unfoldable pub strip_outer_code_fences : Reader → Text → Text
unfolding strip
strip_outer_code_fences reader s =
    let inside = opened (strip s) (reader.open_fence (strip s)) in
    strip (closed inside (reader.close_fence inside))

module _ (reader : Reader) {X : Type 0} where
  unfoldable pub as_object : Json → Result (Failure X) Fields
  as_object (object fields) = ok fields
  as_object _ = err json_decode_error

  unfoldable pub decode_at : Text → Option ℕ → Result (Failure X) Fields
  unfolding as_object
  decode_at cleaned none = err json_decode_error
  decode_at cleaned (some zero) = err json_decode_error
  decode_at cleaned (some (suc object_start)) =
      elim (reader.raw_decode (drop (suc object_start) cleaned)) [
        | none ↦ err json_decode_error
        | some decoded ↦ as_object decoded.0
      ]

  unfoldable pub decode_cleaned : Text → Result (Failure X) Fields
  unfolding as_object decode_at
  decode_cleaned cleaned = elim (reader.raw_decode cleaned) [
    | none ↦ decode_at cleaned (find_brace cleaned)
    | some decoded ↦ as_object decoded.0
  ]

  unfoldable pub decode_raw_json : Text → Result (Failure X) Fields
  unfolding decode_cleaned
  decode_raw_json raw_response = decode_cleaned (
      strip_left is_space (strip_outer_code_fences reader (without_labels raw_response think_tags)))

  -- The validation of a tool's input, without the fields of the action.
  unfoldable pub tool_input : Tool → Fields → Option Json → Result (Failure X) Fields
  tool_input t decoded none = err key_error
  tool_input t decoded (some rationale) =
      if t.accepts (without_key (codes "rationale") (without_key (codes "action") decoded))
      then ok decoded
      else err validation_error

  -- The loop over the active tools.
  unfoldable pub first_named : List Tool → Fields → Result (Failure X) Fields
  unfolding tool_input
  first_named [] decoded = err nonexistent_tool
  first_named (t ∷ tools) decoded = elim (is_name t.name (lookup (codes "action") decoded)) [
    | true ↦ tool_input t decoded (lookup (codes "rationale") decoded)
    | false ↦ first_named tools decoded
  ]

  -- What `_parse_response` does with the decoded object.
  unfoldable pub validated : List Tool → Option (Fields → Bool) → Fields → Result (Failure X) Fields
  unfolding first_named
  validated tools (some accepts) decoded =
      if accepts decoded then ok decoded else err validation_error
  validated [] none decoded = err nonexistent_tool
  validated (t ∷ tools) none decoded = elim (reader.invoke_accepts decoded) [
    | true ↦ first_named (t ∷ tools) decoded
    | false ↦ err validation_error
  ]

  unfoldable pub and_validated :
      List Tool → Option (Fields → Bool) → Result (Failure X) Fields → Result (Failure X) Fields
  unfolding validated
  and_validated tools model (err e) = err e
  and_validated tools model (ok decoded) = validated tools model decoded

  unfoldable pub parse_response :
      List Tool → Option (Fields → Bool) → Text → Result (Failure X) Fields
  unfolding and_validated decode_raw_json
  parse_response (t ∷ tools) (some accepts) raw_response = err both_given
  parse_response tools model raw_response = and_validated tools model (decode_raw_json raw_response)
