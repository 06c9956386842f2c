-- ===== src/Truncation/Content.antt =====
-- llm/_truncation.py, `_truncate_str_values` and `truncate_content_for_context`: what is left of a
-- message's content.
use roboz.Prelude.{
  ℕ, zero, suc, ◌+◌, ◌≤◌, ◌<◌, ◌≡◌, refl, ap, ◌∙◌, true, false, Option, none, some, [], ◌∷◌, ◌++◌,
  arith, ltb, if◌then◌else◌, length, take, length-take, length-append, Bool-cases, inl, inr,
}
use roboz.Prelude.Text.{Text, codes, text_eq}
use roboz.Truncation.{light_max_chars, Severity, light, stub, remove}

-- A value of Python's json. A number, a constant, or null is its text.
mutual
  pub data Json : Type 0 where
    text : Text → Json
    scalar : Text → Json
    array : Items → Json
    object : Fields → Json

  pub data Items : Type 0 where
    no_items : Items
    item : Json → Items → Items

  pub data Fields : Type 0 where
    no_fields : Fields
    field : Text → Json → Fields → Fields

unfoldable pub truncate_text : ℕ → Text → Text
truncate_text max_len t = if ltb max_len (length t) then take max_len t ++ codes "..." else t

unfoldable mutual
  pub truncate_str_values : ℕ → Json → Json
  truncate_str_values max_len (text t) = text (truncate_text max_len t)
  truncate_str_values max_len (scalar t) = scalar t
  truncate_str_values max_len (array items) = array (truncate_items max_len items)
  truncate_str_values max_len (object fields) = object (truncate_fields max_len fields)

  pub truncate_items : ℕ → Items → Items
  truncate_items max_len no_items = no_items
  truncate_items max_len (item j items) =
      item (truncate_str_values max_len j) (truncate_items max_len items)

  pub truncate_fields : ℕ → Fields → Fields
  truncate_fields max_len no_fields = no_fields
  truncate_fields max_len (field key j fields) =
      field key (truncate_str_values max_len j) (truncate_fields max_len fields)

-- `name in data` and `data[name]`
unfoldable pub lookup : Text → Fields → Option Json
lookup name no_fields = none
lookup name (field key j fields) = elim (text_eq key name) [
  | true ↦ some j
  | false ↦ lookup name fields
]

-- Python's json and `str`, on the values of json.
pub record Codec : Type 0 where
  pub loads : Text → Option Json
  pub dumps : Json → Text
  pub str : Json → Text

abbrev pub placeholder : Text
placeholder = codes "<message truncated>"

module _ (codec : Codec) where
  unfoldable pub stub_fields : Option Json → Fields
  stub_fields none = field (codes "truncated") (text placeholder) no_fields
  stub_fields (some action) =
      field (codes "truncated") (text placeholder)
        (field (codes "action") (text (codec.str action)) no_fields)

  unfoldable pub stub_content : Option Json → Text
  stub_content (some (object fields)) =
      codec.dumps (object (stub_fields (lookup (codes "action") fields)))
  stub_content _ = placeholder

  unfoldable pub light_content : Text → Option Json → Text
  light_content content none = truncate_text light_max_chars content
  light_content content (some j) = codec.dumps (truncate_str_values light_max_chars j)

  -- `truncate_content_for_context`
  unfoldable pub truncate_content : Text → Severity → Option Text
  truncate_content content remove = none
  truncate_content content stub = some (stub_content (codec.loads content))
  truncate_content content light = some (light_content content (codec.loads content))

-- Every string in a value is at most so long.
unfoldable mutual
  pub IsShort : ℕ → Json → Type 0
  IsShort bound (text t) = length t ≤ bound
  IsShort bound (scalar t) = Unit {0}
  IsShort bound (array items) = AreShort bound items
  IsShort bound (object fields) = HaveShort bound fields

  pub AreShort : ℕ → Items → Type 0
  AreShort bound no_items = Unit {0}
  AreShort bound (item j items) = IsShort bound j × AreShort bound items

  pub HaveShort : ℕ → Fields → Type 0
  HaveShort bound no_fields = Unit {0}
  HaveShort bound (field key j fields) = IsShort bound j × HaveShort bound fields

length-truncate_text : (max_len : ℕ) (t : Text) → length (truncate_text max_len t) ≤ max_len + 3
unfolding truncate_text
length-truncate_text max_len t = elim (Bool-cases (ltb max_len (length t))) [
  | inl long ↦ rw (long, length-append (take max_len t)) (omega (arith, length-take max_len t))
  | inr short ↦ rw short (ground arith)
]

take-append_self : (n : ℕ) (xs ys : Text) → n ≤ length xs → take n (take n xs ++ ys) ≡ take n xs
take-append_self zero xs ys h = refl
take-append_self (suc n) [] ys h = absurd (omega arith)
take-append_self (suc n) (x ∷ xs) ys h =
    ap (λ rest. x ∷ rest) (take-append_self n xs ys (omega arith))

truncate_text-long :
    (max_len : ℕ) (t : Text)
    → max_len < length t
    → truncate_text max_len t ≡ take max_len t ++ codes "..."
unfolding truncate_text
truncate_text-long max_len t h =
    let long : ltb max_len (length t) ≡ true = ground arith in rw long refl

truncate_text-short : (max_len : ℕ) (t : Text) → length t ≤ max_len → truncate_text max_len t ≡ t
unfolding truncate_text
truncate_text-short max_len t h =
    let short : ltb max_len (length t) ≡ false = ground arith in rw short refl

truncate_text_idem :
    (max_len : ℕ) (t : Text)
    → truncate_text max_len (truncate_text max_len t) ≡ truncate_text max_len t
truncate_text_idem max_len t = elim (Bool-cases (ltb max_len (length t))) [
  | inl long ↦
      let cut = truncate_text-long max_len t (ground arith) in
      rw cut (
        truncate_text-long max_len (take max_len t ++ codes "...")
          (rw (length-append (take max_len t)) (ground (arith, length-take max_len t)))
        ∙ ap (λ kept. kept ++ codes "...")
            (take-append_self max_len t (codes "...") (ground arith)))
  | inr short ↦ ap (truncate_text max_len) (truncate_text-short max_len t (ground arith))
]

abbrev Capped : ℕ → Json → Type 0
Capped max_len j =
    IsShort (max_len + 3) (truncate_str_values max_len j)
    × (truncate_str_values max_len (truncate_str_values max_len j) ≡ truncate_str_values max_len j)

abbrev CappedItems : ℕ → Items → Type 0
CappedItems max_len items =
    AreShort (max_len + 3) (truncate_items max_len items)
    × (truncate_items max_len (truncate_items max_len items) ≡ truncate_items max_len items)

abbrev CappedFields : ℕ → Fields → Type 0
CappedFields max_len fields =
    HaveShort (max_len + 3) (truncate_fields max_len fields)
    × (truncate_fields max_len (truncate_fields max_len fields) ≡ truncate_fields max_len fields)

mutual
  unfolding truncate_str_values IsShort

  value-Capped : (max_len : ℕ) (j : Json) → Capped max_len j
  value-Capped max_len (text t) =
      (length-truncate_text max_len t, ap text (truncate_text_idem max_len t))
  value-Capped max_len (scalar t) = (tt, refl)
  value-Capped max_len (array items) =
      let (short, same) = items-Capped max_len items in (short, ap array same)
  value-Capped max_len (object fields) =
      let (short, same) = fields-Capped max_len fields in (short, ap object same)

  items-Capped : (max_len : ℕ) (items : Items) → CappedItems max_len items
  items-Capped max_len no_items = (tt, refl)
  items-Capped max_len (item j items) =
      let (short, same) = value-Capped max_len j in
      let (rest_short, rest_same) = items-Capped max_len items in
      ((short, rest_short), rw (same, rest_same) refl)

  fields-Capped : (max_len : ℕ) (fields : Fields) → CappedFields max_len fields
  fields-Capped max_len no_fields = (tt, refl)
  fields-Capped max_len (field key j fields) =
      let (short, same) = value-Capped max_len j in
      let (rest_short, rest_same) = fields-Capped max_len fields in
      ((short, rest_short), rw (same, rest_same) refl)

mutual
  unfolding truncate_str_values IsShort

  value-same : (max_len : ℕ) (j : Json) → IsShort max_len j → truncate_str_values max_len j ≡ j
  value-same max_len (text t) h = ap text (truncate_text-short max_len t h)
  value-same max_len (scalar t) h = refl
  value-same max_len (array items) h = ap array (items-same max_len items h)
  value-same max_len (object fields) h = ap object (fields-same max_len fields h)

  items-same :
      (max_len : ℕ) (items : Items) → AreShort max_len items → truncate_items max_len items ≡ items
  items-same max_len no_items h = refl
  items-same max_len (item j items) h =
      rw (value-same max_len j h.0, items-same max_len items h.1) refl

  fields-same :
      (max_len : ℕ) (fields : Fields)
      → HaveShort max_len fields
      → truncate_fields max_len fields ≡ fields
  fields-same max_len no_fields h = refl
  fields-same max_len (field key j fields) h =
      rw (value-same max_len j h.0, fields-same max_len fields h.1) refl

-- A truncated value has no string more than three characters longer than the limit, a second
-- truncation changes nothing, and a value whose strings are within the limit is left as it is.
pub truncate_str_values-IsShort :
    (max_len : ℕ) (j : Json)
    → IsShort (max_len + 3) (truncate_str_values max_len j)
      × (truncate_str_values max_len (truncate_str_values max_len j)
          ≡ truncate_str_values max_len j)
      × (IsShort max_len j → truncate_str_values max_len j ≡ j)
truncate_str_values-IsShort max_len j =
    let (short, same) = value-Capped max_len j in (short, same, value-same max_len j)
