-- ===== src/Calls/Images/Sent.antt =====
-- The images of a request: which are sent, and what a message keeps of its record.
use roboz.Prelude.{
  ℕ, zero, suc, ◌+◌, ◌-◌, ◌≤◌, ◌≡◌, refl, sym, ◌∙◌, min, Bool, true, false, not, ◌&&◌, ◌||◌, Option,
  none, some, List, [], ◌∷◌, ◌++◌, leb, ◌==◌, length, drop, arith, Bool-cases, inl, inr,
}
use roboz.Prelude.Text.{Text}
use roboz.Calls.Images.{
  Content, unchanged, string, parts, content_of, ImageInputError, text_not_string,
  needs_user_message,
}

module _ {I : Type 0} where
  abbrev pub sent : Content I → List I
  sent unchanged = []
  sent (string text) = []
  sent (parts text images) = images

  -- The images that are sent of some, when so many are to be omitted, and the omissions that are left.
  abbrev pub window : Bool → ℕ → List I → List I
  window true to_omit images = drop to_omit images
  window false to_omit images = []

  -- A text begins the content that it becomes.
  pub data Kept : Option Text → Content I → Type 0 where
    same : {content : Option Text} → Kept content unchanged
    as_string :
        {text body : Text} (note : Text) → body ≡ text ++ note → Kept (some text) (string body)
    as_parts :
        {text body : Text} {images : List I} (note : Text)
        → body ≡ text ++ note
        → Kept (some text) (parts body images)

  -- Images go with a text, and to a model that reads them only from the user.
  pub data Sendable (accepts : Bool) : Bool → Option Text → List I → Type 0 where
    no_images : {is_user : Bool} {content : Option Text} → Sendable accepts is_user content []
    as_note :
        {is_user : Bool} {text : Text} {images : List I}
        → accepts ≡ false
        → Sendable accepts is_user (some text) images
    to_vision : {text : Text} {images : List I} → Sendable accepts true (some text) images

  pub data Refused (accepts : Bool) : Bool → Option Text → List I → ImageInputError → Type 0 where
    needs_text :
        {is_user : Bool} {image : I} {images : List I}
        → Refused accepts is_user none (image ∷ images) text_not_string
    needs_user :
        {text : Text} {image : I} {images : List I}
        → accepts ≡ true
        → Refused accepts false (some text) (image ∷ images) needs_user_message

abbrev pub left : Bool → ℕ → ℕ → ℕ
left true to_omit count = to_omit - count
left false to_omit count = to_omit

abbrev pub unreadable : Bool → ℕ → Bool
unreadable accepts count = not accepts && not (count == 0)

module _ {I : Type 0} where
  pub drop_all : (n : ℕ) (xs : List I) → length xs ≤ n → drop n xs ≡ []
  drop_all zero [] h = refl
  drop_all (suc n) [] h = refl
  drop_all zero (x ∷ xs) h = absurd (omega arith)
  drop_all (suc n) (x ∷ xs) h = drop_all n xs (omega arith)

  pub drop-min : (n : ℕ) (xs : List I) → drop (min (length xs) n) xs ≡ drop n xs
  drop-min n xs = elim (Bool-cases (leb n (length xs))) [
    | inl some_left ↦ let is : min (length xs) n ≡ n = ground arith in rw is refl
    | inr none_left ↦
        let is : min (length xs) n ≡ length xs = ground arith in
        rw is (drop_all (length xs) xs (omega arith) ∙ sym (drop_all n xs (ground arith)))
  ]

  pub drop-append :
      (n : ℕ) (xs ys : List I) → drop n (xs ++ ys) ≡ drop n xs ++ drop (n - length xs) ys
  drop-append n [] ys =
      let is : n - 0 ≡ n = omega arith in rw (is, drop_all n [] (omega arith)) refl
  drop-append zero (x ∷ xs) ys = let is : 0 - suc (length xs) ≡ 0 = omega arith in rw is refl
  drop-append (suc n) (x ∷ xs) ys =
      let is : suc n - suc (length xs) ≡ n - length xs = omega arith in rw is (drop-append n xs ys)

  pub window-append :
      (accepts : Bool) (n : ℕ) (xs ys : List I)
      → window accepts n (xs ++ ys)
        ≡ window accepts n xs ++ window accepts (left accepts n (length xs)) ys
  window-append true n xs ys = drop-append n xs ys
  window-append false n xs ys = refl

  pub window-nil : (accepts : Bool) (n : ℕ) → window {I = I} accepts n [] ≡ []
  window-nil true n = drop_all n [] (omega arith)
  window-nil false n = refl

  pub sent-content_of : (text : Text) (images : List I) → sent (content_of text images) ≡ images
  sent-content_of text [] = refl
  sent-content_of text (image ∷ images) = refl

  pub Kept-content_of :
      (text note : Text) (images : List I) → Kept (some text) (content_of (text ++ note) images)
  Kept-content_of text note [] = as_string note refl
  Kept-content_of text note (image ∷ images) = as_parts note refl

pub left-zero : (accepts : Bool) (n : ℕ) → left accepts n 0 ≡ n
left-zero true n = omega arith
left-zero false n = refl

pub unreadable-zero : (accepts : Bool) → unreadable accepts 0 ≡ false
unreadable-zero true = refl
unreadable-zero false = refl

pub unreadable-add :
    (accepts : Bool) (m n : ℕ)
    → unreadable accepts (m + n) ≡ unreadable accepts m || unreadable accepts n
unreadable-add true m n = refl
unreadable-add false m n = ground arith
