-- ===== src/Calls/Images.antt =====
-- llm/calls.py, `_image_omission_note`, `_omit_older_images` and `_encode_image_messages`: the
-- messages of a request with their images.
pub mod Note
pub mod Sent
pub mod Window
use roboz.Prelude.{
  ℕ, suc, ◌+◌, ◌-◌, min, Bool, true, false, not, ◌&&◌, ◌||◌, Option, none, some, List, [], ◌∷◌,
  ◌++◌, ltb, ◌==◌, length, take, drop, if◌then◌else◌, Result, ok, err,
}
use roboz.Prelude.Text.{Text, codes, decimal, join}

abbrev pub max_request_images : ℕ
max_request_images = 8

abbrev pub image_name_max_chars : ℕ
image_name_max_chars = 256

abbrev pub image_omission_max_chars : ℕ
image_omission_max_chars = 2048

abbrev image_window_omission_reason : Text
image_window_omission_reason =
    codes "Older images omitted; only the latest 8 images are included. Omitted images:"

abbrev unsupported_images_reason : Text
unsupported_images_reason = codes "Images omitted because this model cannot read images:"

abbrev pub ellipsis : ℕ
ellipsis = 8230

-- Images, with `image.filename` and `json.dumps(name, ensure_ascii=False)`.
pub record Naming (I : Type 0) : Type 0 where
  pub filename : I → Option Text
  pub dumps : Text → Text

-- A record of a message: `content` is none when it is no string, and `fields` are the others.
pub record Record (F I : Type 0) : Type 0 where
  pub fields : F
  pub is_user : Bool
  pub content : Option Text
  pub images : List I

pub data Content (I : Type 0) : Type 0 where
  unchanged : Content I
  string : Text → Content I
  parts : Text → List I → Content I

pub record Payload (F I : Type 0) : Type 0 where
  pub fields : F
  pub content : Content I

pub data ImageInputError : Type 0 where
  text_not_string needs_user_message : ImageInputError

-- The messages of a request, and whether the model cannot read images of one of them.
abbrev pub Request : (F I : Type 0) → Type 0
Request F I = Result ImageInputError (List (Payload F I) × Bool)

-- `filename or f"image-{index}"`
unfoldable pub name_of : ℕ → Option Text → Text
name_of index (some (c ∷ name)) = c ∷ name
name_of index (some []) = codes "image-" ++ decimal index
name_of index none = codes "image-" ++ decimal index

unfoldable pub shortened : Text → Text
shortened name =
    if ltb image_name_max_chars (length name)
    then take (image_name_max_chars - 1) name ++ ellipsis ∷ []
    else name

abbrev pub prefix_of : Text → Text
prefix_of reason = codes "\n[" ++ (reason ++ codes " ")

abbrev pub suffix : Text
suffix = codes ". Use the conversation text; do not infer image contents.]"

abbrev pub remainder : ℕ → Text
remainder count = codes "and " ++ (decimal count ++ codes " more images")

abbrev pub reserved : Text → ℕ → ℕ
reserved reason count =
    length (prefix_of reason) + length suffix + length (codes ", " ++ remainder count)

abbrev pub with_remainder : ℕ → List Text → List Text
with_remainder count references =
    if count == length references
    then references
    else references ++ remainder (count - length references) ∷ []

-- The content of a message, the images that are still to be omitted, and whether the model
-- cannot read images of this message.
abbrev pub Encoded : (I : Type 0) → Type 0
Encoded I = Content I × ℕ × Bool

abbrev pub content_of : {I : Type 0} → Text → List I → Content I
content_of text [] = string text
content_of text (image ∷ images) = parts text (image ∷ images)

module _ {F I : Type 0} where
  unfoldable pub prepend : F → Content I → Bool → Request F I → Request F I
  prepend fields content omitted (err e) = err e
  prepend fields content omitted (ok (messages, more_omitted)) =
      ok (record { fields = fields; content = content } ∷ messages, omitted || more_omitted)

  unfoldable pub encode_with :
      F → Result ImageInputError (Encoded I) → (ℕ → Request F I) → Request F I
  unfolding prepend
  encode_with fields (err e) rest = err e
  encode_with fields (ok (content, to_omit, omitted)) rest =
      prepend fields content omitted (rest to_omit)

  abbrev pub image_count : List (Record F I) → ℕ
  image_count [] = 0
  image_count (r ∷ records) = length r.images + image_count records

module _ {I : Type 0} (naming : Naming I) where
  unfoldable pub reference_of : ℕ → I → Text
  unfolding name_of shortened
  reference_of index image = naming.dumps (shortened (name_of index (naming.filename image)))

  -- The loop over the images. `used` is what _IMAGE_OMISSION_MAX_CHARS has beyond `remaining_chars`.
  unfoldable pub references_from : (used index : ℕ) (separated : Bool) → List I → List Text
  references_from used index separated [] = []
  references_from used index separated (image ∷ images) =
      let reference = reference_of index image in
      let size = length reference + (if separated then 2 else 0) in
      let rest = references_from (used + size) (suc index) true images in
      if ltb image_omission_max_chars (used + size) then [] else reference ∷ rest

  unfoldable pub image_omission_note : Text → List I → Text
  unfolding references_from
  image_omission_note reason images =
      let references = references_from (reserved reason (length images)) 1 false images in
      prefix_of reason ++ (join (codes ", ") (with_remainder (length images) references) ++ suffix)

  unfoldable pub omit_older_images : Text → List I → ℕ → Encoded I
  unfolding image_omission_note
  omit_older_images text images images_to_omit =
      let omitted = min (length images) images_to_omit in
      (
        content_of (text ++ image_omission_note image_window_omission_reason (take omitted images))
            (drop omitted images),
        images_to_omit - omitted,
        false,
      )

  -- The two guards and the window of a message with images and a text.
  unfoldable pub with_images :
      (accepts_images is_user : Bool) → Text → List I → ℕ → Result ImageInputError (Encoded I)
  unfolding omit_older_images
  with_images false is_user text images to_omit =
      ok (string (text ++ image_omission_note unsupported_images_reason images), to_omit, true)
  with_images true false text images to_omit = err needs_user_message
  with_images true true text images to_omit =
      if to_omit == 0
      then ok (parts text images, 0, false)
      else ok (omit_older_images text images to_omit)

  unfoldable pub encode_content :
      (accepts_images is_user : Bool)
      → Option Text
      → List I
      → ℕ
      → Result ImageInputError (Encoded I)
  unfolding with_images
  encode_content accepts is_user content [] to_omit = ok (unchanged, to_omit, false)
  encode_content accepts is_user none (image ∷ images) to_omit = err text_not_string
  encode_content accepts is_user (some text) (image ∷ images) to_omit =
      with_images accepts is_user text (image ∷ images) to_omit

  module _ {F : Type 0} where
    unfoldable pub encode_from : Bool → List (Record F I) → ℕ → Request F I
    unfolding encode_content encode_with
    encode_from accepts [] to_omit = ok ([], false)
    encode_from accepts (r ∷ records) to_omit =
        encode_with r.fields (encode_content accepts r.is_user r.content r.images to_omit)
          (encode_from accepts records)

    unfoldable pub encode_image_messages : Bool → List (Record F I) → Request F I
    unfolding encode_from
    encode_image_messages accepts records =
        encode_from accepts records
          (if accepts then image_count records - max_request_images else 0)
