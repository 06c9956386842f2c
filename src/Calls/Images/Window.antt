-- ===== src/Calls/Images/Window.antt =====
-- What a request has of the records: every text, and the images of the window.
use roboz.Prelude.{
  ℕ, ◌-◌, ◌≡◌, refl, sym, ◌∙◌, Bool, true, false, Option, none, some, List, Memᴰ, [], ◌∷◌, ◌++◌,
  ◌==◌, length, arith, Result, ok, err, All, Bool-cases, inl, inr, append_nil,
}
use roboz.Prelude.Text.{Text}
use mathlib.Core.Path.{subst}
use roboz.Calls.Images.{
  Naming, Record, Payload, Content, ImageInputError, Request, omit_older_images, with_images,
  encode_content, prepend, encode_with, encode_from, image_count, encode_image_messages,
  max_request_images,
}
use roboz.Calls.Images.Sent.{
  sent, window, Kept, same, as_string, as_parts, Sendable, no_images, as_note, to_vision, Refused,
  needs_text, needs_user, left, unreadable, drop-min, window-append, window-nil, sent-content_of,
  Kept-content_of, left-zero, unreadable-zero, unreadable-add,
}

module _ {I : Type 0} where
  data Step (accepts is_user : Bool) (content : Option Text) (images : List I) (to_omit : ℕ)
      : Result ImageInputError (Content I × ℕ × Bool) → Type 0 where
    encoded :
        {c : Content I} {m : ℕ} {omitted : Bool}
        → Kept content c
        → sent c ≡ window accepts to_omit images
        → m ≡ left accepts to_omit (length images)
        → omitted ≡ unreadable accepts (length images)
        → Sendable accepts is_user content images
        → Step accepts is_user content images to_omit (ok (c, m, omitted))
    refused :
        {e : ImageInputError}
        → Refused accepts is_user content images e
        → Step accepts is_user content images to_omit (err e)

module _ {I : Type 0} (naming : Naming I) where
  with_images-Step :
      (accepts is_user : Bool) (text : Text) (image : I) (images : List I) (to_omit : ℕ)
      → Step accepts is_user
          (some text)
          (image ∷ images)
          to_omit
          (with_images naming accepts is_user text (image ∷ images) to_omit)
  unfolding with_images omit_older_images
  with_images-Step false is_user text image images to_omit =
      encoded (as_string _ refl) refl refl (ground arith) (as_note refl)
  with_images-Step true false text image images to_omit = refused (needs_user refl)
  with_images-Step true true text image images to_omit = elim (Bool-cases (to_omit == 0)) [
    | inl none_over ↦
        let is : to_omit ≡ 0 = ground arith in
        rw is (encoded (as_parts [] (sym (append_nil text))) refl (omega arith) refl to_vision)
    | inr some_over ↦ rw some_over (
        encoded (Kept-content_of text _ _) (sent-content_of _ _ ∙ drop-min to_omit (image ∷ images))
          (ground arith) refl to_vision)
  ]

  encode_content-Step :
      (accepts is_user : Bool) (content : Option Text) (images : List I) (to_omit : ℕ)
      → Step accepts is_user content images to_omit
          (encode_content naming accepts is_user content images to_omit)
  unfolding encode_content
  encode_content-Step accepts is_user content [] to_omit =
      encoded same (sym (window-nil accepts to_omit)) (sym (left-zero accepts to_omit))
        (sym (unreadable-zero accepts)) no_images
  encode_content-Step accepts is_user none (image ∷ images) to_omit = refused needs_text
  encode_content-Step accepts is_user (some text) (image ∷ images) to_omit =
      with_images-Step accepts is_user text image images to_omit

module _ {F I : Type 0} where
  abbrev pub attached : List (Payload F I) → List I
  attached [] = []
  attached (p ∷ messages) = sent p.content ++ attached messages

  abbrev pub all_images : List (Record F I) → List I
  all_images [] = []
  all_images (r ∷ records) = r.images ++ all_images records

  pub data AllKept : List (Record F I) → List (Payload F I) → Type 0 where
    none_left : AllKept [] []
    kept :
        (r : Record F I) (p : Payload F I) {records : List (Record F I)}
        {messages : List (Payload F I)}
        → p.fields ≡ r.fields
        → Kept r.content p.content
        → AllKept records messages
        → AllKept (r ∷ records) (p ∷ messages)

  abbrev pub IsSendable : Bool → Record F I → Type 0
  IsSendable accepts r = Sendable accepts r.is_user r.content r.images

  -- A request has each record in order, with its text, and the images of the window; or a record
  -- cannot be sent.
  pub data Encodes (accepts : Bool) (records : List (Record F I)) (to_omit : ℕ)
      : Request F I → Type 0 where
    encodes :
        {messages : List (Payload F I)} {omitted : Bool}
        → AllKept records messages
        → attached messages ≡ window accepts to_omit (all_images records)
        → omitted ≡ unreadable accepts (image_count records)
        → All (IsSendable accepts) records
        → Encodes accepts records to_omit (ok (messages, omitted))
    refuses :
        {e : ImageInputError} (r : Record F I)
        → Memᴰ r records
        → Refused accepts r.is_user r.content r.images e
        → Encodes accepts records to_omit (err e)

  Encodes-unread :
      {records : List (Record F I)} {n m : ℕ} (request : Request F I)
      → Encodes false records n request
      → Encodes false records m request
  Encodes-unread request (encodes others attaches notes sendable) =
      encodes others attaches notes sendable
  Encodes-unread request (refuses r m why) = refuses r m why

  prepend-Encodes :
      (accepts : Bool) (r : Record F I) (records : List (Record F I)) (to_omit : ℕ) {c : Content I}
      {omitted : Bool} (rest : Request F I)
      → Kept r.content c
      → sent c ≡ window accepts to_omit r.images
      → omitted ≡ unreadable accepts (length r.images)
      → IsSendable accepts r
      → Encodes accepts records (left accepts to_omit (length r.images)) rest
      → Encodes accepts (r ∷ records) to_omit (prepend r.fields c omitted rest)
  unfolding prepend
  prepend-Encodes accepts r records to_omit rest keeps sends notes sendable
        (encodes others attaches later_notes others_sendable) =
      encodes (kept r _ refl keeps others)
        (rw (sends, attaches) (sym (window-append accepts to_omit r.images (all_images records))))
        (rw (notes, later_notes)
          (sym (unreadable-add accepts (length r.images) (image_count records))))
        (sendable, others_sendable)
  prepend-Encodes accepts r records to_omit rest keeps sends notes sendable (refuses s m why) =
      refuses s (Memᴰ.tail m) why

  encode_with-Encodes :
      (accepts : Bool) (r : Record F I) (records : List (Record F I)) (to_omit : ℕ)
      (result : Result ImageInputError (Content I × ℕ × Bool)) (rest : ℕ → Request F I)
      → Step accepts r.is_user r.content r.images to_omit result
      → ((m : ℕ) → Encodes accepts records m (rest m))
      → Encodes accepts (r ∷ records) to_omit (encode_with r.fields result rest)
  unfolding encode_with
  encode_with-Encodes accepts r records to_omit (ok (c, m, omitted)) rest
        (encoded keeps sends lefts notes sendable) later =
      prepend-Encodes accepts r records to_omit (rest m) keeps sends notes sendable
        (subst (λ x. Encodes accepts records x (rest m)) lefts (later m))
  encode_with-Encodes accepts r records to_omit (err e) rest (refused why) later =
      refuses r (Memᴰ.head refl) why

module _ {F I : Type 0} (naming : Naming I) where
  encode_from-Encodes :
      (accepts : Bool) (records : List (Record F I)) (to_omit : ℕ)
      → Encodes accepts records to_omit (encode_from naming accepts records to_omit)
  unfolding encode_from
  encode_from-Encodes accepts [] to_omit =
      encodes none_left (sym (window-nil accepts to_omit)) (sym (unreadable-zero accepts)) tt
  encode_from-Encodes accepts (r ∷ records) to_omit =
      encode_with-Encodes accepts r records to_omit _ _
        (encode_content-Step naming accepts r.is_user r.content r.images to_omit)
        (encode_from-Encodes accepts records)

  -- A model that reads images gets the last max_request_images of the images of the records, in
  -- their order, and another model none; each message has the fields of its record and begins with
  -- its text; and it is noted whether images were left out since the model cannot read them. It is an
  -- error exactly when a record has images without a text, or not from the user for a model that reads
  -- them.
  pub encode_image_messages-Encodes :
      (accepts : Bool) (records : List (Record F I))
      → Encodes accepts records
          (image_count records - max_request_images)
          (encode_image_messages naming accepts records)
  unfolding encode_image_messages
  encode_image_messages-Encodes true records =
      encode_from-Encodes true records (image_count records - max_request_images)
  encode_image_messages-Encodes false records =
      Encodes-unread _ (encode_from-Encodes false records 0)
