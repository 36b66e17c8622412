-- ===== src/Backend/Handlers/Limits.antt =====
-- The limit of 4096 bytes on the bodies of the backend.
use take.Prelude.{
  ◌<◌, ◌≡◌, ◌↔◌, refl, sym, ap, ◌∙◌, Bool, true, false, false≢true, Option, some, [], Text, codes,
  text_eq, arith, ltb, lt→ltb, if◌then◌else◌,
}
use take.Json.{Json}
use take.Strings.{trim_space, byte_len}
use take.Http.{Response, nothing, plain, document, http_error, Decoded, value, refused}
use take.Backend.Records.{Session, Message}
use take.Backend.Bolt.{Bolt}
use take.Backend.Store.{not_found, malformed, storage, Result, ok, err, append_message}
use take.Backend.Handlers.{
  Input, Endpoint, create_one, append_to, TitleBody, MessageBody, created, appended, store_message,
  unmarshal, decode_body, create_decoded, append_decoded, respond,
}

abbrev pub too_large : Response
too_large = http_error (codes "request body too large") 400

-- Whether a response has the text of that one.
says_large : Response → Bool
says_large r = elim r.body [
  | nothing ↦ false
  | plain t ↦ text_eq t (codes "request body too large\n")
  | document j ↦ false
]

abbrev IsOther : {A : Type 0} → Decoded A → Type 0
IsOther (value _) = Unit
IsOther (refused r) = says_large r ≡ false

module _ (parse : Text → Option Json) (bolt : Bolt) where
  open bolt use {Db}

  unmarshal-IsOther :
      {A : Type 0} (member : Text → Json → A → Option A) (raw : Text) (zero' : A)
      → IsOther (unmarshal parse member raw zero')
  unfolding unmarshal says_large text_eq
  unmarshal-IsOther member raw zero' = ground arith

  decode_body-IsOther :
      {A : Type 0} (member : Text → Json → A → Option A) (body : Option Text) (raw : Text)
      (zero' : A)
      → body ≡ some raw
      → ltb 4096 (byte_len raw) ≡ false
      → IsOther (decode_body parse member body zero')
  unfolding decode_body
  decode_body-IsOther member body raw zero' r h = rw (r, h) (at (text_eq (trim_space raw) []))
    where
      at : (b : Bool) → IsOther (if b then value zero' else unmarshal parse member raw zero')
      at true = tt
      at false = unmarshal-IsOther member raw zero'

  created-IsOther : (p : Result Session × Db) → says_large (created parse bolt p).0 ≡ false
  unfolding created says_large text_eq
  created-IsOther (ok s, db) = refl
  created-IsOther (err e, db) = refl

  appended-IsOther : (p : Result Message × Db) → says_large (appended parse bolt p).0 ≡ false
  unfolding appended says_large text_eq
  appended-IsOther (ok m, db) = refl
  appended-IsOther (err not_found, db) = refl
  appended-IsOther (err malformed, db) = refl
  appended-IsOther (err storage, db) = refl

  create_decoded-IsOther :
      (req : Input) (d : Decoded TitleBody) (db : Db)
      → IsOther d
      → says_large (create_decoded parse bolt req d db).0 ≡ false
  unfolding create_decoded
  create_decoded-IsOther req (refused r) db h = h
  create_decoded-IsOther req (value b) db h = created-IsOther _

  store_message-IsOther :
      (id : Text) (req : Input) (role content : Text) (db : Db)
      → says_large (store_message parse bolt id req role content db).0 ≡ false
  unfolding store_message says_large text_eq
  store_message-IsOther id req role content db =
      let last = appended-IsOther (append_message bolt req.now id role content db) in ground arith

  append_decoded-IsOther :
      (id : Text) (req : Input) (d : Decoded MessageBody) (db : Db)
      → IsOther d
      → says_large (append_decoded parse bolt id req d db).0 ≡ false
  unfolding append_decoded
  append_decoded-IsOther id req (refused r) db h = h
  append_decoded-IsOther id req (value b) db h = store_message-IsOther id req _ _ db

  -- The endpoints that read a body.
  pub data Reads : Endpoint → Type 0 where
    creates : Reads create_one
    appends : (id : Text) → Reads (append_to id)

  small-IsOther :
      (e : Endpoint) (req : Input) (raw : Text) (db : Db)
      → Reads e
      → req.body ≡ some raw
      → ltb 4096 (byte_len raw) ≡ false
      → says_large (respond parse bolt e req db).0 ≡ false
  unfolding respond
  small-IsOther e req raw db creates r h =
      create_decoded-IsOther req _ db (decode_body-IsOther _ req.body raw _ r h)
  small-IsOther e req raw db (appends id) r h =
      append_decoded-IsOther id req _ db (decode_body-IsOther _ req.body raw _ r h)

  large_lem :
      (e : Endpoint) (req : Input) (raw : Text) (db : Db)
      → Reads e
      → req.body ≡ some raw
      → 4096 < byte_len raw
      → respond parse bolt e req db ≡ (too_large, db)
  unfolding respond create_decoded append_decoded decode_body
  large_lem e req raw db creates r h = rw r (rw (lt→ltb _ _ h))
  large_lem e req raw db (appends id) r h = rw r (rw (lt→ltb _ _ h))

  -- Both endpoints that read a body answer "request body too large" exactly when it has more than
  -- 4096 bytes, and store nothing then.
  pub respond-too_large :
      (e : Endpoint) (req : Input) (raw : Text) (db : Db)
      → Reads e
      → req.body ≡ some raw
      → (((respond parse bolt e req db).0 ≡ too_large) ↔ (4096 < byte_len raw))
        × (4096 < byte_len raw → (respond parse bolt e req db).1 ≡ db)
  unfolding says_large text_eq
  respond-too_large e req raw db k r = (
    (λ h. size (ltb 4096 (byte_len raw)) refl h, λ h. ap (λ p. p.0) (large_lem e req raw db k r h)),
    λ h. ap (λ p. p.1) (large_lem e req raw db k r h),
  )
    where
      size :
          (b : Bool)
          → ltb 4096 (byte_len raw) ≡ b
          → (respond parse bolt e req db).0 ≡ too_large
          → 4096 < byte_len raw
      size true q h = ground arith
      size false q h =
          absurd (false≢true (sym (small-IsOther e req raw db k r q) ∙ ap says_large h))
