-- ===== src/Backend/Handlers/Contents.antt =====
-- What a client of the backend gets: stored turns are well formed, and a session is read back whole.
use take.Prelude.{
  ◌^◌, ◌<◌, ◌≡◌, ◌≢◌, ◌⊎◌, inl, inr, refl, sym, ap, ◌∙◌, not, ◌&&◌, Option, none, some, [], length,
  arith, Text, codes, text_eq, text_eq_iff, lookup, Option-cases, Bool-cases,
}
use take.Json.{Json}
use take.Strings.{trim_space}
use take.Http.{Response, document, Decoded, value, refused}
use take.Backend.Keys.{session_key, message_prefix}
use take.Backend.Keys.Order.{IsPlain}
use take.Backend.Records.{Message, SessionDetail, encode_message, encode_detail}
use take.Backend.Bolt.{Bolt, IsBolt, sessions}
use take.Backend.Store.{
  not_found, malformed, storage, Result, ok, err, scan, get_session, list_messages, append_message,
  next_message,
}
use take.Backend.Store.Effects.{append_message-Appended}
use take.Backend.Store.Invariant.{IsSound, IsNumbered, lookup-IsStored}
use take.Backend.Store.History.{list_messages-IsNumbered}
use take.Backend.Store.Reads.{get_session-stored, get_session-missing}
use take.Backend.Handlers.{
  Input, get_one, append_to, MessageBody, respond, append_decoded, store_message, appended,
  handle_get, message_member, with_messages, no_such_session, decode_body,
}

module _ (parse : Text → Option Json) where
  -- A body that cannot be read or decoded is answered with 400.
  decode_body-refused :
      {A : Type 0} (member : Text → Json → A → Option A) (raw : Option Text) (a : A) (r : Response)
      → decode_body parse member raw a ≡ refused r
      → r.status ≡ 400
  unfolding decode_body
  decode_body-refused member none a r h = ground arith
  decode_body-refused member (some raw) a r h = ground arith

module _ (parse : Text → Option Json) (bolt : Bolt) where
  open bolt use {Db, entries}

  -- A turn as the handler may store it.
  pub record IsTurn (id : Text) (m : Message) : Type 0 where
    pub session : m.session ≡ id
    pub role : (m.role ≡ codes "user") ⊎ (m.role ≡ codes "assistant")
    pub content : m.content ≢ []

  appended_201 :
      (p : Result Message × Db)
      → (appended parse bolt p).0.status ≡ 201
      → (m : Message) × (p ≡ (ok m, p.1))
        × (appended parse bolt p
            ≡ (record { status = 201; body = document (encode_message m) }, p.1))
  unfolding appended
  appended_201 (ok m, db) h = (m, refl, refl)
  appended_201 (err not_found, db) h = ground arith
  appended_201 (err malformed, db) h = ground arith
  appended_201 (err storage, db) h = ground arith

module _ (parse : Text → Option Json) (bolt : Bolt) (laws : IsBolt bolt) where
  open bolt use {Db, entries}

  -- A 201 comes from the store, after both tests.
  reached_store :
      (id : Text) (req : Input) (role content : Text) (db : Db)
      → (store_message parse bolt id req role content db).0.status ≡ 201
      → (store_message parse bolt id req role content db
          ≡ appended parse bolt (append_message bolt req.now id role content db))
        × ((role ≡ codes "user") ⊎ (role ≡ codes "assistant"))
        × (content ≢ [])
  unfolding store_message
  reached_store id req role content db h =
      elim (Bool-cases
        (not (text_eq role (codes "user")) && not (text_eq role (codes "assistant")))) [
          | inl bad ↦ absurd (ground arith)
          | inr good ↦ elim (Bool-cases (text_eq content [])) [
            | inl blank ↦ absurd (ground arith)
            | inr full ↦ (
              ground arith,
              ground (arith, text_eq_iff role (codes "user"), text_eq_iff role (codes "assistant")),
              ground (arith, text_eq_iff content []),
            )
          ]
        ]

  stored-IsTurn :
      (id : Text) (req : Input) (role content : Text) (db : Db)
      → (store_message parse bolt id req role content db).0.status ≡ 201
      → (m : Message) × ((store_message parse bolt id req role content db).0.body
          ≡ document (encode_message m))
        × (append_message bolt req.now id m.role m.content db
            ≡ (ok m, (store_message parse bolt id req role content db).1))
        × IsTurn parse bolt id m
  unfolding next_message
  stored-IsTurn id req role content db h =
      let (same, who, what) = reached_store id req role content db h in
      let (m, done, answer) =
        appended_201 parse bolt (append_message bolt req.now id role content db) (rw same at h) in
      let sent = (append_message-Appended bolt laws req.now id role content m db _ done).sent in
      let after = ap (λ p. p.1) (same ∙ answer) in
      let by : m.role ≡ role = ap (λ (x : Message). x.role) sent in
      let said : m.content ≡ content = ap (λ (x : Message). x.content) sent in
      (
        m,
        ap (λ p. p.0.body) (same ∙ answer),
        rw by (rw said (done ∙ ap (λ d. (ok m, d)) (sym after))),
        record {
          session = ap (λ (x : Message). x.session) sent;
          role = rw by who;
          content = rw said what;
        },
      )

  stored_decoded :
      (id : Text) (req : Input) (d : Decoded MessageBody) (db : Db)
      → ((r : Response) → d ≡ refused r → r.status ≡ 400)
      → (append_decoded parse bolt id req d db).0.status ≡ 201
      → (m : Message) × ((append_decoded parse bolt id req d db).0.body
          ≡ document (encode_message m))
        × (append_message bolt req.now id m.role m.content db
            ≡ (ok m, (append_decoded parse bolt id req d db).1))
        × IsTurn parse bolt id m
  unfolding append_decoded
  stored_decoded id req (value b) db bad h =
      stored-IsTurn id req (trim_space b.role) (trim_space b.content) db h
  stored_decoded id req (refused r) db bad h = let e = bad r refl in absurd (omega arith)

  -- A POST of a message is answered 201 only when AppendMessage has stored the message that the
  -- response shows, a turn by "user" or "assistant" with a content that is not empty.
  pub append_stores-IsTurn :
      (id : Text) (req : Input) (db : Db)
      → (respond parse bolt (append_to id) req db).0.status ≡ 201
      → (m : Message) × ((respond parse bolt (append_to id) req db).0.body
          ≡ document (encode_message m))
        × (append_message bolt req.now id m.role m.content db
            ≡ (ok m, (respond parse bolt (append_to id) req db).1))
        × IsTurn parse bolt id m
  unfolding respond
  append_stores-IsTurn id req db h =
      stored_decoded id req _ db (decode_body-refused parse message_member req.body _) h

  -- In a sound store GET of a session whose id has no colon and with fewer than 2^63 messages
  -- answers 404 where GetSession finds none, else 200 with the record and the messages, numbered
  -- in order, and changes nothing.
  pub get_one_sound :
      (id : Text) (req : Input) (db : Db)
      → IsSound bolt db
      → IsPlain id
      → length (scan bolt db (message_prefix id)) < 2 ^ 63
      → ((get_session bolt id db ≡ err not_found)
          × (respond parse bolt (get_one id) req db ≡ (no_such_session, db)))
        ⊎ ((d : SessionDetail) × (respond parse bolt (get_one id) req db
              ≡ (record { status = 200; body = document (encode_detail d) }, db))
            × (get_session bolt id db ≡ ok d.base)
            × (d.base.id ≡ id)
            × (list_messages bolt id db ≡ ok d.messages)
            × IsNumbered id 0 d.messages)
  unfolding respond
  get_one_sound id req db sound p short =
      elim (Option-cases (lookup (session_key id) (entries db sessions))) [
        | inl missing ↦
            let e = get_session-missing bolt id db missing in inl (e, rw (e, handle_get))
        | inr (doc, found) ↦
            let stored = lookup-IsStored id doc (entries db sessions) sound.listed found in
            let e = get_session-stored bolt id stored.session db (found ∙ ap some stored.value) in
            let (ms, listed, numbered) = list_messages-IsNumbered bolt laws id db sound p short in
            inr (
              record { base = stored.session; messages = ms },
              rw (e, handle_get) (rw (listed, with_messages)),
              e,
              stored.same_id,
              listed,
              numbered,
            )
      ]
