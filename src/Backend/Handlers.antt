-- ===== src/Backend/Handlers.antt =====
-- agent/backend/handlers.go: the handlers over the store, and the routes of newMux. A request's
-- path comes as its decoded segments; the syntax of JSON is the parameter `parse`.
pub mod Safety
pub mod Contents
pub mod Limits
use take.Prelude.{
  ℕ, Bool, true, false, ◌&&◌, ◌||◌, not, Option, none, some, List, [], ◌∷◌, Text, codes, text_eq,
  ltb, if◌then◌else◌,
}
use take.Json.{Json, arr, names, read_text, read_struct}
use take.Strings.{trim_space, byte_len}
use take.Http.{Response, nothing, plain, http_error, write_json, Decoded, value, refused, pick}
use take.Backend.Clock.{Time}
use take.Backend.Records.{
  Session, Message, SessionDetail, encode_session, encode_message, encode_sessions, encode_detail,
}
use take.Backend.Bolt.{Bolt}
use take.Backend.Store.{
  Error, not_found, malformed, storage, Result, ok, err, create_session, list_sessions, get_session,
  list_messages, append_message, delete_session,
}

abbrev pub max_body_size : ℕ
max_body_size = 4096

-- What a request brings from outside: the body (`none` when reading it fails), the clock, the
-- random bytes and the clock at their failure, and whether the database is open.
pub record Input : Type 0 where
  pub body : Option Text
  pub now : Time
  pub random : Option (List ℕ)
  pub later : Time
  pub is_open : Bool

pub record TitleBody : Type 0 where
  pub title : Text

pub title_member : Text → Json → TitleBody → Option TitleBody
title_member k v b =
    if names (codes "title") k
    then (elim (read_text v b.title) [ none ↦ none | some t ↦ some (record { title = t }) ])
    else some b

pub record MessageBody : Type 0 where
  pub role : Text
  pub content : Text

pub message_member : Text → Json → MessageBody → Option MessageBody
message_member k v b =
    if names (codes "role") k
    then (elim (read_text v b.role) [ none ↦ none | some t ↦ some (record b { role = t }) ])
    else if names (codes "content") k
    then (elim (read_text v b.content) [ none ↦ none | some t ↦ some (record b { content = t }) ])
    else some b

abbrev pub fail : Response
fail = http_error (codes "storage unavailable") 502

abbrev pub no_such_session : Response
no_such_session = http_error (codes "no such session") 404

pub data Endpoint : Type 0 where
  health ready create_one list_all : Endpoint
  get_one delete_one append_to : Text → Endpoint

-- The patterns of newMux that have the path, with their methods. A wildcard takes one segment, not
-- an empty one.
unfoldable pub routes : List Text → List (Text × Endpoint)
routes (a ∷ b ∷ []) =
    if not (text_eq a (codes "api"))
    then []
    else if text_eq b (codes "healthz")
    then (codes "GET", health) ∷ []
    else if text_eq b (codes "readyz")
    then (codes "GET", ready) ∷ []
    else if text_eq b (codes "sessions")
    then (codes "POST", create_one) ∷ (codes "GET", list_all) ∷ []
    else []
routes (a ∷ b ∷ id ∷ []) =
    if text_eq a (codes "api") && text_eq b (codes "sessions") && not (text_eq id [])
    then (codes "GET", get_one id) ∷ (codes "DELETE", delete_one id) ∷ []
    else []
routes (a ∷ b ∷ id ∷ c ∷ []) =
    if text_eq a (codes "api")
      && text_eq b (codes "sessions")
      && not (text_eq id [])
      && text_eq c (codes "messages")
    then (codes "POST", append_to id) ∷ []
    else []
routes _ = []

module _ (parse : Text → Option Json) where
  -- json.Unmarshal after the syntax
  unfoldable pub unmarshal : {A : Type 0} → (Text → Json → A → Option A) → Text → A → Decoded A
  unmarshal member raw zero' = elim (parse raw) [
    | none ↦ refused (http_error (codes "invalid JSON body") 400)
    | some j ↦ elim (read_struct member j zero') [
      | none ↦ refused (http_error (codes "invalid JSON body") 400)
      | some a ↦ value a
    ]
  ]

  unfoldable pub decode_body :
      {A : Type 0} → (Text → Json → A → Option A) → Option Text → A → Decoded A
  unfolding unmarshal
  decode_body member none zero' = refused (http_error (codes "request body too large") 400)
  decode_body member (some raw) zero' =
      if ltb max_body_size (byte_len raw)
      then refused (http_error (codes "request body too large") 400)
      else if text_eq (trim_space raw) []
      then value zero'
      else unmarshal member raw zero'

  module _ (bolt : Bolt) where
    open bolt use {Db}

    unfoldable pub healthz : Db → Response × Db
    healthz db = (record { status = 200; body = plain (codes "ok\n") }, db)

    unfoldable pub readyz : Bool → Db → Response × Db
    readyz true db = (record { status = 200; body = plain (codes "ok\n") }, db)
    readyz false db = (http_error (codes "database unavailable") 503, db)

    created : Result Session × Db → Response × Db
    created (ok s, db) = (write_json 201 (encode_session s), db)
    created (err e, db) = (fail, db)

    create_decoded : Input → Decoded TitleBody → Db → Response × Db
    create_decoded req (refused r) db = (r, db)
    create_decoded req (value b) db =
        created (create_session bolt req.now req.random req.later (trim_space b.title) db)

    unfoldable pub handle_create : Input → Db → Response × Db
    unfolding create_decoded created decode_body title_member
    handle_create req db =
        create_decoded req (decode_body title_member req.body (record { title = [] })) db

    unfoldable pub handle_list : Db → Response × Db
    handle_list db = elim (list_sessions bolt db) [
      | ok ss ↦ (write_json 200 (arr (encode_sessions ss)), db)
      | err e ↦ (fail, db)
    ]

    unfoldable pub with_messages : Session → Result (List Message) → Response
    with_messages s (ok ms) = write_json 200 (encode_detail (record { base = s; messages = ms }))
    with_messages s (err e) = fail

    unfoldable pub handle_get : Text → Db → Response × Db
    unfolding with_messages
    handle_get id db = elim (get_session bolt id db) [
      | ok s ↦ (with_messages s (list_messages bolt id db), db)
      | err not_found ↦ (no_such_session, db)
      | err _ ↦ (fail, db)
    ]

    deleted : Result (Unit {0}) × Db → Response × Db
    deleted (ok _, db) = (record { status = 204; body = nothing }, db)
    deleted (err not_found, db) = (no_such_session, db)
    deleted (err _, db) = (fail, db)

    unfoldable pub handle_delete : Text → Db → Response × Db
    unfolding deleted
    handle_delete id db = deleted (delete_session bolt id db)

    appended : Result Message × Db → Response × Db
    appended (ok m, db) = (write_json 201 (encode_message m), db)
    appended (err not_found, db) = (no_such_session, db)
    appended (err _, db) = (fail, db)

    unfoldable pub store_message : Text → Input → Text → Text → Db → Response × Db
    unfolding appended
    store_message id req role content db =
        if not (text_eq role (codes "user")) && not (text_eq role (codes "assistant"))
        then (http_error (codes "role must be \"user\" or \"assistant\"") 400, db)
        else if text_eq content []
        then (http_error (codes "content is required") 400, db)
        else appended (append_message bolt req.now id role content db)

    append_decoded : Text → Input → Decoded MessageBody → Db → Response × Db
    append_decoded id req (refused r) db = (r, db)
    append_decoded id req (value b) db =
        store_message id req (trim_space b.role) (trim_space b.content) db

    unfoldable pub handle_append : Text → Input → Db → Response × Db
    unfolding append_decoded store_message decode_body message_member
    handle_append id req db =
        append_decoded id req
          (decode_body message_member req.body (record { role = []; content = [] })) db

    unfoldable pub respond : Endpoint → Input → Db → Response × Db
    unfolding healthz readyz handle_create handle_list handle_get handle_delete handle_append
    respond health req db = healthz db
    respond ready req db = readyz req.is_open db
    respond create_one req db = handle_create req db
    respond list_all req db = handle_list db
    respond (get_one id) req db = handle_get id db
    respond (delete_one id) req db = handle_delete id db
    respond (append_to id) req db = handle_append id req db

    -- The mux: 404 where no pattern has the path, 405 where none of those has the method.
    dispatch : List (Text × Endpoint) → Option Endpoint → Input → Db → Response × Db
    dispatch [] e req db = (http_error (codes "404 page not found") 404, db)
    dispatch (_ ∷ _) none req db = (http_error (codes "Method Not Allowed") 405, db)
    dispatch (_ ∷ _) (some e) req db = respond e req db

    unfoldable pub serve : Text → List Text → Input → Db → Response × Db
    unfolding dispatch respond routes pick
    serve method path req db = dispatch (routes path) (pick method (routes path)) req db
