-- ===== src/Backend/Handlers/Safety.antt =====
-- What the responses of the backend say of the database.
use take.Prelude.{
  ◌≡◌, ◌≢◌, refl, Bool, true, false, false≢true, Option, none, some, List, [], ◌∷◌, arith, Text,
  codes, text_eq,
}
use take.Json.{Json}
use take.Strings.{trim_space}
use take.Http.{Decoded, value, refused, pick}
use take.Backend.Records.{Session, Message}
use take.Backend.Bolt.{Bolt}
use take.Backend.Store.{
  Error, not_found, malformed, storage, Result, ok, err, append_message, delete_session,
}
use take.Backend.Store.Runs.{failed_call}
use take.Backend.Handlers.{
  Input, Endpoint, health, ready, create_one, list_all, get_one, delete_one, append_to, routes,
  store_message, respond, dispatch, serve, create_decoded, append_decoded, TitleBody, MessageBody,
  created, deleted, appended,
}

reads : Endpoint → Bool
reads health = true
reads ready = true
reads list_all = true
reads (get_one id) = true
reads _ = false

pick-reads :
    (path : List Text) (e : Endpoint)
    → (pick (codes "GET") (routes path) ≡ some e → reads e ≡ true)
      × (pick (codes "HEAD") (routes path) ≡ some e → reads e ≡ true)
unfolding pick routes reads text_eq
pick-reads [] e = (ground arith, ground arith)
pick-reads (a ∷ []) e = (ground arith, ground arith)
pick-reads (a ∷ b ∷ []) e = (ground arith, ground arith)
pick-reads (a ∷ b ∷ id ∷ []) e = (ground arith, ground arith)
pick-reads (a ∷ b ∷ id ∷ c ∷ []) e = (ground arith, ground arith)
pick-reads (a ∷ b ∷ id ∷ c ∷ d ∷ path) e = (ground arith, ground arith)

module _ (parse : Text → Option Json) (bolt : Bolt) where
  open bolt use {Db, entries}

  created_unchanged :
      (p : Result Session × Db) (db : Db)
      → ((e : Error) → p.0 ≡ err e → p.1 ≡ db)
      → (created parse bolt p).0.status ≢ 201
      → (created parse bolt p).1 ≡ db
  unfolding created
  created_unchanged (ok s, db') db h n = absurd (n refl)
  created_unchanged (err e, db') db h n = h e refl

  deleted_unchanged :
      (p : Result (Unit {0}) × Db) (db : Db)
      → ((e : Error) → p.0 ≡ err e → p.1 ≡ db)
      → (deleted parse bolt p).0.status ≢ 204
      → (deleted parse bolt p).1 ≡ db
  unfolding deleted
  deleted_unchanged (ok s, db') db h n = absurd (n refl)
  deleted_unchanged (err not_found, db') db h n = h not_found refl
  deleted_unchanged (err malformed, db') db h n = h malformed refl
  deleted_unchanged (err storage, db') db h n = h storage refl

  appended_unchanged :
      (p : Result Message × Db) (db : Db)
      → ((e : Error) → p.0 ≡ err e → p.1 ≡ db)
      → (appended parse bolt p).0.status ≢ 201
      → (appended parse bolt p).1 ≡ db
  unfolding appended
  appended_unchanged (ok s, db') db h n = absurd (n refl)
  appended_unchanged (err not_found, db') db h n = h not_found refl
  appended_unchanged (err malformed, db') db h n = h malformed refl
  appended_unchanged (err storage, db') db h n = h storage refl

  store_message_unchanged :
      (id : Text) (req : Input) (role content : Text) (db : Db)
      → (store_message parse bolt id req role content db).0.status ≢ 201
      → (store_message parse bolt id req role content db).1 ≡ db
  unfolding store_message
  store_message_unchanged id req role content db n =
      let safe =
        appended_unchanged (append_message bolt req.now id role content db) db (λ e.
          (failed_call bolt req.now req.later req.now req.random [] id role content e db).1) in
      ground arith

  append_decoded_unchanged :
      (id : Text) (req : Input) (d : Decoded MessageBody) (db : Db)
      → (append_decoded parse bolt id req d db).0.status ≢ 201
      → (append_decoded parse bolt id req d db).1 ≡ db
  unfolding append_decoded
  append_decoded_unchanged id req (refused r) db n = refl
  append_decoded_unchanged id req (value b) db n =
      store_message_unchanged id req (trim_space b.role) (trim_space b.content) db n

  create_decoded_unchanged :
      (req : Input) (d : Decoded TitleBody) (db : Db)
      → (create_decoded parse bolt req d db).0.status ≢ 201
      → (create_decoded parse bolt req d db).1 ≡ db
  unfolding create_decoded
  create_decoded_unchanged req (refused r) db n = refl
  create_decoded_unchanged req (value b) db n =
      created_unchanged _ db
        (λ e.
          (failed_call bolt req.now req.later req.now req.random (trim_space b.title) [] [] [] e
            db).0)
        n

  -- A response that is neither 201 nor 204 has left the database as it was.
  pub respond_unchanged :
      (e : Endpoint) (req : Input) (db : Db)
      → (respond parse bolt e req db).0.status ≢ 201
      → (respond parse bolt e req db).0.status ≢ 204
      → (respond parse bolt e req db).1 ≡ db
  unfolding respond
  respond_unchanged health req db n m = refl
  respond_unchanged ready req db n m = ground arith
  respond_unchanged create_one req db n m = create_decoded_unchanged req _ db n
  respond_unchanged list_all req db n m = ground arith
  respond_unchanged (get_one id) req db n m = ground arith
  respond_unchanged (delete_one id) req db n m =
      deleted_unchanged (delete_session bolt id db) db
        (λ e. (failed_call bolt req.now req.later req.now req.random [] id [] [] e db).2) m
  respond_unchanged (append_to id) req db n m = append_decoded_unchanged id req _ db n

  dispatch_unchanged :
      (rs : List (Text × Endpoint)) (e : Option Endpoint) (req : Input) (db : Db)
      → (dispatch parse bolt rs e req db).0.status ≢ 201
      → (dispatch parse bolt rs e req db).0.status ≢ 204
      → (dispatch parse bolt rs e req db).1 ≡ db
  unfolding dispatch
  dispatch_unchanged [] e req db n m = refl
  dispatch_unchanged (r ∷ rs) none req db n m = refl
  dispatch_unchanged (r ∷ rs) (some e) req db n m = respond_unchanged e req db n m

  -- A request that is answered with neither 201 nor 204 leaves the database as it was, whatever
  -- the method and the path.
  pub serve_unchanged :
      (method : Text) (path : List Text) (req : Input) (db : Db)
      → (serve parse bolt method path req db).0.status ≢ 201
      → (serve parse bolt method path req db).0.status ≢ 204
      → (serve parse bolt method path req db).1 ≡ db
  unfolding serve
  serve_unchanged method path req db n m = dispatch_unchanged (routes path) _ req db n m

  dispatch-reads :
      (rs : List (Text × Endpoint)) (o : Option Endpoint) (req : Input) (db : Db)
      → ((e : Endpoint) → o ≡ some e → reads e ≡ true)
      → (dispatch parse bolt rs o req db).1 ≡ db
  unfolding dispatch respond reads
  dispatch-reads [] o req db h = refl
  dispatch-reads (r ∷ rs) none req db h = refl
  dispatch-reads (r ∷ rs) (some health) req db h = refl
  dispatch-reads (r ∷ rs) (some ready) req db h = ground arith
  dispatch-reads (r ∷ rs) (some create_one) req db h = absurd (false≢true (h create_one refl))
  dispatch-reads (r ∷ rs) (some list_all) req db h = ground arith
  dispatch-reads (r ∷ rs) (some (get_one id)) req db h = ground arith
  dispatch-reads (r ∷ rs) (some (delete_one id)) req db h =
      absurd (false≢true (h (delete_one id) refl))
  dispatch-reads (r ∷ rs) (some (append_to id)) req db h =
      absurd (false≢true (h (append_to id) refl))

  -- GET and HEAD leave the database as it was on every path.
  serve_get :
      (path : List Text) (req : Input) (db : Db)
      → ((serve parse bolt (codes "GET") path req db).1 ≡ db)
        × ((serve parse bolt (codes "HEAD") path req db).1 ≡ db)
  unfolding serve
  serve_get path req db = (
    dispatch-reads (routes path) _ req db (λ e h. (pick-reads path e).0 h),
    dispatch-reads (routes path) _ req db (λ e h. (pick-reads path e).1 h),
  )
