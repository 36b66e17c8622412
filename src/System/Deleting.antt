-- ===== src/System/Deleting.antt =====
-- delete_todo of keda/mcp-server over the handlers of api/main.go.
use take.Prelude.{
  ◌≡◌, refl, ap, sym, subst, ◌∙◌, Bool, true, Option, none, some, List, [], Text, codes, text_eq,
  ◌++◌, ltb_ℤ, pos, ℤ, if◌then◌else◌,
}
use mathlib.Core.Option.{some-injective}
use take.Json.{Json, Fields}
use take.Numbers.{format_int}
use take.Http.{Response, value}
use take.Exchange.{answer_of, carried}
use take.Keda.World.{Outcome, done, World, IsRedis}
use take.Keda.Tools.{and_then, with_arg, todo_path, require_int_arg, delete_one, run_delete_todo}
use take.Keda.Steps.{IsInt64, call_api-sent}
use take.Api.Todos.{Todo, row_of, remove_row}
use take.Api.Sql.{Sql, IsMySql}
use take.Api.Requests.{Endpoint, remove_one, path_id}
use take.Api.Handlers.{serve_api}
use take.Api.Spec.{
  segment_of, IsBad, bad_id, bad_new_body, bad_new_title, bad_body, bad_title, no_change, Does,
  did_ping, did_refuse, did_list, did_create, did_update, did_remove, was_missing,
}
use take.Api.Contract.{serve_api-routed}
use take.Api.Up.{IsUp}
use take.Api.Answers.{serve_api-answers}
use take.System.Over.{segments, send_api, over_api}
use take.System.Paths.{segments-todo, pick-delete}
use take.System.Patching.{path_id-format_int}
use take.System.Marking.{path_id-positive, some-apart}

-- What a DELETE has done to a row that is there.
abbrev HasRemoved : ℤ → List Todo → Response → List Todo → Type 0
HasRemoved id t r t' = (r.status ≡ 204) × (t' ≡ remove_row id t)

module _ (first_value : Bool → Text → Option Json) (body : Option Text) (id : ℤ)
    (int64 : IsInt64 id) (positive : ltb_ℤ (pos 0) id ≡ true) where
  same_id :
      (e : Endpoint) (seg : Text) (id' : ℤ)
      → e ≡ remove_one (format_int id)
      → segment_of e ≡ some seg
      → path_id seg ≡ value id'
      → id' ≡ id
  same_id e seg id' k q p =
      path_id-format_int id id' int64
        (subst (λ z. path_id z ≡ value id') (some-injective _ _ (sym q ∙ ap segment_of k)) p)

  not-IsBad : (e : Endpoint) → e ≡ remove_one (format_int id) → IsBad first_value e body → ⊥
  not-IsBad e k (bad_id seg q f) = f id (
      subst (λ z. path_id z ≡ value id) (some-injective _ _ (ap segment_of (sym k) ∙ q))
        (path_id-positive id int64 positive))
  not-IsBad e k (bad_new_body q _) = cc
  not-IsBad e k (bad_new_title _ q _ _) = cc
  not-IsBad e k (bad_body _ q _) = cc
  not-IsBad e k (bad_title _ _ _ q _ _ _) = cc
  not-IsBad e k (no_change _ q _) = cc

  Does-removed :
      (e : Endpoint) (x : Todo) (t t' : List Todo) (r : Response)
      → e ≡ remove_one (format_int id)
      → row_of id t ≡ some x
      → Does first_value e body t r t'
      → HasRemoved id t r t'
  Does-removed e x t t' r k h (did_ping q _ _) = cc
  Does-removed e x t t' r k h (did_refuse b _ _) = absurd (not-IsBad e k b)
  Does-removed e x t t' r k h (did_list q _ _) = cc
  Does-removed e x t t' r k h (did_create _ _ q _ _ _ _ _ _ _) = cc
  Does-removed e x t t' r k h (did_update _ _ _ _ _ q _ _ _ _ _ _) = cc
  Does-removed e x t t' r k h (did_remove seg id' q p _ u w) =
      (ap (λ z. z.status) u, w ∙ ap (λ z. remove_row z t) (same_id e seg id' k (ap segment_of q) p))
  Does-removed e x t t' r k h (was_missing seg id' q p m _ _) =
      absurd (some-apart (subst (λ z. row_of z t ≡ none) (same_id e seg id' k q p) m) h)

module _ (first_value : Bool → Text → Option Json) (sql : Sql) (laws : IsMySql sql) (up : IsUp sql)
    (marshal : Json → Text) (first_document : Text → Outcome Json) (redis : World) where
  -- The answer of the API to a DELETE of the id.
  abbrev served : ℤ → sql.Db → Response × sql.Db
  served id db = serve_api sql first_value (codes "DELETE") (segments (todo_path id)) (some []) db

  served-HasRemoved :
      (id : ℤ) (x : Todo) (db : sql.Db)
      → IsInt64 id
      → ltb_ℤ (pos 0) id ≡ true
      → row_of id (sql.table db) ≡ some x
      → HasRemoved id (sql.table db) (served id db).0 (sql.table (served id db).1)
  served-HasRemoved id x db i p h = Does-removed first_value (some []) id i p _ x _ _ _ refl h (
      serve_api-routed first_value sql laws (codes "DELETE") _ (some []) db _
        (rw (segments-todo id) (pick-delete id))
        (serve_api-answers sql laws up first_value _ _ _ db))

  -- Where the exchanges between the services arrive, over a database that keeps the documented
  -- behaviour of MySQL and in which every statement that the handlers send succeeds, delete_todo
  -- of a positive int64 id with a row in the table, when Redis takes the HDEL, succeeds, removes
  -- the row and nothing else of the table, and clears the priority that is stored for the id and
  -- no other.
  pub run_delete_todo-deletes :
      (float_int : Json → ℤ) (args : Fields) (db : sql.Db) (s s' : redis.State) (id : ℤ) (x : Todo)
      → IsRedis redis
      → require_int_arg float_int args (codes "id") ≡ done id
      → IsInt64 id
      → ltb_ℤ (pos 0) id ≡ true
      → row_of id (sql.table db) ≡ some x
      → redis.hdel (format_int id) s ≡ (done tt, s')
      → (db' : sql.Db) × (run_delete_todo
            (over_api sql first_value marshal first_document redis)
            float_int
            args
            (db, s)
          ≡ (done (codes "todo " ++ format_int id ++ codes " deleted"), (db', s')))
        × (sql.table db' ≡ remove_row id (sql.table db))
        × ((k : Text)
            → redis.stored s' k ≡ (if text_eq (format_int id) k then none else redis.stored s k))
  unfolding run_delete_todo with_arg and_then delete_one send_api carried answer_of
  run_delete_todo-deletes float_int args db s s' id x redis_laws arg i p h del =
      let (status, t) = served-HasRemoved id x db i p h in
      let called =
        call_api-sent (over_api sql first_value marshal first_document redis) 204
          (record { method = codes "DELETE"; path = todo_path id; body = none }) _ (db, s)
          ((served id db).1, s) refl (rw status refl) in
      (
        (served id db).1,
        rw (arg, called, del) refl,
        t,
        λ k. redis_laws.hdel-stored (format_int id) s s' k del,
      )
