-- ===== src/System/Listing.antt =====
-- list_todos across the services.
use take.Prelude.{
  ◌≡◌, refl, Bool, true, Option, some, List, map, Text, codes, text_eq, All, Entries, sort_slice,
}
use take.Json.{Json, arr}
use take.Http.{write_json}
use take.Keda.World.{Outcome, done, World}
use take.Keda.Tools.{
  MergedTodo, more_urgent, with_priority, encode_todos, and_then, call_api, expect, decoded,
  fetch_todos, merge_with_priority, run_list_todos,
}
use take.Keda.Steps.{IsInt64}
use take.Api.Todos.{Todo, encode_rows}
use take.Api.Sql.{Rows, Sql, select_all, scan_all}
use take.Api.Handlers.{listed, listed_rows, handle_list_todos, serve_api}
use take.Exchange.{encoded, carried}
use take.System.Over.{segments, send_api, over_api}
use take.System.Rows.{api_todo, decode_items-encode_rows}

-- What list_todos shows of a table.
abbrev pub todos_of : Entries Text → List Todo → List MergedTodo
todos_of priorities ts = sort_slice more_urgent (map (with_priority priorities) (map api_todo ts))

module _ (sql : Sql) (first_value : Bool → Text → Option Json) where
  handle_list_todos-rows :
      (db db' : sql.Db) (r : Rows) (ts : List Todo)
      → sql.query select_all db ≡ (some r, db')
      → r.complete ≡ true
      → scan_all r.rows ≡ some ts
      → handle_list_todos sql db ≡ (write_json 200 (arr (encode_rows ts)), db')
  unfolding handle_list_todos listed listed_rows
  handle_list_todos-rows db db' r ts q c e = rw (q, e, c) refl

  -- GET /api/todos
  serve_api-list_all :
      (body : Option Text) (db db' : sql.Db) (r : Rows) (ts : List Todo)
      → sql.query select_all db ≡ (some r, db')
      → r.complete ≡ true
      → scan_all r.rows ≡ some ts
      → serve_api sql first_value (codes "GET") (segments (codes "/api/todos")) body db
        ≡ (write_json 200 (arr (encode_rows ts)), db')
  unfolding segments serve_api text_eq
  serve_api-list_all body db db' r ts q c s = handle_list_todos-rows db db' r ts q c s

  module _ (marshal : Json → Text) (first_document : Text → Outcome Json) (redis : World)
      (decode_error : Json → Text) where
    pub fetch_todos-over_api :
        (db db' : sql.Db) (s : redis.State) (r : Rows) (ts : List Todo)
        → sql.query select_all db ≡ (some r, db')
        → r.complete ≡ true
        → scan_all r.rows ≡ some ts
        → All (λ t. IsInt64 t.id) ts
        → first_document (encoded marshal (arr (encode_rows ts))) ≡ done (arr (encode_rows ts))
        → fetch_todos (over_api sql first_value marshal first_document redis) decode_error (db, s)
          ≡ (done (map api_todo ts), (db', s))
    unfolding fetch_todos call_api expect send_api and_then carried decoded
    fetch_todos-over_api db db' s r ts q c e i d =
        rw (serve_api-list_all _ db db' r ts q c e, d) (rw (decode_items-encode_rows ts i) refl)

    pub run_list_todos-over_api :
        (db db' : sql.Db) (s s' : redis.State) (r : Rows) (ts : List Todo)
        (priorities : Entries Text)
        → sql.query select_all db ≡ (some r, db')
        → r.complete ≡ true
        → scan_all r.rows ≡ some ts
        → All (λ t. IsInt64 t.id) ts
        → first_document (encoded marshal (arr (encode_rows ts))) ≡ done (arr (encode_rows ts))
        → redis.hget_all s ≡ (done priorities, s')
        → run_list_todos
            (over_api sql first_value marshal first_document redis)
            decode_error
            marshal
            (db, s)
          ≡ (done (marshal (arr (encode_todos (todos_of priorities ts)))), (db', s'))
    unfolding run_list_todos and_then merge_with_priority
    run_list_todos-over_api db db' s s' r ts priorities q c e i d h =
        rw (fetch_todos-over_api db db' s r ts q c e i d, h) refl
