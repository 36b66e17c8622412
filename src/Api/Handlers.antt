-- ===== src/Api/Handlers.antt =====
-- The handlers of api/main.go, over the requests as Api/Requests reads them.
use take.Prelude.{
  ℕ, suc, zero, Bool, true, false, Option, none, some, List, [], ◌∷◌, Text, codes, ℤ,
}
use take.Json.{Json, arr}
use take.Http.{Response, nothing, plain, http_error, write_json, Decoded, value, refused, pick}
use take.Api.Todos.{Todo, encode_row, encode_rows}
use take.Api.Sql.{
  Rows, ExecResult, scan_all, select_all, select_one, insert_todo, update_todo, delete_todo, Sql,
}
use take.Api.Requests.{
  invalid_body, no_such_todo, storage_fail, CreateBody, create_member, UpdateBody, update_member,
  path_id, clean_text, clean_given, Endpoint, health, list_all, create_one, update_one, remove_one,
  api_routes, decode,
}

-- The row that QueryRow finds.
pub data Found : Type 0 where
  found : Todo → Found
  no_rows broken : Found

unfoldable pub first_row : List (Option Todo) → Bool → Bool → Found
first_row [] true c = no_rows
first_row [] false c = broken
first_row (none ∷ _) b c = broken
first_row (some t ∷ _) b true = found t
first_row (some t ∷ _) b false = broken

unfoldable pub listed_rows : Option (List Todo) → Bool → Response
listed_rows none b = storage_fail
listed_rows (some ts) false = storage_fail
listed_rows (some ts) true = write_json 200 (arr (encode_rows ts))

module _ (sql : Sql) where
  open sql use {Db, query, exec, ping}

  unfoldable pub row_found : Option Rows × Db → Found × Db
  row_found (none, db) = (broken, db)
  row_found (some r, db) = (first_row r.rows r.complete r.is_closed, db)

  unfoldable pub by_id : ℤ → Db → Found × Db
  unfolding row_found first_row
  by_id id db = row_found (query (select_one id) db)

  unfoldable pub pinged : Bool × Db → Response × Db
  pinged (true, db) = (record { status = 200; body = plain (codes "ok\n") }, db)
  pinged (false, db) = (http_error (codes "database unreachable") 503, db)

  unfoldable pub handle_health : Db → Response × Db
  unfolding pinged
  handle_health db = pinged (ping db)

  unfoldable pub listed : Option Rows × Db → Response × Db
  listed (none, db) = (storage_fail, db)
  listed (some r, db) = (listed_rows (scan_all r.rows) r.complete, db)

  unfoldable pub handle_list_todos : Db → Response × Db
  unfolding listed listed_rows
  handle_list_todos db = listed (query select_all db)

  unfoldable pub show_created : Found × Db → Response × Db
  show_created (found t, db) = (write_json 201 (encode_row t), db)
  show_created (no_rows, db) = (storage_fail, db)
  show_created (broken, db) = (storage_fail, db)

  unfoldable pub with_new_id : Option ℤ → Db → Response × Db
  with_new_id none db = (storage_fail, db)
  with_new_id (some id) db = show_created (by_id id db)

  unfoldable pub inserted : Option ExecResult × Db → Response × Db
  inserted (none, db) = (storage_fail, db)
  inserted (some r, db) = with_new_id r.last_insert_id db

  unfoldable pub create_cleaned : Decoded Text → Db → Response × Db
  create_cleaned (refused r) db = (r, db)
  create_cleaned (value text) db = inserted (exec (insert_todo text) db)

  unfoldable pub create_read : Option CreateBody → Db → Response × Db
  create_read none db = (invalid_body, db)
  create_read (some b) db = create_cleaned (clean_text b.text) db

  unfoldable pub show_updated : Found × Db → Response × Db
  show_updated (found t, db) = (write_json 200 (encode_row t), db)
  show_updated (no_rows, db) = (no_such_todo, db)
  show_updated (broken, db) = (storage_fail, db)

  unfoldable pub recheck : ℤ → Found × Db → Response × Db
  recheck id (no_rows, db) = (no_such_todo, db)
  recheck id (_, db) = show_updated (by_id id db)

  -- MySQL counts the rows that an UPDATE changes: 0 can be a row that was so already.
  unfoldable pub after_update : ℤ → Option ℕ → Db → Response × Db
  after_update id (some zero) db = recheck id (by_id id db)
  after_update id _ db = show_updated (by_id id db)

  unfoldable pub updated : ℤ → Option ExecResult × Db → Response × Db
  updated id (none, db) = (storage_fail, db)
  updated id (some r, db) = after_update id r.rows_affected db

  unfoldable pub update_cleaned : Decoded (Option Text) → Option Bool → ℤ → Db → Response × Db
  update_cleaned (refused r) is_done id db = (r, db)
  update_cleaned (value text) is_done id db = updated id (exec (update_todo text is_done id) db)

  -- The fields of the body: not both nil.
  unfoldable pub update_given : Option Text → Option Bool → ℤ → Db → Response × Db
  update_given none none id db = (http_error (codes "nothing to update") 400, db)
  update_given text is_done id db = update_cleaned (clean_given text) is_done id db

  unfoldable pub update_read : ℤ → Option UpdateBody → Db → Response × Db
  update_read id none db = (invalid_body, db)
  update_read id (some b) db = update_given b.text b.is_done id db

  unfoldable pub removed_rows : Option ℕ → Db → Response × Db
  removed_rows none db = (storage_fail, db)
  removed_rows (some zero) db = (no_such_todo, db)
  removed_rows (some (suc n)) db = (record { status = 204; body = nothing }, db)

  unfoldable pub removed : Option ExecResult × Db → Response × Db
  removed (none, db) = (storage_fail, db)
  removed (some r, db) = removed_rows r.rows_affected db

  unfoldable pub remove_at : Decoded ℤ → Db → Response × Db
  remove_at (refused r) db = (r, db)
  remove_at (value id) db = removed (exec (delete_todo id) db)

  unfoldable pub handle_remove : Text → Db → Response × Db
  unfolding remove_at removed removed_rows
  handle_remove segment db = remove_at (path_id segment) db

  module _ (first_value : Bool → Text → Option Json) where
    unfoldable pub handle_create_todo : Option Text → Db → Response × Db
    unfolding create_read create_cleaned inserted with_new_id show_created
    handle_create_todo body db =
        create_read (decode first_value create_member body (record { text = [] })) db

    unfoldable pub update_at : Decoded ℤ → Option Text → Db → Response × Db
    update_at (refused r) body db = (r, db)
    update_at (value id) body db =
        update_read id
          (decode first_value update_member body (record { text = none; is_done = none })) db

    unfoldable pub handle_update : Text → Option Text → Db → Response × Db
    unfolding update_at update_read update_given update_cleaned updated after_update recheck
        show_updated
    handle_update segment body db = update_at (path_id segment) body db

    unfoldable pub answer_at : Endpoint → Option Text → Db → Response × Db
    unfolding handle_health handle_list_todos handle_create_todo handle_update handle_remove
    answer_at health body db = handle_health db
    answer_at list_all body db = handle_list_todos db
    answer_at create_one body db = handle_create_todo body db
    answer_at (update_one segment) body db = handle_update segment body db
    answer_at (remove_one segment) body db = handle_remove segment db

    -- The mux: 404 where no pattern has the path, 405 where none of those has the method.
    unfoldable pub route_to :
        List (Text × Endpoint) → Option Endpoint → Option Text → Db → Response × Db
    route_to [] e body db = (http_error (codes "404 page not found") 404, db)
    route_to (_ ∷ _) none body db = (http_error (codes "Method Not Allowed") 405, db)
    route_to (_ ∷ _) (some e) body db = answer_at e body db

    unfoldable pub serve_api : Text → List Text → Option Text → Db → Response × Db
    unfolding route_to answer_at api_routes pick
    serve_api method path body db =
        route_to (api_routes path) (pick method (api_routes path)) body db
