-- ===== src/Api/Statements.antt =====
-- The texts that api/main.go sends to the database.
use take.Prelude.{
  ℕ, zero, suc, refl, Bool, true, false, Option, none, some, List, [], ◌∷◌, Text, text_eq, ℤ, arith,
}
use take.Json.{Json}
use take.Strings.{join}
use take.Http.{Decoded, value, refused, pick}
use take.Api.Sql.{
  Statement, Rows, ExecResult, Sql, select_all, select_one, insert_todo, update_todo, delete_todo,
}
use take.Api.Requests.{
  CreateBody, UpdateBody, path_id, clean_text, clean_given, given, Endpoint, health, list_all,
  create_one, update_one, remove_one, api_routes,
}
use take.Api.Handlers.{
  Found, found, no_rows, broken, by_id, row_found, pinged, handle_health, listed, handle_list_todos,
  show_created, with_new_id, inserted, create_cleaned, create_read, handle_create_todo,
  show_updated, recheck, after_update, updated, update_cleaned, update_given, update_read,
  update_at, handle_update, removed_rows, removed, remove_at, handle_remove, answer_at, route_to,
  serve_api,
}
use take.Api.Logged.{logged, Sends, none-Sends, same-Sends, more-Sends, trans-Sends}

module _ (sql : Sql) where
  row_found-Sends :
      (o : Option Rows × (List Statement × sql.Db)) → Sends sql 0 (o.1.0) (row_found (logged sql) o)
  unfolding row_found
  row_found-Sends (none, d) = none-Sends sql _ 0 d
  row_found-Sends (some r, d) = none-Sends sql _ 0 d

  by_id-Sends : (id : ℤ) (d : List Statement × sql.Db) → Sends sql 1 (d.0) (by_id (logged sql) id d)
  unfolding by_id text_eq
  by_id-Sends id d = more-Sends sql 0 (d.0) (select_one id) _ refl (row_found-Sends _)

  show_created-Sends :
      (f : Found × (List Statement × sql.Db)) → Sends sql 0 (f.1.0) (show_created (logged sql) f)
  unfolding show_created
  show_created-Sends (found t, d) = none-Sends sql _ 0 d
  show_created-Sends (no_rows, d) = none-Sends sql _ 0 d
  show_created-Sends (broken, d) = none-Sends sql _ 0 d

  with_new_id-Sends :
      (o : Option ℤ) (d : List Statement × sql.Db)
      → Sends sql 1 (d.0) (with_new_id (logged sql) o d)
  unfolding with_new_id
  with_new_id-Sends none d = none-Sends sql _ 1 d
  with_new_id-Sends (some id) d =
      trans-Sends sql 1 0 1 (d.0) (by_id (logged sql) id d) _ (by_id-Sends id d)
        (show_created-Sends _) (omega arith)

  inserted-Sends :
      (o : Option ExecResult × (List Statement × sql.Db))
      → Sends sql 1 (o.1.0) (inserted (logged sql) o)
  unfolding inserted
  inserted-Sends (none, d) = none-Sends sql _ 1 d
  inserted-Sends (some r, d) = with_new_id-Sends r.last_insert_id d

  create_read-Sends :
      (o : Option CreateBody) (d : List Statement × sql.Db)
      → Sends sql 3 (d.0) (create_read (logged sql) o d)
  unfolding create_read create_cleaned text_eq
  create_read-Sends none d = none-Sends sql _ 3 d
  create_read-Sends (some b) d = cleaned (clean_text b.text)
    where
      cleaned : (t : Decoded Text) → Sends sql 3 (d.0) (create_cleaned (logged sql) t d)
      cleaned (refused r) = none-Sends sql _ 3 d
      cleaned (value text) =
          trans-Sends sql 2 0 3 (d.0) _ _
            (more-Sends sql 1 (d.0) (insert_todo text) _ refl (inserted-Sends _)) (same-Sends sql _)
            (omega arith)

  show_updated-Sends :
      (f : Found × (List Statement × sql.Db)) → Sends sql 0 (f.1.0) (show_updated (logged sql) f)
  unfolding show_updated
  show_updated-Sends (found t, d) = none-Sends sql _ 0 d
  show_updated-Sends (no_rows, d) = none-Sends sql _ 0 d
  show_updated-Sends (broken, d) = none-Sends sql _ 0 d

  again-Sends :
      (id : ℤ) (d : List Statement × sql.Db)
      → Sends sql 1 (d.0) (show_updated (logged sql) (by_id (logged sql) id d))
  again-Sends id d =
      trans-Sends sql 1 0 1 (d.0) (by_id (logged sql) id d) _ (by_id-Sends id d)
        (show_updated-Sends _) (omega arith)

  recheck-Sends :
      (id : ℤ) (f : Found × (List Statement × sql.Db))
      → Sends sql 1 (f.1.0) (recheck (logged sql) id f)
  unfolding recheck
  recheck-Sends id (no_rows, d) = none-Sends sql _ 1 d
  recheck-Sends id (found t, d) = again-Sends id d
  recheck-Sends id (broken, d) = again-Sends id d

  updated-Sends :
      (id : ℤ) (o : Option ExecResult × (List Statement × sql.Db))
      → Sends sql 2 (o.1.0) (updated (logged sql) id o)
  unfolding updated after_update
  updated-Sends id (none, d) = none-Sends sql _ 2 d
  updated-Sends id (some r, d) = rows r.rows_affected
    where
      once : Sends sql 2 (d.0) (show_updated (logged sql) (by_id (logged sql) id d))
      once = trans-Sends sql 1 0 2 (d.0) _ _ (again-Sends id d) (same-Sends sql _) (omega arith)

      rows : (m : Option ℕ) → Sends sql 2 (d.0) (after_update (logged sql) id m d)
      rows none = once
      rows (some (suc m)) = once
      rows (some zero) =
          trans-Sends sql 1 1 2 (d.0) (by_id (logged sql) id d) _ (by_id-Sends id d)
            (recheck-Sends id _) (omega arith)

  update_read-Sends :
      (id : ℤ) (o : Option UpdateBody) (d : List Statement × sql.Db)
      → Sends sql 3 (d.0) (update_read (logged sql) id o d)
  unfolding update_read update_given update_cleaned clean_given text_eq update_todo join
  update_read-Sends id none d = none-Sends sql _ 3 d
  update_read-Sends id (some b) d = fields b.text b.is_done
    where
      titled :
          (t : Decoded Text) (e : Option Bool)
          → Sends sql 3 (d.0) (update_cleaned (logged sql) (given t) e id d)
      titled (refused r) e = none-Sends sql _ 3 d
      titled (value s) none =
          more-Sends sql 2 (d.0) (update_todo (some s) none id) _ refl (updated-Sends id _)
      titled (value s) (some e) =
          more-Sends sql 2 (d.0) (update_todo (some s) (some e) id) _ refl (updated-Sends id _)

      fields :
          (s : Option Text) (e : Option Bool)
          → Sends sql 3 (d.0) (update_given (logged sql) s e id d)
      fields none none = none-Sends sql _ 3 d
      fields none (some e) =
          more-Sends sql 2 (d.0) (update_todo none (some e) id) _ refl (updated-Sends id _)
      fields (some s) e = titled (clean_text s) e

  remove-Sends :
      (segment : Text) (d : List Statement × sql.Db)
      → Sends sql 3 (d.0) (handle_remove (logged sql) segment d)
  unfolding handle_remove remove_at removed removed_rows text_eq
  remove-Sends segment d = at (path_id segment)
    where
      rows :
          (m : Option ℕ) (d' : List Statement × sql.Db)
          → Sends sql 2 (d'.0) (removed_rows (logged sql) m d')
      rows none d' = none-Sends sql _ 2 d'
      rows (some zero) d' = none-Sends sql _ 2 d'
      rows (some (suc m)) d' = none-Sends sql _ 2 d'

      sent :
          (o : Option ExecResult × (List Statement × sql.Db))
          → Sends sql 2 (o.1.0) (removed (logged sql) o)
      sent (none, d') = none-Sends sql _ 2 d'
      sent (some r, d') = rows r.rows_affected d'

      at : (i : Decoded ℤ) → Sends sql 3 (d.0) (remove_at (logged sql) i d)
      at (refused r) = none-Sends sql _ 3 d
      at (value id) = more-Sends sql 2 (d.0) (delete_todo id) _ refl (sent _)

  list_all-Sends :
      (d : List Statement × sql.Db) → Sends sql 3 (d.0) (handle_list_todos (logged sql) d)
  unfolding handle_list_todos listed text_eq
  list_all-Sends d = more-Sends sql 2 (d.0) select_all _ refl (sent _)
    where
      sent :
          (o : Option Rows × (List Statement × sql.Db))
          → Sends sql 2 (o.1.0) (listed (logged sql) o)
      sent (none, d') = none-Sends sql _ 2 d'
      sent (some r, d') = none-Sends sql _ 2 d'

  health-Sends : (d : List Statement × sql.Db) → Sends sql 3 (d.0) (handle_health (logged sql) d)
  unfolding handle_health pinged
  health-Sends d = sent ((logged sql).ping d)
    where
      sent : (o : Bool × (List Statement × sql.Db)) → Sends sql 3 (o.1.0) (pinged (logged sql) o)
      sent (true, d') = none-Sends sql _ 3 d'
      sent (false, d') = none-Sends sql _ 3 d'

  module _ (first_value : Bool → Text → Option Json) where
    update-Sends :
        (segment : Text) (body : Option Text) (d : List Statement × sql.Db)
        → Sends sql 3 (d.0) (handle_update (logged sql) first_value segment body d)
    unfolding handle_update update_at
    update-Sends segment body d = at (path_id segment)
      where
        at : (i : Decoded ℤ) → Sends sql 3 (d.0) (update_at (logged sql) first_value i body d)
        at (refused r) = none-Sends sql _ 3 d
        at (value id) = update_read-Sends id _ d

    answer_at-Sends :
        (e : Endpoint) (body : Option Text) (d : List Statement × sql.Db)
        → Sends sql 3 (d.0) (answer_at (logged sql) first_value e body d)
    unfolding answer_at handle_create_todo
    answer_at-Sends health body d = health-Sends d
    answer_at-Sends list_all body d = list_all-Sends d
    answer_at-Sends create_one body d = create_read-Sends _ d
    answer_at-Sends (update_one segment) body d = update-Sends segment body d
    answer_at-Sends (remove_one segment) body d = remove-Sends segment d

    -- Any request to the API sends at most three statements to the database, each with one of
    -- seven fixed texts, so no text of a request is part of a statement.
    pub serve_api-Sends :
        (method : Text) (path : List Text) (body : Option Text) (db : sql.Db)
        → Sends sql 3 [] (serve_api (logged sql) first_value method path body ([], db))
    unfolding serve_api route_to
    serve_api-Sends method path body db = routed (api_routes path) (pick method (api_routes path))
      where
        routed :
            (rs : List (Text × Endpoint)) (o : Option Endpoint)
            → Sends sql 3 [] (route_to (logged sql) first_value rs o body ([], db))
        routed [] o = none-Sends sql _ 3 ([], db)
        routed (r ∷ rs) none = none-Sends sql _ 3 ([], db)
        routed (r ∷ rs) (some e) = answer_at-Sends e body ([], db)
