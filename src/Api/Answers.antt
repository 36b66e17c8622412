-- ===== src/Api/Answers.antt =====
-- No request to the API is answered with 502 while its database answers.
use take.Prelude.{
  ◌≡◌, ◌≢◌, ap, subst, ◌∙◌, ℕ, zero, suc, Bool, true, false, Option, none, some, List, [], ◌∷◌,
  Text, ℤ, arith,
}
use take.Json.{Json}
use take.Strings.{trim_space}
use take.Http.{Decoded, value, refused, pick}
use take.Api.Todos.{Todo, row_of}
use take.Api.Spec.{IsTitle}
use take.Api.Sql.{Sql, IsMySql, insert_todo, delete_todo}
use take.Api.Requests.{
  CreateBody, UpdateBody, path_id, clean_text, given, clean_given, Endpoint, health, list_all,
  create_one, update_one, remove_one, api_routes,
}
use take.Api.Handlers.{
  Found, found, no_rows, broken, pinged, handle_health, show_created, with_new_id, inserted,
  create_cleaned, create_read, handle_create_todo, update_cleaned, update_given, update_read,
  update_at, handle_update, removed_rows, removed, remove_at, handle_remove, answer_at, route_to,
  serve_api,
}
use take.Api.Refines.{IsChecked, check_text-IsChecked, IsRefusal, path_id-IsRefusal}
use take.Api.Rows.{row_of-append, IsRow, by_id-IsRow}
use take.Api.Up.{
  IsUp, IsSent, known, IsAnswered, Answers, by_id-IsAnswered, list_all-Answers, exec_update-Answers,
}

-- A value has a property, and a refusal another status.
abbrev IsMild : {A : Type 0} → (A → Type 0) → Decoded A → Type 0
IsMild P (value a) = P a
IsMild P (refused r) = r.status ≢ 502

module _ (sql : Sql) (laws : IsMySql sql) (up : IsUp sql) where
  open sql use {Db, table}

  update_cleaned-Answers :
      (d : Decoded (Option Text)) (is_done : Option Bool) (id : ℤ) (db : Db)
      → IsMild (λ text. IsSent text is_done) d
      → Answers (update_cleaned sql d is_done id db)
  unfolding update_cleaned
  update_cleaned-Answers (refused r) is_done id db h n = h n
  update_cleaned-Answers (value text) is_done id db h n =
      exec_update-Answers sql laws up text is_done id db h n

  clean_text-IsMild : (s : Text) → IsMild IsTitle (clean_text s)
  unfolding clean_text
  clean_text-IsMild s = mild _ (check_text-IsChecked (trim_space s))
    where
      mild : (d : Decoded Text) → IsChecked (trim_space s) d → IsMild IsTitle d
      mild (value t) h = h.1
      mild (refused r) (h, _) = λ n. omega (arith, h, n)

  given-IsMild :
      (d : Decoded Text) (is_done : Option Bool)
      → IsMild IsTitle d
      → IsMild (λ text. IsSent text is_done) (given d)
  unfolding given
  given-IsMild (value t) is_done h = h
  given-IsMild (refused r) is_done h = h

  update_given-Answers :
      (text : Option Text) (is_done : Option Bool) (id : ℤ) (db : Db)
      → Answers (update_given sql text is_done id db)
  unfolding update_given clean_given
  update_given-Answers none none id db n = omega (arith, n)
  update_given-Answers none (some d) id db n =
      update_cleaned-Answers (value none) (some d) id db tt n
  update_given-Answers (some t) is_done id db n =
      update_cleaned-Answers (given (clean_text t)) is_done id db
        (given-IsMild (clean_text t) is_done (clean_text-IsMild t)) n

  -- The row that was inserted is found.
  show_created-Answers :
      (t : Todo) (f : Found × Db)
      → IsAnswered (f.0)
      → IsRow (f.0) (some t)
      → Answers (show_created sql f)
  unfolding show_created
  show_created-Answers t (found u, db) h k n = omega (arith, n)
  show_created-Answers t (no_rows, db) h k n = absurd (apart k)
    where
      apart : some t ≡ none → ⊥
      apart q = cc
  show_created-Answers t (broken, db) h k n = h

  exec_insert-Answers :
      (text : Text) (db : Db)
      → IsTitle text
      → Answers (inserted sql (sql.exec (insert_todo text) db))
  unfolding inserted with_new_id
  exec_insert-Answers text db ok_title =
      let (r, id, q, i) = up.insert_todo-answers text db ok_title in
      let whole = known (sql.exec (insert_todo text) db) r q in
      let (new, time, grown) = laws.insert_todo-table text r id db _ whole i in
      let x : Todo = record { id = id; text = text; is_done = false; created = time } in
      let (is, k) = by_id-IsRow sql laws id (sql.exec (insert_todo text) db).1 in
      rw (whole, i)
        (show_created-Answers x _ (by_id-IsAnswered sql laws up id _)
          (subst (IsRow _) (ap (row_of id) grown ∙ row_of-append x (table db) new) is))

  create_read-Answers : (o : Option CreateBody) (db : Db) → Answers (create_read sql o db)
  unfolding create_read create_cleaned
  create_read-Answers none db n = omega (arith, n)
  create_read-Answers (some b) db n = cleaned (clean_text b.text) (clean_text-IsMild b.text) n
    where
      cleaned : (d : Decoded Text) → IsMild IsTitle d → Answers (create_cleaned sql d db)
      cleaned (refused r) h m = h m
      cleaned (value text) h m = exec_insert-Answers text db h m

  exec_delete-Answers : (id : ℤ) (db : Db) → Answers (removed sql (sql.exec (delete_todo id) db))
  unfolding removed removed_rows
  exec_delete-Answers id db =
      let (r, m, q, a) = up.delete_todo-answers id db in
      rw (known (sql.exec (delete_todo id) db) r q, a) (rows m _)
    where
      rows : (m : ℕ) (d : Db) → Answers (removed_rows sql (some m) d)
      rows zero d n = omega (arith, n)
      rows (suc m) d n = omega (arith, n)

  health-Answers : (db : Db) → Answers (handle_health sql db)
  unfolding handle_health
  health-Answers db = at (sql.ping db)
    where
      at : (o : Bool × Db) → Answers (pinged sql o)
      at (true, d) n = omega (arith, n)
      at (false, d) n = omega (arith, n)

  module _ (first_value : Bool → Text → Option Json) where
    answer_at-Answers :
        (e : Endpoint) (body : Option Text) (db : Db)
        → Answers (answer_at sql first_value e body db)
    unfolding answer_at handle_create_todo handle_update update_at update_read handle_remove
        remove_at
    answer_at-Answers health body db n = health-Answers db n
    answer_at-Answers list_all body db n = list_all-Answers sql laws up db n
    answer_at-Answers create_one body db n = create_read-Answers _ db n
    answer_at-Answers (update_one segment) body db n =
        at (path_id segment) (path_id-IsRefusal segment) n
      where
        read : (id : ℤ) (o : Option UpdateBody) → Answers (update_read sql id o db)
        read id none m = omega (arith, m)
        read id (some b) m = update_given-Answers b.text b.is_done id db m

        at : (d : Decoded ℤ) → IsRefusal d → Answers (update_at sql first_value d body db)
        at (refused r) h m = omega (arith, h, m)
        at (value id) h m = read id _ m
    answer_at-Answers (remove_one segment) body db n =
        at (path_id segment) (path_id-IsRefusal segment) n
      where
        at : (d : Decoded ℤ) → IsRefusal d → Answers (remove_at sql d db)
        at (refused r) h m = omega (arith, h, m)
        at (value id) h m = exec_delete-Answers id db m

    -- Over a database that keeps the documented behaviour of MySQL and in which every statement
    -- that the handlers send succeeds, no request to the API is answered with 502.
    pub serve_api-answers :
        (method : Text) (path : List Text) (body : Option Text) (db : Db)
        → (serve_api sql first_value method path body db).0.status ≢ 502
    unfolding serve_api route_to
    serve_api-answers method path body db n =
        routed (api_routes path) (pick method (api_routes path)) n
      where
        routed :
            (rs : List (Text × Endpoint)) (o : Option Endpoint)
            → Answers (route_to sql first_value rs o body db)
        routed [] o m = omega (arith, m)
        routed (r ∷ rs) none m = omega (arith, m)
        routed (r ∷ rs) (some e) m = answer_at-Answers e body db m
