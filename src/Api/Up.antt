-- ===== src/Api/Up.antt =====
-- A database that answers every statement that the API sends, and what of it the handlers read.
use take.Prelude.{
  ◌≡◌, ◌≢◌, ap, ℕ, zero, suc, Bool, true, Option, none, some, List, [], ◌∷◌, Text, ℤ, arith,
}
use take.Http.{Response}
use take.Api.Todos.{Todo}
use take.Api.Spec.{IsTitle}
use take.Api.Sql.{
  Rows, ExecResult, Sql, IsMySql, select_all, select_one, insert_todo, update_todo, delete_todo,
  scan_all,
}
use take.Api.Handlers.{
  Found, found, no_rows, broken, first_row, row_found, by_id, listed_rows, listed,
  handle_list_todos, show_updated, recheck, after_update, updated,
}

-- The columns that handleUpdate sets: at least one, and a title that it has checked.
abbrev pub IsSent : Option Text → Option Bool → Type 0
IsSent none none = ⊥
IsSent none (some _) = Unit
IsSent (some text) _ = IsTitle text

-- Every statement that the handlers send succeeds, with rows that Scan takes. They send a title when
-- clean_text has passed it, which the column takes then, and an UPDATE with a column to set.
pub record IsUp (sql : Sql) : Type 0 where
  pub select_all-answers :
      (db : sql.Db)
      → (r : Rows) × (ts : List Todo) × ((sql.query select_all db).0 ≡ some r)
        × (r.complete ≡ true)
        × (scan_all r.rows ≡ some ts)
  pub select_one-answers :
      (id : ℤ) (db : sql.Db)
      → (r : Rows) × (ts : List Todo) × ((sql.query (select_one id) db).0 ≡ some r)
        × (r.complete ≡ true)
        × (r.is_closed ≡ true)
        × (scan_all r.rows ≡ some ts)
  pub insert_todo-answers :
      (text : Text) (db : sql.Db)
      → IsTitle text
      → (r : ExecResult) × (id : ℤ) × ((sql.exec (insert_todo text) db).0 ≡ some r)
        × (r.last_insert_id ≡ some id)
  pub update_todo-answers :
      (text : Option Text) (is_done : Option Bool) (id : ℤ) (db : sql.Db)
      → IsSent text is_done
      → (r : ExecResult) × ((sql.exec (update_todo text is_done id) db).0 ≡ some r)
  pub delete_todo-answers :
      (id : ℤ) (db : sql.Db)
      → (r : ExecResult) × (n : ℕ) × ((sql.exec (delete_todo id) db).0 ≡ some r)
        × (r.rows_affected ≡ some n)

-- The pair with a first part that is known.
pub known : {A B : Type 0} (o : Option A × B) (a : A) → o.0 ≡ some a → o ≡ (some a, o.1)
known (none, b) a h = cc
known (some a', b) a h = ap (λ z. (z, b)) h

-- A row, or none, but no error.
abbrev pub IsAnswered : Found → Type 0
IsAnswered (found t) = Unit
IsAnswered no_rows = Unit
IsAnswered broken = ⊥

abbrev pub Answers : {D : Type 0} → Response × D → Type 0
Answers x = x.0.status ≢ 502

module _ (sql : Sql) (laws : IsMySql sql) (up : IsUp sql) where
  open sql use {Db, table}

  first_row-IsAnswered :
      (rs : List (Option Todo)) (ts : List Todo)
      → scan_all rs ≡ some ts
      → IsAnswered (first_row rs true true)
  unfolding first_row scan_all
  first_row-IsAnswered [] ts h = tt
  first_row-IsAnswered (none ∷ rs) ts h = cc
  first_row-IsAnswered (some t ∷ rs) ts h = tt

  pub by_id-IsAnswered : (id : ℤ) (db : Db) → IsAnswered (by_id sql id db).0
  unfolding by_id row_found
  by_id-IsAnswered id db =
      let (r, ts, q, c, z, s) = up.select_one-answers id db in
      rw (known (sql.query (select_one id) db) r q, c, z) (first_row-IsAnswered r.rows ts s)

  pub list_all-Answers : (db : Db) → Answers (handle_list_todos sql db)
  unfolding handle_list_todos listed listed_rows
  list_all-Answers db =
      let (r, ts, q, c, s) = up.select_all-answers db in
      rw (known (sql.query select_all db) r q, s, c) (λ n. omega (arith, n))

  show_updated-Answers : (f : Found × Db) → IsAnswered (f.0) → Answers (show_updated sql f)
  unfolding show_updated
  show_updated-Answers (found t, db) h n = omega (arith, n)
  show_updated-Answers (no_rows, db) h n = omega (arith, n)
  show_updated-Answers (broken, db) h n = h

  again-Answers : (id : ℤ) (db : Db) → Answers (show_updated sql (by_id sql id db))
  again-Answers id db = show_updated-Answers (by_id sql id db) (by_id-IsAnswered id db)

  recheck-Answers : (id : ℤ) (f : Found × Db) → IsAnswered (f.0) → Answers (recheck sql id f)
  unfolding recheck
  recheck-Answers id (no_rows, db) h n = omega (arith, n)
  recheck-Answers id (found t, db) h n = again-Answers id db n
  recheck-Answers id (broken, db) h n = h

  after_update-Answers : (id : ℤ) (m : Option ℕ) (db : Db) → Answers (after_update sql id m db)
  unfolding after_update
  after_update-Answers id none db n = again-Answers id db n
  after_update-Answers id (some (suc m)) db n = again-Answers id db n
  after_update-Answers id (some zero) db n =
      recheck-Answers id (by_id sql id db) (by_id-IsAnswered id db) n

  pub exec_update-Answers :
      (text : Option Text) (is_done : Option Bool) (id : ℤ) (db : Db)
      → IsSent text is_done
      → Answers (updated sql id (sql.exec (update_todo text is_done id) db))
  unfolding updated
  exec_update-Answers text is_done id db sent =
      let (r, q) = up.update_todo-answers text is_done id db sent in
      rw (known (sql.exec (update_todo text is_done id) db) r q)
        (after_update-Answers id r.rows_affected _)
