-- ===== src/Api/Sql.antt =====
-- The statements that api/main.go sends, and the interface of database/sql with MySQL behind it, a
-- parameter. The laws are what MySQL documents of these statements when they succeed, while no
-- other client writes; of one that fails, nothing is supposed.
use take.Prelude.{
  ◌≡◌, ◌↔◌, ℕ, Bool, true, false, Option, none, some, List, [], ◌∷◌, ◌++◌, Text, codes, ℤ,
}
use take.Strings.{join}
use take.Backend.Clock.{Time}
use take.Api.Todos.{Todo, row_of, set_row, remove_row}

-- A value of database/sql for a `?`.
pub data Arg : Type 0 where
  text_arg : Text → Arg
  bool_arg : Bool → Arg
  int_arg : ℤ → Arg

pub record Statement : Type 0 where
  pub text : Text
  pub args : List Arg

-- The rows one after the other, `none` for one that Scan refuses, whether Err is nil at their end, and
-- whether Close is where it is called before.
pub record Rows : Type 0 where
  pub rows : List (Option Todo)
  pub complete : Bool
  pub is_closed : Bool

pub record ExecResult : Type 0 where
  pub last_insert_id : Option ℤ
  pub rows_affected : Option ℕ

abbrev pub select_all : Statement
select_all = record {
  text = codes "SELECT id, title, done, created FROM todos ORDER BY id";
  args = [];
}

abbrev pub select_one : ℤ → Statement
select_one id = record {
  text = codes "SELECT id, title, done, created FROM todos WHERE id = ?";
  args = int_arg id ∷ [];
}

abbrev pub insert_todo : Text → Statement
insert_todo text = record {
  text = codes "INSERT INTO todos (title) VALUES (?)";
  args = text_arg text ∷ [];
}

abbrev pub sets : Option Text → Option Bool → List Text
sets none none = []
sets none (some _) = codes "done = ?" ∷ []
sets (some _) none = codes "title = ?" ∷ []
sets (some _) (some _) = codes "title = ?" ∷ codes "done = ?" ∷ []

abbrev pub set_args : Option Text → Option Bool → ℤ → List Arg
set_args none none id = int_arg id ∷ []
set_args none (some d) id = bool_arg d ∷ int_arg id ∷ []
set_args (some t) none id = text_arg t ∷ int_arg id ∷ []
set_args (some t) (some d) id = text_arg t ∷ bool_arg d ∷ int_arg id ∷ []

unfoldable pub update_todo : Option Text → Option Bool → ℤ → Statement
update_todo text is_done id = record {
  text =
      codes "UPDATE todos SET " ++ join (codes ", ") (sets text is_done) ++ codes " WHERE id = ?";
  args = set_args text is_done id;
}

abbrev pub delete_todo : ℤ → Statement
delete_todo id = record { text = codes "DELETE FROM todos WHERE id = ?"; args = int_arg id ∷ [] }

pub record Sql : Type 1 where
  pub Db : Type 0
  pub query : Statement → Db → Option Rows × Db
  pub exec : Statement → Db → Option ExecResult × Db
  pub ping : Db → Bool × Db
  -- The table as it is stored; the handlers do not use it.
  pub table : Db → List Todo

-- The loop of Scan, to the first row that it refuses.
unfoldable pub scan_all : List (Option Todo) → Option (List Todo)
scan_all [] = some []
scan_all (none ∷ _) = none
scan_all (some t ∷ more) = elim (scan_all more) [ none ↦ none | some ts ↦ some (t ∷ ts) ]

pub record IsMySql (sql : Sql) : Type 0 where
  pub ping-table : (db : sql.Db) → sql.table (sql.ping db).1 ≡ sql.table db
  pub select_all-table : (db : sql.Db) → sql.table (sql.query select_all db).1 ≡ sql.table db
  pub select_one-table :
      (id : ℤ) (db : sql.Db) → sql.table (sql.query (select_one id) db).1 ≡ sql.table db
  pub select_all-rows :
      (r : Rows) (ts : List Todo) (db db' : sql.Db)
      → sql.query select_all db ≡ (some r, db')
      → r.complete ≡ true
      → scan_all r.rows ≡ some ts
      → ts ≡ sql.table db
  pub select_one-none :
      (id : ℤ) (c : Bool) (db db' : sql.Db)
      → sql.query (select_one id) db
        ≡ (some (record { rows = []; complete = true; is_closed = c }), db')
      → row_of id (sql.table db) ≡ none
  pub select_one-some :
      (id : ℤ) (t : Todo) (more : List (Option Todo)) (b c : Bool) (db db' : sql.Db)
      → sql.query (select_one id) db
        ≡ (some (record { rows = some t ∷ more; complete = b; is_closed = c }), db')
      → row_of id (sql.table db) ≡ some t
  pub insert_todo-table :
      (text : Text) (r : ExecResult) (id : ℤ) (db db' : sql.Db)
      → sql.exec (insert_todo text) db ≡ (some r, db')
      → r.last_insert_id ≡ some id
      → (row_of id (sql.table db) ≡ none)
        × (created : Time) × (sql.table db'
            ≡ sql.table db
              ++ (record { id = id; text = text; is_done = false; created = created }) ∷ [])
  pub update_todo-table :
      (text : Option Text) (is_done : Option Bool) (id : ℤ) (r : ExecResult) (db db' : sql.Db)
      → sql.exec (update_todo text is_done id) db ≡ (some r, db')
      → sql.table db' ≡ set_row text is_done id (sql.table db)
  pub delete_todo-table :
      (id : ℤ) (r : ExecResult) (db db' : sql.Db)
      → sql.exec (delete_todo id) db ≡ (some r, db')
      → sql.table db' ≡ remove_row id (sql.table db)
  pub delete_todo-affected :
      (id : ℤ) (r : ExecResult) (n : ℕ) (db db' : sql.Db)
      → sql.exec (delete_todo id) db ≡ (some r, db')
      → r.rows_affected ≡ some n
      → (n ≡ 0) ↔ (row_of id (sql.table db) ≡ none)
