-- ===== src/Api/Memory.antt =====
-- A database that answers the statements of api/main.go from a list of rows: the laws can be met.
use take.Prelude.{
  ℕ, suc, ◌+◌, ◌≤◌, ◌≡◌, ◌↔◌, refl, sym, ap, subst, ◌∙◌, Bool, true, false, Option, none, some,
  List, [], ◌∷◌, ◌++◌, Text, codes, text_eq, pos_part, if◌then◌else◌, ℤ, pos, arith,
}
use mathlib.Core.Option.{some-injective}
use take.Strings.{join}
use take.Backend.Clock.{Time}
use take.Api.Todos.{Todo, has_id, row_of, set_row, remove_row}
use take.Api.Sql.{
  Arg, text_arg, bool_arg, int_arg, Rows, ExecResult, scan_all, update_todo, delete_todo, Sql,
  IsMySql,
}
use take.Api.Up.{IsUp}

-- A number from which on no id is taken.
abbrev bound : List Todo → ℕ
bound [] = 0
bound (t ∷ ts) = suc (pos_part t.id) + bound ts

row_of-fresh : (k : ℕ) (ts : List Todo) → bound ts ≤ k → row_of (pos k) ts ≡ none
unfolding row_of
row_of-fresh k [] h = refl
row_of-fresh k (t ∷ ts) h = step (has_id (pos k) t) other (row_of-fresh k ts (omega (arith, h)))
  where
    other : has_id (pos k) t ≡ false
    other = ground arith

    step :
        (b : Bool)
        → b ≡ false
        → row_of (pos k) ts ≡ none
        → (if b then some t else row_of (pos k) ts) ≡ none
    step true e r = cc
    step false e r = r

abbrev epoch : Time
epoch = record { seconds = 1753272000; nanos = 0 }

abbrev new_row : Text → List Todo → Todo
new_row text ts = record { id = pos (bound ts); text = text; is_done = false; created = epoch }

abbrev changed : ℕ → Option ExecResult
changed n = some (record { last_insert_id = none; rows_affected = some n })

abbrev count : Option Todo → ℕ
count none = 0
count (some _) = 1

abbrev run_exec : Text → List Arg → List Todo → Option ExecResult × List Todo
run_exec s (text_arg t ∷ []) ts = (
  some (record { last_insert_id = some (pos (bound ts)); rows_affected = some 1 }),
  ts ++ new_row t ts ∷ [],
)
run_exec s (int_arg id ∷ []) ts =
    if text_eq s (codes "DELETE FROM todos WHERE id = ?")
    then (changed (count (row_of id ts)), remove_row id ts)
    else (changed 0, set_row none none id ts)
run_exec s (text_arg t ∷ int_arg id ∷ []) ts = (changed 1, set_row (some t) none id ts)
run_exec s (bool_arg b ∷ int_arg id ∷ []) ts = (changed 1, set_row none (some b) id ts)
run_exec s (text_arg t ∷ bool_arg b ∷ int_arg id ∷ []) ts =
    (changed 1, set_row (some t) (some b) id ts)
run_exec s _ ts = (none, ts)

abbrev all_found : List Todo → List (Option Todo)
all_found [] = []
all_found (t ∷ ts) = some t ∷ all_found ts

abbrev one_found : Option Todo → List (Option Todo)
one_found none = []
one_found (some t) = some t ∷ []

abbrev run_query : List Arg → List Todo → Option Rows
run_query [] ts = some (record { rows = all_found ts; complete = true; is_closed = true })
run_query (int_arg id ∷ []) ts =
    some (record { rows = one_found (row_of id ts); complete = true; is_closed = true })
run_query _ ts = none

abbrev pub memory_sql : Sql
memory_sql = record {
  Db = List Todo;
  query = λ st ts. (run_query st.args ts, ts);
  exec = λ st ts. run_exec st.text st.args ts;
  ping = λ ts. (true, ts);
  table = λ ts. ts;
}

scan_all-all_found : (ts : List Todo) → scan_all (all_found ts) ≡ some ts
unfolding scan_all
scan_all-all_found [] = refl
scan_all-all_found (t ∷ ts) = rw (scan_all-all_found ts) refl

abbrev rows_in : Option Rows → List (Option Todo)
rows_in none = []
rows_in (some r) = r.rows

one_found-none : (o : Option Todo) → one_found o ≡ [] → o ≡ none
one_found-none none h = refl
one_found-none (some t) h = cc

one_found-some :
    (o : Option Todo) (t : Todo) (l : List (Option Todo)) → one_found o ≡ some t ∷ l → o ≡ some t
one_found-some none t l h = cc
one_found-some (some u) t l h = ap first h
  where
    first : List (Option Todo) → Option Todo
    first [] = none
    first (x ∷ xs) = x

abbrev id_in : Option ExecResult → Option ℤ
id_in none = none
id_in (some r) = r.last_insert_id

abbrev rows_affected_in : Option ExecResult → Option ℕ
rows_affected_in none = none
rows_affected_in (some r) = r.rows_affected

updates :
    (t : Option Text) (d : Option Bool) (id : ℤ) (ts : List Todo)
    → (memory_sql.exec (update_todo t d id) ts).1 ≡ set_row t d id ts
unfolding update_todo text_eq join
updates none none id ts = refl
updates none (some d) id ts = refl
updates (some t) none id ts = refl
updates (some t) (some d) id ts = refl

counts : (n : ℕ) (o : Option Todo) → count o ≡ n → (n ≡ 0) ↔ (o ≡ none)
counts n none e = (λ h. refl, λ h. sym e)
counts n (some t) e = (λ h. absurd (omega (arith, e, h)), λ h. cc)

deletes :
    (id : ℤ) (ts : List Todo)
    → memory_sql.exec (delete_todo id) ts ≡ (changed (count (row_of id ts)), remove_row id ts)
unfolding text_eq
deletes id ts = refl

pub memory_sql-IsMySql : IsMySql memory_sql
unfolding text_eq
memory_sql-IsMySql = record {
  ping-table = λ ts. refl;
  select_all-table = λ ts. refl;
  select_one-table = λ id ts. refl;
  select_all-rows = λ r ts db db' e c s.
      some-injective _ _
        (sym s ∙ ap (λ x. scan_all (rows_in (x.0))) (sym e) ∙ scan_all-all_found db);
  select_one-none = λ id c db db' e. one_found-none _ (ap (λ x. rows_in (x.0)) e);
  select_one-some = λ id t more b c db db' e. one_found-some _ t more (ap (λ x. rows_in (x.0)) e);
  insert_todo-table = λ text r id db db' e q.
      let same = some-injective _ _ (ap (λ x. id_in (x.0)) e ∙ q) in
      (
        subst (λ i. row_of i db ≡ none) same (row_of-fresh (bound db) db (omega arith)),
        epoch,
        ap (λ x. x.1) (sym e)
            ∙ ap
                (λ i. db ++ (record { id = i; text = text; is_done = false; created = epoch }) ∷ [])
                same,
      );
  update_todo-table = λ t d id r db db' e. ap (λ x. x.1) (sym e) ∙ updates t d id db;
  delete_todo-table = λ id r db db' e. ap (λ x. x.1) (sym e ∙ deletes id db);
  delete_todo-affected = λ id r n db db' e q.
      counts n (row_of id db)
        (some-injective _ _ (ap (λ x. rows_affected_in (x.0)) (sym (deletes id db) ∙ e) ∙ q));
}

scan_one : (o : Option Todo) → (ts : List Todo) × (scan_all (one_found o) ≡ some ts)
unfolding scan_all
scan_one none = ([], refl)
scan_one (some t) = (t ∷ [], refl)

update_answers :
    (t : Option Text) (d : Option Bool) (id : ℤ) (ts : List Todo)
    → (r : ExecResult) × ((memory_sql.exec (update_todo t d id) ts).0 ≡ some r)
unfolding update_todo text_eq join
update_answers none none id ts = (_, refl)
update_answers none (some d) id ts = (_, refl)
update_answers (some t) none id ts = (_, refl)
update_answers (some t) (some d) id ts = (_, refl)

pub memory_sql-IsUp : IsUp memory_sql
unfolding text_eq
memory_sql-IsUp = record {
  select_all-answers = λ db. (_, db, refl, refl, scan_all-all_found db);
  select_one-answers = λ id db. let r = scan_one (row_of id db) in (_, r.0, refl, refl, refl, r.1);
  insert_todo-answers = λ text db h. (_, _, refl, refl);
  update_todo-answers = λ t d id db h. update_answers t d id db;
  delete_todo-answers = λ id db. (_, _, refl, refl);
}
