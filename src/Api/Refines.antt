-- ===== src/Api/Refines.antt =====
-- The handlers of api/main.go keep the promises of Api/Spec, whenever they do not answer 502.
use take.Prelude.{
  ◌≡◌, ◌≢◌, inl, inr, refl, sym, ap, ◌∙◌, Bool, true, false, Option, none, some, List, [], ◌∷◌,
  ◌++◌, Text, codes, text_eq, text_eq_refl, ltb, length, ltb_ℤ, if◌then◌else◌, ℤ, pos, arith,
}
use mathlib.Core.Option.{some-injective}
use take.Json.{Json, arr}
use take.Strings.{trim_space}
use take.Numbers.{atoi}
use take.Http.{Response, Decoded, value, refused, write_json, http_error}
use take.Api.Todos.{Todo, encode_row, encode_rows, row_of}
use take.Api.Sql.{Rows, ExecResult, Sql, IsMySql, select_all, insert_todo, scan_all}
use take.Api.Requests.{
  CreateBody, create_member, decode, path_id, check_text, clean_text, Endpoint, health, list_all,
  create_one,
}
use take.Api.Handlers.{
  Found, found, no_rows, broken, by_id, listed_rows, pinged, handle_health, listed,
  handle_list_todos, show_created, with_new_id, inserted, create_cleaned, create_read,
  handle_create_todo,
}
use take.Api.Rows.{row_of-append, IsRow, by_id-IsRow}
use take.Api.Spec.{
  IsTitle, Does, ReadsCreate, did_ping, did_refuse, bad_new_body, bad_new_title, did_list,
  did_create,
}

text_eq-ne : (s : Text) → text_eq s [] ≡ false → s ≢ []
text_eq-ne s h e = absurd (false_true (sym h ∙ ap (λ t. text_eq t []) e ∙ text_eq_refl []))
  where
    false_true : false ≡ true → ⊥
    false_true k = cc

text_eq-nil : (s : Text) → text_eq s [] ≡ true → s ≡ []
unfolding text_eq
text_eq-nil [] h = refl
text_eq-nil (c ∷ s) h = cc

-- What clean_text makes of a text.
abbrev pub IsChecked : Text → Decoded Text → Type 0
IsChecked s (value t) = (t ≡ s) × IsTitle t
IsChecked s (refused r) = (r.status ≡ 400) × ¬ IsTitle s

pub check_text-IsChecked : (s : Text) → IsChecked s (check_text s)
unfolding check_text
check_text-IsChecked s = step (text_eq s []) (ltb 500 (length s)) refl refl
  where
    step :
        (a b : Bool)
        → text_eq s [] ≡ a
        → ltb 500 (length s) ≡ b
        → IsChecked s (
            if a
            then refused (http_error (codes "text is required") 400)
            else if b
            then refused (http_error (codes "text is too long") 400)
            else value s)
    step true b e f = (refl, λ i. absurd (i.filled (text_eq-nil s e)))
    step false true e f = (refl, λ i. let k = i.short in ground arith)
    step false false e f = (refl, record { filled = text_eq-ne s e; short = ground arith })

abbrev pub IsRefusal : {A : Type 0} → Decoded A → Type 0
IsRefusal (value _) = Unit
IsRefusal (refused r) = r.status ≡ 400

pub path_id-IsRefusal : (s : Text) → IsRefusal (path_id s)
unfolding path_id
path_id-IsRefusal s = step (atoi s)
  where
    positive :
        (b : Bool) (n : ℤ)
        → IsRefusal (if b then value n else refused (http_error (codes "invalid id") 400))
    positive true n = tt
    positive false n = refl

    step :
        (o : Option ℤ)
        → IsRefusal (elim o [
          | none ↦ refused (http_error (codes "invalid id") 400)
          | some id ↦
              if ltb_ℤ (pos 0) id then value id else refused (http_error (codes "invalid id") 400)
        ])
    step none = refl
    step (some n) = positive _ n

module _ (first_value : Bool → Text → Option Json) (sql : Sql) (laws : IsMySql sql) where
  open sql use {Db, table}

  -- A response other than 502 is one of those promised.
  abbrev pub Meets : Endpoint → Option Text → Db → Response × Db → Type 0
  Meets e body db x = x.0.status ≢ 502 → Does first_value e body (table db) (x.0) (table (x.1))

  pub health-Meets : (body : Option Text) (db : Db) → Meets health body db (handle_health sql db)
  unfolding handle_health pinged
  health-Meets body db n = step (sql.ping db) (laws.ping-table db)
    where
      step :
          (o : Bool × Db)
          → table (o.1) ≡ table db
          → Does first_value health body (table db) (pinged sql o).0 (table (pinged sql o).1)
      step (true, db') k = did_ping refl (inl refl) k
      step (false, db') k = did_ping refl (inr refl) k

  pub list_all-Meets :
      (body : Option Text) (db : Db) → Meets list_all body db (handle_list_todos sql db)
  unfolding handle_list_todos listed listed_rows
  list_all-Meets body db = step (sql.query select_all db) refl (laws.select_all-table db)
    where
      rows :
          (r : Rows) (db' : Db) (o : Option (List Todo)) (b : Bool)
          → sql.query select_all db ≡ (some r, db')
          → table db' ≡ table db
          → scan_all r.rows ≡ o
          → r.complete ≡ b
          → Meets list_all body db (listed_rows o b, db')
      rows r db' none b e k s c n = absurd (n refl)
      rows r db' (some ts) false e k s c n = absurd (n refl)
      rows r db' (some ts) true e k s c n =
          did_list refl
            (ap (λ l. write_json 200 (arr (encode_rows l)))
              (laws.select_all-rows r ts db db' e c s))
            k

      step :
          (o : Option Rows × Db)
          → sql.query select_all db ≡ o
          → table (o.1) ≡ table db
          → Meets list_all body db (listed sql o)
      step (none, db') e k n = absurd (n refl)
      step (some r, db') e k n = rows r db' (scan_all r.rows) r.complete e k refl refl n

  module _ (body : Option Text) (db : Db) where
    show_created-Meets :
        (b : CreateBody) (t : Todo) (db₁ : Db) (f : Found × Db)
        → ReadsCreate first_value body b
        → t.text ≡ trim_space b.text
        → IsTitle t.text
        → t.is_done ≡ false
        → row_of t.id (table db) ≡ none
        → table db₁ ≡ table db ++ t ∷ []
        → IsRow (f.0) (row_of t.id (table db₁))
        → table (f.1) ≡ table db₁
        → Meets create_one body db (show_created sql f)
    unfolding show_created
    show_created-Meets b t db₁ (no_rows, db₂) h x i d new e is k n = absurd (n refl)
    show_created-Meets b t db₁ (broken, db₂) h x i d new e is k n = absurd (n refl)
    show_created-Meets b t db₁ (found u, db₂) h x i d new e is k n =
        did_create b t refl h x i d new (ap (λ y. write_json 201 (encode_row y)) same) (k ∙ e)
      where
        same : u ≡ t
        same = some-injective _ _ (sym is ∙ ap (row_of t.id) e ∙ row_of-append t (table db) new)

    inserted-Meets :
        (b : CreateBody) (text : Text) (o : Option ExecResult × Db)
        → ReadsCreate first_value body b
        → text ≡ trim_space b.text
        → IsTitle text
        → sql.exec (insert_todo text) db ≡ o
        → Meets create_one body db (inserted sql o)
    unfolding inserted with_new_id
    inserted-Meets b text (none, db₁) h x i e n = absurd (n refl)
    inserted-Meets b text (some r, db₁) h x i e n = numbered r.last_insert_id refl n
      where
        numbered :
            (o : Option ℤ) → r.last_insert_id ≡ o → Meets create_one body db (with_new_id sql o db₁)
        numbered none g n' = absurd (n' refl)
        numbered (some id) g n' =
            let (new, time, grown) = laws.insert_todo-table text r id db db₁ e g in
            let (is, k) = by_id-IsRow sql laws id db₁ in
            show_created-Meets b (record { id = id; text = text; is_done = false; created = time })
              db₁ (by_id sql id db₁) h x i refl new grown is k n'

    pub create-Meets : Meets create_one body db (handle_create_todo sql first_value body db)
    unfolding handle_create_todo create_read create_cleaned clean_text
    create-Meets = read _ refl
      where
        cleaned :
            (b : CreateBody) (d : Decoded Text)
            → ReadsCreate first_value body b
            → IsChecked (trim_space b.text) d
            → Meets create_one body db (create_cleaned sql d db)
        cleaned b (refused r) h (c, i) n = did_refuse (bad_new_title b refl h i) c refl
        cleaned b (value text) h (x, i) n = inserted-Meets b text _ h x i refl n

        read :
            (o : Option CreateBody)
            → decode first_value create_member body (record { text = [] }) ≡ o
            → Meets create_one body db (create_read sql o db)
        read none h n = did_refuse (bad_new_body refl h) refl refl
        read (some b) h n = cleaned b _ h (check_text-IsChecked (trim_space b.text)) n
