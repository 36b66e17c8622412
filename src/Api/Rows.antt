-- ===== src/Api/Rows.antt =====
-- Lemmas on the table of todos, and on what is read of it by byID.
use take.Prelude.{
  ◌≡◌, refl, sym, ap, ◌∙◌, Bool, true, false, not, Option, none, some, List, [], ◌∷◌, ◌++◌, Text,
  keep, if◌then◌else◌, ℤ, arith,
}
use take.Api.Todos.{Todo, has_id, row_of, set_row, remove_row}
use take.Api.Sql.{Rows, select_one, Sql, IsMySql}
use take.Api.Handlers.{Found, found, no_rows, broken, first_row, row_found, by_id}

has_id_refl : (t : Todo) → has_id t.id t ≡ true
has_id_refl t = ground arith

pub row_of-append :
    (t : Todo) (ts : List Todo) → row_of t.id ts ≡ none → row_of t.id (ts ++ t ∷ []) ≡ some t
unfolding row_of
row_of-append t [] h = rw (has_id_refl t) refl
row_of-append t (u ∷ ts) h = step (has_id t.id u) h (row_of-append t ts)
  where
    step :
        (b : Bool)
        → (if b then some u else row_of t.id ts) ≡ none
        → (row_of t.id ts ≡ none → row_of t.id (ts ++ t ∷ []) ≡ some t)
        → (if b then some u else row_of t.id (ts ++ t ∷ [])) ≡ some t
    step true h' rest = cc
    step false h' rest = rest h'

pub set_row-none :
    (text : Option Text) (is_done : Option Bool) (id : ℤ) (ts : List Todo)
    → row_of id ts ≡ none
    → set_row text is_done id ts ≡ ts
unfolding row_of set_row
set_row-none text is_done id [] h = refl
set_row-none text is_done id (u ∷ ts) h = step (has_id id u) _ h (set_row-none text is_done id ts)
  where
    step :
        (b : Bool) (v : Todo)
        → (if b then some u else row_of id ts) ≡ none
        → (row_of id ts ≡ none → set_row text is_done id ts ≡ ts)
        → (if b then v ∷ set_row text is_done id ts else u ∷ set_row text is_done id ts) ≡ u ∷ ts
    step true v h' rest = cc
    step false v h' rest = ap (λ l. u ∷ l) (rest h')

-- A row that is not there after an UPDATE was not there before.
pub row_of-set_row :
    (text : Option Text) (is_done : Option Bool) (id : ℤ) (ts : List Todo)
    → row_of id (set_row text is_done id ts) ≡ none
    → row_of id ts ≡ none
unfolding row_of set_row
row_of-set_row text is_done id [] h = refl
row_of-set_row text is_done id (u ∷ ts) h =
    step (has_id id u) _ refl refl h (row_of-set_row text is_done id ts)
  where
    step :
        (b : Bool) (v : Todo)
        → has_id id u ≡ b
        → has_id id v ≡ has_id id u
        → row_of id (if b then v ∷ set_row text is_done id ts else u ∷ set_row text is_done id ts)
          ≡ none
        → (row_of id (set_row text is_done id ts) ≡ none → row_of id ts ≡ none)
        → (if b then some u else row_of id ts) ≡ none
    step true v e k h' rest = absurd (no (sym (rw (k ∙ e) refl) ∙ h'))
      where
        no : some v ≡ none → ⊥
        no q = cc
    step false v e k h' rest = rest (sym (rw e refl) ∙ h')

pub remove_row-none : (id : ℤ) (ts : List Todo) → row_of id ts ≡ none → remove_row id ts ≡ ts
unfolding row_of remove_row keep
remove_row-none id [] h = refl
remove_row-none id (u ∷ ts) h = step (has_id id u) h (remove_row-none id ts)
  where
    step :
        (b : Bool)
        → (if b then some u else row_of id ts) ≡ none
        → (row_of id ts ≡ none → keep (λ t. not (has_id id t)) ts ≡ ts)
        → (if not b then u ∷ keep (λ t. not (has_id id t)) ts else keep (λ t. not (has_id id t)) ts)
          ≡ u ∷ ts
    step true h' rest = cc
    step false h' rest = ap (λ l. u ∷ l) (rest h')

-- What a result of byID says of the row.
abbrev pub IsRow : Found → Option Todo → Type 0
IsRow (found t) o = o ≡ some t
IsRow no_rows o = o ≡ none
IsRow broken o = Unit

module _ (sql : Sql) (laws : IsMySql sql) where
  pub by_id-IsRow :
      (id : ℤ) (db : sql.Db)
      → IsRow (by_id sql id db).0 (row_of id (sql.table db))
        × (sql.table (by_id sql id db).1 ≡ sql.table db)
  unfolding by_id row_found first_row
  by_id-IsRow id db = read (sql.query (select_one id) db) refl (laws.select_one-table id db)
    where
      read :
          (o : Option Rows × sql.Db)
          → sql.query (select_one id) db ≡ o
          → sql.table (o.1) ≡ sql.table db
          → IsRow (row_found sql o).0 (row_of id (sql.table db))
            × (sql.table (row_found sql o).1 ≡ sql.table db)
      read (none, db') e k = (tt, k)
      read (some r, db') e k = (first r.rows r.complete r.is_closed e, k)
        where
          first :
              (rs : List (Option Todo)) (b c : Bool)
              → sql.query (select_one id) db
                ≡ (some (record { rows = rs; complete = b; is_closed = c }), db')
              → IsRow (first_row rs b c) (row_of id (sql.table db))
          first [] true c h = laws.select_one-none id c db db' h
          first [] false c h = tt
          first (none ∷ _) b c h = tt
          first (some t ∷ more) b true h = laws.select_one-some id t more b true db db' h
          first (some t ∷ more) b false h = tt
