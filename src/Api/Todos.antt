-- ===== src/Api/Todos.antt =====
-- The todo of api/main.go with its JSON, and the table of todos as the schema of api/store.go
-- describes it: rows with distinct ids, in the order of the ids.
use take.Prelude.{
  Bool, not, ◌&&◌, Option, none, some, List, [], ◌∷◌, Text, codes, ltb_ℤ, if◌then◌else◌, ℤ, keep,
}
use take.Json.{Json, bool, int, str, obj, Items, nil, cons, end, field}
use take.Backend.Clock.{Time, now_rfc3339}

pub record Todo : Type 0 where
  pub id : ℤ
  pub text : Text
  pub is_done : Bool
  pub created : Time

-- time.Time writes itself in RFC 3339 with nanoseconds; the driver's times are in UTC.
unfoldable pub encode_row : Todo → Json
encode_row t = obj (
    field (codes "id") (int t.id) (
      field (codes "text") (str t.text) (
        field (codes "done") (bool t.is_done)
          (field (codes "created") (str (now_rfc3339 t.created)) end))))

abbrev pub encode_rows : List Todo → Items
encode_rows [] = nil
encode_rows (t ∷ ts) = cons (encode_row t) (encode_rows ts)

abbrev pub has_id : ℤ → Todo → Bool
has_id id t = not (ltb_ℤ t.id id) && not (ltb_ℤ id t.id)

-- SELECT … WHERE id = ?
unfoldable pub row_of : ℤ → List Todo → Option Todo
row_of id [] = none
row_of id (t ∷ ts) = let rest = row_of id ts in if has_id id t then some t else rest

abbrev pub or_old {ℓ} : {A : Type ℓ} → Option A → A → A
or_old none old = old
or_old (some new) old = new

-- UPDATE todos SET …, with the columns that are given
unfoldable pub set_row : Option Text → Option Bool → ℤ → List Todo → List Todo
set_row text is_done id [] = []
set_row text is_done id (t ∷ ts) =
    let rest = set_row text is_done id ts in
    if has_id id t
    then (record t { text = or_old text t.text; is_done = or_old is_done t.is_done }) ∷ rest
    else t ∷ rest

-- DELETE FROM todos
unfoldable pub remove_row : ℤ → List Todo → List Todo
remove_row id ts = keep (λ t. not (has_id id t)) ts
