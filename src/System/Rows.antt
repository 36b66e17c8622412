-- ===== src/System/Rows.antt =====
-- The rows of the API as keda/mcp-server reads them.
use take.Prelude.{◌≡◌, refl, some, List, [], ◌∷◌, map, All, ℤ, pos, negsuc, arith}
use take.Json.{int, read_int, read_struct, names, read_text, read_fields}
use take.Backend.Clock.{now_rfc3339}
use take.Api.Todos.{Todo, encode_row, encode_rows}
use take.Keda.Tools.{ApiTodo, todo_member, decode_todo, decode_items}
use take.Keda.Steps.{IsInt64}

-- apiTodo with the fields of a row.
abbrev pub api_todo : Todo → ApiTodo
api_todo t = record {
  id = t.id;
  text = t.text;
  is_done = t.is_done;
  created = now_rfc3339 t.created;
}

read_int-IsInt64 : (n old : ℤ) → IsInt64 n → read_int (int n) old ≡ some n
unfolding read_int
read_int-IsInt64 (pos n) old h = ground (arith, h.0)
read_int-IsInt64 (negsuc n) old h = ground (arith, h.1)

decode_todo-encode_row : (t : Todo) → IsInt64 t.id → decode_todo (encode_row t) ≡ some (api_todo t)
unfolding decode_todo encode_row read_struct names read_text
decode_todo-encode_row t h =
    rw (read_int-IsInt64 t.id (pos 0) h, decode_todo, read_struct, read_fields, todo_member) refl

pub decode_items-encode_rows :
    (ts : List Todo)
    → All (λ t. IsInt64 t.id) ts
    → decode_items (encode_rows ts) ≡ some (map api_todo ts)
unfolding decode_items
decode_items-encode_rows [] h = refl
decode_items-encode_rows (t ∷ ts) h =
    rw (decode_todo-encode_row t (h.0), decode_items-encode_rows ts (h.1), decode_items) refl
