-- ===== src/Keda/Tools.antt =====
-- keda/mcp-server/tools.go: the five tools. `float_int` is int64 of the float64 that a JSON number
-- is decoded to, `marshal` json.Marshal, `decode_error` the text of an error for a document of
-- another shape.
use take.Prelude.{
  ℕ, Bool, true, false, not, ◌||◌, ◌&&◌, Option, none, some, List, [], ◌∷◌, ◌++◌, map, Text, codes,
  text_eq, ltb_ℤ, ◌==◌, if◌then◌else◌, ℤ, pos, Entries, lookup, sort_slice, decimal,
}
use take.Json.{
  Json, null, bool, int, real, str, arr, obj, Items, nil, cons, Fields, end, field, names,
  read_text, read_bool, read_int, read_struct,
}
use take.Numbers.{format_int, atoi}
use take.Keda.World.{Outcome, done, failed, Request, Answer, World}

pub record ApiTodo : Type 0 where
  pub id : ℤ
  pub text : Text
  pub is_done : Bool
  pub created : Text

pub record MergedTodo : Type 0 where
  pub id : ℤ
  pub text : Text
  pub is_done : Bool
  pub priority : ℤ

unfoldable pub todo_member : Text → Json → ApiTodo → Option ApiTodo
todo_member k v t =
    if names (codes "id") k
    then (elim (read_int v t.id) [ none ↦ none | some n ↦ some (record t { id = n }) ])
    else if names (codes "text") k
    then (elim (read_text v t.text) [ none ↦ none | some x ↦ some (record t { text = x }) ])
    else if names (codes "done") k
    then (elim (read_bool v t.is_done) [ none ↦ none | some b ↦ some (record t { is_done = b }) ])
    else if names (codes "created") k
    then (elim (read_text v t.created) [ none ↦ none | some x ↦ some (record t { created = x }) ])
    else some t

abbrev pub zero_todo : ApiTodo
zero_todo = record { id = pos 0; text = []; is_done = false; created = [] }

unfoldable pub decode_todo : Json → Option ApiTodo
unfolding todo_member
decode_todo j = read_struct todo_member j zero_todo

unfoldable pub decode_items : Items → Option (List ApiTodo)
unfolding decode_todo
decode_items nil = some []
decode_items (cons j rest) = elim (decode_todo j) [
  | none ↦ none
  | some t ↦ elim (decode_items rest) [ none ↦ none | some ts ↦ some (t ∷ ts) ]
]

-- Into a slice: `null` leaves it nil.
unfoldable pub decode_todos : Json → Option (List ApiTodo)
unfolding decode_items
decode_todos null = some []
decode_todos (arr items) = decode_items items
decode_todos _ = none

unfoldable pub encode_todo : MergedTodo → Json
encode_todo t = obj (
    field (codes "id") (int t.id) (
      field (codes "text") (str t.text)
        (field (codes "done") (bool t.is_done) (field (codes "priority") (int t.priority) end))))

abbrev pub encode_todos : List MergedTodo → Items
encode_todos [] = nil
encode_todos (t ∷ ts) = cons (encode_todo t) (encode_todos ts)

abbrev pub or_zero : Option ℤ → ℤ
or_zero none = pos 0
or_zero (some p) = p

-- A value of the hash where it is a number, else 0.
abbrev pub priority_in : Option Text → ℤ
priority_in none = pos 0
priority_in (some v) = or_zero (atoi v)

unfoldable pub priority_of : Entries Text → ℤ → ℤ
priority_of priorities id = priority_in (lookup (format_int id) priorities)

unfoldable pub with_priority : Entries Text → ApiTodo → MergedTodo
unfolding priority_of
with_priority priorities t = record {
  id = t.id;
  text = t.text;
  is_done = t.is_done;
  priority = priority_of priorities t.id;
}

-- Equality of two int64 values.
abbrev pub same_int : ℤ → ℤ → Bool
same_int a b = not (ltb_ℤ a b) && not (ltb_ℤ b a)

unfoldable pub more_urgent : MergedTodo → MergedTodo → Bool
more_urgent a b =
    if not (same_int a.priority b.priority) then ltb_ℤ b.priority a.priority else ltb_ℤ a.id b.id

-- The value of args[name], the last one of a repeated member.
unfoldable pub value_of : Text → Fields → Option Json → Option Json
value_of name end found = found
value_of name (field k v rest) found = value_of name rest (if text_eq k name then some v else found)

module _ (float_int : Json → ℤ) where
  unfoldable pub number : Text → Option Json → Outcome ℤ
  number name none = failed (codes "'" ++ name ++ codes "' is required")
  number name (some (int n)) = done (float_int (int n))
  number name (some (real n)) = done (float_int (real n))
  number name (some _) = failed (codes "'" ++ name ++ codes "' must be a number")

  unfoldable pub require_int_arg : Fields → Text → Outcome ℤ
  unfolding number
  require_int_arg args name = number name (value_of name args none)

abbrev text_of : Option Json → Text
text_of (some (str t)) = t
text_of _ = []

abbrev pub todo_path : ℤ → Text
todo_path id = codes "/api/todos/" ++ format_int id

module _ (w : World) where
  open w use {State, send, hget_all, hset, hdel}

  -- The steps of a tool: a step that fails ends it with its error, `context` before it.
  unfoldable pub and_then :
      {A B : Type 0}
      → Text
      → Outcome A × State
      → (A → State → Outcome B × State)
      → Outcome B × State
  and_then context (failed e, s) next = (failed (context ++ e), s)
  and_then context (done a, s) next = next a s

  -- A request whose answer must have the status.
  unfoldable pub expect : ℕ → Answer → State → Outcome Answer × State
  expect status r s =
      if r.status == status
      then (done r, s)
      else (failed (codes "api returned " ++ decimal r.status ++ codes ": " ++ r.text), s)

  unfoldable pub call_api : ℕ → Request → State → Outcome Answer × State
  unfolding and_then expect
  call_api status r s = and_then (codes "calling api: ") (send r s) (expect status)

  unfoldable pub merge_with_priority : List ApiTodo → State → Outcome (List MergedTodo) × State
  unfolding and_then more_urgent with_priority
  merge_with_priority todos s =
      and_then (codes "reading priorities: ") (hget_all s) (λ priorities s'.
        (done (sort_slice more_urgent (map (with_priority priorities) todos)), s'))

  unfoldable pub patch_todo : ℤ → Json → State → Outcome (Unit {0}) × State
  unfolding call_api and_then
  patch_todo id fields s =
      and_then []
        (call_api 200 (record { method = codes "PATCH"; path = todo_path id; body = some fields })
          s)
        (λ _ s'. (done tt, s'))

  module _ (decode_error : Json → Text) where
    of_decoded : {A : Type 0} → Json → Option A → Outcome A
    of_decoded j none = failed (codes "decoding api response: " ++ decode_error j)
    of_decoded j (some a) = done a

    of_document : {A : Type 0} → (Json → Option A) → Outcome Json → Outcome A
    of_document decode (failed e) = failed (codes "decoding api response: " ++ e)
    of_document decode (done j) = of_decoded j (decode j)

    -- json.NewDecoder(resp.Body).Decode
    unfoldable pub decoded : {A : Type 0} → (Json → Option A) → Answer → State → Outcome A × State
    unfolding of_document of_decoded
    decoded decode r s = (of_document decode r.document, s)

    unfoldable pub fetch_todos : State → Outcome (List ApiTodo) × State
    unfolding call_api and_then decoded decode_todos
    fetch_todos s =
        and_then []
          (call_api 200 (record { method = codes "GET"; path = codes "/api/todos"; body = none }) s)
          (decoded decode_todos)

    module _ (marshal : Json → Text) where
      unfoldable pub run_list_todos : State → Outcome Text × State
      unfolding fetch_todos merge_with_priority and_then
      run_list_todos s = and_then [] (fetch_todos s) (λ todos s₁.
          and_then [] (merge_with_priority todos s₁)
            (λ merged s₂. (done (marshal (arr (encode_todos merged))), s₂)))

      unfoldable pub add_text : Text → State → Outcome Text × State
      unfolding call_api and_then decoded decode_todo encode_todo
      add_text text s =
          if text_eq text []
          then (failed (codes "add_todo: 'text' is required"), s)
          else and_then []
              (call_api 201
                (record {
                  method = codes "POST";
                  path = codes "/api/todos";
                  body = some (obj (field (codes "text") (str text) end));
                })
                s)
              (λ r s₁. and_then [] (decoded decode_todo r s₁) (λ t s₂. (
                done (
                    marshal (
                      encode_todo (record {
                        id = t.id;
                        text = t.text;
                        is_done = t.is_done;
                        priority = pos 0;
                      }))),
                s₂,
              )))

      unfoldable pub run_add_todo : Fields → State → Outcome Text × State
      unfolding add_text
      run_add_todo args s = add_text (text_of (value_of (codes "text") args none)) s

  module _ (float_int : Json → ℤ) where
    -- An argument's error ends a tool before it does anything.
    unfoldable pub with_arg :
        Fields → Text → State → (ℤ → Outcome Text × State) → Outcome Text × State
    unfolding and_then
    with_arg args name s next = and_then [] (require_int_arg float_int args name, s) (λ n _. next n)

    unfoldable pub set_checked : ℤ → ℤ → State → Outcome Text × State
    set_checked id priority s =
        if ltb_ℤ priority (pos 0) || ltb_ℤ (pos 100) priority
        then (
          failed (
              codes "set_priority: 'priority' must be between 0 and 100, got "
              ++ format_int priority),
          s,
        )
        else and_then (codes "storing priority: ") (hset (format_int id) (format_int priority) s)
            (λ _ s'. (
              done (
                  codes "todo "
                  ++ format_int id
                  ++ codes " priority set to "
                  ++ format_int priority),
              s',
            ))

    unfoldable pub run_set_priority : Fields → State → Outcome Text × State
    unfolding with_arg set_checked and_then
    run_set_priority args s =
        with_arg args (codes "id") s
          (λ id. with_arg args (codes "priority") s (λ priority. set_checked id priority s))

    unfoldable pub run_complete_todo : Fields → State → Outcome Text × State
    unfolding with_arg patch_todo and_then
    run_complete_todo args s = with_arg args (codes "id") s (λ id.
        and_then [] (patch_todo id (obj (field (codes "done") (bool true) end)) s)
          (λ _ s'. (done (codes "todo " ++ format_int id ++ codes " marked done"), s')))

    unfoldable pub delete_one : ℤ → State → Outcome Text × State
    delete_one id s =
        and_then []
          (call_api 204 (record { method = codes "DELETE"; path = todo_path id; body = none }) s)
          (λ _ s₁.
            and_then (codes "todo deleted but clearing priority failed: ") (hdel (format_int id) s₁)
              (λ _ s₂. (done (codes "todo " ++ format_int id ++ codes " deleted"), s₂)))

    unfoldable pub run_delete_todo : Fields → State → Outcome Text × State
    unfolding with_arg delete_one call_api and_then
    run_delete_todo args s = with_arg args (codes "id") s (λ id. delete_one id s)
