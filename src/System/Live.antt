-- ===== src/System/Live.antt =====
-- From a change of the table to the browsers, through all three services.
use take.Prelude.{
  ◌≡◌, refl, ap, ◌∙◌, ℕ, Bool, true, Option, none, some, List, [], ◌∷◌, map, Pairwise, Pairwise-map,
  Text, codes, text_eq, All, IsSortedBy, sort_slice-perm, Entries, ℤ,
}
use mathlib.Core.List.{Perm}
use take.Json.{Json, bool, int, str, arr, obj, Items, nil, cons, field, end}
use take.Keda.World.{Outcome, done, World}
use take.Keda.Tools.{MergedTodo, more_urgent, with_priority, encode_todo, encode_todos}
use take.Keda.Merge.{comes_first, sort_slice-comes_first, HasPriority, priority_of-HasPriority}
use take.Keda.Steps.{IsInt64}
use take.Keda.Server.{run_tool}
use take.Api.Todos.{Todo, encode_rows}
use take.Api.Sql.{Rows, Sql, IsMySql, select_all, scan_all}
use take.Exchange.{encoded}
use take.Gateway.Hub.{Hub, Frame, broadcast}
use take.Gateway.Events.{todos_message, on_published}
use take.Gateway.Client.{call_body, call_tool, fetched}
use take.Gateway.Fetch.{reply_document, post_mcp, ran, call_tool-of}
use take.System.Over.{over_api}
use take.System.Rows.{api_todo}
use take.System.Listing.{todos_of, run_list_todos-over_api}

-- A row as the browsers see it.
pub record IsShown (priorities : Entries Text) (t : Todo) (m : MergedTodo) : Type 0 where
  pub same_id : m.id ≡ t.id
  pub same_text : m.text ≡ t.text
  pub same_done : m.is_done ≡ t.is_done
  pub prioritised : HasPriority priorities t.id m.priority

-- The JSON of a list of todos.
abbrev pub IsListing : List MergedTodo → Items → Type 0
IsListing [] items = items ≡ nil
IsListing (m ∷ ms) items =
    (rest : Items) × IsListing ms rest
    × (items
        ≡ cons
            (obj (
              field (codes "id") (int m.id) (
                field (codes "text") (str m.text) (
                  field (codes "done") (bool m.is_done)
                    (field (codes "priority") (int m.priority) end)))))
            rest)

-- The frame of a list to a connection of the hub.
pub record IsFrame (items : Items) (e : Text × ℕ) (f : Frame) : Type 0 where
  pub to : f.conn ≡ e.1
  pub carries :
      f.content
      ≡ obj (field (codes "todos") (arr items) (field (codes "type") (str (codes "todos")) end))

encode_todos-IsListing : (ms : List MergedTodo) → IsListing ms (encode_todos ms)
unfolding encode_todo
encode_todos-IsListing [] = refl
encode_todos-IsListing (m ∷ ms) = (encode_todos ms, encode_todos-IsListing ms, refl)

rows-IsShown :
    (priorities : Entries Text) (ts : List Todo)
    → Pairwise (IsShown priorities) ts (map (with_priority priorities) (map api_todo ts))
unfolding with_priority
rows-IsShown priorities [] = tt
rows-IsShown priorities (t ∷ ts) = (
  record {
    same_id = refl;
    same_text = refl;
    same_done = refl;
    prioritised = priority_of-HasPriority priorities t.id;
  },
  rows-IsShown priorities ts,
)

broadcast-IsFrame :
    (items : Items) (h : Hub) → Pairwise (IsFrame items) h (broadcast (todos_message (arr items)) h)
unfolding broadcast
broadcast-IsFrame items h =
    Pairwise-map (IsFrame items) _ (λ e. record { to = refl; carries = refl }) h

module _ (sql : Sql) (first_value : Bool → Text → Option Json) (marshal : Json → Text)
    (first_document : Text → Outcome Json) (redis : World) (float_int : Json → ℤ)
    (decode_error : Json → Text) (params_error : Option Json → Text)
    (parse : Text → Option Json) where
  -- callTool of list_todos by the gateway.
  abbrev pub list_todos : sql.Db → redis.State → Outcome Text
  list_todos db s =
      (call_tool decode_error none
        (post_mcp (over_api sql first_value marshal first_document redis) float_int decode_error
          marshal params_error parse first_document)
        (codes "list_todos") (db, s)).0

  ran_lem :
      (db db' : sql.Db) (s s' : redis.State) (r : Rows) (ts : List Todo) (priorities : Entries Text)
      → sql.query select_all db ≡ (some r, db')
      → r.complete ≡ true
      → scan_all r.rows ≡ some ts
      → All (λ t. IsInt64 t.id) ts
      → redis.hget_all s ≡ (done priorities, s')
      → first_document (encoded marshal (arr (encode_rows ts))) ≡ done (arr (encode_rows ts))
      → ran
          (over_api sql first_value marshal first_document redis)
          float_int
          decode_error
          marshal
          params_error
          parse
          first_document
          (codes "list_todos")
          (db, s)
        ≡ (done (marshal (arr (encode_todos (todos_of priorities ts)))), (db', s'))
  unfolding run_tool text_eq
  ran_lem db db' s s' r ts priorities q c e i h d =
      run_list_todos-over_api sql first_value marshal first_document redis decode_error db db' s s'
        r ts priorities q c e i d h

  list_todos_lem :
      (db db' : sql.Db) (s s' : redis.State) (r : Rows) (ts : List Todo) (priorities : Entries Text)
      → sql.query select_all db ≡ (some r, db')
      → r.complete ≡ true
      → scan_all r.rows ≡ some ts
      → All (λ t. IsInt64 t.id) ts
      → redis.hget_all s ≡ (done priorities, s')
      → parse (marshal (call_body (codes "list_todos"))) ≡ some (call_body (codes "list_todos"))
      → first_document (encoded marshal (arr (encode_rows ts))) ≡ done (arr (encode_rows ts))
      → (let text = marshal (arr (encode_todos (todos_of priorities ts))) in
          first_document (encoded marshal (reply_document (done text)))
          ≡ done (reply_document (done text)))
      → list_todos db s ≡ done (marshal (arr (encode_todos (todos_of priorities ts))))
  list_todos_lem db db' s s' r ts priorities q c e i h p d d' =
      ap (λ x. x.0)
        (call_tool-of (over_api sql first_value marshal first_document redis) float_int decode_error
          marshal params_error parse first_document (codes "list_todos") (db, s) (db', s') _
          (ran_lem db db' s s' r ts priorities q c e i h d) p d')

  -- Where the exchanges between the services arrive, over a database that keeps the documented
  -- behaviour of MySQL, when its rows are read to the end, their ids are int64 values, Redis
  -- answers with its priorities and the documents that are exchanged are read as they were
  -- written, a message on "todos:changed" writes one frame to each connection of the hub, all
  -- with one list: the rows of the table, each once, with its id, its text, its mark and the
  -- number that Redis holds for its id, or 0, by descending priority and ascending id.
  pub on_published-table :
      (h : Hub) (payload : Text) (db db' : sql.Db) (s s' : redis.State) (r : Rows) (ts : List Todo)
      (priorities : Entries Text)
      → IsMySql sql
      → sql.query select_all db ≡ (some r, db')
      → r.complete ≡ true
      → scan_all r.rows ≡ some ts
      → All (λ t. IsInt64 t.id) (sql.table db)
      → redis.hget_all s ≡ (done priorities, s')
      → parse (marshal (call_body (codes "list_todos"))) ≡ some (call_body (codes "list_todos"))
      → first_document (encoded marshal (arr (encode_rows (sql.table db))))
        ≡ done (arr (encode_rows (sql.table db)))
      → (let text = marshal (arr (encode_todos (todos_of priorities (sql.table db)))) in
          first_document (encoded marshal (reply_document (done text)))
          ≡ done (reply_document (done text)))
      → parse (marshal (arr (encode_todos (todos_of priorities (sql.table db)))))
        ≡ some (arr (encode_todos (todos_of priorities (sql.table db))))
      → (items : Items) × (shown : List MergedTodo) × (each : List MergedTodo) × Pairwise
          (IsFrame items)
          h
          (on_published (codes "todos:changed") payload (fetched parse (list_todos db s)) h).frames
        × IsListing shown items
        × IsSortedBy comes_first shown
        × Perm shown each
        × Pairwise (IsShown priorities) (sql.table db) each
  unfolding on_published fetched text_eq
  on_published-table h payload db db' s s' r ts priorities laws q c e i k p d d' j =
      let whole = laws.select_all-rows r ts db db' q c e in
      let text =
        list_todos_lem db db' s s' r (sql.table db) priorities q c (e ∙ ap some whole) i k p d d' in
      (
        encode_todos (todos_of priorities (sql.table db)),
        todos_of priorities (sql.table db),
        map (with_priority priorities) (map api_todo (sql.table db)),
        rw (text, j) (broadcast-IsFrame _ h),
        encode_todos-IsListing _,
        sort_slice-comes_first _,
        sort_slice-perm more_urgent _,
        rows-IsShown priorities (sql.table db),
      )
