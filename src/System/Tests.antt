-- ===== src/System/Tests.antt =====
-- The services over a table of one row and an empty hash of priorities.
use take.Prelude.{
  ◌≡◌, refl, Bool, true, false, Option, none, some, List, [], ◌∷◌, Text, codes, text_eq, IsSortedBy,
  Pairwise, Entries, insert, remove, lookup, decimal, if◌then◌else◌, ℤ, pos,
}
use mathlib.Core.List.{Perm}
use take.Json.{Json, Items, arr, int, field, end, Fields, names, read_struct, read_int, read_text}
use take.Numbers.{format_int, atoi}
use take.Keda.World.{Outcome, done, failed, World}
use take.Keda.Tools.{
  MergedTodo, encode_todos, value_of, require_int_arg, run_list_todos, run_complete_todo,
  run_delete_todo,
}
use take.Keda.Merge.{comes_first}
use take.Api.Todos.{Todo, encode_row, encode_rows, row_of, set_row, remove_row}
use take.Api.Sql.{scan_all, update_todo}
use take.Api.Requests.{decode, update_member, path_id, clean_given}
use take.Api.Handlers.{by_id, serve_api}
use take.Api.Memory.{memory_sql, memory_sql-IsMySql, memory_sql-IsUp}
use take.Gateway.Hub.{Hub}
use take.Gateway.Events.{on_published}
use take.Gateway.Client.{call_body, call_tool, fetched}
use take.Gateway.Fetch.{reply_document, relayed, post_mcp, ran, call_tool-run_tool}
use take.Exchange.{carried}
use take.Keda.Server.{run_tool}
use take.System.Over.{send_api, segments, over_api}
use take.System.Listing.{todos_of}
use take.System.Live.{IsShown, IsListing, IsFrame, list_todos, on_published-table}
use take.Keda.Hash.{Hash, hash_world, hash_world-IsRedis}
use take.System.Deleting.{run_delete_todo-deletes}
use take.System.Completing.{done_fields, run_complete_todo-set_row, run_complete_todo-completes}

abbrev tea : Todo
tea = record {
  id = pos 3;
  text = codes "tea";
  is_done = false;
  created = record { seconds = 1753272000; nanos = 0 };
}

abbrev tea_done : Todo
tea_done = record tea { is_done = true }

abbrev redis : World
redis = record {
  State = Entries Text;
  send = λ r s. (failed (codes "no route"), s);
  hget_all = λ s. (done s, s);
  hset = λ f v s. (done tt, insert f v s);
  hdel = λ f s. (done tt, remove f s);
  stored = λ s k. lookup k s;
}

-- The syntax of JSON at the documents of these runs.
abbrev marshal : Json → Text
marshal (arr _) = codes "[]"
marshal _ = codes "{}"

abbrev shown : Json
shown = arr (encode_todos (todos_of [] (tea ∷ [])))

abbrev parse : Text → Option Json
parse s = if text_eq s (codes "[]") then some shown else some (call_body (codes "list_todos"))

abbrev first_document : Text → Outcome Json
first_document s =
    if text_eq s (codes "[]\n")
    then done (arr (encode_rows (tea ∷ [])))
    else done (reply_document (done (codes "[]")))

abbrev first_value : Bool → Text → Option Json
first_value more s = some done_fields

abbrev three : Json → ℤ
three j = pos 3

abbrev error : Json → Text
error j = codes "json: cannot unmarshal"

abbrev params_error : Option Json → Text
params_error o = codes "unexpected end of JSON input"

abbrev tabs : Hub
tabs = (codes "a", 1) ∷ (codes "b", 2) ∷ []

on_published-table_example :
    (items : Items) × (sent : List MergedTodo) × (each : List MergedTodo) × Pairwise
      (IsFrame items)
      tabs
      (on_published
        (codes "todos:changed")
        []
        (fetched parse (
          list_todos memory_sql first_value marshal first_document redis three error params_error
            parse
            (tea ∷ [])
            []))
        tabs).frames
    × IsListing sent items
    × IsSortedBy comes_first sent
    × Perm sent each
    × Pairwise (IsShown []) (tea ∷ []) each
unfolding text_eq scan_all
on_published-table_example =
    on_published-table memory_sql first_value marshal first_document redis three error params_error
      parse tabs [] (tea ∷ []) (tea ∷ []) [] []
      (record { rows = some tea ∷ []; complete = true; is_closed = true }) (tea ∷ []) []
      memory_sql-IsMySql refl refl refl ((refl, refl), tt) refl refl refl refl refl

abbrev args : Fields
args = field (codes "id") (int (pos 3)) end

completes :
    run_complete_todo
      (over_api memory_sql first_value marshal first_document redis)
      three
      args
      (tea ∷ [], [])
    ≡ (done (codes "todo 3 marked done"), (tea_done ∷ [], []))
unfolding run_complete_todo decode read_struct update_member names require_int_arg value_of send_api
    carried serve_api segments format_int decimal path_id atoi clean_given update_todo by_id row_of
    set_row text_eq
completes = refl

run_complete_todo-set_row_example :
    (id : ℤ) × (x : Todo) × (require_int_arg three args (codes "id") ≡ done id)
    × ((tea_done ∷ []) ≡ set_row none (some true) id (tea ∷ []))
    × (row_of id (tea_done ∷ []) ≡ some x)
    × (◌≡◌ {A = Entries Text} [] [])
unfolding decode read_struct update_member names
run_complete_todo-set_row_example =
    run_complete_todo-set_row first_value memory_sql memory_sql-IsMySql marshal first_document redis
      three args (tea ∷ []) (tea_done ∷ []) [] [] (codes "todo 3 marked done") (λ j. (refl, refl))
      refl completes

abbrev both : World
both = over_api memory_sql first_value marshal first_document redis

call_tool-run_tool_example :
    call_tool error none
      (post_mcp both three error marshal params_error parse first_document)
      (codes "list_todos")
      (tea ∷ [], [])
    ≡ (
      relayed
          (ran both three error marshal params_error parse first_document
            (codes "list_todos")
            (tea ∷ [], [])).0,
      (ran both three error marshal params_error parse first_document
          (codes "list_todos")
          (tea ∷ [], [])).1,
    )
unfolding text_eq run_tool run_list_todos send_api carried serve_api segments scan_all read_struct
    encode_row names read_int read_text
call_tool-run_tool_example =
    call_tool-run_tool both three error marshal params_error parse first_document
      (codes "list_todos") (tea ∷ [], []) refl refl

run_complete_todo-completes_example :
    (db' : List Todo) × (run_complete_todo both three args (tea ∷ [], [])
      ≡ (done (codes "todo 3 marked done"), (db', [])))
    × (db' ≡ set_row none (some true) (pos 3) (tea ∷ []))
unfolding decode read_struct update_member names require_int_arg value_of row_of format_int decimal
run_complete_todo-completes_example =
    run_complete_todo-completes first_value memory_sql memory_sql-IsMySql marshal first_document
      redis memory_sql-IsUp three args (tea ∷ []) [] (pos 3) tea refl (refl, refl) refl refl refl

abbrev urgent : Hash
urgent = record { held = (codes "3", codes "50") ∷ []; sorted = (tt, tt) }

abbrev cleared : Hash
cleared = (hash_world.hdel (codes "3") urgent).1

run_delete_todo-deletes_example :
    (db' : List Todo) × (run_delete_todo
        (over_api memory_sql first_value marshal first_document hash_world)
        three
        args
        (tea ∷ [], urgent)
      ≡ (done (codes "todo 3 deleted"), (db', cleared)))
    × (db' ≡ remove_row (pos 3) (tea ∷ []))
    × ((k : Text)
        → lookup k cleared.held ≡ (if text_eq (codes "3") k then none else lookup k urgent.held))
unfolding require_int_arg value_of row_of format_int decimal text_eq
run_delete_todo-deletes_example =
    run_delete_todo-deletes first_value memory_sql memory_sql-IsMySql memory_sql-IsUp marshal
      first_document hash_world three args (tea ∷ []) urgent cleared (pos 3) tea hash_world-IsRedis
      refl (refl, refl) refl refl refl
