-- ===== src/Api/Tests.antt =====
-- The API over a table of one row.
use take.Prelude.{
  ◌≡◌, ◌≢◌, ◌⊎◌, refl, Bool, Option, none, some, List, [], ◌∷◌, Text, codes, text_eq, if◌then◌else◌,
  pos, true, false, arith,
}
use take.Json.{Json, obj, field, end, str, bool, names, read_struct}
use take.Strings.{trim_space}
use take.Numbers.{atoi}
use take.Http.{Response, pick}
use take.Api.Todos.{Todo, row_of, set_row}
use take.Api.Sql.{update_todo, scan_all}
use take.Api.Requests.{Endpoint, api_routes, path_id, decode, clip, update_member, clean_given}
use take.Api.Handlers.{serve_api, by_id}
use take.Api.Spec.{Does}
use take.Api.Contract.{IsUnrouted, serve_api-Does}
use take.Api.Table.{IsTable}
use take.Api.Invariant.{Call, answer_to, serve_all, serve_all-IsTable}
use take.Api.Memory.{memory_sql, memory_sql-IsMySql, memory_sql-IsUp}
use take.Api.Answers.{serve_api-answers}
use take.Api.Logged.{logged, Sends}
use take.Api.Statements.{serve_api-Sends}

abbrev tea : Todo
tea = record {
  id = pos 3;
  text = codes "tea";
  is_done = false;
  created = record { seconds = 1753272000; nanos = 0 };
}

abbrev patch : Text
patch = codes "{\"text\": \" green tea \", \"done\": true}"

-- The parser at the one body that is sent.
abbrev first_value : Bool → Text → Option Json
first_value more s =
    if text_eq s patch
    then some (
        obj
          (field (codes "text") (str (codes " green tea ")) (field (codes "done") (bool true) end)))
    else none

abbrev path : List Text
path = codes "api" ∷ codes "todos" ∷ codes "3" ∷ []

abbrev run : Response × List Todo
run = serve_api memory_sql first_value (codes "PATCH") path (some patch) (tea ∷ [])

serves : run.0.status ≡ 200
unfolding serve_api text_eq path_id atoi decode clip read_struct update_member names clean_given
    trim_space update_todo by_id row_of set_row
serves = refl

serve_api-Does_example :
    ((e : Endpoint) × (pick (codes "PATCH") (api_routes path) ≡ some e)
      × Does first_value e (some patch) (tea ∷ []) (run.0) (run.1))
    ⊎ ((pick (codes "PATCH") (api_routes path) ≡ none) × IsUnrouted (run.0) × (run.1 ≡ tea ∷ []))
serve_api-Does_example =
    serve_api-Does first_value memory_sql memory_sql-IsMySql (codes "PATCH") path (some patch)
      (tea ∷ []) differs
  where
    differs : run.0.status ≢ 502
    differs h = omega (arith, h, serves)

serve_api-Sends_example :
    Sends memory_sql 3 []
      (serve_api (logged memory_sql) first_value (codes "PATCH") path (some patch) ([], tea ∷ []))
serve_api-Sends_example =
    serve_api-Sends memory_sql first_value (codes "PATCH") path (some patch) (tea ∷ [])

abbrev list_call : Call
list_call = record { method = codes "GET"; path = codes "api" ∷ codes "todos" ∷ []; body = none }

abbrev calls : List Call
calls = record { method = codes "PATCH"; path = path; body = some patch } ∷ list_call ∷ []

lists : (answer_to first_value memory_sql list_call (run.1)).0.status ≡ 200
unfolding serve_api text_eq path_id atoi decode clip read_struct update_member names clean_given
    trim_space update_todo by_id row_of set_row scan_all
lists = refl

serve_all-IsTable_example : IsTable (serve_all first_value memory_sql calls (tea ∷ []))
unfolding row_of
serve_all-IsTable_example =
    serve_all-IsTable first_value memory_sql memory_sql-IsMySql calls (tea ∷ [])
      ((λ h. omega (arith, h, serves)), ((λ h. omega (arith, h, lists)), tt))
      (record { filled = λ h. cc; short = omega arith }, refl, tt)

serve_api-answers_example :
    (serve_api memory_sql first_value (codes "DELETE") path none (tea ∷ [])).0.status ≢ 502
serve_api-answers_example =
    serve_api-answers memory_sql memory_sql-IsMySql memory_sql-IsUp first_value (codes "DELETE")
      path none (tea ∷ [])
