-- ===== src/System/Completing.antt =====
-- complete_todo of keda/mcp-server over the handlers of api/main.go.
use take.Prelude.{
  ◌≡◌, refl, ap, ◌∙◌, Bool, true, Option, none, some, [], Text, codes, ◌++◌, ltb_ℤ, pos, ℤ,
}
use take.Json.{Json, obj, field, end, bool, Fields}
use take.Keda.World.{Outcome, done, World}
use take.Keda.Tools.{and_then, with_arg, require_int_arg, run_complete_todo}
use take.Keda.Steps.{IsInt64, require_int_arg-IsInt64, and_then-done, with_arg-done}
use take.Api.Todos.{Todo, row_of, set_row}
use take.Api.Sql.{Sql, IsMySql}
use take.Api.Requests.{update_member, decode}
use take.Api.Spec.{IsGiven, absent}
use take.System.Over.{send_api, over_api}
use take.Numbers.{format_int}
use take.Exchange.{answer_of, carried}
use take.Api.Up.{IsUp}
use take.Api.Answers.{serve_api-answers}
use take.System.Patching.{served, served-Does, patch_todo-sent, patch_todo-HasSet}
use take.System.Marking.{Does-updated}

-- The body that complete_todo sends.
abbrev pub done_fields : Json
done_fields = obj (field (codes "done") (bool true) end)

no_title : (o : Option Text) → IsGiven none o → o ≡ none
no_title o absent = refl

module _ (first_value : Bool → Text → Option Json) (sql : Sql) (laws : IsMySql sql)
    (marshal : Json → Text) (first_document : Text → Outcome Json) (redis : World) where
  -- Where the exchanges between the services arrive, over a database that keeps the documented
  -- behaviour of MySQL, when JSON numbers are converted to int64 values and the API reads the
  -- body {"done": true} as it was sent, a successful complete_todo has marked the row of the id
  -- as done, which is in the table, has changed nothing else of the table, and leaves Redis as it
  -- was.
  pub run_complete_todo-set_row :
      (float_int : Json → ℤ) (args : Fields) (db db' : sql.Db) (s s' : redis.State) (text : Text)
      → ((j : Json) → IsInt64 (float_int j))
      → decode first_value update_member
          (some (marshal done_fields))
          (record { text = none; is_done = none })
        ≡ some (record { text = none; is_done = some true })
      → run_complete_todo
          (over_api sql first_value marshal first_document redis)
          float_int
          args
          (db, s)
        ≡ (done text, (db', s'))
      → (id : ℤ) × (x : Todo) × (require_int_arg float_int args (codes "id") ≡ done id)
        × (sql.table db' ≡ set_row none (some true) id (sql.table db))
        × (row_of id (sql.table db') ≡ some x)
        × (s' ≡ s)
  unfolding run_complete_todo
  run_complete_todo-set_row float_int args db db' s s' text i d e =
      let (id, arg, h) =
        with_arg-done (over_api sql first_value marshal first_document redis) float_int args
          (codes "id") text (db, s) (db', s') _ e in
      let (u, z, called, ends) =
        and_then-done (over_api sql first_value marshal first_document redis) [] _ _ text (db', s')
          h in
      let ((title, x, g, w, t), k) =
        patch_todo-HasSet first_value sql laws marshal first_document redis id done_fields
          (record { text = none; is_done = some true }) db db' s s'
          (require_int_arg-IsInt64 float_int i args (codes "id") id arg) d
          (called ∙ ap (λ y. (done u, y)) (ap (λ y. y.1) ends)) in
      (id, x, arg, t ∙ ap (λ y. set_row y (some true) id (sql.table db)) (no_title title g), w, k)

  module _ (up : IsUp sql) where
    -- Where the exchanges between the services arrive, over a database that keeps the documented
    -- behaviour of MySQL and in which every statement that its handlers send succeeds, when the
    -- API reads the body {"done": true} as it was sent, complete_todo of a positive int64 id with
    -- a row in the table succeeds, marks the row as done, changes nothing else of the table, and
    -- leaves Redis as it was.
    pub run_complete_todo-completes :
        (float_int : Json → ℤ) (args : Fields) (db : sql.Db) (s : redis.State) (id : ℤ) (x : Todo)
        → require_int_arg float_int args (codes "id") ≡ done id
        → IsInt64 id
        → ltb_ℤ (pos 0) id ≡ true
        → decode first_value update_member
            (some (marshal done_fields))
            (record { text = none; is_done = none })
          ≡ some (record { text = none; is_done = some true })
        → row_of id (sql.table db) ≡ some x
        → (db' : sql.Db) × (run_complete_todo
              (over_api sql first_value marshal first_document redis)
              float_int
              args
              (db, s)
            ≡ (done (codes "todo " ++ format_int id ++ codes " marked done"), (db', s)))
          × (sql.table db' ≡ set_row none (some true) id (sql.table db))
    unfolding run_complete_todo with_arg and_then send_api carried answer_of
    run_complete_todo-completes float_int args db s id x arg i p d h =
        let does =
          served-Does first_value sql laws marshal first_document redis id done_fields db
            (serve_api-answers sql laws up first_value _ _ _ db) in
        let status =
          Does-updated first_value (some (marshal done_fields)) id true i p d _ x _ _ _ refl h
            does in
        let sent =
          patch_todo-sent (over_api sql first_value marshal first_document redis) id done_fields
            (db, s)
            ((served first_value sql laws marshal first_document redis id done_fields db).1, s) _
            refl (rw status refl) in
        let ((title, y, g, w, t), k) =
          patch_todo-HasSet first_value sql laws marshal first_document redis id done_fields
            (record { text = none; is_done = some true }) db _ s s i d sent in
        (
          _,
          rw (arg, sent) refl,
          t ∙ ap (λ z. set_row z (some true) id (sql.table db)) (no_title title g),
        )
