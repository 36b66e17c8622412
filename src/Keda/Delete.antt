-- ===== src/Keda/Delete.antt =====
-- delete_todo of keda/mcp-server/tools.go: what it does to the API and to the priorities.
use take.Prelude.{
  ◌≡◌, refl, ap, ◌∙◌, true, none, Text, text_eq, text_eq_refl, if◌then◌else◌, ℤ, pos, codes, ◌==◌,
  ◌++◌, [],
}
use take.Json.{Json, Fields}
use take.Numbers.{format_int}
use take.Keda.World.{done, Answer, World, IsRedis}
use take.Keda.Tools.{priority_in, priority_of, require_int_arg, delete_one, run_delete_todo}
use take.Keda.Steps.{and_then-done, call_api-done, with_arg-done}
use take.Keda.Priority.{Finds}

module _ (w : World) where
  open w use {State}

  module _ (laws : IsRedis w) (float_int : Json → ℤ) (args : Fields) (t : Text) (s s' : State) where
    hdel-Finds :
        (id : ℤ) (s₁ : State)
        → w.hdel (format_int id) s₁ ≡ (done tt, s')
        → Finds w laws float_int s' id (pos 0)
    unfolding priority_of
    hdel-Finds id s₁ h s₂ l e = ap priority_in (
        laws.hget_all-stored s' s₂ l (format_int id) e
        ∙ laws.hdel-stored (format_int id) s₁ s' (format_int id) h
        ∙ here)
      where
        here :
            (if text_eq (format_int id) (format_int id) then none else w.stored s₁ (format_int id))
            ≡ none
        here = rw (text_eq_refl (format_int id)) refl

    -- After a successful delete_todo the API has answered 204 to the DELETE of the todo, and
    -- mergeWithPriority reads the priority 0 for the id.
    run_delete_todo-Finds :
        run_delete_todo w float_int args s ≡ (done t, s')
        → (id : ℤ) × (answer : Answer) × (s₁ : State) × (require_int_arg float_int args (codes "id")
            ≡ done id)
          × (w.send
                (record {
                  method = codes "DELETE";
                  path = codes "/api/todos/" ++ format_int id;
                  body = none;
                })
                s
              ≡ (done answer, s₁))
          × ((answer.status == 204) ≡ true)
          × Finds w laws float_int s' id (pos 0)
    unfolding run_delete_todo delete_one
    run_delete_todo-Finds h =
        let (id, read_id, h₁) = with_arg-done w float_int args (codes "id") t s s' _ h in
        let (a, s₁, called, h₂) = and_then-done w [] _ _ t s' h₁ in
        let (answer, sent, right) = call_api-done w 204 _ a s s₁ called in
        let (u, s₂, cleared, h₃) =
          and_then-done w (codes "todo deleted but clearing priority failed: ") _ _ t s' h₂ in
        (
          id,
          answer,
          s₁,
          read_id,
          sent,
          right,
          hdel-Finds id s₁ (cleared ∙ ap (λ x. (done tt, x.1)) h₃),
        )
