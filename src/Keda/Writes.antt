-- ===== src/Keda/Writes.antt =====
-- Which tools of keda/mcp-server write the priorities.
use take.Prelude.{
  ◌≡◌, refl, ◌∙◌, Bool, true, false, Option, List, [], ◌++◌, Text, codes, text_eq, ◌==◌, ℕ, ℤ,
  if◌then◌else◌, decimal,
}
use take.Json.{Json, Fields}
use take.Keda.World.{Outcome, done, failed, Request, Answer, World, IsRedis}
use take.Keda.Tools.{
  ApiTodo, and_then, expect, call_api, decoded, decode_todo, decode_todos, merge_with_priority,
  patch_todo, fetch_todos, require_int_arg, with_arg, run_list_todos, add_text, run_add_todo,
  run_complete_todo,
}
use take.Kube.Server.{CallToolParams}
use take.Keda.Server.{run_tool}

module _ (w : World) (laws : IsRedis w) where
  open w use {State}

  -- A result after which the hash is as it was before.
  unfoldable pub Keeps : {A : Type 0} → State → Outcome A × State → Type 0
  Keeps s r = (k : Text) → w.stored (r.1) k ≡ w.stored s k

  here-Keeps : {A : Type 0} (s : State) (o : Outcome A) → Keeps s (o, s)
  unfolding Keeps
  here-Keeps s o k = refl

  and_then-Keeps :
      {A B : Type 0} (context : Text) (s : State) (x : Outcome A × State)
      (next : A → State → Outcome B × State)
      → Keeps s x
      → ((a : A) (s₁ : State) → Keeps s₁ (next a s₁))
      → Keeps s (and_then w context x next)
  unfolding Keeps and_then
  and_then-Keeps context s (failed e, s₁) next h n k = h k
  and_then-Keeps context s (done a, s₁) next h n k = n a s₁ k ∙ h k

  if-Keeps :
      {A : Type 0} (b : Bool) (s : State) (x y : Outcome A × State)
      → Keeps s x
      → Keeps s y
      → Keeps s (if b then x else y)
  if-Keeps true s x y h k = h
  if-Keeps false s x y h k = k

  expect-Keeps : (status : ℕ) (r : Answer) (s : State) → Keeps s (expect w status r s)
  unfolding expect
  expect-Keeps status r s =
      if-Keeps (r.status == status) s _ _ (here-Keeps s (done r))
        (here-Keeps s (failed (codes "api returned " ++ decimal r.status ++ codes ": " ++ r.text)))

  send-Keeps : (r : Request) (s : State) → Keeps s (w.send r s)
  unfolding Keeps
  send-Keeps r s k = laws.send-stored r s k

  call_api-Keeps : (status : ℕ) (r : Request) (s : State) → Keeps s (call_api w status r s)
  unfolding call_api
  call_api-Keeps status r s =
      and_then-Keeps (codes "calling api: ") s _ _ (send-Keeps r s) (expect-Keeps status)

  hget_all-Keeps : (s : State) → Keeps s (w.hget_all s)
  unfolding Keeps
  hget_all-Keeps s k = laws.hget_all-keeps s k

  merge_with_priority-Keeps :
      (todos : List ApiTodo) (s : State) → Keeps s (merge_with_priority w todos s)
  unfolding merge_with_priority
  merge_with_priority-Keeps todos s =
      and_then-Keeps (codes "reading priorities: ") s _ _ (hget_all-Keeps s)
        (λ _ s₁. here-Keeps s₁ _)

  module _ (decode_error : Json → Text) where
    decoded-Keeps :
        {A : Type 0} (decode : Json → Option A) (r : Answer) (s : State)
        → Keeps s (decoded w decode_error decode r s)
    unfolding Keeps decoded
    decoded-Keeps decode r s k = refl

    fetch_todos-Keeps : (s : State) → Keeps s (fetch_todos w decode_error s)
    unfolding fetch_todos
    fetch_todos-Keeps s =
        and_then-Keeps [] s _ _ (call_api-Keeps 200 _ s) (decoded-Keeps decode_todos)

    module _ (marshal : Json → Text) where
      run_list_todos-Keeps : (s : State) → Keeps s (run_list_todos w decode_error marshal s)
      unfolding run_list_todos
      run_list_todos-Keeps s = and_then-Keeps [] s _ _ (fetch_todos-Keeps s) (λ todos s₁.
          and_then-Keeps [] s₁ _ _ (merge_with_priority-Keeps todos s₁) (λ _ s₂. here-Keeps s₂ _))

      add_text-Keeps : (text : Text) (s : State) → Keeps s (add_text w decode_error marshal text s)
      unfolding add_text
      add_text-Keeps text s =
          if-Keeps (text_eq text []) s _ _
            (here-Keeps s (failed (codes "add_todo: 'text' is required")))
            (and_then-Keeps [] s _ _ (call_api-Keeps 201 _ s) (λ r s₁.
              and_then-Keeps [] s₁ _ _ (decoded-Keeps decode_todo r s₁) (λ _ s₂. here-Keeps s₂ _)))

      run_add_todo-Keeps :
          (args : Fields) (s : State) → Keeps s (run_add_todo w decode_error marshal args s)
      unfolding run_add_todo
      run_add_todo-Keeps args s = add_text-Keeps _ s

  module _ (float_int : Json → ℤ) where
    with_arg-Keeps :
        (args : Fields) (name : Text) (s : State) (next : ℤ → Outcome Text × State)
        → ((n : ℤ) → Keeps s (next n))
        → Keeps s (with_arg w float_int args name s next)
    unfolding with_arg and_then
    with_arg-Keeps args name s next h = read (require_int_arg float_int args name)
      where
        read : (o : Outcome ℤ) → Keeps s (and_then w [] (o, s) (λ n _. next n))
        read (failed e) = here-Keeps s _
        read (done n) = h n

    run_complete_todo-Keeps :
        (args : Fields) (s : State) → Keeps s (run_complete_todo w float_int args s)
    unfolding run_complete_todo patch_todo
    run_complete_todo-Keeps args s = with_arg-Keeps args (codes "id") s _ (λ id.
        and_then-Keeps [] s _ _
          (and_then-Keeps [] s _ _ (call_api-Keeps 200 _ s) (λ _ s₂. here-Keeps s₂ _))
          (λ _ s₃. here-Keeps s₃ _))

  skip-Keeps :
      {A : Type 0} (b : Bool) (s : State) (x y : Outcome A × State)
      → b ≡ false
      → Keeps s y
      → Keeps s (if b then x else y)
  skip-Keeps true s x y e h = cc
  skip-Keeps false s x y e h = h

  -- A tool of another name than set_priority and delete_todo leaves every stored priority as it
  -- was, also when it fails.
  pub run_tool-Keeps :
      (float_int : Json → ℤ) (decode_error : Json → Text) (marshal : Json → Text)
      (p : CallToolParams) (s : State)
      → text_eq p.name (codes "set_priority") ≡ false
      → text_eq p.name (codes "delete_todo") ≡ false
      → Keeps s (run_tool w float_int decode_error marshal p s)
  unfolding run_tool
  run_tool-Keeps float_int decode_error marshal p s set' delete' =
      if-Keeps _ s _ _ (run_list_todos-Keeps decode_error marshal s) (
        if-Keeps _ s _ _ (run_add_todo-Keeps decode_error marshal p.arguments s) (
          skip-Keeps _ s _ _ set' (
            if-Keeps _ s _ _ (run_complete_todo-Keeps float_int p.arguments s) (
              skip-Keeps _ s _ _ delete'
                (here-Keeps s (failed (codes "unknown tool: " ++ p.name)))))))
