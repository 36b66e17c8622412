-- ===== src/System/Patching.antt =====
-- A PATCH of keda/mcp-server over the handlers of api/main.go.
use take.Prelude.{
  ◌≡◌, ◌≢◌, refl, ap, sym, subst, ◌∙◌, Bool, true, false, Option, none, some, List, [], Text, codes,
  ◌==◌, if◌then◌else◌, ℤ, ltb_ℤ, pos, arith,
}
use mathlib.Core.Option.{some-injective}
use take.Json.{Json}
use take.Numbers.{format_int, atoi-format_int}
use take.Http.{Response, http_error, value, refused}
use take.Keda.World.{Outcome, done, Answer, World}
use take.Keda.Tools.{and_then, todo_path, patch_todo}
use take.Keda.Steps.{IsInt64, and_then-done, call_api-done, call_api-sent}
use take.Api.Todos.{Todo, row_of, set_row}
use take.Api.Sql.{Sql, IsMySql}
use take.Api.Requests.{UpdateBody, Endpoint, update_one, path_id}
use take.Api.Handlers.{serve_api}
use take.Api.Spec.{
  IsGiven, ReadsUpdate, Does, did_ping, did_refuse, did_list, did_create, did_update, did_remove,
  was_missing,
}
use take.Api.Contract.{serve_api-routed}
use take.Exchange.{answer_of, carried}
use take.System.Over.{segments, send_api, over_api}
use take.System.Paths.{segments-todo, pick-patch}

-- What a PATCH with 200 has done.
abbrev pub HasSet : ℤ → UpdateBody → List Todo → List Todo → Type 0
HasSet id b t t' =
    (text : Option Text) × (x : Todo) × IsGiven b.text text
    × (row_of id t' ≡ some x)
    × (t' ≡ set_row text b.is_done id t)

pub path_id-format_int : (id id' : ℤ) → IsInt64 id → path_id (format_int id) ≡ value id' → id' ≡ id
unfolding path_id
path_id-format_int id id' (h, k) e = read _ (atoi-format_int id h k) e
  where
    told :
        (b : Bool) (m : ℤ) (r : Response) → (if b then value m else refused r) ≡ value id' → id' ≡ m
    told true m r q = cc
    told false m r q = cc

    read :
        (o : Option ℤ)
        → o ≡ some id
        → elim o [
          | none ↦ refused (http_error (codes "invalid id") 400)
          | some m ↦
              if ltb_ℤ (pos 0) m then value m else refused (http_error (codes "invalid id") 400)
        ]
          ≡ value id'
        → id' ≡ id
    read none p q = cc
    read (some m) p q = told _ m _ q ∙ some-injective _ _ p

module _ (w : World) where
  -- Where patchTodo returns nil the answer's status is 200.
  patch_todo-status :
      (id : ℤ) (fields : Json) (s s₁ s₂ : w.State) (r : Answer)
      → w.send (record { method = codes "PATCH"; path = todo_path id; body = some fields }) s
        ≡ (done r, s₁)
      → patch_todo w id fields s ≡ (done tt, s₂)
      → (r.status ≡ 200) × (s₁ ≡ s₂)
  unfolding patch_todo
  patch_todo-status id fields s s₁ s₂ r h e =
      let (a, s', called, ends) = and_then-done w [] _ _ tt s₂ e in
      let (answer, sent, right) = call_api-done w 200 _ a s s' called in
      let same = sym h ∙ sent in
      (
        ok (subst (λ z. (z.status == 200) ≡ true) (sym (first same)) right),
        ap (λ x. x.1) same ∙ ap (λ x. x.1) ends,
      )
    where
      ok : (r.status == 200) ≡ true → r.status ≡ 200
      ok k = ground (arith, k)

      first :
          {a b : Answer} {x y : w.State}
          → ◌≡◌ {A = Outcome Answer × w.State} (done a, x) (done b, y)
          → a ≡ b
      first k = cc

  -- It returns nil where the status is 200.
  pub patch_todo-sent :
      (id : ℤ) (fields : Json) (s s₁ : w.State) (r : Answer)
      → w.send (record { method = codes "PATCH"; path = todo_path id; body = some fields }) s
        ≡ (done r, s₁)
      → (r.status == 200) ≡ true
      → patch_todo w id fields s ≡ (done tt, s₁)
  unfolding patch_todo and_then
  patch_todo-sent id fields s s₁ r h k = rw (call_api-sent w 200 _ r s s₁ h k) refl

module _ (first_value : Bool → Text → Option Json) where
  update-HasSet :
      (id : ℤ) (body : Option Text) (b : UpdateBody) (e : Endpoint) (t t' : List Todo)
      (r : Response)
      → IsInt64 id
      → e ≡ update_one (format_int id)
      → ReadsUpdate first_value body b
      → r.status ≡ 200
      → Does first_value e body t r t'
      → HasSet id b t t'
  update-HasSet id body b e t t' r i h d s (did_ping k _ _) = cc
  update-HasSet id body b e t t' r i h d s (did_refuse _ k _) = absurd (omega (arith, s, k))
  update-HasSet id body b e t t' r i h d s (did_list k _ _) = cc
  update-HasSet id body b e t t' r i h d s (did_create _ _ k _ _ _ _ _ _ _) = cc
  update-HasSet id body b e t t' r i h d s (did_remove _ _ k _ _ _ _) = cc
  update-HasSet id body b e t t' r i h d s (was_missing _ _ _ _ _ k _) =
      absurd (omega (arith, s, ap (λ x. x.status) k))
  update-HasSet id body b e t t' r i h d s (did_update seg id' b' text x k p q g w _ u) =
      subst (λ n. HasSet n b t t') (path_id-format_int id id' i at)
        (subst (λ c. HasSet id' c t t') (some-injective _ _ (sym q ∙ d)) (text, x, g, w, u))
    where
      same : update_one seg ≡ update_one (format_int id) → seg ≡ format_int id
      same m = cc

      at : path_id (format_int id) ≡ value id'
      at = subst (λ z. path_id z ≡ value id') (same (sym k ∙ h)) p

  module _ (sql : Sql) (laws : IsMySql sql) (marshal : Json → Text)
      (first_document : Text → Outcome Json) (redis : World) where
    -- The answer of the API to a PATCH, which the mux takes for an update of the id.
    abbrev pub served : ℤ → Json → sql.Db → Response × sql.Db
    served id fields db =
        serve_api sql first_value (codes "PATCH") (segments (todo_path id)) (some (marshal fields))
          db

    pub served-Does :
        (id : ℤ) (fields : Json) (db : sql.Db)
        → (served id fields db).0.status ≢ 502
        → Does first_value
            (update_one (format_int id))
            (some (marshal fields))
            (sql.table db)
            (served id fields db).0
            (sql.table (served id fields db).1)
    served-Does id fields db n =
        serve_api-routed first_value sql laws (codes "PATCH") _ (some (marshal fields)) db _
          (rw (segments-todo id) (pick-patch id)) n

    served-HasSet :
        (id : ℤ) (fields : Json) (b : UpdateBody) (db : sql.Db)
        → IsInt64 id
        → ReadsUpdate first_value (some (marshal fields)) b
        → (served id fields db).0.status ≡ 200
        → HasSet id b (sql.table db) (sql.table (served id fields db).1)
    served-HasSet id fields b db i d s =
        update-HasSet id _ b _ _ _ _ i refl d s
          (served-Does id fields db (λ h. omega (arith, s, h)))

    -- The PATCH of a todo that the todo server takes for done.
    pub patch_todo-HasSet :
        (id : ℤ) (fields : Json) (b : UpdateBody) (db db' : sql.Db) (s s' : redis.State)
        → IsInt64 id
        → ReadsUpdate first_value (some (marshal fields)) b
        → patch_todo (over_api sql first_value marshal first_document redis) id fields (db, s)
          ≡ (done tt, (db', s'))
        → HasSet id b (sql.table db) (sql.table db') × (s' ≡ s)
    unfolding send_api carried answer_of
    patch_todo-HasSet id fields b db db' s s' i d e =
        let h =
          patch_todo-status (over_api sql first_value marshal first_document redis) id fields
            (db, s) ((served id fields db).1, s) (db', s') _ refl e in
        (
          subst (λ z. HasSet id b (sql.table db) (sql.table z)) (ap (λ x. x.0) (h.1))
              (served-HasSet id fields b db i d (h.0)),
          sym (ap (λ x. x.1) (h.1)),
        )
