-- ===== src/Api/Changes.antt =====
-- The handlers of PATCH and DELETE in api/main.go keep the promises of Api/Spec.
use take.Prelude.{
  ℕ, zero, suc, ◌≡◌, ◌≢◌, refl, sym, ap, subst, ◌∙◌, Bool, Option, none, some, Text, ℤ, arith,
}
use take.Json.{Json}
use take.Strings.{trim_space}
use take.Http.{Response, Decoded, value, refused}
use take.Api.Todos.{row_of, set_row}
use take.Api.Sql.{ExecResult, Sql, IsMySql, update_todo, delete_todo}
use take.Api.Requests.{
  UpdateBody, update_member, decode, path_id, clean_text, clean_given, given, update_one,
  remove_one,
}
use take.Api.Handlers.{
  Found, found, no_rows, broken, by_id, show_updated, recheck, after_update, updated,
  update_cleaned, update_given, update_read, update_at, handle_update, removed_rows, removed,
  remove_at, handle_remove,
}
use take.Api.Rows.{row_of-set_row, set_row-none, remove_row-none, IsRow, by_id-IsRow}
use take.Api.Spec.{
  IsTitle, IsGiven, absent, present, ReadsUpdate, bad_id, bad_body, bad_title, no_change,
  did_refuse, did_update, did_remove, was_missing,
}
use take.Api.Refines.{IsChecked, check_text-IsChecked, IsRefusal, path_id-IsRefusal, Meets}

-- What clean_given makes of a text that may be absent.
IsCleaned : Option Text → Decoded (Option Text) → Type 0
IsCleaned s (value t) = IsGiven s t
IsCleaned s (refused r) = (r.status ≡ 400) × (t : Text) × (s ≡ some t) × ¬ IsTitle (trim_space t)

clean_given-IsCleaned : (s : Option Text) → IsCleaned s (clean_given s)
unfolding clean_given given clean_text IsCleaned
clean_given-IsCleaned none = absent
clean_given-IsCleaned (some s) = step _ (check_text-IsChecked (trim_space s))
  where
    step : (d : Decoded Text) → IsChecked (trim_space s) d → IsCleaned (some s) (given d)
    step (refused r) (h, k) = (h, s, refl, k)
    step (value t) (x, i) =
        subst (λ y. IsGiven (some s) (some y)) (sym x) (present (subst IsTitle x i))

refused-ne : (d : Decoded ℤ) (r : Response) → d ≡ refused r → (id : ℤ) → d ≢ value id
refused-ne d r h id k = absurd (apart (sym h ∙ k))
  where
    apart : refused r ≡ value id → ⊥
    apart q = cc

module _ (first_value : Bool → Text → Option Json) (sql : Sql) (laws : IsMySql sql) where
  open sql use {Db, table}

  module _ (segment : Text) (body : Option Text) (db : Db) (id : ℤ)
      (at : path_id segment ≡ value id) where
    module _ (b : UpdateBody) (text : Option Text) (h : ReadsUpdate first_value body b)
        (given : IsGiven b.text text) (db₁ : Db)
        (e : table db₁ ≡ set_row text b.is_done id (table db)) where
      -- No row after the UPDATE: there was none before it.
      absent_before : row_of id (table db₁) ≡ none → row_of id (table db) ≡ none
      absent_before m = row_of-set_row text b.is_done id (table db) (ap (row_of id) (sym e) ∙ m)

      show_updated-Meets :
          (f : Found × Db)
          → IsRow (f.0) (row_of id (table db₁))
          → table (f.1) ≡ table db₁
          → Meets first_value sql laws (update_one segment) body db (show_updated sql f)
      unfolding show_updated
      show_updated-Meets (found x, db₂) is k n =
          did_update segment id b text x refl at h given (ap (row_of id) k ∙ is) refl (k ∙ e)
      show_updated-Meets (no_rows, db₂) is k n =
          let before = absent_before is in
          was_missing segment id refl at before refl
            (k ∙ e ∙ set_row-none text b.is_done id (table db) before)
      show_updated-Meets (broken, db₂) is k n = absurd (n refl)

      again :
          (db₂ : Db)
          → table db₂ ≡ table db₁
          → Meets first_value sql laws
              (update_one segment)
              body
              db
              (show_updated sql (by_id sql id db₂))
      again db₂ k =
          let (is, k₂) = by_id-IsRow sql laws id db₂ in
          show_updated-Meets (by_id sql id db₂)
            (subst (λ t. IsRow (by_id sql id db₂).0 (row_of id t)) k is) (k₂ ∙ k)

      recheck-Meets :
          (f : Found × Db)
          → IsRow (f.0) (row_of id (table db₁))
          → table (f.1) ≡ table db₁
          → Meets first_value sql laws (update_one segment) body db (recheck sql id f)
      unfolding recheck
      recheck-Meets (no_rows, db₂) is k n =
          let before = absent_before is in
          was_missing segment id refl at before refl
            (k ∙ e ∙ set_row-none text b.is_done id (table db) before)
      recheck-Meets (found x, db₂) is k n = again db₂ k n
      recheck-Meets (broken, db₂) is k n = again db₂ k n

      after_update-Meets :
          (rows : Option ℕ)
          → Meets first_value sql laws (update_one segment) body db (after_update sql id rows db₁)
      unfolding after_update
      after_update-Meets none n = again db₁ refl n
      after_update-Meets (some (suc m)) n = again db₁ refl n
      after_update-Meets (some zero) n =
          let (is, k) = by_id-IsRow sql laws id db₁ in recheck-Meets (by_id sql id db₁) is k n

    updated-Meets :
        (b : UpdateBody) (text : Option Text) (o : Option ExecResult × Db)
        → ReadsUpdate first_value body b
        → IsGiven b.text text
        → sql.exec (update_todo text b.is_done id) db ≡ o
        → Meets first_value sql laws (update_one segment) body db (updated sql id o)
    unfolding updated
    updated-Meets b text (none, db₁) h given e n = absurd (n refl)
    updated-Meets b text (some r, db₁) h given e n =
        after_update-Meets b text h given db₁ (laws.update_todo-table text b.is_done id r db db₁ e)
          r.rows_affected n

    update_cleaned-Meets :
        (b : UpdateBody) (d : Decoded (Option Text))
        → ReadsUpdate first_value body b
        → IsCleaned b.text d
        → Meets first_value sql laws
            (update_one segment)
            body
            db
            (update_cleaned sql d b.is_done id db)
    unfolding update_cleaned IsCleaned
    update_cleaned-Meets b (refused r) h (c, t, q, k) n =
        did_refuse (bad_title segment t b refl h q k) c refl
    update_cleaned-Meets b (value text) h c n = updated-Meets b text _ h c refl n

    update_read-Meets :
        (o : Option UpdateBody)
        → decode first_value update_member body (record { text = none; is_done = none }) ≡ o
        → Meets first_value sql laws (update_one segment) body db (update_read sql id o db)
    unfolding update_read update_given
    update_read-Meets none h n = did_refuse (bad_body segment refl h) refl refl
    update_read-Meets (some b) h n = fields b.text b.is_done h n
      where
        fields :
            (t : Option Text) (d : Option Bool)
            → ReadsUpdate first_value body (record { text = t; is_done = d })
            → Meets first_value sql laws (update_one segment) body db (update_given sql t d id db)
        fields none none h' n' = did_refuse (no_change segment refl h') refl refl
        fields (some t) d h' n' =
            update_cleaned-Meets (record { text = some t; is_done = d }) _ h'
              (clean_given-IsCleaned (some t)) n'
        fields none (some d) h' n' =
            update_cleaned-Meets (record { text = none; is_done = some d }) _ h'
              (clean_given-IsCleaned none) n'

  pub update-Meets :
      (segment : Text) (body : Option Text) (db : Db)
      → Meets first_value sql laws
          (update_one segment)
          body
          db
          (handle_update sql first_value segment body db)
  unfolding handle_update update_at
  update-Meets segment body db = step (path_id segment) refl (path_id-IsRefusal segment)
    where
      step :
          (d : Decoded ℤ)
          → path_id segment ≡ d
          → IsRefusal d
          → Meets first_value sql laws
              (update_one segment)
              body
              db
              (update_at sql first_value d body db)
      step (refused r) h i n = did_refuse (bad_id segment refl (refused-ne _ r h)) i refl
      step (value id) h i n = update_read-Meets segment body db id h _ refl n

  pub remove-Meets :
      (segment : Text) (body : Option Text) (db : Db)
      → Meets first_value sql laws (remove_one segment) body db (handle_remove sql segment db)
  unfolding handle_remove remove_at removed removed_rows
  remove-Meets segment body db = step (path_id segment) refl (path_id-IsRefusal segment)
    where
      rows :
          (id : ℤ) (r : ExecResult) (db₁ : Db) (m : Option ℕ)
          → path_id segment ≡ value id
          → sql.exec (delete_todo id) db ≡ (some r, db₁)
          → r.rows_affected ≡ m
          → Meets first_value sql laws (remove_one segment) body db (removed_rows sql m db₁)
      rows id r db₁ none h e q n = absurd (n refl)
      rows id r db₁ (some zero) h e q n =
          let before = (laws.delete_todo-affected id r 0 db db₁ e q).0 refl in
          was_missing segment id refl h before refl
            (laws.delete_todo-table id r db db₁ e ∙ remove_row-none id (table db) before)
      rows id r db₁ (some (suc m)) h e q n =
          did_remove segment id refl h
            (λ none'. omega (arith, (laws.delete_todo-affected id r (suc m) db db₁ e q).1 none'))
            refl (laws.delete_todo-table id r db db₁ e)

      sent :
          (id : ℤ) (o : Option ExecResult × Db)
          → path_id segment ≡ value id
          → sql.exec (delete_todo id) db ≡ o
          → Meets first_value sql laws (remove_one segment) body db (removed sql o)
      sent id (none, db₁) h e n = absurd (n refl)
      sent id (some r, db₁) h e n = rows id r db₁ r.rows_affected h e refl n

      step :
          (d : Decoded ℤ)
          → path_id segment ≡ d
          → IsRefusal d
          → Meets first_value sql laws (remove_one segment) body db (remove_at sql d db)
      step (refused r) h i n = did_refuse (bad_id segment refl (refused-ne _ r h)) i refl
      step (value id) h i n = sent id _ h refl n
