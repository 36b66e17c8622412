-- ===== src/System/Marking.antt =====
-- A PATCH of keda/mcp-server that the API cannot but answer with 200.
use take.Prelude.{
  ◌≡◌, refl, ap, sym, subst, ◌∙◌, Bool, true, Option, none, some, List, Text, ℤ, ltb_ℤ, pos,
}
use mathlib.Core.Option.{some-injective}
use take.Json.{Json}
use take.Numbers.{format_int, atoi-format_int}
use take.Http.{Response, value}
use take.Keda.Steps.{IsInt64}
use take.Api.Todos.{Todo, row_of}
use take.Api.Requests.{Endpoint, update_one, path_id}
use take.Api.Spec.{
  ReadsUpdate, segment_of, IsBad, bad_id, bad_new_body, bad_new_title, bad_body, bad_title,
  no_change, Does, did_ping, did_refuse, did_list, did_create, did_update, did_remove, was_missing,
}
use take.System.Patching.{path_id-format_int}

pub path_id-positive :
    (id : ℤ) → IsInt64 id → ltb_ℤ (pos 0) id ≡ true → path_id (format_int id) ≡ value id
unfolding path_id
path_id-positive id (h, k) p = rw (atoi-format_int id h k, path_id) (rw p refl)

pub some-apart : {A : Type 0} {a : A} {o : Option A} → o ≡ none → o ≡ some a → ⊥
some-apart {A} {a} h k = absurd (apart (sym h ∙ k))
  where
    apart : none ≡ some a → ⊥
    apart q = cc

module _ (first_value : Bool → Text → Option Json) (body : Option Text) (id : ℤ) (d : Bool)
    (int64 : IsInt64 id) (positive : ltb_ℤ (pos 0) id ≡ true)
    (reads : ReadsUpdate first_value body (record { text = none; is_done = some d })) where
  same_segment :
      (e : Endpoint) (seg : Text)
      → e ≡ update_one (format_int id)
      → segment_of e ≡ some seg
      → format_int id ≡ seg
  same_segment e seg k q = some-injective _ _ (ap segment_of (sym k) ∙ q)

  not-IsBad : (e : Endpoint) → e ≡ update_one (format_int id) → IsBad first_value e body → ⊥
  not-IsBad e k (bad_id seg q f) = f id (
      subst (λ z. path_id z ≡ value id) (same_segment e seg k q)
        (path_id-positive id int64 positive))
  not-IsBad e k (bad_new_body q _) = cc
  not-IsBad e k (bad_new_title _ q _ _) = cc
  not-IsBad e k (bad_body _ _ q) = some-apart q reads
  not-IsBad e k (bad_title _ s b _ q t _) =
      some-apart (ap (λ z. z.text) (some-injective _ _ (sym q ∙ reads))) t
  not-IsBad e k (no_change _ _ q) =
      some-apart {a = d} refl (ap (λ z. z.is_done) (some-injective _ _ (sym q ∙ reads)))

  -- A row that is there is updated.
  pub Does-updated :
      (e : Endpoint) (x : Todo) (t t' : List Todo) (r : Response)
      → e ≡ update_one (format_int id)
      → row_of id t ≡ some x
      → Does first_value e body t r t'
      → r.status ≡ 200
  Does-updated e x t t' r k h (did_ping q _ _) = cc
  Does-updated e x t t' r k h (did_refuse b _ _) = absurd (not-IsBad e k b)
  Does-updated e x t t' r k h (did_list q _ _) = cc
  Does-updated e x t t' r k h (did_create _ _ q _ _ _ _ _ _ _) = cc
  Does-updated e x t t' r k h (did_update _ _ _ _ _ _ _ _ _ _ q _) = ap (λ z. z.status) q
  Does-updated e x t t' r k h (did_remove _ _ q _ _ _ _) = cc
  Does-updated e x t t' r k h (was_missing seg id' q p m _ _) =
      absurd (some-apart (subst (λ z. row_of z t ≡ none) same m) h)
    where
      same : id' ≡ id
      same =
          path_id-format_int id id' int64
            (subst (λ z. path_id z ≡ value id') (sym (same_segment e seg k q)) p)
