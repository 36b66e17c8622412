-- ===== src/Api/Contract.antt =====
-- Every request to the API of api/main.go against the promises of Api/Spec.
use take.Prelude.{
  ◌≡◌, ◌≢◌, ◌⊎◌, inl, inr, refl, sym, subst, ◌∙◌, Bool, Option, none, some, List, [], ◌∷◌, Text,
}
use mathlib.Core.Option.{some-injective}
use take.Json.{Json}
use take.Http.{Response, pick}
use take.Api.Sql.{Sql, IsMySql}
use take.Api.Requests.{Endpoint, health, list_all, create_one, update_one, remove_one, api_routes}
use take.Api.Handlers.{answer_at, route_to, serve_api}
use take.Api.Spec.{Does}
use take.Api.Refines.{Meets, health-Meets, list_all-Meets, create-Meets}
use take.Api.Changes.{update-Meets, remove-Meets}

-- The response of the mux where no pattern takes the request.
abbrev pub IsUnrouted : Response → Type 0
IsUnrouted r = (r.status ≡ 404) ⊎ (r.status ≡ 405)

module _ (first_value : Bool → Text → Option Json) (sql : Sql) (laws : IsMySql sql) where
  open sql use {Db, table}

  answer_at-Meets :
      (e : Endpoint) (body : Option Text) (db : Db)
      → Meets first_value sql laws e body db (answer_at sql first_value e body db)
  unfolding answer_at
  answer_at-Meets health body db n = health-Meets first_value sql laws body db n
  answer_at-Meets list_all body db n = list_all-Meets first_value sql laws body db n
  answer_at-Meets create_one body db n = create-Meets first_value sql laws body db n
  answer_at-Meets (update_one segment) body db n =
      update-Meets first_value sql laws segment body db n
  answer_at-Meets (remove_one segment) body db n =
      remove-Meets first_value sql laws segment body db n

  -- Over a database that keeps the documented behaviour of MySQL, a request to the API that is
  -- not answered with 502 either fits no route, is answered with 404 or 405 and leaves the
  -- database as it was, or does what its endpoint promises: the response and the table after it
  -- are those of a list, of a creation of a trimmed title of 1 to 500 characters under a new id,
  -- of an update of the given columns of one row, of a removal of one row, of a missing row, of a
  -- refusal with 400 because of a bad id, body or title or of nothing to update, or of a probe,
  -- which both change nothing.
  pub serve_api-Does :
      (method : Text) (path : List Text) (body : Option Text) (db : Db)
      → (serve_api sql first_value method path body db).0.status ≢ 502
      → ((e : Endpoint) × (pick method (api_routes path) ≡ some e)
          × Does first_value e body
              (table db)
              (serve_api sql first_value method path body db).0
              (table (serve_api sql first_value method path body db).1))
        ⊎ ((pick method (api_routes path) ≡ none)
            × IsUnrouted (serve_api sql first_value method path body db).0
            × ((serve_api sql first_value method path body db).1 ≡ db))
  unfolding serve_api route_to pick
  serve_api-Does method path body db n = step (api_routes path) _ refl n
    where
      step :
          (rs : List (Text × Endpoint)) (o : Option Endpoint)
          → pick method rs ≡ o
          → (route_to sql first_value rs o body db).0.status ≢ 502
          → ((e : Endpoint) × (o ≡ some e)
              × Does first_value e body
                  (table db)
                  (route_to sql first_value rs o body db).0
                  (table (route_to sql first_value rs o body db).1))
            ⊎ ((o ≡ none)
                × IsUnrouted (route_to sql first_value rs o body db).0
                × ((route_to sql first_value rs o body db).1 ≡ db))
      step [] none h n' = inr (refl, inl refl, refl)
      step [] (some e) h n' = absurd (empty h)
        where
          empty : none ≡ some e → ⊥
          empty k = cc
      step (r ∷ rs) none h n' = inr (refl, inr refl, refl)
      step (r ∷ rs) (some e) h n' = inl (e, refl, answer_at-Meets e body db n')

  -- The same where the endpoint is known.
  pub serve_api-routed :
      (method : Text) (path : List Text) (body : Option Text) (db : Db) (e : Endpoint)
      → pick method (api_routes path) ≡ some e
      → (serve_api sql first_value method path body db).0.status ≢ 502
      → Does first_value e body
          (table db)
          (serve_api sql first_value method path body db).0
          (table (serve_api sql first_value method path body db).1)
  serve_api-routed method path body db e p n = elim (serve_api-Does method path body db n) [
    | inl (e', p', m) ↦
        subst
          (λ x.
            Does first_value x body (table db) (serve_api sql first_value method path body db).0
              (table (serve_api sql first_value method path body db).1))
          (some-injective _ _ (sym p' ∙ p)) m
    | inr (p', _, _) ↦ absurd (apart (sym p' ∙ p))
  ]
    where
      apart : none ≡ some e → ⊥
      apart h = cc
