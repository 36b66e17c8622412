-- ===== src/Api/Invariant.antt =====
-- The table of the API along any requests.
use take.Prelude.{◌≢◌, inl, inr, sym, subst, Bool, Option, List, [], ◌∷◌, Text}
use take.Json.{Json}
use take.Http.{Response}
use take.Api.Todos.{Todo, remove_row}
use take.Api.Sql.{Sql, IsMySql}
use take.Api.Requests.{Endpoint}
use take.Api.Handlers.{serve_api}
use take.Api.Spec.{
  Does, did_ping, did_refuse, did_list, did_create, did_update, did_remove, was_missing,
}
use take.Api.Contract.{serve_api-Does}
use take.Api.Table.{IsTable, append-IsTable, set_row-IsTable, keep-IsTable}

-- A request as the mux sees it.
pub record Call : Type 0 where
  pub method : Text
  pub path : List Text
  pub body : Option Text

module _ (first_value : Bool → Text → Option Json) where
  Does-IsTable :
      (e : Endpoint) (body : Option Text) (t t' : List Todo) (r : Response)
      → Does first_value e body t r t'
      → IsTable t
      → IsTable t'
  unfolding remove_row
  Does-IsTable e body t t' r (did_ping _ _ k) h = subst IsTable (sym k) h
  Does-IsTable e body t t' r (did_refuse _ _ k) h = subst IsTable (sym k) h
  Does-IsTable e body t t' r (did_list _ _ k) h = subst IsTable (sym k) h
  Does-IsTable e body t t' r (did_create b x _ _ _ f _ n _ k) h =
      subst IsTable (sym k) (append-IsTable t x f n h)
  Does-IsTable e body t t' r (did_update _ id b text x _ _ _ g _ _ k) h =
      subst IsTable (sym k) (set_row-IsTable b.text text b.is_done id t g h)
  Does-IsTable e body t t' r (did_remove _ id _ _ _ _ k) h =
      subst IsTable (sym k) (keep-IsTable _ t h)
  Does-IsTable e body t t' r (was_missing _ _ _ _ _ _ k) h = subst IsTable (sym k) h

  module _ (sql : Sql) where
    abbrev pub answer_to : Call → sql.Db → Response × sql.Db
    answer_to c db = serve_api sql first_value c.method c.path c.body db

    -- The database after some requests, the first of them first.
    abbrev pub serve_all : List Call → sql.Db → sql.Db
    serve_all [] db = db
    serve_all (c ∷ cs) db = serve_all cs (answer_to c db).1

    -- None of them meets a failure of the database.
    abbrev pub AllServed : List Call → sql.Db → Type 0
    AllServed [] db = Unit
    AllServed (c ∷ cs) db = ((answer_to c db).0.status ≢ 502) × AllServed cs (answer_to c db).1

    answer_to-IsTable :
        IsMySql sql
        → (c : Call) (db : sql.Db) → (answer_to c db).0.status ≢ 502
        → IsTable (sql.table db)
        → IsTable (sql.table (answer_to c db).1)
    answer_to-IsTable laws c db n h =
        elim (serve_api-Does first_value sql laws c.method c.path c.body db n) [
          | inl (e, p, m) ↦ Does-IsTable e c.body _ _ _ m h
          | inr (p, u, k) ↦ subst (λ d. IsTable (sql.table d)) (sym k) h
        ]

    -- Over a database that keeps the documented behaviour of MySQL, the titles of the table stay
    -- not empty and of at most 500 characters, and its ids distinct, along any requests to the
    -- API none of which is answered with 502.
    pub serve_all-IsTable :
        IsMySql sql
        → (cs : List Call) (db : sql.Db) → AllServed cs db
        → IsTable (sql.table db)
        → IsTable (sql.table (serve_all cs db))
    serve_all-IsTable laws [] db n h = h
    serve_all-IsTable laws (c ∷ cs) db (n, m) h =
        serve_all-IsTable laws cs _ m (answer_to-IsTable laws c db n h)
