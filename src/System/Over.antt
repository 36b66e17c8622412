-- ===== src/System/Over.antt =====
-- keda/mcp-server with the API behind its HTTP client: its requests reach the handlers of
-- api/main.go. `redis` is the part of a world that is not the API.
use take.Prelude.{Bool, Option, none, some, List, [], ◌∷◌, Text, ◌==◌, if◌then◌else◌}
use take.Json.{Json}
use take.Keda.World.{Outcome, Answer, Request, World}
use take.Api.Sql.{Sql}
use take.Api.Handlers.{serve_api}
use take.Exchange.{carried}

-- The pieces between the slashes.
abbrev pub grow : List Text → (Text → Text) → List Text
grow [] f = f [] ∷ []
grow (s ∷ rest) f = f s ∷ rest

unfoldable pub cut : Text → List Text
cut [] = [] ∷ []
cut (c ∷ s) = let rest = cut s in if c == b'/' then [] ∷ rest else grow rest (λ t. c ∷ t)

-- The segments of a path that begins with a slash.
unfoldable pub segments : Text → List Text
unfolding cut
segments [] = []
segments (_ ∷ s) = cut s

-- json.Marshal of the body; no body is an empty one.
abbrev pub sent_body : (Json → Text) → Option Json → Text
sent_body marshal none = []
sent_body marshal (some j) = marshal j

module _ (sql : Sql) (first_value : Bool → Text → Option Json) (marshal : Json → Text)
    (first_document : Text → Outcome Json) (redis : World) where
  abbrev pub Both : Type 0
  Both = sql.Db × redis.State

  beside : {A : Type 0} → redis.State → A × sql.Db → A × Both
  beside s (a, db) = (a, (db, s))

  unfoldable pub send_api : Request → Both → Outcome Answer × Both
  unfolding beside
  send_api r (db, s) = beside s (
      carried marshal first_document
        (serve_api sql first_value r.method (segments r.path) (some (sent_body marshal r.body)) db))

  abbrev pub along : {A : Type 0} → sql.Db → A × redis.State → A × Both
  along db (a, s) = (a, (db, s))

  abbrev pub over_api : World
  over_api = record {
    State = Both;
    send = send_api;
    hget_all = λ b. along (b.0) (redis.hget_all (b.1));
    hset = λ f v b. along (b.0) (redis.hset f v (b.1));
    hdel = λ f b. along (b.0) (redis.hdel f (b.1));
    stored = λ b k. redis.stored (b.1) k;
  }
