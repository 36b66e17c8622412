-- ===== src/Exchange.antt =====
-- An exchange over HTTP between two services of the repository: a request of one is handled by the
-- other, and its response read by the first. `marshal` is encoding/json's text of a document, and
-- `first_document` the first document in a text or the decoder's error.
use take.Prelude.{[], ◌∷◌, ◌++◌, Text}
use take.Json.{Json}
use take.Http.{Body, nothing, plain, document, Response}
use take.Keda.World.{Outcome, done, Answer}

-- json.Encoder ends a document with a newline.
abbrev pub encoded : (Json → Text) → Json → Text
encoded marshal j = marshal j ++ b'\n' ∷ []

module _ (marshal : Json → Text) (first_document : Text → Outcome Json) where
  abbrev body_text : Body → Text
  body_text nothing = []
  body_text (plain t) = t
  body_text (document j) = encoded marshal j

  unfoldable pub answer_of : Response → Answer
  answer_of r = record {
    status = r.status;
    text = body_text r.body;
    document = first_document (body_text r.body);
  }

  unfoldable pub carried : {S : Type 0} → Response × S → Outcome Answer × S
  unfolding answer_of
  carried (r, s) = (done (answer_of r), s)
