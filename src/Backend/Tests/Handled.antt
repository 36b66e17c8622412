-- ===== src/Backend/Tests/Handled.antt =====
-- The theorems on the handlers of agent/backend at concrete requests.
use take.Prelude.{
  ◌≡◌, ◌↔◌, ◌<◌, ◌⊎◌, refl, true, Option, none, some, List, [], ◌∷◌, arith, Text, codes, text_eq,
  if◌then◌else◌, replicate,
}
use take.Json.{Json, obj, field, end, str, names}
use take.Strings.{byte_len, trim_space}
use take.Http.{Response, document}
use take.Backend.Records.{Message, SessionDetail, encode_message, encode_detail}
use take.Backend.Memory.{Memory, memory, memory-IsBolt}
use take.Backend.Store.{ok, err, not_found, get_session, list_messages, append_message}
use take.Backend.Store.Invariant.{IsNumbered}
use take.Backend.Handlers.{Input, get_one, append_to, respond, serve, no_such_session}
use take.Backend.Handlers.Safety.{serve_unchanged}
use take.Backend.Handlers.Limits.{too_large, appends, respond-too_large}
use take.Backend.Handlers.Contents.{append_stores-IsTurn, get_one_sound, IsTurn}
use take.Backend.Tests.{noon, id, filled, filled-IsSound, store}

abbrev posted : Text
posted = codes "{\"role\":\"user\",\"content\":\"bye\"}"

-- A parser of that one document.
abbrev parse : Text → Option Json
parse raw =
    if text_eq raw posted
    then some (
        obj (
          field (codes "role") (str (codes "user"))
            (field (codes "content") (str (codes "bye")) end)))
    else none

abbrev request : Option Text → Input
request body = record { body = body; now = noon; random = none; later = noon; is_open = true }

abbrev missing : List Text
missing = codes "api" ∷ codes "sessions" ∷ codes "00ab11" ∷ codes "messages" ∷ []

serve_unchanged_example :
    (serve parse memory (codes "POST") missing (request (some posted)) filled).1 ≡ filled
unfolding store serve respond names byte_len trim_space
serve_unchanged_example =
    serve_unchanged parse memory (codes "POST") missing (request (some posted)) filled
      (λ e. omega (arith, e)) (λ e. omega (arith, e))

abbrev long : Text
long = replicate 4097 b'x'

long_len : 4096 < byte_len long
unfolding byte_len
long_len = omega arith

respond-too_large_example :
    (((respond parse memory (append_to id) (request (some long)) filled).0 ≡ too_large)
      ↔ (4096 < byte_len long))
    × (4096 < byte_len long
        → (respond parse memory (append_to id) (request (some long)) filled).1 ≡ filled)
respond-too_large_example =
    respond-too_large parse memory (append_to id) (request (some long)) long filled (appends id)
      refl

abbrev answered : Response × Memory
answered = respond parse memory (append_to id) (request (some posted)) filled

answered_status : answered.0.status ≡ 201
unfolding store respond names byte_len trim_space
answered_status = refl

append_stores-IsTurn_example :
    (m : Message) × (answered.0.body ≡ document (encode_message m))
    × (append_message memory noon id m.role m.content filled ≡ (ok m, answered.1))
    × IsTurn parse memory id m
append_stores-IsTurn_example =
    append_stores-IsTurn parse memory memory-IsBolt id (request (some posted)) filled
      answered_status

get_one_sound_example :
    ((get_session memory id filled ≡ err not_found)
      × (respond parse memory (get_one id) (request none) filled ≡ (no_such_session, filled)))
    ⊎ ((d : SessionDetail) × (respond parse memory (get_one id) (request none) filled
          ≡ (record { status = 200; body = document (encode_detail d) }, filled))
        × (get_session memory id filled ≡ ok d.base)
        × (d.base.id ≡ id)
        × (list_messages memory id filled ≡ ok d.messages)
        × IsNumbered id 0 d.messages)
unfolding store
get_one_sound_example =
    get_one_sound parse memory memory-IsBolt id (request none) filled filled-IsSound
      (refl, (refl, (refl, (refl, (refl, (refl, tt)))))) (omega arith)
