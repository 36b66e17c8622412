-- ===== src/Gateway/Hub.antt =====
-- keda/websocket-gateway/hub.go. A connection is a number; the map goes from session ids to them,
-- kept in the order of the ids, while Go walks through it in any order.
use take.Prelude.{ℕ, Option, none, some, List, [], ◌∷◌, map, Text, Entries, lookup, insert, remove}
use take.Json.{Json}

abbrev pub Hub : Type 0
Hub = Entries ℕ

-- wsjson.Write of a value to a connection.
pub record Frame : Type 0 where
  pub conn : ℕ
  pub content : Json

abbrev pub new_hub : Hub
new_hub = []

unfoldable pub register : Text → ℕ → Hub → Hub
register session_id conn h = insert session_id conn h

unfoldable pub unregister : Text → Hub → Hub
unregister session_id h = remove session_id h

-- No frame where the session has no connection.
unfoldable pub frames_to : Json → Option ℕ → List Frame
frames_to v none = []
frames_to v (some c) = record { conn = c; content = v } ∷ []

unfoldable pub send_to : Text → Json → Hub → List Frame
unfolding frames_to
send_to session_id v h = frames_to v (lookup session_id h)

unfoldable pub broadcast : Json → Hub → List Frame
broadcast v h = map (λ e. record { conn = e.1; content = v }) h
