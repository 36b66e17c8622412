-- ===== src/Gateway/Events.antt =====
-- keda/websocket-gateway/main.go: handleWS and subscribeUpdates, cut into the events between which
-- the goroutines of the connections and of the subscription may take turns. `todos` is what
-- callTool of list_todos returns then, `none` for an error or a text that is not JSON;
-- `queued` is whether XADD succeeds, whose error is logged alone.
use take.Prelude.{
  ℕ, Bool, Option, none, some, List, [], ◌∷◌, Text, codes, text_eq, ◌==◌, if◌then◌else◌,
}
use take.Json.{Json, obj, field, end, str}
use take.Strings.{trim_space}
use take.Gateway.Hub.{Hub, Frame, register, unregister, frames_to, send_to, broadcast}

-- `connected` is handleWS up to the registration, `greeted` its first sending of the list.
pub data Event : Type 0 where
  connected : Text → ℕ → Event
  greeted : ℕ → Option Json → Event
  received : Text → ℕ → Text → Text → Bool → Option Json → Event
  closed : Text → Event
  published : Text → Text → Option Json → Event

-- The frames that are written, and the entries (session id, message) added to `agent:tasks`.
pub record Effects : Type 0 where
  pub frames : List Frame
  pub tasks : List (Text × Text)

abbrev pub no_effect : Effects
no_effect = record { frames = []; tasks = [] }

abbrev pub writes : List Frame → Effects
writes fs = record { frames = fs; tasks = [] }

abbrev pub todos_message : Json → Json
todos_message todos =
    obj (field (codes "todos") todos (field (codes "type") (str (codes "todos")) end))

abbrev pub chat_reply : Text → Json
chat_reply payload =
    obj (field (codes "text") (str payload) (field (codes "type") (str (codes "chat_reply")) end))

-- strings.CutPrefix
unfoldable pub cut_prefix : Text → Text → Option Text
cut_prefix [] s = some s
cut_prefix (_ ∷ _) [] = none
cut_prefix (c ∷ p) (d ∷ s) = let rest = cut_prefix p s in if c == d then rest else none

-- The fresh list to one connection.
unfoldable pub send_todos : ℕ → Option Json → Effects
unfolding frames_to
send_todos conn none = no_effect
send_todos conn (some todos) = writes (frames_to (todos_message todos) (some conn))

-- A message that handleWS reads from its connection.
unfoldable pub on_message : Text → ℕ → Text → Text → Bool → Option Json → Effects
unfolding send_todos
on_message session_id conn type' text queued todos =
    if text_eq type' (codes "chat")
    then (if text_eq (trim_space text) []
        then no_effect
        else if queued
        then record { frames = []; tasks = (session_id, text) ∷ [] }
        else no_effect)
    else if text_eq type' (codes "refresh")
    then send_todos conn todos
    else no_effect

broadcast_todos : Option Json → Hub → Effects
broadcast_todos none h = no_effect
broadcast_todos (some todos) h = writes (broadcast (todos_message todos) h)

reply_to : Option Text → Text → Hub → Effects
reply_to none payload h = no_effect
reply_to (some session_id) payload h = writes (send_to session_id (chat_reply payload) h)

-- A message of the subscription.
unfoldable pub on_published : Text → Text → Option Json → Hub → Effects
unfolding broadcast_todos reply_to
on_published channel payload todos h =
    if text_eq channel (codes "todos:changed")
    then broadcast_todos todos h
    else reply_to (cut_prefix (codes "chat:") channel) payload h

unfoldable pub step : Event → Hub → Effects × Hub
unfolding on_message on_published send_todos
step (connected session_id conn) h = (no_effect, register session_id conn h)
step (greeted conn todos) h = (send_todos conn todos, h)
step (received session_id conn type' text queued todos) h =
    (on_message session_id conn type' text queued todos, h)
step (closed session_id) h = (no_effect, unregister session_id h)
step (published channel payload todos) h = (on_published channel payload todos h, h)

-- The hub after some events, the first of them first.
unfoldable pub hub_after : List Event → Hub → Hub
unfolding step
hub_after [] h = h
hub_after (e ∷ es) h = hub_after es (step e h).1
