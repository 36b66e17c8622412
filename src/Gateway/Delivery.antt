-- ===== src/Gateway/Delivery.antt =====
-- Where the frames of keda/websocket-gateway go.
use take.Prelude.{
  ◌≡◌, refl, ap, sym, subst, ◌∙◌, ℕ, Bool, true, false, Option, none, some, List, [], ◌∷◌, ◌++◌,
  Text, codes, text_eq, if◌then◌else◌, lookup, insert, remove, IsOrdered, insert-IsOrdered,
  remove-IsOrdered, lookup-insert, lookup-remove, arith,
}
use mathlib.Core.Option.{some-injective}
use mathlib.Core.List.{Mem, mem-cons_of_mem, mem-cons_self}
use take.Json.{Json}
use take.Gateway.Hub.{Hub, new_hub, register, unregister, frames_to, send_to, broadcast}
use take.Gateway.Events.{
  Event, connected, greeted, received, closed, published, writes, chat_reply, todos_message,
  cut_prefix, on_published, step, hub_after,
}

-- The connection of a session by the events alone: the last one connected under its id and not
-- closed since, from `c` on.
abbrev pub current : List Event → Text → Option ℕ → Option ℕ
current [] id c = c
current (connected a conn ∷ es) id c = current es id (if text_eq a id then some conn else c)
current (received _ _ _ _ _ _ ∷ es) id c = current es id c
current (greeted _ _ ∷ es) id c = current es id c
current (closed a ∷ es) id c = current es id (if text_eq a id then none else c)
current (published _ _ _ ∷ es) id c = current es id c

lookup-hub_after :
    (es : List Event) (h : Hub) (id : Text)
    → IsOrdered h
    → lookup id (hub_after es h) ≡ current es id (lookup id h)
unfolding hub_after step register unregister
lookup-hub_after [] h id o = refl
lookup-hub_after (connected a conn ∷ es) h id o =
    lookup-hub_after es (insert a conn h) id (insert-IsOrdered a conn h o)
    ∙ ap (current es id) (lookup-insert a id conn h)
lookup-hub_after (received a b c d e f ∷ es) h id o = lookup-hub_after es h id o
lookup-hub_after (greeted a t ∷ es) h id o = lookup-hub_after es h id o
lookup-hub_after (closed a ∷ es) h id o =
    lookup-hub_after es (remove a h) id (remove-IsOrdered a h o)
    ∙ ap (current es id) (lookup-remove a id h o)
lookup-hub_after (published a b c ∷ es) h id o = lookup-hub_after es h id o

cut_prefix-append : (p s : Text) → cut_prefix p (p ++ s) ≡ some s
unfolding cut_prefix
cut_prefix-append [] s = refl
cut_prefix-append (c ∷ p) s = ground (arith, cut_prefix-append p s)

-- After any events from an empty hub, a message on the channel "chat:" and an id makes one frame,
-- to the connection that was connected last under the id and not closed since, or none where
-- there is no such connection.
pub on_published-current :
    (es : List Event) (id payload : Text) (todos : Option Json)
    → on_published (codes "chat:" ++ id) payload todos (hub_after es new_hub)
      ≡ writes (frames_to (chat_reply payload) (current es id none))
unfolding on_published send_to text_eq cut_prefix lookup
on_published-current es id payload todos =
    ap (λ c. writes (frames_to (chat_reply payload) c)) (lookup-hub_after es new_hub id tt)

frame-broadcast :
    (v : Json) (h : Hub) (id : Text) (c : ℕ)
    → lookup id h ≡ some c
    → Mem (record { conn = c; content = v }) (broadcast v h)
unfolding broadcast lookup
frame-broadcast v [] id c e = cc
frame-broadcast v ((a, d) ∷ h) id c e = at (text_eq a id) e (frame-broadcast v h id c)
  where
    at :
        (b : Bool)
        → (if b then some d else lookup id h) ≡ some c
        → (lookup id h ≡ some c → Mem (record { conn = c; content = v }) (broadcast v h))
        → Mem (record { conn = c; content = v }) (record { conn = d; content = v } ∷ broadcast v h)
    at true e' rest =
        subst
          (λ n.
            Mem (record { conn = c; content = v })
              (record { conn = n; content = v } ∷ broadcast v h))
          (some-injective _ _ (sym e')) mem-cons_self
    at false e' rest = mem-cons_of_mem _ (rest e')

-- After any events from an empty hub, a message on "todos:changed" for which the list of todos is
-- fetched writes that list to the current connection of every id.
pub on_published-Mem :
    (es : List Event) (id payload : Text) (c : ℕ) (todos : Json)
    → current es id none ≡ some c
    → Mem
        (record { conn = c; content = todos_message todos })
        (on_published (codes "todos:changed") payload (some todos) (hub_after es new_hub)).frames
unfolding on_published text_eq lookup
on_published-Mem es id payload c todos h =
    frame-broadcast (todos_message todos) (hub_after es new_hub) id c
      (lookup-hub_after es new_hub id tt ∙ h)
