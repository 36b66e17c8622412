-- ===== src/Gateway/Tests.antt =====
-- The gateway over two tabs, one of which connects again.
use take.Prelude.{◌≡◌, refl, true, none, some, List, [], ◌∷◌, codes, text_eq}
use mathlib.Core.List.{Mem}
use take.Json.{arr, nil}
use take.Gateway.Hub.{new_hub, frames_to}
use take.Gateway.Events.{
  Event, connected, received, closed, writes, chat_reply, todos_message, on_published, hub_after,
}
use take.Gateway.Delivery.{on_published-Mem, on_published-current}

abbrev visits : List Event
visits =
    connected (codes "a") 1
    ∷ connected (codes "b") 2
    ∷ received (codes "a") 1 (codes "chat") (codes "hi") true none
    ∷ closed (codes "b")
    ∷ []

on_published-current_example :
    on_published (codes "chat:a") (codes "hello") none (hub_after visits new_hub)
    ≡ writes (record { conn = 1; content = chat_reply (codes "hello") } ∷ [])
unfolding text_eq frames_to
on_published-current_example = on_published-current visits (codes "a") (codes "hello") none

on_published-Mem_example :
    Mem
      (record { conn = 1; content = todos_message (arr nil) })
      (on_published (codes "todos:changed") [] (some (arr nil)) (hub_after visits new_hub)).frames
unfolding text_eq
on_published-Mem_example = on_published-Mem visits (codes "a") [] 1 (arr nil) refl
