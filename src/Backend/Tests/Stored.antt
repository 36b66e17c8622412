-- ===== src/Backend/Tests/Stored.antt =====
-- The theorems on texts, records and the store of agent/backend at concrete inputs.
use take.Prelude.{
  ◌≡◌, ◌↔◌, refl, true, none, List, arith, codes, text_lt, lookup, IsSortedBy, Pairwise,
}
use mathlib.Core.List.{Perm}
use take.Backend.Clock.{now_rfc3339}
use take.Backend.Clock.Order.{now_rfc3339_reversed}
use take.Backend.Keys.{session_key}
use take.Backend.Records.{Session}
use take.Backend.Bolt.{sessions}
use take.Backend.Memory.{memory, empty_memory, memory-IsBolt}
use take.Backend.Store.{
  ok, err, not_found, get_session, list_sessions, append_message, delete_session,
}
use take.Backend.Store.Invariant.{IsSound}
use take.Backend.Store.Delete.{not_found_iff}
use take.Backend.Store.Listing.{Holds, list_sessions-sorted}
use take.Backend.Store.Runs.{run, run-IsSound}
use take.Backend.Tests.{noon, other, script, filled, filled-IsSound}

now_rfc3339_reversed_example :
    text_lt
      (now_rfc3339 (record { seconds = 1753272000; nanos = 5 }))
      (now_rfc3339 (record { seconds = 1753272000; nanos = 0 }))
    ≡ true
now_rfc3339_reversed_example = now_rfc3339_reversed 1753272000 5 (omega arith)

not_found_iff_example :
    ((get_session memory other filled ≡ err not_found)
      ↔ (lookup (session_key other) (filled.held sessions) ≡ none))
    × (((append_message memory noon other (codes "user") (codes "hi") filled).0 ≡ err not_found)
        ↔ (lookup (session_key other) (filled.held sessions) ≡ none))
    × (((delete_session memory other filled).0 ≡ err not_found)
        ↔ (lookup (session_key other) (filled.held sessions) ≡ none))
not_found_iff_example = not_found_iff memory other filled noon (codes "user") (codes "hi")

list_sessions-sorted_example :
    (all : List Session) × (ss : List Session) × Pairwise Holds (filled.held sessions) all
    × (list_sessions memory filled ≡ ok ss)
    × Perm ss all
    × IsSortedBy (λ s t. text_lt t.updated s.updated) ss
list_sessions-sorted_example = list_sessions-sorted memory filled filled-IsSound

run-IsSound_example : IsSound memory (run memory script empty_memory)
run-IsSound_example = run-IsSound memory memory-IsBolt script empty_memory (λ b. refl) (omega arith)
