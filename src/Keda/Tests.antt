-- ===== src/Keda/Tests.antt =====
-- The tools of keda/mcp-server over an API that answers every request and a hash in memory, and the
-- theorems at inputs that meet their hypotheses.
use take.Prelude.{
  ◌≡◌, ◌≢◌, refl, Bool, true, false, ◌||◌, List, [], ◌∷◌, Pairwise, Text, codes, text_eq, ltb_ℤ, ℤ,
  pos, negsuc, ◌^◌, ltb, lookup, IsSortedBy, if◌then◌else◌, decimal, arith,
}
use mathlib.Core.List.{Perm}
use take.Json.{Json, null, bool, int, real, str, arr, obj, Fields, field, end}
use take.Numbers.{format_int}
use take.Keda.World.{Outcome, done}
use take.Keda.Tools.{
  ApiTodo, MergedTodo, merge_with_priority, value_of, require_int_arg, run_set_priority,
}
use take.Kube.Server.{CallToolParams}
use take.Keda.Server.{run_tool}
use take.Keda.Writes.{Keeps, run_tool-Keeps}
use take.Keda.Hash.{hash_world, hash_world-IsRedis, Hash}
use take.Keda.Merge.{comes_first, IsMerged, merge_with_priority-sorted}
use take.Keda.Steps.{IsInt64}
use take.Keda.Priority.{Finds, run_set_priority-Finds}

-- Whole numbers of a float64 as they are, within the range of an int64.
abbrev whole : Json → ℤ
whole (int (pos n)) = if ltb n (2 ^ 53) then pos n else pos 0
whole _ = pos 0

whole-IsInt64 : (j : Json) → IsInt64 (whole j)
whole-IsInt64 (int (pos n)) = capped (ltb n (2 ^ 53)) refl
  where
    capped : (b : Bool) → ltb n (2 ^ 53) ≡ b → IsInt64 (if b then pos n else pos 0)
    capped true e = (ground arith, ground arith)
    capped false e = (refl, refl)
whole-IsInt64 (int (negsuc n)) = (refl, refl)
whole-IsInt64 null = (refl, refl)
whole-IsInt64 (bool _) = (refl, refl)
whole-IsInt64 (real _) = (refl, refl)
whole-IsInt64 (str _) = (refl, refl)
whole-IsInt64 (arr _) = (refl, refl)
whole-IsInt64 (obj _) = (refl, refl)

abbrev start : Hash
start = record { held = (codes "7", codes "90") ∷ []; sorted = (tt, tt) }

abbrev todo : ℤ → ApiTodo
todo id = record { id = id; text = codes "t"; is_done = false; created = [] }

abbrev todos : List ApiTodo
todos = todo (pos 3) ∷ todo (pos 7) ∷ []

merge_with_priority-sorted_example :
    (merged : List MergedTodo) × (each : List MergedTodo) × (merge_with_priority hash_world todos
        start
      ≡ (done merged, start))
    × IsSortedBy comes_first merged
    × Perm merged each
    × Pairwise (IsMerged ((codes "7", codes "90") ∷ [])) todos each
merge_with_priority-sorted_example =
    merge_with_priority-sorted hash_world todos start start ((codes "7", codes "90") ∷ []) refl

abbrev args : Fields
args = field (codes "id") (int (pos 3)) (field (codes "priority") (int (pos 95)) end)

abbrev raised : Outcome Text × Hash
raised = run_set_priority hash_world whole args start

raises : raised ≡ (done (codes "todo 3 priority set to 95"), raised.1)
unfolding run_set_priority require_int_arg value_of format_int decimal text_eq
raises = refl

run_set_priority-Finds_example :
    (id : ℤ) × (p : ℤ) × (require_int_arg whole args (codes "id") ≡ done id)
    × (require_int_arg whole args (codes "priority") ≡ done p)
    × ((ltb_ℤ p (pos 0) || ltb_ℤ (pos 100) p) ≡ false)
    × Finds hash_world hash_world-IsRedis whole (raised.1) id p
    × ((j : ℤ)
        → IsInt64 j
        → j ≢ id
        → lookup (format_int j) (raised.1).held ≡ lookup (format_int j) start.held)
run_set_priority-Finds_example =
    run_set_priority-Finds hash_world hash_world-IsRedis whole whole-IsInt64 args
      (codes "todo 3 priority set to 95") start (raised.1) raises

abbrev completing : CallToolParams
completing = record { name = codes "complete_todo"; arguments = args }

run_tool-Keeps_example :
    Keeps hash_world hash_world-IsRedis start
      (run_tool hash_world whole (λ _. []) (λ _. []) completing start)
unfolding text_eq
run_tool-Keeps_example =
    run_tool-Keeps hash_world hash_world-IsRedis whole (λ _. []) (λ _. []) completing start refl
      refl
