-- ===== src/Keda/Merge.antt =====
-- mergeWithPriority of keda/mcp-server/tools.go: the order of the merged todos.
use take.Prelude.{
  ◌≡◌, refl, subst, ◌||◌, Bool, true, false, not, ◌&&◌, Option, none, some, List, map, Text, ltb_ℤ,
  if◌then◌else◌, ℤ, pos, lookup, Pairwise, Pairwise-map, Entries, IsSortedBy, sort_slice,
  sort_slice-perm, sort_slice-IsSortedBy, arith,
}
use mathlib.Core.List.{Perm}
use take.Numbers.{format_int, atoi}
use take.Keda.World.{done, World}
use take.Keda.Tools.{
  ApiTodo, MergedTodo, or_zero, priority_in, priority_of, more_urgent, with_priority, same_int,
  and_then, merge_with_priority,
}

-- The order on a priority and an id.
abbrev urgent : ℤ → ℤ → ℤ → ℤ → Bool
urgent p i q j = if not (same_int p q) then ltb_ℤ q p else ltb_ℤ i j

urgent-asym : (p i q j : ℤ) → urgent p i q j ≡ true → urgent q j p i ≡ false
urgent-asym p i q j h = ground arith

urgent-cotrans :
    (p i q j r k : ℤ) → urgent q j p i ≡ false → urgent r k q j ≡ false → urgent r k p i ≡ false
urgent-cotrans p i q j r k h l = ground arith

-- A higher priority, or the same one and a lesser id.
abbrev pub comes_first : MergedTodo → MergedTodo → Bool
comes_first a b = ltb_ℤ b.priority a.priority || same_int a.priority b.priority && ltb_ℤ a.id b.id

urgent_eq : (p i q j : ℤ) → urgent p i q j ≡ (ltb_ℤ q p || same_int p q && ltb_ℤ i j)
urgent_eq p i q j = ground arith

more_urgent_eq : more_urgent ≡ comes_first
unfolding more_urgent
more_urgent_eq i a b = urgent_eq a.priority a.id b.priority b.id i

pub sort_slice-comes_first :
    (l : List MergedTodo) → IsSortedBy comes_first (sort_slice more_urgent l)
unfolding more_urgent
sort_slice-comes_first l =
    subst (λ r. IsSortedBy r (sort_slice more_urgent l)) more_urgent_eq
      (sort_slice-IsSortedBy more_urgent (λ a b. urgent-asym a.priority a.id b.priority b.id)
        (λ a b c. urgent-cotrans a.priority a.id b.priority b.id c.priority c.id) l)

-- The priority of an id: the number that the hash holds for it, and 0 where it holds none.
pub data HasPriority (priorities : Entries Text) (id : ℤ) : ℤ → Type 0 where
  held :
      (v : Text) (p : ℤ)
      → lookup (format_int id) priorities ≡ some v
      → atoi v ≡ some p
      → HasPriority priorities id p
  unreadable :
      (v : Text)
      → lookup (format_int id) priorities ≡ some v
      → atoi v ≡ none
      → HasPriority priorities id (pos 0)
  missing : lookup (format_int id) priorities ≡ none → HasPriority priorities id (pos 0)

pub priority_of-HasPriority :
    (priorities : Entries Text) (id : ℤ) → HasPriority priorities id (priority_of priorities id)
unfolding priority_of
priority_of-HasPriority priorities id = at (lookup (format_int id) priorities) refl
  where
    at :
        (o : Option Text)
        → lookup (format_int id) priorities ≡ o
        → HasPriority priorities id (priority_in o)
    at none h = missing h
    at (some v) h = read (atoi v) refl
      where
        read : (n : Option ℤ) → atoi v ≡ n → HasPriority priorities id (or_zero n)
        read none k = unreadable v h k
        read (some p) k = held v p h k

-- A todo as mergeWithPriority returns it.
pub record IsMerged (priorities : Entries Text) (t : ApiTodo) (m : MergedTodo) : Type 0 where
  pub same_id : m.id ≡ t.id
  pub same_text : m.text ≡ t.text
  pub same_done : m.is_done ≡ t.is_done
  pub prioritised : HasPriority priorities t.id m.priority

pub with_priority-IsMerged :
    (priorities : Entries Text) (t : ApiTodo) → IsMerged priorities t (with_priority priorities t)
unfolding with_priority
with_priority-IsMerged priorities t = record {
  same_id = refl;
  same_text = refl;
  same_done = refl;
  prioritised = priority_of-HasPriority priorities t.id;
}

module _ (w : World) where
  open w use {State}

  -- When Redis answers, mergeWithPriority returns a permutation of the todos, each with its id,
  -- its text, its mark and the number that the hash holds for its id, or 0 where it holds none,
  -- by descending priority and ascending id.
  pub merge_with_priority-sorted :
      (todos : List ApiTodo) (s s' : State) (priorities : Entries Text)
      → w.hget_all s ≡ (done priorities, s')
      → (merged : List MergedTodo) × (each : List MergedTodo) × (merge_with_priority w todos s
          ≡ (done merged, s'))
        × IsSortedBy comes_first merged
        × Perm merged each
        × Pairwise (IsMerged priorities) todos each
  unfolding merge_with_priority and_then more_urgent
  merge_with_priority-sorted todos s s' priorities h = (
    sort_slice more_urgent each,
    each,
    rw h refl,
    sort_slice-comes_first each,
    sort_slice-perm more_urgent each,
    Pairwise-map (IsMerged priorities) _ (with_priority-IsMerged priorities) todos,
  )
    where
      each : List MergedTodo
      each = map (with_priority priorities) todos
