-- ===== src/Keda/Priority.antt =====
-- set_priority of keda/mcp-server/tools.go: what the merge reads after it.
use take.Prelude.{
  ◌≡◌, ◌≢◌, refl, sym, ap, ◌∙◌, Bool, true, false, ◌||◌, Bool-cases, inl, inr, some, Text, text_eq,
  text_eq_refl, ◌⊎◌, text_eq→eq, ltb_ℤ, if◌then◌else◌, ℤ, pos, Entries, codes, ◌++◌, arith,
}
use mathlib.Core.Option.{some-injective}
use take.Json.{Json, Fields}
use take.Numbers.{format_int, atoi, atoi-format_int}
use take.Keda.Steps.{IsInt64, require_int_arg-IsInt64, with_arg-done}
use take.Keda.World.{Outcome, done, failed, World, IsRedis}
use take.Keda.Tools.{
  or_zero, priority_in, priority_of, and_then, require_int_arg, set_checked, run_set_priority,
}

-- A value of an int64.
pub format_int-injective : (a b : ℤ) → IsInt64 a → IsInt64 b → format_int a ≡ format_int b → a ≡ b
format_int-injective a b (h, h') (k, k') e =
    some-injective _ _ (sym (atoi-format_int a h h') ∙ ap atoi e ∙ atoi-format_int b k k')

within_range : (p : ℤ) → (ltb_ℤ p (pos 0) || ltb_ℤ (pos 100) p) ≡ false → IsInt64 p
within_range p h = (ground arith, ground arith)

module _ (w : World) (laws : IsRedis w) (float_int : Json → ℤ) where
  open w use {State}

  -- The priority that the merge gives to an id in a state, whenever Redis answers.
  abbrev pub Finds : State → ℤ → ℤ → Type 0
  Finds s id p =
      (s' : State) (l : Entries Text) → w.hget_all s ≡ (done l, s') → priority_of l id ≡ p

  set_checked-done :
      (id p : ℤ) (t : Text) (s s' : State)
      → set_checked w float_int id p s ≡ (done t, s')
      → ((ltb_ℤ p (pos 0) || ltb_ℤ (pos 100) p) ≡ false)
        × (w.hset (format_int id) (format_int p) s ≡ (done tt, s'))
  unfolding set_checked and_then
  set_checked-done id p t s s' h =
      step _ _ _ (codes "storing priority: ")
        (codes "todo " ++ format_int id ++ codes " priority set to " ++ format_int p) h
    where
      step :
          (b : Bool) (r : Outcome (Unit {0}) × State) (m c n : Text)
          → (if b then (failed m, s) else and_then w c r (λ _ s₁. (done n, s₁))) ≡ (done t, s')
          → (b ≡ false) × (r ≡ (done tt, s'))
      step true r m c n h' = cc
      step false (failed e, s₁) m c n h' = cc
      step false (done u, s₁) m c n h' = (refl, ap (λ x. (done tt, x.1)) h')

  module _ (int64 : (j : Json) → IsInt64 (float_int j)) (args : Fields) (t : Text)
      (s s' : State) where
    hset-Finds :
        (id p : ℤ)
        → IsInt64 p
        → w.hset (format_int id) (format_int p) s ≡ (done tt, s')
        → Finds s' id p
    unfolding priority_of
    hset-Finds id p (k, k') h s₂ l e =
        ap priority_in (
          laws.hget_all-stored s' s₂ l (format_int id) e
          ∙ laws.hset-stored (format_int id) (format_int p) s s' (format_int id) h
          ∙ here)
        ∙ ap or_zero (atoi-format_int p k k')
      where
        here :
            (if text_eq (format_int id) (format_int id)
              then some (format_int p)
              else w.stored s (format_int id))
            ≡ some (format_int p)
        here = rw (text_eq_refl (format_int id)) refl

    hset-other :
        (id p j : ℤ)
        → IsInt64 id
        → IsInt64 j
        → j ≢ id
        → w.hset (format_int id) (format_int p) s ≡ (done tt, s')
        → w.stored s' (format_int j) ≡ w.stored s (format_int j)
    hset-other id p j i k n h =
        laws.hset-stored (format_int id) (format_int p) s s' (format_int j) h
        ∙ apart (Bool-cases (text_eq (format_int id) (format_int j)))
      where
        apart :
            (text_eq (format_int id) (format_int j) ≡ true)
              ⊎ (text_eq (format_int id) (format_int j) ≡ false)
            → (if text_eq (format_int id) (format_int j)
                then some (format_int p)
                else w.stored s (format_int j))
              ≡ w.stored s (format_int j)
        apart (inl same) = absurd (n (sym (format_int-injective id j i k (text_eq→eq _ _ same))))
        apart (inr other) = rw other refl

    -- Where the conversion of JSON numbers gives int64 values, after a successful set_priority
    -- the priority is from 0 to 100, mergeWithPriority reads it for the id whenever Redis
    -- answers, and what is stored for every other int64 id is as it was.
    pub run_set_priority-Finds :
        run_set_priority w float_int args s ≡ (done t, s')
        → (id : ℤ) × (p : ℤ) × (require_int_arg float_int args (codes "id") ≡ done id)
          × (require_int_arg float_int args (codes "priority") ≡ done p)
          × ((ltb_ℤ p (pos 0) || ltb_ℤ (pos 100) p) ≡ false)
          × Finds s' id p
          × ((j : ℤ) → IsInt64 j → j ≢ id → w.stored s' (format_int j) ≡ w.stored s (format_int j))
    unfolding run_set_priority require_int_arg
    run_set_priority-Finds h =
        let (id, read_id, h₁) = with_arg-done w float_int args (codes "id") t s s' _ h in
        let (p, read_p, h₂) = with_arg-done w float_int args (codes "priority") t s s' _ h₁ in
        let (range, set) = set_checked-done id p t s s' h₂ in
        (
          id,
          p,
          read_id,
          read_p,
          range,
          hset-Finds id p (within_range p range) set,
          λ j k n.
              hset-other id p j
                (require_int_arg-IsInt64 float_int int64 args (codes "id") id read_id) k n set,
        )
