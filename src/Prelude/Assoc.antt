-- ===== src/Prelude/Assoc.antt =====
-- Association lists in strictly increasing order of text keys: what a key-value bucket holds.
use mathlib.Core.Path.{◌≡◌, refl}
use mathlib.Core.Bool.{true, false}
use mathlib.Core.Option.{Option, none, some}
use mathlib.Core.List.{List, [], ◌∷◌}
use native.Mathlib.Omega.{arith}
use mathlib.Core.Logic.{inl, inr}
use take.Prelude.Tests.{if◌then◌else◌, Bool-cases}
use take.Prelude.Lists.{keep, All}
use take.Prelude.Texts.{
  Text, text_eq, text_lt, has_prefix, text_eq_iff, text_lt_irrefl, text_lt_trans, has_prefix-lt,
  has_prefix-past,
}

abbrev pub Entries {ℓ} : Type ℓ → Type ℓ
Entries V = List (Text × V)

module _ {ℓ} {V : Type ℓ} where
  unfoldable pub lookup : Text → Entries V → Option V
  lookup k [] = none
  lookup k ((j, v) ∷ l) = if text_eq j k then some v else lookup k l

  unfoldable pub insert : Text → V → Entries V → Entries V
  insert k v [] = (k, v) ∷ []
  insert k v ((j, w) ∷ l) =
      let later = (j, w) ∷ insert k v l in
      if text_lt k j then (k, v) ∷ (j, w) ∷ l else if text_eq j k then (k, v) ∷ l else later

  unfoldable pub remove : Text → Entries V → Entries V
  remove k [] = []
  remove k ((j, v) ∷ l) = let rest = (j, v) ∷ remove k l in if text_eq j k then l else rest

  -- The entries from the first key at or after `k`.
  unfoldable pub seek : Text → Entries V → Entries V
  seek k [] = []
  seek k ((j, v) ∷ l) = let later = seek k l in if text_lt j k then later else (j, v) ∷ l

  -- `for k, v := c.Seek(p); k != nil && bytes.HasPrefix(k, p); k, v = c.Next()`, from where the
  -- cursor stands.
  unfoldable pub while_prefix : Text → Entries V → Entries V
  while_prefix p [] = []
  while_prefix p ((j, v) ∷ l) =
      let more = (j, v) ∷ while_prefix p l in if has_prefix p j then more else []

  abbrev pub Above : Text → Entries V → Type 0
  Above k l = All (λ e. text_lt k e.0 ≡ true) l

  abbrev pub IsOrdered : Entries V → Type 0
  IsOrdered [] = Unit
  IsOrdered ((j, v) ∷ l) = Above j l × IsOrdered l

  -- The entries whose key begins with the prefix.
  abbrev pub with_prefix : Text → Entries V → Entries V
  with_prefix p l = keep (λ e. has_prefix p e.0) l

  pub Above-trans : (i j : Text) (l : Entries V) → text_lt i j ≡ true → Above j l → Above i l
  Above-trans i j [] h a = tt
  Above-trans i j ((k, v) ∷ l) h (a, as') = (text_lt_trans i j k h a, Above-trans i j l h as')

  pub Above-lookup : (k : Text) (l : Entries V) → Above k l → lookup k l ≡ none
  unfolding lookup
  Above-lookup k [] a = refl
  Above-lookup k ((j, v) ∷ l) (a, as') =
      ground (arith, Above-lookup k l as', text_eq_iff j k, text_lt_irrefl k)

  past-with_prefix :
      (p k : Text) (l : Entries V)
      → text_lt k p ≡ false
      → has_prefix p k ≡ false
      → Above k l
      → with_prefix p l ≡ []
  unfolding keep
  past-with_prefix p k [] h n a = refl
  past-with_prefix p k ((j, v) ∷ l) h n (a, as') =
      rw (has_prefix-past p k j h n a) (past-with_prefix p k l h n as')

  while_prefix-with_prefix :
      (p : Text) (l : Entries V)
      → IsOrdered l
      → All (λ e. text_lt e.0 p ≡ false) l
      → while_prefix p l ≡ with_prefix p l
  unfolding while_prefix keep
  while_prefix-with_prefix p [] o h = refl
  while_prefix-with_prefix p ((j, v) ∷ l) (a, o) (h, hs) =
      ground (arith, while_prefix-with_prefix p l o hs, past-with_prefix p j l h)

  at_or_after :
      (p j : Text) (l : Entries V)
      → text_lt j p ≡ false
      → Above j l
      → All (λ e. text_lt e.0 p ≡ false) l
  at_or_after p j [] h a = tt
  at_or_after p j ((k, v) ∷ l) h (a, as') =
      (ground (arith, text_lt_trans j k p), at_or_after p j l h as')

  -- A cursor's loop over a prefix visits the entries that begin with it: all of them, and no other.
  pub while_prefix-seek :
      (p : Text) (l : Entries V) → IsOrdered l → while_prefix p (seek p l) ≡ with_prefix p l
  unfolding seek keep
  while_prefix-seek p [] o = unfold while_prefix in refl
  while_prefix-seek p ((j, v) ∷ l) (a, o) = elim (Bool-cases (text_lt j p)) [
    | inl before ↦ rw before (rw (has_prefix-lt p j before) (while_prefix-seek p l o))
    | inr reached ↦
        rw reached
          (while_prefix-with_prefix p ((j, v) ∷ l) (a, o) (reached, at_or_after p j l reached a))
  ]
