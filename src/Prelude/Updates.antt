-- ===== src/Prelude/Updates.antt =====
-- What writing and deleting one key, or the keys that a loop has collected, does to such a list.
use mathlib.Core.Path.{◌≡◌, refl, ap, ◌∙◌}
use mathlib.Core.Bool.{Bool, true, false, not}
use mathlib.Core.Logic.{inl, inr}
use mathlib.Core.Option.{none, some}
use mathlib.Core.List.{List, [], ◌∷◌, ◌++◌, map}
use native.Mathlib.Omega.{arith}
use take.Prelude.Tests.{if◌then◌else◌, Bool-cases}
use take.Prelude.Lists.{keep, All}
use take.Prelude.Texts.{
  Text, text_eq, text_lt, has_prefix, text_eq_iff, text_eq_refl, text_lt_irrefl, text_lt_trans,
  text_lt_flip,
}
use take.Prelude.Assoc.{
  Entries, lookup, insert, remove, Above, IsOrdered, with_prefix, Above-trans, Above-lookup,
}

before_not_after : (j k : Text) → text_lt j k ≡ true → text_lt k j ≡ false
before_not_after j k h = ground (arith, text_lt_trans j k j, text_lt_irrefl j)

text_lt→ne : (j k : Text) → text_lt j k ≡ true → text_eq j k ≡ false
text_lt→ne j k h = ground (arith, text_eq_iff j k, text_lt_irrefl k)

module _ {ℓ} {V : Type ℓ} where
  pub lookup-insert :
      (k j : Text) (v : V) (l : Entries V)
      → lookup j (insert k v l) ≡ (if text_eq k j then some v else lookup j l)
  unfolding lookup insert
  lookup-insert k j v [] = refl
  lookup-insert k j v ((i, w) ∷ l) =
      ground (arith, text_eq_iff k j, text_eq_iff i k, text_eq_iff i j, lookup-insert k j v l)

  pub lookup-remove :
      (k j : Text) (l : Entries V)
      → IsOrdered l
      → lookup j (remove k l) ≡ (if text_eq k j then none else lookup j l)
  unfolding lookup remove
  lookup-remove k j [] o = ground arith
  lookup-remove k j ((i, w) ∷ l) (a, o) = ground (
    arith,
    text_eq_iff k j,
    text_eq_iff i k,
    text_eq_iff i j,
    lookup-remove k j l o,
    Above-lookup i l a,
  )

  Above-insert :
      (i k : Text) (v : V) (l : Entries V) → text_lt i k ≡ true → Above i l → Above i (insert k v l)
  unfolding insert
  Above-insert i k v [] h a = (h, tt)
  Above-insert i k v ((j, w) ∷ l) h (a, as') = elim (Bool-cases (text_lt k j)) [
    | inl here ↦ rw here (h, (a, as'))
    | inr later ↦ rw later (ground (arith, Above-insert i k v l h as'))
  ]

  pub insert-IsOrdered : (k : Text) (v : V) (l : Entries V) → IsOrdered l → IsOrdered (insert k v l)
  unfolding insert
  insert-IsOrdered k v [] o = (tt, tt)
  insert-IsOrdered k v ((j, w) ∷ l) (a, o) = elim (Bool-cases (text_lt k j)) [
    | inl here ↦ rw here ((here, Above-trans k j l here a), (a, o))
    | inr later ↦ elim (Bool-cases (text_eq j k)) [
      | inl same ↦ rw later (rw same (rw (← (text_eq_iff j k).0 same) (a, o)))
      | inr other ↦ rw later (
          rw other
            (Above-insert j k v l (text_lt_flip k j later other) a, insert-IsOrdered k v l o))
    ]
  ]

  Above-remove : (i k : Text) (l : Entries V) → Above i l → Above i (remove k l)
  unfolding remove
  Above-remove i k [] a = tt
  Above-remove i k ((j, w) ∷ l) (a, as') = ground (arith, Above-remove i k l as')

  pub remove-IsOrdered : (k : Text) (l : Entries V) → IsOrdered l → IsOrdered (remove k l)
  unfolding remove
  remove-IsOrdered k [] o = tt
  remove-IsOrdered k ((j, w) ∷ l) (a, o) =
      ground (arith, Above-remove j k l a, remove-IsOrdered k l o)

  -- A key without the prefix, written or deleted, does not change what a loop over it visits.
  pub with_prefix-insert_ne :
      (p k : Text) (v : V) (l : Entries V)
      → has_prefix p k ≡ false
      → with_prefix p (insert k v l) ≡ with_prefix p l
  unfolding keep insert
  with_prefix-insert_ne p k v [] h = ground arith
  with_prefix-insert_ne p k v ((j, w) ∷ l) h =
      ground (arith, text_eq_iff j k, with_prefix-insert_ne p k v l h)

  pub with_prefix-remove_ne :
      (p k : Text) (l : Entries V)
      → has_prefix p k ≡ false
      → with_prefix p (remove k l) ≡ with_prefix p l
  unfolding keep remove
  with_prefix-remove_ne p k [] h = refl
  with_prefix-remove_ne p k ((j, w) ∷ l) h =
      ground (arith, text_eq_iff j k, with_prefix-remove_ne p k l h)

  none_between :
      (p k : Text) (l : Entries V)
      → Above k l
      → All (λ e. text_lt e.0 k ≡ true) (with_prefix p l)
      → with_prefix p l ≡ []
  unfolding keep
  none_between p k [] a b = refl
  none_between p k ((j, w) ∷ l) (a, as') b = elim (Bool-cases (has_prefix p j)) [
    | inl here ↦ let (first, _) = rw (here, keep) at b in ground (arith, before_not_after j k first)
    | inr other ↦ rw other (none_between p k l as' (rw (other, keep) at b))
  ]

  -- A key with the prefix, after all others with it, comes last in the loop.
  pub with_prefix-insert_last :
      (p k : Text) (v : V) (l : Entries V)
      → IsOrdered l
      → has_prefix p k ≡ true
      → All (λ e. text_lt e.0 k ≡ true) (with_prefix p l)
      → with_prefix p (insert k v l) ≡ with_prefix p l ++ (k, v) ∷ []
  unfolding keep insert
  with_prefix-insert_last p k v [] o h b = ground arith
  with_prefix-insert_last p k v ((j, w) ∷ l) (a, o) h b = elim (Bool-cases (has_prefix p j)) [
    | inl here ↦
        let (first, more) = rw (here, keep) at b in
        rw (before_not_after j k first) (
          rw (text_lt→ne j k first)
            (rw here (ap (λ r. (j, w) ∷ r) (with_prefix-insert_last p k v l o h more))))
    | inr other ↦
        let more = rw (other, keep) at b in
        elim (Bool-cases (text_lt k j)) [
          | inl here ↦
              rw here (rw h (rw other (rw (none_between p k l (Above-trans k j l here a) more))))
          | inr later ↦ elim (Bool-cases (text_eq j k)) [
            | inl same ↦ ground (arith, text_eq_iff j k)
            | inr ne ↦ rw later (rw ne (rw other (with_prefix-insert_last p k v l o h more)))
          ]
        ]
  ]

  -- Deleting the keys that a loop collected, one by one.
  unfoldable pub remove_all : List Text → Entries V → Entries V
  remove_all [] l = l
  remove_all (k ∷ ks) l = remove_all ks (remove k l)

  remove_all-skip :
      (ks : List Text) (j : Text) (v : V) (l : Entries V)
      → All (λ k. text_lt j k ≡ true) ks
      → remove_all ks ((j, v) ∷ l) ≡ (j, v) ∷ remove_all ks l
  unfolding remove_all remove
  remove_all-skip [] j v l a = refl
  remove_all-skip (k ∷ ks) j v l (a, as') =
      rw (text_lt→ne j k a) (remove_all-skip ks j v (remove k l) as')

  Above-keys :
      (q : Text × V → Bool) (j : Text) (l : Entries V)
      → Above j l
      → All (λ k. text_lt j k ≡ true) (map (λ e. e.0) (keep q l))
  unfolding keep
  Above-keys q j [] a = tt
  Above-keys q j ((k, v) ∷ l) (a, as') = ground (arith, Above-keys q j l as')

  -- What is left is what the loop passed by.
  pub remove_all-keep :
      (q : Text × V → Bool) (l : Entries V)
      → IsOrdered l
      → remove_all (map (λ e. e.0) (keep q l)) l ≡ keep (λ e. not (q e)) l
  unfolding remove_all keep remove
  remove_all-keep q [] o = refl
  remove_all-keep q ((j, v) ∷ l) (a, o) = elim (Bool-cases (q (j, v))) [
    | inl gone ↦ rw gone (rw (text_eq_refl j, remove_all) (remove_all-keep q l o))
    | inr stays ↦ rw stays (
        remove_all-skip (map (λ e. e.0) (keep q l)) j v l (Above-keys q j l a)
        ∙ ap (λ r. (j, v) ∷ r) (remove_all-keep q l o))
  ]

module _ {ℓ κ} {V : Type ℓ} (P : Text × V → Type κ) where
  pub All-insert : (k : Text) (v : V) (l : Entries V) → P (k, v) → All P l → All P (insert k v l)
  unfolding insert
  All-insert k v [] p a = (p, tt)
  All-insert k v ((j, w) ∷ l) p (a, as') = elim (Bool-cases (text_lt k j)) [
    | inl here ↦ rw here (p, (a, as'))
    | inr later ↦ elim (Bool-cases (text_eq j k)) [
      | inl same ↦ rw later (rw same (p, as'))
      | inr ne ↦ rw later (rw ne (a, All-insert k v l p as'))
    ]
  ]

  pub All-remove : (k : Text) (l : Entries V) → All P l → All P (remove k l)
  unfolding remove
  All-remove k [] a = tt
  All-remove k ((j, w) ∷ l) (a, as') = elim (Bool-cases (text_eq j k)) [
    | inl same ↦ rw same as'
    | inr ne ↦ rw ne (a, All-remove k l as')
  ]
