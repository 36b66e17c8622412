-- ===== src/Prelude/Sorting.antt =====
-- Go's sort.Slice by `before`: an insertion sort, as it runs on at most twelve elements. On longer
-- slices the order among elements that are not before one another may differ.
use mathlib.Core.Path.{◌≡◌}
use mathlib.Core.Bool.{Bool, true, false}
use mathlib.Core.Logic.{inl, inr}
use mathlib.Core.List.{List, [], ◌∷◌, Perm}
use mathlib.Core.List.Perm
use take.Prelude.Tests.{if◌then◌else◌, Bool-cases}
use take.Prelude.Lists.{All}

module _ {A : Type 0} (before : A → A → Bool) where
  unfoldable pub sort_insert : A → List A → List A
  sort_insert a [] = a ∷ []
  sort_insert a (b ∷ bs) =
      let later = b ∷ sort_insert a bs in if before b a then later else a ∷ b ∷ bs

  unfoldable pub sort_slice : List A → List A
  unfolding sort_insert
  sort_slice [] = []
  sort_slice (a ∷ as') = sort_insert a (sort_slice as')

  -- No element is before one that stands ahead of it.
  abbrev pub IsSortedBy : List A → Type 0
  IsSortedBy [] = Unit
  IsSortedBy (a ∷ as') = All (λ b. before b a ≡ false) as' × IsSortedBy as'

  sort_insert-perm : (a : A) (bs : List A) → Perm (sort_insert a bs) (a ∷ bs)
  unfolding sort_insert
  sort_insert-perm a [] = Perm.refl _
  sort_insert-perm a (b ∷ bs) = elim (Bool-cases (before b a)) [
    | inl first ↦ rw first (Perm.trans (Perm.cons b (sort_insert-perm a bs)) (Perm.swap a b bs))
    | inr later ↦ rw later (Perm.refl _)
  ]

  pub sort_slice-perm : (as' : List A) → Perm (sort_slice as') as'
  unfolding sort_slice
  sort_slice-perm [] = Perm.refl _
  sort_slice-perm (a ∷ as') =
      Perm.trans (sort_insert-perm a (sort_slice as')) (Perm.cons a (sort_slice-perm as'))

  module _ (asym : (a b : A) → before a b ≡ true → before b a ≡ false)
      (cotrans : (a b c : A) → before b a ≡ false → before c b ≡ false → before c a ≡ false) where
    All-sort_insert :
        (c a : A) (bs : List A)
        → before a c ≡ false
        → All (λ b. before b c ≡ false) bs
        → All (λ b. before b c ≡ false) (sort_insert a bs)
    unfolding sort_insert
    All-sort_insert c a [] h k = (h, tt)
    All-sort_insert c a (b ∷ bs) h (k, ks) = elim (Bool-cases (before b a)) [
      | inl first ↦ rw first (k, All-sort_insert c a bs h ks)
      | inr later ↦ rw later (h, (k, ks))
    ]

    All-trans :
        (a b : A) (cs : List A)
        → before b a ≡ false
        → All (λ c. before c b ≡ false) cs
        → All (λ c. before c a ≡ false) cs
    All-trans a b [] h k = tt
    All-trans a b (c ∷ cs) h (k, ks) = (cotrans a b c h k, All-trans a b cs h ks)

    sort_insert-IsSortedBy : (a : A) (bs : List A) → IsSortedBy bs → IsSortedBy (sort_insert a bs)
    unfolding sort_insert
    sort_insert-IsSortedBy a [] s = (tt, tt)
    sort_insert-IsSortedBy a (b ∷ bs) (k, s) = elim (Bool-cases (before b a)) [
      | inl first ↦
          rw first (All-sort_insert b a bs (asym b a first) k, sort_insert-IsSortedBy a bs s)
      | inr later ↦ rw later ((later, All-trans a b bs later k), (k, s))
    ]

    pub sort_slice-IsSortedBy : (as' : List A) → IsSortedBy (sort_slice as')
    unfolding sort_slice
    sort_slice-IsSortedBy [] = tt
    sort_slice-IsSortedBy (a ∷ as') = sort_insert-IsSortedBy a _ (sort_slice-IsSortedBy as')
