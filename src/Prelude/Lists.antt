-- ===== src/Prelude/Lists.antt =====
-- Lists measured by native numbers, and predicates on every element.
use Prim.Native.Nat.{ℕ, zero, suc, ◌+◌}
use mathlib.Core.Path.{◌≡◌, refl, ap}
use mathlib.Core.Bool.{Bool, true, false, not}
use mathlib.Core.Logic.{inl, inr}
use mathlib.Core.List.{List, [], ◌∷◌, ◌++◌, map}
use native.Mathlib.Omega.{arith}
use take.Prelude.Tests.{if◌then◌else◌, Bool-cases}

module _ {ℓ} {A : Type ℓ} where
  abbrev pub length : List A → ℕ
  length [] = 0
  length (x ∷ xs) = suc (length xs)

  abbrev pub replicate : ℕ → A → List A
  replicate zero a = []
  replicate (suc n) a = a ∷ replicate n a

  -- xs[:n]
  unfoldable pub slice_to : ℕ → List A → List A
  slice_to zero xs = []
  slice_to (suc n) [] = []
  slice_to (suc n) (x ∷ xs) = x ∷ slice_to n xs

  -- The elements that pass the test, in order.
  unfoldable pub keep : (A → Bool) → List A → List A
  keep p [] = []
  keep p (x ∷ xs) = let rest = keep p xs in if p x then x ∷ rest else rest

  pub length-append : (xs ys : List A) → length (xs ++ ys) ≡ length xs + length ys
  length-append [] ys = omega arith
  length-append (x ∷ xs) ys = omega (arith, length-append xs ys)

module _ {ℓ κ} {A : Type ℓ} (P : A → Type κ) where
  abbrev pub All : List A → Type κ
  All [] = Unit
  All (x ∷ xs) = P x × All xs

  pub All-append : (xs ys : List A) → All xs → All ys → All (xs ++ ys)
  All-append [] ys _ k = k
  All-append (x ∷ xs) ys (p, h) k = (p, All-append xs ys h k)

module _ {ℓ κ} {A : Type ℓ} {B : Type κ} (R : A → B → Type 0) where
  -- As many elements on both sides, related one by one.
  abbrev pub Pairwise : List A → List B → Type 0
  Pairwise [] [] = Unit
  Pairwise [] (_ ∷ _) = ⊥
  Pairwise (_ ∷ _) [] = ⊥
  Pairwise (x ∷ xs) (y ∷ ys) = R x y × Pairwise xs ys

  pub Pairwise-map : (f : A → B) → ((x : A) → R x (f x)) → (xs : List A) → Pairwise xs (map f xs)
  Pairwise-map f h [] = tt
  Pairwise-map f h (x ∷ xs) = (h x, Pairwise-map f h xs)

module _ {ℓ} {A : Type ℓ} (q : A → Bool) where
  pub keep-not-keep : (xs : List A) → keep q (keep (λ x. not (q x)) xs) ≡ []
  unfolding keep
  keep-not-keep [] = refl
  keep-not-keep (x ∷ xs) = elim (Bool-cases (q x)) [
    | inl yes' ↦ rw yes' (keep-not-keep xs)
    | inr no' ↦ rw no' (rw no' (keep-not-keep xs))
  ]

  -- What one test keeps is there after another test, that fails on it, has dropped its own.
  pub keep-keep-not :
      (r : A → Bool) (xs : List A)
      → ((x : A) → r x ≡ true → q x ≡ false)
      → keep r (keep (λ x. not (q x)) xs) ≡ keep r xs
  unfolding keep
  keep-keep-not r [] apart = refl
  keep-keep-not r (x ∷ xs) apart = elim (Bool-cases (q x)) [
    | inl yes' ↦ rw yes' (rw (other yes') (keep-keep-not r xs apart))
    | inr no' ↦ rw no' (ap (λ ys. if r x then x ∷ ys else ys) (keep-keep-not r xs apart))
  ]
    where
      other : q x ≡ true → r x ≡ false
      other yes' = ground (arith, apart x)
