-- ===== src/Prelude/Decimal.antt =====
-- fmt's %d and %0wd of a non-negative int.
use Prim.Native.Nat.{ℕ, zero, suc, ◌+◌, ◌-◌, ◌/◌, ◌%◌, ◌^◌, ◌<◌, ◌≤◌}
use mathlib.Core.Path.{◌≡◌, refl, ap, sym, ◌∙◌}
use mathlib.Core.Bool.{◌&&◌, ◌||◌}
use mathlib.Core.List.{[], ◌∷◌, ◌++◌, append_assoc}
use native.Mathlib.Omega.{arith}
use native.Mathlib.Decide.{dec_lt}
use native.Mathlib.Nat.{pow-suc}
use take.Prelude.Tests.{ltb, ◌==◌, if◌then◌else◌}
use take.Prelude.Lists.{length, replicate, length-append}
use take.Prelude.Texts.{Text, text_lt, text_eq}

abbrev digit : ℕ → ℕ
digit n = b'0' + n % 10

-- The fuel bounds the number of digits.
unfoldable pub decimal_on : ℕ → ℕ → Text
decimal_on zero n = digit n ∷ []
decimal_on (suc fuel) n =
    let more = decimal_on fuel (n / 10) ++ digit n ∷ [] in if ltb n 10 then digit n ∷ [] else more

-- %d; a number has at most as many digits as it counts, and one for zero.
unfoldable pub decimal : ℕ → Text
unfolding decimal_on
decimal n = decimal_on n n

-- %0wd
unfoldable pub padded : ℕ → ℕ → Text
padded w n = replicate (w - length (decimal n)) b'0' ++ decimal n

-- The last `w` digits.
pub fixed : ℕ → ℕ → Text
fixed zero n = []
fixed (suc w) n = fixed w (n / 10) ++ digit n ∷ []

-- More fuel than digits changes nothing.
decimal_on_enough : (f g n : ℕ) → n ≤ f → n ≤ g → decimal_on f n ≡ decimal_on g n
unfolding decimal_on
decimal_on_enough zero zero n h k = refl
decimal_on_enough zero (suc g) n h k = ground arith
decimal_on_enough (suc f) zero n h k = ground arith
decimal_on_enough (suc f) (suc g) n h k = ground (arith, decimal_on_enough f g (n / 10))

decimal_step : (n : ℕ) → 10 ≤ n → decimal n ≡ decimal (n / 10) ++ digit n ∷ []
unfolding decimal decimal_on
decimal_step zero h = absurd (omega arith)
decimal_step (suc n) h = ground (arith, decimal_on_enough n (suc n / 10) (suc n / 10))

decimal_small : (n : ℕ) → n < 10 → decimal n ≡ digit n ∷ []
unfolding decimal decimal_on
decimal_small zero h = refl
decimal_small (suc n) h = ground arith

replicate_end : (w : ℕ) (c : ℕ) → replicate w c ++ c ∷ [] ≡ replicate (suc w) c
replicate_end zero c = refl
replicate_end (suc w) c = rw (replicate_end w c)

fixed-zero : (w : ℕ) → fixed w 0 ≡ replicate w b'0'
unfolding fixed
fixed-zero zero = refl
fixed-zero (suc w) = rw (fixed-zero w) (replicate_end w b'0')

fixed_small : (w n : ℕ) → n < 10 → fixed (suc w) n ≡ replicate w b'0' ++ digit n ∷ []
unfolding fixed
fixed_small w n h =
    let e : n / 10 ≡ 0 = omega arith in ap (λ t. t ++ digit n ∷ []) (ap (fixed w) e ∙ fixed-zero w)

padded_small : (w n : ℕ) → n < 10 → padded (suc w) n ≡ fixed (suc w) n
unfolding padded
padded_small w n h =
    let e : suc w - 1 ≡ w = omega arith in rw (decimal_small n h) (rw (fixed_small w n h) (rw e))

padded_step : (w n : ℕ) → 10 ≤ n → padded (suc w) n ≡ padded w (n / 10) ++ digit n ∷ []
unfolding padded
padded_step w n h =
    let e : suc w - (length (decimal (n / 10)) + 1) ≡ w - length (decimal (n / 10)) = omega arith in
    rw (decimal_step n h, length-append, e) (simp append_assoc)

-- Below 10^w the padded form is the last `w` digits.
pub padded-eq-fixed : (w n : ℕ) → n < 10 ^ suc w → padded (suc w) n ≡ fixed (suc w) n
unfolding fixed
padded-eq-fixed zero n h = padded_small zero n (omega arith)
padded-eq-fixed (suc w) n h = elim (dec_lt n 10) [
  | yes small ↦ padded_small (suc w) n small
  | no big ↦
      padded_step (suc w) n (omega arith)
      ∙ ap (λ t. t ++ digit n ∷ []) (padded-eq-fixed w (n / 10) (omega (arith, pow-suc 10 (suc w))))
]

text_lt_end :
    (xs ys : Text) (a b : ℕ)
    → length xs ≡ length ys
    → text_lt (xs ++ a ∷ []) (ys ++ b ∷ []) ≡ (text_lt xs ys || text_eq xs ys && ltb a b)
unfolding text_lt text_eq
text_lt_end [] [] a b h = ground arith
text_lt_end [] (y ∷ ys) a b h = absurd (omega arith)
text_lt_end (x ∷ xs) [] a b h = absurd (omega arith)
text_lt_end (x ∷ xs) (y ∷ ys) a b h = ground (arith, text_lt_end xs ys a b)

text_eq_end :
    (xs ys : Text) (a b : ℕ)
    → length xs ≡ length ys
    → text_eq (xs ++ a ∷ []) (ys ++ b ∷ []) ≡ (text_eq xs ys && a == b)
unfolding text_eq
text_eq_end [] [] a b h = ground arith
text_eq_end [] (y ∷ ys) a b h = absurd (omega arith)
text_eq_end (x ∷ xs) [] a b h = absurd (omega arith)
text_eq_end (x ∷ xs) (y ∷ ys) a b h = ground (arith, text_eq_end xs ys a b)

length-fixed : (w n : ℕ) → length (fixed w n) ≡ w
unfolding fixed
length-fixed zero n = refl
length-fixed (suc w) n =
    omega (arith, length-append (fixed w (n / 10)) (digit n ∷ []), length-fixed w (n / 10))

same_length : (w m n : ℕ) → length (fixed w m) ≡ length (fixed w n)
same_length w m n = length-fixed w m ∙ sym (length-fixed w n)

-- Numerals of one fixed width are equal, and compare, as the numbers do.
pub text_eq-fixed :
    (w m n : ℕ) → m < 10 ^ w → n < 10 ^ w → text_eq (fixed w m) (fixed w n) ≡ (m == n)
unfolding fixed text_eq
text_eq-fixed zero m n h k = ground arith
text_eq-fixed (suc w) m n h k =
    rw (text_eq_end _ _ (digit m) (digit n) (same_length w (m / 10) (n / 10))) (
      rw
        (text_eq-fixed w (m / 10) (n / 10) (omega (arith, pow-suc 10 w))
          (omega (arith, pow-suc 10 w)))
        (ground arith))

pub text_lt-fixed :
    (w m n : ℕ) → m < 10 ^ w → n < 10 ^ w → text_lt (fixed w m) (fixed w n) ≡ ltb m n
unfolding fixed text_lt
text_lt-fixed zero m n h k = ground arith
text_lt-fixed (suc w) m n h k =
    rw (text_lt_end _ _ (digit m) (digit n) (same_length w (m / 10) (n / 10))) (
      rw
        (text_lt-fixed w (m / 10) (n / 10) (omega (arith, pow-suc 10 w))
          (omega (arith, pow-suc 10 w)))
        (rw
          (text_eq-fixed w (m / 10) (n / 10) (omega (arith, pow-suc 10 w))
            (omega (arith, pow-suc 10 w)))
          (ground arith)))
