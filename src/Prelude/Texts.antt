-- ===== src/Prelude/Texts.antt =====
-- Go strings of valid UTF-8, as lists of code points. Byte order is code-point order on them.
use Prim.Native.Nat.{ℕ}
use Prim.Native.Char.{code}
use Prim.Native.String.{String}
use mathlib.Core.Path.{◌≡◌, refl}
use mathlib.Core.Logic.{◌↔◌}
use mathlib.Core.Bool.{Bool, true, false, ◌&&◌, ◌||◌}
use mathlib.Core.List.{List, [], ◌∷◌, ◌++◌}
use native.Mathlib.Omega.{arith}
use take.Prelude.Tests.{ltb, ◌==◌}

abbrev pub Text : Type 0
Text = List ℕ

-- A text literal.
abbrev pub codes : String → Text
codes String.[] = []
codes (String.◌∷◌ c s) = code c ∷ codes s

-- s == t
unfoldable pub text_eq : Text → Text → Bool
text_eq [] [] = true
text_eq [] (_ ∷ _) = false
text_eq (_ ∷ _) [] = false
text_eq (x ∷ xs) (y ∷ ys) = x == y && text_eq xs ys

-- s < t, lexicographically
unfoldable pub text_lt : Text → Text → Bool
text_lt [] [] = false
text_lt [] (_ ∷ _) = true
text_lt (_ ∷ _) [] = false
text_lt (x ∷ xs) (y ∷ ys) = ltb x y || x == y && text_lt xs ys

-- bytes.HasPrefix(s, p), the prefix first
unfoldable pub has_prefix : Text → Text → Bool
has_prefix [] s = true
has_prefix (_ ∷ _) [] = false
has_prefix (x ∷ p) (y ∷ s) = x == y && has_prefix p s

pub text_eq_refl : (s : Text) → text_eq s s ≡ true
unfolding text_eq
text_eq_refl [] = refl
text_eq_refl (x ∷ s) = ground (arith, text_eq_refl s)

pub text_eq→eq : (s t : Text) → text_eq s t ≡ true → s ≡ t
unfolding text_eq
text_eq→eq [] [] h = refl
text_eq→eq [] (y ∷ t) h = cc
text_eq→eq (x ∷ s) [] h = cc
text_eq→eq (x ∷ s) (y ∷ t) h = ground (arith, text_eq→eq s t)

pub text_eq_iff : (s t : Text) → (text_eq s t ≡ true) ↔ (s ≡ t)
unfolding text_eq
text_eq_iff s t = (text_eq→eq s t, λ e. subst_eq s t e)
  where
    subst_eq : (a b : Text) → a ≡ b → text_eq a b ≡ true
    subst_eq a b e = rw (← e) (text_eq_refl a)

pub text_lt_irrefl : (s : Text) → text_lt s s ≡ false
unfolding text_lt
text_lt_irrefl [] = refl
text_lt_irrefl (x ∷ s) = ground (arith, text_lt_irrefl s)

pub text_lt_trans : (s t u : Text) → text_lt s t ≡ true → text_lt t u ≡ true → text_lt s u ≡ true
unfolding text_lt
text_lt_trans [] [] u h k = cc
text_lt_trans [] (y ∷ t) [] h k = cc
text_lt_trans [] (y ∷ t) (z ∷ u) h k = refl
text_lt_trans (x ∷ s) [] u h k = cc
text_lt_trans (x ∷ s) (y ∷ t) [] h k = cc
text_lt_trans (x ∷ s) (y ∷ t) (z ∷ u) h k = ground (arith, text_lt_trans s t u)

-- Of two texts that are not less than one another, each is the other.
pub text_lt_connex : (s t : Text) → text_lt s t ≡ false → text_lt t s ≡ false → s ≡ t
unfolding text_lt
text_lt_connex [] [] h k = refl
text_lt_connex [] (y ∷ t) h k = cc
text_lt_connex (x ∷ s) [] h k = cc
text_lt_connex (x ∷ s) (y ∷ t) h k = ground (arith, text_lt_connex s t)

-- A common prefix does not count for the order.
pub text_lt-append_left : (p s t : Text) → text_lt (p ++ s) (p ++ t) ≡ text_lt s t
unfolding text_lt
text_lt-append_left [] s t = refl
text_lt-append_left (x ∷ p) s t = ground (arith, text_lt-append_left p s t)

-- A text less than a prefix does not begin with it.
pub has_prefix-lt : (p s : Text) → text_lt s p ≡ true → has_prefix p s ≡ false
unfolding text_lt has_prefix
has_prefix-lt [] [] h = cc
has_prefix-lt [] (y ∷ s) h = cc
has_prefix-lt (x ∷ p) [] h = refl
has_prefix-lt (x ∷ p) (y ∷ s) h = ground (arith, has_prefix-lt p s)

-- Past the texts that begin with a prefix, none does any more.
pub has_prefix-past :
    (p s t : Text)
    → text_lt s p ≡ false
    → has_prefix p s ≡ false
    → text_lt s t ≡ true
    → has_prefix p t ≡ false
unfolding text_lt has_prefix
has_prefix-past [] s t h n k = cc
has_prefix-past (x ∷ p) [] t h n k = cc
has_prefix-past (x ∷ p) (y ∷ s) [] h n k = cc
has_prefix-past (x ∷ p) (y ∷ s) (z ∷ t) h n k = ground (arith, has_prefix-past p s t)

pub has_prefix-append : (p s : Text) → has_prefix p (p ++ s) ≡ true
unfolding has_prefix
has_prefix-append [] s = refl
has_prefix-append (x ∷ p) s = ground (arith, has_prefix-append p s)

pub has_prefix-append_left : (a p s : Text) → has_prefix (a ++ p) (a ++ s) ≡ has_prefix p s
unfolding has_prefix
has_prefix-append_left [] p s = refl
has_prefix-append_left (x ∷ a) p s = ground (arith, has_prefix-append_left a p s)

pub text_lt_flip : (s t : Text) → text_lt s t ≡ false → text_eq t s ≡ false → text_lt t s ≡ true
text_lt_flip s t h n = ground (arith, text_lt_connex s t, text_eq_iff t s)

pub text_eq_sym : (s t : Text) → text_eq t s ≡ text_eq s t
unfolding text_eq
text_eq_sym [] [] = refl
text_eq_sym [] (y ∷ t) = refl
text_eq_sym (x ∷ s) [] = refl
text_eq_sym (x ∷ s) (y ∷ t) = ground (arith, text_eq_sym s t)

-- Prefixes that exclude one another still do behind a common beginning.
pub has_prefix-apart :
    (c p q k : Text)
    → ((r : Text) → has_prefix p r ≡ true → has_prefix q r ≡ false)
    → has_prefix (c ++ p) k ≡ true
    → has_prefix (c ++ q) k ≡ false
unfolding has_prefix
has_prefix-apart [] p q k apart h = apart k h
has_prefix-apart (x ∷ c) p q [] apart h = cc
has_prefix-apart (x ∷ c) p q (y ∷ k) apart h = ground (arith, has_prefix-apart c p q k apart)

pub text_lt_asym : (s t : Text) → text_lt s t ≡ true → text_lt t s ≡ false
text_lt_asym s t h = ground (arith, text_lt_trans s t s, text_lt_irrefl s)

pub text_lt_cotrans :
    (s t u : Text) → text_lt s t ≡ false → text_lt t u ≡ false → text_lt s u ≡ false
text_lt_cotrans s t u h k =
    ground (arith, text_lt_connex s t, text_lt_trans t s u, text_lt_connex t u, text_lt_irrefl u)
