-- ===== src/Numbers.antt =====
-- Go's strconv: FormatInt, and Atoi or ParseInt to base 10 and 64 bits.
use take.Prelude.{
  ◌≡◌, refl, ◌≢◌, ap, subst, ◌∙◌, ℕ, zero, suc, ◌+◌, ◌-◌, ◌*◌, ◌/◌, ◌%◌, ltb_ℤ, ◌^◌, ◌≤◌, Bool,
  true, false, ◌&&◌, Option, none, some, [], ◌∷◌, ◌++◌, Text, ltb, leb, ◌==◌, if◌then◌else◌, ℤ, pos,
  negsuc, decimal, decimal_on, arith,
}

-- strconv.FormatInt(n, 10)
unfoldable pub format_int : ℤ → Text
format_int (pos n) = decimal n
format_int (negsuc n) = b'-' ∷ decimal (suc n)

abbrev pub is_digit : ℕ → Bool
is_digit c = leb b'0' c && leb c b'9'

-- The number of some digits behind those of `acc`.
unfoldable pub digits : Text → ℕ → Option ℕ
digits [] acc = some acc
digits (c ∷ s) acc =
    let rest = digits s (acc * 10 + (c - b'0')) in if is_digit c then rest else none

-- The signed values of 64 bits.
abbrev pub to_int : Option ℕ → Option ℤ
to_int none = none
to_int (some n) = if ltb n (2 ^ 63) then some (pos n) else none

abbrev pub negative : ℕ → ℤ
negative zero = pos zero
negative (suc n) = negsuc n

abbrev pub to_negative : Option ℕ → Option ℤ
to_negative none = none
to_negative (some n) = if leb n (2 ^ 63) then some (negative n) else none

-- One digit at least.
unfoldable pub magnitude : Text → Option ℕ
unfolding digits
magnitude [] = none
magnitude (c ∷ s) = digits (c ∷ s) 0

-- strconv.Atoi; `none` is any of its errors.
unfoldable pub atoi : Text → Option ℤ
unfolding magnitude
atoi [] = none
atoi (c ∷ s) =
    if c == b'-'
    then to_negative (magnitude s)
    else if c == b'+'
    then to_int (magnitude s)
    else to_int (magnitude (c ∷ s))

abbrev then' : Option ℕ → (ℕ → Option ℕ) → Option ℕ
then' none f = none
then' (some a) f = f a

digits-append : (s t : Text) (acc : ℕ) → digits (s ++ t) acc ≡ then' (digits s acc) (digits t)
unfolding digits
digits-append [] t acc = refl
digits-append (c ∷ s) t acc = branch (is_digit c) _ _ (digits-append s t (acc * 10 + (c - b'0')))
  where
    branch :
        (b : Bool) (x y : Option ℕ)
        → x ≡ then' y (digits t)
        → (if b then x else none) ≡ then' (if b then y else none) (digits t)
    branch true x y e = e
    branch false x y e = refl

digits_one : (n acc : ℕ) → digits ((b'0' + n % 10) ∷ []) acc ≡ some (acc * 10 + n % 10)
unfolding digits
digits_one n acc = ground arith

digits-decimal_on : (fuel n : ℕ) → n ≤ fuel → digits (decimal_on fuel n) 0 ≡ some n
unfolding decimal_on
digits-decimal_on zero n h = digits_one n 0 ∙ ap some (omega (arith, h))
digits-decimal_on (suc fuel) n h = split (ltb n 10) refl (digits-decimal_on fuel (n / 10))
  where
    split :
        (b : Bool)
        → ltb n 10 ≡ b
        → (n / 10 ≤ fuel → digits (decimal_on fuel (n / 10)) 0 ≡ some (n / 10))
        → digits
            (if b then (b'0' + n % 10) ∷ [] else decimal_on fuel (n / 10) ++ (b'0' + n % 10) ∷ [])
            0
          ≡ some n
    split true e more = digits_one n 0 ∙ ap some (ground arith)
    split false e more =
        digits-append (decimal_on fuel (n / 10)) ((b'0' + n % 10) ∷ []) 0
        ∙ ap (λ o. then' o (digits ((b'0' + n % 10) ∷ []))) (more (ground arith))
        ∙ digits_one n (n / 10)
        ∙ ap some (omega arith)

pub digits-decimal : (n : ℕ) → digits (decimal n) 0 ≡ some n
unfolding decimal
digits-decimal n = digits-decimal_on n n (omega arith)

-- What Atoi reads without a sign.
atoi-digits : (s : Text) (n : ℕ) → digits s 0 ≡ some n → s ≢ [] → atoi s ≡ to_int (some n)
unfolding atoi magnitude digits
atoi-digits [] n h k = absurd (k refl)
atoi-digits (c ∷ s) n h k = unsigned (is_digit c) _ _ _ refl h
  where
    unsigned :
        (b : Bool) (x y : Option ℤ) (z : Option ℕ)
        → is_digit c ≡ b
        → (if b then z else none) ≡ some n
        → (if c == b'-' then x else if c == b'+' then y else to_int (if b then z else none))
          ≡ to_int (some n)
    unsigned false x y z e h' = cc
    unsigned true x y z e h' = rw (minus e) (rw (plus e) (ap to_int h'))
      where
        minus : is_digit c ≡ true → (c == b'-') ≡ false
        minus e' = ground arith

        plus : is_digit c ≡ true → (c == b'+') ≡ false
        plus e' = ground arith

pub decimal-cons : (n : ℕ) → decimal n ≢ []
unfolding decimal decimal_on digits
decimal-cons zero e = cc
decimal-cons (suc n) e =
    absurd (no (subst (λ s. digits s 0 ≡ some (suc n)) e (digits-decimal (suc n))))
  where
    no : digits [] 0 ≡ some (suc n) → ⊥
    no h = cc

magnitude-digits : (s : Text) (n : ℕ) → digits s 0 ≡ some n → s ≢ [] → magnitude s ≡ some n
unfolding magnitude
magnitude-digits [] n h k = absurd (k refl)
magnitude-digits (c ∷ s) n h k = h

-- Atoi reads every int64 that FormatInt writes.
pub atoi-format_int :
    (n : ℤ)
    → ltb_ℤ n (pos (2 ^ 63)) ≡ true
    → ltb_ℤ n (negsuc (2 ^ 63 - 1)) ≡ false
    → atoi (format_int n) ≡ some n
unfolding format_int atoi
atoi-format_int (pos n) h k =
    atoi-digits (decimal n) n (digits-decimal n) (decimal-cons n)
    ∙ in_range (ltb n (2 ^ 63)) (ground arith)
  where
    in_range : (b : Bool) → b ≡ true → (if b then some (pos n) else none) ≡ some (pos n)
    in_range true e = refl
    in_range false e = cc
atoi-format_int (negsuc n) h k =
    ap to_negative
      (magnitude-digits (decimal (suc n)) (suc n) (digits-decimal (suc n)) (decimal-cons (suc n)))
    ∙ in_range (leb (suc n) (2 ^ 63)) (ground arith)
  where
    in_range : (b : Bool) → b ≡ true → (if b then some (negsuc n) else none) ≡ some (negsuc n)
    in_range true e = refl
    in_range false e = cc
