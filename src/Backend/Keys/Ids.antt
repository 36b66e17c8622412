-- ===== src/Backend/Keys/Ids.antt =====
-- The ids that newID makes hold no colon, so that no id's prefix runs into another's.
use take.Prelude.{
  ℕ, zero, suc, ◌+◌, ◌*◌, ◌/◌, ◌^◌, ◌≡◌, Option, none, some, List, [], ◌∷◌, arith, false, ltb,
  Bool-cases, inl, inr, ◌==◌, All-append, decimal, decimal_on,
}
use take.Backend.Clock.{Time, hex, hex_digit, new_id}
use take.Backend.Keys.Order.{IsPlain}

hex-IsPlain : (bytes : List ℕ) → IsPlain (hex bytes)
unfolding hex hex_digit
hex-IsPlain [] = tt
hex-IsPlain (b ∷ bs) = (ground arith, (ground arith, hex-IsPlain bs))

decimal_on-IsPlain : (fuel n : ℕ) → IsPlain (decimal_on fuel n)
unfolding decimal_on
decimal_on-IsPlain zero n = (ground arith, tt)
decimal_on-IsPlain (suc fuel) n = elim (Bool-cases (ltb n 10)) [
  | inl small ↦ rw small (ground arith, tt)
  | inr big ↦ rw big (
      All-append (λ c. (c == b':') ≡ false) (decimal_on fuel (n / 10)) _
        (decimal_on-IsPlain fuel (n / 10)) (ground arith, tt))
]

decimal-IsPlain : (n : ℕ) → IsPlain (decimal n)
unfolding decimal
decimal-IsPlain n = decimal_on-IsPlain n n

-- newID returns an id without a colon, whether the random bytes are read or not.
pub new_id-IsPlain : (random : Option (List ℕ)) (later : Time) → IsPlain (new_id random later)
unfolding new_id
new_id-IsPlain none later = decimal-IsPlain (later.seconds * 10 ^ 9 + later.nanos)
new_id-IsPlain (some bytes) later = hex-IsPlain bytes
