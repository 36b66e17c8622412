-- ===== src/Backend/Clock/Order.antt =====
-- The text order of the stamps is not the order of the times.
use take.Prelude.{
  ℕ, ◌<◌, ◌≡◌, refl, ◌∙◌, true, ◌∷◌, ◌++◌, arith, Text, codes, text_lt, text_lt-append_left, inl,
  inr, Bool-cases, ◌==◌,
}
use take.Backend.Clock.{now_rfc3339}

point_first : (p r : Text) → text_lt (p ++ b'.' ∷ r) (p ++ codes "Z") ≡ true
point_first p r = text_lt-append_left p (b'.' ∷ r) (codes "Z") ∙ (unfold text_lt in refl)

-- The stamp of a time after a whole second sorts, as a text, before the stamp of that whole
-- second.
pub now_rfc3339_reversed :
    (s n : ℕ)
    → 0 < n
    → text_lt
        (now_rfc3339 (record { seconds = s; nanos = n }))
        (now_rfc3339 (record { seconds = s; nanos = 0 }))
      ≡ true
unfolding now_rfc3339
now_rfc3339_reversed s n h = elim (Bool-cases (n == 0)) [
  | inl zero' ↦ absurd (ground arith)
  | inr more ↦ rw more (point_first _ _)
]
