-- ===== src/Backend/Keys/Order.antt =====
-- Keys sort by sequence number, and the prefix of a session picks its own messages.
use take.Prelude.{
  ℕ, ◌^◌, ◌<◌, ◌≡◌, refl, ◌∙◌, true, false, [], ◌∷◌, ◌++◌, arith, Text, codes, text_lt, text_eq,
  has_prefix, text_lt-append_left, has_prefix-append_left, has_prefix-apart, padded,
  padded-eq-fixed, text_lt-fixed, ltb, ◌==◌, All,
}
use take.Backend.Keys.{session_key, message_prefix, message_key}

-- An id without a colon, as new_id makes them.
abbrev pub IsPlain : Text → Type 0
IsPlain id = All (λ c. (c == b':') ≡ false) id

-- Below 10^10, the order of a session's message keys is the order of the numbers.
pub message_key_order :
    (id : Text) (m n : ℕ)
    → m < 10 ^ 10
    → n < 10 ^ 10
    → text_lt (message_key id m) (message_key id n) ≡ ltb m n
unfolding message_key
message_key_order id m n h k =
    text_lt-append_left (codes "msg:") _ _
    ∙ text_lt-append_left id _ _
    ∙ text_lt-append_left (codes ":") (padded 10 m) (padded 10 n)
    ∙ (rw (padded-eq-fixed 9 m h) (rw (padded-eq-fixed 9 n k) (text_lt-fixed 10 m n h k)))

plain_prefix :
    (a b rest : Text)
    → IsPlain a
    → IsPlain b
    → has_prefix (a ++ codes ":") (b ++ (codes ":" ++ rest)) ≡ text_eq a b
unfolding has_prefix text_eq
plain_prefix [] [] rest p q = refl
plain_prefix [] (y ∷ b) rest p (q, qs) = ground arith
plain_prefix (x ∷ a) [] rest (p, ps) q = ground arith
plain_prefix (x ∷ a) (y ∷ b) rest (p, ps) (q, qs) = ground (arith, plain_prefix a b rest ps qs)

-- For ids without a colon, the prefix of one session fits the message keys of another exactly
-- when the ids are equal.
pub has_prefix-message_key :
    (a b : Text) (n : ℕ)
    → IsPlain a
    → IsPlain b
    → has_prefix (message_prefix a) (message_key b n) ≡ text_eq a b
unfolding message_prefix message_key
has_prefix-message_key a b n p q =
    has_prefix-append_left (codes "msg:") _ _ ∙ plain_prefix a b (padded 10 n) p q

pub session_key-eq : (a b : Text) → text_eq (session_key a) (session_key b) ≡ text_eq a b
unfolding session_key text_eq
session_key-eq a b = ground arith

shared_prefix :
    (a b k : Text)
    → IsPlain a
    → IsPlain b
    → has_prefix (a ++ codes ":") k ≡ true
    → has_prefix (b ++ codes ":") k ≡ text_eq a b
unfolding has_prefix text_eq
shared_prefix [] [] k p q h = ground arith
shared_prefix [] (y ∷ b) [] p (q, qs) h = ground arith
shared_prefix [] (y ∷ b) (z ∷ k) p (q, qs) h = ground arith
shared_prefix (x ∷ a) [] [] (p, ps) q h = ground arith
shared_prefix (x ∷ a) [] (z ∷ k) (p, ps) q h = ground arith
shared_prefix (x ∷ a) (y ∷ b) [] (p, ps) (q, qs) h = ground arith
shared_prefix (x ∷ a) (y ∷ b) (z ∷ k) (p, ps) (q, qs) h = ground (arith, shared_prefix a b k ps qs)

-- No key begins with the prefixes of two sessions.
pub message_prefix_unique :
    (a b k : Text)
    → IsPlain a
    → IsPlain b
    → text_eq a b ≡ false
    → has_prefix (message_prefix a) k ≡ true
    → has_prefix (message_prefix b) k ≡ false
unfolding message_prefix
message_prefix_unique a b k p q ne h =
    has_prefix-apart (codes "msg:") _ _ k (λ r g. shared_prefix a b r p q g ∙ ne) h
