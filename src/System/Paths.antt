-- ===== src/System/Paths.antt =====
-- The path that keda/mcp-server sends for a todo, as the mux of api/main.go takes it apart.
use take.Prelude.{
  ◌≡◌, ◌≢◌, refl, ℕ, suc, ◌+◌, ◌-◌, ◌*◌, Bool, true, false, none, some, [], ◌∷◌, ◌++◌, Text, codes,
  text_eq, ◌==◌, if◌then◌else◌, ℤ, pos, negsuc, decimal, arith,
}
use take.Http.{pick}
use take.Numbers.{format_int, digits, digits-decimal, decimal-cons, is_digit}
use take.Api.Requests.{update_one, remove_one, api_routes}
use take.System.Over.{grow, cut, segments}

-- Digits have no slash among them.
cut-digits : (s : Text) (acc n : ℕ) → digits s acc ≡ some n → cut s ≡ s ∷ []
unfolding digits cut
cut-digits [] acc n h = refl
cut-digits (c ∷ s) acc n h = split (is_digit c) refl h (cut-digits s (acc * 10 + (c - b'0')) n)
  where
    split :
        (b : Bool)
        → is_digit c ≡ b
        → (if b then digits s (acc * 10 + (c - b'0')) else none) ≡ some n
        → (digits s (acc * 10 + (c - b'0')) ≡ some n → cut s ≡ s ∷ [])
        → (if c == b'/' then [] ∷ cut s else grow (cut s) (λ t. c ∷ t)) ≡ (c ∷ s) ∷ []
    split false e k more = cc
    split true e k more = let m = more k in rw (other e, m) refl
      where
        other : is_digit c ≡ true → (c == b'/') ≡ false
        other e' = ground arith

cut-format_int : (id : ℤ) → cut (format_int id) ≡ format_int id ∷ []
unfolding format_int cut
cut-format_int (pos n) = cut-digits (decimal n) 0 n (digits-decimal n)
cut-format_int (negsuc n) =
    rw (cut-digits (decimal (suc n)) 0 (suc n) (digits-decimal (suc n))) refl

pub segments-todo :
    (id : ℤ)
    → segments (codes "/api/todos/" ++ format_int id)
      ≡ codes "api" ∷ codes "todos" ∷ format_int id ∷ []
unfolding segments cut
segments-todo id = rw (cut-format_int id) refl

format_int-cons : (id : ℤ) → text_eq (format_int id) [] ≡ false
unfolding format_int text_eq
format_int-cons (pos n) = filled (decimal n) (decimal-cons n)
  where
    filled : (s : Text) → s ≢ [] → text_eq s [] ≡ false
    filled [] h = absurd (h refl)
    filled (c ∷ s) h = refl
format_int-cons (negsuc n) = refl

pub pick-patch :
    (id : ℤ)
    → pick (codes "PATCH") (api_routes (codes "api" ∷ codes "todos" ∷ format_int id ∷ []))
      ≡ some (update_one (format_int id))
unfolding pick api_routes text_eq
pick-patch id = rw (format_int-cons id) refl

pub pick-delete :
    (id : ℤ)
    → pick (codes "DELETE") (api_routes (codes "api" ∷ codes "todos" ∷ format_int id ∷ []))
      ≡ some (remove_one (format_int id))
unfolding pick api_routes text_eq
pick-delete id = rw (format_int-cons id) refl
