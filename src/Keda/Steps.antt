-- ===== src/Keda/Steps.antt =====
-- The steps of the tools of keda/mcp-server/tools.go: what went before where a tool succeeds.
use take.Prelude.{
  ◌≡◌, refl, ap, subst, ◌∙◌, Bool, true, false, Option, none, some, Text, ltb_ℤ, ℤ, pos, negsuc,
  ◌^◌, ◌-◌, if◌then◌else◌, codes, ◌==◌, decimal, ◌++◌, [], ℕ,
}
use take.Json.{Json, Fields, null, bool, int, real, str, arr, obj}
use take.Keda.World.{Outcome, done, failed, Request, Answer, World}
use take.Keda.Tools.{and_then, expect, call_api, number, value_of, require_int_arg, with_arg}

abbrev pub IsInt64 : ℤ → Type 0
IsInt64 n = (ltb_ℤ n (pos (2 ^ 63)) ≡ true) × (ltb_ℤ n (negsuc (2 ^ 63 - 1)) ≡ false)

abbrev value : Outcome ℤ → ℤ
value (done n) = n
value (failed _) = pos 0

module _ (float_int : Json → ℤ) (int64 : (j : Json) → IsInt64 (float_int j)) where
  pub number-IsInt64 :
      (name : Text) (o : Option Json) (n : ℤ) → number float_int name o ≡ done n → IsInt64 n
  unfolding number
  number-IsInt64 name none n h = cc
  number-IsInt64 name (some null) n h = cc
  number-IsInt64 name (some (bool _)) n h = cc
  number-IsInt64 name (some (int k)) n h = subst IsInt64 (ap value h) (int64 (int k))
  number-IsInt64 name (some (real x)) n h = subst IsInt64 (ap value h) (int64 (real x))
  number-IsInt64 name (some (str _)) n h = cc
  number-IsInt64 name (some (arr _)) n h = cc
  number-IsInt64 name (some (obj _)) n h = cc

  pub require_int_arg-IsInt64 :
      (args : Fields) (name : Text) (n : ℤ)
      → require_int_arg float_int args name ≡ done n
      → IsInt64 n
  unfolding require_int_arg
  require_int_arg-IsInt64 args name n h = number-IsInt64 name (value_of name args none) n h

module _ (w : World) where
  open w use {State}

  -- A first step that ends in a value, of two that do.
  pub and_then-done :
      {A B : Type 0} (context : Text) (x : Outcome A × State) (next : A → State → Outcome B × State)
      (b : B) (s' : State)
      → and_then w context x next ≡ (done b, s')
      → (a : A) × (s₁ : State) × (x ≡ (done a, s₁)) × (next a s₁ ≡ (done b, s'))
  unfolding and_then
  and_then-done context (failed e, s) next b s' h = cc
  and_then-done context (done a, s) next b s' h = (a, s, refl, h)

  expect-done :
      (status : ℕ) (r a : Answer) (s s' : State)
      → expect w status r s ≡ (done a, s')
      → ((r.status == status) ≡ true) × (s ≡ s')
  unfolding expect
  expect-done status r a s s' h =
      step (r.status == status) (codes "api returned " ++ decimal r.status ++ codes ": " ++ r.text)
        h
    where
      step :
          (b : Bool) (m : Text)
          → ◌≡◌ {A = Outcome Answer × State} (if b then (done r, s) else (failed m, s)) (done a, s')
          → (b ≡ true) × (s ≡ s')
      step true m h' = (refl, ap (λ x. x.1) h')
      step false m h' = cc

  pub call_api-done :
      (status : ℕ) (r : Request) (a : Answer) (s s' : State)
      → call_api w status r s ≡ (done a, s')
      → (answer : Answer) × (w.send r s ≡ (done answer, s')) × ((answer.status == status) ≡ true)
  unfolding call_api
  call_api-done status r a s s' h =
      let (answer, s₁, sent, next) =
        and_then-done (codes "calling api: ") (w.send r s) (expect w status) a s' h in
      let (right, e) = expect-done status answer a s₁ s' next in
      (answer, sent ∙ ap (λ x. (done answer, x)) e, right)

  pub call_api-sent :
      (status : ℕ) (r : Request) (a : Answer) (s s' : State)
      → w.send r s ≡ (done a, s')
      → (a.status == status) ≡ true
      → call_api w status r s ≡ (done a, s')
  unfolding call_api and_then expect
  call_api-sent status r a s s' h k = rw (h, k) refl

  pub with_arg-done :
      (float_int : Json → ℤ) (args : Fields) (name t : Text) (s s' : State)
      (next : ℤ → Outcome Text × State)
      → with_arg w float_int args name s next ≡ (done t, s')
      → (n : ℤ) × (require_int_arg float_int args name ≡ done n) × (next n ≡ (done t, s'))
  unfolding with_arg and_then
  with_arg-done float_int args name t s s' next h =
      step (require_int_arg float_int args name) refl h
    where
      step :
          (o : Outcome ℤ)
          → require_int_arg float_int args name ≡ o
          → and_then w [] (o, s) (λ n _. next n) ≡ (done t, s')
          → (n : ℤ) × (require_int_arg float_int args name ≡ done n) × (next n ≡ (done t, s'))
      step (failed e) r h' = cc
      step (done n) r h' = (n, r, h')
