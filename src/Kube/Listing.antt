-- ===== src/Kube/Listing.antt =====
-- formatList and the counts of agent/mcp-server/k8s.go.
use take.Prelude.{
  ◌≡◌, refl, ap, ◌∙◌, append-nil, ◌≤◌, ◌<◌, ◌+◌, ◌-◌, ◌^◌, suc, zero, ℕ, true, false, Text, [], ◌∷◌,
  List, ◌++◌, All, length, length-append, slice_to, ltb, lt→ltb, pos, negsuc, arith,
}
use take.Kube.Objects.{ContainerStatus}
use take.Kube.Summary.{
  Summary, max_list_items, item_lines, count_line, rest_line, list_lines, format_list, word, signed,
  add_int32, add_restarts,
}

slice_to-append : {A : Type 0} (xs ys : List A) (n : ℕ) → length xs ≡ n → slice_to n (xs ++ ys) ≡ xs
unfolding slice_to
slice_to-append [] ys zero h = refl
slice_to-append [] ys (suc n) h = absurd (omega arith)
slice_to-append (x ∷ xs) ys zero h = absurd (omega arith)
slice_to-append (x ∷ xs) ys (suc n) h = ap (λ l. x ∷ l) (slice_to-append xs ys n (omega arith))

list_lines-truncated :
    (canonical : Text) (shown : List Summary) (s : Summary) (more : List Summary)
    → length shown ≡ max_list_items
    → list_lines canonical (shown ++ s ∷ more) true
      ≡ count_line (max_list_items + length (s ∷ more)) canonical
        ++ item_lines shown
        ++ rest_line (length (s ∷ more))
unfolding list_lines
list_lines-truncated canonical shown s more h =
    rw (slice_to-append shown (s ∷ more) max_list_items h) (rw rest (rw counted refl))
  where
    counted : length (shown ++ s ∷ more) ≡ max_list_items + length (s ∷ more)
    counted = omega (arith, h, length-append shown (s ∷ more))

    rest : length (shown ++ s ∷ more) - max_list_items ≡ length (s ∷ more)
    rest = omega (arith, counted)

-- formatList of more than 200 items shows the first 200 alone, a line each, after the number of
-- all and before the number of the rest.
format_list-truncated :
    (canonical : Text) (shown : List Summary) (s : Summary) (more : List Summary)
    → length shown ≡ max_list_items
    → format_list canonical (shown ++ s ∷ more)
      ≡ count_line (max_list_items + length (s ∷ more)) canonical
        ++ item_lines shown
        ++ rest_line (length (s ∷ more))
unfolding format_list
format_list-truncated canonical [] s more h = absurd (omega arith)
format_list-truncated canonical (a ∷ shown) s more h =
    ap (list_lines canonical (a ∷ shown ++ s ∷ more)) (lt→ltb _ _ long)
    ∙ list_lines-truncated canonical (a ∷ shown) s more h
  where
    long : max_list_items < length (a ∷ shown ++ s ∷ more)
    long = omega (arith, h, length-append shown (s ∷ more))

-- formatList of at most 200 items, and one at least, shows every item after their number.
format_list-whole :
    (canonical : Text) (s : Summary) (more : List Summary)
    → length (s ∷ more) ≤ max_list_items
    → format_list canonical (s ∷ more)
      ≡ count_line (length (s ∷ more)) canonical ++ item_lines (s ∷ more)
unfolding format_list list_lines
format_list-whole canonical s more h =
    ap (list_lines canonical (s ∷ more)) (le→ltb _ _ h) ∙ append-nil _
  where
    le→ltb : (a b : ℕ) → b ≤ a → ltb a b ≡ false
    le→ltb a b k = ground arith

abbrev pub count_of : ContainerStatus → ℕ
count_of c = elim (c.restart_count) [ pos n ↦ n | negsuc _ ↦ 0 ]

-- The sum of restart counts.
abbrev pub total : List ContainerStatus → ℕ
total [] = 0
total (c ∷ cs) = count_of c + total cs

add_int32-pos : (a b : ℕ) → a + b < 2 ^ 31 → add_int32 (pos a) (pos b) ≡ pos (a + b)
unfolding add_int32 word signed
add_int32-pos a b h = ground arith

-- Restart counts that are not negative are added without a wrap-around, from any count on, while
-- the sum is below 2^31.
pub add_restarts-total :
    (n : ℕ) (cs : List ContainerStatus)
    → All (λ c. c.restart_count ≡ pos (count_of c)) cs
    → n + total cs < 2 ^ 31
    → add_restarts (pos n) cs ≡ pos (n + total cs)
unfolding add_restarts
add_restarts-total n [] _ h = ap pos (omega arith)
add_restarts-total n (c ∷ cs) (p, ps) h =
    ap (λ r. add_restarts r cs)
      (ap (add_int32 (pos n)) p ∙ add_int32-pos n (count_of c) (omega (arith, h)))
    ∙ add_restarts-total (n + count_of c) cs ps (omega (arith, h))
    ∙ ap pos (omega arith)
