-- ===== src/Kube/Tables.antt =====
-- What the tables of agent/mcp-server/k8s.go have in common with one another: a property of every
-- row is one of what a lookup finds.
use take.Prelude.{
  ◌≡◌, refl, subst, Bool, true, false, not, ◌||◌, ◌&&◌, Option, none, some, inl, inr, [], ◌∷◌, Text,
  codes, text_eq, text_eq→eq, Entries, lookup, All, Bool-cases, Option-cases, false≢true, ◌⊎◌,
  arith,
}
use take.Strings.{trim_space, to_lower}
use take.Kube.Kinds.{kind_aliases, canonical_kind}
use take.Kube.Fetch.{Reader, readers}

module _ {V : Type 0} (P : Text → V → Type 0) where
  pub lookup-All :
      (k : Text) (v : V) (l : Entries V) → All (λ e. P (e.0) (e.1)) l → lookup k l ≡ some v → P k v
  unfolding lookup
  lookup-All k v [] _ h = cc
  lookup-All k v ((j, w) ∷ l) (p, ps) h = elim (Bool-cases (text_eq j k)) [
    | inl same ↦ subst (λ k'. P k' v) (text_eq→eq j k same) (subst (P j) (here same) p)
    | inr other ↦ lookup-All k v l ps (ground arith)
  ]
    where
      here : text_eq j k ≡ true → w ≡ v
      here same = ground arith

module _ {V : Type 0} (p : Text → V → Bool) where
  abbrev pub all_rows : Entries V → Bool
  all_rows [] = true
  all_rows ((k, v) ∷ l) = p k v && all_rows l

  pub lookup-all_rows :
      (k : Text) (v : V) (l : Entries V) → all_rows l ≡ true → lookup k l ≡ some v → p k v ≡ true
  lookup-all_rows k v l h e = lookup-All (λ k' v'. p k' v' ≡ true) k v l (rows l h) e
    where
      rows : (l' : Entries V) → all_rows l' ≡ true → All (λ e. p (e.0) (e.1) ≡ true) l'
      rows [] h' = tt
      rows ((k', v') ∷ l') h' = (ground arith, rows l' (ground arith))

abbrev is_some : {A : Type 0} → Option A → Bool
is_some none = false
is_some (some _) = true

abbrev supported : Text → Text → Bool
supported alias canonical =
    text_eq canonical (codes "secrets") || is_some (lookup canonical readers)

kind_aliases-supported : all_rows supported kind_aliases ≡ true
unfolding lookup text_eq
kind_aliases-supported = refl

-- Every kind that canonicalKind accepts, but for Secrets, is a case of fetchOne and fetchList.
kind_aliases-readers :
    (kind canonical : Text)
    → canonical_kind kind ≡ some canonical
    → text_eq canonical (codes "secrets") ≡ false
    → (r : Reader) × (lookup canonical readers ≡ some r)
unfolding canonical_kind
kind_aliases-readers kind canonical h n = elim (Option-cases (lookup canonical readers)) [
  | inr found ↦ found
  | inl missing ↦ absurd (false≢true (refused missing))
]
  where
    row : supported (to_lower (trim_space kind)) canonical ≡ true
    row = lookup-all_rows supported _ canonical kind_aliases kind_aliases-supported h

    refused : lookup canonical readers ≡ none → false ≡ true
    refused missing = rw (← row) (rw n (rw missing refl))

abbrev secret_row : Text → Text → Bool
secret_row alias canonical =
    not (text_eq canonical (codes "secrets"))
    || text_eq alias (codes "secret")
    || text_eq alias (codes "secrets")

kind_aliases-secret_row : all_rows secret_row kind_aliases ≡ true
unfolding text_eq
kind_aliases-secret_row = refl

-- The two names of Secrets.
pub kind_aliases-secrets :
    (alias canonical : Text)
    → lookup alias kind_aliases ≡ some canonical
    → text_eq canonical (codes "secrets") ≡ true
    → (alias ≡ codes "secret") ⊎ (alias ≡ codes "secrets")
kind_aliases-secrets alias canonical h e = elim (Bool-cases (text_eq alias (codes "secret"))) [
  | inl one ↦ inl (text_eq→eq alias _ one)
  | inr other ↦ inr (text_eq→eq alias _ (last _ _ _ row e other))
]
  where
    last : (a b c : Bool) → (not a || b || c) ≡ true → a ≡ true → b ≡ false → c ≡ true
    last a b c h' k n = ground arith

    row : secret_row alias canonical ≡ true
    row = lookup-all_rows secret_row alias canonical kind_aliases kind_aliases-secret_row h
