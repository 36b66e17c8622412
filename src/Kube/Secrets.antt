-- ===== src/Kube/Secrets.antt =====
-- Secrets in agent/mcp-server/k8s.go: which requests errSecretsForbidden answers.
use take.Prelude.{
  ◌≡◌, refl, subst, ap, ◌↔◌, ◌≢◌, ◌⊎◌, inl, inr, Bool, true, false, not, Option, none, some, Text,
  codes, text_eq, text_eq→eq, lookup, [], ◌++◌, if◌then◌else◌,
}
use take.Strings.{trim_space, to_lower}
use take.Json.{Fields}
use take.Kube.Kinds.{canonical_kind, kind_aliases}
use take.Kube.Summary.{format, format_list}
use take.Kube.Tables.{kind_aliases-secrets}
use take.Kube.Fetch.{
  secrets_forbidden, kind_required, Reply, reply, failure, Client, Traced, fetch_one, fetch_list,
}
use take.Kube.Tools.{arg, admit, and_then, get_admitted, with_client, admit_known, run_k8s_get}

-- A kind that is "secret" or "secrets" but for letter case and white space around it.
abbrev pub IsSecretKind : Text → Type 0
IsSecretKind kind =
    (to_lower (trim_space kind) ≡ codes "secret") ⊎ (to_lower (trim_space kind) ≡ codes "secrets")

alias-canonical :
    (alias : Text)
    → (alias ≡ codes "secret") ⊎ (alias ≡ codes "secrets")
    → lookup alias kind_aliases ≡ some (codes "secrets")
unfolding lookup text_eq
alias-canonical alias (inl e) = rw e refl
alias-canonical alias (inr e) = rw e refl

pub admit-secrets :
    (client : Option Client) (kind : Text)
    → IsSecretKind kind
    → admit client kind ≡ failure secrets_forbidden
unfolding admit admit_known canonical_kind text_eq
admit-secrets client kind h = ap (admit_known client kind) (alias-canonical _ h)

with_client-allowed :
    (client : Option Client) (canonical : Text)
    → with_client client canonical ≢ failure secrets_forbidden
unfolding with_client
with_client-allowed none canonical h = cc
with_client-allowed (some c) canonical h = cc

pub admit-forbidden :
    (client : Option Client) (kind : Text)
    → admit client kind ≡ failure secrets_forbidden
    → IsSecretKind kind
unfolding admit admit_known canonical_kind
admit-forbidden client kind h = found (canonical_kind kind) refl h
  where
    chosen :
        (canonical : Text) (b : Bool)
        → text_eq canonical (codes "secrets") ≡ b
        → (if b then failure secrets_forbidden else with_client client canonical)
          ≡ failure secrets_forbidden
        → text_eq canonical (codes "secrets") ≡ true
    chosen canonical true e h' = e
    chosen canonical false e h' = absurd (with_client-allowed client canonical h')

    found :
        (o : Option Text)
        → canonical_kind kind ≡ o
        → admit_known client kind o ≡ failure secrets_forbidden
        → IsSecretKind kind
    found none e h' = cc
    found (some canonical) e h' = kind_aliases-secrets _ canonical e (chosen canonical _ refl h')

-- An error of the client's is told in a context.
pub and_then-allowed :
    {A B : Type 0} (context : Text) (r : Traced A) (next : A → Traced B)
    → ((a : A) → (next a).1 ≢ failure secrets_forbidden)
    → (and_then context r next).1 ≢ failure secrets_forbidden
unfolding and_then
and_then-allowed context (calls, failure e) next k h = cc
and_then-allowed context (calls, reply a) next k h = k a h

get_admitted-forbidden :
    (r : Reply (Client × Text)) (namespace name : Text)
    → (get_admitted r namespace name).1 ≡ failure secrets_forbidden
    → r ≡ failure secrets_forbidden
unfolding get_admitted
get_admitted-forbidden (failure e) namespace name h = cc
get_admitted-forbidden (reply (c, canonical)) namespace name h =
    absurd (either (not (text_eq name [])) _ _ one all' h)
  where
    either :
        (b : Bool) (x y : Traced Text)
        → x.1 ≢ failure secrets_forbidden
        → y.1 ≢ failure secrets_forbidden
        → (if b then x else y).1 ≢ failure secrets_forbidden
    either true x y k l = k
    either false x y k l = l

    one :
        (and_then
          (codes "get " ++ canonical ++ codes "/" ++ name)
          (fetch_one c canonical namespace name)
          (λ s. ([], reply (format s)))).1
        ≢ failure secrets_forbidden
    one =
        and_then-allowed _ (fetch_one c canonical namespace name) (λ s. ([], reply (format s)))
          (λ s h'. cc)

    all' :
        (and_then
          (codes "list " ++ canonical)
          (fetch_list c canonical namespace)
          (λ items. ([], reply (format_list canonical items)))).1
        ≢ failure secrets_forbidden
    all' =
        and_then-allowed _ (fetch_list c canonical namespace)
          (λ items. ([], reply (format_list canonical items))) (λ items h'. cc)

pub empty-allowed : (kind : Text) → text_eq kind [] ≡ true → IsSecretKind kind → ⊥
unfolding to_lower trim_space
empty-allowed kind e h = impossible (subst IsSecretKind (text_eq→eq kind [] e) h)
  where
    impossible : IsSecretKind [] → ⊥
    impossible (inl h') = cc
    impossible (inr h') = cc

-- k8s_get fails with errSecretsForbidden exactly when the kind, trimmed and in lower case, is
-- "secret" or "secrets".
pub run_k8s_get-secrets :
    (client : Option Client) (args : Fields)
    → ((run_k8s_get client args).1 ≡ failure secrets_forbidden)
      ↔ IsSecretKind (arg (codes "kind") args)
unfolding run_k8s_get
run_k8s_get-secrets client args = guarded (text_eq kind []) refl
  where
    kind : Text
    kind = arg (codes "kind") args

    name : Text
    name = arg (codes "name") args

    namespace : Text
    namespace = arg (codes "namespace") args

    guarded :
        (b : Bool)
        → text_eq kind [] ≡ b
        → ((if b
              then ([], failure kind_required)
              else get_admitted (admit client kind) namespace name).1
            ≡ failure secrets_forbidden)
          ↔ IsSecretKind kind
    guarded true e = (λ h. cc, λ h. absurd (empty-allowed kind e h))
    guarded false e = (
      λ h. admit-forbidden client kind (get_admitted-forbidden _ namespace name h),
      λ h. ap (λ r. (get_admitted r namespace name).1) (admit-secrets client kind h),
    )
