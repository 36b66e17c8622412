-- ===== src/Kube/Refusal.antt =====
-- Secrets in runK8sDescribe of agent/mcp-server/k8s.go.
use take.Prelude.{
  ◌≡◌, refl, ap, ◌↔◌, Bool, true, false, not, ◌&&◌, ◌||◌, Option, [], ◌++◌, Text, codes, text_eq,
  if◌then◌else◌,
}
use take.Json.{Fields}
use take.Kube.Kinds.{cluster_scoped_kinds, canonical_to_kube_kind}
use take.Kube.Summary.{Summary, format}
use take.Kube.Fetch.{
  Failure, secrets_forbidden, kind_and_name_required, namespace_required, Reply, reply, failure,
  Client, Traced, fetch_one, related_events,
}
use take.Kube.Tools.{arg, admit, and_then, with_events, describe_admitted, run_k8s_describe}
use take.Kube.Secrets.{
  IsSecretKind, admit-secrets, admit-forbidden, and_then-allowed, empty-allowed,
}

module _ (quote : Text → Text) where
  describe_admitted-forbidden :
      (r : Reply (Client × Text)) (namespace name : Text)
      → (describe_admitted quote r namespace name).1 ≡ failure secrets_forbidden
      → r ≡ failure secrets_forbidden
  unfolding describe_admitted with_events
  describe_admitted-forbidden (failure e) namespace name h = ap failure (ap told h)
    where
      told : Reply Text → Failure
      told (failure e') = e'
      told (reply _) = kind_and_name_required
  describe_admitted-forbidden (reply (c, canonical)) namespace name h =
      absurd (placed (text_eq namespace [] && not (cluster_scoped_kinds canonical)) h)
    where
      after : Summary → Traced Text
      after s =
          with_events quote (format s)
            (related_events c namespace (canonical_to_kube_kind canonical) name)

      placed :
          (b : Bool)
          → (if b
              then ([], failure (namespace_required canonical))
              else and_then
                  (codes "get " ++ canonical ++ codes "/" ++ name)
                  (fetch_one c canonical namespace name)
                  after).1
            ≡ failure secrets_forbidden
          → ⊥
      placed true h' = cc
      placed false h' =
          and_then-allowed _ (fetch_one c canonical namespace name) after (λ s e. cc) h'

  -- With a name, k8s_describe fails with errSecretsForbidden exactly when the kind, trimmed and
  -- in lower case, is "secret" or "secrets".
  pub run_k8s_describe-secrets :
      (client : Option Client) (args : Fields)
      → text_eq (arg (codes "name") args) [] ≡ false
      → ((run_k8s_describe quote client args).1 ≡ failure secrets_forbidden)
        ↔ IsSecretKind (arg (codes "kind") args)
  unfolding run_k8s_describe
  run_k8s_describe-secrets client args named =
      guarded (text_eq kind []) (text_eq name []) refl named
    where
      kind : Text
      kind = arg (codes "kind") args

      name : Text
      name = arg (codes "name") args

      namespace : Text
      namespace = arg (codes "namespace") args

      guarded :
          (b n : Bool)
          → text_eq kind [] ≡ b
          → n ≡ false
          → ((if b || n
                then ([], failure kind_and_name_required)
                else describe_admitted quote (admit client kind) namespace name).1
              ≡ failure secrets_forbidden)
            ↔ IsSecretKind kind
      guarded true n e k = (λ h. cc, λ h. absurd (empty-allowed kind e h))
      guarded false true e k = cc
      guarded false false e k = (
        λ h. admit-forbidden client kind (describe_admitted-forbidden _ namespace name h),
        λ h. ap (λ r. (describe_admitted quote r namespace name).1) (admit-secrets client kind h),
      )
