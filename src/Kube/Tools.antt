-- ===== src/Kube/Tools.antt =====
-- runK8sGet and runK8sDescribe of agent/mcp-server/k8s.go. The arguments come as the members of the
-- JSON object; a repeated member counts with its last value, as in a Go map.
use take.Prelude.{
  ◌&&◌, ◌||◌, not, Option, none, some, List, [], ◌∷◌, ◌++◌, Text, codes, text_eq, if◌then◌else◌,
}
use take.Json.{str, Fields, end, field}
use take.Kube.Kinds.{canonical_kind, cluster_scoped_kinds, canonical_to_kube_kind}
use take.Kube.Objects.{Event}
use take.Kube.Summary.{format, format_list}
use take.Kube.Fetch.{
  Failure, kind_required, kind_and_name_required, secrets_forbidden, no_client, unknown_kind,
  unsupported_kind, namespace_required, api, within, Reply, reply, failure, Client, Traced,
  fetch_one, fetch_list, related_events,
}

-- m[key].(string), "" when it is not there or of another type, over what earlier members left.
unfoldable pub text_arg : Text → Fields → Text → Text
text_arg key end found = found
text_arg key (field k v rest) found =
    text_arg key rest (if text_eq k key then (elim v [ str t ↦ t | _ ↦ [] ]) else found)

unfoldable pub arg : Text → Fields → Text
unfolding text_arg
arg key args = text_arg key args []

-- The errors' texts. `quote` is fmt's %q, whose escapes depend on the Unicode tables.
unfoldable pub error_text : (Text → Text) → Failure → Text
error_text quote kind_required = codes "kind is required"
error_text quote kind_and_name_required = codes "kind and name are required"
error_text quote secrets_forbidden =
    codes
      "access to \"secrets\" is not permitted: mcp-server never reads Secret data, by design (see agent/PLAN.md)"
error_text quote no_client =
    codes "no Kubernetes client available: mcp-server is not running in-cluster"
error_text quote (unknown_kind kind) = codes "unknown or unsupported resource kind " ++ quote kind
error_text quote (unsupported_kind kind) = codes "unsupported kind: " ++ kind
error_text quote (namespace_required kind) = codes "namespace is required to describe " ++ kind
error_text quote (api e) = e
error_text quote (within context e) = context ++ codes ": " ++ error_text quote e

-- `client == nil`
unfoldable pub with_client : Option Client → Text → Reply (Client × Text)
with_client none canonical = failure no_client
with_client (some c) canonical = reply (c, canonical)

unfoldable pub admit_known : Option Client → Text → Option Text → Reply (Client × Text)
unfolding with_client
admit_known client kind none = failure (unknown_kind kind)
admit_known client kind (some canonical) =
    if text_eq canonical (codes "secrets")
    then failure secrets_forbidden
    else with_client client canonical

-- The checks that both tools make before they use the client.
unfoldable pub admit : Option Client → Text → Reply (Client × Text)
unfolding admit_known
admit client kind = admit_known client kind (canonical_kind kind)

-- The error that fetchOne or fetchList ends with, in its context; else what follows the call.
unfoldable pub and_then : {A B : Type 0} → Text → Traced A → (A → Traced B) → Traced B
and_then context (calls, failure e) next = (calls, failure (within context e))
and_then context (calls, reply a) next = let r = next a in (calls ++ r.0, r.1)

unfoldable pub get_admitted : Reply (Client × Text) → Text → Text → Traced Text
get_admitted (failure e) namespace name = ([], failure e)
get_admitted (reply (c, canonical)) namespace name =
    if not (text_eq name [])
    then and_then (codes "get " ++ canonical ++ codes "/" ++ name)
        (fetch_one c canonical namespace name) (λ s. ([], reply (format s)))
    else and_then (codes "list " ++ canonical) (fetch_list c canonical namespace)
        (λ items. ([], reply (format_list canonical items)))

unfoldable pub run_k8s_get : Option Client → Fields → Traced Text
unfolding get_admitted admit and_then
run_k8s_get client args =
    let kind = arg (codes "kind") args in
    if text_eq kind []
    then ([], failure kind_required)
    else get_admitted (admit client kind) (arg (codes "namespace") args) (arg (codes "name") args)

unfoldable pub event_lines : List Event → Text
event_lines [] = []
event_lines (e ∷ es) =
    codes "  "
    ++ e.event_type
    ++ codes "\t"
    ++ e.reason
    ++ codes "\t"
    ++ e.message
    ++ codes "\n"
    ++ event_lines es

-- What follows the object's own lines.
unfoldable pub event_section : (Text → Text) → Reply (List Event) → Text
unfolding event_lines error_text
event_section quote (failure e) =
    codes "\nEvents:    <error fetching events: " ++ error_text quote e ++ codes ">\n"
event_section quote (reply []) = codes "\nEvents:\n  <none>\n"
event_section quote (reply (e ∷ es)) = codes "\nEvents:\n" ++ event_lines (e ∷ es)

module _ (quote : Text → Text) where
  unfoldable pub with_events : Text → Traced (List Event) → Traced Text
  unfolding event_section
  with_events described (calls, found) = (calls, reply (described ++ event_section quote found))

  unfoldable pub describe_admitted : Reply (Client × Text) → Text → Text → Traced Text
  describe_admitted (failure e) namespace name = ([], failure e)
  describe_admitted (reply (c, canonical)) namespace name =
      if text_eq namespace [] && not (cluster_scoped_kinds canonical)
      then ([], failure (namespace_required canonical))
      else and_then (codes "get " ++ canonical ++ codes "/" ++ name)
          (fetch_one c canonical namespace name)
          (λ s.
            with_events (format s)
              (related_events c namespace (canonical_to_kube_kind canonical) name))

  unfoldable pub run_k8s_describe : Option Client → Fields → Traced Text
  unfolding describe_admitted admit and_then with_events
  run_k8s_describe client args =
      let kind = arg (codes "kind") args in
      let name = arg (codes "name") args in
      if text_eq kind [] || text_eq name []
      then ([], failure kind_and_name_required)
      else describe_admitted (admit client kind) (arg (codes "namespace") args) name
