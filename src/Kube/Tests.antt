-- ===== src/Kube/Tests.antt =====
-- The tools of agent/mcp-server over a small cluster, and the theorems at inputs that meet their
-- hypotheses.
use take.Prelude.{
  ℕ, ◌≡◌, ◌↔◌, refl, true, false, Option, none, some, List, [], ◌∷◌, arith, Text, codes, text_eq,
  lookup, decimal, pos, IsSortedBy, keep, sort_slice,
}
use mathlib.Core.List.{Perm}
use take.Json.{Json, Fields, field, end, str, obj}
use take.Strings.{trim_space, to_lower}
use take.Kube.Kinds.{
  Resource, pods, events, canonical_kind, canonical_to_kube_kind, cluster_scoped_kinds,
}
use take.Kube.Objects.{Object, Pod, Event}
use take.Kube.Summary.{
  format, item_lines, one_line, format_list, add_restarts, add_int32, summarize_pod, count_ready,
}
use take.Kube.Fetch.{
  fetch_list, secrets_forbidden, api, Reply, reply, failure, list, Client, scope, map_reply,
  fetch_one, related_events,
}
use take.Kube.Tools.{arg, event_section, event_lines, run_k8s_get, run_k8s_describe}
use take.Kube.Secrets.{IsSecretKind, run_k8s_get-secrets}
use take.Kube.Refusal.{run_k8s_describe-secrets}
use take.Kube.Access.{Reads}
use take.Kube.Mux.{serve_mcp, serve_mcp-Reads}
use take.Kube.Listing.{add_restarts-total}
use take.Kube.Events.{before, concerns, related_events-sorted}

abbrev web : Pod
web = record {
  name = codes "web-1";
  namespace = codes "shop";
  phase = codes "Running";
  container_statuses =
      record { ready = true; restart_count = pos 2 }
      ∷ record { ready = false; restart_count = pos 40 }
      ∷ [];
  node_name = codes "n1";
  pod_ip = codes "10.0.0.7";
}

abbrev event_at : ℕ → Text → Text → Event
event_at t reason name = record {
  name = reason;
  namespace = codes "shop";
  event_type = codes "Normal";
  reason = reason;
  message = codes "ok";
  involved_kind = codes "Pod";
  involved_namespace = codes "shop";
  involved_name = name;
  last_timestamp = pos t;
}

abbrev log : List Event
log =
    event_at 30 (codes "Started") (codes "web-1")
    ∷ event_at 20 (codes "Pulled") (codes "web-2")
    ∷ event_at 10 (codes "Scheduled") (codes "web-1")
    ∷ []

abbrev objects : (r : Resource) → Text → Text → Reply (Object r)
objects pods namespace name = reply web
objects _ namespace name = failure (api (codes "not found"))

abbrev lists : (r : Resource) → Text → Reply (List (Object r))
lists pods namespace = reply (web ∷ [])
lists events namespace = reply log
lists _ namespace = failure (api (codes "forbidden"))

abbrev cluster : Client
cluster = record { get_object = objects; list_objects = lists }

abbrev args_of : Text → Text → Text → Fields
args_of kind namespace name =
    field (codes "kind") (str kind)
      (field (codes "namespace") (str namespace) (field (codes "name") (str name) end))

got :
    run_k8s_get (some cluster) (args_of (codes " Pods ") (codes "shop") [])
    ≡ (list pods (codes "shop") ∷ [], reply (codes "1 pods:\n- web-1 (ns: shop) [Running]\n"))
unfolding run_k8s_get arg canonical_kind trim_space to_lower lookup text_eq format_list item_lines
    one_line decimal map_reply fetch_list scope summarize_pod
got = refl

abbrev same : Text → Text
same t = t

abbrev described : Text
described =
    codes
      "Kind:      Pod\nName:      web-1\nNamespace: shop\nStatus:    Running\nReady:     1/2\nRestarts:  42\nNode:      n1\nPodIP:     10.0.0.7\n\nEvents:\n  Normal\tScheduled\tok\n  Normal\tStarted\tok\n"

describes :
    (run_k8s_describe same (some cluster) (args_of (codes "pod") (codes "shop") (codes "web-1"))).1
    ≡ reply described
unfolding run_k8s_describe arg canonical_kind trim_space to_lower lookup text_eq format
    summarize_pod count_ready add_restarts canonical_to_kube_kind cluster_scoped_kinds decimal
    map_reply event_section related_events event_lines keep sort_slice fetch_one add_int32
describes = refl

run_k8s_get-secrets_example :
    ((run_k8s_get (some cluster) (args_of (codes " Secret") [] (codes "db"))).1
      ≡ failure secrets_forbidden)
    ↔ IsSecretKind (arg (codes "kind") (args_of (codes " Secret") [] (codes "db")))
run_k8s_get-secrets_example =
    run_k8s_get-secrets (some cluster) (args_of (codes " Secret") [] (codes "db"))

run_k8s_describe-secrets_example :
    ((run_k8s_describe same none (args_of (codes "SECRETS") [] (codes "db"))).1
      ≡ failure secrets_forbidden)
    ↔ IsSecretKind (arg (codes "kind") (args_of (codes "SECRETS") [] (codes "db")))
unfolding arg text_eq
run_k8s_describe-secrets_example =
    run_k8s_describe-secrets same none (args_of (codes "SECRETS") [] (codes "db")) refl

abbrev request : Text
request = codes "{\"method\":\"tools/call\",...}"

abbrev parse : Text → Option Json
parse raw = some (
    obj (
      field (codes "method") (str (codes "tools/call")) (
        field (codes "params")
          (obj (
            field (codes "name") (str (codes "k8s_describe")) (
              field (codes "arguments") (obj (args_of (codes "pod") (codes "shop") (codes "web-1")))
                end)))
          end)))

serve_mcp-Reads_example :
    Reads 2 (serve_mcp same (λ _. []) parse (some cluster) (codes "/mcp") (some request))
serve_mcp-Reads_example =
    serve_mcp-Reads same (λ _. []) parse (some cluster) (codes "/mcp") (some request)

add_restarts-total_example : add_restarts (pos 0) web.container_statuses ≡ pos 42
add_restarts-total_example =
    add_restarts-total 0 web.container_statuses (refl, (refl, tt)) (omega arith)

related_events-sorted_example :
    (found : List Event) × ((related_events cluster (codes "shop") (codes "Pod") (codes "web-1")).1
      ≡ reply found)
    × IsSortedBy before found
    × Perm found (keep (concerns (codes "shop") (codes "Pod") (codes "web-1")) log)
related_events-sorted_example =
    related_events-sorted cluster (codes "shop") (codes "Pod") (codes "web-1") log refl

abbrev web_args : Fields
web_args = args_of (codes "pod") (codes "shop") (codes "web-1")
