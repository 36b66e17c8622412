-- ===== src/Kube/Fetch.antt =====
-- fetchOne, fetchList and relatedEvents of agent/mcp-server/k8s.go, over a Kubernetes client. An
-- operation returns the calls that it makes to the API with its result.
use take.Prelude.{
  Bool, ◌&&◌, ◌||◌, Option, none, some, List, [], ◌∷◌, map, keep, Text, codes, text_eq, Entries,
  lookup, ltb_ℤ, sort_slice,
}
use take.Kube.Kinds.{
  Resource, pods, deployments, replica_sets, stateful_sets, daemon_sets, services, endpoints,
  config_maps, namespaces, nodes, events, jobs, cron_jobs, ingresses, persistent_volume_claims,
}
use take.Kube.Objects.{Object, Event}
use take.Kube.Summary.{
  Summary, summarize_pod, summarize_deployment, summarize_replica_set, summarize_stateful_set,
  summarize_daemon_set, summarize_service, summarize_endpoints, summarize_config_map,
  summarize_namespace, summarize_node, summarize_event, summarize_job, summarize_cron_job,
  summarize_ingress, summarize_pvc,
}

-- The errors: `api` has the text of one that the client returns, `within` puts a text before one.
pub data Failure : Type 0 where
  kind_required kind_and_name_required secrets_forbidden no_client : Failure
  unknown_kind unsupported_kind namespace_required api : Text → Failure
  within : Text → Failure → Failure

pub data Reply (A : Type 0) : Type 0 where
  reply : A → Reply A
  failure : Failure → Reply A

-- A Get of one object and a List, with the namespace that goes to the API, "" for every one.
pub data Call : Type 0 where
  get : Resource → Text → Text → Call
  list : Resource → Text → Call

-- The answers of kubernetes.Interface while a tool runs.
pub record Client : Type 0 where
  pub get_object : (r : Resource) → Text → Text → Reply (Object r)
  pub list_objects : (r : Resource) → Text → Reply (List (Object r))

abbrev pub Traced : Type 0 → Type 0
Traced A = List Call × Reply A

unfoldable pub map_reply : {A B : Type 0} → (A → B) → Reply A → Reply B
map_reply f (reply a) = reply (f a)
map_reply f (failure e) = failure e

-- A case of the two switches on the canonical kind.
pub record Reader : Type 0 where
  pub resource : Resource
  pub summarize : Object resource → Summary

abbrev reader : (r : Resource) → (Object r → Summary) → Reader
reader r f = record { resource = r; summarize = f }

abbrev pub readers : Entries Reader
readers =
    (codes "pods", reader pods summarize_pod)
    ∷ (codes "deployments", reader deployments summarize_deployment)
    ∷ (codes "replicasets", reader replica_sets summarize_replica_set)
    ∷ (codes "statefulsets", reader stateful_sets summarize_stateful_set)
    ∷ (codes "daemonsets", reader daemon_sets summarize_daemon_set)
    ∷ (codes "services", reader services summarize_service)
    ∷ (codes "endpoints", reader endpoints summarize_endpoints)
    ∷ (codes "configmaps", reader config_maps summarize_config_map)
    ∷ (codes "namespaces", reader namespaces summarize_namespace)
    ∷ (codes "nodes", reader nodes summarize_node)
    ∷ (codes "events", reader events summarize_event)
    ∷ (codes "jobs", reader jobs summarize_job)
    ∷ (codes "cronjobs", reader cron_jobs summarize_cron_job)
    ∷ (codes "ingresses", reader ingresses summarize_ingress)
    ∷ (codes "persistentvolumeclaims", reader persistent_volume_claims summarize_pvc)
    ∷ []

-- Namespaces() and Nodes() take no namespace.
unfoldable pub scope : Resource → Text → Text
scope namespaces namespace = []
scope nodes namespace = []
scope _ namespace = namespace

-- The filter of the events: the name, then the kind and the namespace where there is one.
unfoldable pub involves : Text → Text → Text → Event → Bool
involves namespace kube_kind name e =
    text_eq e.involved_name name
    && (text_eq kube_kind [] || text_eq e.involved_kind kube_kind)
    && (text_eq namespace [] || text_eq e.involved_namespace namespace)

unfoldable pub earlier : Event → Event → Bool
earlier a b = ltb_ℤ a.last_timestamp b.last_timestamp

module _ (client : Client) where
  unfoldable pub read_one : Option Reader → Text → Text → Text → Traced Summary
  read_one none canonical namespace name = ([], failure (unsupported_kind canonical))
  read_one (some r) canonical namespace name =
      let ns = scope r.resource namespace in
      (get r.resource ns name ∷ [], map_reply r.summarize (client.get_object r.resource ns name))

  unfoldable pub fetch_one : Text → Text → Text → Traced Summary
  unfolding read_one
  fetch_one canonical namespace name = read_one (lookup canonical readers) canonical namespace name

  unfoldable pub read_list : Option Reader → Text → Text → Traced (List Summary)
  read_list none canonical namespace = ([], failure (unsupported_kind canonical))
  read_list (some r) canonical namespace =
      let ns = scope r.resource namespace in
      (list r.resource ns ∷ [], map_reply (map r.summarize) (client.list_objects r.resource ns))

  unfoldable pub fetch_list : Text → Text → Traced (List Summary)
  unfolding read_list
  fetch_list canonical namespace = read_list (lookup canonical readers) canonical namespace

  unfoldable pub related_events : Text → Text → Text → Traced (List Event)
  unfolding earlier involves
  related_events namespace kube_kind name = (
    list events namespace ∷ [],
    map_reply (λ all'. sort_slice earlier (keep (involves namespace kube_kind name) all'))
        (client.list_objects events namespace),
  )
