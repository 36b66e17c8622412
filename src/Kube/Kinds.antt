-- ===== src/Kube/Kinds.antt =====
-- The kind tables of agent/mcp-server/k8s.go, canonicalKind, and the resources of the Kubernetes
-- API that a client can ask for, Secrets included.
use take.Prelude.{Bool, ◌||◌, Option, none, some, [], ◌∷◌, Text, codes, text_eq, Entries, lookup}
use take.Strings.{trim_space, to_lower}

pub data Resource : Type 0 where
  pods deployments replica_sets stateful_sets daemon_sets services endpoints config_maps : Resource
  namespaces nodes events jobs cron_jobs ingresses persistent_volume_claims secrets : Resource

abbrev pub kind_aliases : Entries Text
kind_aliases =
    (codes "pod", codes "pods")
    ∷ (codes "pods", codes "pods")
    ∷ (codes "deployment", codes "deployments")
    ∷ (codes "deployments", codes "deployments")
    ∷ (codes "replicaset", codes "replicasets")
    ∷ (codes "replicasets", codes "replicasets")
    ∷ (codes "statefulset", codes "statefulsets")
    ∷ (codes "statefulsets", codes "statefulsets")
    ∷ (codes "daemonset", codes "daemonsets")
    ∷ (codes "daemonsets", codes "daemonsets")
    ∷ (codes "service", codes "services")
    ∷ (codes "services", codes "services")
    ∷ (codes "endpoint", codes "endpoints")
    ∷ (codes "endpoints", codes "endpoints")
    ∷ (codes "configmap", codes "configmaps")
    ∷ (codes "configmaps", codes "configmaps")
    ∷ (codes "namespace", codes "namespaces")
    ∷ (codes "namespaces", codes "namespaces")
    ∷ (codes "node", codes "nodes")
    ∷ (codes "nodes", codes "nodes")
    ∷ (codes "event", codes "events")
    ∷ (codes "events", codes "events")
    ∷ (codes "job", codes "jobs")
    ∷ (codes "jobs", codes "jobs")
    ∷ (codes "cronjob", codes "cronjobs")
    ∷ (codes "cronjobs", codes "cronjobs")
    ∷ (codes "ingress", codes "ingresses")
    ∷ (codes "ingresses", codes "ingresses")
    ∷ (codes "persistentvolumeclaim", codes "persistentvolumeclaims")
    ∷ (codes "persistentvolumeclaims", codes "persistentvolumeclaims")
    ∷ (codes "pvc", codes "persistentvolumeclaims")
    ∷ (codes "pvcs", codes "persistentvolumeclaims")
    ∷ (codes "secret", codes "secrets")
    ∷ (codes "secrets", codes "secrets")
    ∷ []

unfoldable pub cluster_scoped_kinds : Text → Bool
cluster_scoped_kinds canonical =
    text_eq canonical (codes "namespaces") || text_eq canonical (codes "nodes")

abbrev pub kube_kinds : Entries Text
kube_kinds =
    (codes "pods", codes "Pod")
    ∷ (codes "deployments", codes "Deployment")
    ∷ (codes "replicasets", codes "ReplicaSet")
    ∷ (codes "statefulsets", codes "StatefulSet")
    ∷ (codes "daemonsets", codes "DaemonSet")
    ∷ (codes "services", codes "Service")
    ∷ (codes "endpoints", codes "Endpoints")
    ∷ (codes "configmaps", codes "ConfigMap")
    ∷ (codes "namespaces", codes "Namespace")
    ∷ (codes "nodes", codes "Node")
    ∷ (codes "events", codes "Event")
    ∷ (codes "jobs", codes "Job")
    ∷ (codes "cronjobs", codes "CronJob")
    ∷ (codes "ingresses", codes "Ingress")
    ∷ (codes "persistentvolumeclaims", codes "PersistentVolumeClaim")
    ∷ []

-- A missing key gives the empty string.
unfoldable pub canonical_to_kube_kind : Text → Text
canonical_to_kube_kind canonical = elim (lookup canonical kube_kinds) [ none ↦ [] | some k ↦ k ]

unfoldable pub canonical_kind : Text → Option Text
canonical_kind kind = lookup (to_lower (trim_space kind)) kind_aliases
