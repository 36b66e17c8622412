-- ===== src/Kube/Summary.antt =====
-- The summaries of agent/mcp-server/k8s.go: their texts, and one of each kind of object.
use take.Prelude.{
  ℕ, suc, ◌+◌, ◌-◌, ◌%◌, ◌^◌, Bool, false, not, Option, none, some, List, [], ◌∷◌, ◌++◌, length,
  slice_to, keep, Text, codes, text_eq, ltb, if◌then◌else◌, decimal, ℤ, pos, negsuc,
}
use take.Strings.{join}
use take.Kube.Objects.{
  ContainerStatus, Pod, Deployment, ReplicaSet, StatefulSet, DaemonSet, Service, Endpoints,
  ConfigMap, Namespace, NodeCondition, Node, Event, Job, CronJob, Ingress, PersistentVolumeClaim,
}

abbrev pub max_list_items : ℕ
max_list_items = 200

pub record Summary : Type 0 where
  pub kind : Text
  pub name : Text
  pub namespace : Text
  pub status : Text
  pub extra : Text

-- A part of a text that is left out with its value.
abbrev unless_empty : Text → Text → Text
unless_empty value part = if text_eq value [] then [] else part

unfoldable pub format : Summary → Text
format s =
    (codes "Kind:      " ++ s.kind ++ codes "\n")
    ++ (codes "Name:      " ++ s.name ++ codes "\n")
    ++ unless_empty s.namespace (codes "Namespace: " ++ s.namespace ++ codes "\n")
    ++ unless_empty s.status (codes "Status:    " ++ s.status ++ codes "\n")
    ++ s.extra

unfoldable pub one_line : Summary → Text
one_line s =
    codes "- "
    ++ s.name
    ++ unless_empty s.namespace (codes " (ns: " ++ s.namespace ++ codes ")")
    ++ unless_empty s.status (codes " [" ++ s.status ++ codes "]")

unfoldable pub item_lines : List Summary → Text
item_lines [] = []
item_lines (s ∷ items) = one_line s ++ codes "\n" ++ item_lines items

-- The first line of a list, and the last one of a truncated list.
unfoldable pub count_line : ℕ → Text → Text
count_line n canonical = decimal n ++ codes " " ++ canonical ++ codes ":\n"

unfoldable pub rest_line : ℕ → Text
rest_line n = codes "... and " ++ decimal n ++ codes " more (truncated)\n"

-- The list of some items, `truncated` or not.
unfoldable pub list_lines : Text → List Summary → Bool → Text
unfolding count_line rest_line
list_lines canonical items truncated =
    let shown = if truncated then slice_to max_list_items items else items in
    count_line (length items) canonical
    ++ item_lines shown
    ++ (if truncated then rest_line (length items - max_list_items) else [])

unfoldable pub format_list : Text → List Summary → Text
unfolding list_lines
format_list canonical [] = codes "No " ++ canonical ++ codes " found."
format_list canonical (s ∷ more) =
    list_lines canonical (s ∷ more) (ltb max_list_items (length (s ∷ more)))

-- %d
abbrev pub decimal_ℤ : ℤ → Text
decimal_ℤ (pos n) = decimal n
decimal_ℤ (negsuc n) = codes "-" ++ decimal (suc n)

-- The 32 bits of an int32, and the int32 of 32 bits.
unfoldable pub word : ℤ → ℕ
word (pos n) = n % 2 ^ 32
word (negsuc n) = 2 ^ 32 - 1 - n % 2 ^ 32

unfoldable pub signed : ℕ → ℤ
signed w = if ltb w (2 ^ 31) then pos w else negsuc (2 ^ 32 - 1 - w)

-- a + b on int32
unfoldable pub add_int32 : ℤ → ℤ → ℤ
unfolding word signed
add_int32 a b = signed ((word a + word b) % 2 ^ 32)

abbrev pub deref_int32 : Option ℤ → ℤ
deref_int32 none = pos 0
deref_int32 (some n) = n

abbrev pub deref_bool : Option Bool → Bool
deref_bool none = false
deref_bool (some b) = b

-- The ready containers, and the restarts added up from `restarts`.
unfoldable pub count_ready : List ContainerStatus → ℕ
count_ready [] = 0
count_ready (c ∷ cs) = (if c.ready then 1 else 0) + count_ready cs

unfoldable pub add_restarts : ℤ → List ContainerStatus → ℤ
add_restarts restarts [] = restarts
add_restarts restarts (c ∷ cs) = add_restarts (add_int32 restarts c.restart_count) cs

unfoldable pub summarize_pod : Pod → Summary
summarize_pod p = record {
  kind = codes "Pod";
  name = p.name;
  namespace = p.namespace;
  status = p.phase;
  extra =
      codes "Ready:     "
      ++ decimal (count_ready p.container_statuses)
      ++ codes "/"
      ++ decimal (length p.container_statuses)
      ++ codes "\nRestarts:  "
      ++ decimal_ℤ (add_restarts (pos 0) p.container_statuses)
      ++ codes "\nNode:      "
      ++ p.node_name
      ++ codes "\nPodIP:     "
      ++ p.pod_ip
      ++ codes "\n";
}

-- "%d/%d ready"
abbrev ready_of : ℤ → ℤ → Text
ready_of a b = decimal_ℤ a ++ codes "/" ++ decimal_ℤ b ++ codes " ready"

unfoldable pub summarize_deployment : Deployment → Summary
summarize_deployment d = record {
  kind = codes "Deployment";
  name = d.name;
  namespace = d.namespace;
  status = ready_of d.ready_replicas d.replicas;
  extra =
      codes "Replicas:  desired="
      ++ decimal_ℤ (deref_int32 d.desired)
      ++ codes " updated="
      ++ decimal_ℤ d.updated_replicas
      ++ codes " available="
      ++ decimal_ℤ d.available_replicas
      ++ codes "\n";
}

unfoldable pub summarize_replica_set : ReplicaSet → Summary
summarize_replica_set r = record {
  kind = codes "ReplicaSet";
  name = r.name;
  namespace = r.namespace;
  status = ready_of r.ready_replicas r.replicas;
  extra = [];
}

unfoldable pub summarize_stateful_set : StatefulSet → Summary
summarize_stateful_set s = record {
  kind = codes "StatefulSet";
  name = s.name;
  namespace = s.namespace;
  status = ready_of s.ready_replicas s.replicas;
  extra = [];
}

unfoldable pub summarize_daemon_set : DaemonSet → Summary
summarize_daemon_set d = record {
  kind = codes "DaemonSet";
  name = d.name;
  namespace = d.namespace;
  status = ready_of d.number_ready d.desired_number_scheduled;
  extra = [];
}

unfoldable pub summarize_service : Service → Summary
summarize_service s = record {
  kind = codes "Service";
  name = s.name;
  namespace = s.namespace;
  status = [];
  extra =
      codes "ClusterIP: " ++ s.cluster_ip ++ codes "\nType:      " ++ s.service_type ++ codes "\n";
}

unfoldable pub count_addresses : List (List Text) → ℕ
count_addresses [] = 0
count_addresses (subset' ∷ l) = length subset' + count_addresses l

unfoldable pub summarize_endpoints : Endpoints → Summary
summarize_endpoints e = record {
  kind = codes "Endpoints";
  name = e.name;
  namespace = e.namespace;
  status = decimal (count_addresses e.subsets) ++ codes " addresses";
  extra = [];
}

unfoldable pub summarize_config_map : ConfigMap → Summary
summarize_config_map c = record {
  kind = codes "ConfigMap";
  name = c.name;
  namespace = c.namespace;
  status = decimal (length c.data_keys) ++ codes " keys";
  extra = [];
}

unfoldable pub summarize_namespace : Namespace → Summary
summarize_namespace n = record {
  kind = codes "Namespace";
  name = n.name;
  namespace = [];
  status = n.phase;
  extra = [];
}

-- The loop over the conditions: the last one of type "Ready" decides.
unfoldable pub node_status : Text → List NodeCondition → Text
node_status status [] = status
node_status status (c ∷ cs) =
    node_status
      (if text_eq c.condition_type (codes "Ready")
        then (if text_eq c.status (codes "True") then codes "Ready" else codes "NotReady")
        else status)
      cs

unfoldable pub summarize_node : Node → Summary
summarize_node n = record {
  kind = codes "Node";
  name = n.name;
  namespace = [];
  status = node_status (codes "Unknown") n.conditions;
  extra = [];
}

unfoldable pub summarize_event : Event → Summary
summarize_event e = record {
  kind = codes "Event";
  name = e.name;
  namespace = e.namespace;
  status = e.reason ++ codes ": " ++ e.message;
  extra = [];
}

unfoldable pub summarize_job : Job → Summary
summarize_job j = record {
  kind = codes "Job";
  name = j.name;
  namespace = j.namespace;
  status =
      codes "active="
      ++ decimal_ℤ j.active
      ++ codes " succeeded="
      ++ decimal_ℤ j.succeeded
      ++ codes " failed="
      ++ decimal_ℤ j.failed;
  extra = [];
}

unfoldable pub summarize_cron_job : CronJob → Summary
summarize_cron_job c = record {
  kind = codes "CronJob";
  name = c.name;
  namespace = c.namespace;
  status = [];
  extra =
      codes "Schedule:  "
      ++ c.schedule
      ++ codes "\nSuspended: "
      ++ (if deref_bool c.suspend then codes "true" else codes "false")
      ++ codes "\n";
}

unfoldable pub summarize_ingress : Ingress → Summary
summarize_ingress i = record {
  kind = codes "Ingress";
  name = i.name;
  namespace = i.namespace;
  status = join (codes ",") (keep (λ host. not (text_eq host [])) i.hosts);
  extra = [];
}

unfoldable pub summarize_pvc : PersistentVolumeClaim → Summary
summarize_pvc p = record {
  kind = codes "PersistentVolumeClaim";
  name = p.name;
  namespace = p.namespace;
  status = p.phase;
  extra = codes "Capacity:  " ++ p.storage ++ codes "\n";
}
