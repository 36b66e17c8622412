-- ===== src/Kube/Objects.antt =====
-- What agent/mcp-server/k8s.go reads of the API's objects. Counts are int32 values; a `none` is a
-- nil pointer.
use take.Prelude.{Bool, Option, List, Text, ℤ}
use take.Kube.Kinds.{
  Resource, pods, deployments, replica_sets, stateful_sets, daemon_sets, services, endpoints,
  config_maps, namespaces, nodes, events, jobs, cron_jobs, ingresses, persistent_volume_claims,
  secrets,
}

pub record ContainerStatus : Type 0 where
  pub ready : Bool
  pub restart_count : ℤ

pub record Pod : Type 0 where
  pub name : Text
  pub namespace : Text
  pub phase : Text
  pub container_statuses : List ContainerStatus
  pub node_name : Text
  pub pod_ip : Text

pub record Deployment : Type 0 where
  pub name : Text
  pub namespace : Text
  pub desired : Option ℤ
  pub replicas : ℤ
  pub ready_replicas : ℤ
  pub updated_replicas : ℤ
  pub available_replicas : ℤ

pub record ReplicaSet : Type 0 where
  pub name : Text
  pub namespace : Text
  pub replicas : ℤ
  pub ready_replicas : ℤ

pub record StatefulSet : Type 0 where
  pub name : Text
  pub namespace : Text
  pub replicas : ℤ
  pub ready_replicas : ℤ

pub record DaemonSet : Type 0 where
  pub name : Text
  pub namespace : Text
  pub number_ready : ℤ
  pub desired_number_scheduled : ℤ

pub record Service : Type 0 where
  pub name : Text
  pub namespace : Text
  pub cluster_ip : Text
  pub service_type : Text

-- The subsets' addresses.
pub record Endpoints : Type 0 where
  pub name : Text
  pub namespace : Text
  pub subsets : List (List Text)

-- The data's keys, each once.
pub record ConfigMap : Type 0 where
  pub name : Text
  pub namespace : Text
  pub data_keys : List Text

pub record Namespace : Type 0 where
  pub name : Text
  pub phase : Text

pub record NodeCondition : Type 0 where
  pub condition_type : Text
  pub status : Text

pub record Node : Type 0 where
  pub name : Text
  pub conditions : List NodeCondition

-- The time is in nanoseconds since 1970.
pub record Event : Type 0 where
  pub name : Text
  pub namespace : Text
  pub event_type : Text
  pub reason : Text
  pub message : Text
  pub involved_kind : Text
  pub involved_namespace : Text
  pub involved_name : Text
  pub last_timestamp : ℤ

pub record Job : Type 0 where
  pub name : Text
  pub namespace : Text
  pub active : ℤ
  pub succeeded : ℤ
  pub failed : ℤ

pub record CronJob : Type 0 where
  pub name : Text
  pub namespace : Text
  pub schedule : Text
  pub suspend : Option Bool

-- The rules' hosts.
pub record Ingress : Type 0 where
  pub name : Text
  pub namespace : Text
  pub hosts : List Text

-- The storage capacity as resource.Quantity prints it.
pub record PersistentVolumeClaim : Type 0 where
  pub name : Text
  pub namespace : Text
  pub phase : Text
  pub storage : Text

pub record Secret : Type 0 where
  pub name : Text
  pub namespace : Text
  pub contents : List (Text × Text)

abbrev pub Object : Resource → Type 0
Object pods = Pod
Object deployments = Deployment
Object replica_sets = ReplicaSet
Object stateful_sets = StatefulSet
Object daemon_sets = DaemonSet
Object services = Service
Object endpoints = Endpoints
Object config_maps = ConfigMap
Object namespaces = Namespace
Object nodes = Node
Object events = Event
Object jobs = Job
Object cron_jobs = CronJob
Object ingresses = Ingress
Object persistent_volume_claims = PersistentVolumeClaim
Object secrets = Secret
