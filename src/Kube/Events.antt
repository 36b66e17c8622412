-- ===== src/Kube/Events.antt =====
-- relatedEvents of agent/mcp-server/k8s.go, and the Kind that a summary shows.
use take.Prelude.{
  ◌≡◌, refl, ap, true, false, some, Text, text_eq, lookup, List, All, keep, IsSortedBy, sort_slice,
  sort_slice-perm, sort_slice-IsSortedBy, ltb_ℤ, ℤ, arith, Bool, [], subst, ◌&&◌, ◌||◌,
}
use mathlib.Core.List.{Perm}
use take.Kube.Kinds.{events, canonical_to_kube_kind}
use take.Kube.Objects.{Object, Event}
use take.Kube.Summary.{
  summarize_pod, summarize_deployment, summarize_replica_set, summarize_stateful_set,
  summarize_daemon_set, summarize_service, summarize_endpoints, summarize_config_map,
  summarize_namespace, summarize_node, summarize_event, summarize_job, summarize_cron_job,
  summarize_ingress, summarize_pvc,
}
use take.Kube.Tables.{lookup-All}
use take.Kube.Fetch.{reply, Client, Reader, readers, map_reply, involves, earlier, related_events}

ltb_ℤ-asym : (a b : ℤ) → ltb_ℤ a b ≡ true → ltb_ℤ b a ≡ false
ltb_ℤ-asym a b h = ground arith

ltb_ℤ-cotrans : (a b c : ℤ) → ltb_ℤ b a ≡ false → ltb_ℤ c b ≡ false → ltb_ℤ c a ≡ false
ltb_ℤ-cotrans a b c h k = ground arith

-- An event on the object of the name, in the namespace and of the kind, each where one is given.
abbrev pub concerns : Text → Text → Text → Event → Bool
concerns namespace kube_kind name e =
    (text_eq namespace [] || text_eq e.involved_namespace namespace)
    && (text_eq kube_kind [] || text_eq e.involved_kind kube_kind)
    && text_eq e.involved_name name

all_three : (a b c : Bool) → (a && b && c) ≡ (c && b && a)
all_three a b c = ground arith

involves_eq :
    (namespace kube_kind name : Text)
    → involves namespace kube_kind name ≡ concerns namespace kube_kind name
unfolding involves
involves_eq namespace kube_kind name i e =
    all_three (text_eq e.involved_name name)
      (text_eq kube_kind [] || text_eq e.involved_kind kube_kind)
      (text_eq namespace [] || text_eq e.involved_namespace namespace) i

abbrev pub before : Event → Event → Bool
before a b = ltb_ℤ a.last_timestamp b.last_timestamp

-- relatedEvents returns a permutation of exactly the listed events that involve the object, in
-- order of their last timestamps.
pub related_events-sorted :
    (c : Client) (namespace kube_kind name : Text) (listed : List Event)
    → c.list_objects events namespace ≡ reply listed
    → (found : List Event) × ((related_events c namespace kube_kind name).1 ≡ reply found)
      × IsSortedBy before found
      × Perm found (keep (concerns namespace kube_kind name) listed)
unfolding related_events earlier map_reply
related_events-sorted c namespace kube_kind name listed h = (
  sort_slice earlier kept,
  ap (map_reply (λ l. sort_slice earlier (keep (involves namespace kube_kind name) l))) h,
  sort_slice-IsSortedBy earlier (λ a b. ltb_ℤ-asym a.last_timestamp b.last_timestamp)
      (λ a b d. ltb_ℤ-cotrans a.last_timestamp b.last_timestamp d.last_timestamp) kept,
  subst (λ q. Perm (sort_slice earlier kept) (keep q listed)) (involves_eq namespace kube_kind name)
      (sort_slice-perm earlier kept),
)
  where
    kept : List Event
    kept = keep (involves namespace kube_kind name) listed

-- Every case of fetchOne and fetchList summarises with the Kind that canonicalToKubeKind gives
-- for the case.
readers-kube_kind :
    (canonical : Text) (r : Reader)
    → lookup canonical readers ≡ some r
    → (o : Object r.resource) → (r.summarize o).kind ≡ canonical_to_kube_kind canonical
unfolding canonical_to_kube_kind lookup text_eq summarize_pod summarize_deployment
    summarize_replica_set summarize_stateful_set summarize_daemon_set summarize_service
    summarize_endpoints summarize_config_map summarize_namespace summarize_node summarize_event
    summarize_job summarize_cron_job summarize_ingress summarize_pvc
readers-kube_kind canonical r h =
    lookup-All (λ k r'. (o : Object r'.resource) → (r'.summarize o).kind ≡ canonical_to_kube_kind k)
      canonical r readers rows h
  where
    rows :
        All
          (λ e.
            (o : Object (e.1).resource) → ((e.1).summarize o).kind ≡ canonical_to_kube_kind (e.0))
          readers
    rows = (
      λ _. refl,
      (
        λ _. refl,
        (
          λ _. refl,
          (
            λ _. refl,
            (
              λ _. refl,
              (
                λ _. refl,
                (
                  λ _. refl,
                  (
                    λ _. refl,
                    (
                      λ _. refl,
                      (
                        λ _. refl,
                        (λ _. refl, (λ _. refl, (λ _. refl, (λ _. refl, (λ _. refl, tt))))),
                      ),
                    ),
                  ),
                ),
              ),
            ),
          ),
        ),
      ),
    )
