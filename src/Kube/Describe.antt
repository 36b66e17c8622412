-- ===== src/Kube/Describe.antt =====
-- runK8sDescribe of agent/mcp-server/k8s.go beside runK8sGet.
use take.Prelude.{◌≡◌, ◌⊎◌, Option, some, List, [], ◌∷◌, ◌++◌, Text, codes}
use take.Json.{Fields}
use take.Kube.Kinds.{canonical_kind, canonical_to_kube_kind}
use take.Kube.Objects.{Event}
use take.Kube.Summary.{Summary}
use take.Kube.Fetch.{
  kind_required, kind_and_name_required, Reply, reply, failure, Client, related_events,
}
use take.Kube.Tools.{arg, error_text}

-- One line for each event.
abbrev pub IsLines : List Event → Text → Type 0
IsLines [] t = t ≡ []
IsLines (e ∷ es) t =
    (rest : Text) × IsLines es rest
    × (t
        ≡ codes "  "
          ++ e.event_type
          ++ codes "\t"
          ++ e.reason
          ++ codes "\t"
          ++ e.message
          ++ codes "\n"
          ++ rest)

-- What stands behind "Events:" for the events that were found.
abbrev pub Shows : (Text → Text) → Reply (List Event) → Text → Type 0
Shows quote (failure e) more =
    more ≡ codes "    <error fetching events: " ++ error_text quote e ++ codes ">\n"
Shows quote (reply []) more = more ≡ codes "\n  <none>\n"
Shows quote (reply (e ∷ es)) more =
    (lines : Text) × IsLines (e ∷ es) lines × (more ≡ codes "\n" ++ lines)

module _ (quote : Text → Text) (client : Option Client) (args : Fields) where
  -- The text of k8s_describe over that of k8s_get: the section of the events follows.
  pub record Extends (t u : Text) : Type 0 where
    pub used : Client
    pub canonical : Text
    pub same_client : client ≡ some used
    pub same_kind : canonical_kind (arg (codes "kind") args) ≡ some canonical
    pub more : Text
    pub whole : u ≡ t ++ (codes "\nEvents:" ++ more)
    pub shown :
        Shows quote
          (related_events used
            (arg (codes "namespace") args)
            (canonical_to_kube_kind canonical)
            (arg (codes "name") args)).1
          more

  -- The outcomes of k8s_get and k8s_describe.
  abbrev pub Agrees : Reply Text → Reply Text → Type 0
  Agrees (reply t) (reply u) = Extends t u
  Agrees (reply t) (failure e) = ⊥
  Agrees (failure e) (reply u) = ⊥
  Agrees (failure e) (failure e') = (e ≡ e') ⊎ ((e ≡ kind_required) × (e' ≡ kind_and_name_required))
