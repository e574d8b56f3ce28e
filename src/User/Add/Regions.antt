-- ===== src/User/Add/Regions.antt =====
-- How an entry changes the node list, seen region by region.
use v2ray_operator.Prelude.{
  String, List, [], ◌∷◌, ◌++◌, map, keep, ◌==◌, eq_iff, ◌≡◌, refl, none, some, arith, if◌then◌else◌,
  Option, Bool-cases, inl, inr,
}
use mathlib.Core.List.{append-nil, map-append}
use v2ray_operator.Prelude.Int.{pos}
use v2ray_operator.Prelude.Maps.{lookup, insert, lookup-insert}
use v2ray_operator.Api.Core.{Service}
use v2ray_operator.Api.User.{V2rayNodeInfo, V2rayNodeList}
use v2ray_operator.User.Add.{NodeMap, region_of, extended, list_or_new, note_node}

-- The services that the entries of a region name, in order.
abbrev pub infos_at : Option V2rayNodeList → List V2rayNodeInfo
infos_at none = []
infos_at (some nl) = nl.info

abbrev pub svc_name_of : V2rayNodeInfo → String
svc_name_of info = info.svc_name

abbrev pub names_at : String → NodeMap → List String
names_at region nodes = map svc_name_of (infos_at (lookup region nodes))

abbrev pub name_of : Service → String
name_of svc = svc.metadata.name

abbrev pub names_in : String → List Service → List String
names_in region svcs = map name_of (keep (λ svc. region_of svc == region) svcs)

-- No entry asks for a number of services.
abbrev pub Sizeless : NodeMap → Type 0
Sizeless [] = Unit
Sizeless ((_, nl) ∷ nodes) = (nl.size ≡ pos 0) × Sizeless nodes

lookup-note_node :
    (r region : String) (info : V2rayNodeInfo) (nodes : NodeMap)
    → lookup r (note_node region info nodes) ≡ (
        if region == r then some (extended info (list_or_new (lookup r nodes))) else lookup r nodes)
unfolding note_node
lookup-note_node r region info nodes = ground (
  arith,
  lookup-insert region r (extended info (list_or_new (lookup region nodes))) nodes,
  eq_iff region r,
)

names_at_extended :
    (info : V2rayNodeInfo) (o : Option V2rayNodeList)
    → map svc_name_of (infos_at (some (extended info (list_or_new o))))
      ≡ map svc_name_of (infos_at o) ++ info.svc_name ∷ []
names_at_extended info none = refl
names_at_extended info (some nl) = map-append svc_name_of nl.info (info ∷ [])

pub names_at-note_node :
    (r region : String) (info : V2rayNodeInfo) (nodes : NodeMap)
    → names_at r (note_node region info nodes)
      ≡ names_at r nodes ++ (if region == r then info.svc_name ∷ [] else [])
names_at-note_node r region info nodes = rw lookup-note_node (elim (Bool-cases (region == r)) [
  | inl same ↦ rw same (names_at_extended info (lookup r nodes))
  | inr other ↦ rw (other, append-nil)
])

list_or_new-Sizeless :
    (r : String) (nodes : NodeMap) → Sizeless nodes → (list_or_new (lookup r nodes)).size ≡ pos 0
unfolding lookup
list_or_new-Sizeless r [] h = refl
list_or_new-Sizeless r ((region, nl) ∷ nodes) h = ground (arith, list_or_new-Sizeless r nodes h.1)

insert-Sizeless :
    (region : String) (nl : V2rayNodeList) (nodes : NodeMap)
    → nl.size ≡ pos 0
    → Sizeless nodes
    → Sizeless (insert region nl nodes)
unfolding insert
insert-Sizeless region nl [] zero h = (zero, tt)
insert-Sizeless region nl ((r, other) ∷ nodes) zero h =
    ground (arith, insert-Sizeless region nl nodes zero h.1)

pub note_node-Sizeless :
    (region : String) (info : V2rayNodeInfo) (nodes : NodeMap)
    → Sizeless nodes
    → Sizeless (note_node region info nodes)
unfolding note_node
note_node-Sizeless region info nodes h =
    insert-Sizeless region _ nodes (list_or_new-Sizeless region nodes h) h

pub names_in_cons :
    (r : String) (svc : Service) (svcs : List Service)
    → names_in r (svc ∷ svcs)
      ≡ (if region_of svc == r then name_of svc ∷ [] else []) ++ names_in r svcs
names_in_cons r svc svcs = ground arith
