-- ===== src/User/Reconcile/Resync.antt =====
-- What a second run elects from the node list that a first run has stored.
use v2ray_operator.Prelude.{
  String, List, [], ◌∷◌, ◌++◌, take, ◌≡◌, refl, sym, ◌∙◌, none, some, arith,
}
use mathlib.Core.Path.{subst}
use mathlib.Core.List.{append-nil, append_assoc}
use v2ray_operator.Prelude.Int.{pos}
use v2ray_operator.Api.Core.{Service}
use v2ray_operator.Api.User.{V2rayNodeList, V2rayUser}
use v2ray_operator.Cluster.Effect.{Reply, ok, err, done, pure, fail, ◌>>=◌}
use v2ray_operator.Cluster.Requests.{Account, Call, History}
use v2ray_operator.Cluster.Env.{Env}
use v2ray_operator.Cluster.Trace.{attempt-request}
use v2ray_operator.Cluster.Yields.{
  IfDone, Yields, Yields-pure, Yields-bind, Yields-weaken, Yields-done,
}
use v2ray_operator.User.Server.{account_of, v2ray_namespace}
use v2ray_operator.User.Add.{NodeMap, Added, with_nodes, add_user_to_v2ray_svc_list}
use v2ray_operator.User.Add.Regions.{Sizeless}
use v2ray_operator.User.Add.Nodes.{StoresNodes, add_user-StoresNodes}
use v2ray_operator.User.Elect.{
  select, region_labels, elect_region, elect_each, elect_services_from_affinity,
}
use v2ray_operator.User.Elect.Laws.{size-with_default_size, select-ok_size}

-- The service comes first in a listing of the services of the region.
abbrev ListedFirst : Env → String → Service → Type 0
ListedFirst E region svc =
    (h : History) × (others : List Service) × (E.list_services h v2ray_namespace
        (region_labels region)
      ≡ ok (svc ∷ others))

-- No service, or one of the region.
abbrev pub AtMostOne : Env → String → List Service → Type 0
AtMostOne E region [] = Unit
AtMostOne E region (svc ∷ []) = ListedFirst E region svc
AtMostOne E region (_ ∷ _ ∷ _) = ⊥

-- The services are, region by region in the order of the node list, none or one of that region.
abbrev pub OnePerRegion : Env → NodeMap → List Service → Type 0
OnePerRegion E [] svcs = svcs ≡ []
OnePerRegion E ((region, nl) ∷ nodes) svcs =
    (here : List Service) × (rest : List Service) × (svcs ≡ here ++ rest)
    × AtMostOne E region here
    × OnePerRegion E nodes rest

module _ (E : Env) where
  first-AtMostOne :
      (region : String) (svcs : List Service) (h : History)
      → E.list_services h v2ray_namespace (region_labels region) ≡ ok svcs
      → AtMostOne E region (take 1 svcs)
  first-AtMostOne region [] h listed = tt
  first-AtMostOne region (svc ∷ svcs) h listed = (h, svcs, listed)

  IfDone-select :
      (region : String) (h h' : History) (found : Reply (List Service))
      → E.list_services h v2ray_namespace (region_labels region) ≡ found
      → IfDone (AtMostOne E region) (select (pos 1) found h').0
  unfolding select pure fail
  IfDone-select region h h' (ok svcs) listed =
      rw (select-ok_size (pos 0) svcs h' refl) (first-AtMostOne region svcs h listed)
  IfDone-select region h h' (err e) listed = ground arith

  elect_region-Yields :
      (region : String) (nl : V2rayNodeList)
      → nl.size ≡ pos 0
      → Yields (AtMostOne E region) (elect_region E region nl)
  unfolding elect_region ◌>>=◌
  elect_region-Yields region nl unset = record {
    at = λ h.
        rw (attempt-request, size-with_default_size nl, unset) (IfDone-select region h _ _ refl);
  }

  -- The services that the loop adds to those elected before.
  abbrev Adding : NodeMap → List Service → List Service → Type 0
  Adding nodes before svcs =
      (new : List Service) × (svcs ≡ before ++ new) × OnePerRegion E nodes new

  elect_each-Yields :
      (nodes : NodeMap) (before : List Service)
      → Sizeless nodes
      → Yields (Adding nodes before) (elect_each E nodes before)
  unfolding elect_each
  elect_each-Yields [] before h = Yields-pure before ([], sym (append-nil before), refl)
  elect_each-Yields ((region, nl) ∷ nodes) before (unset, h) =
      Yields-bind _ _ (elect_region-Yields region nl unset) λ here one.
        Yields-weaken
          (λ svcs (new, same, rest).
            (here ++ new, same ∙ append_assoc before here new, (here, new, refl, one, rest)))
          (elect_each-Yields nodes (before ++ here) h)

stored-Sizeless :
    {E : Env} {cr : V2rayUser} {svcs : List Service} {user u : V2rayUser} {h earlier : History}
    → StoresNodes E cr svcs user h
    → h ≡ Call.update_user u ∷ earlier
    → Sizeless u.spec.node_list
stored-Sizeless {E} {cr} {u} s last =
    let same : with_nodes E cr s.nodes ≡ u = cc s.last_call in
    subst (λ (v : V2rayUser). Sizeless v.spec.node_list) same s.sizeless

-- Where the inbound tag is known and a run has added the user without an error, its last call writes
-- an object from whose node list any later election yields, for each region in the order of the list,
-- no service or the first one listed for it, however many the resource had asked for at first.
pub resync-OnePerRegion :
    (E : Env) (cr : V2rayUser) (svcs : List Service) (h : History) {account : Account}
    {added : Added} {h' earlier : History} {u : V2rayUser}
    → account_of cr.spec.inbound_tag cr.spec.user ≡ some account
    → add_user_to_v2ray_svc_list E cr svcs h ≡ (done added, h')
    → added.error ≡ none
    → h' ≡ Call.update_user u ∷ earlier
    → (later : History) (svcs' : List Service) (end : History)
    → elect_services_from_affinity E u.spec.node_list later ≡ (done svcs', end)
    → OnePerRegion E u.spec.node_list svcs'
unfolding elect_services_from_affinity
resync-OnePerRegion E cr svcs h {u} known ran fine last later svcs' end again =
    let sizeless = stored-Sizeless (add_user-StoresNodes E cr svcs h known ran fine) last in
    let (new, same, ones) =
      Yields-done _ _ later (elect_each-Yields E u.spec.node_list [] sizeless) again in
    rw same ones
