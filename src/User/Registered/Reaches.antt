-- ===== src/User/Registered/Reaches.antt =====
-- The finalizer reaches every server that a registration has reached.
use v2ray_operator.Prelude.{
  String, Bool, true, false, ◌||◌, none, some, List, [], ◌∷◌, ◌++◌, map, ◌==◌, eq_iff, eq_refl, ◌≡◌,
  refl, ap, ◌∙◌, if◌then◌else◌, arith, Bool-cases, inl, inr,
}
use mathlib.Core.List.{map-append}
use mathlib.Core.Path.{subst}
use v2ray_operator.Prelude.Maps.{lookup}
use v2ray_operator.Api.Core.{Service}
use v2ray_operator.Api.User.{V2rayNodeInfo, V2rayUserInfo, V2rayUser}
use v2ray_operator.Cluster.Effect.{ok, done}
use v2ray_operator.Cluster.Requests.{Account, remove_user, History}
use v2ray_operator.Cluster.Env.{Env}
use v2ray_operator.User.Server.{account_of, svc_addr}
use v2ray_operator.User.Add.{NodeMap, Added, region_of, with_nodes, add_user_to_v2ray_svc_list}
use v2ray_operator.User.Add.Regions.{svc_name_of, names_at, name_of, names_in}
use v2ray_operator.User.Add.Nodes.{StoresNodes, add_user-StoresNodes}
use v2ray_operator.User.Finalize.{infos_of, do_finalizer_operations_for_v2ray_user}
use v2ray_operator.User.Finalize.Atomic.{StableServices, svc_of}
use v2ray_operator.User.Registered.{registered, Honest}
use v2ray_operator.User.Registered.Loop.{one_concerns}
use v2ray_operator.User.Registered.Ends.{finalizer-unregistered}

abbrev has : String → List String → Bool
has n [] = false
has n (m ∷ ms) = let rest = has n ms in (m == n) || rest

has-append : (n : String) (xs ys : List String) → has n (xs ++ ys) ≡ (has n xs || has n ys)
has-append n [] ys = refl
has-append n (x ∷ xs) ys = ground (arith, has-append n xs ys)

-- An elected service is named under its region.
has-names_in :
    (before : List Service) (svc : Service) (after : List Service)
    → has (name_of svc) (names_in (region_of svc) (before ++ svc ∷ after)) ≡ true
has-names_in [] svc after = ground (arith, eq_refl (region_of svc), eq_refl (name_of svc))
has-names_in (other ∷ before) svc after = ground (arith, has-names_in before svc after)

-- What a region names, the whole list names.
has-infos_of :
    (n r : String) (nodes : NodeMap)
    → has n (names_at r nodes) ≡ true
    → has n (map svc_name_of (infos_of nodes)) ≡ true
unfolding infos_of lookup
has-infos_of n r [] h = ground arith
has-infos_of n r ((k, nl) ∷ nodes) h =
    rw (map-append, has-append)
      (elim (Bool-cases (k == r)) [
        | inl same ↦ ground (arith, rw same at h)
        | inr other ↦ ground (arith, has-infos_of n r nodes (rw other at h))
      ])

-- The server of a named service is reached.
one_concerns-has :
    (E : Env) (start : Bool) (find : String → Service) (n tag email : String) (svc : Service)
    (infos : List V2rayNodeInfo)
    → find n ≡ svc
    → has n (map svc_name_of infos) ≡ true
    → one_concerns E start
        (svc_addr E svc)
        tag
        email
        tag
        (remove_user email)
        (map (svc_of E find) infos)
      ≡ true
one_concerns-has E start find n tag email svc [] known h = ground arith
one_concerns-has E start find n tag email svc (info ∷ infos) known h =
    elim (Bool-cases (info.svc_name == n)) [
      | inl same ↦ ground (
        arith,
        (eq_iff (svc_addr E (find info.svc_name)) (svc_addr E svc)).1 (
            ap (λ m. svc_addr E (find m)) ((eq_iff info.svc_name n).0 same)
            ∙ ap (svc_addr E) known),
        eq_refl tag,
        eq_refl email,
      )
      | inr other ↦
          ground (arith, one_concerns-has E start find n tag email svc infos known (rw other at h))
    ]

module _ (E : Env) (start : Bool) (find : String → Service) where
  unreached :
      (tag email : String) (svc : Service) (nodes : NodeMap) (before : Bool)
      → find (name_of svc) ≡ svc
      → has (name_of svc) (names_at (region_of svc) nodes) ≡ true
      → (if one_concerns E start
            (svc_addr E svc)
            tag
            email
            tag
            (remove_user email)
            (map (svc_of E find) (infos_of nodes))
          then false
          else before)
        ≡ false
  unreached tag email svc nodes before known named =
      let reached : one_concerns E start (svc_addr E svc) tag email tag (remove_user email)
            (map (svc_of E find) (infos_of nodes))
          ≡ true =
        one_concerns-has E start find (name_of svc) tag email svc (infos_of nodes) known
          (has-infos_of (name_of svc) (region_of svc) nodes named) in
      ground (arith, reached)

  -- What finalizer operations on an object leave, for its inbound tag, its user and the services that
  -- it names for the region.
  abbrev Undone : Service → Account → History → String → V2rayUserInfo → List String → Type 0
  Undone svc account h tag user named =
      Honest E start (svc_addr E svc) tag user.email
      → account_of tag user ≡ some account
      → has (name_of svc) named ≡ true
      → registered E start (svc_addr E svc) tag user.email h ≡ false

  finalizer-Undone :
      (svc : Service) (account : Account) (cr : V2rayUser) (h : History) {h' : History}
      → StableServices E find
      → find (name_of svc) ≡ svc
      → do_finalizer_operations_for_v2ray_user E cr h ≡ (done tt, h')
      → Undone svc account h' cr.spec.inbound_tag cr.spec.user
          (names_at (region_of svc) cr.spec.node_list)
  finalizer-Undone svc account cr h stable known ran honest tag_known named =
      finalizer-unregistered E start (svc_addr E svc) cr.spec.inbound_tag cr.spec.user.email honest
        find stable cr h tag_known ran
      ∙ unreached _ _ svc cr.spec.node_list _ known named

-- The object names the inbound, the user and for every region the services of the other one.
pub record Alike (u u' : V2rayUser) : Type 0 where
  pub inbound : u'.spec.inbound_tag ≡ u.spec.inbound_tag
  pub user : u'.spec.user ≡ u.spec.user
  pub services : (r : String) → names_at r u'.spec.node_list ≡ names_at r u.spec.node_list

-- An update of an object with a known inbound tag gives back such an object. Fields that are sent
-- empty, such as the domain of a node, may come back with the default of the schema.
abbrev pub KeepsUsers : Env → Type 0
KeepsUsers E =
    (h : History) (u u' : V2rayUser) (account : Account)
    → account_of u.spec.inbound_tag u.spec.user ≡ some account
    → E.update_user h u ≡ ok u'
    → Alike u u'

-- A registration that reports no error, with a known inbound tag, on a cluster that gives back the
-- object that it was asked to write with the inbound tag, the user and the names of the services as they
-- were sent: whatever is called and answered afterwards, finalizer operations for the object that it
-- gave back that return without an error leave the user unregistered for the inbound at the server of
-- every elected service, if services keep their names and servers say of a user that exists only if
-- it does.
pub finalizer-undoes_registration :
    (E : Env) (start : Bool) (find : String → Service) (cr : V2rayUser) (before : List Service)
    (svc : Service) (after : List Service) (h : History) {account : Account} {added : Added}
    {h' : History} (later : History) {h'' : History}
    → Honest E start (svc_addr E svc) cr.spec.inbound_tag cr.spec.user.email
    → StableServices E find
    → find svc.metadata.name ≡ svc
    → KeepsUsers E
    → account_of cr.spec.inbound_tag cr.spec.user ≡ some account
    → add_user_to_v2ray_svc_list E cr (before ++ svc ∷ after) h ≡ (done added, h')
    → added.error ≡ none
    → do_finalizer_operations_for_v2ray_user E added.user later ≡ (done tt, h'')
    → registered E start (svc_addr E svc) cr.spec.inbound_tag cr.spec.user.email h'' ≡ false
finalizer-undoes_registration E start find cr before svc after h {account} {added} {h'} later {h''}
      honest stable known keeps tag_known ran fine finalized =
    let s : StoresNodes E cr (before ++ svc ∷ after) added.user h' =
      add_user-StoresNodes E cr (before ++ svc ∷ after) h tag_known ran fine in
    let same : Alike (with_nodes E cr s.nodes) added.user =
      keeps s.earlier (with_nodes E cr s.nodes) added.user account tag_known s.answer in
    let Left : String → V2rayUserInfo → List String → Type 0 =
      Undone E start find svc account h'' in
    subst (λ t. Left t cr.spec.user (names_at (region_of svc) s.nodes)) same.inbound
      (subst (λ u. Left added.user.spec.inbound_tag u (names_at (region_of svc) s.nodes)) same.user
        (subst (Left added.user.spec.inbound_tag added.user.spec.user)
          (same.services (region_of svc))
          (finalizer-Undone E start find svc account added.user later stable known finalized)))
      honest tag_known
      (ap (has (name_of svc)) (s.names (region_of svc)) ∙ has-names_in before svc after)
