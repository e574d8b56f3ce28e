-- ===== src/User/Calm/Runs.antt =====
-- When a run of the V2rayUser controller does not panic.
use v2ray_operator.Prelude.{
  ℕ, String, List, [], ◌∷◌, ◌++◌, false, some, none, Option, ◌≡◌, refl, arith, length, Bool-cases,
  inl, inr,
}
use v2ray_operator.Prelude.Int.{pos, ltb_ℤ, eqb_ℤ}
use v2ray_operator.Prelude.Maps.{Dict}
use v2ray_operator.Api.Meta.{ObjectKey}
use v2ray_operator.Api.Core.{Service}
use v2ray_operator.Api.User.{V2rayNodeList, V2rayUser}
use v2ray_operator.V2fly.Grpc.Calm.{Reachable}
use v2ray_operator.Cluster.Effect.{Error, Reply, ok, err}
use v2ray_operator.Cluster.Requests.{History}
use v2ray_operator.Cluster.Env.{Env}
use v2ray_operator.Cluster.Client
use v2ray_operator.Cluster.Client.{record_event}
use v2ray_operator.Cluster.Trace.{panics}
use v2ray_operator.Cluster.Yields.{Yields, Yields-request, Yields-any, Yields-bind}
use v2ray_operator.Cluster.Calm.{Calm, Calm-bind, Calm-bind-Yields, calm_rules}
use v2ray_operator.User.Elect.{
  min, slice_to, with_default_size, select, elect_region, elect_each, elect_services_from_affinity,
}
use v2ray_operator.User.Add.{Added}
use v2ray_operator.User.Calm.{HasSelectors, add_user-Calm, finalizer-Calm}
use v2ray_operator.User.Reconcile.{
  init_status, ensure_id, report_no_node, report_add_failed, release, finalize, report_available,
  settle_user, add_finalizer_then_settle, after_add, serve_user, reconcile_found, fetched,
  reconcile,
}

-- No region asks for a negative number of services.
abbrev pub Sized : Dict V2rayNodeList → Type 0
Sized [] = Unit
Sized ((_, nl) ∷ nodes) = ((n : ℕ) × (nl.size ≡ pos n)) × Sized nodes

-- Users are read with such sizes only.
abbrev pub ReadsSized : Env → Type 0
ReadsSized E =
    (h : History) (k : ObjectKey) (u : V2rayUser) → E.get_user h k ≡ ok u → Sized u.spec.node_list

min_pos : (a b : ℕ) → (k : ℕ) × (min (pos a) (pos b) ≡ pos k)
unfolding min
min_pos a b = elim (Bool-cases (ltb_ℤ (pos b) (pos a))) [
  | inl less ↦ (b, ground (arith, less))
  | inr other ↦ (a, ground (arith, other))
]

default_pos :
    (nl : V2rayNodeList) (n : ℕ) → nl.size ≡ pos n → (k : ℕ) × ((with_default_size nl).size ≡ pos k)
unfolding with_default_size
default_pos nl n sized = elim (Bool-cases (eqb_ℤ nl.size (pos 0))) [
  | inl unset ↦ (1, rw unset refl)
  | inr asked ↦ (n, rw asked sized)
]

slice_to-Calm : (k : ℕ) (items : List Service) → Calm (slice_to (pos k) items)
unfolding slice_to
slice_to-Calm k items = search calm_rules

select-Calm : (k : ℕ) (found : Reply (List Service)) → Calm (select (pos k) found)
unfolding select
select-Calm k (err e) = search calm_rules
select-Calm k (ok []) = search calm_rules
select-Calm k (ok (item ∷ items)) =
    let (m, least) = min_pos (length (item ∷ items)) k in rw least (slice_to-Calm m (item ∷ items))

module _ (E : Env) where
  elect_region-Calm :
      (region : String) (nl : V2rayNodeList) (n : ℕ)
      → nl.size ≡ pos n
      → Calm (elect_region E region nl)
  unfolding elect_region
  elect_region-Calm region nl n sized =
      let (k, size) = default_pos nl n sized in rw size (search (calm_rules, select-Calm) depth 8)

  elect_each-Calm :
      (nodes : Dict V2rayNodeList) (elected : List Service)
      → Sized nodes
      → Calm (elect_each E nodes elected)
  unfolding elect_each
  elect_each-Calm [] elected sized = search calm_rules
  elect_each-Calm ((region, nl) ∷ nodes) elected ((n, here), rest) =
      Calm-bind _ _ (elect_region-Calm region nl n here)
        (λ svcs. elect_each-Calm nodes (elected ++ svcs) rest)

  init_status-Calm : (key : ObjectKey) (cr : V2rayUser) → Calm (init_status E key cr)
  unfolding init_status
  init_status-Calm key cr = search calm_rules depth 12

  ensure_id-Calm : (key : ObjectKey) (cr : V2rayUser) → Calm (ensure_id E key cr)
  unfolding ensure_id
  ensure_id-Calm key cr = search calm_rules depth 16

  read-Yields :
      ReadsSized E
      → (key : ObjectKey)
      → Yields (λ (u : V2rayUser). Sized u.spec.node_list) (Client.get_user E key)
  read-Yields sized key = Yields-request _ _ (λ h u answer. sized h key u answer)

  ensure_id-Yields :
      ReadsSized E
      → (key : ObjectKey) (cr : V2rayUser)
      → Yields (λ (u : V2rayUser). Sized u.spec.node_list) (ensure_id E key cr)
  unfolding ensure_id
  ensure_id-Yields sized key cr =
      Yields-bind _ _ (Yields-any _)
        λ id _. Yields-bind _ _ (Yields-any _) λ _ _. read-Yields sized key

  module _ (reachable : Reachable E) (selects : HasSelectors E) where
    finalize-Calm : (key : ObjectKey) (cr : V2rayUser) → Calm (finalize E key cr)
    unfolding finalize release
    finalize-Calm key cr = search (calm_rules, finalizer-Calm E reachable selects) depth 20

    settle-Calm : (key : ObjectKey) (cr : V2rayUser) → Calm (settle_user E key cr)
    unfolding settle_user report_available
    settle-Calm key cr = search (calm_rules, finalize-Calm) depth 16

    add_finalizer-Calm :
        (key : ObjectKey) (cr : V2rayUser) → Calm (add_finalizer_then_settle E key cr)
    unfolding add_finalizer_then_settle
    add_finalizer-Calm key cr = search (calm_rules, settle-Calm) depth 16

    after_error-Calm :
        (key : ObjectKey) (error : Option Error) (user : V2rayUser)
        → Calm (after_add E key (record { error = error; user = user }))
    unfolding after_add report_add_failed
    after_error-Calm key none user = search (calm_rules, add_finalizer-Calm) depth 16
    after_error-Calm key (some e) user = search calm_rules depth 16

    after_add-Calm : (key : ObjectKey) (added : Added) → Calm (after_add E key added)
    after_add-Calm key added = after_error-Calm key added.error added.user

    serve_user-Calm :
        (key : ObjectKey) (cr : V2rayUser) → Sized cr.spec.node_list → Calm (serve_user E key cr)
    unfolding serve_user elect_services_from_affinity report_no_node
    serve_user-Calm key cr sized =
        Calm-bind _ _ (elect_each-Calm cr.spec.node_list [] sized)
          (λ svcs. search (calm_rules, add_user-Calm E reachable selects, after_add-Calm) depth 16)

    found-Calm : ReadsSized E → (key : ObjectKey) (cr : V2rayUser) → Calm (reconcile_found E key cr)
    unfolding reconcile_found
    found-Calm sized key cr = Calm-bind _ _ (init_status-Calm key cr) (λ cr.
        Calm-bind-Yields _ _ (ensure_id-Calm key cr) (ensure_id-Yields sized key cr)
          (λ cr known. serve_user-Calm key cr known))

    fetched-Calm :
        ReadsSized E → (key : ObjectKey) (found : Reply V2rayUser) → Calm (fetched E key found)
    unfolding fetched
    fetched-Calm sized key (ok cr) = found-Calm sized key cr
    fetched-Calm sized key (err e) = search calm_rules

-- A run of the V2rayUser controller does not panic if every server can be dialled, deployments are
-- listed with a selector, and users are read with no region that asks for a negative number of
-- services. As the schema of the resource demands, no entry of a node list is nil.
pub panics-reconcile_user :
    (E : Env)
    → Reachable E
    → HasSelectors E
    → ReadsSized E
    → (key : ObjectKey) (h : History) → panics (reconcile E key h).0 ≡ false
unfolding reconcile
panics-reconcile_user E reachable selects sized key h =
    let calm : Calm (reconcile E key) =
      search (calm_rules, fetched-Calm E reachable selects sized) depth 12 in
    calm.at h
