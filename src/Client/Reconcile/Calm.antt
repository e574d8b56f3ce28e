-- ===== src/Client/Reconcile/Calm.antt =====
-- When a run of the V2rayClient controller does not panic.
use v2ray_operator.Prelude.{List, [], ◌∷◌, false, some, none, Option, ◌≡◌, ◌∙◌, ap}
use v2ray_operator.Api.Meta.{ObjectKey}
use v2ray_operator.Api.Core.{Service}
use v2ray_operator.Api.Client.{V2rayNodeAffinity, V2rayClient}
use v2ray_operator.V2fly.Config.{V2rayConfig}
use v2ray_operator.V2fly.Structs.{V2rayInstanceConfig}
use v2ray_operator.V2fly.Grpc.Calm.{
  Reachable, new_v2ray_grpc_api-Calm, add_inbound-Calm, add_outbound-Calm,
}
use v2ray_operator.Cluster.Effect.{Outcome, Reply, ok, err}
use v2ray_operator.Cluster.Requests.{History}
use v2ray_operator.Cluster.Env.{Env, V4Config}
use v2ray_operator.Cluster.Trace.{panics}
use v2ray_operator.Cluster.Yields.{
  IfOk, Yields, Yields-pure, Yields-if, Yields-request, Yields-attempt,
}
use v2ray_operator.Cluster.Calm.{Calm, Calm-attempt, Calm-bind, Calm-bind-Yields, calm_rules}
use v2ray_operator.Client.Elect.{elect_services_from_affinity, svc_list_to_v2fly_config}
use v2ray_operator.Client.Reconcile.Apply.{to_each, apply_each-svc_list_to_v2fly_config}
use v2ray_operator.Client.Reconcile.{
  apply_inbounds, apply_each, deploy, elected_or_nil, init_status, first_status, ensure_finalizer,
  finalize, report_available, settle_client, refetched, with_v4, fetched, reconcile,
}

-- Neither the configuration nor the affinity is nil.
abbrev pub Complete : V2rayClient → Type 0
Complete c =
    ((cfg : V2rayInstanceConfig) × (c.spec.v2ray ≡ some cfg))
    × ((a : V2rayNodeAffinity) × (c.spec.affinity ≡ some a))

-- Clients are read, and come back from an update of the status, complete.
abbrev pub KeepsComplete : Env → Type 0
KeepsComplete E =
    ((h : History) (k : ObjectKey) (c : V2rayClient) → E.get_client h k ≡ ok c → Complete c)
    × ((h : History) (c c' : V2rayClient) → E.update_client_status h c ≡ ok c' → Complete c')

module _ (E : Env) where
  module _ (reachable : Reachable E) where
    apply_inbounds-Calm :
        (target : V2rayConfig) (cfg : V2rayInstanceConfig) → Calm (apply_inbounds E target cfg)
    unfolding apply_inbounds
    apply_inbounds-Calm target cfg =
        search
          (calm_rules, new_v2ray_grpc_api-Calm E reachable, add_inbound-Calm, add_outbound-Calm)
          depth 12

    to_each-Calm : (cfg : V2rayInstanceConfig) (cs : List V2rayConfig) → Calm (to_each E cfg cs)
    to_each-Calm cfg [] = search calm_rules
    to_each-Calm cfg (c ∷ cs) = Calm-bind _ _ (apply_inbounds-Calm c cfg) (λ _. to_each-Calm cfg cs)

    apply_each-Calm :
        (o : Option V2rayInstanceConfig) (cfg : V2rayInstanceConfig) (svcs : List Service)
        → o ≡ some cfg
        → Calm (apply_each E o svcs (svc_list_to_v2fly_config svcs))
    apply_each-Calm o cfg svcs present = record {
      at = λ h. rw present (
          ap (λ (r : Outcome (Unit {0}) × History). panics r.0)
            (apply_each-svc_list_to_v2fly_config E cfg svcs h)
          ∙ (to_each-Calm cfg (svc_list_to_v2fly_config svcs)).at h);
    }

    elect-Calm :
        (o : Option V2rayNodeAffinity) (a : V2rayNodeAffinity)
        → o ≡ some a
        → Calm (elect_services_from_affinity E o)
    unfolding elect_services_from_affinity
    elect-Calm o a present = rw present (search calm_rules)

    deploy-Calm : (cr : V2rayClient) → Complete cr → Calm (deploy E cr)
    unfolding deploy
    deploy-Calm cr ((cfg, configured), (a, affine)) = Calm-bind _ _ (search calm_rules) (λ _.
        Calm-bind _ _ (Calm-attempt _ (elect-Calm cr.spec.affinity a affine))
          (λ r. apply_each-Calm cr.spec.v2ray cfg (elected_or_nil E r) configured))

  ensure_finalizer-Calm : (cr : V2rayClient) → Calm (ensure_finalizer E cr)
  unfolding ensure_finalizer
  ensure_finalizer-Calm cr = search calm_rules depth 12

  finalize-Calm : (key : ObjectKey) (cr : V2rayClient) → Calm (finalize E key cr)
  unfolding finalize
  finalize-Calm key cr = search calm_rules depth 20

  settle-Calm : (key : ObjectKey) (kept : Option V2rayClient) → Calm (settle_client E key kept)
  unfolding settle_client report_available
  settle-Calm key none = search calm_rules
  settle-Calm key (some cr) = search (calm_rules, finalize-Calm) depth 16

  refetched-Calm : (key : ObjectKey) (again : Reply V2rayClient) → Calm (refetched E key again)
  unfolding refetched init_status
  refetched-Calm key (err e) = search calm_rules
  refetched-Calm key (ok cr) = search (calm_rules, ensure_finalizer-Calm, settle-Calm) depth 16

  first_status-Yields :
      KeepsComplete E
      → (cr : V2rayClient) → Complete cr
      → Yields (λ (c : V2rayClient). Complete c) (first_status E cr)
  unfolding first_status
  first_status-Yields (reads, writes) cr complete =
      Yields-if _ _ _ (Yields-request _ _ (λ h c answer. writes h _ c answer))
        (Yields-pure cr complete)

  module _ (reachable : Reachable E) (complete : KeepsComplete E) where
    with_v4-Calm :
        (key : ObjectKey) (cr : V2rayClient) (v4 : Reply V4Config)
        → Complete cr
        → Calm (with_v4 E key cr v4)
    unfolding with_v4
    with_v4-Calm key cr (err e) known = search calm_rules
    with_v4-Calm key cr (ok v4) known =
        Calm-bind _ _ (deploy-Calm reachable cr known)
          (λ _. search (calm_rules, refetched-Calm) depth 12)

    first_status-Calm : (cr : V2rayClient) → Calm (first_status E cr)
    unfolding first_status
    first_status-Calm cr = search calm_rules

    fetched-Calm :
        (key : ObjectKey) (found : Reply V2rayClient)
        → IfOk Complete found
        → Calm (fetched E key found)
    unfolding fetched
    fetched-Calm key (err e) known = search calm_rules
    fetched-Calm key (ok cr) known =
        Calm-bind-Yields _ _ (first_status-Calm cr) (first_status-Yields complete cr known)
          (λ cr known. with_v4-Calm key cr _ known)

-- A run of the V2rayClient controller does not panic if every server can be dialled and clients come
-- back from reads and from updates of their status with a configuration and an affinity, whatever
-- else is answered.
pub panics-reconcile_client :
    (E : Env)
    → Reachable E
    → KeepsComplete E
    → (key : ObjectKey) (h : History) → panics (reconcile E key h).0 ≡ false
unfolding reconcile
panics-reconcile_client E reachable complete key h =
    let calm : Calm (reconcile E key) =
      Calm-bind-Yields _ _ (search calm_rules)
        (Yields-attempt _ _ (λ h c answer. complete.0 h key c answer))
        (λ found known. fetched-Calm E reachable complete key found known) in
    calm.at h
