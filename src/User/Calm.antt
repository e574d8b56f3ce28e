-- ===== src/User/Calm.antt =====
-- Registration and finalizer operations do not panic where servers can be dialled.
pub mod Runs
use v2ray_operator.Prelude.{
  String, List, [], ◌∷◌, ◌++◌, true, false, some, none, Option, ◌≡◌, refl, arith,
}
use v2ray_operator.Api.Core.{Service}
use v2ray_operator.Api.User.{V2rayNodeInfo, V2rayUser}
use v2ray_operator.Api.Deployment.{Deployment}
use v2ray_operator.Prelude.Maps.{Dict}
use v2ray_operator.V2fly.Grpc.Calm.{
  Reachable, Calm-labelled, new_v2ray_grpc_api-Calm, alter_inbound-Calm,
}
use v2ray_operator.Cluster.Effect.{Outcome, done, failed, panicked, M, Reply, ok, err, ◌>>=◌}
use v2ray_operator.Cluster.Requests.{Account, History, InboundOperation, ProtocolUser}
use v2ray_operator.Cluster.Env.{Env}
use v2ray_operator.Cluster.Client.{record_event}
use v2ray_operator.Cluster.Trace.{panics, attempt-request}
use v2ray_operator.Cluster.Calm.{
  Calm, Calm-bind, Calm-bind-Yields, Calm-attempt, Calm-request, Calm-pure, Calm-fail, calm_rules,
}
use v2ray_operator.Cluster.Yields.{Yields, Yields-request, Yields-pure}
use v2ray_operator.User.Server.{account_of, get_v2ray_grpc_client_from_svc}
use v2ray_operator.User.Rollback.{Served, serve_each, undo_at, rollback, deferred}
use v2ray_operator.User.Add.{
  NodeMap, Added, first_or, selected, find_node, add_to_svc, stored, store_nodes, finish,
  add_account, add_user_to_v2ray_svc_list,
}
use v2ray_operator.User.Finalize.{
  infos_of, remove_from_svc, announce, remove_account, do_finalizer_operations_for_v2ray_user,
}

first_or-Calm : {A : Type 0} (text : String) (xs : List A) → Calm (first_or text xs)
unfolding first_or
first_or-Calm text [] = search calm_rules
first_or-Calm text (x ∷ xs) = search calm_rules

-- Each of the deployments has a selector.
abbrev pub AllSelect : List Deployment → Type 0
AllSelect [] = Unit
AllSelect (d ∷ ds) = ((labels : Dict String) × (d.match_labels ≡ some labels)) × AllSelect ds

-- Deployments are listed with a selector, which the API server demands.
abbrev pub HasSelectors : Env → Type 0
HasSelectors E =
    (h : History) (ns : String) (ls : Dict String) (ds : List Deployment)
    → E.list_deployments h ns ls ≡ ok ds
    → AllSelect ds

first_or-Yields :
    (text : String) (ds : List Deployment)
    → AllSelect ds
    → Yields
        (λ (d : Deployment). (labels : Dict String) × (d.match_labels ≡ some labels))
        (first_or text ds)
unfolding first_or ◌>>=◌
first_or-Yields text [] have = record { at = λ h. tt }
first_or-Yields text (d ∷ ds) (here, rest) = Yields-pure d here

module _ (E : Env) (reachable : Reachable E) (selects : HasSelectors E) where
  get_client-Calm : (svc : Service) → Calm (get_v2ray_grpc_client_from_svc E svc)
  unfolding get_v2ray_grpc_client_from_svc
  get_client-Calm svc = search (calm_rules, new_v2ray_grpc_api-Calm E reachable)

  find_node-Calm : (svc : Service) → Calm (find_node E svc)
  unfolding find_node selected
  find_node-Calm svc =
      Calm-bind-Yields _ _ (Calm-request _ _)
        (Yields-request _ _
          (λ h ds answer. selects h svc.metadata.namespace svc.selector ds answer))
        (λ deps have.
          Calm-bind-Yields _ _ (first_or-Calm _ deps) (first_or-Yields _ deps have)
            (λ dep (labels, known). rw known (search (calm_rules, first_or-Calm) depth 16)))

  add_to_svc-Calm :
      (tag : String) (user : ProtocolUser) (svc : Service) (nodes : NodeMap)
      → Calm (add_to_svc E tag user svc nodes)
  unfolding add_to_svc
  add_to_svc-Calm tag user svc nodes =
      search (calm_rules, Calm-labelled, get_client-Calm, alter_inbound-Calm, find_node-Calm) depth
        16

  remove_from_svc-Calm :
      (tag email : String) (info : V2rayNodeInfo) (u : Unit {0})
      → Calm (remove_from_svc E tag email info u)
  unfolding remove_from_svc
  remove_from_svc-Calm tag email info u =
      search (calm_rules, get_client-Calm, alter_inbound-Calm) depth 16

  undo_at-Calm :
      (tag : String) (op : InboundOperation) (svc : Service) → Calm (undo_at E tag op svc)
  unfolding undo_at
  undo_at-Calm tag op svc = search (calm_rules, get_client-Calm, alter_inbound-Calm)

  rollback-Calm :
      (tag : String) (op : InboundOperation) (svcs : List Service) → Calm (rollback E tag op svcs)
  unfolding rollback
  rollback-Calm tag op [] = search calm_rules
  rollback-Calm tag op (svc ∷ svcs) =
      Calm-bind _ _ (Calm-attempt _ (undo_at-Calm tag op svc)) (λ _. rollback-Calm tag op svcs)

  module _ {X S : Type 0} (step : X → S → M (Service × S)) where
    panics-serve_each :
        ((x : X) (s : S) → Calm (step x s))
        → (xs : List X) (s : S) (served : List Service) (h : History)
        → panics (serve_each step xs s served h).0 ≡ false
    unfolding serve_each
    panics-serve_each steps [] s served h = refl
    panics-serve_each steps (x ∷ xs) s served h =
        going_on (step x s h) ((steps x s).at h)
          (λ s served h. panics-serve_each steps xs s served h)
      where
        going_on :
            (r : Outcome (Service × S) × History)
            → panics r.0 ≡ false
            → ((s : S) (served : List Service) (h : History)
                → panics (serve_each step xs s served h).0 ≡ false)
            → panics
                (elim r.0 as (λ _. Served S) [
                  | done p ↦ serve_each step xs p.1 (served ++ p.0 ∷ []) r.1
                  | failed e ↦ (failed e, served, r.1)
                  | panicked p ↦ (panicked p, served, r.1)
                ]).0
              ≡ false
        going_on (done p, h') calm rest = rest p.1 (served ++ p.0 ∷ []) h'
        going_on (failed e, h') calm rest = refl
        going_on (panicked m, h') calm rest = calm

  panics-deferred :
      {S : Type 0} (tag : String) (op : InboundOperation) (r : Served S)
      → panics r.0 ≡ false
      → panics (deferred E tag op r).0 ≡ false
  unfolding deferred
  panics-deferred tag op (done s, served, h) calm = refl
  panics-deferred tag op (failed e, served, h) calm =
      ground (arith, (rollback-Calm tag op served).at h)
  panics-deferred tag op (panicked m, served, h) calm = ground arith

  panics-stored :
      (served : List Service) (r : Reply V2rayUser) (h : History)
      → panics (stored E served (done r, h)).0 ≡ false
  unfolding stored
  panics-stored served (ok u) h = refl
  panics-stored served (err e) h = refl

  panics-store_nodes :
      (cr : V2rayUser) (r : Served NodeMap)
      → panics r.0 ≡ false
      → panics (store_nodes E cr r).0 ≡ false
  unfolding store_nodes
  panics-store_nodes cr (done nodes, served, h) calm = rw attempt-request (panics-stored served _ _)
  panics-store_nodes cr (failed e, served, h) calm = refl
  panics-store_nodes cr (panicked m, served, h) calm = calm

  panics-finish :
      (left : V2rayUser) (r : Outcome V2rayUser × History)
      → panics r.0 ≡ false
      → panics (finish E left r).0 ≡ false
  unfolding finish
  panics-finish left (done u, h) calm = refl
  panics-finish left (failed e, h) calm = refl
  panics-finish left (panicked m, h) calm = calm

  add_account-Calm :
      (cr : V2rayUser) (account : Account) (svcs : List Service)
      → Calm (add_account E cr account svcs)
  unfolding add_account
  add_account-Calm cr account svcs = record {
    at = λ h. panics-finish _ _ (
        panics-deferred _ _ _ (
          panics-store_nodes cr _
            (panics-serve_each _ (λ svc nodes. add_to_svc-Calm _ _ svc nodes) svcs [] [] h)));
  }

  by_account :
      (cr : V2rayUser) (svcs : List Service) (o : Option Account)
      → account_of cr.spec.inbound_tag cr.spec.user ≡ o
      → Calm (add_user_to_v2ray_svc_list E cr svcs)
  unfolding add_user_to_v2ray_svc_list
  by_account cr svcs none unknown = rw (unknown, add_user_to_v2ray_svc_list) (search calm_rules)
  by_account cr svcs (some account) known =
      rw (known, add_user_to_v2ray_svc_list) (add_account-Calm cr account svcs)

  pub add_user-Calm :
      (cr : V2rayUser) (svcs : List Service) → Calm (add_user_to_v2ray_svc_list E cr svcs)
  add_user-Calm cr svcs = by_account cr svcs _ refl

  panics-announce :
      (cr : V2rayUser) (r : Outcome (Unit {0}) × History)
      → panics r.0 ≡ false
      → panics (announce E cr r.0 r.1).0 ≡ false
  unfolding announce ◌>>=◌ record_event
  panics-announce cr (done u, h) calm = refl
  panics-announce cr (failed e, h) calm = refl
  panics-announce cr (panicked m, h) calm = calm

  remove_account-Calm : (cr : V2rayUser) (account : Account) → Calm (remove_account E cr account)
  unfolding remove_account
  remove_account-Calm cr account = record {
    at = λ h. panics-announce cr _ (
        panics-deferred _ _ _ (
          panics-serve_each _ (λ info u. remove_from_svc-Calm _ _ info u)
            (infos_of cr.spec.node_list) tt [] h));
  }

  by_removed :
      (cr : V2rayUser) (o : Option Account)
      → account_of cr.spec.inbound_tag cr.spec.user ≡ o
      → Calm (do_finalizer_operations_for_v2ray_user E cr)
  unfolding do_finalizer_operations_for_v2ray_user
  by_removed cr none unknown =
      rw (unknown, do_finalizer_operations_for_v2ray_user) (search calm_rules)
  by_removed cr (some account) known =
      rw (known, do_finalizer_operations_for_v2ray_user) (remove_account-Calm cr account)

  pub finalizer-Calm : (cr : V2rayUser) → Calm (do_finalizer_operations_for_v2ray_user E cr)
  finalizer-Calm cr = by_removed cr _ refl
