-- ===== src/Client/Reconcile/Calls.antt =====
-- The calls that a run of the V2rayClient controller makes.
use v2ray_operator.Prelude.{String, Bool, true, false, List, [], ◌∷◌, refl, none, some, Option}
use v2ray_operator.Api.Meta.{ObjectKey}
use v2ray_operator.Api.Core.{Service}
use v2ray_operator.Api.Client.{V2rayNodeAffinity, V2rayClient}
use v2ray_operator.V2fly.Config.{V2rayConfig, server_addr}
use v2ray_operator.V2fly.Structs.{V2rayInstanceConfig}
use v2ray_operator.V2fly.Grpc.{V2rayGrpcApi, add_each, add_inbound, add_outbound}
use v2ray_operator.V2fly.Grpc.Connects.{Connects-new, Makes-labelled, Makes-connect}
use v2ray_operator.Cluster.Effect.{M, Reply, ok, err}
use v2ray_operator.Cluster.Requests.{Call, History, HandlerConfig}
use v2ray_operator.Cluster.Env.{Env, Detour, V4Config}
use v2ray_operator.Cluster.Adds.{Adds, connected}
use v2ray_operator.Cluster.Makes.{Makes, Makes-bind, Makes-lift, makes_rules}
use v2ray_operator.Client.Elect.{elect_services_from_affinity}
use v2ray_operator.Client.Reconcile.{
  next_svc, apply_inbounds, apply_v2ray_client_config, apply_each, deploy, init_status,
  first_status, ensure_finalizer, finalize, report_available, settle_client, refetched, with_v4,
  fetched, reconcile,
}

-- Its own objects, reads of the services, and additions of inbounds and outbounds to servers that are
-- connected to.
abbrev pub by_client : Env → History → Call → Bool
by_client E h (Call.get_client k) = true
by_client E h (Call.update_client c) = true
by_client E h (Call.update_client_status c) = true
by_client E h (Call.list_services ns ls) = true
by_client E h (Call.dial addr) = true
by_client E h (Call.add_inbound addr c) = connected E addr h
by_client E h (Call.add_outbound addr c) = connected E addr h
by_client E h _ = false

module _ (E : Env) where
  module _ (send : String → HandlerConfig → M (Unit {0})) (name addr : String) where
    add_each-Makes :
        ((b : HandlerConfig) → Makes (by_client E) E (some addr) (send addr b))
        → (cs : List Detour) → Makes (by_client E) E (some addr) (add_each send name addr cs)
    unfolding add_each
    add_each-Makes sends [] = search makes_rules
    add_each-Makes sends (c ∷ cs) =
        Makes-bind _ _ (Makes-labelled _ _ (Makes-lift _)) (λ built.
          Makes-bind _ _ (Makes-labelled _ _ (sends built)) (λ _. add_each-Makes sends cs))

  add_inbound-Makes :
      (api : V2rayGrpcApi) (cfg : V2rayInstanceConfig)
      → Makes (by_client E) E (some (server_addr api.config)) (add_inbound E api cfg)
  unfolding add_inbound
  add_inbound-Makes api cfg = search (makes_rules, Makes-labelled, add_each-Makes) depth 16

  add_outbound-Makes :
      (api : V2rayGrpcApi) (cfg : V2rayInstanceConfig)
      → Makes (by_client E) E (some (server_addr api.config)) (add_outbound E api cfg)
  unfolding add_outbound
  add_outbound-Makes api cfg = search (makes_rules, Makes-labelled, add_each-Makes) depth 16

  apply-Makes :
      (svc : Service) (cfg : Option V2rayInstanceConfig) (target : V2rayConfig)
      → Makes (by_client E) E none (apply_v2ray_client_config E svc cfg target)
  unfolding apply_v2ray_client_config apply_inbounds
  apply-Makes svc none target =
      Makes-connect _ _ (Connects-new target (λ h addr. refl)) (λ api. search makes_rules)
  apply-Makes svc (some cfg) target =
      Makes-connect _ _ (Connects-new target (λ h addr. refl))
        (λ api. search (makes_rules, add_inbound-Makes, add_outbound-Makes) depth 12)

  next_svc-Makes : (svcs : List Service) → Makes (by_client E) E none (next_svc svcs)
  unfolding next_svc
  next_svc-Makes [] = search makes_rules
  next_svc-Makes (svc ∷ svcs) = search makes_rules

  apply_each-Makes :
      (cfg : Option V2rayInstanceConfig) (svcs : List Service) (cs : List V2rayConfig)
      → Makes (by_client E) E none (apply_each E cfg svcs cs)
  unfolding apply_each
  apply_each-Makes cfg svcs [] = search makes_rules
  apply_each-Makes cfg svcs (c ∷ cs) =
      Makes-bind _ _ (next_svc-Makes svcs)
        (λ p. Makes-bind _ _ (apply-Makes p.0 cfg c) (λ _. apply_each-Makes cfg p.1 cs))

  elect-Makes :
      (affinity : Option V2rayNodeAffinity)
      → Makes (by_client E) E none (elect_services_from_affinity E affinity)
  unfolding elect_services_from_affinity
  elect-Makes none = search makes_rules
  elect-Makes (some affinity) = search makes_rules

  deploy-Makes : (cr : V2rayClient) → Makes (by_client E) E none (deploy E cr)
  unfolding deploy
  deploy-Makes cr = search (makes_rules, elect-Makes, apply_each-Makes) depth 16

  ensure_finalizer-Makes : (cr : V2rayClient) → Makes (by_client E) E none (ensure_finalizer E cr)
  unfolding ensure_finalizer
  ensure_finalizer-Makes cr = search makes_rules depth 16

  finalize-Makes :
      (key : ObjectKey) (cr : V2rayClient) → Makes (by_client E) E none (finalize E key cr)
  unfolding finalize
  finalize-Makes key cr = search makes_rules depth 20

  settle-Makes :
      (key : ObjectKey) (kept : Option V2rayClient)
      → Makes (by_client E) E none (settle_client E key kept)
  unfolding settle_client report_available
  settle-Makes key none = search makes_rules
  settle-Makes key (some cr) = search (makes_rules, finalize-Makes) depth 16

  refetched-Makes :
      (key : ObjectKey) (again : Reply V2rayClient)
      → Makes (by_client E) E none (refetched E key again)
  unfolding refetched init_status
  refetched-Makes key (err e) = search makes_rules
  refetched-Makes key (ok cr) = search (makes_rules, ensure_finalizer-Makes, settle-Makes) depth 16

  with_v4-Makes :
      (key : ObjectKey) (cr : V2rayClient) (v4 : Reply V4Config)
      → Makes (by_client E) E none (with_v4 E key cr v4)
  unfolding with_v4
  with_v4-Makes key cr (err e) = search makes_rules
  with_v4-Makes key cr (ok v4) = search (makes_rules, deploy-Makes, refetched-Makes) depth 16

  fetched-Makes :
      (key : ObjectKey) (found : Reply V2rayClient)
      → Makes (by_client E) E none (fetched E key found)
  unfolding fetched first_status
  fetched-Makes key (err e) = search makes_rules
  fetched-Makes key (ok cr) = search (makes_rules, with_v4-Makes) depth 16

  reconcile-Makes : (key : ObjectKey) → Makes (by_client E) E none (reconcile E key)
  unfolding reconcile
  reconcile-Makes key = search (makes_rules, fetched-Makes) depth 16

  -- Whatever is answered, a run of the V2rayClient controller writes only V2rayClient objects and
  -- reads those and services; its only requests to v2ray servers add inbounds and outbounds, each
  -- behind a connection to that server, and it never removes any.
  pub reconcile-by_client :
      (key : ObjectKey) (h : History) → Adds (by_client E) h (reconcile E key h).1
  reconcile-by_client key h = (reconcile-Makes key).at h tt
