-- ===== src/Client/Reconcile/Deploys.antt =====
-- What a run for a client sends where everything is accepted.
use v2ray_operator.Prelude.{
  String, Bool, true, false, ◌≡◌, refl, ◌∙◌, some, List, [], ◌∷◌, map, is_empty, arith, Bool-cases,
  inl, inr, if◌then◌else◌,
}
use v2ray_operator.Api.Core.{Service}
use v2ray_operator.Api.Client.{V2rayNodeAffinity, V2rayClient}
use v2ray_operator.V2fly.Structs.{V2rayInstanceConfig}
use v2ray_operator.V2fly.Config.{V2rayConfig, server_addr, to_v2ray_v4_config}
use v2ray_operator.V2fly.Grpc.{
  V2rayGrpcApi, new_v2ray_grpc_api, add_inbound, add_outbound, add_each, labelled,
}
use v2ray_operator.V2fly.Grpc.Sends.{builds, all_build, labelled-lift}
use v2ray_operator.Cluster.Effect.{M, Reply, ok, err, done, pure, ◌>>=◌}
use v2ray_operator.Cluster.Requests.{Call, History, HandlerConfig}
use v2ray_operator.Cluster.Env.{Env, Detour, V4Config}
use v2ray_operator.Cluster.Trace.{onto}
use v2ray_operator.Cluster.Client
use v2ray_operator.User.Server.{v2ray_namespace, v2ray_enable_label}
use v2ray_operator.Client.Elect.{
  region_affinity_map, elect_from, elect_services_from_affinity, svc_list_to_v2fly_config,
}
use v2ray_operator.Client.Reconcile.{apply_inbounds, elected_or_nil, deploy}
use v2ray_operator.Client.Reconcile.Apply.{to_each, apply_each-svc_list_to_v2fly_config}

-- The listing of the services that may serve.
abbrev pub listing : Call
listing = Call.list_services v2ray_namespace ((v2ray_enable_label, "true") ∷ [])

-- Servers are reached, and take what is added.
pub record Accepts (E : Env) : Type 0 where
  pub dials : (h : History) (addr : String) → E.dial h addr ≡ ok tt
  pub inbounds : (h : History) (addr : String) (b : HandlerConfig) → E.add_inbound h addr b ≡ ok tt
  pub outbounds :
      (h : History) (addr : String) (b : HandlerConfig) → E.add_outbound h addr b ≡ ok tt

all_build-cons :
    (c : Detour) (cs : List Detour)
    → all_build (c ∷ cs) ≡ true
    → (b : HandlerConfig) × (c.build ≡ ok b) × (all_build cs ≡ true)
all_build-cons c cs h = which c.build h
  where
    which :
        (r : Reply HandlerConfig)
        → (elim r as (λ _. Bool) [ ok b ↦ all_build cs | err e ↦ false ]) ≡ true
        → (b : HandlerConfig) × (r ≡ ok b) × (all_build cs ≡ true)
    which (ok b) h = (b, refl, h)
    which (err e) h = absurd (ground (arith, h))

module _ (send : String → HandlerConfig → M (Unit {0})) (name addr : String)
    (call : HandlerConfig → Call)
    (sends : (b : HandlerConfig) (h : History) → send addr b h ≡ (done tt, call b ∷ h)) where
  add_each-all :
      (cs : List Detour) (h : History)
      → all_build cs ≡ true
      → add_each send name addr cs h ≡ (done tt, onto (map call (builds cs)) h)
  unfolding add_each labelled ◌>>=◌
  add_each-all [] h built = refl
  add_each-all (c ∷ cs) h built =
      let (b, builds_to, rest) = all_build-cons c cs built in
      rw builds_to (rw (sends b h) (add_each-all cs (call b ∷ h) rest))

-- The calls for one server: it is dialled, and gets all inbounds, then all outbounds.
abbrev pub calls_at : V4Config → V2rayConfig → History → History
calls_at c target h =
    let addr = server_addr target in
    onto (map (Call.add_outbound addr) (builds c.outbound_configs))
      (onto (map (Call.add_inbound addr) (builds c.inbound_configs)) (Call.dial addr ∷ h))

abbrev pub calls_at_each : V4Config → List V2rayConfig → History → History
calls_at_each c [] h = h
calls_at_each c (target ∷ targets) h = calls_at_each c targets (calls_at c target h)

-- The configuration is converted without losing an inbound or outbound, and all of them build.
pub record Converts (E : Env) (cfg : V2rayInstanceConfig) (c : V4Config) : Type 0 where
  pub converts : to_v2ray_v4_config E (some cfg) ≡ ok c
  pub no_inbounds : is_empty c.inbound_configs ≡ is_empty cfg.inbounds
  pub no_outbounds : is_empty c.outbound_configs ≡ is_empty cfg.outbounds
  pub inbounds_build : all_build c.inbound_configs ≡ true
  pub outbounds_build : all_build c.outbound_configs ≡ true

builds-nil : (cs : List Detour) → is_empty cs ≡ true → builds cs ≡ []
builds-nil [] e = refl
builds-nil (c ∷ cs) e = absurd (ground arith)

module _ (E : Env) (accepts : Accepts E) (cfg : V2rayInstanceConfig) (c : V4Config)
    (converts : Converts E cfg c) where
  add_inbound-all :
      (api : V2rayGrpcApi) (h : History)
      → is_empty c.inbound_configs ≡ false
      → add_inbound E api cfg h ≡ (
        done tt,
        onto (map (Call.add_inbound (server_addr api.config)) (builds c.inbound_configs)) h,
      )
  unfolding add_inbound ◌>>=◌
  add_inbound-all api h some_there =
      rw (labelled-lift, converts.converts, some_there)
        (add_each-all (Client.add_inbound E) _ (server_addr api.config)
          (Call.add_inbound (server_addr api.config))
          (λ b h. rw (accepts.inbounds h (server_addr api.config) b) refl) c.inbound_configs h
          converts.inbounds_build)

  add_outbound-all :
      (api : V2rayGrpcApi) (h : History)
      → is_empty c.outbound_configs ≡ false
      → add_outbound E api cfg h ≡ (
        done tt,
        onto (map (Call.add_outbound (server_addr api.config)) (builds c.outbound_configs)) h,
      )
  unfolding add_outbound ◌>>=◌
  add_outbound-all api h some_there =
      rw (labelled-lift, converts.converts, some_there)
        (add_each-all (Client.add_outbound E) _ (server_addr api.config)
          (Call.add_outbound (server_addr api.config))
          (λ b h. rw (accepts.outbounds h (server_addr api.config) b) refl) c.outbound_configs h
          converts.outbounds_build)

  inbounds_step :
      (api : V2rayGrpcApi) (h : History)
      → (if is_empty cfg.inbounds then pure tt else add_inbound E api cfg) h ≡ (
        done tt,
        onto (map (Call.add_inbound (server_addr api.config)) (builds c.inbound_configs)) h,
      )
  unfolding ◌>>=◌
  inbounds_step api h = elim (Bool-cases (is_empty cfg.inbounds)) [
    | inl gone ↦ rw (gone, builds-nil c.inbound_configs (converts.no_inbounds ∙ gone)) refl
    | inr there ↦ rw there (add_inbound-all api h (converts.no_inbounds ∙ there))
  ]

  outbounds_step :
      (api : V2rayGrpcApi) (h : History)
      → (if is_empty cfg.outbounds then pure tt else add_outbound E api cfg) h ≡ (
        done tt,
        onto (map (Call.add_outbound (server_addr api.config)) (builds c.outbound_configs)) h,
      )
  unfolding ◌>>=◌
  outbounds_step api h = elim (Bool-cases (is_empty cfg.outbounds)) [
    | inl gone ↦ rw (gone, builds-nil c.outbound_configs (converts.no_outbounds ∙ gone)) refl
    | inr there ↦ rw there (add_outbound-all api h (converts.no_outbounds ∙ there))
  ]

  apply_inbounds-all :
      (target : V2rayConfig) (h : History)
      → apply_inbounds E target cfg h ≡ (done tt, calls_at c target h)
  unfolding apply_inbounds new_v2ray_grpc_api ◌>>=◌
  apply_inbounds-all target h =
      rw
        (
          accepts.dials h (server_addr target),
          inbounds_step (record { config = target }) (Call.dial (server_addr target) ∷ h),
        )
        (outbounds_step (record { config = target }) _)

  to_each-all :
      (targets : List V2rayConfig) (h : History)
      → to_each E cfg targets h ≡ (done tt, calls_at_each c targets h)
  unfolding ◌>>=◌
  to_each-all [] h = refl
  to_each-all (target ∷ targets) h =
      rw (apply_inbounds-all target h) (to_each-all targets (calls_at c target h))

-- For a client with an affinity and a configuration that can be converted, none of its inbounds and
-- outbounds lost, each of which builds: where servers are reached and take what they are sent, and
-- both listings of the services are answered, the run lists the services twice, elects among those of
-- the second listing, and of the elected services with an address and a port sends to each in turn
-- all inbounds, then all outbounds, once and in order. It sends nothing else and does not fail.
pub deploy-applies_all :
    (E : Env)
    → Accepts E
    → (cr : V2rayClient) (cfg : V2rayInstanceConfig) (c : V4Config) → Converts E cfg c
    → (h : History) {a : V2rayNodeAffinity} {first all : List Service} → cr.spec.affinity ≡ some a
    → cr.spec.v2ray ≡ some cfg
    → E.list_services h v2ray_namespace ((v2ray_enable_label, "true") ∷ []) ≡ ok first
    → E.list_services (listing ∷ h) v2ray_namespace ((v2ray_enable_label, "true") ∷ []) ≡ ok all
    → deploy E cr h ≡ (
      done tt,
      calls_at_each c
          (svc_list_to_v2fly_config (elect_from (region_affinity_map a.regions []) all))
          (listing ∷ listing ∷ h),
    )
unfolding deploy elected_or_nil elect_services_from_affinity ◌>>=◌
deploy-applies_all E accepts cr cfg c converts h affinity config listed listed_again =
    rw (affinity, config)
      (rw (listed) (
        rw (listed_again) (
          apply_each-svc_list_to_v2fly_config E cfg _ _
          ∙ to_each-all E accepts cfg c converts _ _)))
