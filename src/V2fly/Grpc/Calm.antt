-- ===== src/V2fly/Grpc/Calm.antt =====
-- The operations of the client of a v2ray server panic only where a server cannot be dialled.
use v2ray_operator.Prelude.{String, List, [], ◌∷◌, false, ◌≡◌, refl, arith}
use v2ray_operator.V2fly.Config.{V2rayConfig, server_addr}
use v2ray_operator.V2fly.Structs.{V2rayInstanceConfig}
use v2ray_operator.V2fly.Grpc.{
  connected as client_of, V2rayGrpcApi, labelled, new_v2ray_grpc_api, alter_inbound, add_each,
  add_inbound, add_outbound,
}
use v2ray_operator.Cluster.Effect.{M, ok, ◌>>=◌}
use v2ray_operator.Cluster.Requests.{History, InboundOperation, HandlerConfig}
use v2ray_operator.Cluster.Env.{Env, Detour}
use v2ray_operator.Cluster.Trace.{panics, attempt-request}
use v2ray_operator.Cluster.Calm.{Calm, Calm-lift, Calm-bind, calm_rules}

-- Every server can be dialled, at any time.
abbrev pub Reachable : Env → Type 0
Reachable E = (h : History) (addr : String) → E.dial h addr ≡ ok tt

panics-labelled :
    {A : Type 0} (text : String) (m : M A) (h : History)
    → panics (m h).0 ≡ false
    → panics (labelled text m h).0 ≡ false
unfolding labelled ◌>>=◌
panics-labelled text m h calm = ground arith

pub Calm-labelled : {A : Type 0} (text : String) (m : M A) → Calm m → Calm (labelled text m)
Calm-labelled text m c = record { at = λ h. panics-labelled text m h (c.at h) }

module _ (E : Env) where
  pub new_v2ray_grpc_api-Calm : Reachable E → (cfg : V2rayConfig) → Calm (new_v2ray_grpc_api E cfg)
  unfolding new_v2ray_grpc_api client_of ◌>>=◌
  new_v2ray_grpc_api-Calm reachable cfg = record {
    at = λ h. rw attempt-request (rw (reachable h (server_addr cfg)) refl);
  }

  pub alter_inbound-Calm :
      (api : V2rayGrpcApi) (tag : String) (op : InboundOperation)
      → Calm (alter_inbound E api tag op)
  unfolding alter_inbound
  alter_inbound-Calm api tag op = search calm_rules depth 12

  module _ (send : String → HandlerConfig → M (Unit {0})) (name addr : String) where
    add_each-Calm :
        ((b : HandlerConfig) → Calm (send addr b))
        → (cs : List Detour) → Calm (add_each send name addr cs)
    unfolding add_each
    add_each-Calm sends [] = search calm_rules
    add_each-Calm sends (c ∷ cs) =
        Calm-bind _ _ (Calm-labelled _ _ (Calm-lift _))
          (λ built. Calm-bind _ _ (Calm-labelled _ _ (sends built)) (λ _. add_each-Calm sends cs))

  pub add_inbound-Calm :
      (api : V2rayGrpcApi) (cfg : V2rayInstanceConfig) → Calm (add_inbound E api cfg)
  unfolding add_inbound
  add_inbound-Calm api cfg = search (calm_rules, Calm-labelled, add_each-Calm) depth 12

  pub add_outbound-Calm :
      (api : V2rayGrpcApi) (cfg : V2rayInstanceConfig) → Calm (add_outbound E api cfg)
  unfolding add_outbound
  add_outbound-Calm api cfg = search (calm_rules, Calm-labelled, add_each-Calm) depth 12
