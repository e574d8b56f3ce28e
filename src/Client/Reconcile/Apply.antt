-- ===== src/Client/Reconcile/Apply.antt =====
-- The loop that applies a client's configuration to the elected servers.
use v2ray_operator.Prelude.{◌≡◌, refl, ap, ◌≤◌, some, List, [], ◌∷◌, length, arith}
use v2ray_operator.Api.Core.{Service}
use v2ray_operator.V2fly.Structs.{V2rayInstanceConfig}
use v2ray_operator.V2fly.Config.{V2rayConfig}
use v2ray_operator.Cluster.Effect.{M, pure, ◌>>=◌, ◌>>◌}
use v2ray_operator.Cluster.Requests.{History}
use v2ray_operator.Cluster.Env.{Env}
use v2ray_operator.Client.Elect.{svc_list_to_v2fly_config}
use v2ray_operator.Client.Reconcile.{
  apply_v2ray_client_config, apply_inbounds, apply_each, next_svc,
}

length-svc_list_to_v2fly_config :
    (svcs : List Service) → length (svc_list_to_v2fly_config svcs) ≤ length svcs
unfolding svc_list_to_v2fly_config
length-svc_list_to_v2fly_config [] = omega arith
length-svc_list_to_v2fly_config (svc ∷ svcs) = ground (arith, length-svc_list_to_v2fly_config svcs)

module _ (E : Env) (cfg : V2rayInstanceConfig) where
  -- Each server in turn, up to the first error.
  abbrev pub to_each : List V2rayConfig → M (Unit {0})
  to_each [] = pure tt
  to_each (c ∷ cs) = apply_inbounds E c cfg >> to_each cs

  apply_each-to_each :
      (cs : List V2rayConfig) (svcs : List Service) (h : History)
      → length cs ≤ length svcs
      → apply_each E (some cfg) svcs cs h ≡ to_each cs h
  unfolding apply_each next_svc apply_v2ray_client_config ◌>>=◌
  apply_each-to_each [] svcs h fits = refl
  apply_each-to_each (c ∷ cs) [] h fits = absurd (omega arith)
  apply_each-to_each (c ∷ cs) (svc ∷ svcs) h fits =
      ap (λ rest. (apply_inbounds E c cfg >> rest) h)
        (λ i h. apply_each-to_each cs svcs h (omega arith) i)

-- Applying a configuration to the servers that have an address and a port of their own never runs
-- out of the list of services, however many of these have none: it is the same as going through the
-- servers alone, one after another, up to the first error.
pub apply_each-svc_list_to_v2fly_config :
    (E : Env) (cfg : V2rayInstanceConfig) (svcs : List Service) (h : History)
    → apply_each E (some cfg) svcs (svc_list_to_v2fly_config svcs) h
      ≡ to_each E cfg (svc_list_to_v2fly_config svcs) h
apply_each-svc_list_to_v2fly_config E cfg svcs h =
    apply_each-to_each E cfg (svc_list_to_v2fly_config svcs) svcs h
      (length-svc_list_to_v2fly_config svcs)
