-- ===== src/Client/Elect.antt =====
-- `ElectServicesFromAffinity` and `SvcListToV2flyConfig`
pub mod Quota
use v2ray_operator.Prelude.{Option, none, some, List, [], ◌∷◌, ◌==◌, if◌then◌else◌}
use v2ray_operator.Prelude.Int.{ℤ, pos, eqb_ℤ, dec_ℤ}
use v2ray_operator.Prelude.Maps.{Dict, lookup, insert}
use v2ray_operator.Api.Core.{Service, ServicePort}
use v2ray_operator.Api.Client.{V2rayRegionAffinity, V2rayNodeAffinity}
use v2ray_operator.V2fly.Config.{V2rayConfig}
use v2ray_operator.Managers.{v2ray_grpc_port_name}
use v2ray_operator.Cluster.Effect.{M, pure, panic, ◌>>=◌}
use v2ray_operator.Cluster.Env.{Env}
use v2ray_operator.Cluster.Client
use v2ray_operator.User.Server.{v2ray_enable_label, v2ray_region_label, v2ray_namespace}

-- `regionAffinityMap`: of a region that is listed twice the last number counts.
unfoldable pub region_affinity_map : List V2rayRegionAffinity → Dict ℤ → Dict ℤ
region_affinity_map [] m = m
region_affinity_map (r ∷ rs) m = region_affinity_map rs (insert r.region r.nums m)

-- What a service does to the map: `none` where it is passed over.
unfoldable pub claim : Dict ℤ → Service → Option (Dict ℤ)
claim m svc = elim (lookup v2ray_region_label svc.metadata.labels) [
  | none ↦ none
  | some region ↦ elim (lookup region m) [
    | none ↦ none
    | some num ↦ if eqb_ℤ num (pos 0) then none else some (insert region (dec_ℤ num) m)
  ]
]

-- The loop over the services.
unfoldable pub elect_from : Dict ℤ → List Service → List Service
elect_from m [] = []
elect_from m (svc ∷ svcs) = elim (claim m svc) [
  | none ↦ elect_from m svcs
  | some m' ↦ svc ∷ elect_from m' svcs
]

module _ (E : Env) where
  -- A nil affinity is read through, which panics.
  unfoldable pub elect_services_from_affinity : Option V2rayNodeAffinity → M (List Service)
  elect_services_from_affinity none = panic "invalid memory address or nil pointer dereference"
  elect_services_from_affinity (some affinity) = do
    svcs ← Client.list_services E v2ray_namespace ((v2ray_enable_label, "true") ∷ [])
    pure (elect_from (region_affinity_map affinity.regions []) svcs)

-- The port named grpc, or nil.
unfoldable pub find_grpc_port : List ServicePort → Option ServicePort
find_grpc_port [] = none
find_grpc_port (p ∷ ps) =
    let rest = find_grpc_port ps in if p.name == v2ray_grpc_port_name then some p else rest

-- A service with no cluster address or no such port has no configuration.
unfoldable pub v2fly_config : Service → Option V2rayConfig
v2fly_config svc = if svc.cluster_ip == "" then none else elim (find_grpc_port svc.ports) [
  | none ↦ none
  | some p ↦ some (record { host = svc.cluster_ip; port = p.port })
]

unfoldable pub svc_list_to_v2fly_config : List Service → List V2rayConfig
svc_list_to_v2fly_config [] = []
svc_list_to_v2fly_config (svc ∷ svcs) =
    let rest = svc_list_to_v2fly_config svcs in
    elim (v2fly_config svc) [ none ↦ rest | some c ↦ c ∷ rest ]
