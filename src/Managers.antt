-- ===== src/Managers.antt =====
-- internal/managers/utils.go and internal/constant/vars.go
use v2ray_operator.Prelude.{String, none, some, List, [], ◌∷◌, ◌==◌, if◌then◌else◌}
use v2ray_operator.Prelude.Int.{ℤ, pos, eqb_ℤ}
use v2ray_operator.Prelude.Text.{to_lower}
use v2ray_operator.Api.Core.{ServicePort}
use v2ray_operator.V2fly.Config.{V2rayConfig}
use v2ray_operator.V2fly.Grpc.{V2rayGrpcApi, new_v2ray_grpc_api, error_of}
use v2ray_operator.Cluster.Effect.{M, pure, fail, ◌>>=◌}
use v2ray_operator.Cluster.Env.{Env}
use v2ray_operator.Cluster.Client

abbrev pub env_test : String
env_test = "test"

abbrev pub flannel_public_ip_annotation : String
flannel_public_ip_annotation = "flannel.alpha.coreos.com/public-ip"

abbrev pub k8s_internal_ip_annotation : String
k8s_internal_ip_annotation = "kubernetes.io/internal-ip"

abbrev pub k3s_internal_ip_annotation : String
k3s_internal_ip_annotation = "k3s.io/internal-ip"

-- `V2rayGrpcPortName` here, `v2raySvcPortName` in the controllers
abbrev pub v2ray_grpc_port_name : String
v2ray_grpc_port_name = "grpc"

-- `os.Getenv`: the empty text where the variable is not set.
getenv : Env → String → String
getenv E name = elim (E.lookup_env name) [ none ↦ "" | some v ↦ v ]

-- `ENV()`
unfoldable pub env : Env → String
unfolding getenv
env E = let value = getenv E "ENV" in to_lower (if value == "" then "test" else value)

-- The loop over the ports, which stops at the first one named grpc; 0 where there is none.
unfoldable pub grpc_port : List ServicePort → ℤ
grpc_port [] = pos 0
grpc_port (p ∷ ps) =
    let rest = grpc_port ps in if p.name == v2ray_grpc_port_name then p.port else rest

module _ (E : Env) where
  unfoldable pub get_v2ray_config_from_service : String → String → M V2rayConfig
  get_v2ray_config_from_service name namespace = do
    svc ← Client.get_service E (record { namespace = namespace; name = name })
    let port = grpc_port svc.ports
    if eqb_ℤ port (pos 0)
        then fail (error_of "no grpc port found")
        else pure (record { host = svc.cluster_ip; port = port })

  unfoldable pub get_v2ray_client_from_service : String → String → M V2rayGrpcApi
  get_v2ray_client_from_service name namespace = do
    cfg ← get_v2ray_config_from_service name namespace
    new_v2ray_grpc_api E cfg
