-- ===== src/User/Server.antt =====
-- How the controller reaches the v2ray server behind a service, and the user that it sends there.
use v2ray_operator.Prelude.{String, Option, none, some, List, [], ◌∷◌, ◌==◌, if◌then◌else◌}
use v2ray_operator.Prelude.Int.{pos, eqb_ℤ, to_uint32}
use v2ray_operator.Prelude.Maps.{lookup}
use v2ray_operator.Prelude.Text.{contains}
use v2ray_operator.Api.Core.{Service, Node, NodeAddress}
use v2ray_operator.Api.User.{V2rayUserInfo}
use v2ray_operator.V2fly.Config.{V2rayConfig, server_addr}
use v2ray_operator.V2fly.Grpc.{V2rayGrpcApi, new_v2ray_grpc_api, error_of}
use v2ray_operator.Managers.{
  env, env_test, grpc_port, flannel_public_ip_annotation, k3s_internal_ip_annotation,
  k8s_internal_ip_annotation,
}
use v2ray_operator.Cluster.Effect.{M, fail}
use v2ray_operator.Cluster.Requests.{Account, vless, vmess, ProtocolUser}
use v2ray_operator.Cluster.Env.{Env}

abbrev pub v2ray_region_label : String
v2ray_region_label = "v2ray.hdcjh.xyz/region"

abbrev pub v2ray_enable_label : String
v2ray_enable_label = "v2ray.hdcjh.xyz/enable"

abbrev pub v2ray_namespace : String
v2ray_namespace = "vpn"

-- The switch over the inbound tag; `none` is its default case.
unfoldable pub account_of : String → V2rayUserInfo → Option Account
account_of tag user =
    if contains tag "vless"
    then some (vless user.id)
    else if contains tag "vmess"
    then some (vmess user.id 0)
    else none

unfoldable pub protocol_user : V2rayUserInfo → Account → ProtocolUser
protocol_user user account = record {
  level = to_uint32 user.level;
  email = user.email;
  account = account;
}

module _ (E : Env) where
  -- The host and port that `getV2rayGrpcClientFromSvc` dials.
  unfoldable pub svc_config : Service → V2rayConfig
  svc_config svc = record {
    host = if env E == env_test then "127.0.0.1" else svc.cluster_ip;
    port = grpc_port svc.ports;
  }

  unfoldable pub get_v2ray_grpc_client_from_svc : Service → M V2rayGrpcApi
  get_v2ray_grpc_client_from_svc svc =
      if eqb_ℤ (svc_config svc).port (pos 0)
      then fail (error_of "GetV2rayGrpcClientFromSvc: grpc port not found")
      else new_v2ray_grpc_api E (svc_config svc)

  -- Where the calls for a service go.
  unfoldable pub svc_addr : Service → String
  svc_addr svc = server_addr (svc_config svc)

internal_address : List NodeAddress → String
internal_address [] = ""
internal_address (a ∷ rest_of) =
    let rest = internal_address rest_of in if a.kind == "InternalIP" then a.address else rest

-- `getNodePublicIp`; its error is always nil.
unfoldable pub get_node_public_ip : Node → String
unfolding internal_address
get_node_public_ip node = elim (lookup flannel_public_ip_annotation node.metadata.annotations) [
  | some ip ↦ ip
  | none ↦ elim (lookup k3s_internal_ip_annotation node.metadata.annotations) [
    | some ip ↦ ip
    | none ↦ elim (lookup k8s_internal_ip_annotation node.metadata.annotations) [
      | some ip ↦ ip
      | none ↦ internal_address node.addresses
    ]
  ]
]
