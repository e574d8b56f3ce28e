-- ===== src/Cluster/Env.antt =====
-- The surroundings of the controllers. Every answer may depend on all the calls made before, so an
-- `Env` stands for any cluster: one that fails at will, one that others change in between, and one
-- that keeps a store.
use v2ray_operator.Prelude.{String, Bool, Option, List}
use v2ray_operator.Prelude.Maps.{Dict}
use v2ray_operator.Api.Meta.{ObjectKey, Condition}
use v2ray_operator.Api.Core.{Service, Pod, Node}
use v2ray_operator.Api.Deployment.{Deployment}
use v2ray_operator.Api.V2ray.{V2ray}
use v2ray_operator.Api.User.{V2rayUser}
use v2ray_operator.Api.Client.{V2rayClient}
use v2ray_operator.V2fly.Structs.{V2rayInstanceConfig}
use v2ray_operator.Cluster.Effect.{Reply}
use v2ray_operator.Cluster.Requests.{
  History, InboundOperation, OutboundOperation, HandlerConfig, QueryStatsRequest,
  QueryStatsResponse, SysStatsResponse,
}

-- An inbound or outbound of a decoded v4 configuration: its tag, and what `Build` returns.
pub record Detour : Type 0 where
  pub tag : String
  pub build : Reply HandlerConfig

-- `v4.Config`
pub record V4Config : Type 0 where
  pub inbound_configs : List Detour
  pub outbound_configs : List Detour

pub record Env : Type 0 where
  -- `r.Get`, `r.Update`, `r.Status().Update`: a write answers with the object as stored.
  pub get_v2ray : History → ObjectKey → Reply V2ray
  pub update_v2ray : History → V2ray → Reply V2ray
  pub update_v2ray_status : History → V2ray → Reply V2ray
  pub get_user : History → ObjectKey → Reply V2rayUser
  pub update_user : History → V2rayUser → Reply V2rayUser
  pub update_user_status : History → V2rayUser → Reply V2rayUser
  pub get_client : History → ObjectKey → Reply V2rayClient
  pub update_client : History → V2rayClient → Reply V2rayClient
  pub update_client_status : History → V2rayClient → Reply V2rayClient
  pub get_deployment : History → ObjectKey → Reply Deployment
  pub create_deployment : History → Deployment → Reply Deployment
  pub update_deployment : History → Deployment → Reply Deployment
  pub get_service : History → ObjectKey → Reply Service
  pub get_node : History → ObjectKey → Reply Node
  -- `r.List` with a namespace and labels to match.
  pub list_services : History → String → Dict String → Reply (List Service)
  pub list_deployments : History → String → Dict String → Reply (List Deployment)
  pub list_pods : History → String → Dict String → Reply (List Pod)
  -- `uuid.New().String()` and `os.LookupEnv`
  pub new_uuid : History → String
  pub lookup_env : String → Option String
  -- The v2ray servers, by address.
  pub dial : History → String → Reply (Unit {0})
  pub alter_inbound : History → String → String → InboundOperation → Reply (Unit {0})
  pub add_inbound : History → String → HandlerConfig → Reply (Unit {0})
  pub remove_inbound : History → String → String → Reply (Unit {0})
  pub add_outbound : History → String → HandlerConfig → Reply (Unit {0})
  pub remove_outbound : History → String → String → Reply (Unit {0})
  pub alter_outbound : History → String → String → OutboundOperation → Reply (Unit {0})
  pub query_stats : History → String → QueryStatsRequest → Reply QueryStatsResponse
  pub get_sys_stats : History → String → Reply SysStatsResponse
  -- `json.Marshal` followed by `serial.DecodeJSONConfig`; either may fail.
  pub marshal_config : Option V2rayInstanceConfig → Reply String
  pub decode_json_config : String → Reply V4Config
  -- `meta.SetStatusCondition` and `controllerutil`
  pub set_status_condition : List Condition → Condition → List Condition
  pub contains_finalizer : List String → String → Bool
  pub add_finalizer : List String → String → List String × Bool
  pub remove_finalizer : List String → String → List String × Bool
  pub set_controller_reference : V2ray → Deployment → Reply Deployment
