-- ===== src/Cluster/Client.antt =====
-- The calls as actions. A controller makes no other.
use v2ray_operator.Prelude.{String, List, ◌∷◌}
use v2ray_operator.Prelude.Maps.{Dict}
use v2ray_operator.Api.Meta.{ObjectKey}
use v2ray_operator.Api.Core.{Service, Pod, Node}
use v2ray_operator.Api.Deployment.{Deployment}
use v2ray_operator.Api.V2ray.{V2ray}
use v2ray_operator.Api.User.{V2rayUser}
use v2ray_operator.Api.Client.{V2rayClient}
use v2ray_operator.Cluster.Requests.{
  Call, InboundOperation, OutboundOperation, HandlerConfig, QueryStatsRequest, QueryStatsResponse,
  SysStatsResponse,
}
use v2ray_operator.Cluster.Effect.{M, ok, request, done}
use v2ray_operator.Cluster.Env.{Env}

-- `Recorder.Event` reports no failure.
unfoldable pub record_event : String → String → String → M (Unit {0})
record_event kind reason message h = (done tt, Call.record_event kind reason message ∷ h)

module _ (E : Env) where
  abbrev pub get_v2ray : ObjectKey → M V2ray
  get_v2ray k = request (Call.get_v2ray k) (λ h. E.get_v2ray h k)

  abbrev pub update_v2ray : V2ray → M V2ray
  update_v2ray v = request (Call.update_v2ray v) (λ h. E.update_v2ray h v)

  abbrev pub update_v2ray_status : V2ray → M V2ray
  update_v2ray_status v = request (Call.update_v2ray_status v) (λ h. E.update_v2ray_status h v)

  abbrev pub get_user : ObjectKey → M V2rayUser
  get_user k = request (Call.get_user k) (λ h. E.get_user h k)

  abbrev pub update_user : V2rayUser → M V2rayUser
  update_user u = request (Call.update_user u) (λ h. E.update_user h u)

  abbrev pub update_user_status : V2rayUser → M V2rayUser
  update_user_status u = request (Call.update_user_status u) (λ h. E.update_user_status h u)

  abbrev pub get_client : ObjectKey → M V2rayClient
  get_client k = request (Call.get_client k) (λ h. E.get_client h k)

  abbrev pub update_client : V2rayClient → M V2rayClient
  update_client c = request (Call.update_client c) (λ h. E.update_client h c)

  abbrev pub update_client_status : V2rayClient → M V2rayClient
  update_client_status c = request (Call.update_client_status c) (λ h. E.update_client_status h c)

  abbrev pub get_deployment : ObjectKey → M Deployment
  get_deployment k = request (Call.get_deployment k) (λ h. E.get_deployment h k)

  abbrev pub create_deployment : Deployment → M Deployment
  create_deployment d = request (Call.create_deployment d) (λ h. E.create_deployment h d)

  abbrev pub update_deployment : Deployment → M Deployment
  update_deployment d = request (Call.update_deployment d) (λ h. E.update_deployment h d)

  abbrev pub get_service : ObjectKey → M Service
  get_service k = request (Call.get_service k) (λ h. E.get_service h k)

  abbrev pub get_node : ObjectKey → M Node
  get_node k = request (Call.get_node k) (λ h. E.get_node h k)

  abbrev pub list_services : String → Dict String → M (List Service)
  list_services ns labels =
      request (Call.list_services ns labels) (λ h. E.list_services h ns labels)

  abbrev pub list_deployments : String → Dict String → M (List Deployment)
  list_deployments ns labels =
      request (Call.list_deployments ns labels) (λ h. E.list_deployments h ns labels)

  abbrev pub list_pods : String → Dict String → M (List Pod)
  list_pods ns labels = request (Call.list_pods ns labels) (λ h. E.list_pods h ns labels)

  abbrev pub new_uuid : M String
  new_uuid = request Call.new_uuid (λ h. ok (E.new_uuid h))

  abbrev pub dial : String → M (Unit {0})
  dial addr = request (Call.dial addr) (λ h. E.dial h addr)

  abbrev pub alter_inbound : String → String → InboundOperation → M (Unit {0})
  alter_inbound addr tag op =
      request (Call.alter_inbound addr tag op) (λ h. E.alter_inbound h addr tag op)

  abbrev pub add_inbound : String → HandlerConfig → M (Unit {0})
  add_inbound addr c = request (Call.add_inbound addr c) (λ h. E.add_inbound h addr c)

  abbrev pub remove_inbound : String → String → M (Unit {0})
  remove_inbound addr tag =
      request (Call.remove_inbound addr tag) (λ h. E.remove_inbound h addr tag)

  abbrev pub add_outbound : String → HandlerConfig → M (Unit {0})
  add_outbound addr c = request (Call.add_outbound addr c) (λ h. E.add_outbound h addr c)

  abbrev pub remove_outbound : String → String → M (Unit {0})
  remove_outbound addr tag =
      request (Call.remove_outbound addr tag) (λ h. E.remove_outbound h addr tag)

  abbrev pub alter_outbound : String → String → OutboundOperation → M (Unit {0})
  alter_outbound addr tag op =
      request (Call.alter_outbound addr tag op) (λ h. E.alter_outbound h addr tag op)

  abbrev pub query_stats : String → QueryStatsRequest → M QueryStatsResponse
  query_stats addr r = request (Call.query_stats addr r) (λ h. E.query_stats h addr r)

  abbrev pub get_sys_stats : String → M SysStatsResponse
  get_sys_stats addr = request (Call.get_sys_stats addr) (λ h. E.get_sys_stats h addr)
