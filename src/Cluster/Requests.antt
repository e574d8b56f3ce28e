-- ===== src/Cluster/Requests.antt =====
-- The requests that leave the program, with the arguments that they carry.
use v2ray_operator.Prelude.{ℕ, String, List}
use v2ray_operator.Prelude.Maps.{Dict}
use v2ray_operator.Api.Meta.{ObjectKey}
use v2ray_operator.Api.Deployment.{Deployment}
use v2ray_operator.Api.V2ray.{V2ray}
use v2ray_operator.Api.User.{V2rayUser}
use v2ray_operator.Api.Client.{V2rayClient}

-- `vless.Account` and `vmess.Account`, as far as the source fills them in.
pub data Account : Type 0 where
  vless : String → Account
  vmess : String → ℕ → Account

-- `protocol.User`
pub record ProtocolUser : Type 0 where
  pub level : ℕ
  pub email : String
  pub account : Account

-- The operations that the source passes to `AlterInbound`.
pub data InboundOperation : Type 0 where
  add_user : ProtocolUser → InboundOperation
  remove_user : String → InboundOperation

-- What `AlterOutbound` sends on; the source itself makes none.
pub record OutboundOperation : Type 0 where
  pub payload : List ℕ

-- `statsService.QueryStatsRequest`, and the answers of the statistics service, passed on unread.
pub record QueryStatsRequest : Type 0 where
  pub payload : List ℕ

pub record QueryStatsResponse : Type 0 where
  pub payload : List ℕ

pub record SysStatsResponse : Type 0 where
  pub payload : List ℕ

-- What `Build` makes of an inbound or outbound of a v4 configuration; it is only sent on.
pub record HandlerConfig : Type 0 where
  pub handler_tag : String
  pub payload : List ℕ

pub data Call : Type 0 where
  get_v2ray : ObjectKey → Call
  update_v2ray update_v2ray_status : V2ray → Call
  get_user : ObjectKey → Call
  update_user update_user_status : V2rayUser → Call
  get_client : ObjectKey → Call
  update_client update_client_status : V2rayClient → Call
  get_deployment : ObjectKey → Call
  create_deployment update_deployment : Deployment → Call
  get_service : ObjectKey → Call
  get_node : ObjectKey → Call
  list_services : String → Dict String → Call
  list_deployments : String → Dict String → Call
  list_pods : String → Dict String → Call
  record_event : String → String → String → Call
  new_uuid : Call
  dial : String → Call
  alter_inbound : String → String → InboundOperation → Call
  add_inbound : String → HandlerConfig → Call
  remove_inbound : String → String → Call
  add_outbound : String → HandlerConfig → Call
  remove_outbound : String → String → Call
  alter_outbound : String → String → OutboundOperation → Call
  query_stats : String → QueryStatsRequest → Call
  get_sys_stats : String → Call

-- The calls made so far, the latest first.
abbrev pub History : Type 0
History = List Call
