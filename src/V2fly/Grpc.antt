-- ===== src/V2fly/Grpc.antt =====
-- internal/managers/v2fly/apis.go: the client of a v2ray server. A connection is known by the
-- address that it was dialled with.
pub mod Remove
pub mod Sends
pub mod Configs
pub mod Connects
pub mod Calm
use v2ray_operator.Prelude.{String, ◌<>◌, Bool, some, List, [], ◌∷◌, ◌==◌, is_empty, if◌then◌else◌}
use v2ray_operator.Prelude.Text.{contains}
use v2ray_operator.V2fly.Structs.{V2rayInstanceConfig}
use v2ray_operator.V2fly.Config.{V2rayConfig, server_addr, to_v2ray_v4_config}
use v2ray_operator.Cluster.Effect.{
  M, Error, Reply, ok, err, wrap, pure, fail, panic, lift, attempt, ◌>>=◌, ◌>>◌,
}
use v2ray_operator.Cluster.Requests.{
  InboundOperation, add_user, remove_user, OutboundOperation, HandlerConfig, QueryStatsRequest,
  QueryStatsResponse, SysStatsResponse,
}
use v2ray_operator.Cluster.Env.{Env, Detour}
use v2ray_operator.Cluster.Client

pub record V2rayGrpcApi : Type 0 where
  pub config : V2rayConfig

abbrev pub error_of : String → Error
error_of text = record { not_found = Bool.false; text = text }

connected : V2rayConfig → Reply (Unit {0}) → M V2rayGrpcApi
connected cfg (ok _) = pure (record { config = cfg })
connected cfg (err e) = panic ("failed to dial v2ray api server: " <> e.text)

-- The error text by which `AlterInbound` knows that the user is there.
abbrev pub already_exists : String → String
already_exists email = "User " <> email <> " already exists."

abbrev pub alter_failed : Error → Error
alter_failed = wrap "V2rayGrpcApi.AlterInbound failed to alter inbound"

unfoldable pub altered : InboundOperation → Reply (Unit {0}) → Reply (Unit {0})
altered op (ok _) = ok tt
altered (add_user u) (err e) =
    if contains e.text (already_exists u.email) then ok tt else err (alter_failed e)
altered (remove_user _) (err e) = err (alter_failed e)

module _ (E : Env) where
  -- `NewV2rayGrpcApi` panics where it cannot dial.
  unfoldable pub new_v2ray_grpc_api : V2rayConfig → M V2rayGrpcApi
  unfolding connected
  new_v2ray_grpc_api cfg = do r ← attempt (Client.dial E (server_addr cfg)); connected cfg r

  unfoldable pub alter_inbound : V2rayGrpcApi → String → InboundOperation → M (Unit {0})
  unfolding altered
  alter_inbound api tag op = do
    r ← attempt (Client.alter_inbound E (server_addr api.config) tag op)
    lift (altered op r)

  unfoldable pub alter_outbound : V2rayGrpcApi → String → OutboundOperation → M (Unit {0})
  alter_outbound api tag op = do
    r ← attempt (Client.alter_outbound E (server_addr api.config) tag op)
    elim r [
      | ok _ ↦ pure tt
      | err e ↦ fail (wrap "V2rayGrpcApi.AlterOutbound failed to alter inbound" e)
    ]

  unfoldable pub query_stats : V2rayGrpcApi → QueryStatsRequest → M QueryStatsResponse
  query_stats api r = Client.query_stats E (server_addr api.config) r

  unfoldable pub get_sys_stats : V2rayGrpcApi → M SysStatsResponse
  get_sys_stats api = Client.get_sys_stats E (server_addr api.config)

-- A failed step of one of the loops below, with its text in front.
unfoldable pub labelled {ℓ} : {A : Type ℓ} → String → M A → M A
labelled text m = do r ← attempt m; elim r [ ok a ↦ pure a | err e ↦ fail (wrap text e) ]

-- The tags of the inbounds or outbounds to remove; one that is empty stops the call at once.
unfoldable pub tags_of : String → List Detour → Reply (List String)
tags_of text [] = ok []
tags_of text (c ∷ cs) =
    let rest = tags_of text cs in
    if c.tag == ""
    then err (error_of text)
    else elim rest [ ok tags ↦ ok (c.tag ∷ tags) | err e ↦ err e ]

-- The four operations on whole configurations differ in the list that they read and in the request.
module _ (send : String → HandlerConfig → M (Unit {0})) (name : String) where
  unfoldable pub add_each : String → List Detour → M (Unit {0})
  add_each addr [] = pure tt
  add_each addr (c ∷ cs) = do
    built ← labelled (name <> " failed to build i conf") (lift c.build)
    labelled (name <> " failed to add inbound") (send addr built)
    add_each addr cs

module _ (send : String → String → M (Unit {0})) (text : String) where
  unfoldable pub remove_each : String → List String → M (Unit {0})
  remove_each addr [] = pure tt
  remove_each addr (t ∷ ts) = do labelled text (send addr t); remove_each addr ts

module _ (E : Env) where
  unfoldable pub add_inbound : V2rayGrpcApi → V2rayInstanceConfig → M (Unit {0})
  add_inbound api cfg = do
    c ← labelled "V2rayGrpcApi.ToV2rayV4Config error" (lift (to_v2ray_v4_config E (some cfg)))
    if is_empty c.inbound_configs
        then fail (error_of "no valid inbound found")
        else add_each (Client.add_inbound E) "V2rayGrpcApi.AddInbound" (server_addr api.config)
            c.inbound_configs

  unfoldable pub remove_inbound : V2rayGrpcApi → V2rayInstanceConfig → M (Unit {0})
  remove_inbound api cfg = do
    c ←
        labelled "V2rayGrpcApi.RemoveInbound to v4cfg error"
          (lift (to_v2ray_v4_config E (some cfg)))
    if is_empty c.inbound_configs
        then fail (error_of "V2rayGrpcApi.RemoveInbound no valid inbound found")
        else do
          tags ←
              lift
                (tags_of "V2rayGrpcApi.RemoveInbound empty inbound tag detected" c.inbound_configs)
          remove_each (Client.remove_inbound E)
              "V2rayGrpcApi.RemoveInbound failed to remove inbound" (server_addr api.config) tags

  unfoldable pub add_outbound : V2rayGrpcApi → V2rayInstanceConfig → M (Unit {0})
  add_outbound api cfg = do
    c ← labelled "V2rayGrpcApi.ToV2rayV4Config error" (lift (to_v2ray_v4_config E (some cfg)))
    if is_empty c.outbound_configs
        then fail (error_of "no valid inbound found")
        else add_each (Client.add_outbound E) "V2rayGrpcApi.AddOutbound" (server_addr api.config)
            c.outbound_configs

  unfoldable pub remove_outbound : V2rayGrpcApi → V2rayInstanceConfig → M (Unit {0})
  remove_outbound api cfg = do
    c ←
        labelled "V2rayGrpcApi.RemoveOutbound to v4cfg error"
          (lift (to_v2ray_v4_config E (some cfg)))
    if is_empty c.outbound_configs
        then fail (error_of "V2rayGrpcApi.RemoveOutbound no valid inbound found")
        else do
          tags ←
              lift (
                tags_of "V2rayGrpcApi.RemoveOutbound empty inbound tag detected" c.outbound_configs)
          remove_each (Client.remove_outbound E)
              "V2rayGrpcApi.RemoveOutbound failed to remove inbound" (server_addr api.config) tags
