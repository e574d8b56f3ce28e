-- ===== src/User/Finalize.antt =====
-- `doFinalizerOperationsForV2rayUser`: takes the user off every server that its node list names.
pub mod Atomic
pub mod Writes
pub mod Succeeds
use v2ray_operator.Prelude.{String, ◌<>◌, none, some, List, [], ◌∷◌, ◌++◌}
use v2ray_operator.Prelude.Maps.{Dict}
use v2ray_operator.Api.Core.{Service}
use v2ray_operator.Api.User.{V2rayNodeInfo, V2rayNodeList, V2rayUser}
use v2ray_operator.V2fly.Grpc.{alter_inbound, error_of}
use v2ray_operator.Cluster.Effect.{
  M, Outcome, done, failed, panicked, pure, fail, panic, ◌>>=◌, ◌>>◌,
}
use v2ray_operator.Cluster.Requests.{Account, add_user, remove_user}
use v2ray_operator.Cluster.Env.{Env}
use v2ray_operator.Cluster.Client
use v2ray_operator.User.Server.{
  v2ray_namespace, account_of, protocol_user, get_v2ray_grpc_client_from_svc,
}
use v2ray_operator.User.Rollback.{serve_each, deferred}

-- The two nested loops visit the entries of every region in turn.
unfoldable pub infos_of : Dict V2rayNodeList → List V2rayNodeInfo
infos_of [] = []
infos_of ((_, nl) ∷ nodes) = nl.info ++ infos_of nodes

module _ (E : Env) where
  -- One round of the loop.
  unfoldable pub remove_from_svc :
      String → String → V2rayNodeInfo → Unit {0} → M (Service × Unit {0})
  remove_from_svc tag email info _ = do
    svc ← Client.get_service E (record { namespace = v2ray_namespace; name = info.svc_name })
    cli ← get_v2ray_grpc_client_from_svc E svc
    alter_inbound E cli tag (remove_user email)
    pure (svc, tt)

  unfoldable pub deleting_event : V2rayUser → M (Unit {0})
  deleting_event cr = Client.record_event "Warning" "Deleting" (
      "V2rayUser name=" <> cr.metadata.name <> " is being deleted from the namespace "
      <> cr.metadata.namespace)

  -- The event stands before the deferred function, which does nothing when there is no error.
  unfoldable pub announce : V2rayUser → Outcome (Unit {0}) → M (Unit {0})
  unfolding deleting_event
  announce cr (done _) = deleting_event cr
  announce cr (failed e) = fail e
  announce cr (panicked p) = panic p

  -- The part after the switch over the inbound tag.
  unfoldable pub remove_account : V2rayUser → Account → M (Unit {0})
  unfolding announce
  remove_account cr account h =
      let tag = cr.spec.inbound_tag in
      let looped =
        serve_each (remove_from_svc tag cr.spec.user.email) (infos_of cr.spec.node_list) tt [] h in
      let ended = deferred E tag (add_user (protocol_user cr.spec.user account)) looped in
      announce cr ended.0 ended.1

  unfoldable pub do_finalizer_operations_for_v2ray_user : V2rayUser → M (Unit {0})
  do_finalizer_operations_for_v2ray_user cr = elim (account_of cr.spec.inbound_tag cr.spec.user) [
    | none ↦ fail (error_of "doFinalizerOperationsForV2rayUser: unsupported inbound tag")
    | some account ↦ remove_account cr account
  ]
