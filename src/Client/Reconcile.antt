-- ===== src/Client/Reconcile.antt =====
-- `Reconcile` of internal/controller/v2rayclient_controller.go, in the order of its steps.
pub mod Apply
pub mod Calls
pub mod Deploys
pub mod Calm
use v2ray_operator.Prelude.{
  String, ◌<>◌, Bool, true, false, none, some, Option, List, [], ◌∷◌, is_empty, if◌then◌else◌,
}
use v2ray_operator.Api.Meta.{
  ObjectKey, Condition, ConditionStatus, condition_true, condition_unknown,
}
use v2ray_operator.Api.Core.{Service}
use v2ray_operator.Api.Client.{V2rayClient}
use v2ray_operator.V2fly.Structs.{V2rayInstanceConfig}
use v2ray_operator.V2fly.Config.{V2rayConfig, to_v2ray_v4_config}
use v2ray_operator.V2fly.Grpc.{new_v2ray_grpc_api, add_inbound, add_outbound}
use v2ray_operator.Cluster.Effect.{M, Reply, ok, err, pure, fail, panic, attempt, ◌>>=◌, ◌>>◌}
use v2ray_operator.Cluster.Env.{Env, V4Config}
use v2ray_operator.Cluster.Client
use v2ray_operator.User.Server.{v2ray_enable_label, v2ray_namespace}
use v2ray_operator.User.Reconcile.{
  ReconcileResult, empty_result, requeue_result, finalizer, type_available, type_degraded,
}
use v2ray_operator.Client.Elect.{elect_services_from_affinity, svc_list_to_v2fly_config}

abbrev pub is_deleted : V2rayClient → Bool
is_deleted cr = elim cr.metadata.deletion_timestamp [ none ↦ false | some _ ↦ true ]

-- `svcs[i]` for the rounds of a loop: the services that are left.
unfoldable pub next_svc : List Service → M (Service × List Service)
next_svc [] = panic "index out of range"
next_svc (svc ∷ svcs) = pure (svc, svcs)

module _ (E : Env) where
  unfoldable pub with_condition :
      String → ConditionStatus → String → String → V2rayClient → V2rayClient
  with_condition kind status reason message cr =
      let c : Condition = record {
        kind = kind;
        status = status;
        reason = reason;
        message = message;
      } in
      record cr {
        status = record cr.status { conditions = E.set_status_condition cr.status.conditions c };
      }

  abbrev pub with_finalizers : V2rayClient → List String → V2rayClient
  with_finalizers cr fs = record cr { metadata = record cr.metadata { finalizers = fs } }

  unfoldable pub apply_inbounds : V2rayConfig → V2rayInstanceConfig → M (Unit {0})
  apply_inbounds target cfg = do
    cli ← new_v2ray_grpc_api E target
    if is_empty cfg.inbounds then pure tt else add_inbound E cli cfg
    if is_empty cfg.outbounds then pure tt else add_outbound E cli cfg

  -- `applyV2rayClientConfig`. It does not use the service; a nil configuration panics behind the
  -- connection.
  unfoldable pub apply_v2ray_client_config :
      Service → Option V2rayInstanceConfig → V2rayConfig → M (Unit {0})
  apply_v2ray_client_config svc (some cfg) target = apply_inbounds target cfg
  apply_v2ray_client_config svc none target =
      new_v2ray_grpc_api E target >> panic "invalid memory address or nil pointer dereference"

  -- The loop over the configurations, with the services that its index has not reached.
  unfoldable pub apply_each :
      Option V2rayInstanceConfig → List Service → List V2rayConfig → M (Unit {0})
  apply_each cfg svcs [] = pure tt
  apply_each cfg svcs (c ∷ cs) = do
    (svc, svcs) ← next_svc svcs
    apply_v2ray_client_config svc cfg c
    apply_each cfg svcs cs

  -- An election that failed leaves a nil list, and its error is dropped.
  unfoldable pub elected_or_nil : Reply (List Service) → List Service
  elected_or_nil (ok svcs) = svcs
  elected_or_nil (err e) = []

  unfoldable pub deploy : V2rayClient → M (Unit {0})
  deploy cr = do
    Client.list_services E v2ray_namespace ((v2ray_enable_label, "true") ∷ [])
    r ← attempt (elect_services_from_affinity E cr.spec.affinity)
    let svcs = elected_or_nil r
    apply_each cr.spec.v2ray svcs (svc_list_to_v2fly_config svcs)

  unfoldable pub init_status : ObjectKey → V2rayClient → M V2rayClient
  init_status key cr =
      if is_empty cr.status.conditions
      then Client.update_client_status E (
          with_condition type_available condition_unknown "Reconciling" "Starting reconciliation"
            cr)
        >> Client.get_client E key
      else pure cr

  -- The first test of the status keeps the object that the update answers with.
  unfoldable pub first_status : V2rayClient → M V2rayClient
  first_status cr =
      if is_empty cr.status.conditions
      then Client.update_client_status E (
          with_condition type_available condition_unknown "Reconciling" "Starting reconciliation"
            cr)
      else pure cr

  -- `none` asks for another run.
  unfoldable pub ensure_finalizer : V2rayClient → M (Option V2rayClient)
  ensure_finalizer cr =
      if E.contains_finalizer cr.metadata.finalizers finalizer
      then pure (some cr)
      else let added = E.add_finalizer cr.metadata.finalizers finalizer in
        if added.1
        then Client.update_client E (with_finalizers cr added.0) >>= (λ cr. pure (some cr))
        else pure none

  -- The finalizer operations of this resource do nothing.
  unfoldable pub do_finalizer_operations_for_v2ray_cli : V2rayClient → M (Unit {0})
  do_finalizer_operations_for_v2ray_cli cr = pure tt

  unfoldable pub finalize : ObjectKey → V2rayClient → M ReconcileResult
  unfolding do_finalizer_operations_for_v2ray_cli
  finalize key cr = do
    cr ← Client.update_client_status E (
        with_condition type_degraded condition_unknown "Finalizing"
          ("Performing finalizer operations for the custom resource: " <> cr.metadata.name <> " ")
          cr)
    do_finalizer_operations_for_v2ray_cli cr
    cr ← Client.get_client E key
    cr ← Client.update_client_status E (
        with_condition type_degraded condition_true "Finalizing"
          ("Finalizer operations for custom resource " <> cr.metadata.name
            <> " name were successfully accomplished")
          cr)
    let removed = E.remove_finalizer cr.metadata.finalizers finalizer
    if removed.1
        then Client.update_client E (with_finalizers cr removed.0) >> pure empty_result
        else pure requeue_result

  unfoldable pub report_available : V2rayClient → M ReconcileResult
  report_available cr =
      Client.update_client_status E (
        with_condition type_available condition_true "Reconciling"
          ("Deployment for custom resource (" <> cr.metadata.name <> ") created successfully") cr)
      >> pure empty_result

  unfoldable pub settle_client : ObjectKey → Option V2rayClient → M ReconcileResult
  settle_client key none = pure requeue_result
  settle_client key (some cr) =
      if is_deleted cr
      then if E.contains_finalizer cr.metadata.finalizers finalizer
        then finalize key cr
        else pure empty_result
      else report_available cr

  -- The part marked official: the object is read once more.
  unfoldable pub refetched : ObjectKey → Reply V2rayClient → M ReconcileResult
  refetched key (err e) = if e.not_found then pure empty_result else fail e
  refetched key (ok cr) = do
    cr ← init_status key cr
    kept ← ensure_finalizer cr
    settle_client key kept

  -- A configuration that cannot be converted ends the run; the condition that says so is set on the
  -- object in memory alone.
  unfoldable pub with_v4 : ObjectKey → V2rayClient → Reply V4Config → M ReconcileResult
  with_v4 key cr (err e) = pure empty_result
  with_v4 key cr (ok v4) = do
    deploy cr
    again ← attempt (Client.get_client E key)
    refetched key again

  unfoldable pub fetched : ObjectKey → Reply V2rayClient → M ReconcileResult
  fetched key (err e) = if e.not_found then pure empty_result else fail e
  fetched key (ok cr) = do cr ← first_status cr; with_v4 key cr (to_v2ray_v4_config E cr.spec.v2ray)

  unfoldable pub reconcile : ObjectKey → M ReconcileResult
  reconcile key = do found ← attempt (Client.get_client E key); fetched key found
