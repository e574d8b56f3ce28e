-- ===== src/User/Reconcile.antt =====
-- `Reconcile` of internal/controller/v2rayuser_controller.go, in the order of its steps. An `err`
-- that it returns is `failed`; the result next to an error is always the empty one.
pub mod Release
pub mod Stuck
pub mod Resync
pub mod Calls
pub mod Frees
use v2ray_operator.Prelude.{
  String, ◌<>◌, Bool, true, false, not, Option, none, some, List, [], ◌∷◌, ◌==◌, length, is_empty,
  if◌then◌else◌,
}
use v2ray_operator.Prelude.Int.{ℤ, pos}
use v2ray_operator.Prelude.Text.{itoa}
use v2ray_operator.Api.Meta.{
  ObjectKey, Condition, ConditionStatus, condition_true, condition_false, condition_unknown,
}
use v2ray_operator.Api.Core.{Service}
use v2ray_operator.Api.User.{V2rayUser}
use v2ray_operator.Cluster.Effect.{M, Error, Reply, ok, err, pure, fail, attempt, ◌>>=◌, ◌>>◌}
use v2ray_operator.Cluster.Env.{Env}
use v2ray_operator.Cluster.Client
use v2ray_operator.User.Elect.{defaulted, elect_services_from_affinity}
use v2ray_operator.User.Add.{Added, add_user_to_v2ray_svc_list}
use v2ray_operator.User.Finalize.{do_finalizer_operations_for_v2ray_user}

-- `ctrl.Result`; the delay in seconds.
pub record ReconcileResult : Type 0 where
  pub requeue : Bool
  pub requeue_after : ℤ

abbrev pub empty_result : ReconcileResult
empty_result = record { requeue = false; requeue_after = pos 0 }

abbrev pub requeue_result : ReconcileResult
requeue_result = record { requeue = true; requeue_after = pos 0 }

abbrev pub finalizer : String
finalizer = "vpn.hdcjh.xyz/finalizer"

abbrev pub type_available : String
type_available = "Available"

abbrev pub type_degraded : String
type_degraded = "Degraded"

abbrev pub is_deleted : V2rayUser → Bool
is_deleted cr = elim cr.metadata.deletion_timestamp [ none ↦ false | some _ ↦ true ]

module _ (E : Env) where
  -- `meta.SetStatusCondition` on the object in memory.
  unfoldable pub with_condition : String → ConditionStatus → String → String → V2rayUser → V2rayUser
  with_condition kind status reason message cr =
      let c : Condition = record {
        kind = kind;
        status = status;
        reason = reason;
        message = message;
      } in
      record cr { status = record { conditions = E.set_status_condition cr.status.conditions c } }

  abbrev pub with_finalizers : V2rayUser → List String → V2rayUser
  with_finalizers cr fs = record cr { metadata = record cr.metadata { finalizers = fs } }

  -- Sets the status to unknown where there is none.
  unfoldable pub init_status : ObjectKey → V2rayUser → M V2rayUser
  init_status key cr =
      if is_empty cr.status.conditions
      then (do
        Client.update_user_status E (
            with_condition type_available condition_unknown "Reconciling" "Starting reconciliation"
              cr)
        Client.get_user E key)
      else pure cr

  -- Makes up an id where there is none, and stores and reads the object either way.
  unfoldable pub ensure_id : ObjectKey → V2rayUser → M V2rayUser
  ensure_id key cr = do
    id ← if cr.spec.user.id == "" then Client.new_uuid E else pure cr.spec.user.id
    Client.update_user E
        (record cr { spec = record cr.spec { user = record cr.spec.user { id = id } } })
    Client.get_user E key

  unfoldable pub report_no_node : V2rayUser → M ReconcileResult
  report_no_node cr = do
    Client.update_user_status E (
        with_condition type_available condition_false "NoNodeElected"
          "No node elected from affinity" cr)
    pure empty_result

  unfoldable pub report_add_failed : Error → V2rayUser → M ReconcileResult
  report_add_failed e cr = do
    Client.update_user_status E (
        with_condition type_available condition_false "V2raySvcAddFailed"
          ("Failed to add user to v2ray svc list: " <> e.text) cr)
    pure empty_result

  abbrev pub added_event : V2rayUser → M (Unit {0})
  added_event cr = Client.record_event "Warning" "V2raySvcAdded" (
      "V2ray Svc Grpc call success, " <> cr.metadata.name
      <> " v2rayuser is being added to the server, namespace " <> cr.metadata.namespace)

  -- The object as the finalizer operations begin.
  unfoldable pub finalizing : V2rayUser → V2rayUser
  finalizing cr =
      with_condition type_degraded condition_unknown "Finalizing"
        ("Performing finalizer operations for the custom resource: " <> cr.metadata.name <> " ") cr

  -- The steps after the finalizer operations, which end with the removal of the finalizer.
  unfoldable pub release : ObjectKey → M ReconcileResult
  release key = do
    cr ← Client.get_user E key
    cr ← Client.update_user_status E (
        with_condition type_degraded condition_true "Finalizing"
          ("Finalizer operations for custom resource " <> cr.metadata.name
            <> " name were successfully accomplished")
          cr)
    let removed = E.remove_finalizer cr.metadata.finalizers finalizer
    if removed.1
        then Client.update_user E (with_finalizers cr removed.0) >> pure empty_result
        else pure requeue_result

  -- Removes the finalizer of a deleted object, after the operations that it stands for.
  unfoldable pub finalize : ObjectKey → V2rayUser → M ReconcileResult
  finalize key cr = do
    cr ← Client.update_user_status E (finalizing cr)
    do_finalizer_operations_for_v2ray_user E cr
    release key

  unfoldable pub report_available : V2rayUser → M ReconcileResult
  report_available cr = do
    Client.update_user_status E (
        with_condition type_available condition_true "Reconciling"
          ("Deployment for custom resource ("
            <> cr.metadata.name
            <> ") with "
            <> itoa (pos (length cr.spec.node_list))
            <> " replicas created successfully")
          cr)
    pure empty_result

  -- From the test of the deletion timestamp on.
  unfoldable pub settle_user : ObjectKey → V2rayUser → M ReconcileResult
  settle_user key cr =
      if is_deleted cr
      then if E.contains_finalizer cr.metadata.finalizers finalizer
        then finalize key cr
        else pure empty_result
      else report_available cr

  -- From the test for the finalizer on.
  unfoldable pub add_finalizer_then_settle : ObjectKey → V2rayUser → M ReconcileResult
  add_finalizer_then_settle key cr =
      if E.contains_finalizer cr.metadata.finalizers finalizer then settle_user key cr else do
        let added = E.add_finalizer cr.metadata.finalizers finalizer
        if added.1
            then (do cr ← Client.update_user E (with_finalizers cr added.0); settle_user key cr)
            else pure requeue_result

  unfoldable pub after_add : ObjectKey → Added → M ReconcileResult
  after_add key added = elim added.error [
    | some e ↦ report_add_failed e added.user
    | none ↦ added_event added.user >> add_finalizer_then_settle key added.user
  ]

  -- From the election on; the election has set the default sizes of the object in memory.
  unfoldable pub serve_user : ObjectKey → V2rayUser → M ReconcileResult
  serve_user key cr = do
    svcs ← elect_services_from_affinity E cr.spec.node_list
    let cr' : V2rayUser = record cr {
      spec = record cr.spec { node_list = defaulted cr.spec.node_list };
    }
    if is_empty svcs
        then report_no_node cr'
        else do added ← add_user_to_v2ray_svc_list E cr' svcs; after_add key added

  unfoldable pub reconcile_found : ObjectKey → V2rayUser → M ReconcileResult
  reconcile_found key cr = do cr ← init_status key cr; cr ← ensure_id key cr; serve_user key cr

  -- The first read decides: an object that is gone ends the run.
  unfoldable pub fetched : ObjectKey → Reply V2rayUser → M ReconcileResult
  fetched key (ok cr) = reconcile_found key cr
  fetched key (err e) = if e.not_found then pure empty_result else fail e

  unfoldable pub reconcile : ObjectKey → M ReconcileResult
  reconcile key = do found ← attempt (Client.get_user E key); fetched key found
