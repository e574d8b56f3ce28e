-- ===== src/V2ray/Reconcile.antt =====
-- `Reconcile` of internal/controller/v2ray_controller.go, in the order of its steps.
pub mod Stored
pub mod Converge
pub mod Calls
pub mod Calm
pub mod Settles
pub mod Whole
use v2ray_operator.Prelude.{
  String, ◌<>◌, Bool, true, false, not, ◌&&◌, none, some, Option, List, is_empty, if◌then◌else◌,
}
use v2ray_operator.Prelude.Int.{ℤ, pos, eqb_ℤ}
use v2ray_operator.Prelude.Text.{itoa}
use v2ray_operator.Api.Meta.{
  ObjectKey, Condition, ConditionStatus, condition_true, condition_false, condition_unknown,
}
use v2ray_operator.Api.Deployment.{Deployment}
use v2ray_operator.Api.V2ray.{V2ray}
use v2ray_operator.Cluster.Effect.{
  M, Error, Reply, ok, err, pure, fail, panic, attempt, ◌>>=◌, ◌>>◌,
}
use v2ray_operator.Cluster.Env.{Env}
use v2ray_operator.Cluster.Client
use v2ray_operator.User.Reconcile.{
  ReconcileResult, empty_result, requeue_result, finalizer, type_available, type_degraded,
}
use v2ray_operator.V2ray.Image.{deployment_for_v2ray}

abbrev pub is_deleted : V2ray → Bool
is_deleted cr = elim cr.metadata.deletion_timestamp [ none ↦ false | some _ ↦ true ]

-- `RequeueAfter: time.Minute`
abbrev pub after_a_minute : ReconcileResult
after_a_minute = record { requeue = false; requeue_after = pos 60 }

abbrev pub own_key : V2ray → ObjectKey
own_key cr = record { namespace = cr.metadata.namespace; name = cr.metadata.name }

module _ (E : Env) where
  unfoldable pub with_condition : String → ConditionStatus → String → String → V2ray → V2ray
  with_condition kind status reason message cr =
      let c : Condition = record {
        kind = kind;
        status = status;
        reason = reason;
        message = message;
      } in
      record cr { status = record { conditions = E.set_status_condition cr.status.conditions c } }

  abbrev pub with_finalizers : V2ray → List String → V2ray
  with_finalizers cr fs = record cr { metadata = record cr.metadata { finalizers = fs } }

  unfoldable pub init_status : ObjectKey → V2ray → M V2ray
  init_status key cr =
      if is_empty cr.status.conditions
      then Client.update_v2ray_status E (
          with_condition type_available condition_unknown "Reconciling" "Starting reconciliation"
            cr)
        >> Client.get_v2ray E key
      else pure cr

  -- `none` asks for another run.
  unfoldable pub ensure_finalizer : V2ray → M (Option V2ray)
  ensure_finalizer cr =
      if E.contains_finalizer cr.metadata.finalizers finalizer
      then pure (some cr)
      else let added = E.add_finalizer cr.metadata.finalizers finalizer in
        if added.1
        then Client.update_v2ray E (with_finalizers cr added.0) >>= (λ cr. pure (some cr))
        else pure none

  abbrev pub deleting_event : V2ray → M (Unit {0})
  deleting_event cr = Client.record_event "Warning" "Deleting" (
      "Custom Resource " <> cr.metadata.name <> " is being deleted from the namespace "
      <> cr.metadata.namespace)

  unfoldable pub finalize : ObjectKey → V2ray → M ReconcileResult
  finalize key cr = do
    cr ← Client.update_v2ray_status E (
        with_condition type_degraded condition_unknown "Finalizing"
          ("Performing finalizer operations for the custom resource: " <> cr.metadata.name <> " ")
          cr)
    deleting_event cr
    cr ← Client.get_v2ray E key
    cr ← Client.update_v2ray_status E (
        with_condition type_degraded condition_true "Finalizing"
          ("Finalizer operations for custom resource " <> cr.metadata.name
            <> " name were successfully accomplished")
          cr)
    let removed = E.remove_finalizer cr.metadata.finalizers finalizer
    if removed.1
        then Client.update_v2ray E (with_finalizers cr removed.0) >> pure empty_result
        else pure requeue_result

  -- The deployment could not be put together: the status says so, and the error is returned.
  unfoldable pub create_with : V2ray → Reply Deployment → M ReconcileResult
  create_with cr (ok dep) = Client.create_deployment E dep >> pure after_a_minute
  create_with cr (err e) =
      Client.update_v2ray_status E (
        with_condition type_available condition_false "Reconciling"
          ("Failed to create Deployment for the custom resource (" <> cr.metadata.name <> "): ("
            <> e.text <> ")")
          cr)
      >> fail e

  unfoldable pub create : V2ray → M ReconcileResult
  create cr = do dep ← attempt (deployment_for_v2ray E cr); create_with cr dep

  unfoldable pub report_available : V2ray → M ReconcileResult
  report_available cr =
      Client.update_v2ray_status E (
        with_condition type_available condition_true "Reconciling"
          ("Deployment for custom resource ("
            <> cr.metadata.name
            <> ") with "
            <> itoa cr.spec.size
            <> " replicas created successfully")
          cr)
      >> pure empty_result

  unfoldable pub resized : ObjectKey → Reply Deployment → M ReconcileResult
  resized key (ok _) = pure requeue_result
  resized key (err e) = do
    cr ← Client.get_v2ray E key
    Client.update_v2ray_status E (
        with_condition type_available condition_false "Resizing"
          ("Failed to update the size for the custom resource (" <> cr.metadata.name <> "): ("
            <> e.text <> ")")
          cr)
    fail e

  unfoldable pub resize : ObjectKey → V2ray → Deployment → M ReconcileResult
  resize key cr found = do
    r ← attempt (Client.update_deployment E (record found { replicas = some cr.spec.size }))
    resized key r

  -- The comparison of the size; the replicas are read only where the size is not 0.
  unfoldable pub compare_size : ObjectKey → V2ray → Deployment → Option ℤ → M ReconcileResult
  compare_size key cr found none =
      if eqb_ℤ cr.spec.size (pos 0)
      then report_available cr
      else panic "invalid memory address or nil pointer dereference"
  compare_size key cr found (some replicas) =
      if not (eqb_ℤ cr.spec.size (pos 0)) && not (eqb_ℤ replicas cr.spec.size)
      then resize key cr found
      else report_available cr

  unfoldable pub deployed : ObjectKey → V2ray → Reply Deployment → M ReconcileResult
  deployed key cr (ok found) = compare_size key cr found found.replicas
  deployed key cr (err e) = if e.not_found then create cr else fail e

  unfoldable pub ensure_deployment : ObjectKey → V2ray → M ReconcileResult
  ensure_deployment key cr = do
    found ← attempt (Client.get_deployment E (own_key cr))
    deployed key cr found

  -- From the test of the deletion timestamp on.
  unfoldable pub settle_v2ray : ObjectKey → Option V2ray → M ReconcileResult
  settle_v2ray key none = pure requeue_result
  settle_v2ray key (some cr) =
      if is_deleted cr
      then if E.contains_finalizer cr.metadata.finalizers finalizer
        then finalize key cr
        else pure empty_result
      else ensure_deployment key cr

  unfoldable pub reconcile_found : ObjectKey → V2ray → M ReconcileResult
  reconcile_found key cr = do
    cr ← init_status key cr
    kept ← ensure_finalizer cr
    settle_v2ray key kept

  unfoldable pub fetched : ObjectKey → Reply V2ray → M ReconcileResult
  fetched key (ok cr) = reconcile_found key cr
  fetched key (err e) = if e.not_found then pure empty_result else fail e

  unfoldable pub reconcile : ObjectKey → M ReconcileResult
  reconcile key = do found ← attempt (Client.get_v2ray E key); fetched key found
