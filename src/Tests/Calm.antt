-- ===== src/Tests/Calm.antt =====
-- Runs that do not panic, and whole runs of the V2ray controller.
use v2ray_operator.Prelude.{true, false, none, some, [], ◌≡◌, refl}
use v2ray_operator.Prelude.Int.{pos}
use v2ray_operator.Prelude.Text.{contains, has_prefix, split}
use mathlib.Core.Path.{subst}
use v2ray_operator.Api.User.{V2rayUser}
use v2ray_operator.Api.Deployment.{Deployment}
use v2ray_operator.Api.Meta.{ObjectKey}
use v2ray_operator.Cluster.Effect.{Outcome, done, ok, ◌>>=◌}
use v2ray_operator.Cluster.Requests.{History}
use v2ray_operator.Cluster.Env.{Env}
use v2ray_operator.Cluster.Trace.{panics}
use v2ray_operator.User.Reconcile
use v2ray_operator.User.Reconcile.{ReconcileResult, empty_result}
use v2ray_operator.User.Calm.{AllSelect, HasSelectors}
use v2ray_operator.User.Calm.Runs.{Sized, ReadsSized, panics-reconcile_user}
use v2ray_operator.Client.Reconcile as ClientReconcile
use v2ray_operator.Client.Reconcile.Calm.{Complete, KeepsComplete, panics-reconcile_client}
use v2ray_operator.V2ray.Reconcile as V2rayReconcile
use v2ray_operator.V2ray.Reconcile.{
  own_key, init_status, ensure_finalizer, settle_v2ray, reconcile_found, fetched, ensure_deployment,
  deployed, create, create_with, after_a_minute,
}
use v2ray_operator.V2ray.Image.{
  image_for_v2ray, image_tag, labels_for_v2ray, second, new_deployment, deployment_for_v2ray,
}
use v2ray_operator.V2ray.Reconcile.Calm.{HasVersion, HasReplicas, panics-reconcile}
use v2ray_operator.V2ray.Reconcile.Stored.{OfSize, stored, deployment_writes}
use v2ray_operator.V2ray.Reconcile.Whole.{Asks, KeepsAsking, AddsFinalizer, reconcile-converges}
use v2ray_operator.Tests.World.{ok_eq, world, steady, user, v2ray, client, deployment}
use v2ray_operator.Tests.Users.{asked}
use v2ray_operator.Tests.Resources.{steady-KeepsDeployment}

some_eq : {A : Type 0} {a b : A} → some a ≡ some b → a ≡ b
some_eq same = cc

abbrev key : ObjectKey
key = record { namespace = "vpn"; name = "edge" }

-- The deployment is there.
abbrev serving : Env
serving = record world { get_deployment = λ h k. ok deployment }

serving-HasVersion : HasVersion serving
unfolding contains has_prefix
serving-HasVersion image named = subst (λ i. contains i ":" ≡ true) (some_eq named) refl

serving-HasReplicas : HasReplicas serving
serving-HasReplicas h k d answer =
    (pos 1, subst (λ (e : Deployment). e.replicas ≡ some (pos 1)) (ok_eq answer) refl)

panics-reconcile_example : panics (V2rayReconcile.reconcile serving key []).0 ≡ false
panics-reconcile_example = panics-reconcile serving serving-HasVersion serving-HasReplicas key []

-- Users ask for services of two regions.
abbrev regional : Env
regional = record world { get_user = λ h k. ok (user asked) }

regional-ReadsSized : ReadsSized regional
regional-ReadsSized h k u answer =
    subst (λ (v : V2rayUser). Sized v.spec.node_list) (ok_eq answer) ((_, refl), ((_, refl), tt))

regional-HasSelectors : HasSelectors regional
regional-HasSelectors h ns ls ds answer = subst AllSelect (ok_eq answer) ((_, refl), tt)

panics-reconcile_user_example : panics (Reconcile.reconcile regional key []).0 ≡ false
panics-reconcile_user_example =
    panics-reconcile_user regional (λ h addr. refl) regional-HasSelectors regional-ReadsSized key []

steady-KeepsComplete : KeepsComplete steady
steady-KeepsComplete =
    let complete : Complete client = ((_, refl), (_, refl)) in
    (
      λ h k c answer. subst Complete (ok_eq answer) complete,
      λ h c c' answer. subst Complete (ok_eq answer) complete,
    )

panics-reconcile_client_example : panics (ClientReconcile.reconcile steady key []).0 ≡ false
panics-reconcile_client_example =
    panics-reconcile_client steady (λ h addr. refl) steady-KeepsComplete key []

steady-KeepsAsking : KeepsAsking steady key (pos 3)
steady-KeepsAsking =
    let asks : Asks key (pos 3) v2ray = record { named = refl; sized = refl; kept = refl } in
    record {
      reads = λ h cr answer. subst (Asks key (pos 3)) (ok_eq answer) asks;
      exists = λ h e answer. cc;
      writes = λ h cr cr' answer. subst (Asks key (pos 3)) (ok_eq answer) asks;
    }

steady-AddsFinalizer : AddsFinalizer steady
steady-AddsFinalizer fs lacking = refl

abbrev run : Outcome ReconcileResult × History
run = V2rayReconcile.reconcile steady key []

run_done : run ≡ (done after_a_minute, run.1)
unfolding V2rayReconcile.reconcile fetched reconcile_found init_status ensure_finalizer settle_v2ray
    ensure_deployment deployed create create_with deployment_for_v2ray labels_for_v2ray image_tag
    image_for_v2ray new_deployment second split ◌>>=◌
run_done = refl

reconcile-converges_example :
    OfSize (pos 3) (stored steady key none run.1)
    × (deployment_writes (V2rayReconcile.reconcile steady key run.1).1 ≡ deployment_writes run.1)
reconcile-converges_example =
    reconcile-converges steady key (pos 3) none steady-KeepsAsking steady-AddsFinalizer
      (steady-KeepsDeployment key) refl [] run_done
