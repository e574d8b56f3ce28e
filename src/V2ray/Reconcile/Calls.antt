-- ===== src/V2ray/Reconcile/Calls.antt =====
-- The calls that the V2ray controller makes.
use v2ray_operator.Prelude.{String, List, [], ◌∷◌, Bool, true, false, none, some, Option}
use v2ray_operator.Prelude.Int.{ℤ}
use v2ray_operator.Prelude.Text.{split}
use v2ray_operator.Api.Meta.{ObjectKey}
use v2ray_operator.Api.V2ray.{V2ray}
use v2ray_operator.Api.Deployment.{Deployment}
use v2ray_operator.Cluster.Effect.{Reply, ok, err}
use v2ray_operator.Cluster.Requests.{Call, History}
use v2ray_operator.Cluster.Env.{Env}
use v2ray_operator.Cluster.Adds.{Adds}
use v2ray_operator.Cluster.Makes.{Makes, makes_rules}
use v2ray_operator.V2ray.Image.{second, labels_for_v2ray, image_tag, deployment_for_v2ray}
use v2ray_operator.V2ray.Reconcile.{
  init_status, ensure_finalizer, finalize, create_with, create, report_available, resized, resize,
  compare_size, deployed, ensure_deployment, settle_v2ray, reconcile_found, fetched, reconcile,
}

-- Its own objects, deployments and events.
abbrev pub by_v2ray : History → Call → Bool
by_v2ray h (Call.get_v2ray k) = true
by_v2ray h (Call.update_v2ray v) = true
by_v2ray h (Call.update_v2ray_status v) = true
by_v2ray h (Call.get_deployment k) = true
by_v2ray h (Call.create_deployment d) = true
by_v2ray h (Call.update_deployment d) = true
by_v2ray h (Call.record_event kind reason message) = true
by_v2ray h _ = false

module _ (E : Env) where
  init_status-Makes : (key : ObjectKey) (cr : V2ray) → Makes by_v2ray E none (init_status E key cr)
  unfolding init_status
  init_status-Makes key cr = search makes_rules

  finalize-Makes : (key : ObjectKey) (cr : V2ray) → Makes by_v2ray E none (finalize E key cr)
  unfolding finalize
  finalize-Makes key cr = search makes_rules depth 16

  ensure_finalizer-Makes : (cr : V2ray) → Makes by_v2ray E none (ensure_finalizer E cr)
  unfolding ensure_finalizer
  ensure_finalizer-Makes cr = search makes_rules depth 16

  second-Makes : (parts : List String) → Makes by_v2ray E none (second parts)
  unfolding second
  second-Makes [] = search makes_rules
  second-Makes (name ∷ []) = search makes_rules
  second-Makes (name ∷ tag ∷ parts) = search makes_rules

  image_tag-Makes : (image : Reply String) → Makes by_v2ray E none (image_tag image)
  unfolding image_tag
  image_tag-Makes (err e) = search makes_rules
  image_tag-Makes (ok image) = second-Makes (split b':' image)

  deployment-Makes : (cr : V2ray) → Makes by_v2ray E none (deployment_for_v2ray E cr)
  unfolding deployment_for_v2ray labels_for_v2ray
  deployment-Makes cr = search (makes_rules, image_tag-Makes) depth 16

  create_with-Makes :
      (cr : V2ray) (dep : Reply Deployment) → Makes by_v2ray E none (create_with E cr dep)
  unfolding create_with
  create_with-Makes cr (ok dep) = search makes_rules
  create_with-Makes cr (err e) = search makes_rules

  resized-Makes : (key : ObjectKey) (r : Reply Deployment) → Makes by_v2ray E none (resized E key r)
  unfolding resized
  resized-Makes key (ok d) = search makes_rules
  resized-Makes key (err e) = search makes_rules depth 16

  compare_size-Makes :
      (key : ObjectKey) (cr : V2ray) (found : Deployment) (replicas : Option ℤ)
      → Makes by_v2ray E none (compare_size E key cr found replicas)
  unfolding compare_size resize report_available
  compare_size-Makes key cr found none = search makes_rules depth 16
  compare_size-Makes key cr found (some n) = search (makes_rules, resized-Makes) depth 16

  deployed-Makes :
      (key : ObjectKey) (cr : V2ray) (found : Reply Deployment)
      → Makes by_v2ray E none (deployed E key cr found)
  unfolding deployed create
  deployed-Makes key cr (ok found) = compare_size-Makes key cr found found.replicas
  deployed-Makes key cr (err e) = search (makes_rules, deployment-Makes, create_with-Makes) depth 16

  settle-Makes :
      (key : ObjectKey) (kept : Option V2ray) → Makes by_v2ray E none (settle_v2ray E key kept)
  unfolding settle_v2ray ensure_deployment
  settle-Makes key none = search makes_rules
  settle-Makes key (some cr) = search (makes_rules, finalize-Makes, deployed-Makes) depth 16

  fetched-Makes :
      (key : ObjectKey) (found : Reply V2ray) → Makes by_v2ray E none (fetched E key found)
  unfolding fetched reconcile_found
  fetched-Makes key (ok cr) =
      search (makes_rules, init_status-Makes, ensure_finalizer-Makes, settle-Makes) depth 16
  fetched-Makes key (err e) = search makes_rules

  reconcile-Makes : (key : ObjectKey) → Makes by_v2ray E none (reconcile E key)
  unfolding reconcile
  reconcile-Makes key = search (makes_rules, fetched-Makes) depth 16

  -- Whatever the API server answers, a run of the V2ray controller reads and writes only V2ray
  -- objects and deployments and records events, and makes no other call.
  pub reconcile-by_v2ray : (key : ObjectKey) (h : History) → Adds by_v2ray h (reconcile E key h).1
  reconcile-by_v2ray key h = (reconcile-Makes key).at h tt
