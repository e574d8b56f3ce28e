-- ===== src/V2ray/Reconcile/Calm.antt =====
-- When a run of the V2ray controller does not panic.
use v2ray_operator.Prelude.{String, true, false, none, some, Option, ◌≡◌, refl, ◌∙◌, arith}
use v2ray_operator.Prelude.Int.{ℤ}
use v2ray_operator.Prelude.Text.{contains}
use v2ray_operator.Api.Meta.{ObjectKey}
use v2ray_operator.Api.V2ray.{V2ray}
use v2ray_operator.Api.Deployment.{Deployment}
use v2ray_operator.Cluster.Effect.{Reply, ok, err, ◌>>=◌}
use v2ray_operator.Cluster.Requests.{History}
use v2ray_operator.Cluster.Env.{Env}
use v2ray_operator.Cluster.Trace.{panics}
use v2ray_operator.Cluster.Yields.{IfOk, Yields-attempt}
use v2ray_operator.Cluster.Calm.{Calm, Calm-bind-Yields, calm_rules}
use v2ray_operator.V2ray.Image.{labels_for_v2ray, image_for_v2ray, image_tag, deployment_for_v2ray}
use v2ray_operator.V2ray.Image.Panics.{panics-labels_for_v2ray}
use v2ray_operator.V2ray.Reconcile.{
  init_status, ensure_finalizer, finalize, create_with, create, report_available, resized, resize,
  compare_size, deployed, own_key, ensure_deployment, settle_v2ray, reconcile_found, fetched,
  reconcile,
}

-- The image names a version, if the environment names an image.
abbrev pub HasVersion : Env → Type 0
HasVersion E =
    (image : String) → E.lookup_env "V2RAY_IMAGE" ≡ some image → contains image ":" ≡ true

-- Deployments come back with a number of replicas, which the API server fills in.
abbrev pub HasReplicas : Env → Type 0
HasReplicas E =
    (h : History) (k : ObjectKey) (d : Deployment)
    → E.get_deployment h k ≡ ok d
    → (n : ℤ) × (d.replicas ≡ some n)

abbrev Replicated : Deployment → Type 0
Replicated d = (n : ℤ) × (d.replicas ≡ some n)

module _ (E : Env) where
  unversioned :
      (name : String) (h : History)
      → E.lookup_env "V2RAY_IMAGE" ≡ none
      → panics (labels_for_v2ray E name h).0 ≡ false
  unfolding labels_for_v2ray image_for_v2ray image_tag ◌>>=◌
  unversioned name h unset = ground arith

  labels-Calm : HasVersion E → (name : String) → Calm (labels_for_v2ray E name)
  labels-Calm versioned name = record { at = λ h. by_image h _ refl }
    where
      by_image :
          (h : History) (o : Option String)
          → E.lookup_env "V2RAY_IMAGE" ≡ o
          → panics (labels_for_v2ray E name h).0 ≡ false
      by_image h none unset = unversioned name h unset
      by_image h (some image) set =
          panics-labels_for_v2ray E name image h set ∙ rw (versioned image set) refl

  finalize-Calm : (key : ObjectKey) (cr : V2ray) → Calm (finalize E key cr)
  unfolding finalize
  finalize-Calm key cr = search calm_rules depth 16

  init_status-Calm : (key : ObjectKey) (cr : V2ray) → Calm (init_status E key cr)
  unfolding init_status
  init_status-Calm key cr = search calm_rules depth 12

  ensure_finalizer-Calm : (cr : V2ray) → Calm (ensure_finalizer E cr)
  unfolding ensure_finalizer
  ensure_finalizer-Calm cr = search calm_rules depth 12

  create_with-Calm : (cr : V2ray) (dep : Reply Deployment) → Calm (create_with E cr dep)
  unfolding create_with
  create_with-Calm cr (ok dep) = search calm_rules
  create_with-Calm cr (err e) = search calm_rules

  create-Calm : HasVersion E → (cr : V2ray) → Calm (create E cr)
  unfolding create deployment_for_v2ray
  create-Calm versioned cr = search (calm_rules, labels-Calm versioned, create_with-Calm) depth 16

  resized-Calm : (key : ObjectKey) (r : Reply Deployment) → Calm (resized E key r)
  unfolding resized
  resized-Calm key (ok d) = search calm_rules
  resized-Calm key (err e) = search calm_rules depth 16

  compare_size-Calm :
      (key : ObjectKey) (cr : V2ray) (found : Deployment) (o : Option ℤ) (n : ℤ)
      → o ≡ some n
      → Calm (compare_size E key cr found o)
  unfolding compare_size resize report_available
  compare_size-Calm key cr found o n sized = rw sized (search (calm_rules, resized-Calm) depth 16)

  deployed-Calm :
      HasVersion E
      → (key : ObjectKey) (cr : V2ray) (found : Reply Deployment) → IfOk Replicated found
      → Calm (deployed E key cr found)
  unfolding deployed
  deployed-Calm versioned key cr (ok found) (n, sized) =
      compare_size-Calm key cr found found.replicas n sized
  deployed-Calm versioned key cr (err e) known = search (calm_rules, create-Calm versioned) depth 12

  ensure-Calm :
      HasVersion E
      → HasReplicas E
      → (key : ObjectKey) (cr : V2ray) → Calm (ensure_deployment E key cr)
  unfolding ensure_deployment
  ensure-Calm versioned replicas key cr =
      Calm-bind-Yields _ _ (search calm_rules)
        (Yields-attempt _ _ (λ h d answer. replicas h (own_key cr) d answer))
        (λ found known. deployed-Calm versioned key cr found known)

  settle-Calm :
      HasVersion E
      → HasReplicas E
      → (key : ObjectKey) (kept : Option V2ray) → Calm (settle_v2ray E key kept)
  unfolding settle_v2ray
  settle-Calm versioned replicas key none = search calm_rules
  settle-Calm versioned replicas key (some cr) =
      search (calm_rules, finalize-Calm, ensure-Calm versioned replicas) depth 12

  fetched-Calm :
      HasVersion E
      → HasReplicas E
      → (key : ObjectKey) (found : Reply V2ray) → Calm (fetched E key found)
  unfolding fetched reconcile_found
  fetched-Calm versioned replicas key (ok cr) =
      search (calm_rules, init_status-Calm, ensure_finalizer-Calm, settle-Calm versioned replicas)
        depth 16
  fetched-Calm versioned replicas key (err e) = search calm_rules

-- A run of the V2ray controller does not panic, whatever is answered, if the image that the
-- environment names, where it names one, holds a colon and deployments are read with a number of
-- replicas.
pub panics-reconcile :
    (E : Env)
    → HasVersion E
    → HasReplicas E
    → (key : ObjectKey) (h : History) → panics (reconcile E key h).0 ≡ false
unfolding reconcile
panics-reconcile E versioned replicas key h =
    let calm : Calm (reconcile E key) =
      search (calm_rules, fetched-Calm E versioned replicas) depth 12 in
    calm.at h
