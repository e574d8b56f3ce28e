-- ===== src/V2ray/Image.antt =====
-- The deployment of a V2ray resource, its labels, and the image that the environment names.
pub mod Panics
use v2ray_operator.Prelude.{ℕ, String, ◌<>◌, true, false, none, some, List, [], ◌∷◌}
use v2ray_operator.Prelude.Maps.{Dict}
use v2ray_operator.Prelude.Text.{split}
use v2ray_operator.Api.Meta.{new_meta}
use v2ray_operator.Api.Deployment.{Probe, Container, PodSpec, Deployment}
use v2ray_operator.Api.V2ray.{V2ray}
use v2ray_operator.V2fly.Grpc.{error_of}
use v2ray_operator.Cluster.Effect.{M, Reply, ok, err, pure, panic, lift, ◌>>=◌}
use v2ray_operator.Cluster.Env.{Env}

unfoldable pub image_for_v2ray : Env → Reply String
image_for_v2ray E = elim (E.lookup_env "V2RAY_IMAGE") [
  | none ↦ err (error_of "Unable to find V2RAY_IMAGE environment variable with the image")
  | some image ↦ ok image
]

-- `strings.Split(image, ":")[1]`
unfoldable pub second : List String → M String
second (_ ∷ part ∷ _) = pure part
second (_ ∷ []) = panic "index out of range [1] with length 1"
second [] = panic "index out of range [1] with length 0"

unfoldable pub image_tag : Reply String → M String
unfolding second
image_tag (ok image) = second (split b':' image)
image_tag (err e) = pure ""

abbrev pub labels : String → String → Dict String
labels name tag =
    ("app.kubernetes.io/name", "V2ray")
    ∷ ("app.kubernetes.io/instance", name)
    ∷ ("app.kubernetes.io/version", tag)
    ∷ ("app.kubernetes.io/part-of", "v2ray-operator")
    ∷ ("app.kubernetes.io/created-by", "controller-manager")
    ∷ []

unfoldable pub labels_for_v2ray : Env → String → M (Dict String)
unfolding image_tag
labels_for_v2ray E name = do tag ← image_tag (image_for_v2ray E); pure (labels name tag)

-- The command is `strings.Split` of one line at its spaces.
unfoldable pub v2ray_probe : Probe
unfolding split
v2ray_probe = record {
  command = split b' ' "v2ray api stats --server=127.0.0.1:10085 --runtime --timeout 3";
  initial_delay_seconds = 30;
  timeout_seconds = 3;
  period_seconds = 20;
}

unfoldable pub v2ray_container : String → Container
v2ray_container image = record {
  image = image;
  name = "v2ray";
  image_pull_policy = "IfNotPresent";
  run_as_non_root = true;
  allow_privilege_escalation = false;
  drop_capabilities = "ALL" ∷ [];
  args = "run" ∷ "-c" ∷ "/etc/v2ray/config.json" ∷ [];
  ports =
      record { name = "v2ray"; container_port = 10086 }
      ∷ record { name = "grpc"; container_port = 10085 }
      ∷ [];
  volume_mounts =
      record {
        name = "v2ray-config";
        mount_path = "/etc/v2ray/config.json";
        sub_path = "config.json";
      }
      ∷ [];
  readiness_probe = v2ray_probe;
  liveness_probe = v2ray_probe;
}

unfoldable pub v2ray_pod : String → PodSpec
v2ray_pod image = record {
  run_as_non_root = true;
  seccomp_profile = "RuntimeDefault";
  containers = v2ray_container image ∷ [];
  volumes = record { name = "v2ray-config"; config_map = "v2ray-config" } ∷ [];
}

-- The object before its owner is set.
unfoldable pub new_deployment : V2ray → Dict String → String → Deployment
new_deployment cr ls image = record {
  metadata = new_meta cr.metadata.name cr.metadata.namespace;
  owners = [];
  replicas = some cr.spec.size;
  match_labels = some ls;
  template_labels = ls;
  template_spec = v2ray_pod image;
}

unfoldable pub deployment_for_v2ray : Env → V2ray → M Deployment
deployment_for_v2ray E cr = do
  ls ← labels_for_v2ray E cr.metadata.name
  image ← lift (image_for_v2ray E)
  lift (E.set_controller_reference cr (new_deployment cr ls image))
