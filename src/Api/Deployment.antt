-- ===== src/Api/Deployment.antt =====
-- `appsv1.Deployment` with the parts of its pod template that internal/controller/v2ray_controller.go
-- fills in.
use v2ray_operator.Prelude.{ℕ, String, Bool, Option, List}
use v2ray_operator.Prelude.Int.{ℤ}
use v2ray_operator.Prelude.Maps.{Dict}
use v2ray_operator.Api.Meta.{ObjectMeta}

-- A probe that runs a command.
pub record Probe : Type 0 where
  pub command : List String
  pub initial_delay_seconds : ℕ
  pub timeout_seconds : ℕ
  pub period_seconds : ℕ

pub record ContainerPort : Type 0 where
  pub name : String
  pub container_port : ℕ

pub record VolumeMount : Type 0 where
  pub name : String
  pub mount_path : String
  pub sub_path : String

-- A volume that a config map fills.
pub record Volume : Type 0 where
  pub name : String
  pub config_map : String

pub record Container : Type 0 where
  pub image : String
  pub name : String
  pub image_pull_policy : String
  pub run_as_non_root : Bool
  pub allow_privilege_escalation : Bool
  pub drop_capabilities : List String
  pub args : List String
  pub ports : List ContainerPort
  pub volume_mounts : List VolumeMount
  pub readiness_probe : Probe
  pub liveness_probe : Probe

pub record PodSpec : Type 0 where
  pub run_as_non_root : Bool
  pub seccomp_profile : String
  pub containers : List Container
  pub volumes : List Volume

-- `owners` are the names of the controlling owners, which `SetControllerReference` writes, and
-- `match_labels` is `Spec.Selector.MatchLabels`, `none` where the pointer to the selector is nil.
pub record Deployment : Type 0 where
  pub metadata : ObjectMeta
  pub owners : List String
  pub replicas : Option ℤ
  pub match_labels : Option (Dict String)
  pub template_labels : Dict String
  pub template_spec : PodSpec
