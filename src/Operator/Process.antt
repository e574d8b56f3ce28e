-- ===== src/Operator/Process.antt =====
-- cmd/main.go, with SetupWithManager of the three controllers and the registration of the resources
-- by the init functions of api/v1alpha1. The manager is controller-runtime's: what it answers is a
-- parameter, and its steps are kept in the order in which they are made.
pub mod Plan
pub mod Serves
use v2ray_operator.Prelude.{ℕ, String, Bool, false, Option, none, some, List, [], ◌∷◌, ◌++◌}
use v2ray_operator.Cluster.Effect.{Reply, ok, err}
use v2ray_operator.Operator.{Controller, v2ray_controller, client_controller, user_controller}

-- `schema.GroupVersion`
pub record GroupVersion : Type 0 where
  pub group : String
  pub version : String

abbrev pub group_version : GroupVersion
group_version = record { group = "vpn.hdcjh.xyz"; version = "v1alpha1" }

-- The Go types that are registered or watched.
pub data Kind : Type 0 where
  v2ray v2ray_list v2ray_client v2ray_client_list v2ray_user v2ray_user_list deployment : Kind

-- `SchemeBuilder.Register`
abbrev pub register : List Kind → List Kind → List Kind
register kinds registered = registered ++ kinds

-- The init functions of the three files.
abbrev pub init_v2ray_types : List Kind → List Kind
init_v2ray_types = register (v2ray ∷ v2ray_list ∷ [])

abbrev pub init_v2rayclient_types : List Kind → List Kind
init_v2rayclient_types = register (v2ray_client ∷ v2ray_client_list ∷ [])

abbrev pub init_v2rayuser_types : List Kind → List Kind
init_v2rayuser_types = register (v2ray_user ∷ v2ray_user_list ∷ [])

-- `SchemeBuilder` once they have run, in the order of their files' names.
abbrev pub scheme_builder : List Kind
scheme_builder = init_v2rayuser_types (init_v2rayclient_types (init_v2ray_types []))

-- The values of the three flags.
pub record Flags : Type 0 where
  pub metrics_bind_address : String
  pub health_probe_bind_address : String
  pub leader_elect : Bool

abbrev pub default_flags : Flags
default_flags = record {
  metrics_bind_address = ":8080";
  health_probe_bind_address = ":8081";
  leader_elect = false;
}

-- `ctrl.Options`, as far as they are filled in.
pub record Options : Type 0 where
  pub metrics_bind_address : String
  pub webhook_port : ℕ
  pub health_probe_bind_address : String
  pub leader_election : Bool
  pub leader_election_id : String

-- What `main` asks of other packages. `set_up` is the builder of a controller: the name of its
-- recorder, the kind that it is for and the kinds that it owns.
pub data Step : Type 0 where
  add_builtin_kinds : Step
  add_kinds : GroupVersion → List Kind → Step
  get_config : Step
  new_manager : Options → Step
  set_up : Controller → Option String → Kind → List Kind → Step
  add_healthz_check add_readyz_check : String → Step
  start : Step

-- How the process ends.
pub data Ending : Type 0 where
  returned : Ending
  exited : ℕ → Ending
  panicked : Ending

pub data Progress : Type 0 where
  going : Progress
  ended : Ending → Progress

abbrev pub Setup : Type 0
Setup = List Step → Progress × List Step

abbrev pub go_on : Progress × List Step → Setup → Progress × List Step
go_on (going, made) next = next made
go_on (ended e, made) next = (ended e, made)

infixl 5 ◌>>◌
abbrev pub ◌>>◌ : Setup → Setup → Setup
◌>>◌ m next made = go_on (m made) next

abbrev pub ending : Progress × List Step → Ending × List Step
ending (going, made) = (returned, made)
ending (ended e, made) = (e, made)

module _ (answer : List Step → Step → Reply (Unit {0})) where
  step_or : Ending → Step → Setup
  step_or bad s made = elim (answer made s) [
    | ok _ ↦ (going, made ++ s ∷ [])
    | err e ↦ (ended bad, made ++ s ∷ [])
  ]

  -- `utilruntime.Must`
  unfoldable pub must : Step → Setup
  unfolding step_or
  must s = step_or panicked s

  -- `if err != nil { setupLog.Error(…); os.Exit(1) }`; `GetConfigOrDie` does the same.
  unfoldable pub or_exit : Step → Setup
  unfolding step_or
  or_exit s = step_or (exited 1) s

  -- `SetupWithManager` of the three reconcilers; the argument is the recorder in the reconciler.
  unfoldable pub setup_v2ray_with_manager : Option String → Setup
  unfolding or_exit
  setup_v2ray_with_manager recorder =
      or_exit (set_up v2ray_controller recorder v2ray (deployment ∷ []))

  unfoldable pub setup_client_with_manager : Option String → Setup
  unfolding or_exit
  setup_client_with_manager recorder = or_exit (set_up client_controller recorder v2ray_client [])

  unfoldable pub setup_user_with_manager : Option String → Setup
  unfolding or_exit
  setup_user_with_manager recorder =
      or_exit (set_up user_controller recorder v2ray_user (deployment ∷ []))

  unfoldable pub init : Setup
  unfolding must
  init = must add_builtin_kinds >> must (add_kinds group_version scheme_builder)

  unfoldable pub main : Flags → Setup
  unfolding or_exit setup_v2ray_with_manager setup_client_with_manager setup_user_with_manager
  main flags =
      or_exit get_config
      >> or_exit (
          new_manager (record {
            metrics_bind_address = flags.metrics_bind_address;
            webhook_port = 9443;
            health_probe_bind_address = flags.health_probe_bind_address;
            leader_election = flags.leader_elect;
            leader_election_id = "220964bb.hdcjh.xyz";
          }))
      >> setup_v2ray_with_manager (some "v2ray-controller")
      >> setup_client_with_manager none
      >> setup_user_with_manager (some "v2rayuser-controller")
      >> or_exit (add_healthz_check "healthz")
      >> or_exit (add_readyz_check "readyz")
      >> or_exit start

  -- The process: package initialisation, then `main`, which returns at its end.
  unfoldable pub process : Flags → Ending × List Step
  unfolding init main
  process flags = ending ((init >> main flags) [])
