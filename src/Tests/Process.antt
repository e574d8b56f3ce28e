-- ===== src/Tests/Process.antt =====
-- The process, with a manager that takes every step, and with one whose port for probes is in use.
use v2ray_operator.Prelude.{false, List, [], ◌≡◌, refl, ◌⊎◌}
use v2ray_operator.Cluster.Effect.{Reply, ok, err}
use v2ray_operator.Operator.{user_controller}
use v2ray_operator.Operator.Process.{
  default_flags, Step, add_readyz_check, returned, exited, must, or_exit, setup_v2ray_with_manager,
  setup_client_with_manager, setup_user_with_manager, init, main, process,
}
use v2ray_operator.Operator.Process.Plan.{Refused}
use v2ray_operator.Operator.Process.Serves.{plan, serves, process-plan}

abbrev taking : List Step → Step → Reply (Unit {0})
taking made step = ok tt

abbrev not_ready : List Step → Step → Reply (Unit {0})
not_ready made (add_readyz_check name) =
    err (record { not_found = false; text = "started already" })
not_ready made step = ok tt

taking_returns : process taking default_flags ≡ (returned, plan default_flags)
unfolding process init main setup_v2ray_with_manager setup_client_with_manager
    setup_user_with_manager must or_exit
taking_returns = refl

not_ready_exits : (process not_ready default_flags).0 ≡ exited 1
unfolding process init main setup_v2ray_with_manager setup_client_with_manager
    setup_user_with_manager must or_exit
not_ready_exits = refl

process-plan_example :
    ((process not_ready default_flags ≡ (returned, plan default_flags))
      ⊎ Refused not_ready []
          (plan default_flags)
          (process not_ready default_flags).0
          (process not_ready default_flags).1)
    × (serves user_controller [] (plan default_flags) ≡ 1)
process-plan_example = process-plan not_ready default_flags user_controller
