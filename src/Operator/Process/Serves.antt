-- ===== src/Operator/Process/Serves.antt =====
-- What the process does, from its package initialisation to its end.
use v2ray_operator.Prelude.{
  ℕ, suc, ◌≡◌, refl, ap, ◌⊎◌, inl, inr, Bool, true, false, ◌&&◌, ◌||◌, none, some, List, [], ◌∷◌,
  ◌++◌, if◌then◌else◌,
}
use v2ray_operator.Cluster.Effect.{Reply}
use v2ray_operator.Operator.{Controller, v2ray_controller, client_controller, user_controller}
use v2ray_operator.Operator.Process.{
  Kind, v2ray, v2ray_list, v2ray_client, v2ray_client_list, v2ray_user, v2ray_user_list, deployment,
  Flags, Step, add_builtin_kinds, add_kinds, get_config, new_manager, set_up, add_healthz_check,
  add_readyz_check, start, returned, Progress, ending, ◌>>◌, setup_v2ray_with_manager,
  setup_client_with_manager, setup_user_with_manager, init, main, process,
}
use v2ray_operator.Operator.Process.Plan.{
  Refused, Follows, all, stops, Keeps, Keeps->>, Keeps-or_exit, Keeps-must,
}

abbrev pub plan : Flags → List Step
plan flags =
    add_builtin_kinds
    ∷ add_kinds (record { group = "vpn.hdcjh.xyz"; version = "v1alpha1" })
        (v2ray ∷ v2ray_list ∷ v2ray_client ∷ v2ray_client_list ∷ v2ray_user ∷ v2ray_user_list ∷ [])
    ∷ get_config
    ∷ new_manager (record {
      metrics_bind_address = flags.metrics_bind_address;
      webhook_port = 9443;
      health_probe_bind_address = flags.health_probe_bind_address;
      leader_election = flags.leader_elect;
      leader_election_id = "220964bb.hdcjh.xyz";
    })
    ∷ set_up v2ray_controller (some "v2ray-controller") v2ray (deployment ∷ [])
    ∷ set_up client_controller none v2ray_client []
    ∷ set_up user_controller (some "v2rayuser-controller") v2ray_user (deployment ∷ [])
    ∷ add_healthz_check "healthz"
    ∷ add_readyz_check "readyz"
    ∷ start
    ∷ []

-- The controller for the kind.
abbrev for_kind : Controller → Kind → Bool
for_kind v2ray_controller v2ray = true
for_kind client_controller v2ray_client = true
for_kind user_controller v2ray_user = true
for_kind c k = false

abbrev knows : Controller → List Kind → Bool
knows c [] = false
knows c (k ∷ ks) = for_kind c k || knows c ks

-- How often the controller is set up for its kind while the scheme knows the kind and its manager
-- has not been started.
abbrev pub serves : Controller → List Kind → List Step → ℕ
serves c known [] = 0
serves c known (start ∷ rest) = 0
serves c known (add_kinds version kinds ∷ rest) = serves c (known ++ kinds) rest
serves c known (set_up c' recorder kind owned ∷ rest) =
    let later = serves c known rest in
    if for_kind c kind && for_kind c' kind && knows c known then suc later else later
serves c known (_ ∷ rest) = serves c known rest

plan-serves : (c : Controller) (flags : Flags) → serves c [] (plan flags) ≡ 1
plan-serves v2ray_controller flags = refl
plan-serves client_controller flags = refl
plan-serves user_controller flags = refl

module _ (answer : List Step → Step → Reply (Unit {0})) where
  main-Keeps : (flags : Flags) → Keeps answer (plan flags) (init answer >> main answer flags)
  unfolding init main setup_v2ray_with_manager setup_client_with_manager setup_user_with_manager
  main-Keeps flags =
      Keeps->> answer _ _ _ _
        (Keeps->> answer _ _ _ _ (Keeps-must answer _ refl) (Keeps-must answer _ refl))
        (Keeps->> answer _ _ _ _
          (Keeps->> answer _ _ _ _
            (Keeps->> answer _ _ _ _
              (Keeps->> answer _ _ _ _
                (Keeps->> answer _ _ _ _
                  (Keeps->> answer _ _ _ _
                    (Keeps->> answer _ _ _ _ (Keeps-or_exit answer _ refl)
                      (Keeps-or_exit answer _ refl))
                    (Keeps-or_exit answer _ refl))
                  (Keeps-or_exit answer _ refl))
                (Keeps-or_exit answer _ refl))
              (Keeps-or_exit answer _ refl))
            (Keeps-or_exit answer _ refl))
          (Keeps-or_exit answer _ refl))

  Follows-ending :
      (steps : List Step) {out : Progress × List Step}
      → Follows answer [] steps out
      → (ending out ≡ (returned, steps)) ⊎ Refused answer [] steps (ending out).0 (ending out).1
  Follows-ending steps (all e) = inl (ap (λ (made : List Step). (returned, made)) e)
  Follows-ending steps (stops r) = inr r

  -- Whatever the manager answers, the process makes the steps of the plan in their order. If none is
  -- refused it returns; else it ends with the step that is refused first, by a panic if that is the
  -- registration of kinds and with exit code 1 if not. The plan sets every controller up exactly
  -- once, for its own kind, which the scheme knows by then, and before it starts the manager.
  pub process-plan :
      (flags : Flags) (c : Controller)
      → ((process answer flags ≡ (returned, plan flags))
          ⊎ Refused answer [] (plan flags) (process answer flags).0 (process answer flags).1)
        × (serves c [] (plan flags) ≡ 1)
  unfolding process
  process-plan flags c = (Follows-ending (plan flags) (main-Keeps flags []), plan-serves c flags)
