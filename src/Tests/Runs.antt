-- ===== src/Tests/Runs.antt =====
-- Runs of the three controllers in the small cluster.
use v2ray_operator.Prelude.Int.{pos}
use v2ray_operator.Prelude.{none, true, false, [], ◌∷◌, ◌++◌, ◌≡◌, refl, String}
use v2ray_operator.Prelude.Maps.{Dict}
use v2ray_operator.Api.Meta.{ObjectKey}
use v2ray_operator.Cluster.Requests.{Call, History}
use v2ray_operator.Cluster.Adds.{Adds}
use v2ray_operator.User.Server.{svc_addr}
use v2ray_operator.User.Registered.{registered}
use v2ray_operator.User.Reconcile
use v2ray_operator.V2ray.Reconcile as V2rayReconcile
use v2ray_operator.V2ray.Reconcile.{ensure_deployment}
use v2ray_operator.V2ray.Reconcile.Stored.{stored, OfSize, deployment_writes}
use v2ray_operator.Client.Reconcile as ClientReconcile
use v2ray_operator.Operator.{
  Controller, v2ray_controller, client_controller, user_controller, reconcile_of, calls_of,
  reconcile_of-Adds, idle, run,
}
use v2ray_operator.Operator.Role.{v2ray_rules, client_rules, user_rules, permits, reconcile-permits}
use v2ray_operator.Operator.Frames.{spares_users, deployment-Runs, registration-Runs}
use v2ray_operator.Tests.World.{world, steady, alpha, beta, gamma, user, v2ray}
use v2ray_operator.Tests.Users
use v2ray_operator.Tests.Resources
use v2ray_operator.Tests.Registered.{world-Honest}

abbrev key : ObjectKey
key = record { namespace = "vpn"; name = "edge" }

abbrev step : Controller → History → History
step c h = (reconcile_of world c key h).1

reconcile_of-Adds_example :
    Adds (calls_of world user_controller) [] (reconcile_of world user_controller key []).1
reconcile_of-Adds_example = reconcile_of-Adds world user_controller key []

reconcile-permits_example :
    Adds (λ _. permits v2ray_rules) [] (V2rayReconcile.reconcile world key []).1
    × Adds (λ _. permits user_rules) [] (Reconcile.reconcile world key []).1
    × Adds (λ _. permits (client_rules ++ user_rules)) [] (ClientReconcile.reconcile world key []).1
    × ((ns : String) (ls : Dict String) → permits client_rules (Call.list_services ns ls) ≡ false)
reconcile-permits_example = reconcile-permits world key []

deployment-Runs_example :
    let h1 = (reconcile_of steady client_controller key Resources.run.1).1 in
    let h = (reconcile_of steady user_controller key h1).1 in
    OfSize (pos 3) (stored steady key none h)
    × (deployment_writes (ensure_deployment steady key v2ray h).1 ≡ deployment_writes h)
deployment-Runs_example =
    deployment-Runs steady v2ray none (Resources.steady-KeepsDeployment key) refl []
      Resources.run_done (run user_controller key refl (run client_controller key refl idle))

registration-Runs_example :
    let h = step v2ray_controller (step client_controller Users.run.1) in
    (registered world false (svc_addr world beta) "ws+vless" "kim@example.org" h ≡ true)
    × Adds spares_users Users.run.1 h
registration-Runs_example =
    registration-Runs world false (user Users.asked) (alpha ∷ []) beta (gamma ∷ []) world-Honest []
      Users.known Users.run_fine.0 Users.run_fine.1
      (run v2ray_controller key refl (run client_controller key refl idle))
