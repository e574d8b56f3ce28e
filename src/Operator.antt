-- ===== src/Operator.antt =====
-- The operator: three controllers in one process, registered by cmd/main.go. A run of a controller
-- is one step, and runs follow one another in any order, as the queues of the manager start them.
-- What another controller does during a run shows in the answers that the run gets.
pub mod Role
pub mod Frames
pub mod Missing
pub mod Process
use v2ray_operator.Prelude.{Bool, true, ◌≡◌, refl, ◌∷◌}
use v2ray_operator.Api.Meta.{ObjectKey}
use v2ray_operator.Cluster.Effect.{M}
use v2ray_operator.Cluster.Requests.{Call, History}
use v2ray_operator.Cluster.Env.{Env}
use v2ray_operator.Cluster.Adds.{Adds, stop, Adds-trans, Adds-weaken}
use v2ray_operator.User.Reconcile
use v2ray_operator.User.Reconcile.{ReconcileResult}
use v2ray_operator.User.Reconcile.Calls.{reconcile-by_user}
use v2ray_operator.User.Calls.{by_user}
use v2ray_operator.V2ray.Reconcile as V2rayReconcile
use v2ray_operator.V2ray.Reconcile.Calls.{by_v2ray, reconcile-by_v2ray}
use v2ray_operator.Client.Reconcile as ClientReconcile
use v2ray_operator.Client.Reconcile.Calls.{by_client, reconcile-by_client}

pub data Controller : Type 0 where
  v2ray_controller client_controller user_controller : Controller

abbrev pub reconcile_of : Env → Controller → ObjectKey → M ReconcileResult
reconcile_of E v2ray_controller = V2rayReconcile.reconcile E
reconcile_of E client_controller = ClientReconcile.reconcile E
reconcile_of E user_controller = Reconcile.reconcile E

-- The calls that a run of the controller may make.
abbrev pub calls_of : Env → Controller → History → Call → Bool
calls_of E v2ray_controller = by_v2ray
calls_of E client_controller = by_client E
calls_of E user_controller = by_user E

-- Runs of some of the controllers, one after another, for whatever objects.
pub data Runs (E : Env) (some_of : Controller → Bool) : History → History → Type 0 where
  idle : {h : History} → Runs E some_of h h
  run :
      {h h' : History} (c : Controller) (key : ObjectKey)
      → some_of c ≡ true
      → Runs E some_of h h'
      → Runs E some_of h (reconcile_of E c key h').1

-- Whatever is answered, a run of a controller reads and writes no objects but those of its own kind
-- and these: the V2ray controller reads and writes deployments, that of users reads services,
-- deployments, pods and nodes, that of clients reads services. The first two record events, and that
-- of users makes new ids. V2ray servers are dialled, and get requests, by the last two only: users
-- are altered, and inbounds and outbounds added, each behind a connection to that server.
pub reconcile_of-Adds :
    (E : Env) (c : Controller) (key : ObjectKey) (h : History)
    → Adds (calls_of E c) h (reconcile_of E c key h).1
reconcile_of-Adds E v2ray_controller key h = reconcile-by_v2ray E key h
reconcile_of-Adds E client_controller key h = reconcile-by_client E key h
reconcile_of-Adds E user_controller key h = reconcile-by_user E key h

-- A test that every call of these controllers passes holds of all calls of their runs.
pub Runs-Adds :
    {E : Env} {some_of : Controller → Bool} (P : History → Call → Bool) {h h' : History}
    → ((c : Controller)
        → some_of c ≡ true
        → (h : History) (call : Call) → calls_of E c h call ≡ true
        → P h call ≡ true)
    → Runs E some_of h h'
    → Adds P h h'
Runs-Adds P passes idle = stop
Runs-Adds {E} P passes (run {h' = h'} c key chosen runs) =
    Adds-trans (Runs-Adds P passes runs)
      (Adds-weaken (passes c chosen) (reconcile_of-Adds E c key h'))
