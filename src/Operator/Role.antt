-- ===== src/Operator/Role.antt =====
-- The role of the operator: the markers above `Reconcile` in the three controllers, from which
-- config/rbac/role.yaml is generated, and what each call asks of the API server.
use v2ray_operator.Prelude.{
  Bool, true, false, ◌&&◌, ◌||◌, String, List, [], ◌∷◌, ◌++◌, ◌==◌, ◌≡◌, refl, arith,
}
use v2ray_operator.Cluster.Requests.{Call, History}
use v2ray_operator.Cluster.Env.{Env}
use v2ray_operator.Cluster.Adds.{Adds, Adds-weaken}
use v2ray_operator.Prelude.Maps.{Dict}
use v2ray_operator.Api.Meta.{ObjectKey}
use v2ray_operator.User.Calls.{by_user}
use v2ray_operator.User.Reconcile
use v2ray_operator.User.Reconcile.Calls.{reconcile-by_user}
use v2ray_operator.V2ray.Reconcile as V2rayReconcile
use v2ray_operator.Client.Reconcile as ClientReconcile
use v2ray_operator.V2ray.Reconcile.Calls.{by_v2ray, reconcile-by_v2ray}
use v2ray_operator.Client.Reconcile.Calls.{by_client, reconcile-by_client}

-- `//+kubebuilder:rbac:groups=...,resources=...,verbs=...`
pub record Rule : Type 0 where
  pub group : String
  pub resource : String
  pub verbs : List String

abbrev vpn : String
vpn = "vpn.hdcjh.xyz"

abbrev reading : List String
reading = "get" ∷ "list" ∷ "watch" ∷ []

abbrev everything : List String
everything = "get" ∷ "list" ∷ "watch" ∷ "create" ∷ "update" ∷ "patch" ∷ "delete" ∷ []

abbrev status_verbs : List String
status_verbs = "get" ∷ "update" ∷ "patch" ∷ []

abbrev pub v2ray_rules : List Rule
v2ray_rules =
    record { group = vpn; resource = "v2rays"; verbs = everything }
    ∷ record { group = vpn; resource = "v2rays/status"; verbs = status_verbs }
    ∷ record { group = vpn; resource = "v2rays/finalizers"; verbs = "update" ∷ [] }
    ∷ record { group = "core"; resource = "events"; verbs = "create" ∷ "patch" ∷ [] }
    ∷ record { group = "apps"; resource = "deployments"; verbs = everything }
    ∷ record { group = "core"; resource = "pods"; verbs = reading }
    ∷ []

abbrev pub client_rules : List Rule
client_rules =
    record { group = vpn; resource = "v2rayclients"; verbs = everything }
    ∷ record { group = vpn; resource = "v2rayclients/status"; verbs = status_verbs }
    ∷ record { group = vpn; resource = "v2rayclients/finalizers"; verbs = "update" ∷ [] }
    ∷ record { group = "core"; resource = "events"; verbs = "create" ∷ "patch" ∷ [] }
    ∷ record { group = "apps"; resource = "deployments"; verbs = everything }
    ∷ record { group = "core"; resource = "pods"; verbs = reading }
    ∷ []

abbrev pub user_rules : List Rule
user_rules =
    record { group = vpn; resource = "v2rayusers"; verbs = everything }
    ∷ record { group = vpn; resource = "v2rayusers/status"; verbs = status_verbs }
    ∷ record { group = vpn; resource = "v2rayusers/finalizers"; verbs = "update" ∷ [] }
    ∷ record { group = "core"; resource = "events"; verbs = "create" ∷ "patch" ∷ "list" ∷ [] }
    ∷ record { group = "core"; resource = "services"; verbs = reading }
    ∷ record { group = "core"; resource = "pods"; verbs = reading }
    ∷ record { group = "apps"; resource = "deployments"; verbs = everything }
    ∷ record { group = "core"; resource = "pods"; verbs = reading }
    ∷ record { group = "core"; resource = "nodes"; verbs = reading }
    ∷ []

abbrev lists : String → List String → Bool
lists v [] = false
lists v (w ∷ ws) = let rest = lists v ws in (w == v) || rest

abbrev allows : List Rule → String → String → String → Bool
allows [] group resource verb = false
allows (r ∷ rs) group resource verb =
    let rest = allows rs group resource verb in
    ((r.group == group) && (r.resource == resource) && lists verb r.verbs) || rest

-- Reads go through the manager's cache, which lists and watches what is read.
abbrev reads : List Rule → String → String → Bool
reads rs group resource =
    allows rs group resource "get"
    && allows rs group resource "list"
    && allows rs group resource "watch"

-- The role lets the call pass. What is no request to the API server needs no rule.
abbrev pub permits : List Rule → Call → Bool
permits rs (Call.get_v2ray k) = reads rs vpn "v2rays"
permits rs (Call.update_v2ray v) = allows rs vpn "v2rays" "update"
permits rs (Call.update_v2ray_status v) = allows rs vpn "v2rays/status" "update"
permits rs (Call.get_user k) = reads rs vpn "v2rayusers"
permits rs (Call.update_user u) = allows rs vpn "v2rayusers" "update"
permits rs (Call.update_user_status u) = allows rs vpn "v2rayusers/status" "update"
permits rs (Call.get_client k) = reads rs vpn "v2rayclients"
permits rs (Call.update_client c) = allows rs vpn "v2rayclients" "update"
permits rs (Call.update_client_status c) = allows rs vpn "v2rayclients/status" "update"
permits rs (Call.get_deployment k) = reads rs "apps" "deployments"
permits rs (Call.create_deployment d) = allows rs "apps" "deployments" "create"
permits rs (Call.update_deployment d) = allows rs "apps" "deployments" "update"
permits rs (Call.get_service k) = reads rs "core" "services"
permits rs (Call.get_node k) = reads rs "core" "nodes"
permits rs (Call.list_services ns ls) = reads rs "core" "services"
permits rs (Call.list_deployments ns ls) = reads rs "apps" "deployments"
permits rs (Call.list_pods ns ls) = reads rs "core" "pods"
permits rs (Call.record_event kind reason message) = allows rs "core" "events" "create"
permits rs _ = true

v2ray-permits : (h : History) (c : Call) → by_v2ray h c ≡ true → permits v2ray_rules c ≡ true
v2ray-permits h c p = ground arith

user-permits :
    (E : Env) (h : History) (c : Call) → by_user E h c ≡ true → permits user_rules c ≡ true
user-permits E h c p = ground arith

client-permits :
    (E : Env) (h : History) (c : Call)
    → by_client E h c ≡ true
    → permits (client_rules ++ user_rules) c ≡ true
client-permits E h c p = ground arith

-- Whatever is answered: every call of a run of the V2ray controller is permitted by the markers of
-- that controller, and every call of a run of the V2rayUser controller by its own. Those of a run of
-- the V2rayClient controller are permitted by its markers and those of the V2rayUser controller
-- together; its own alone do not let it list services.
pub reconcile-permits :
    (E : Env) (key : ObjectKey) (h : History)
    → Adds (λ _. permits v2ray_rules) h (V2rayReconcile.reconcile E key h).1
      × Adds (λ _. permits user_rules) h (Reconcile.reconcile E key h).1
      × Adds (λ _. permits (client_rules ++ user_rules)) h (ClientReconcile.reconcile E key h).1
      × ((ns : String) (ls : Dict String) → permits client_rules (Call.list_services ns ls) ≡ false)
reconcile-permits E key h = (
  Adds-weaken v2ray-permits (reconcile-by_v2ray E key h),
  Adds-weaken (user-permits E) (reconcile-by_user E key h),
  Adds-weaken (client-permits E) (reconcile-by_client E key h),
  λ ns ls. refl,
)
