-- ===== src/Operator/Frames.antt =====
-- What a controller brings about, the runs of the other controllers leave as it is.
use v2ray_operator.Prelude.{
  String, Bool, true, false, some, none, Option, List, ◌∷◌, ◌++◌, ◌≡◌, refl, ap, ◌∙◌, arith,
  if◌then◌else◌,
}
use v2ray_operator.Prelude.Int.{pos, eqb_ℤ}
use v2ray_operator.Api.Core.{Service}
use v2ray_operator.Api.Deployment.{Deployment}
use v2ray_operator.Api.User.{V2rayUser, V2rayUserInfo}
use v2ray_operator.Api.V2ray.{V2ray}
use v2ray_operator.Cluster.Effect.{done}
use v2ray_operator.Cluster.Requests.{Account, add_user, Call, History}
use v2ray_operator.Cluster.Env.{Env}
use v2ray_operator.Cluster.Adds.{Adds, stop, more}
use v2ray_operator.User.Calls.{by_user}
use v2ray_operator.User.Server.{account_of, protocol_user, svc_addr}
use v2ray_operator.User.Add.{Added, add_user_to_v2ray_svc_list}
use v2ray_operator.User.Registered.{registered, email_of, Honest}
use v2ray_operator.User.Registered.Loop.{one_concerns-elected}
use v2ray_operator.User.Registered.Ends.{add_user-registered}
use v2ray_operator.User.Reconcile.{ReconcileResult}
use v2ray_operator.V2ray.Reconcile.{own_key, ensure_deployment}
use v2ray_operator.V2ray.Reconcile.Calls.{by_v2ray}
use v2ray_operator.V2ray.Reconcile.Stored.{stored, OfSize, deployment_writes, KeepsDeployment}
use v2ray_operator.V2ray.Reconcile.Converge.{quiet_at_size, ensure_deployment-converges}
use v2ray_operator.V2ray.Reconcile.Settles.{spares, Adds-spared}
use v2ray_operator.Client.Reconcile.Calls.{by_client}
use v2ray_operator.Operator.{
  Controller, v2ray_controller, client_controller, user_controller, calls_of, Runs, Runs-Adds,
}

abbrev pub not_v2ray : Controller → Bool
not_v2ray v2ray_controller = false
not_v2ray _ = true

abbrev pub not_user : Controller → Bool
not_user user_controller = false
not_user _ = true

-- The call alters no users of a server, and takes no inbound away.
abbrev pub spares_users : History → Call → Bool
spares_users h (Call.alter_inbound addr tag op) = false
spares_users h (Call.remove_inbound addr tag) = false
spares_users h _ = true

user-spares_deployments :
    (E : Env) (h : History) (c : Call) → by_user E h c ≡ true → spares h c ≡ true
user-spares_deployments E h c p = ground arith

client-spares_deployments :
    (E : Env) (h : History) (c : Call) → by_client E h c ≡ true → spares h c ≡ true
client-spares_deployments E h c p = ground arith

v2ray-spares_users : (h : History) (c : Call) → by_v2ray h c ≡ true → spares_users h c ≡ true
v2ray-spares_users h c p = ground arith

client-spares_users :
    (E : Env) (h : History) (c : Call) → by_client E h c ≡ true → spares_users h c ≡ true
client-spares_users E h c p = ground arith

others-spare_deployments :
    (E : Env) (who : Controller)
    → not_v2ray who ≡ true
    → (h : History) (c : Call) → calls_of E who h c ≡ true
    → spares h c ≡ true
others-spare_deployments E v2ray_controller chosen h c p = ground arith
others-spare_deployments E client_controller chosen h c p = client-spares_deployments E h c p
others-spare_deployments E user_controller chosen h c p = user-spares_deployments E h c p

others-spare_users :
    (E : Env) (who : Controller)
    → not_user who ≡ true
    → (h : History) (c : Call) → calls_of E who h c ≡ true
    → spares_users h c ≡ true
others-spare_users E v2ray_controller chosen h c p = v2ray-spares_users h c p
others-spare_users E client_controller chosen h c p = client-spares_users E h c p
others-spare_users E user_controller chosen h c p = ground arith

module _ (E : Env) (start : Bool) (addr tag email : String) where
  registered-spared :
      (c : Call) (h : History)
      → spares_users h c ≡ true
      → registered E start addr tag email (c ∷ h) ≡ registered E start addr tag email h
  registered-spared c h p = ground arith

  Adds-registered :
      {h h' : History}
      → Adds spares_users h h'
      → registered E start addr tag email h' ≡ registered E start addr tag email h
  Adds-registered stop = refl
  Adds-registered (more {h' = h'} c p a) = registered-spared c h' p ∙ Adds-registered a

email-protocol_user :
    (user : V2rayUserInfo) (account : Account)
    → email_of (add_user (protocol_user user account)) ≡ user.email
unfolding protocol_user
email-protocol_user user account = refl

-- Where nobody outside the operator writes the deployment, reads of it are up to date and the size
-- asked for is not 0: once a run of the V2ray controller from the lookup of the deployment on has
-- returned a result, a deployment with the replicas asked for is stored after any runs of the other two
-- controllers, and another run asks for no write of a deployment.
-- Writes may be refused and reads may fail; those accepted, and setting an owner, keep name and size.
pub deployment-Runs :
    (E : Env) (cr : V2ray) (before : Option Deployment)
    → KeepsDeployment E (own_key cr) before
    → eqb_ℤ cr.spec.size (pos 0) ≡ false
    → (h : History) {r : ReconcileResult} {h' h'' : History}
    → ensure_deployment E (own_key cr) cr h ≡ (done r, h')
    → Runs E not_v2ray h' h''
    → OfSize cr.spec.size (stored E (own_key cr) before h'')
      × (deployment_writes (ensure_deployment E (own_key cr) cr h'').1 ≡ deployment_writes h'')
deployment-Runs E cr before keeps asked h {r} {h'} {h''} ran runs =
    let same : stored E (own_key cr) before h'' ≡ stored E (own_key cr) before h' =
      (Adds-spared E (own_key cr) before (Runs-Adds spares (others-spare_deployments E) runs)).0 in
    let sized : OfSize cr.spec.size (stored E (own_key cr) before h'') =
      rw same (ensure_deployment-converges E cr before keeps asked h ran).0 in
    (sized, quiet_at_size E (own_key cr) before keeps cr h'' refl sized)

-- On servers that say of a user that exists only if it does: after a registration that reports no
-- error, with a known inbound tag, and any runs of the other two controllers, the user is registered at
-- the server of every elected service, and those runs have taken no inbound away.
pub registration-Runs :
    (E : Env) (start : Bool) (cr : V2rayUser) (earlier : List Service) (svc : Service)
    (later : List Service)
    → Honest E start (svc_addr E svc) cr.spec.inbound_tag cr.spec.user.email
    → (h : History) {account : Account} {added : Added} {h' h'' : History}
    → account_of cr.spec.inbound_tag cr.spec.user ≡ some account
    → add_user_to_v2ray_svc_list E cr (earlier ++ svc ∷ later) h ≡ (done added, h')
    → added.error ≡ none
    → Runs E not_user h' h''
    → (registered E start (svc_addr E svc) cr.spec.inbound_tag cr.spec.user.email h'' ≡ true)
      × Adds spares_users h' h''
registration-Runs E start cr earlier svc later honest h {account} known ran fine runs =
    let spared : Adds spares_users _ _ = Runs-Adds spares_users (others-spare_users E) runs in
    let tag = cr.spec.inbound_tag in
    let email = cr.spec.user.email in
    (
      Adds-registered E start (svc_addr E svc) tag email spared
          ∙ add_user-registered E start (svc_addr E svc) tag email honest cr
              (earlier ++ svc ∷ later) h known ran fine
          ∙ ap (λ b. if b then true else registered E start (svc_addr E svc) tag email h)
              (one_concerns-elected E start (svc_addr E svc) tag email
                (add_user (protocol_user cr.spec.user account)) earlier svc later refl
                (email-protocol_user cr.spec.user account)),
      spared,
    )
