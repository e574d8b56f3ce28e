-- ===== src/Operator/Missing.antt =====
-- Runs for an object that cannot be read.
use v2ray_operator.Prelude.{◌∷◌, ◌≡◌, arith, if◌then◌else◌}
use v2ray_operator.Api.Meta.{ObjectKey}
use v2ray_operator.Cluster.Effect.{Error, err, Outcome, done, failed, ◌>>=◌}
use v2ray_operator.Cluster.Requests.{Call, History}
use v2ray_operator.Cluster.Env.{Env}
use v2ray_operator.Cluster.Trace.{attempt-request}
use v2ray_operator.User.Reconcile
use v2ray_operator.User.Reconcile.{ReconcileResult, empty_result, fetched}
use v2ray_operator.V2ray.Reconcile as V2rayReconcile
use v2ray_operator.Client.Reconcile as ClientReconcile
use v2ray_operator.Operator.{
  Controller, v2ray_controller, client_controller, user_controller, reconcile_of,
}

-- The read of the object that a run of the controller begins with.
abbrev pub first_read : Controller → ObjectKey → Call
first_read v2ray_controller key = Call.get_v2ray key
first_read client_controller key = Call.get_client key
first_read user_controller key = Call.get_user key

-- The object cannot be read.
abbrev pub Unreadable : Env → Controller → ObjectKey → History → Error → Type 0
Unreadable E v2ray_controller key h e = E.get_v2ray h key ≡ err e
Unreadable E client_controller key h e = E.get_client h key ≡ err e
Unreadable E user_controller key h e = E.get_user h key ≡ err e

abbrev pub read_outcome : Error → Outcome ReconcileResult
read_outcome e = if e.not_found then done empty_result else failed e

v2ray_unread :
    (E : Env) (key : ObjectKey) (h : History) (e : Error)
    → V2rayReconcile.fetched E key (err e) h ≡ (read_outcome e, h)
unfolding V2rayReconcile.fetched ◌>>=◌
v2ray_unread E key h e = ground arith

client_unread :
    (E : Env) (key : ObjectKey) (h : History) (e : Error)
    → ClientReconcile.fetched E key (err e) h ≡ (read_outcome e, h)
unfolding ClientReconcile.fetched ◌>>=◌
client_unread E key h e = ground arith

user_unread :
    (E : Env) (key : ObjectKey) (h : History) (e : Error)
    → fetched E key (err e) h ≡ (read_outcome e, h)
unfolding fetched ◌>>=◌
user_unread E key h e = ground arith

-- Where the object of a run cannot be read, each of the three controllers makes no other call: the
-- run ends with the empty result if the error says that there is no such object, and with the error
-- itself if not.
pub reconcile_of-Unreadable :
    (E : Env) (who : Controller) (key : ObjectKey) (h : History) (e : Error)
    → Unreadable E who key h e
    → reconcile_of E who key h ≡ (read_outcome e, first_read who key ∷ h)
unfolding V2rayReconcile.reconcile ClientReconcile.reconcile Reconcile.reconcile ◌>>=◌
reconcile_of-Unreadable E v2ray_controller key h e answer =
    rw (attempt-request, answer) (v2ray_unread E key _ e)
reconcile_of-Unreadable E client_controller key h e answer =
    rw (attempt-request, answer) (client_unread E key _ e)
reconcile_of-Unreadable E user_controller key h e answer =
    rw (attempt-request, answer) (user_unread E key _ e)
