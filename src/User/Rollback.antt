-- ===== src/User/Rollback.antt =====
-- The shape that `addUserToV2raySvcList` and `doFinalizerOperationsForV2rayUser` share: a loop that
-- serves one item after another and notes the service of each, and a deferred function that undoes
-- what was done at the noted services when the loop ended by an error or a panic.
pub mod Exact
pub mod Loop
pub mod Ended
use v2ray_operator.Prelude.{String, List, [], ◌∷◌, ◌++◌}
use v2ray_operator.Api.Core.{Service}
use v2ray_operator.V2fly.Grpc.{alter_inbound}
use v2ray_operator.Cluster.Effect.{M, Outcome, done, failed, panicked, pure, attempt, ◌>>=◌, ◌>>◌}
use v2ray_operator.Cluster.Requests.{InboundOperation, History}
use v2ray_operator.Cluster.Env.{Env}
use v2ray_operator.User.Server.{get_v2ray_grpc_client_from_svc}

-- How the loop ended, the services that it had noted, and the calls made.
abbrev pub Served : Type 0 → Type 0
Served S = Outcome S × List Service × History

module _ {X S : Type 0} (step : X → S → M (Service × S)) where
  unfoldable pub serve_each : List X → S → List Service → History → Served S
  serve_each [] s served h = (done s, served, h)
  serve_each (x ∷ xs) s served h =
      let (r, h') = step x s h in
      elim r [
        | done p ↦ serve_each xs p.1 (served ++ p.0 ∷ []) h'
        | failed e ↦ (failed e, served, h')
        | panicked p ↦ (panicked p, served, h')
      ]

module _ (E : Env) (tag : String) (op : InboundOperation) where
  -- One round of the rollback. An error is logged, and the rollback goes on.
  unfoldable pub undo_at : Service → M (Unit {0})
  undo_at svc = do cli ← get_v2ray_grpc_client_from_svc E svc; alter_inbound E cli tag op

  unfoldable pub rollback : List Service → M (Unit {0})
  rollback [] = pure tt
  rollback (svc ∷ svcs) = do attempt (undo_at svc); rollback svcs

  -- The deferred function. It gives back the error, and panics anew after a panic; a panic of the
  -- rollback itself takes its place.
  unfoldable pub deferred : {S : Type 0} → Served S → Outcome S × History
  deferred (done s, served, h) = (done s, h)
  deferred (failed e, served, h) =
      let (r, h') = rollback served h in
      elim r [
        | done _ ↦ (failed e, h')
        | failed e' ↦ (failed e', h')
        | panicked p ↦ (panicked p, h')
      ]
  deferred (panicked p, served, h) =
      let (r, h') = rollback served h in
      elim r [
        | done _ ↦ (panicked p, h')
        | failed e' ↦ (failed e', h')
        | panicked p' ↦ (panicked p', h')
      ]
