-- ===== src/V2ray/Reconcile/Settles.antt =====
-- Actions that settle the deployment at a size, with a rule for a chain of them.
use v2ray_operator.Prelude.{◌∷◌, Bool, true, false, none, Option, ◌≡◌, refl, arith, ◌∙◌}
use v2ray_operator.Prelude.Int.{ℤ}
use v2ray_operator.Api.Meta.{ObjectKey}
use v2ray_operator.Api.Deployment.{Deployment}
use v2ray_operator.Cluster.Effect.{Error, fail, Outcome, done, failed, panicked, M, continue, ◌>>=◌}
use v2ray_operator.Cluster.Requests.{Call, History}
use v2ray_operator.Cluster.Env.{Env}
use v2ray_operator.Cluster.Adds.{Adds, stop, more}
use v2ray_operator.Cluster.Makes.{Makes}
use v2ray_operator.Cluster.Yields.{IfDone, Yields}
use v2ray_operator.User.Reconcile.{ReconcileResult}
use v2ray_operator.V2ray.Reconcile.Stored.{stored, OfSize, deployment_writes}
use v2ray_operator.V2ray.Reconcile.Converge.{DoneSized}

-- The calls write no deployment.
abbrev pub spares : History → Call → Bool
spares h (Call.create_deployment d) = false
spares h (Call.update_deployment d) = false
spares h _ = true

module _ (E : Env) (key : ObjectKey) (before : Option Deployment) where
  spared :
      (c : Call) (h : History)
      → spares h c ≡ true
      → (stored E key before (c ∷ h) ≡ stored E key before h)
        × (deployment_writes (c ∷ h) ≡ deployment_writes h)
  spared c h p = (ground arith, ground arith)

  pub Adds-spared :
      {h h' : History}
      → Adds spares h h'
      → (stored E key before h' ≡ stored E key before h)
        × (deployment_writes h' ≡ deployment_writes h)
  Adds-spared stop = (refl, refl)
  Adds-spared (more {h' = h'} c p a) =
      let now = spared c h' p in let then_ = Adds-spared a in (now.0 ∙ then_.0, now.1 ∙ then_.1)

module _ (E : Env) (key : ObjectKey) (size : ℤ) (before : Option Deployment) where
  -- A run that returns a result leaves a deployment of the size, and one that begins with such a
  -- deployment writes none.
  pub record Settles (m : M ReconcileResult) : Type 0 where
    pub reached : (h : History) → DoneSized E key before size (m h)
    pub quiet :
        (h : History)
        → OfSize size (stored E key before h)
        → deployment_writes (m h).1 ≡ deployment_writes h

  pub Settles-fail : (e : Error) → Settles (fail e)
  unfolding ◌>>=◌
  Settles-fail e = record { reached = λ h. tt; quiet = λ h sized. refl }

  module _ {A : Type 0} {P : A → Type 0} (f : A → M ReconcileResult) where
    reached_after :
        (r : Outcome A × History)
        → IfDone P r.0
        → ((a : A) → P a → Settles (f a))
        → DoneSized E key before size (continue r.0 f r.1)
    reached_after (done a, h) p rest = (rest a p).reached h
    reached_after (failed e, h) p rest = tt
    reached_after (panicked m, h) p rest = tt

    quiet_after :
        (h : History) (r : Outcome A × History)
        → Adds spares h r.1
        → IfDone P r.0
        → ((a : A) → P a → Settles (f a))
        → OfSize size (stored E key before h)
        → deployment_writes (continue r.0 f r.1).1 ≡ deployment_writes h
    quiet_after h (done a, h') adds p rest sized =
        let (kept, unwritten) = Adds-spared E key before adds in
        (rest a p).quiet h' (rw kept sized) ∙ unwritten
    quiet_after h (failed e, h') adds p rest sized = (Adds-spared E key before adds).1
    quiet_after h (panicked m, h') adds p rest sized = (Adds-spared E key before adds).1

    pub Settles-bind :
        (m : M A)
        → Makes spares E none m
        → Yields P m
        → ((a : A) → P a → Settles (f a))
        → Settles (m >>= f)
    unfolding ◌>>=◌
    Settles-bind m c y rest = record {
      reached = λ h. reached_after (m h) (y.at h) rest;
      quiet = λ h sized. quiet_after h (m h) (c.at h tt) (y.at h) rest sized;
    }
