-- ===== src/V2ray/Reconcile/Whole.antt =====
-- Whole runs of the V2ray controller bring the deployment to its size.
use v2ray_operator.Prelude.{
  String, List, ◌∷◌, true, false, none, some, Option, ◌≡◌, refl, ap, ◌∙◌, Bool-cases, inl, inr,
}
use mathlib.Core.Path.{subst}
use v2ray_operator.Prelude.Int.{ℤ, pos, eqb_ℤ}
use v2ray_operator.Api.Meta.{ObjectKey}
use v2ray_operator.Api.V2ray.{V2ray}
use v2ray_operator.Api.Deployment.{Deployment}
use v2ray_operator.Cluster.Effect.{Error, done, Reply, ok, err, ◌>>=◌}
use v2ray_operator.Cluster.Requests.{Call, History}
use v2ray_operator.Cluster.Env.{Env}
use v2ray_operator.Cluster.Trace.{attempt-request}
use v2ray_operator.Cluster.Makes.{Makes, makes_rules}
use v2ray_operator.Cluster.Yields.{
  Yields, Yields-any, Yields-bind, Yields-pure, Yields-if, Yields-request,
}
use v2ray_operator.User.Reconcile.{ReconcileResult, finalizer}
use v2ray_operator.V2ray.Reconcile.{
  is_deleted, own_key, init_status, ensure_finalizer, ensure_deployment, settle_v2ray,
  reconcile_found, fetched, reconcile,
}
use v2ray_operator.V2ray.Reconcile.Stored.{stored, OfSize, KeepsDeployment, deployment_writes}
use v2ray_operator.V2ray.Reconcile.Converge.{DoneSized, DoneSized-ensure, quiet_at_size}
use v2ray_operator.V2ray.Reconcile.Settles.{spares, Settles, Settles-fail, Settles-bind}

-- An object of that name which asks for so many replicas and is not marked to be deleted.
pub record Asks (key : ObjectKey) (size : ℤ) (cr : V2ray) : Type 0 where
  pub named : own_key cr ≡ key
  pub sized : cr.spec.size ≡ size
  pub kept : is_deleted cr ≡ false

-- Reads of the object, which is there, and updates of V2ray objects answer with such an object.
pub record KeepsAsking (E : Env) (key : ObjectKey) (size : ℤ) : Type 0 where
  pub reads : (h : History) (cr : V2ray) → E.get_v2ray h key ≡ ok cr → Asks key size cr
  pub exists : (h : History) (e : Error) → E.get_v2ray h key ≡ err e → e.not_found ≡ false
  pub writes : (h : History) (cr cr' : V2ray) → E.update_v2ray h cr ≡ ok cr' → Asks key size cr'

-- A finalizer that is not there can be added, as controllerutil documents it.
abbrev pub AddsFinalizer : Env → Type 0
AddsFinalizer E =
    (fs : List String)
    → E.contains_finalizer fs finalizer ≡ false
    → (E.add_finalizer fs finalizer).1 ≡ true

abbrev IfAsks : ObjectKey → ℤ → Option V2ray → Type 0
IfAsks key size none = ⊥
IfAsks key size (some cr) = Asks key size cr

module _ (E : Env) (key : ObjectKey) (size : ℤ) (keeps : KeepsAsking E key size) where
  init_status-Yields :
      (cr : V2ray)
      → Asks key size cr
      → Yields (λ (c : V2ray). Asks key size c) (init_status E key cr)
  unfolding init_status
  init_status-Yields cr asks =
      Yields-if _ _ _
        (Yields-bind _ _ (Yields-any _)
          (λ _ _. Yields-request _ _ (λ h c answer. keeps.reads h c answer)))
        (Yields-pure cr asks)

  ensure_finalizer-Yields :
      AddsFinalizer E
      → (cr : V2ray) → Asks key size cr
      → Yields (IfAsks key size) (ensure_finalizer E cr)
  unfolding ensure_finalizer
  ensure_finalizer-Yields adds cr asks =
      elim (Bool-cases (E.contains_finalizer cr.metadata.finalizers finalizer)) [
        | inl there ↦ rw there (Yields-pure (some cr) asks)
        | inr missing ↦ rw missing (
            rw (adds cr.metadata.finalizers missing) (
              Yields-bind _ _ (Yields-request _ _ (λ h c answer. keeps.writes h _ c answer))
                (λ c known. Yields-pure (some c) known)))
      ]

  init_status-Makes : (cr : V2ray) → Makes spares E none (init_status E key cr)
  unfolding init_status
  init_status-Makes cr = search makes_rules depth 12

  ensure_finalizer-Makes : (cr : V2ray) → Makes spares E none (ensure_finalizer E cr)
  unfolding ensure_finalizer
  ensure_finalizer-Makes cr = search makes_rules depth 12

  module _ (before : Option Deployment) (asked : eqb_ℤ size (pos 0) ≡ false)
      (deploys : KeepsDeployment E key before) where
    Settles-ensure :
        (cr : V2ray) → Asks key size cr → Settles E key size before (ensure_deployment E key cr)
    Settles-ensure cr asks = record {
      reached = λ h.
          subst (λ n. DoneSized E key before n (ensure_deployment E key cr h)) asks.sized
            (DoneSized-ensure E key before deploys cr h asks.named
              (ap (λ n. eqb_ℤ n (pos 0)) asks.sized ∙ asked));
      quiet = λ h sized. quiet_at_size E key before deploys cr h asks.named (rw asks.sized sized);
    }

    Settles-settle :
        (kept : Option V2ray)
        → IfAsks key size kept
        → Settles E key size before (settle_v2ray E key kept)
    unfolding settle_v2ray
    Settles-settle none asks = absurd asks
    Settles-settle (some cr) asks = rw asks.kept (Settles-ensure cr asks)

    Settles-found :
        AddsFinalizer E
        → (cr : V2ray) → Asks key size cr
        → Settles E key size before (reconcile_found E key cr)
    unfolding reconcile_found
    Settles-found adds cr asks =
        Settles-bind E key size before _ _ (init_status-Makes cr) (init_status-Yields cr asks)
          (λ cr asks.
            Settles-bind E key size before _ _ (ensure_finalizer-Makes cr)
              (ensure_finalizer-Yields adds cr asks) Settles-settle)

    Settles-fetched :
        AddsFinalizer E
        → (h : History) (found : Reply V2ray) → E.get_v2ray h key ≡ found
        → Settles E key size before (fetched E key found)
    unfolding fetched
    Settles-fetched adds h (ok cr) answer = Settles-found adds cr (keeps.reads h cr answer)
    Settles-fetched adds h (err e) answer =
        rw (keeps.exists h e answer)
          (Settles-fail E key size before (record e { not_found = false }))

    Settles-reconcile : AddsFinalizer E → Settles E key size before (reconcile E key)
    unfolding reconcile ◌>>=◌
    Settles-reconcile adds = record {
      reached = λ h.
          rw attempt-request ((Settles-fetched adds h _ refl).reached (Call.get_v2ray key ∷ h));
      quiet = λ h sized.
          rw attempt-request ((Settles-fetched adds h _ refl).quiet (Call.get_v2ray key ∷ h) sized);
    }

-- Where the V2ray object stays one that is not marked to be deleted and asks for the same size, not 0,
-- a finalizer that is missing can be added, nobody else writes the deployment and reads of it are up
-- to date: a whole run of `Reconcile` that returns a result leaves a deployment of that size stored,
-- whatever deployment was stored before, and another whole run asks for no write of a deployment.
-- Writes may be refused, reads may fail, and the server may fill in all but the name and the size,
-- which setting an owner leaves as they are.
pub reconcile-converges :
    (E : Env) (key : ObjectKey) (size : ℤ) (before : Option Deployment)
    → KeepsAsking E key size
    → AddsFinalizer E
    → KeepsDeployment E key before
    → eqb_ℤ size (pos 0) ≡ false
    → (h : History) {r : ReconcileResult} {h' : History} → reconcile E key h ≡ (done r, h')
    → OfSize size (stored E key before h')
      × (deployment_writes (reconcile E key h').1 ≡ deployment_writes h')
reconcile-converges E key size before keeps adds deploys asked h {r} {h'} ran =
    let settles = Settles-reconcile E key size keeps before asked deploys adds in
    let sized : DoneSized E key before size (done r, h') = rw ran at (settles.reached h) in
    (sized, settles.quiet h' sized)
