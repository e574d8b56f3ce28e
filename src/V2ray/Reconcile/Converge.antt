-- ===== src/V2ray/Reconcile/Converge.antt =====
-- The deployment reaches the size that the resource asks for, and stays there.
use v2ray_operator.Prelude.{
  true, false, some, none, ◌∷◌, ◌≡◌, refl, arith, Option, Bool-cases, inl, inr, ap, ◌∙◌,
}
use v2ray_operator.Prelude.Int.{ℤ, pos, negsuc, eqb_ℤ}
use v2ray_operator.Api.Meta.{ObjectKey}
use v2ray_operator.Api.Deployment.{Deployment}
use v2ray_operator.Api.V2ray.{V2ray}
use v2ray_operator.Cluster.Effect.{
  Reply, ok, err, Outcome, done, failed, panicked, continue, caught, pure, fail, settle, ◌>>=◌,
}
use v2ray_operator.Cluster.Requests.{Call, History}
use v2ray_operator.Cluster.Env.{Env}
use v2ray_operator.Cluster.Trace.{attempt-request}
use v2ray_operator.Cluster.Yields.{IfDone, Yields, Yields-any, Yields-bind, Yields-lift}
use v2ray_operator.User.Reconcile.{ReconcileResult}
use v2ray_operator.V2ray.Image.{new_deployment, deployment_for_v2ray}
use v2ray_operator.V2ray.Reconcile.{
  own_key, ensure_deployment, deployed, create, create_with, compare_size, resize, resized,
  report_available, after_a_minute,
}
use v2ray_operator.V2ray.Reconcile.Stored.{
  names, stored, deployment_writes, OfReplicas, OfSize, KeepsDeployment, stored-create,
  stored-update, names-own,
}

eqb_ℤ_refl : (a : ℤ) → eqb_ℤ a a ≡ true
eqb_ℤ_refl (pos n) = ground arith
eqb_ℤ_refl (negsuc n) = ground arith

eqb_ℤ→eq : (a b : ℤ) → eqb_ℤ a b ≡ true → a ≡ b
eqb_ℤ→eq a b h = ground arith

same_replicas : {n m : Option ℤ} (o : Option Deployment) → OfReplicas n o → OfReplicas m o → n ≡ m
same_replicas none a b = absurd a
same_replicas (some d) a b = cc

module _ (E : Env) where
  compare_quiet :
      (key : ObjectKey) (cr : V2ray) (d : Deployment) (o : Option ℤ) (h : History)
      → o ≡ some cr.spec.size
      → deployment_writes (compare_size E key cr d o h).1 ≡ deployment_writes h
  unfolding compare_size report_available ◌>>=◌
  compare_quiet key cr d o h sized = rw sized (ground (arith, eqb_ℤ_refl cr.spec.size))

module _ (E : Env) (key : ObjectKey) (before : Option Deployment) where
  -- A run that returned a result left a deployment of the size.
  abbrev pub DoneSized : ℤ → Outcome ReconcileResult × History → Type 0
  DoneSized size (done r, h) = OfSize size (stored E key before h)
  DoneSized size (failed e, h) = Unit
  DoneSized size (panicked m, h) = Unit

  module _ (keeps : KeepsDeployment E key before) (cr : V2ray) where
    -- The deployment put together has the name and the size of the resource.
    abbrev Asked : Deployment → Type 0
    Asked d = (d.replicas ≡ some cr.spec.size) × (names key d ≡ true)

    quiet_found :
        (h earlier : History) (r : Reply Deployment)
        → E.get_deployment earlier key ≡ r
        → OfSize cr.spec.size (stored E key before earlier)
        → deployment_writes (deployed E key cr r h).1 ≡ deployment_writes h
    unfolding deployed fail
    quiet_found h earlier (ok d) found sized =
        compare_quiet E key cr d d.replicas h
          (same_replicas (stored E key before earlier) (keeps.reads earlier d found).0 sized)
    quiet_found h earlier (err e) found sized = elim (Bool-cases e.not_found) [
      | inl gone ↦ absurd (rw (keeps.missing earlier e found gone) at sized)
      | inr other ↦ rw other refl
    ]

    -- With the size reached a run writes no deployment.
    pub quiet_at_size :
        (h : History)
        → own_key cr ≡ key
        → OfSize cr.spec.size (stored E key before h)
        → deployment_writes (ensure_deployment E key cr h).1 ≡ deployment_writes h
    unfolding ensure_deployment ◌>>=◌
    quiet_at_size h own sized =
        rw (attempt-request, own)
          (quiet_found (Call.get_deployment key ∷ h) h (E.get_deployment h key) refl sized)

    resized_lem :
        (d : Deployment) (h : History) (r : Reply Deployment)
        → E.update_deployment h d ≡ r
        → Asked d
        → DoneSized cr.spec.size (resized E key r (Call.update_deployment d ∷ h))
    unfolding resized ◌>>=◌
    resized_lem d h (ok d') answer asked =
        stored-update keeps h d cr.spec.size answer asked.1 asked.0
    resized_lem d h (err e) answer asked = ground arith

    DoneSized-compare_size :
        (d : Deployment) (o : Option ℤ) (h : History)
        → OfReplicas o (stored E key before h)
        → names key d ≡ true
        → eqb_ℤ cr.spec.size (pos 0) ≡ false
        → DoneSized cr.spec.size (compare_size E key cr d o h)
    unfolding compare_size report_available resize ◌>>=◌
    DoneSized-compare_size d none h now named asked = rw asked tt
    DoneSized-compare_size d (some n) h now named asked = elim (Bool-cases (eqb_ℤ n cr.spec.size)) [
      | inl same ↦ rw (asked, same) (ground (arith, eqb_ℤ→eq n cr.spec.size same))
      | inr other ↦
          rw (asked, other, attempt-request)
            (resized_lem (record d { replicas = some cr.spec.size }) h _ refl (refl, named))
    ]

    Yields-deployment_for_v2ray : own_key cr ≡ key → Yields Asked (deployment_for_v2ray E cr)
    unfolding deployment_for_v2ray new_deployment
    Yields-deployment_for_v2ray own = Yields-bind _ _ (Yields-any _) λ ls _.
        Yields-bind _ _ (Yields-any _) λ image _. Yields-lift _ λ d set.
          let kept = keeps.owner_keeps cr _ d set in
          (
            kept.0,
            kept.1
                ∙ names-own key (new_deployment cr ls image)
                    (ap (λ (k : ObjectKey). k.namespace) own) (ap (λ (k : ObjectKey). k.name) own),
          )

    created_lem :
        (d : Deployment) (h : History) (r : Reply Deployment)
        → E.create_deployment h d ≡ r
        → Asked d
        → DoneSized cr.spec.size
            (continue (settle r) (λ _. pure after_a_minute) (Call.create_deployment d ∷ h))
    unfolding pure
    created_lem d h (ok d') answer asked =
        stored-create keeps h d cr.spec.size answer asked.1 asked.0
    created_lem d h (err e) answer asked = tt

    created :
        (r : Outcome Deployment × History)
        → IfDone Asked r.0
        → DoneSized cr.spec.size (continue (caught r.0 r.1).0 (create_with E cr) (caught r.0 r.1).1)
    unfolding create_with ◌>>=◌
    created (done d, h) asked = created_lem d h _ refl asked
    created (failed e, h) asked = ground arith
    created (panicked m, h) asked = tt

    DoneSized-create : own_key cr ≡ key → (h : History) → DoneSized cr.spec.size (create E cr h)
    unfolding create ◌>>=◌
    DoneSized-create own h = created _ ((Yields-deployment_for_v2ray own).at h)

    DoneSized-deployed :
        (h earlier : History) (r : Reply Deployment)
        → own_key cr ≡ key
        → E.get_deployment earlier key ≡ r
        → stored E key before h ≡ stored E key before earlier
        → eqb_ℤ cr.spec.size (pos 0) ≡ false
        → DoneSized cr.spec.size (deployed E key cr r h)
    unfolding deployed ◌>>=◌
    DoneSized-deployed h earlier (ok d) own found same asked =
        let (now, named) = keeps.reads earlier d found in
        DoneSized-compare_size d d.replicas h (rw same now) named asked
    DoneSized-deployed h earlier (err e) own found same asked = elim (Bool-cases e.not_found) [
      | inl gone ↦ rw gone (DoneSized-create own h)
      | inr other ↦ rw other tt
    ]

    pub DoneSized-ensure :
        (h : History)
        → own_key cr ≡ key
        → eqb_ℤ cr.spec.size (pos 0) ≡ false
        → DoneSized cr.spec.size (ensure_deployment E key cr h)
    unfolding ensure_deployment ◌>>=◌
    DoneSized-ensure h own asked =
        rw (attempt-request, own)
          (DoneSized-deployed (Call.get_deployment key ∷ h) h (E.get_deployment h key) own refl refl
            asked)

-- Where nobody else writes the deployment and the size asked for is not 0, a run that returns a
-- result leaves a deployment with that many replicas, whatever deployment there was before, and a
-- second run asks for no write of a deployment.
pub ensure_deployment-converges :
    (E : Env) (cr : V2ray) (before : Option Deployment)
    → KeepsDeployment E (own_key cr) before
    → eqb_ℤ cr.spec.size (pos 0) ≡ false
    → (h : History) {r : ReconcileResult} {h' : History}
    → ensure_deployment E (own_key cr) cr h ≡ (done r, h')
    → OfSize cr.spec.size (stored E (own_key cr) before h')
      × (deployment_writes (ensure_deployment E (own_key cr) cr h').1 ≡ deployment_writes h')
ensure_deployment-converges E cr before keeps asked h {h'} ran =
    let reached : OfSize cr.spec.size (stored E (own_key cr) before h') =
      rw ran at (DoneSized-ensure E (own_key cr) before keeps cr h refl asked) in
    (reached, quiet_at_size E (own_key cr) before keeps cr h' refl reached)
