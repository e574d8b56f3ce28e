-- ===== src/V2ray/Reconcile/Stored.antt =====
-- What the API server stores of one deployment, read off the writes that it accepted, and what it
-- promises of reads and writes.
use v2ray_operator.Prelude.{
  Bool, true, ◌&&◌, ◌==◌, eq_refl, some, none, List, [], ◌∷◌, ◌≡◌, Option, if◌then◌else◌, arith,
}
use v2ray_operator.Prelude.Int.{ℤ}
use v2ray_operator.Api.Meta.{ObjectKey}
use v2ray_operator.Api.Deployment.{Deployment}
use v2ray_operator.Api.V2ray.{V2ray}
use v2ray_operator.Cluster.Effect.{Error, Reply, ok, err}
use v2ray_operator.Cluster.Requests.{Call, History}
use v2ray_operator.Cluster.Env.{Env}

-- The deployment has that name and namespace.
abbrev pub names : ObjectKey → Deployment → Bool
names key d = (d.metadata.namespace == key.namespace) && (d.metadata.name == key.name)

-- A write that is accepted leaves what it is answered with; one that is refused changes nothing.
abbrev pub accepted : Reply Deployment → Option Deployment → Option Deployment
accepted (ok d) before = some d
accepted (err e) before = before

module _ (E : Env) (key : ObjectKey) (before : Option Deployment) where
  -- The deployment of that key, after the calls made; `before` them it was there or not.
  abbrev pub stored : History → Option Deployment
  stored [] = before
  stored (Call.create_deployment d ∷ h) =
      let earlier = stored h in
      if names key d then accepted (E.create_deployment h d) earlier else earlier
  stored (Call.update_deployment d ∷ h) =
      let earlier = stored h in
      if names key d then accepted (E.update_deployment h d) earlier else earlier
  stored (_ ∷ h) = stored h

-- The deployments that the controller asked to write, accepted or not.
abbrev pub deployment_writes : History → List Deployment
deployment_writes [] = []
deployment_writes (Call.create_deployment d ∷ h) = d ∷ deployment_writes h
deployment_writes (Call.update_deployment d ∷ h) = d ∷ deployment_writes h
deployment_writes (_ ∷ h) = deployment_writes h

-- What is stored has that many replicas.
abbrev pub OfReplicas : Option ℤ → Option Deployment → Type 0
OfReplicas n none = ⊥
OfReplicas n (some d) = d.replicas ≡ n

-- A deployment of that size is stored.
abbrev pub OfSize : ℤ → Option Deployment → Type 0
OfSize size = OfReplicas (some size)

-- Where nobody else writes the deployment: a read that succeeds shows the name and the replicas that
-- are stored, and only a deployment that is not stored is missing; any read may fail otherwise. A
-- write may be refused, and one that is accepted stores the replicas asked for, whatever else the
-- server fills in. Setting an owner leaves the replicas and the name alone.
pub record KeepsDeployment (E : Env) (key : ObjectKey) (before : Option Deployment) : Type 0 where
  pub reads :
      (h : History) (d : Deployment)
      → E.get_deployment h key ≡ ok d
      → OfReplicas d.replicas (stored E key before h) × (names key d ≡ true)
  pub missing :
      (h : History) (e : Error)
      → E.get_deployment h key ≡ err e
      → e.not_found ≡ true
      → stored E key before h ≡ none
  pub creates :
      (h : History) (d d' : Deployment) (n : ℤ)
      → E.create_deployment h d ≡ ok d'
      → d.replicas ≡ some n
      → d'.replicas ≡ some n
  pub updates :
      (h : History) (d d' : Deployment) (n : ℤ)
      → E.update_deployment h d ≡ ok d'
      → d.replicas ≡ some n
      → d'.replicas ≡ some n
  pub owner_keeps :
      (cr : V2ray) (d d' : Deployment)
      → E.set_controller_reference cr d ≡ ok d'
      → (d'.replicas ≡ d.replicas) × (names key d' ≡ names key d)

module _ {E : Env} {key : ObjectKey} {before : Option Deployment}
    (keeps : KeepsDeployment E key before) (h : History) (d : Deployment) {d' : Deployment}
    (size : ℤ) where
  pub stored-create :
      E.create_deployment h d ≡ ok d'
      → names key d ≡ true
      → d.replicas ≡ some size
      → OfSize size (stored E key before (Call.create_deployment d ∷ h))
  stored-create answer named sized = rw (named, answer) (keeps.creates h d d' size answer sized)

  pub stored-update :
      E.update_deployment h d ≡ ok d'
      → names key d ≡ true
      → d.replicas ≡ some size
      → OfSize size (stored E key before (Call.update_deployment d ∷ h))
  stored-update answer named sized = rw (named, answer) (keeps.updates h d d' size answer sized)

-- Deployments of the same name and namespace are named alike.
pub names-own :
    (key : ObjectKey) (d : Deployment)
    → d.metadata.namespace ≡ key.namespace
    → d.metadata.name ≡ key.name
    → names key d ≡ true
names-own key d space name =
    rw (space, name) (ground (arith, eq_refl key.namespace, eq_refl key.name))
