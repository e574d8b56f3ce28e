-- ===== src/Cluster/Calm.antt =====
-- Actions that never panic, with a rule for each way to build them.
use v2ray_operator.Prelude.{String, Bool, true, false, ◌≡◌, refl, if◌then◌else◌}
use v2ray_operator.Cluster.Requests.{Call, History}
use v2ray_operator.Cluster.Effect.{
  Outcome, done, failed, panicked, M, continue, caught, Error, Reply, ok, err, settle, pure, fail,
  lift, request, attempt, ◌>>=◌,
}
use v2ray_operator.Cluster.Client.{record_event}
use v2ray_operator.Cluster.Trace.{panics}
use v2ray_operator.Cluster.Yields.{IfDone, Yields, Yields-any}

-- `m` returns a value or an error, whatever is answered.
pub record Calm {ℓ} {A : Type ℓ} (m : M A) : Type ℓ where
  pub at : (h : History) → panics (m h).0 ≡ false

module _ {ℓ} {A : Type ℓ} where
  pub Calm-pure : (a : A) → Calm (pure a)
  unfolding pure
  Calm-pure a = record { at = λ h. refl }

  pub Calm-fail : (e : Error) → Calm (fail {A = A} e)
  unfolding fail
  Calm-fail e = record { at = λ h. refl }

  panics-settle : (r : Reply A) → panics (settle r) ≡ false
  panics-settle (ok a) = refl
  panics-settle (err e) = refl

  pub Calm-lift : (r : Reply A) → Calm (lift r)
  unfolding lift
  Calm-lift r = record { at = λ h. panics-settle r }

  pub Calm-request : (c : Call) (answer : History → Reply A) → Calm (request c answer)
  unfolding request
  Calm-request c answer = record { at = λ h. panics-settle (answer h) }

  panics-caught : (r : Outcome A) (h : History) → panics r ≡ false → panics (caught r h).0 ≡ false
  panics-caught (done a) h calm = refl
  panics-caught (failed e) h calm = refl
  panics-caught (panicked m) h calm = calm

  pub Calm-attempt : (m : M A) → Calm m → Calm (attempt m)
  unfolding attempt
  Calm-attempt m c = record { at = λ h. panics-caught (m h).0 (m h).1 (c.at h) }

  pub Calm-if : (b : Bool) (m n : M A) → Calm m → Calm n → Calm (if b then m else n)
  Calm-if true m n cm cn = cm
  Calm-if false m n cm cn = cn

pub Calm-record_event : (kind reason message : String) → Calm (record_event kind reason message)
unfolding record_event
Calm-record_event kind reason message = record { at = λ h. refl }

module _ {ℓ κ} {A B : Type ℓ} {P : A → Type κ} where
  panics-continue :
      (f : A → M B) (r : Outcome A × History)
      → panics r.0 ≡ false
      → IfDone P r.0
      → ((a : A) → P a → Calm (f a))
      → panics (continue r.0 f r.1).0 ≡ false
  panics-continue f (done a, h) calm p rest = (rest a p).at h
  panics-continue f (failed e, h) calm p rest = refl
  panics-continue f (panicked m, h) calm p rest = calm

  -- The rest may use what is known of the value.
  pub Calm-bind-Yields :
      (m : M A) (f : A → M B) → Calm m → Yields P m → ((a : A) → P a → Calm (f a)) → Calm (m >>= f)
  unfolding ◌>>=◌
  Calm-bind-Yields m f c y rest = record {
    at = λ h. panics-continue f (m h) (c.at h) (y.at h) rest;
  }

pub Calm-bind {ℓ} :
    {A B : Type ℓ} (m : M A) (f : A → M B) → Calm m → ((a : A) → Calm (f a)) → Calm (m >>= f)
Calm-bind m f c rest = Calm-bind-Yields m f c (Yields-any m) (λ a _. rest a)

pub ruleset calm_rules = (
  Calm-pure, Calm-fail, Calm-lift, Calm-request, Calm-attempt, Calm-if, Calm-record_event,
  Calm-bind,
)
