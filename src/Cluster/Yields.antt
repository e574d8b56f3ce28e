-- ===== src/Cluster/Yields.antt =====
-- What holds of the value of an action that returns one, with a rule for each way to build it.
use v2ray_operator.Prelude.{Bool, true, false, ◌≡◌, refl, if◌then◌else◌}
use v2ray_operator.Cluster.Requests.{Call, History}
use v2ray_operator.Cluster.Effect.{
  Outcome, done, failed, panicked, M, continue, Reply, ok, err, settle, request, attempt, lift,
  pure, ◌>>=◌,
}
use v2ray_operator.Cluster.Trace.{attempt-request}

abbrev pub IfDone {ℓ κ} : {A : Type ℓ} → (A → Type κ) → Outcome A → Type κ
IfDone P (done a) = P a
IfDone P (failed e) = Unit
IfDone P (panicked m) = Unit

-- `m` yields only values of `P`.
pub record Yields {ℓ κ} {A : Type ℓ} (P : A → Type κ) (m : M A) : Type (ℓ ⊔ κ) where
  pub at : (h : History) → IfDone P (m h).0

module _ {ℓ κ} {A : Type ℓ} {P : A → Type κ} where
  pub Yields-pure : (a : A) → P a → Yields P (pure a)
  unfolding pure
  Yields-pure a p = record { at = λ h. p }

IfDone_any {ℓ} : {A : Type ℓ} (r : Outcome A) → IfDone (λ _. Unit {0}) r
IfDone_any (done a) = tt
IfDone_any (failed e) = tt
IfDone_any (panicked m) = tt

pub Yields-any {ℓ} : {A : Type ℓ} (m : M A) → Yields (λ _. Unit {0}) m
Yields-any m = record { at = λ h. IfDone_any (m h).0 }

module _ {ℓ κ} {A : Type ℓ} {P : A → Type κ} where
  pub Yields-lift : (r : Reply A) → ((a : A) → r ≡ ok a → P a) → Yields P (lift r)
  unfolding lift
  Yields-lift (ok a) p = record { at = λ h. p a refl }
  Yields-lift (err e) p = record { at = λ h. tt }

module _ {ℓ κ μ} {A B : Type ℓ} {P : A → Type κ} {Q : B → Type μ} where
  after :
      (f : A → M B) (r : Outcome A × History)
      → IfDone P r.0
      → ((a : A) → P a → Yields Q (f a))
      → IfDone Q (continue r.0 f r.1).0
  after f (done a, h) p next = (next a p).at h
  after f (failed e, h) p next = tt
  after f (panicked m, h) p next = tt

  pub Yields-bind :
      (m : M A) (f : A → M B) → Yields P m → ((a : A) → P a → Yields Q (f a)) → Yields Q (m >>= f)
  unfolding ◌>>=◌
  Yields-bind m f first next = record { at = λ h. after f (m h) (first.at h) next }

module _ {ℓ κ μ} {A : Type ℓ} {P : A → Type κ} {Q : A → Type μ} where
  IfDone-weaken : (r : Outcome A) → ((a : A) → P a → Q a) → IfDone P r → IfDone Q r
  IfDone-weaken (done a) sub p = sub a p
  IfDone-weaken (failed e) sub p = tt
  IfDone-weaken (panicked m) sub p = tt

  pub Yields-weaken : {m : M A} → ((a : A) → P a → Q a) → Yields P m → Yields Q m
  Yields-weaken {m} sub y = record { at = λ h. IfDone-weaken (m h).0 sub (y.at h) }

-- A statement about the value of a reply, if it has one.
abbrev pub IfOk {ℓ κ} : {A : Type ℓ} → (A → Type κ) → Reply A → Type κ
IfOk P (ok a) = P a
IfOk P (err e) = Unit

module _ {ℓ κ} {A : Type ℓ} {P : A → Type κ} where
  ok_known : (r : Reply A) → ((a : A) → r ≡ ok a → P a) → IfOk P r
  ok_known (ok a) known = known a refl
  ok_known (err e) known = tt

  settle_known : (r : Reply A) → ((a : A) → r ≡ ok a → P a) → IfDone P (settle r)
  settle_known (ok a) known = known a refl
  settle_known (err e) known = tt

  -- What is known of every answer to a request.
  pub Yields-request :
      (c : Call) (answer : History → Reply A)
      → ((h : History) (a : A) → answer h ≡ ok a → P a)
      → Yields P (request c answer)
  unfolding request
  Yields-request c answer known = record { at = λ h. settle_known (answer h) (known h) }

  pub Yields-attempt :
      (c : Call) (answer : History → Reply A)
      → ((h : History) (a : A) → answer h ≡ ok a → P a)
      → Yields (IfOk P) (attempt (request c answer))
  Yields-attempt c answer known = record {
    at = λ h. rw attempt-request (ok_known (answer h) (known h));
  }

  pub Yields-if : (b : Bool) (m n : M A) → Yields P m → Yields P n → Yields P (if b then m else n)
  Yields-if true m n ym yn = ym
  Yields-if false m n ym yn = yn

-- The value of a run that returned one.
pub Yields-done {ℓ κ} :
    {A : Type ℓ} (P : A → Type κ) (m : M A) (h : History) {a : A} {h' : History}
    → Yields P m
    → m h ≡ (done a, h')
    → P a
Yields-done P m h y ran = rw ran at (y.at h)
