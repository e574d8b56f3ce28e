-- ===== src/Cluster/Makes.antt =====
-- Which calls an action makes, with a rule for each way to build it.
use v2ray_operator.Prelude.{String, Bool, true, false, Option, none, ◌≡◌, refl, if◌then◌else◌}
use v2ray_operator.Cluster.Requests.{Call, History}
use v2ray_operator.Cluster.Effect.{
  Outcome, done, failed, panicked, M, continue, caught, Error, Reply, pure, fail, panic, lift,
  request, attempt, ◌>>=◌,
}
use v2ray_operator.Cluster.Client.{record_event}
use v2ray_operator.Cluster.Env.{Env}
use v2ray_operator.Cluster.Adds.{Adds, stop, more, Adds-trans, Ready, Ready-Adds}

module _ {ℓ} {A : Type ℓ} where
  caught_calls : (r : Outcome A) (h : History) → (caught r h).1 ≡ h
  caught_calls (done a) h = refl
  caught_calls (failed e) h = refl
  caught_calls (panicked m) h = refl

-- The calls of a step and of what follows it.
pub continue-Adds {ℓ} :
    {A B : Type ℓ} {P : History → Call → Bool} (f : A → M B) (h : History) (r : Outcome A × History)
    → Adds P h r.1
    → ((a : A) → r.0 ≡ done a → Adds P h (f a r.1).1)
    → Adds P h (continue r.0 f r.1).1
continue-Adds f h (done a, h') first rest = rest a refl
continue-Adds f h (failed e, h') first rest = first
continue-Adds f h (panicked m, h') first rest = first

module _ (P : History → Call → Bool) (E : Env) where
  -- Every call passes the test, where the server is connected to before.
  pub record Makes {ℓ} (server : Option String) {A : Type ℓ} (m : M A) : Type ℓ where
    pub at : (h : History) → Ready E server h → Adds P h (m h).1

module _ {P : History → Call → Bool} {E : Env} {server : Option String} where
  module _ {ℓ} {A : Type ℓ} where
    pub Makes-pure : (a : A) → Makes P E server (pure a)
    unfolding pure
    Makes-pure a = record { at = λ h now. stop }

    pub Makes-fail : (e : Error) → Makes P E server (fail {A = A} e)
    unfolding fail
    Makes-fail e = record { at = λ h now. stop }

    pub Makes-panic : (message : String) → Makes P E server (panic {A = A} message)
    unfolding panic
    Makes-panic message = record { at = λ h now. stop }

    pub Makes-lift : (r : Reply A) → Makes P E server (lift r)
    unfolding lift
    Makes-lift r = record { at = λ h now. stop }

    pub Makes-request :
        (c : Call) (answer : History → Reply A)
        → ((h : History) → Ready E server h → P h c ≡ true)
        → Makes P E server (request c answer)
    unfolding request
    Makes-request c answer p = record { at = λ h now. more c (p h now) stop }

    pub Makes-attempt : (m : M A) → Makes P E server m → Makes P E server (attempt m)
    unfolding attempt
    Makes-attempt m s = record { at = λ h now. rw caught_calls (s.at h now) }

    pub Makes-if :
        (b : Bool) (m n : M A)
        → Makes P E server m
        → Makes P E server n
        → Makes P E server (if b then m else n)
    Makes-if true m n km kn = km
    Makes-if false m n km kn = kn

    pub Makes-anywhere : {m : M A} → Makes P E none m → Makes P E server m
    Makes-anywhere s = record { at = λ h now. s.at h tt }

  pub Makes-record_event :
      (kind reason message : String)
      → ((h : History) → Ready E server h → P h (Call.record_event kind reason message) ≡ true)
      → Makes P E server (record_event kind reason message)
  unfolding record_event
  Makes-record_event kind reason message p = record { at = λ h now. more _ (p h now) stop }

  module _ {ℓ} {A B : Type ℓ} where
    pub Makes-bind :
        (m : M A) (f : A → M B)
        → Makes P E server m
        → ((a : A) → Makes P E server (f a))
        → Makes P E server (m >>= f)
    unfolding ◌>>=◌
    Makes-bind m f first rest = record {
      at = λ h now. continue-Adds f h (m h) (first.at h now) (λ a _.
          Adds-trans (first.at h now)
            ((rest a).at (m h).1 (Ready-Adds E server (first.at h now) now)));
    }

pub ruleset makes_rules = (
  Makes-pure, Makes-fail, Makes-panic, Makes-lift, Makes-request, Makes-attempt, Makes-if,
  Makes-record_event, Makes-bind,
)
