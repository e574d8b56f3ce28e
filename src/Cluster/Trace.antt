-- ===== src/Cluster/Trace.antt =====
-- Reading the calls made: those that alter the users of a v2ray server, and outcomes that are no
-- panic.
use v2ray_operator.Prelude.{Bool, true, false, List, [], ◌∷◌, ◌≡◌, refl}
use v2ray_operator.Api.User.{V2rayUser}
use v2ray_operator.Cluster.Requests.{Call, History}
use v2ray_operator.Cluster.Effect.{
  Outcome, done, failed, panicked, Reply, ok, err, caught, settle, attempt, request,
}

-- The calls of `AlterInbound`, the latest first.
abbrev pub alters : History → List Call
alters [] = []
alters (Call.alter_inbound addr tag op ∷ h) = Call.alter_inbound addr tag op ∷ alters h
alters (_ ∷ h) = alters h

-- The entries of the first list put in front one after another, so that the last comes to stand
-- first.
abbrev pub onto {ℓ} : {A : Type ℓ} → List A → List A → List A
onto [] acc = acc
onto (x ∷ xs) acc = onto xs (x ∷ acc)

abbrev pub panics {ℓ} : {A : Type ℓ} → Outcome A → Bool
panics (done a) = false
panics (failed e) = false
panics (panicked m) = true

abbrev pub is_done {ℓ} : {A : Type ℓ} → Outcome A → Bool
is_done (done a) = true
is_done (failed e) = false
is_done (panicked m) = false

-- The statement holds unless there was a panic.
abbrev pub UnlessPanic {ℓ κ} : {A : Type ℓ} → Type κ → Outcome A → Type κ
UnlessPanic P (done a) = P
UnlessPanic P (failed e) = P
UnlessPanic P (panicked p) = Unit

pub unless_panic {ℓ κ} : {A : Type ℓ} {P : Type κ} (r : Outcome A) → P → UnlessPanic P r
unless_panic (done a) p = p
unless_panic (failed e) p = p
unless_panic (panicked m) p = tt

caught-settle {ℓ} : {A : Type ℓ} (r : Reply A) (h : History) → caught (settle r) h ≡ (done r, h)
caught-settle (ok a) h = refl
caught-settle (err e) h = refl

-- A call whose error is caught gives the answer itself.
pub attempt-request {ℓ} :
    {A : Type ℓ} (c : Call) (answer : History → Reply A) (h : History)
    → attempt (request c answer) h ≡ (done (answer h), c ∷ h)
unfolding attempt request
attempt-request c answer h = caught-settle (answer h) (c ∷ h)

-- The V2rayUser objects that were written, the latest first.
abbrev pub user_writes : History → List V2rayUser
user_writes [] = []
user_writes (Call.update_user u ∷ h) = u ∷ user_writes h
user_writes (_ ∷ h) = user_writes h
