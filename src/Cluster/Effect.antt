-- ===== src/Cluster/Effect.antt =====
-- Go functions that call out: they return, return an error, or panic, and have made calls.
use v2ray_operator.Prelude.{String, ◌<>◌, Bool, ◌∷◌}
use v2ray_operator.Cluster.Requests.{Call, History}

-- An `error`; `not_found` is what `apierrors.IsNotFound` answers, also through `%w`.
pub record Error : Type 0 where
  pub not_found : Bool
  pub text : String

-- `fmt.Errorf("prefix: %w", err)`
unfoldable pub wrap : String → Error → Error
wrap prefix e = record e { text = prefix <> ": " <> e.text }

-- A value and an error of which one counts.
pub data Reply {ℓ} (A : Type ℓ) : Type ℓ where
  ok : A → Reply A
  err : Error → Reply A

pub data Outcome {ℓ} (A : Type ℓ) : Type ℓ where
  done : A → Outcome A
  failed : Error → Outcome A
  panicked : String → Outcome A

abbrev pub M {ℓ} : Type ℓ → Type ℓ
M A = History → Outcome A × History

abbrev pub settle {ℓ} : {A : Type ℓ} → Reply A → Outcome A
settle (ok a) = done a
settle (err e) = failed e

module _ {ℓ} {A : Type ℓ} where
  unfoldable pub pure : A → M A
  pure a h = (done a, h)

  unfoldable pub fail : Error → M A
  fail e h = (failed e, h)

  unfoldable pub panic : String → M A
  panic message h = (panicked message, h)

  unfoldable pub lift : Reply A → M A
  lift r h = (settle r, h)

  -- A call and its answer, which may rest on all the calls before it.
  unfoldable pub request : Call → (History → Reply A) → M A
  request c answer h = (settle (answer h), c ∷ h)

  abbrev pub caught : Outcome A → History → Outcome (Reply A) × History
  caught (done a) h = (done (ok a), h)
  caught (failed e) h = (done (err e), h)
  caught (panicked p) h = (panicked p, h)

  -- `x, err := f()` where the code goes on after testing `err`.
  unfoldable pub attempt : M A → M (Reply A)
  attempt m h = let (r, h') = m h in caught r h'

module _ {ℓ} {A B : Type ℓ} where
  abbrev pub continue : Outcome A → (A → M B) → M B
  continue (done a) f h = f a h
  continue (failed e) f h = (failed e, h)
  continue (panicked p) f h = (panicked p, h)

  infixl 5 ◌>>=◌ ◌>>◌
  -- `if err != nil { return err }` after each step. Opening this opens the steps too.
  unfoldable pub ◌>>=◌ : M A → (A → M B) → M B
  unfolding pure fail panic lift request attempt
  ◌>>=◌ m f h = let (r, h') = m h in continue r f h'

  abbrev pub ◌>>◌ : M A → M B → M B
  m >> n = m >>= λ _. n
