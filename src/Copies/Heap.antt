-- ===== src/Copies/Heap.antt =====
-- Memory that only grows: cells at addresses, nil pointers, reading and allocating. A slice or a
-- map is known by the address of what it holds; a slice's spare capacity is not modelled.
pub mod Deep
pub mod Pointers
pub mod Slices
pub mod Fields
pub mod Writes
use v2ray_operator.Prelude.{
  ℕ, zero, suc, ◌+◌, ◌≤◌, ◌≡◌, Option, none, some, List, [], ◌∷◌, ◌++◌, refl, arith, length,
  length-append,
}

module _ {ℓ} {A : Type ℓ} where
  abbrev pub get_elem? : List A → ℕ → Option A
  get_elem? [] i = none
  get_elem? (x ∷ xs) zero = some x
  get_elem? (x ∷ xs) (suc i) = get_elem? xs i

  abbrev pub set : List A → ℕ → A → List A
  set [] i v = []
  set (x ∷ xs) zero v = v ∷ xs
  set (x ∷ xs) (suc i) v = x ∷ set xs i v

  pub get_elem?-append :
      (xs ys : List A) (i : ℕ) {x : A} → get_elem? xs i ≡ some x → get_elem? (xs ++ ys) i ≡ some x
  get_elem?-append [] ys i e = ground arith
  get_elem?-append (x ∷ xs) ys zero e = e
  get_elem?-append (x ∷ xs) ys (suc i) e = get_elem?-append xs ys i e

  pub get_elem?-append_last : (xs : List A) (x : A) → get_elem? (xs ++ x ∷ []) (length xs) ≡ some x
  get_elem?-append_last [] x = refl
  get_elem?-append_last (y ∷ xs) x = get_elem?-append_last xs x

  pub get_elem?-set_self :
      (xs : List A) (i : ℕ) (v : A) {x : A}
      → get_elem? xs i ≡ some x
      → get_elem? (set xs i v) i ≡ some v
  get_elem?-set_self [] i v e = ground arith
  get_elem?-set_self (x ∷ xs) zero v e = refl
  get_elem?-set_self (x ∷ xs) (suc i) v e = get_elem?-set_self xs i v e

  pub get_elem?-set_ne :
      (xs : List A) (i j : ℕ) (v : A) → suc i ≤ j → get_elem? (set xs i v) j ≡ get_elem? xs j
  get_elem?-set_ne [] i j v l = refl
  get_elem?-set_ne (x ∷ xs) zero zero v l = absurd (omega arith)
  get_elem?-set_ne (x ∷ xs) zero (suc j) v l = refl
  get_elem?-set_ne (x ∷ xs) (suc i) zero v l = absurd (omega arith)
  get_elem?-set_ne (x ∷ xs) (suc i) (suc j) v l = get_elem?-set_ne xs i j v (omega arith)

module _ {ℓ} {A : Type ℓ} where
  pub get_elem?-set_before :
      (xs : List A) (i j : ℕ) (v : A) → suc j ≤ i → get_elem? (set xs i v) j ≡ get_elem? xs j
  get_elem?-set_before [] i j v l = refl
  get_elem?-set_before (x ∷ xs) zero j v l = absurd (omega arith)
  get_elem?-set_before (x ∷ xs) (suc i) zero v l = refl
  get_elem?-set_before (x ∷ xs) (suc i) (suc j) v l = get_elem?-set_before xs i j v (omega arith)

-- `none` is a fault: an address that is not there, or holds memory of another type.
abbrev pub M : Type 0 → Type 0 → Type 0
M C A = List C → Option (A × List C)

-- A pointer, a slice or a map; `none` is nil.
abbrev pub Ref : Type 0
Ref = Option ℕ

-- The cells of which memory is made can hold an `X`.
pub record CellOf (C X : Type 0) : Type 0 where
  pub inject : X → C
  pub project : C → Option X
  pub project-inject : (x : X) → project (inject x) ≡ some x

infixl 5 ◌>>=◌
abbrev pub ◌>>=◌ : {C A B : Type 0} → M C A → (A → M C B) → M C B
◌>>=◌ m f h = elim (m h) [ none ↦ none | some (a, h') ↦ f a h' ]

abbrev pub pure : {C A : Type 0} → A → M C A
pure a h = some (a, h)

module _ {C X : Type 0} ⦃c : CellOf C X⦄ where
  abbrev pub fetch : List C → ℕ → Option X
  fetch h a = elim (get_elem? h a) [ none ↦ none | some held ↦ c.project held ]

  abbrev pub load : ℕ → M C X
  load a h = elim (fetch h a) [ none ↦ none | some x ↦ some (x, h) ]

  abbrev pub alloc : X → M C ℕ
  alloc x h = some (length h, h ++ c.inject x ∷ [])

  -- `if in == nil { return nil }; out := new(X); in.DeepCopyInto(out); return out`
  unfoldable pub new_copy : (X → M C X) → Ref → M C Ref
  new_copy into none = pure none
  new_copy into (some a) = do x ← load a; y ← into x; b ← alloc y; pure (some b)

module _ {C X : Type 0} where
  -- `for i := range *in { (*in)[i].DeepCopyInto(&(*out)[i]) }`
  unfoldable pub copy_each : (X → M C X) → List X → M C (List X)
  copy_each into [] = pure []
  copy_each into (x ∷ xs) = do y ← into x; ys ← copy_each into xs; pure (y ∷ ys)

-- `if in != nil { *out = make([]X, len(*in)); copy(*out, *in) }`
unfoldable pub copy_slice : (X : Type 0) {C : Type 0} ⦃c : CellOf C (List X)⦄ → Ref → M C Ref
unfolding new_copy
copy_slice X r = new_copy {X = List X} pure r

-- `if in != nil { *out = make([]X, len(*in)); for … }`
unfoldable pub copy_items : {C X : Type 0} ⦃c : CellOf C (List X)⦄ → (X → M C X) → Ref → M C Ref
unfolding new_copy copy_each
copy_items into r = new_copy (copy_each into) r
