-- ===== src/Copies/Heap/Deep.antt =====
-- What a deep copy promises, and the rules by which the steps of a copy are put together.
use v2ray_operator.Prelude.{
  ℕ, ◌≤◌, ◌≡◌, Option, some, List, [], ◌∷◌, ◌++◌, refl, sym, ◌∙◌, arith, length, length-append,
}
use v2ray_operator.Copies.Heap.{M, ◌>>=◌, pure, get_elem?, get_elem?-append}
use mathlib.Core.List.{append_assoc, append-nil}

module _ {C : Type 0} where
  -- From the address `n` on, the cells of the first memory are in the second.
  abbrev pub Within : ℕ → List C → List C → Type 0
  Within n h h' =
      (a : ℕ) (held : C) → n ≤ a → get_elem? h a ≡ some held → get_elem? h' a ≡ some held

  -- The second memory is the first with cells added.
  pub record Grows (h h' : List C) : Type 0 where
    pub added : List C
    pub grown : h' ≡ h ++ added

  pub Grows-Within : (n : ℕ) {h h' : List C} → Grows h h' → Within n h h'
  Grows-Within n {h} g a held l r = rw g.grown (get_elem?-append h g.added a r)

  pub Grows-length : {h h' : List C} → Grows h h' → length h ≤ length h'
  Grows-length {h} g = rw g.grown (omega (arith, length-append h g.added))

  pub Grows-refl : (h : List C) → Grows h h
  Grows-refl h = record { added = []; grown = sym (append-nil h) }

  pub Grows-trans : {h h' h'' : List C} → Grows h h' → Grows h' h'' → Grows h h''
  Grows-trans {h} g k = record {
    added = g.added ++ k.added;
    grown = k.grown ∙ rw g.grown (append_assoc h g.added k.added);
  }

  pub Grows-alloc : (h : List C) (held : C) → Grows h (h ++ held ∷ [])
  Grows-alloc h held = record { added = held ∷ []; grown = refl }

-- What memory says of a value: its struct with what its addresses lead to; `none` where an address
-- is no good.
abbrev pub View : Type 0 → Type 0 → Type 0 → Type 0
View C X V = List C → X → Option V

module _ {C X V : Type 0} where
  -- `x` has the value `v`, whatever becomes of the cells below `n`.
  abbrev pub Holds : ℕ → View C X V → List C → X → V → Type 0
  Holds n view h x v = (h' : List C) → Within n h h' → view h' x ≡ some v

  -- The step succeeds, changes no cell, and what it returns holds `v` on the cells from `n` on.
  abbrev pub Copied : ℕ → View C X V → M C X → List C → V → Type 0
  Copied n view m h v =
      (y : X) × (h' : List C) × (m h ≡ some (y, h')) × Grows h h' × Holds n view h' y v

  -- A value depends on the cells that are there, and its copy has that value with new cells only.
  pub record Deep (view : View C X V) (into : X → M C X) : Type 0 where
    pub stable :
        (h h' : List C) (x : X) (v : V) → Within 0 h h' → view h x ≡ some v → view h' x ≡ some v
    pub copies :
        (n : ℕ) (h : List C) (x : X) (v : V)
        → n ≤ length h
        → view h x ≡ some v
        → Copied n view (into x) h v

  pub Holds-Grows :
      (n : ℕ) (view : View C X V) {h h' : List C} (x : X) (v : V)
      → Grows h h'
      → Holds n view h x v
      → Holds n view h' x v
  Holds-Grows n view x v g holds k w =
      holds k (λ a held l r. w a held l (Grows-Within n g a held l r))

  pub Copied-pure :
      (n : ℕ) (view : View C X V) (x : X) (h : List C) (v : V)
      → Holds n view h x v
      → Copied n view (pure x) h v
  Copied-pure n view x h v holds = (x, h, refl, Grows-refl h, holds)

pub Copied-bind :
    {C X Y V W : Type 0} (n : ℕ) (viewY : View C Y W) (viewX : View C X V) (m : M C Y)
    (f : Y → M C X) (h : List C) (w : W) (v : V)
    → Copied n viewY m h w
    → ((y : Y) (h' : List C) → Grows h h' → Holds n viewY h' y w → Copied n viewX (f y) h' v)
    → Copied n viewX (m >>= f) h v
Copied-bind n viewY viewX m f h w v (y, h', e, g, holds) next =
    let (x, k, e', g', holds') = next y h' g holds in
    (x, k, rw (e, ◌>>=◌) e', Grows-trans g g', holds')
