-- ===== src/Copies/Heap/Writes.antt =====
-- Writes to memory that is there, and what they leave of a deep copy and of its original.
use v2ray_operator.Prelude.{
  ℕ, zero, suc, ◌≤◌, ◌<◌, ◌≡◌, Option, some, List, [], ◌∷◌, refl, arith, length,
}
use v2ray_operator.Copies.Heap.{
  M, Ref, CellOf, get_elem?, set, get_elem?-set_ne, get_elem?-set_before, new_copy,
}
use v2ray_operator.Copies.Heap.Deep.{Within, Grows, Grows-Within, View, Deep}
use v2ray_operator.Copies.Heap.Pointers.{view_pointer, Deep-pointer}

pub get_elem?-lt {ℓ} :
    {A : Type ℓ} (xs : List A) (i : ℕ) {x : A} → get_elem? xs i ≡ some x → i < length xs
get_elem?-lt [] i e = absurd (ground arith)
get_elem?-lt (x ∷ xs) zero e = omega arith
get_elem?-lt (x ∷ xs) (suc i) e = omega (arith, get_elem?-lt xs i e)

module _ {C : Type 0} where
  -- Each write puts a cell in the place of the one at its address.
  abbrev pub writes : List (ℕ × C) → List C → List C
  writes [] h = h
  writes ((a, held) ∷ ws) h = writes ws (set h a held)

  abbrev pub Below : ℕ → List (ℕ × C) → Type 0
  Below n [] = Unit
  Below n ((a, held) ∷ ws) = (a < n) × Below n ws

  abbrev pub From : ℕ → List (ℕ × C) → Type 0
  From n [] = Unit
  From n ((a, held) ∷ ws) = (n ≤ a) × From n ws

  pub Within-writes :
      (n : ℕ) (ws : List (ℕ × C)) (h : List C) → Below n ws → Within n h (writes ws h)
  Within-writes n [] h below a held l r = r
  Within-writes n ((b, new) ∷ ws) h below a held l r =
      Within-writes n ws (set h b new) below.1 a held l
        (rw (get_elem?-set_ne h b a new (omega (arith, below.0))) r)

  pub get_elem?-writes :
      (n : ℕ) (ws : List (ℕ × C)) (h : List C) (a : ℕ)
      → From n ws
      → a < n
      → get_elem? (writes ws h) a ≡ get_elem? h a
  get_elem?-writes n [] h a from l = refl
  get_elem?-writes n ((b, new) ∷ ws) h a from l = rw (
    get_elem?-writes n ws (set h b new) a from.1 l,
    get_elem?-set_before h b a new (omega (arith, from.0)),
  )

  -- Writes to new cells leave the cells that were there before.
  pub Within-grown :
      (ws : List (ℕ × C)) (h h' : List C)
      → Grows h h'
      → From (length h) ws
      → Within 0 h (writes ws h')
  Within-grown ws h h' grows from a held l r =
      rw (get_elem?-writes (length h) ws h' a from (get_elem?-lt h a r))
        (Grows-Within 0 grows a held l r)

-- The copy `q` of `p` is made in new cells. It has the value of `p`, and keeps it whatever is
-- written to the cells that were there before; `p` keeps it whatever is written to the new ones.
abbrev pub Independent :
    {C X V : Type 0} ⦃c : CellOf C X⦄
    → View C X V
    → List C
    → List C
    → Ref
    → Ref
    → Option V
    → List (ℕ × C)
    → List (ℕ × C)
    → Type 0
Independent view h h' p q v old new =
    Grows h h'
    × (view_pointer view h' q ≡ some v)
    × (view_pointer view (writes old h') q ≡ some v)
    × (view_pointer view (writes new h') p ≡ some v)

module _ {C X V : Type 0} ⦃c : CellOf C X⦄ {view : View C X V} {into : X → M C X}
    (deep : Deep view into) where
  pub new_copy-Independent :
      (h : List C) (p : Ref) (v : Option V) (old new : List (ℕ × C))
      → view_pointer view h p ≡ some v
      → Below (length h) old
      → From (length h) new
      → (q : Ref) × (h' : List C) × (new_copy into p h ≡ some (q, h'))
        × Independent view h h' p q v old new
  new_copy-Independent h p v old new e below from =
      let (q, h', ran, grows, holds) =
        (Deep-pointer deep).copies (length h) h p v (omega arith) e in
      (
        q,
        h',
        ran,
        (
          grows,
          holds h' (λ a held l r. r),
          holds (writes old h') (Within-writes (length h) old h' below),
          (Deep-pointer deep).stable h (writes new h') p v (Within-grown new h h' grows from) e,
        ),
      )
