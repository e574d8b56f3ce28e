-- ===== src/Copies/Heap/Pointers.antt =====
-- Plain values, and deep copies of what a pointer points to.
use v2ray_operator.Prelude.{
  ℕ, ◌≤◌, ◌≡◌, Option, none, some, List, [], ◌∷◌, ◌++◌, refl, arith, length, inl, inr, Option-cases,
}
use v2ray_operator.Copies.Heap.{
  M, Ref, CellOf, ◌>>=◌, pure, fetch, load, alloc, get_elem?, get_elem?-append_last, new_copy,
}
use v2ray_operator.Copies.Heap.Deep.{
  Within, Grows, Grows-alloc, Grows-length, View, Holds, Copied, Deep, Holds-Grows, Copied-pure,
  Copied-bind,
}

-- A struct without addresses is its own value.
abbrev pub view_value : {C X : Type 0} → View C X X
view_value h x = some x

abbrev pub map_option : {A B : Type 0} → (A → B) → Option A → Option B
map_option f none = none
map_option f (some a) = some (f a)

abbrev pub view_pointer : {C X V : Type 0} ⦃c : CellOf C X⦄ → View C X V → View C Ref (Option V)
view_pointer view h none = some none
view_pointer view h (some a) = elim (fetch h a) [
  | none ↦ none
  | some x ↦ map_option some (view h x)
]

pub Deep-value : {C X : Type 0} → Deep {C = C} {X = X} view_value pure
Deep-value = record {
  stable = λ h h' x v w e. e;
  copies = λ n h x v l e. Copied-pure n view_value x h v (λ h' w. e);
}

pub fetch-Within :
    {C X : Type 0} ⦃c : CellOf C X⦄ (n : ℕ) (h h' : List C) (a : ℕ) {x : X}
    → Within n h h'
    → n ≤ a
    → fetch h a ≡ some x
    → fetch h' a ≡ some x
fetch-Within n h h' a w l e = elim (Option-cases (get_elem? h a)) [
  | inl gone ↦ absurd (ground (arith, gone))
  | inr (held, there) ↦ rw (w a held l there, fetch) (rw (there, fetch) at e)
]

pub fetch-alloc :
    {C X : Type 0} ⦃c : CellOf C X⦄ (h : List C) (x : X)
    → fetch (h ++ c.inject x ∷ []) (length h) ≡ some x
fetch-alloc ⦃c⦄ h x = rw (get_elem?-append_last h (c.inject x), fetch) (c.project-inject x)

module _ {C X V : Type 0} ⦃c : CellOf C X⦄ (view : View C X V) where
  pub Copied-alloc :
      (n : ℕ) (h : List C) (x : X) (v : V)
      → n ≤ length h
      → Holds n view h x v
      → Copied n (view_pointer view) (do b ← alloc x; pure (some b)) h (some v)
  Copied-alloc n h x v l holds =
      let grows : Grows h (h ++ c.inject x ∷ []) = Grows-alloc h (c.inject x) in
      (
        some (length h),
        h ++ c.inject x ∷ [],
        refl,
        grows,
        λ k w. rw (
          fetch-Within n (h ++ c.inject x ∷ []) k (length h) w l (fetch-alloc h x),
          Holds-Grows n view x v grows holds k w,
          view_pointer,
        ),
      )

  pub view_pointer-some :
      (h : List C) (a : ℕ) (v : Option V)
      → view_pointer view h (some a) ≡ some v
      → (x : X) × (u : V) × (fetch h a ≡ some x) × (view h x ≡ some u) × (v ≡ some u)
  view_pointer-some h a v e = elim (Option-cases (fetch {X = X} h a)) [
    | inl gone ↦ absurd (ground (arith, gone))
    | inr (x, there) ↦ elim (Option-cases (view h x)) [
      | inl bad ↦ absurd (ground (arith, there, bad))
      | inr (u, good) ↦ (x, u, there, good, ground (arith, there, good))
    ]
  ]

  view_pointer-eq :
      (h : List C) (a : ℕ) (x : X) (u : V)
      → fetch h a ≡ some x
      → view h x ≡ some u
      → view_pointer view h (some a) ≡ some (some u)
  view_pointer-eq h a x u there good = rw (there, good, view_pointer)

pub Copied-load :
    {C X Y V : Type 0} ⦃c : CellOf C X⦄ (n : ℕ) (view : View C Y V) (a : ℕ) (f : X → M C Y)
    (h : List C) (x : X) (v : V)
    → fetch h a ≡ some x
    → Copied n view (f x) h v
    → Copied n view (load a >>= f) h v
Copied-load n view a f h x v there (y, h', e, grows, holds) =
    (y, h', rw (there, ◌>>=◌, load) e, grows, holds)

module _ {C X V : Type 0} ⦃c : CellOf C X⦄ {view : View C X V} {into : X → M C X}
    (deep : Deep view into) where
  pointer_stable :
      (h h' : List C) (r : Ref) (v : Option V)
      → Within 0 h h'
      → view_pointer view h r ≡ some v
      → view_pointer view h' r ≡ some v
  pointer_stable h h' none v w e = e
  pointer_stable h h' (some a) v w e =
      let (x, u, there, good, ev) = view_pointer-some view h a v e in
      rw ev (
        view_pointer-eq view h' a x u (fetch-Within 0 h h' a w (omega arith) there)
          (deep.stable h h' x u w good))

  pointer_copies :
      (n : ℕ) (h : List C) (r : Ref) (v : Option V)
      → n ≤ length h
      → view_pointer view h r ≡ some v
      → Copied n (view_pointer view) (new_copy into r) h v
  unfolding new_copy
  pointer_copies n h none v l e = Copied-pure n (view_pointer view) none h v (λ k w. e)
  pointer_copies n h (some a) v l e =
      let (x, u, there, good, ev) = view_pointer-some view h a v e in
      rw ev (
        Copied-load n (view_pointer view) a (λ y. into y >>= λ z. alloc z >>= λ b. pure (some b)) h
          x (some u) there
          (Copied-bind n view (view_pointer view) (into x) (λ z. alloc z >>= λ b. pure (some b)) h u
            (some u) (deep.copies n h x u l good)
            (λ y k grows holds.
              Copied-alloc view n k y u (omega (arith, Grows-length grows)) holds)))

  pub Deep-pointer : Deep (view_pointer view) (new_copy into)
  Deep-pointer = record { stable = pointer_stable; copies = pointer_copies }
