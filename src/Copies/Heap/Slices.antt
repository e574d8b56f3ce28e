-- ===== src/Copies/Heap/Slices.antt =====
-- Deep copies of what a slice holds, entry by entry.
use v2ray_operator.Prelude.{
  ℕ, ◌≤◌, ◌≡◌, Option, none, some, List, [], ◌∷◌, refl, sym, ap, arith, length,
}
use v2ray_operator.Copies.Heap.{M, Ref, CellOf, ◌>>=◌, pure, copy_each, copy_slice, copy_items}
use v2ray_operator.Copies.Heap.Deep.{
  Within, Grows-Within, Grows-length, View, Copied, Deep, Holds-Grows, Copied-pure, Copied-bind,
}
use v2ray_operator.Copies.Heap.Pointers.{view_value, view_pointer, Deep-value, Deep-pointer}

abbrev pub both : {A B D : Type 0} → (A → B → D) → Option A → Option B → Option D
both f none b = none
both f (some a) none = none
both f (some a) (some b) = some (f a b)

abbrev pub view_each : {C X V : Type 0} → View C X V → View C (List X) (List V)
view_each view h [] = some []
view_each view h (x ∷ xs) = both ◌∷◌ (view h x) (view_each view h xs)

pub both-some :
    {A B D : Type 0} (f : A → B → D) (a : Option A) (b : Option B) (d : D)
    → both f a b ≡ some d
    → (x : A) × (y : B) × (a ≡ some x) × (b ≡ some y) × (d ≡ f x y)
both-some f none b d e = absurd (ground arith)
both-some f (some a) none d e = absurd (ground arith)
both-some f (some a) (some b) d e = (a, b, refl, refl, ground arith)

module _ {C X V : Type 0} {view : View C X V} {into : X → M C X} (deep : Deep view into) where
  each_stable :
      (h h' : List C) (xs : List X) (vs : List V)
      → Within 0 h h'
      → view_each view h xs ≡ some vs
      → view_each view h' xs ≡ some vs
  each_stable h h' [] vs w e = e
  each_stable h h' (x ∷ xs) vs w e =
      let (u, us, first, rest, ev) = both-some ◌∷◌ (view h x) (view_each view h xs) vs e in
      rw (deep.stable h h' x u w first, each_stable h h' xs us w rest) (ap some (sym ev))

  each_copies :
      (n : ℕ) (h : List C) (xs : List X) (vs : List V)
      → n ≤ length h
      → view_each view h xs ≡ some vs
      → Copied n (view_each view) (copy_each into xs) h vs
  unfolding copy_each
  each_copies n h [] vs l e = Copied-pure n (view_each view) [] h vs (λ k w. e)
  each_copies n h (x ∷ xs) vs l e =
      let (u, us, first, rest, ev) = both-some ◌∷◌ (view h x) (view_each view h xs) vs e in
      Copied-bind n view (view_each view) (into x) (λ y. copy_each into xs >>= λ ys. pure (y ∷ ys))
        h u vs (deep.copies n h x u l first)
        (λ y k grows holds.
          Copied-bind n (view_each view) (view_each view) (copy_each into xs) (λ ys. pure (y ∷ ys))
            k us vs
            (each_copies n k xs us (omega (arith, Grows-length grows))
              (each_stable h k xs us (Grows-Within 0 grows) rest))
            (λ ys k' grows' holds'. Copied-pure n (view_each view) (y ∷ ys) k' vs (λ k'' w.
              rw (Holds-Grows n view y u grows' holds k'' w, holds' k'' w) (ap some (sym ev)))))

  pub Deep-each : Deep (view_each view) (copy_each into)
  Deep-each = record { stable = each_stable; copies = each_copies }

-- A slice whose entries hold no addresses.
abbrev pub view_slice :
    (X : Type 0) {C : Type 0} ⦃c : CellOf C (List X)⦄ → View C Ref (Option (List X))
view_slice X = view_pointer {X = List X} view_value

abbrev pub view_items :
    {C X V : Type 0} ⦃c : CellOf C (List X)⦄ → View C X V → View C Ref (Option (List V))
view_items view = view_pointer (view_each view)

pub Deep-slice :
    (X : Type 0) {C : Type 0} ⦃c : CellOf C (List X)⦄ → Deep {C = C} (view_slice X) (copy_slice X)
unfolding copy_slice
Deep-slice X = Deep-pointer {X = List X} Deep-value

pub Deep-items :
    {C X V : Type 0} ⦃c : CellOf C (List X)⦄ {view : View C X V} {into : X → M C X}
    → Deep view into
    → Deep (view_items view) (copy_items into)
unfolding copy_items
Deep-items deep = Deep-pointer (Deep-each deep)
