-- ===== src/Copies/Heap/Fields.antt =====
-- Deep copies of structs, from those of the fields that hold addresses.
use v2ray_operator.Prelude.{ℕ, ◌≤◌, ◌≡◌, Option, none, some, List, sym, ap, ◌∙◌, arith, length}
use v2ray_operator.Copies.Heap.{M, ◌>>=◌, pure}
use v2ray_operator.Copies.Heap.Deep.{
  Grows-Within, Grows-length, Grows-trans, View, Copied, Deep, Holds-Grows, Copied-pure,
  Copied-bind,
}
use v2ray_operator.Copies.Heap.Pointers.{map_option}
use v2ray_operator.Copies.Heap.Slices.{both, both-some}

map_option-some :
    {A B : Type 0} (f : A → B) (a : Option A) (b : B)
    → map_option f a ≡ some b
    → (x : A) × (a ≡ some x) × (b ≡ f x)
map_option-some f none b e = absurd (ground arith)
map_option-some f (some a) b e = (a, ground arith, ground arith)

-- The struct `x` with a new field; `make x` is its value from that of the field.
module _ {C X V A VA : Type 0} {viewA : View C A VA} {intoA : A → M C A} (deepA : Deep viewA intoA)
    (get : X → A) (put : X → A → X) (make : X → VA → V) where
  abbrev pub view_one : View C X V
  view_one h x = map_option (make x) (viewA h (get x))

  abbrev pub copy_one : X → M C X
  copy_one x = intoA (get x) >>= λ a. pure (put x a)

  module _
      (law : (h : List C) (x : X) (a : A)
        → view_one h (put x a) ≡ map_option (make x) (viewA h a)) where
    pub Deep-one : Deep view_one copy_one
    Deep-one = record {
      stable = λ h h' x v w e.
          let (u, eu, ev) = map_option-some (make x) (viewA h (get x)) v e in
          rw (deepA.stable h h' (get x) u w eu) (ap some (sym ev));
      copies = λ n h x v l e.
          let (u, eu, ev) = map_option-some (make x) (viewA h (get x)) v e in
          Copied-bind n viewA view_one (intoA (get x)) (λ a. pure (put x a)) h u v
            (deepA.copies n h (get x) u l eu)
            (λ a k grows holds.
              Copied-pure n view_one (put x a) k v
                (λ k' w. law k' x a ∙ rw (holds k' w) (ap some (sym ev))));
    }

-- The same with two fields.
module _ {C X V A VA B VB : Type 0} {viewA : View C A VA} {intoA : A → M C A}
    (deepA : Deep viewA intoA) {viewB : View C B VB} {intoB : B → M C B} (deepB : Deep viewB intoB)
    (getA : X → A) (getB : X → B) (put : X → A → B → X) (make : X → VA → VB → V) where
  abbrev pub view_two : View C X V
  view_two h x = both (make x) (viewA h (getA x)) (viewB h (getB x))

  abbrev pub copy_two : X → M C X
  copy_two x = intoA (getA x) >>= λ a. intoB (getB x) >>= λ b. pure (put x a b)

  module _
      (law : (h : List C) (x : X) (a : A) (b : B)
        → view_two h (put x a b) ≡ both (make x) (viewA h a) (viewB h b)) where
    two_copies :
        (n : ℕ) (h : List C) (x : X) (v : V)
        → n ≤ length h
        → view_two h x ≡ some v
        → Copied n view_two (copy_two x) h v
    two_copies n h x v l e =
        let (u, w, eu, ew, ev) = both-some (make x) (viewA h (getA x)) (viewB h (getB x)) v e in
        Copied-bind n viewA view_two (intoA (getA x))
          (λ a. intoB (getB x) >>= λ b. pure (put x a b)) h u v (deepA.copies n h (getA x) u l eu)
          (λ a k grows holds.
            Copied-bind n viewB view_two (intoB (getB x)) (λ b. pure (put x a b)) k w v
              (deepB.copies n k (getB x) w (omega (arith, Grows-length grows))
                (deepB.stable h k (getB x) w (Grows-Within 0 grows) ew))
              (λ b k' grows' holds'. Copied-pure n view_two (put x a b) k' v (λ k'' i.
                law k'' x a b
                ∙ rw (Holds-Grows n viewA a u grows' holds k'' i, holds' k'' i)
                    (ap some (sym ev)))))

    pub Deep-two : Deep view_two copy_two
    Deep-two = record {
      stable = λ h h' x v i e.
          let (u, w, eu, ew, ev) = both-some (make x) (viewA h (getA x)) (viewB h (getB x)) v e in
          rw (deepA.stable h h' (getA x) u i eu, deepB.stable h h' (getB x) w i ew)
            (ap some (sym ev));
      copies = two_copies;
    }

-- The first two make a value that waits for the third.
abbrev pub all_three :
    {A B D V : Type 0} → (A → B → D → V) → Option A → Option B → Option D → Option V
all_three {D = D} {V = V} f a b d = both (λ (waiting : D → V) y. waiting y) (both f a b) d

-- The same with three.
module _ {C X V A VA B VB D VD : Type 0} {viewA : View C A VA} {intoA : A → M C A}
    (deepA : Deep viewA intoA) {viewB : View C B VB} {intoB : B → M C B} (deepB : Deep viewB intoB)
    {viewD : View C D VD} {intoD : D → M C D} (deepD : Deep viewD intoD) (getA : X → A)
    (getB : X → B) (getD : X → D) (put : X → A → B → D → X) (make : X → VA → VB → VD → V) where
  abbrev pub view_three : View C X V
  view_three h x = all_three (make x) (viewA h (getA x)) (viewB h (getB x)) (viewD h (getD x))

  abbrev pub copy_three : X → M C X
  copy_three x =
      intoA (getA x) >>= λ a. intoB (getB x) >>= λ b. intoD (getD x) >>= λ d. pure (put x a b d)

  module _
      (law : (h : List C) (x : X) (a : A) (b : B) (d : D)
        → view_three h (put x a b d) ≡ all_three (make x) (viewA h a) (viewB h b) (viewD h d)) where
    three_fields :
        (h : List C) (x : X) (v : V)
        → view_three h x ≡ some v
        → (u : VA) × (w : VB) × (z : VD) × (viewA h (getA x) ≡ some u)
          × (viewB h (getB x) ≡ some w)
          × (viewD h (getD x) ≡ some z)
          × (v ≡ make x u w z)
    three_fields h x v e =
        let (f, z, ef, ez, ev) =
          both-some (λ (f : VD → V) d. f d) (both (make x) (viewA h (getA x)) (viewB h (getB x)))
            (viewD h (getD x)) v e in
        let (u, w, eu, ew, eg) = both-some (make x) (viewA h (getA x)) (viewB h (getB x)) f ef in
        (u, w, z, eu, ew, ez, ev ∙ ap (λ (g : VD → V). g z) eg)

    three_copies :
        (n : ℕ) (h : List C) (x : X) (v : V)
        → n ≤ length h
        → view_three h x ≡ some v
        → Copied n view_three (copy_three x) h v
    three_copies n h x v l e =
        let (u, w, z, eu, ew, ez, ev) = three_fields h x v e in
        Copied-bind n viewA view_three (intoA (getA x))
          (λ a. intoB (getB x) >>= λ b. intoD (getD x) >>= λ d. pure (put x a b d)) h u v
          (deepA.copies n h (getA x) u l eu)
          (λ a k grows holds.
            Copied-bind n viewB view_three (intoB (getB x))
              (λ b. intoD (getD x) >>= λ d. pure (put x a b d)) k w v
              (deepB.copies n k (getB x) w (omega (arith, Grows-length grows))
                (deepB.stable h k (getB x) w (Grows-Within 0 grows) ew))
              (λ b k' grows' holds'.
                Copied-bind n viewD view_three (intoD (getD x)) (λ d. pure (put x a b d)) k' z v
                  (deepD.copies n k' (getD x) z
                    (omega (arith, Grows-length grows, Grows-length grows'))
                    (deepD.stable h k' (getD x) z (Grows-Within 0 (Grows-trans grows grows')) ez))
                  (λ d k'' more holds''. Copied-pure n view_three (put x a b d) k'' v (λ i j.
                    law i x a b d
                    ∙ rw
                        (
                          Holds-Grows n viewA a u (Grows-trans grows' more) holds i j,
                          Holds-Grows n viewB b w more holds' i j,
                          holds'' i j,
                        )
                        (ap some (sym ev))))))

    pub Deep-three : Deep view_three copy_three
    Deep-three = record {
      stable = λ h h' x v i e.
          let (u, w, z, eu, ew, ez, ev) = three_fields h x v e in
          rw
            (
              deepA.stable h h' (getA x) u i eu,
              deepB.stable h h' (getB x) w i ew,
              deepD.stable h h' (getD x) z i ez,
            )
            (ap some (sym ev));
      copies = three_copies;
    }
