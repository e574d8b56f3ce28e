-- ===== src/V2ray/Image/Panics.antt =====
-- Which images `labelsForV2ray` can read a version from.
use v2ray_operator.Prelude.{
  ℕ, String, Bool, true, false, eqb, some, List, [], ◌∷◌, ◌≡◌, refl, ◌∙◌, arith, Bool-cases, inl,
  inr, if◌then◌else◌,
}
use Prim.Native.Char.{Char, code}
use v2ray_operator.Prelude.Text.{split, has_prefix, contains, cons_head}
use v2ray_operator.Prelude.Maps.{Dict}
use v2ray_operator.Cluster.Effect.{ok, ◌>>=◌, pure}
use v2ray_operator.Cluster.Requests.{History}
use v2ray_operator.Cluster.Env.{Env}
use v2ray_operator.Cluster.Trace.{panics}
use v2ray_operator.V2ray.Image.{image_for_v2ray, second, labels, labels_for_v2ray}

-- The number of parts is 2 or more.
abbrev several : List String → Bool
several [] = false
several (part ∷ []) = false
several (part ∷ part' ∷ parts) = true

cons_head_nonempty :
    (c : Char) (parts : List String) → several (String.[] ∷ cons_head c parts) ≡ true
unfolding cons_head
cons_head_nonempty c [] = refl
cons_head_nonempty c (part ∷ parts) = refl

split_nonempty : (sep : ℕ) (s : String) → several (String.[] ∷ split sep s) ≡ true
unfolding split
split_nonempty sep String.[] = refl
split_nonempty sep (String.◌∷◌ c s) = elim (Bool-cases (eqb (code c) sep)) [
  | inl found ↦ rw found
  | inr other ↦ rw other (cons_head_nonempty c (split sep s))
]

several-cons_head : (c : Char) (parts : List String) → several (cons_head c parts) ≡ several parts
unfolding cons_head
several-cons_head c [] = refl
several-cons_head c (part ∷ []) = refl
several-cons_head c (part ∷ part' ∷ parts) = refl

pub several-split : (s : String) → several (split b':' s) ≡ contains s ":"
unfolding split contains has_prefix
several-split String.[] = refl
several-split (String.◌∷◌ c s) = elim (Bool-cases (eqb (code c) 58)) [
  | inl found ↦ rw found (split_nonempty 58 s)
  | inr other ↦ rw other (several-cons_head c (split 58 s) ∙ several-split s)
]

pub panics-bind :
    (parts : List String) (f : String → Dict String) (h : History)
    → panics ((second parts >>= λ tag. pure (f tag)) h).0 ≡ (if several parts then false else true)
unfolding second ◌>>=◌
panics-bind [] f h = refl
panics-bind (part ∷ []) f h = refl
panics-bind (part ∷ part' ∷ parts) f h = refl

image_found :
    (E : Env) (image : String)
    → E.lookup_env "V2RAY_IMAGE" ≡ some image
    → image_for_v2ray E ≡ ok image
unfolding image_for_v2ray
image_found E image set = ground arith

-- Where the environment names an image, the labels of a deployment can be made exactly if the image
-- holds a colon; if not, making them panics.
pub panics-labels_for_v2ray :
    (E : Env) (name image : String) (h : History)
    → E.lookup_env "V2RAY_IMAGE" ≡ some image
    → panics (labels_for_v2ray E name h).0 ≡ (if contains image ":" then false else true)
unfolding labels_for_v2ray
panics-labels_for_v2ray E name image h set =
    rw (image_found E image set) (panics-bind (split b':' image) (labels name) h ∙ rw several-split)
