-- ===== src/Prelude/Text.antt =====
-- What the program uses of Go's `strings` and `strconv`, over native texts.
pub mod Decimal
use Prim.Native.Nat.{ℕ, zero, suc, ◌-◌, ◌/◌, ◌%◌}
use Prim.Native.Char.{Char, code}
use Prim.Native.String.{String, char_at, ◌++◌ as ◌<>◌}
use mathlib.Core.Path.{◌≡◌, refl, ◌∙◌}
use mathlib.Core.Bool.{Bool, true, false, ◌&&◌, ◌||◌}
use mathlib.Core.Logic.{inl, inr}
use mathlib.Core.Option.{Option, none, some}
use text.Mathlib.TextLemmas.{nil-append, cons-append}
use native.Mathlib.Omega.{arith}
use mathlib.Core.List.{List, [], ◌∷◌}
use v2ray_operator.Prelude.Tests.{Bool-cases, leb, ltb, eqb, if◌then◌else◌}
use v2ray_operator.Prelude.Int.{ℤ, pos, negsuc}

-- `strings.HasPrefix`
unfoldable pub has_prefix : String → String → Bool
has_prefix s String.[] = true
has_prefix String.[] (String.◌∷◌ d t) = false
has_prefix (String.◌∷◌ c s) (String.◌∷◌ d t) = eqb (code c) (code d) && has_prefix s t

-- `strings.Contains`
unfoldable pub contains : String → String → Bool
unfolding has_prefix
contains String.[] t = has_prefix String.[] t
contains (String.◌∷◌ c s) t = has_prefix (String.◌∷◌ c s) t || contains s t

-- `strings.CutPrefix`, with `none` for its false.
unfoldable pub cut_prefix : String → String → Option String
cut_prefix s String.[] = some s
cut_prefix String.[] (String.◌∷◌ d t) = none
cut_prefix (String.◌∷◌ c s) (String.◌∷◌ d t) =
    let rest = cut_prefix s t in if eqb (code c) (code d) then rest else none

pub cut_prefix-append : (t s : String) → cut_prefix (t <> s) t ≡ some s
unfolding cut_prefix
cut_prefix-append String.[] s = rw nil-append refl
cut_prefix-append (String.◌∷◌ d t) s = rw cons-append (ground (arith, cut_prefix-append t s))

-- `strings.ToLower` of ASCII letters; other characters are kept.
lower_char : Char → Char
lower_char c =
    if leb 65 (code c) && leb (code c) 90
    then char_at "abcdefghijklmnopqrstuvwxyz" (code c - 65)
    else c

unfoldable pub to_lower : String → String
unfolding lower_char
to_lower String.[] = String.[]
to_lower (String.◌∷◌ c s) = String.◌∷◌ (lower_char c) (to_lower s)

unfoldable pub cons_head : Char → List String → List String
cons_head c [] = String.◌∷◌ c String.[] ∷ []
cons_head c (part ∷ parts) = String.◌∷◌ c part ∷ parts

-- `strings.Split(s, sep)` for a separator of one character, given by its code.
unfoldable pub split : ℕ → String → List String
unfolding cons_head
split sep String.[] = String.[] ∷ []
split sep (String.◌∷◌ c s) =
    let rest = split sep s in if eqb (code c) sep then String.[] ∷ rest else cons_head c rest

pub contains-append :
    (t s : String)
    → contains t "\n" ≡ false
    → contains s "\n" ≡ false
    → contains (t <> s) "\n" ≡ false
unfolding contains has_prefix
contains-append String.[] s ht hs = rw nil-append hs
contains-append (String.◌∷◌ c t) s ht hs =
    rw cons-append (ground (arith, contains-append t s (ground arith) hs))

append-newline : (rest : String) → "\n" <> rest ≡ String.◌∷◌ (char_at "\n" 0) rest
append-newline rest = cons-append (char_at "\n" 0) String.[] rest ∙ rw nil-append refl

pub split-line :
    (s rest : String)
    → contains s "\n" ≡ false
    → split b'\n' (s <> "\n" <> rest) ≡ s ∷ split b'\n' rest
unfolding split contains has_prefix
split-line String.[] rest h = rw (nil-append, append-newline) refl
split-line (String.◌∷◌ c s) rest h = rw (cons-append c s) (elim (Bool-cases (eqb (code c) 10)) [
  | inl newline ↦ absurd (ground arith)
  | inr other ↦ rw (other, split-line s rest (ground arith)) refl
])

-- The decimal digits of a number in front of a text. The number plus one is fuel enough, since
-- each round divides by ten.
decimal : ℕ → ℕ → String → String
decimal zero n text = text
decimal (suc fuel) n text =
    let text' = String.◌∷◌ (char_at "0123456789" (n % 10)) text in
    let rest = decimal fuel (n / 10) text' in if ltb n 10 then text' else rest

-- `strconv.Itoa` and `%d`
unfoldable pub itoa : ℤ → String
unfolding decimal
itoa (pos n) = decimal (suc n) n ""
itoa (negsuc n) = "-" <> decimal (suc (suc n)) (suc n) ""

itoa_port : itoa (pos 10085) ≡ "10085"
unfolding itoa
itoa_port = refl

split_image : split b':' "v2fly/v2ray:v5" ≡ "v2fly/v2ray" ∷ "v5" ∷ []
unfolding split
split_image = refl

contains_vless : contains "ws+vless" "vless" ≡ true
unfolding contains
contains_vless = refl

lower_region : to_lower "US-West1" ≡ "us-west1"
unfolding to_lower
lower_region = refl
