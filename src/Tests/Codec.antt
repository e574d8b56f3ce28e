-- ===== src/Tests/Codec.antt =====
-- Simple encodings that keep the promises asked of base64 and JSON.
use Prim.Native.Char.{Char, code}
use Prim.Native.String.{char_at}
use Prim.Native.String.compare
use text.Mathlib.Text.{is_eq}
use text.Mathlib.TextLemmas.{head-eq_of_cons-eq}
use v2ray_operator.Prelude.{
  String, ◌<>◌, true, false, List, [], ◌∷◌, ◌≡◌, refl, ap, ◌∙◌, eq_iff, eqb, arith, if◌then◌else◌,
  Bool-cases, inl, inr,
}
use v2ray_operator.Prelude.Maps.{Dict}
use v2ray_operator.Prelude.Text.{contains, has_prefix, split, split-line}
use v2ray_operator.Cluster.Effect.{ok}
use v2ray_operator.V2fly.Links.{Codec}
use v2ray_operator.V2fly.Links.RoundTrip.{CodecLaws}

abbrev newline : Char
newline = char_at "\n" 0

abbrev marker : Char
marker = char_at "c" 0

abbrev letter_n : Char
letter_n = char_at "n" 0

-- A line break becomes the letter n, and a marker goes before any other character.
pub escape : String → String
escape String.[] = String.[]
escape (String.◌∷◌ c s) =
    let rest = escape s in
    if eqb (code c) 10 then String.◌∷◌ letter_n rest else String.◌∷◌ marker (String.◌∷◌ c rest)

pub unescape : String → String
unescape String.[] = String.[]
unescape (String.◌∷◌ m String.[]) = if eqb (code m) (code letter_n) then "\n" else String.[]
unescape (String.◌∷◌ m (String.◌∷◌ c s)) =
    let after_line = unescape (String.◌∷◌ c s) in
    let after_char = unescape s in
    if eqb (code m) (code letter_n) then String.◌∷◌ newline after_line else String.◌∷◌ c after_char

newline-code : (c : Char) → eqb (code c) 10 ≡ true → c ≡ newline
newline-code c h = head-eq_of_cons-eq (
    (eq_iff (String.◌∷◌ c String.[]) "\n").0
      (ap is_eq (compare.cons-cons c newline String.[] String.[]) ∙ ground arith))

unescape-letter : (s : String) → unescape (String.◌∷◌ letter_n s) ≡ String.◌∷◌ newline (unescape s)
unfolding unescape
unescape-letter String.[] = refl
unescape-letter (String.◌∷◌ c s) = refl

unescape-escape : (s : String) → unescape (escape s) ≡ s
unfolding escape unescape
unescape-escape String.[] = refl
unescape-escape (String.◌∷◌ c s) = elim (Bool-cases (eqb (code c) 10)) [
  | inl line ↦
      rw line (unescape-letter (escape s) ∙ rw (unescape-escape s, newline-code c line) refl)
  | inr other ↦ rw other (ap (λ r. String.◌∷◌ c r) (unescape-escape s))
]

escape_one_line : (s : String) → contains (escape s) "\n" ≡ false
unfolding escape contains has_prefix
escape_one_line String.[] = refl
escape_one_line (String.◌∷◌ c s) = elim (Bool-cases (eqb (code c) 10)) [
  | inl line ↦ rw line (escape_one_line s)
  | inr other ↦ rw other (ground (arith, escape_one_line s))
]

-- A map is written as its keys and values, each on a line.
pub write_map : Dict String → String
write_map [] = ""
write_map ((key, value) ∷ rest) = escape key <> "\n" <> escape value <> "\n" <> write_map rest

pub read_map : List String → Dict String
read_map [] = []
read_map (line ∷ []) = []
read_map (key ∷ value ∷ lines) = (unescape key, unescape value) ∷ read_map lines

read_map-write_map : (l : Dict String) → read_map (split b'\n' (write_map l)) ≡ l
unfolding read_map write_map split
read_map-write_map [] = refl
read_map-write_map ((key, value) ∷ rest) =
    rw (split-line (escape key) (escape value <> "\n" <> write_map rest) (escape_one_line key)) (
      rw (split-line (escape value) (write_map rest) (escape_one_line value))
        (rw (unescape-escape key, unescape-escape value, read_map-write_map rest) refl))

abbrev pub codec : Codec String
codec = record {
  text = λ s. s;
  base64_encode = escape;
  base64_decode = λ s. ok (unescape s);
  json_encode = λ l. ok (write_map l);
  json_decode = λ s. ok (read_map (split b'\n' s));
}

pub codec-CodecLaws : CodecLaws codec
codec-CodecLaws = record {
  decodes = λ s. ap ok (unescape-escape s);
  one_line = escape_one_line;
  json = λ l textual. (write_map l, l, refl, ap ok (read_map-write_map l), λ key. refl);
}
