-- ===== src/V2fly/Links/RoundTrip.antt =====
-- A subscription can be read back.
use v2ray_operator.Prelude.{String, ◌<>◌, some, List, [], ◌∷◌, ◌≡◌, refl, ap, ◌∙◌, false, ◌==◌}
use Prim.Native.String.{char_at}
use Prim.Native.String.compare
use text.Mathlib.Text.{is_eq}
use text.Mathlib.TextLemmas.{cons-append, append_assoc, append-nil, nil-append}
use v2ray_operator.Prelude.Maps.{lookup}
use v2ray_operator.Prelude.Text.{cut_prefix-append, contains, contains-append, split, split-line}
use v2ray_operator.V2fly.Links.{
  Codec, SharedLink, to_link, new_shared_link_from_link, unmarshal_link, write_links,
  to_subscription_link_content, read_lines, from_subscription_link_content,
}
use v2ray_operator.Cluster.Effect.{ok, done}

module _ {V : Type 0} where
  -- The maps hold the same values under the same keys, in whatever order.
  abbrev pub SameEntries : SharedLink V → SharedLink V → Type 0
  SameEntries l m = (key : String) → lookup key l ≡ lookup key m

  abbrev pub SameLinks : List (SharedLink V) → List (SharedLink V) → Type 0
  SameLinks [] ms = ms ≡ []
  SameLinks (l ∷ ls) [] = ⊥
  SameLinks (l ∷ ls) (m ∷ ms) = SameEntries l m × SameLinks ls ms

-- Every value is a text.
abbrev pub Textual : {V : Type 0} → Codec V → SharedLink V → Type 0
Textual {V} c l = (key : String) (v : V) → lookup key l ≡ some v → (s : String) × (v ≡ c.text s)

abbrev pub AllTextual : {V : Type 0} → Codec V → List (SharedLink V) → Type 0
AllTextual c [] = Unit
AllTextual c (l ∷ ls) = Textual c l × AllTextual c ls

-- What the encodings promise: base64 is undone by its decoder and makes no line breaks, and a map of
-- texts can be encoded in JSON, which is decoded to the same entries.
pub record CodecLaws {V : Type 0} (c : Codec V) : Type 0 where
  pub decodes : (s : String) → c.base64_decode (c.base64_encode s) ≡ ok s
  pub one_line : (s : String) → contains (c.base64_encode s) "\n" ≡ false
  pub json :
      (l : SharedLink V)
      → Textual c l
      → (s : String) × (l' : SharedLink V) × (c.json_encode l ≡ ok s)
        × (c.json_decode s ≡ ok l')
        × SameEntries l l'

module _ {V : Type 0} (c : Codec V) (laws : CodecLaws c) where
  -- A link and what is read back from it.
  record Linked (l : SharedLink V) : Type 0 where
    line : String
    back : SharedLink V
    written : to_link c l ≡ done line
    read : new_shared_link_from_link c line ≡ ok back
    same : SameEntries l back
    one_line : contains line "\n" ≡ false
    nonempty : line == "" ≡ false

  prefixed_nonempty : (s : String) → "vmess://" <> s == "" ≡ false
  prefixed_nonempty s =
      ap (λ x. x == "") (cons-append (char_at "vmess://" 0) "mess://" s)
      ∙ ap is_eq (compare.cons-nil (char_at "vmess://" 0) ("mess://" <> s))

  link-Linked : (l : SharedLink V) → Textual c l → Linked l
  unfolding contains to_link new_shared_link_from_link unmarshal_link
  link-Linked l textual =
      let (s, back, encoded, decoded, same) = laws.json l textual in
      record {
        line = "vmess://" <> c.base64_encode s;
        back = back;
        written = rw (encoded, to_link) refl;
        read =
            rw (cut_prefix-append, laws.decodes, decoded, new_shared_link_from_link, unmarshal_link)
              refl;
        same = same;
        one_line = contains-append "vmess://" (c.base64_encode s) refl (laws.one_line s);
        nonempty = prefixed_nonempty (c.base64_encode s);
      }

  -- The lines that a list of links is written to, and what is read back from them.
  record Written (ls : List (SharedLink V)) : Type 0 where
    plain : String
    backs : List (SharedLink V)
    appended : (before : String) → write_links c before ls ≡ done (before <> plain)
    read : read_lines c (split b'\n' plain) ≡ ok backs
    same : SameLinks ls backs

  cons-Written :
      (l : SharedLink V) (ls : List (SharedLink V)) → Linked l → Written ls → Written (l ∷ ls)
  unfolding write_links read_lines
  cons-Written l ls one rest = record {
    plain = one.line <> "\n" <> rest.plain;
    backs = one.back ∷ rest.backs;
    appended = λ before.
        rw (one.written, write_links)
          (rest.appended ((before <> one.line) <> "\n") ∙ rw (append_assoc, append_assoc) refl);
    read =
        rw (split-line one.line rest.plain one.one_line)
          (rw (one.nonempty, one.read, rest.read, read_lines) refl);
    same = (one.same, rest.same);
  }

  links-Written : (ls : List (SharedLink V)) → AllTextual c ls → Written ls
  unfolding write_links read_lines split
  links-Written [] all = record {
    plain = "";
    backs = [];
    appended = λ before. rw append-nil refl;
    read = refl;
    same = refl;
  }
  links-Written (l ∷ ls) (textual, all) =
      cons-Written l ls (link-Linked l textual) (links-Written ls all)

-- Where the encodings keep their promises and every value of every link is a text, a subscription is
-- written without a panic, and reading it back gives as many links, in the same order, each with the
-- same entries.
pub from-to_subscription_link_content :
    {V : Type 0} (c : Codec V)
    → CodecLaws c
    → (links : List (SharedLink V)) → AllTextual c links
    → (content : String) × (backs : List (SharedLink V)) × (to_subscription_link_content c links
        ≡ done content)
      × (from_subscription_link_content c content ≡ ok backs)
      × SameLinks links backs
unfolding to_subscription_link_content from_subscription_link_content
from-to_subscription_link_content c laws links all =
    let w = links-Written c laws links all in
    (
      c.base64_encode w.plain,
      w.backs,
      rw (w.appended "", nil-append) refl,
      rw (laws.decodes w.plain, from_subscription_link_content) w.read,
      w.same,
    )
