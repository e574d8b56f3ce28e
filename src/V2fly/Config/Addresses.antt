-- ===== src/V2fly/Config/Addresses.antt =====
-- The address of a server determines its host and port, so servers are told apart by address.
use Prim.Native.Char.{Char}
use Prim.Native.String.{char_at}
use text.Mathlib.TextLemmas.{nil-append, cons-append}
use v2ray_operator.Prelude.{String, ◌<>◌, true, false, ◌≡◌, refl, sym, ap, ◌∙◌, arith}
use v2ray_operator.Prelude.Text.{itoa}
use v2ray_operator.Prelude.Text.Decimal.{has_colon, has_colon-itoa, itoa-injective}
use v2ray_operator.V2fly.Config.{V2rayConfig, server_addr}

abbrev head : String → Char
head String.[] = char_at ":" 0
head (String.◌∷◌ c s) = c

abbrev tail : String → String
tail String.[] = String.[]
tail (String.◌∷◌ c s) = s

-- A host, a colon and what follows it.
abbrev joined : String → String → String
joined h p = h <> ":" <> p

joined-nil : (p : String) → joined "" p ≡ String.◌∷◌ (char_at ":" 0) p
joined-nil p =
    nil-append (":" <> p)
    ∙ cons-append (char_at ":" 0) String.[] p
    ∙ ap (String.◌∷◌ (char_at ":" 0)) (nil-append p)

joined-cons : (c : Char) (h p : String) → joined (String.◌∷◌ c h) p ≡ String.◌∷◌ c (joined h p)
joined-cons c h p = cons-append c h (":" <> p)

has_colon-joined : (h p : String) → has_colon (joined h p) ≡ true
has_colon-joined String.[] p = rw joined-nil refl
has_colon-joined (String.◌∷◌ c h) p = rw joined-cons (ground (arith, has_colon-joined h p))

joined-injective :
    (h k p q : String)
    → has_colon p ≡ false
    → has_colon q ≡ false
    → joined h p ≡ joined k q
    → (h ≡ k) × (p ≡ q)
joined-injective String.[] String.[] p q none_p none_q e =
    (refl, ap tail (sym (joined-nil p) ∙ e ∙ joined-nil q))
joined-injective String.[] (String.◌∷◌ d k) p q none_p none_q e =
    let rest : p ≡ joined k q = ap tail (sym (joined-nil p) ∙ e ∙ joined-cons d k q) in
    cc (has_colon-joined k q, rw rest at none_p)
joined-injective (String.◌∷◌ c h) String.[] p q none_p none_q e =
    let rest : q ≡ joined h p = ap tail (sym (joined-nil q) ∙ sym e ∙ joined-cons c h p) in
    cc (has_colon-joined h p, rw rest at none_q)
joined-injective (String.◌∷◌ c h) (String.◌∷◌ d k) p q none_p none_q e =
    let whole = sym (joined-cons c h p) ∙ e ∙ joined-cons d k q in
    let (same_host, same_port) = joined-injective h k p q none_p none_q (ap tail whole) in
    (rw (ap head whole, same_host) refl, same_port)

-- Two servers with the same address have the same host and the same port, whatever characters the
-- hosts have.
pub server_addr-injective : (c d : V2rayConfig) → server_addr c ≡ server_addr d → c ≡ d
unfolding server_addr
server_addr-injective c d e =
    let (hosts, ports) =
      joined-injective c.host d.host (itoa c.port) (itoa d.port) (has_colon-itoa c.port)
        (has_colon-itoa d.port) e in
    ground (arith, hosts, itoa-injective c.port d.port ports)
