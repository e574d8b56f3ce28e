-- ===== src/Prelude/Text/Decimal.antt =====
-- Numbers as decimal digits: what is printed can be read back, so the fuel of `itoa` is enough.
use Prim.Native.Nat.{ℕ, zero, suc, ◌+◌, ◌-◌, ◌*◌, ◌/◌, ◌%◌, ◌<◌}
use Prim.Native.Char.{Char, code}
use Prim.Native.String.{String, char_at, ◌++◌ as ◌<>◌}
use mathlib.Core.Path.{◌≡◌, refl, ap, sym, ◌∙◌}
use mathlib.Core.Bool.{Bool, true, false, ◌&&◌, ◌||◌}
use mathlib.Core.Logic.{inl, inr}
use text.Mathlib.TextLemmas.{nil-append, cons-append}
use native.Mathlib.Omega.{arith}
use v2ray_operator.Prelude.Tests.{Bool-cases, leb, ltb, eqb}
use v2ray_operator.Prelude.Int.{ℤ, pos, negsuc}
use v2ray_operator.Prelude.Text.{decimal, itoa}

abbrev is_digit : Char → Bool
is_digit c = leb 48 (code c) && leb (code c) 57

abbrev all_digits : String → Bool
all_digits String.[] = true
all_digits (String.◌∷◌ c s) = is_digit c && all_digits s

-- The number that digits stand for, with one in front of them.
abbrev value : ℕ → String → ℕ
value n String.[] = n
value n (String.◌∷◌ c s) = value (n * 10 + (code c - 48)) s

code-digit : (d : ℕ) → d < 10 → code (char_at "0123456789" d) ≡ 48 + d
code-digit zero h = refl
code-digit (suc zero) h = refl
code-digit (suc (suc zero)) h = refl
code-digit (suc (suc (suc zero))) h = refl
code-digit (suc (suc (suc (suc zero)))) h = refl
code-digit (suc (suc (suc (suc (suc zero))))) h = refl
code-digit (suc (suc (suc (suc (suc (suc zero)))))) h = refl
code-digit (suc (suc (suc (suc (suc (suc (suc zero))))))) h = refl
code-digit (suc (suc (suc (suc (suc (suc (suc (suc zero)))))))) h = refl
code-digit (suc (suc (suc (suc (suc (suc (suc (suc (suc zero))))))))) h = refl
code-digit (suc (suc (suc (suc (suc (suc (suc (suc (suc (suc d)))))))))) h = absurd (omega arith)

last_digit : (n : ℕ) → code (char_at "0123456789" (n % 10)) ≡ 48 + n % 10
last_digit n = code-digit (n % 10) (omega arith)

value-decimal :
    (fuel n : ℕ) (text : String) → n < fuel → value 0 (decimal fuel n text) ≡ value n text
unfolding decimal
value-decimal zero n text h = absurd (omega arith)
value-decimal (suc fuel) n text h = elim (Bool-cases (ltb n 10)) [
  | inl small ↦ rw small (ap (λ (m : ℕ). value m text) (ground (arith, last_digit n)))
  | inr large ↦ rw large (
      value-decimal fuel (n / 10) (String.◌∷◌ (char_at "0123456789" (n % 10)) text) (ground arith)
      ∙ ap (λ (m : ℕ). value m text) (ground (arith, last_digit n)))
]

all_digits-decimal :
    (fuel n : ℕ) (text : String) → all_digits text ≡ true → all_digits (decimal fuel n text) ≡ true
unfolding decimal
all_digits-decimal zero n text h = h
all_digits-decimal (suc fuel) n text h = ground (
  arith,
  last_digit n,
  all_digits-decimal fuel (n / 10) (String.◌∷◌ (char_at "0123456789" (n % 10)) text),
)

suc_injective : (m n : ℕ) → suc m ≡ suc n → m ≡ n
suc_injective m n e = omega arith

-- The digits of a number, printed with any fuel above it.
pub value-itoa : (n : ℕ) → value 0 (itoa (pos n)) ≡ n
unfolding itoa
value-itoa n = value-decimal (suc n) n "" (omega arith)

value-itoa_neg : (n : ℕ) → value 0 (decimal (suc (suc n)) (suc n) "") ≡ suc n
value-itoa_neg n = value-decimal (suc (suc n)) (suc n) "" (omega arith)

minus-append : (s : String) → "-" <> s ≡ String.◌∷◌ (char_at "-" 0) s
minus-append s = cons-append (char_at "-" 0) String.[] s ∙ rw nil-append refl

-- A text of digits does not start with a minus sign.
digits-ne-minus : (s t : String) → all_digits s ≡ true → s ≡ "-" <> t → ⊥
digits-ne-minus s t digits e =
    let signed : all_digits (String.◌∷◌ (char_at "-" 0) t) ≡ true =
      rw (minus-append t) at (rw e at digits) in
    cc

abbrev tail : String → String
tail String.[] = String.[]
tail (String.◌∷◌ c s) = s

itoa-digits : (n : ℕ) → all_digits (itoa (pos n)) ≡ true
unfolding itoa
itoa-digits n = all_digits-decimal (suc n) n "" refl

pub itoa-injective : (a b : ℤ) → itoa a ≡ itoa b → a ≡ b
unfolding itoa
itoa-injective (pos m) (pos n) e = ap pos (sym (value-itoa m) ∙ ap (value 0) e ∙ value-itoa n)
itoa-injective (pos m) (negsuc n) e = absurd (digits-ne-minus (itoa (pos m)) _ (itoa-digits m) e)
itoa-injective (negsuc m) (pos n) e =
    absurd (digits-ne-minus (itoa (pos n)) _ (itoa-digits n) (sym e))
itoa-injective (negsuc m) (negsuc n) e =
    let same = ap tail (sym (minus-append _) ∙ e ∙ minus-append _) in
    ap negsuc (suc_injective _ _ (sym (value-itoa_neg m) ∙ ap (value 0) same ∙ value-itoa_neg n))

-- No digit and no minus sign is a colon.
abbrev pub has_colon : String → Bool
has_colon String.[] = false
has_colon (String.◌∷◌ c s) = eqb (code c) b':' || has_colon s

digits_no_colon : (s : String) → all_digits s ≡ true → has_colon s ≡ false
digits_no_colon String.[] h = refl
digits_no_colon (String.◌∷◌ c s) h = ground (arith, digits_no_colon s)

pub has_colon-itoa : (a : ℤ) → has_colon (itoa a) ≡ false
unfolding itoa
has_colon-itoa (pos n) = digits_no_colon (itoa (pos n)) (itoa-digits n)
has_colon-itoa (negsuc n) = rw (minus-append (decimal (suc (suc n)) (suc n) "")) (
    digits_no_colon (decimal (suc (suc n)) (suc n) "")
      (all_digits-decimal (suc (suc n)) (suc n) "" refl))
