-- ===== src/Common/Decimal.antt =====
-- The decimal text of a number, as `%d` of fmt prints it.
use Prim.Native.Char.{Char, code}
use Prim.Native.String
use Prim.Native.Nat.{ℕ, zero, suc, ◌+◌, ◌-◌, ◌*◌, ◌/◌, ◌%◌, ◌<◌}
use Prim.Native.String.{String, [], ◌∷◌}
use mathlib.Core.Path.{◌≡◌, refl, sym, ap, ◌∙◌}
use mathlib.Core.Logic.{inl, inr}
use native.Mathlib.Omega.{arith}
use text.Mathlib.TextLemmas.{nil-append, cons-append, append_cancel_left}
use apisix_developer_portal.Common.Tests.{if◌then◌else◌, ltb, Bool-cases}

-- The text of a digit.
abbrev digit : ℕ → String
digit zero = "0"
digit (suc zero) = "1"
digit (suc (suc zero)) = "2"
digit (suc (suc (suc zero))) = "3"
digit (suc (suc (suc (suc zero)))) = "4"
digit (suc (suc (suc (suc (suc zero))))) = "5"
digit (suc (suc (suc (suc (suc (suc zero)))))) = "6"
digit (suc (suc (suc (suc (suc (suc (suc zero))))))) = "7"
digit (suc (suc (suc (suc (suc (suc (suc (suc zero)))))))) = "8"
digit (suc (suc (suc (suc (suc (suc (suc (suc (suc n))))))))) = "9"

-- The digits of `n` before the text `out`; a number below `fuel` is printed whole.
print_onto : ℕ → ℕ → String → String
print_onto zero n out = out
print_onto (suc fuel) n out =
    let rest = print_onto fuel (n / 10) (String.◌++◌ (digit (n % 10)) out) in
    if ltb n 10 then String.◌++◌ (digit n) out else rest

unfoldable pub format_int : ℕ → String
unfolding print_onto
format_int n = print_onto (suc n) n ""

-- The number that a text of digits denotes, after the digits read so far.
read_from : ℕ → String → ℕ
read_from acc [] = acc
read_from acc (c ∷ s) = read_from (acc * 10 + (code c - 48)) s

digit-shape : (d : ℕ) → d < 10 → (c : Char) × (digit d ≡ c ∷ []) × (code c - 48 ≡ d)
digit-shape zero h = (_, refl, refl)
digit-shape (suc zero) h = (_, refl, refl)
digit-shape (suc (suc zero)) h = (_, refl, refl)
digit-shape (suc (suc (suc zero))) h = (_, refl, refl)
digit-shape (suc (suc (suc (suc zero)))) h = (_, refl, refl)
digit-shape (suc (suc (suc (suc (suc zero))))) h = (_, refl, refl)
digit-shape (suc (suc (suc (suc (suc (suc zero)))))) h = (_, refl, refl)
digit-shape (suc (suc (suc (suc (suc (suc (suc zero))))))) h = (_, refl, refl)
digit-shape (suc (suc (suc (suc (suc (suc (suc (suc zero)))))))) h = (_, refl, refl)
digit-shape (suc (suc (suc (suc (suc (suc (suc (suc (suc zero))))))))) h = (_, refl, refl)
digit-shape (suc (suc (suc (suc (suc (suc (suc (suc (suc (suc n)))))))))) h = absurd (omega arith)

read_digit :
    (acc d : ℕ) (s : String)
    → d < 10
    → read_from acc (String.◌++◌ (digit d) s) ≡ read_from (acc * 10 + d) s
unfolding read_from
read_digit acc d s h =
    let (c, shape, value) = digit-shape d h in rw (shape, cons-append, nil-append) (rw value refl)

read-print_onto :
    (fuel n : ℕ) (out : String) → n < fuel → read_from 0 (print_onto fuel n out) ≡ read_from n out
unfolding print_onto
read-print_onto zero n out h = absurd (omega arith)
read-print_onto (suc fuel) n out h = elim (Bool-cases (ltb n 10)) [
  | inl e ↦ rw e (read_digit 0 n out (ground arith) ∙ ap (λ k. read_from k out) (omega arith))
  | inr e ↦ rw e (
      read-print_onto fuel (n / 10) _ (ground arith)
      ∙ read_digit (n / 10) (n % 10) out (omega arith)
      ∙ ap (λ k. read_from k out) (omega arith))
]

read-format_int : (n : ℕ) → read_from 0 (format_int n) ≡ n
unfolding format_int read_from
read-format_int n = read-print_onto (suc n) n "" (omega arith)

-- Numbers with the same decimal text are equal.
pub format_int-injective : (n m : ℕ) → format_int n ≡ format_int m → n ≡ m
format_int-injective n m e = sym (read-format_int n) ∙ ap (read_from 0) e ∙ read-format_int m

-- The same behind a fixed prefix.
pub prefix-format_int-injective :
    (s : String) (n m : ℕ) → String.◌++◌ s (format_int n) ≡ String.◌++◌ s (format_int m) → n ≡ m
prefix-format_int-injective s n m e = format_int-injective n m (append_cancel_left s _ _ e)

format_int_example : format_int 1024 ≡ "1024"
unfolding format_int
format_int_example = refl
