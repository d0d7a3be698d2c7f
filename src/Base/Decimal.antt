-- ===== src/Base/Decimal.antt =====
-- Go's strconv on decimal numbers: FormatInt, ParseInt and Atoi in 64 bits.
use Prim.Native.Nat.{ℕ, zero, suc, ◌+◌, ◌-◌, ◌*◌, ◌/◌, ◌%◌, ◌^◌, ◌≤◌, ◌<◌}
use mathlib.Core.Bool.{◌&&◌}
use mathlib.Core.List.{[], ◌∷◌}
use mathlib.Core.Logic.{inl, inr}
use mathlib.Core.Option.{Option, none, some}
use mathlib.Core.Path.{◌≡◌, subst}
use native.Mathlib.Omega.{arith}
use package.meshbridge.Base.Lists.{All}
use package.meshbridge.Base.Tests.{◌==◌, ltb, leb, if◌then◌else◌, Bool-cases}
use package.meshbridge.Base.Text.{Text}

-- `negsuc n` is -(n + 1).
pub data ℤ : Type 0 where
  pos : ℕ → ℤ
  negsuc : ℕ → ℤ

abbrev pub IsDigit : ℕ → Type 0
IsDigit c = (48 ≤ c) × (c ≤ 57)

digits : ℕ → ℕ → Text → Text
digits zero n out = out
digits (suc fuel) n out =
    let rest = digits fuel (n / 10) ((48 + n % 10) ∷ out) in
    if ltb n 10 then (48 + n) ∷ out else rest

-- A number has fewer digits than itself and one more.
unfoldable pub format_nat : ℕ → Text
unfolding digits
format_nat n = digits (suc n) n []

unfoldable pub format_int : ℤ → Text
unfolding format_nat
format_int (pos n) = format_nat n
format_int (negsuc n) = 45 ∷ format_nat (n + 1)

unfoldable pub scan : Text → ℕ → Option ℕ
scan [] n = some n
scan (c ∷ s) n =
    let rest = scan s (n * 10 + (c - 48)) in if leb 48 c && leb c 57 then rest else none

-- At least one digit.
unfoldable pub parse_digits : Text → Option ℕ
unfolding scan
parse_digits [] = none
parse_digits (c ∷ s) = scan (c ∷ s) 0

positive : Option ℕ → Option ℤ
positive none = none
positive (some n) = if ltb n (2 ^ 63) then some (pos n) else none

negative : Option ℕ → Option ℤ
negative none = none
negative (some zero) = some (pos 0)
negative (some (suc n)) = if ltb n (2 ^ 63) then some (negsuc n) else none

-- strconv.ParseInt(s, 10, 64): an optional sign, digits, and a value that fits.
unfoldable pub parse_int : Text → Option ℤ
unfolding parse_digits positive negative
parse_int [] = none
parse_int (c ∷ s) =
    if c == 45
    then negative (parse_digits s)
    else if c == 43
    then positive (parse_digits s)
    else positive (parse_digits (c ∷ s))

scan-digits : (fuel n : ℕ) (out : Text) → n < fuel → scan (digits fuel n out) 0 ≡ scan out n
unfolding scan digits
scan-digits zero n out enough = absurd (omega arith)
scan-digits (suc fuel) n out enough =
    ground (arith, scan-digits fuel (n / 10) ((48 + n % 10) ∷ out))

digits_form :
    (fuel n : ℕ) (out : Text)
    → n < fuel
    → (c : ℕ) × (s : Text) × (digits fuel n out ≡ c ∷ s) × IsDigit c
unfolding digits
digits_form zero n out enough = absurd (omega arith)
digits_form (suc fuel) n out enough = elim (Bool-cases (ltb n 10)) [
  | inl small ↦ (48 + n, out, rw small, ground arith)
  | inr big ↦ rw big (digits_form fuel (n / 10) ((48 + n % 10) ∷ out) (ground arith))
]

All-digits : (fuel n : ℕ) (out : Text) → All IsDigit out → All IsDigit (digits fuel n out)
unfolding digits
All-digits zero n out h = h
All-digits (suc fuel) n out h = ground (arith, All-digits fuel (n / 10) ((48 + n % 10) ∷ out))

pub All-format_nat : (n : ℕ) → All IsDigit (format_nat n)
unfolding format_nat
All-format_nat n = All-digits (suc n) n [] tt

pub format_nat_form : (n : ℕ) → (c : ℕ) × (s : Text) × (format_nat n ≡ c ∷ s) × IsDigit c
unfolding format_nat
format_nat_form n = digits_form (suc n) n [] (omega arith)

pub scan-format_nat : (n : ℕ) → scan (format_nat n) 0 ≡ some n
unfolding format_nat scan
scan-format_nat n = scan-digits (suc n) n [] (omega arith)

-- A number of 63 bits is read back from its decimal print.
pub parse_int-format_nat : (n : ℕ) → n < 2 ^ 63 → parse_int (format_nat n) ≡ some (pos n)
unfolding parse_int
parse_int-format_nat n fits =
    let (c, s, form, digit) = format_nat_form n in
    let value : scan (c ∷ s) 0 ≡ some n = subst (λ t. scan t 0 ≡ some n) form (scan-format_nat n) in
    rw form (ground arith)
