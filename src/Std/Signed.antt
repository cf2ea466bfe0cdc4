-- ===== src/Std/Signed.antt =====
-- Signed integers as `to_string` prints them and as `str::parse` reads them.
use telemetry_fabric.Prelude.{
  ℕ, ◌+◌, ◌-◌, ◌≤◌, ◌<◌, ◌≡◌, ◌≢◌, refl, [], ◌∷◌, Option, none, some, true, arith, leb, ◌==◌,
  if◌then◌else◌, All,
}
use telemetry_fabric.Prelude.Words.{u64_max}
use telemetry_fabric.Std.Bytes.{Bytes}
use telemetry_fabric.Std.Decimal.{
  decimal, is_digit, parse_digits, parse_u64, parse_u64-decimal, decimal-IsDigits, decimal-ne-nil,
}

-- `negsuc n` is -(n + 1).
pub data ℤ : Type 0 where
  pos : ℕ → ℤ
  negsuc : ℕ → ℤ

unfoldable pub print_int : ℤ → Bytes
print_int (pos n) = decimal n
print_int (negsuc n) = 45 ∷ decimal (n + 1)

-- The number below zero with the digits of `n`; `-0` is 0.
minus : ℕ → ℕ → Option ℤ
minus max n =
    if n == 0 then some (pos 0) else if leb n (max + 1) then some (negsuc (n - 1)) else none

plus : ℕ → ℕ → Option ℤ
plus max n = if leb n max then some (pos n) else none

abbrev with_digits : (ℕ → Option ℤ) → Option ℕ → Option ℤ
with_digits f none = none
with_digits f (some n) = f n

-- For a type with the greatest value `max`, of at most 64 bits: an optional sign and digits.
unfoldable pub parse_signed : ℕ → Bytes → Option ℤ
unfolding minus plus
parse_signed max [] = none
parse_signed max (c ∷ []) = with_digits (plus max) (parse_u64 (c ∷ []))
parse_signed max (c ∷ d ∷ s) =
    if c == 45
    then with_digits (minus max) (parse_digits 0 (d ∷ s))
    else with_digits (plus max) (parse_u64 (c ∷ d ∷ s))

abbrev pub i32_max : ℕ
i32_max = 2147483647

abbrev pub i64_max : ℕ
i64_max = 9223372036854775807

-- The values of a type with the greatest value `max`.
abbrev pub Fits : ℕ → ℤ → Type 0
Fits max (pos n) = n ≤ max
Fits max (negsuc n) = n ≤ max

digits_parse :
    (max : ℕ) (s : Bytes) (n : ℕ)
    → s ≢ []
    → All (λ c. is_digit c ≡ true) s
    → parse_u64 s ≡ some n
    → n ≤ max
    → parse_signed max s ≡ some (pos n)
unfolding parse_signed plus
digits_parse max [] n e d p h = absurd (e refl)
digits_parse max (c ∷ []) n e d p h = rw p (ground arith)
digits_parse max (c ∷ b ∷ s) n e d p h = rw p (ground arith)

minus_parse :
    (max : ℕ) (s : Bytes) (n : ℕ)
    → s ≢ []
    → All (λ c. is_digit c ≡ true) s
    → parse_u64 s ≡ some (n + 1)
    → n ≤ max
    → parse_signed max (45 ∷ s) ≡ some (negsuc n)
unfolding parse_signed minus parse_u64
minus_parse max [] n e d p h = absurd (e refl)
minus_parse max (c ∷ []) n e d p h = ground arith
minus_parse max (c ∷ b ∷ s) n e d p h = ground arith

-- A number of the type is read back as it was printed.
pub parse_signed-print_int :
    (max : ℕ) (n : ℤ) → max < u64_max → Fits max n → parse_signed max (print_int n) ≡ some n
unfolding print_int
parse_signed-print_int max (pos n) l h =
    digits_parse max (decimal n) n (decimal-ne-nil n) (decimal-IsDigits n)
      (parse_u64-decimal n (omega arith)) h
parse_signed-print_int max (negsuc n) l h =
    minus_parse max (decimal (n + 1)) n (decimal-ne-nil (n + 1)) (decimal-IsDigits (n + 1))
      (parse_u64-decimal (n + 1) (omega arith)) h
