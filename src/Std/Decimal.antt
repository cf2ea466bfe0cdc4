-- ===== src/Std/Decimal.antt =====
-- Numbers as `format!` prints them and as `str::parse::<u64>` reads them.
use telemetry_fabric.Prelude.{
  ℕ, zero, suc, ◌+◌, ◌-◌, ◌*◌, ◌/◌, ◌%◌, ◌^◌, ◌≤◌, ◌<◌, ◌≡◌, refl, Bool, true, ◌&&◌, [], ◌∷◌,
  Option, none, some, arith, ltb, leb, ◌==◌, if◌then◌else◌, Bool-cases, inl, inr, All, ◌≢◌, ◌∙◌,
}
use native.Mathlib.Nat.{pow-suc}
use telemetry_fabric.Prelude.Words.{u64_max}
use telemetry_fabric.Prelude.Result.{Result, ok, err}
use telemetry_fabric.Std.Bytes.{Bytes}
use telemetry_fabric.Std.Text.{text}

-- Digits are put in front of `acc`, the last one first; the fuel is the number of digits allowed.
unfoldable pub decimal_loop : ℕ → ℕ → Bytes → Bytes
decimal_loop zero n acc = acc
decimal_loop (suc fuel) n acc =
    let rest = decimal_loop fuel (n / 10) ((48 + n % 10) ∷ acc) in
    if n / 10 == 0 then (48 + n % 10) ∷ acc else rest

-- A `u64` has at most 20 digits.
unfoldable pub decimal : ℕ → Bytes
unfolding decimal_loop
decimal n = decimal_loop 20 n []

abbrev pub is_digit : ℕ → Bool
is_digit c = leb 48 c && leb c 57

unfoldable pub parse_digits : ℕ → Bytes → Option ℕ
parse_digits acc [] = some acc
parse_digits acc (c ∷ rest) =
    let value = acc * 10 + (c - 48) in
    let more = parse_digits value rest in
    if is_digit c then (if ltb u64_max value then none else more) else none

-- A sign `+` is allowed, and there must be a digit.
unfoldable pub parse_u64 : Bytes → Option ℕ
unfolding parse_digits
parse_u64 [] = none
parse_u64 (c ∷ []) = if c == 43 then none else parse_digits 0 (c ∷ [])
parse_u64 (c ∷ d ∷ rest) =
    if c == 43 then parse_digits 0 (d ∷ rest) else parse_digits 0 (c ∷ d ∷ rest)

-- The error of `parse` on a type with the greatest value `max`: at the first bad character, or where
-- the number grows too large.
int_error_from : ℕ → ℕ → Bytes → Bytes
int_error_from max acc [] = text "number too large to fit in target type"
int_error_from max acc (c ∷ rest) =
    let value = acc * 10 + (c - 48) in
    let more = int_error_from max value rest in
    if is_digit c
    then (if ltb max value then text "number too large to fit in target type" else more)
    else text "invalid digit found in string"

int_error : ℕ → Bytes → Bytes
unfolding int_error_from
int_error max [] = text "cannot parse integer from empty string"
int_error max (c ∷ []) =
    if c == 43 then text "invalid digit found in string" else int_error_from max 0 (c ∷ [])
int_error max (c ∷ d ∷ rest) =
    if c == 43 then int_error_from max 0 (d ∷ rest) else int_error_from max 0 (c ∷ d ∷ rest)

unfoldable pub ok_or {ℓ} : {A : Type ℓ} → Option A → Bytes → Result Bytes A
ok_or none message = err message
ok_or (some a) message = ok a

at_most : ℕ → Option ℕ → Option ℕ
at_most max none = none
at_most max (some value) = if ltb max value then none else some value

-- `s.parse()` for an unsigned type of at most 64 bits.
unfoldable pub parse_int : ℕ → Bytes → Result Bytes ℕ
unfolding at_most ok_or int_error
parse_int max s = ok_or (at_most max (parse_u64 s)) (int_error max s)

-- The digits printed in front of a text are read back as the number so far.
pub parse_digits-decimal_loop :
    (fuel n : ℕ) (acc : Bytes)
    → n < 10 ^ suc fuel
    → n ≤ u64_max
    → parse_digits 0 (decimal_loop (suc fuel) n acc) ≡ parse_digits n acc
unfolding parse_digits decimal_loop
parse_digits-decimal_loop zero n acc h m = ground arith
parse_digits-decimal_loop (suc fuel) n acc h m = ground (
  arith,
  pow-suc 10 fuel,
  parse_digits-decimal_loop fuel (n / 10) ((48 + n % 10) ∷ acc)
      (omega (arith, pow-suc 10 (suc fuel))),
)

decimal_loop-IsDigits :
    (fuel n : ℕ) (acc : Bytes)
    → All (λ c. is_digit c ≡ true) acc
    → All (λ c. is_digit c ≡ true) (decimal_loop fuel n acc)
unfolding decimal_loop
decimal_loop-IsDigits zero n acc h = h
decimal_loop-IsDigits (suc fuel) n acc h = elim (Bool-cases (n / 10 == 0)) [
  | inl e ↦ rw e (ground arith, h)
  | inr e ↦ rw e (decimal_loop-IsDigits fuel (n / 10) ((48 + n % 10) ∷ acc) (ground arith, h))
]

pub decimal-IsDigits : (n : ℕ) → All (λ c. is_digit c ≡ true) (decimal n)
unfolding decimal
decimal-IsDigits n = decimal_loop-IsDigits 20 n [] tt

parse_u64-digits :
    (s : Bytes) → s ≢ [] → All (λ c. is_digit c ≡ true) s → parse_u64 s ≡ parse_digits 0 s
unfolding parse_u64
parse_u64-digits [] n h = absurd (n refl)
parse_u64-digits (c ∷ []) n h = ground arith
parse_u64-digits (c ∷ d ∷ r) n h = ground arith

decimal_loop-ne-nil : (fuel n : ℕ) (acc : Bytes) → acc ≢ [] → decimal_loop fuel n acc ≢ []
unfolding decimal_loop
decimal_loop-ne-nil zero n acc h = h
decimal_loop-ne-nil (suc fuel) n acc h =
    ground (arith, decimal_loop-ne-nil fuel (n / 10) ((48 + n % 10) ∷ acc))

pub decimal-ne-nil : (n : ℕ) → decimal n ≢ []
unfolding decimal
decimal-ne-nil n = ground (arith, decimal_loop-ne-nil 19 (n / 10) ((48 + n % 10) ∷ []))

-- A printed `u64` is read back.
pub parse_u64-decimal : (n : ℕ) → n ≤ u64_max → parse_u64 (decimal n) ≡ some n
parse_u64-decimal n h =
    parse_u64-digits (decimal n) (decimal-ne-nil n) (decimal-IsDigits n)
    ∙ (unfold decimal parse_digits in parse_digits-decimal_loop 19 n [] (omega arith) h)

-- A number that fits is read back, whatever the type.
pub parse_int-decimal : (max n : ℕ) → max ≤ u64_max → n ≤ max → parse_int max (decimal n) ≡ ok n
unfolding parse_int
parse_int-decimal max n h l = rw (parse_u64-decimal n (omega arith)) (ground arith)

bounded :
    (max : ℕ) (o : Option ℕ) (message : Bytes) {n : ℕ}
    → ok_or (at_most max o) message ≡ ok n
    → n ≤ max
unfolding ok_or at_most
bounded max none message h = cc
bounded max (some value) message h = ground arith

pub parse_int-le : (max : ℕ) (s : Bytes) {n : ℕ} → parse_int max s ≡ ok n → n ≤ max
unfolding parse_int
parse_int-le max s h = bounded max (parse_u64 s) (int_error max s) h
