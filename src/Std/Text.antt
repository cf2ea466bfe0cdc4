-- ===== src/Std/Text.antt =====
-- A Rust `String` as its UTF-8 bytes: validity, white space, ASCII case, suffixes.
use telemetry_fabric.Prelude.{
  ℕ, zero, suc, ◌+◌, ◌-◌, ◌*◌, ◌%◌, ◌≡◌, refl, Bool, true, ◌&&◌, ◌||◌, List, [], ◌∷◌, Option, none,
  some, ltb, leb, ◌==◌, ◌=text◌, if◌then◌else◌, length, drop,
}
use Prim.Native.Char.{code}
use Prim.Native.String.{String}
use telemetry_fabric.Std.Bytes.{Bytes}

-- The bytes of a literal; all literals of the crates are ASCII.
unfoldable pub text : String → Bytes
text String.[] = []
text (String.◌∷◌ c s) = code c ∷ text s

-- `Utf8Error`: a bad sequence of some length at an index, or an end inside a character.
pub data Utf8Error : Type 0 where
  invalid : ℕ → ℕ → Utf8Error
  incomplete : ℕ → Utf8Error

abbrev pub in_range : ℕ → ℕ → ℕ → Bool
in_range lo hi b = leb lo b && leb b hi

-- By its first byte: the number of bytes that follow, and the range of the next one.
unfoldable pub utf8_lead : ℕ → Option (ℕ × ℕ × ℕ)
utf8_lead b =
    if ltb b 0x80
    then some (0, 0, 0)
    else if in_range 0xc2 0xdf b
    then some (1, 0x80, 0xbf)
    else if b == 0xe0
    then some (2, 0xa0, 0xbf)
    else if b == 0xed
    then some (2, 0x80, 0x9f)
    else if in_range 0xe1 0xef b
    then some (2, 0x80, 0xbf)
    else if b == 0xf0
    then some (3, 0x90, 0xbf)
    else if in_range 0xf1 0xf3 b
    then some (3, 0x80, 0xbf)
    else if b == 0xf4
    then some (3, 0x80, 0x8f)
    else none

-- `left` bytes of the character that began at `start` are to come, the next one in `lo ..= hi`.
unfoldable pub utf8_scan : ℕ → ℕ → ℕ → ℕ → ℕ → Bytes → Option Utf8Error
unfolding utf8_lead
utf8_scan zero lo hi start pos [] = none
utf8_scan (suc left) lo hi start pos [] = some (incomplete start)
utf8_scan zero lo hi start pos (b ∷ rest) = elim (utf8_lead b) [
  | none ↦ some (invalid pos 1)
  | some (left, lo', hi') ↦ utf8_scan left lo' hi' pos (pos + 1) rest
]
utf8_scan (suc left) lo hi start pos (b ∷ rest) =
    let more = utf8_scan left 0x80 0xbf start (pos + 1) rest in
    if in_range lo hi b then more else some (invalid start (pos - start))

-- The error of `String::from_utf8`, if there is one.
unfoldable pub utf8_error : Bytes → Option Utf8Error
unfolding utf8_scan
utf8_error bytes = utf8_scan 0 0 0 0 0 bytes

abbrev pub IsUtf8 : Bytes → Type 0
IsUtf8 s = utf8_error s ≡ none

lead_left : ℕ → ℕ
lead_left b = if ltb b 0xc0 then 0 else if ltb b 0xe0 then 1 else if ltb b 0xf0 then 2 else 3

lead_bits : ℕ → ℕ
lead_bits b =
    if ltb b 0xc0 then b else if ltb b 0xe0 then b % 32 else if ltb b 0xf0 then b % 16 else b % 8

-- `chars()` of valid UTF-8, with `left` bytes of a character to come.
unfoldable pub chars_from : ℕ → ℕ → Bytes → List ℕ
unfolding lead_left lead_bits
chars_from left acc [] = []
chars_from zero acc (b ∷ rest) = elim (lead_left b) [
  | zero ↦ b ∷ chars_from zero 0 rest
  | suc left ↦ chars_from (suc left) (lead_bits b) rest
]
chars_from (suc zero) acc (b ∷ rest) = (acc * 64 + b % 64) ∷ chars_from zero 0 rest
chars_from (suc (suc left)) acc (b ∷ rest) = chars_from (suc left) (acc * 64 + b % 64) rest

-- `char::is_whitespace`
unfoldable pub is_whitespace : ℕ → Bool
is_whitespace c =
    in_range 0x09 0x0d c
    || c == 0x20
    || c == 0x85
    || c == 0xa0
    || c == 0x1680
    || in_range 0x2000 0x200a c
    || c == 0x2028
    || c == 0x2029
    || c == 0x202f
    || c == 0x205f
    || c == 0x3000

all_whitespace : List ℕ → Bool
all_whitespace [] = true
all_whitespace (c ∷ cs) = is_whitespace c && all_whitespace cs

-- `s.trim().is_empty()`
unfoldable pub is_blank : Bytes → Bool
unfolding all_whitespace is_whitespace chars_from
is_blank s = all_whitespace (chars_from 0 0 s)

unfoldable pub lower : ℕ → ℕ
lower b = if in_range 65 90 b then b + 32 else b

unfoldable pub to_ascii_lowercase : Bytes → Bytes
unfolding lower
to_ascii_lowercase [] = []
to_ascii_lowercase (b ∷ s) = lower b ∷ to_ascii_lowercase s

-- `s.ends_with(suffix)`
unfoldable pub ends_with : Bytes → Bytes → Bool
unfolding ◌=text◌
ends_with s suffix =
    leb (length suffix) (length s) && drop (length s - length suffix) s =text suffix

two_byte : is_blank (0xc2 ∷ 0xa0 ∷ 32 ∷ []) ≡ true
unfolding is_blank
two_byte = refl

cut : utf8_error (104 ∷ 0xe2 ∷ 0x82 ∷ []) ≡ some (incomplete 1)
unfolding utf8_error
cut = refl

lower_test : ends_with (to_ascii_lowercase (text "Db.PassWord")) (text "password") ≡ true
unfolding ends_with to_ascii_lowercase text
lower_test = refl
