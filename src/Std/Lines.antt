-- ===== src/Std/Lines.antt =====
-- Methods of `str` on UTF-8 bytes: lines, words, trimming, splitting, and `from_utf8_lossy`. White
-- space is found byte by byte: no character's first byte occurs inside another character.
use telemetry_fabric.Prelude.{
  ℕ, zero, suc, ◌+◌, ◌≡◌, refl, Bool, true, false, ◌&&◌, ◌||◌, List, [], ◌∷◌, ◌++◌, Option, none,
  some, ◌==◌, ◌=text◌, if◌then◌else◌, length, take, drop,
}
use telemetry_fabric.Std.Bytes.{Bytes}
use telemetry_fabric.Std.Text.{text, in_range, utf8_error, invalid, incomplete, to_ascii_lowercase}

unfoldable pub starts_with : Bytes → Bytes → Bool
starts_with [] s = true
starts_with (p ∷ prefix) [] = false
starts_with (p ∷ prefix) (b ∷ s) = p == b && starts_with prefix s

-- `s.strip_prefix(prefix)`
unfoldable pub strip_prefix : Bytes → Bytes → Option Bytes
strip_prefix [] s = some s
strip_prefix (p ∷ prefix) [] = none
strip_prefix (p ∷ prefix) (b ∷ s) =
    let rest = strip_prefix prefix s in if p == b then rest else none

-- The bytes of the white space character in front, 0 where there is none.
unfoldable pub space_width : Bytes → ℕ
space_width [] = 0
space_width (a ∷ []) = if in_range 0x09 0x0d a || a == 0x20 then 1 else 0
space_width (a ∷ b ∷ []) =
    if in_range 0x09 0x0d a || a == 0x20
    then 1
    else if a == 0xc2 && (b == 0x85 || b == 0xa0)
    then 2
    else 0
space_width (a ∷ b ∷ c ∷ s) =
    if in_range 0x09 0x0d a || a == 0x20
    then 1
    else if a == 0xc2 && (b == 0x85 || b == 0xa0)
    then 2
    else if (a == 0xe1 && (b == 0x9a && c == 0x80))
        || ((a == 0xe2
              && (b == 0x80 && (in_range 0x80 0x8a c || (c == 0xa8 || (c == 0xa9 || c == 0xaf)))))
            || ((a == 0xe2 && (b == 0x81 && c == 0x9f)) || (a == 0xe3 && (b == 0x80 && c == 0x80))))
    then 3
    else 0

push_word : Bytes → List Bytes → List Bytes
push_word [] words = words
push_word (b ∷ word) words = (b ∷ word) ∷ words

-- `skip` bytes belong to a white space character; `word` has begun.
unfoldable pub words_from : ℕ → Bytes → Bytes → List Bytes
unfolding push_word
words_from skip word [] = push_word word []
words_from (suc skip) word (b ∷ s) = words_from skip word s
words_from zero word (b ∷ s) = elim (space_width (b ∷ s)) [
  | zero ↦ words_from zero (word ++ (b ∷ [])) s
  | suc skip ↦ push_word word (words_from skip [] s)
]

-- `s.split_whitespace()`
unfoldable pub split_whitespace : Bytes → List Bytes
unfolding words_from
split_whitespace s = words_from 0 [] s

trim_from : ℕ → Bytes → Bytes
trim_from skip [] = []
trim_from (suc skip) (b ∷ s) = trim_from skip s
trim_from zero (b ∷ s) = elim (space_width (b ∷ s)) [ zero ↦ b ∷ s | suc skip ↦ trim_from skip s ]

all_space : ℕ → Bytes → Bool
all_space skip [] = true
all_space (suc skip) (b ∷ s) = all_space skip s
all_space zero (b ∷ s) = elim (space_width (b ∷ s)) [ zero ↦ false | suc skip ↦ all_space skip s ]

trim_end : Bytes → Bytes
trim_end [] = []
trim_end (b ∷ s) = let rest = trim_end s in if all_space 0 (b ∷ s) then [] else b ∷ rest

unfoldable pub trim : Bytes → Bytes
unfolding trim_end trim_from all_space
trim s = trim_end (trim_from 0 s)

unfoldable pub is_empty : Bytes → Bool
is_empty [] = true
is_empty (b ∷ s) = false

-- `s.split_once(c)`, for an ASCII character.
unfoldable pub split_once : ℕ → Bytes → Option (Bytes × Bytes)
split_once c [] = none
split_once c (b ∷ s) =
    let rest = split_once c s in
    if b == c
    then some ([], s)
    else elim rest [ none ↦ none | some (before, after) ↦ some (b ∷ before, after) ]

-- `s.rsplit_once(c)`
unfoldable pub rsplit_once : ℕ → Bytes → Option (Bytes × Bytes)
rsplit_once c [] = none
rsplit_once c (b ∷ s) = elim (rsplit_once c s) [
  | some (before, after) ↦ some (b ∷ before, after)
  | none ↦ if b == c then some ([], s) else none
]

-- A `\r` in front of the `\n` belongs to the line's end.
unfoldable pub strip_cr : Bytes → Bytes
strip_cr [] = []
strip_cr (b ∷ []) = if b == 13 then [] else b ∷ []
strip_cr (b ∷ c ∷ s) = b ∷ strip_cr (c ∷ s)

-- `s.lines()`: the last line may lack its end, and keeps a `\r` then.
unfoldable pub lines_from : Bytes → Bytes → List Bytes
unfolding push_word strip_cr
lines_from line [] = push_word line []
lines_from line (b ∷ s) = elim (b == 10) [
  | true ↦ strip_cr line ∷ lines_from [] s
  | false ↦ lines_from (line ++ (b ∷ [])) s
]

unfoldable pub lines : Bytes → List Bytes
unfolding lines_from
lines s = lines_from [] s

unfoldable pub eq_ignore_ascii_case : Bytes → Bytes → Bool
eq_ignore_ascii_case a b = to_ascii_lowercase a =text to_ascii_lowercase b

abbrev pub nth {ℓ} : {A : Type ℓ} → ℕ → List A → Option A
nth n [] = none
nth zero (x ∷ xs) = some x
nth (suc n) (x ∷ xs) = nth n xs

abbrev pub blank_line : Bytes
blank_line = 13 ∷ 10 ∷ 13 ∷ 10 ∷ []

-- `s.split_once("\r\n\r\n")`
unfoldable pub split_at_blank_line : Bytes → Option (Bytes × Bytes)
unfolding strip_prefix
split_at_blank_line [] = none
split_at_blank_line (b ∷ s) =
    let later = split_at_blank_line s in
    elim (strip_prefix blank_line (b ∷ s)) [
      | some rest ↦ some ([], rest)
      | none ↦ elim later [ none ↦ none | some (before, after) ↦ some (b ∷ before, after) ]
    ]

unfoldable pub contains : ℕ → Bytes → Bool
contains c [] = false
contains c (b ∷ s) = b == c || contains c s

replacement : Bytes
replacement = 0xef ∷ 0xbf ∷ 0xbd ∷ []

-- Each bad sequence becomes one U+FFFD; the fuel is the number of bytes, since each round takes one
-- or more.
lossy_from : ℕ → Bytes → Bytes
unfolding replacement
lossy_from zero s = s
lossy_from (suc fuel) s = elim (utf8_error s) [
  | none ↦ s
  | some (invalid start size) ↦
      take start s ++ (replacement ++ lossy_from fuel (drop (start + size) s))
  | some (incomplete start) ↦ take start s ++ replacement
]

-- `String::from_utf8_lossy`
unfoldable pub from_utf8_lossy : Bytes → Bytes
unfolding lossy_from
from_utf8_lossy s = lossy_from (length s) s

pub from_utf8_lossy-valid : (s : Bytes) → utf8_error s ≡ none → from_utf8_lossy s ≡ s
unfolding from_utf8_lossy
from_utf8_lossy-valid [] h = refl
from_utf8_lossy-valid (b ∷ s) h = rw (h, lossy_from) refl

lines_run : lines (text "a\r\nb\nc\r") ≡ text "a" ∷ text "b" ∷ text "c\r" ∷ []
unfolding lines text
lines_run = refl

words_run : split_whitespace (0xc2 ∷ 0xa0 ∷ text " GET\t/v1 ") ≡ text "GET" ∷ text "/v1" ∷ []
unfolding split_whitespace text space_width
words_run = refl

trim_run : trim (text " a b " ++ (0xe2 ∷ 0x80 ∷ 0xa8 ∷ [])) ≡ text "a b"
unfolding trim text space_width
trim_run = refl

lossy_run :
    from_utf8_lossy (97 ∷ 0xff ∷ 98 ∷ 0xe2 ∷ 0x82 ∷ [])
    ≡ 97 ∷ 0xef ∷ 0xbf ∷ 0xbd ∷ 98 ∷ 0xef ∷ 0xbf ∷ 0xbd ∷ []
unfolding from_utf8_lossy utf8_error
lossy_run = refl
