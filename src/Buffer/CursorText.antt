-- ===== src/Buffer/CursorText.antt =====
-- The cursor file read back.
use mathlib.Core.List.{append_assoc, append-nil}
use telemetry_fabric.Prelude.{
  ℕ, zero, ◌+◌, ◌<◌, ◌≤◌, ◌≡◌, ◌≢◌, refl, ap, ◌∙◌, List, [], ◌∷◌, ◌++◌, none, some, true, false,
  All, arith,
}
use telemetry_fabric.Prelude.Words.{u64_max}
use telemetry_fabric.Prelude.Result.{ok}
use telemetry_fabric.Std.Bytes.{Bytes}
use telemetry_fabric.Std.Text.{is_whitespace, utf8_error, utf8_scan, utf8_lead, chars_from}
use telemetry_fabric.Std.Decimal.{
  decimal, is_digit, parse_u64, parse_u64-decimal, decimal-IsDigits, decimal-ne-nil,
}
use telemetry_fabric.Buffer.Files.{Dir}
use telemetry_fabric.Buffer.CursorFile.{
  Cursor, words_from, parse_words, cursor_of, parse_cursor, read_cursor, cursor_text,
  persist_cursor,
}

abbrev IsAscii : Bytes → Type 0
IsAscii s = All (λ b. b < 128) s

abbrev AreDigits : Bytes → Type 0
AreDigits s = All (λ c. is_digit c ≡ true) s

ascii_lead : (b : ℕ) → b < 128 → utf8_lead b ≡ some (0, 0, 0)
unfolding utf8_lead
ascii_lead b h = ground arith

ascii_scan : (lo hi start pos : ℕ) (s : Bytes) → IsAscii s → utf8_scan zero lo hi start pos s ≡ none
unfolding utf8_scan
ascii_scan lo hi start pos [] h = refl
ascii_scan lo hi start pos (b ∷ s) h =
    ground (arith, ascii_lead b h.0, ascii_scan 0 0 pos (pos + 1) s h.1)

ascii_chars : (s : Bytes) → IsAscii s → chars_from zero 0 s ≡ s
unfolding chars_from
ascii_chars [] h = refl
ascii_chars (b ∷ s) h = ground (arith, ascii_chars s h.1)

digit_shown : (c : ℕ) → is_digit c ≡ true → (is_whitespace c ≡ false) × (c < 128)
unfolding is_whitespace
digit_shown c h = ground arith

digits-IsAscii : (s rest : Bytes) → AreDigits s → IsAscii rest → IsAscii (s ++ rest)
digits-IsAscii [] rest h r = r
digits-IsAscii (c ∷ s) rest h r = ((digit_shown c h.0).1, digits-IsAscii s rest h.1 r)

-- A word of digits ends at the white space behind it.
digits_word :
    (w : ℕ) (word s : Bytes) (c : ℕ) (rest : Bytes)
    → AreDigits s
    → is_whitespace c ≡ true
    → words_from (w ∷ word) (s ++ (c ∷ rest)) ≡ (w ∷ (word ++ s)) ∷ words_from [] rest
unfolding words_from
digits_word w word [] c rest h e = rw (e, append-nil word) refl
digits_word w word (d ∷ s) c rest h e = rw ((digit_shown d h.0).0) (
    digits_word w (word ++ (d ∷ [])) s c rest h.1 e
    ∙ ap (λ (t : Bytes). (w ∷ t) ∷ words_from [] rest) (append_assoc word (d ∷ []) s))

first_word :
    (s : Bytes) (c : ℕ) (rest : Bytes)
    → s ≢ []
    → AreDigits s
    → is_whitespace c ≡ true
    → words_from [] (s ++ (c ∷ rest)) ≡ s ∷ words_from [] rest
unfolding words_from
first_word [] c rest n h e = absurd (n refl)
first_word (d ∷ s) c rest n h e = rw ((digit_shown d h.0).0) (digits_word d [] s c rest h.1 e)

cursor_text-words :
    (c : Cursor) → words_from [] (cursor_text c) ≡ decimal c.segment_id ∷ decimal c.offset ∷ []
unfolding cursor_text words_from is_whitespace
cursor_text-words c =
    first_word (decimal c.segment_id) 32 (decimal c.offset ++ (10 ∷ []))
      (decimal-ne-nil c.segment_id) (decimal-IsDigits c.segment_id) refl
    ∙ ap (λ (t : List Bytes). decimal c.segment_id ∷ t)
        (first_word (decimal c.offset) 10 [] (decimal-ne-nil c.offset) (decimal-IsDigits c.offset)
          refl)

cursor_text-IsAscii : (c : Cursor) → IsAscii (cursor_text c)
unfolding cursor_text
cursor_text-IsAscii c =
    digits-IsAscii (decimal c.segment_id) (32 ∷ (decimal c.offset ++ (10 ∷ [])))
      (decimal-IsDigits c.segment_id)
      (
        omega arith,
        digits-IsAscii (decimal c.offset) (10 ∷ []) (decimal-IsDigits c.offset) (omega arith),
      )

ascii_valid : (s : Bytes) → IsAscii s → utf8_error s ≡ none
unfolding utf8_error
ascii_valid s h = ascii_scan 0 0 0 0 s h

parse_cursor-ascii :
    (s : Bytes) → IsAscii s → parse_cursor s ≡ ok (parse_words (words_from [] (chars_from 0 0 s)))
unfolding parse_cursor
parse_cursor-ascii s h = rw (ascii_valid s h, parse_cursor) refl

two_words :
    (first second : Bytes) (c : Cursor)
    → parse_u64 first ≡ some c.segment_id
    → parse_u64 second ≡ some c.offset
    → parse_words (first ∷ second ∷ []) ≡ some c
unfolding parse_words cursor_of
two_words first second c h l = rw (h, l) refl

-- A cursor of 64-bit numbers that was persisted is the one that is read.
pub read_cursor-persist_cursor :
    (dir : Dir) (c : Cursor)
    → c.segment_id ≤ u64_max
    → c.offset ≤ u64_max
    → read_cursor (persist_cursor dir c) ≡ ok (some c)
unfolding read_cursor persist_cursor
read_cursor-persist_cursor dir c h l =
    parse_cursor-ascii (cursor_text c) (cursor_text-IsAscii c)
    ∙ ap (λ (t : Bytes). ok (parse_words (words_from [] t)))
        (ascii_chars (cursor_text c) (cursor_text-IsAscii c))
    ∙ ap (λ (t : List Bytes). ok (parse_words t)) (cursor_text-words c)
    ∙ ap ok (
        two_words (decimal c.segment_id) (decimal c.offset) c (parse_u64-decimal c.segment_id h)
          (parse_u64-decimal c.offset l))
