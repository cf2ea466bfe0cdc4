-- ===== src/Buffer/CursorFile.antt =====
-- The cursor of a queue and the file that keeps it.
use telemetry_fabric.Prelude.{ℕ, List, [], ◌∷◌, ◌++◌, Option, none, some, if◌then◌else◌}
use telemetry_fabric.Std.Bytes.{Bytes}
use telemetry_fabric.Std.Text.{text, is_whitespace, utf8_error, chars_from}
use telemetry_fabric.Prelude.Result.{Result, ok, err}
use telemetry_fabric.Buffer.Error.{DiskQueueError, io}
use telemetry_fabric.Std.Decimal.{decimal, parse_u64}
use telemetry_fabric.Buffer.Files.{Dir}

pub record Cursor : Type 0 where
  pub segment_id : ℕ
  pub offset : ℕ

-- `split_whitespace` over characters: `word` is the part that has begun.
unfoldable pub words_from : List ℕ → List ℕ → List (List ℕ)
words_from [] [] = []
words_from (w ∷ word) [] = (w ∷ word) ∷ []
words_from [] (c ∷ rest) = if is_whitespace c then words_from [] rest else words_from (c ∷ []) rest
words_from (w ∷ word) (c ∷ rest) =
    if is_whitespace c
    then (w ∷ word) ∷ words_from [] rest
    else words_from (w ∷ (word ++ (c ∷ []))) rest

unfoldable pub cursor_of : Option ℕ → Option ℕ → Option Cursor
cursor_of (some segment_id) (some offset) =
    some (record { segment_id = segment_id; offset = offset })
cursor_of (some segment_id) none = none
cursor_of none second = none

unfoldable pub parse_words : List (List ℕ) → Option Cursor
unfolding cursor_of
parse_words [] = none
parse_words (first ∷ []) = none
parse_words (first ∷ second ∷ rest) = cursor_of (parse_u64 first) (parse_u64 second)

-- `read_to_string` fails on a content that is not UTF-8.
unfoldable pub parse_cursor : Bytes → Result DiskQueueError (Option Cursor)
unfolding parse_words
parse_cursor content = elim (utf8_error content) [
  | none ↦ ok (parse_words (words_from [] (chars_from 0 0 content)))
  | some e ↦ err (io (text "stream did not contain valid UTF-8"))
]

unfoldable pub read_cursor : Dir → Result DiskQueueError (Option Cursor)
read_cursor dir = elim dir.cursor_file [ none ↦ ok none | some content ↦ parse_cursor content ]

unfoldable pub cursor_text : Cursor → Bytes
cursor_text cursor = decimal cursor.segment_id ++ (32 ∷ (decimal cursor.offset ++ (10 ∷ [])))

-- The file is written under another name and renamed.
unfoldable pub persist_cursor : Dir → Cursor → Dir
persist_cursor dir cursor =
    let written = record dir { cursor_tmp = some (cursor_text cursor) } in
    record written { cursor_file = written.cursor_tmp; cursor_tmp = none }
