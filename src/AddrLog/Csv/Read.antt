-- ===== src/AddrLog/Csv/Read.antt =====
-- How CSV text is read (RFC 4180 with `\n` at the end of a row), independent of the writer: a
-- description to hold the rows of src/addrlog.rs against.
use new_p2p_crawler.Prelude.{
  ◌==◌, if◌then◌else◌, Text, ℕ, zero, suc, Option, none, some, List, [], ◌∷◌, ◌++◌,
}

pub data Place : Type 0 where
  field_start plain quoted quote_seen : Place

-- What one byte does: it belongs to the field, or is a mark, or ends the field or the row.
pub data Move : Type 0 where
  keep mark : Place → Move
  next_field end_row refuse : Move

abbrev pub ends : ℕ → Move → Move
ends c otherwise = if c == b',' then next_field else if c == b'\n' then end_row else otherwise

unfoldable pub advance : Place → ℕ → Move
advance field_start c = if c == b'"' then mark quoted else ends c (keep plain)
advance plain c = if c == b'"' then refuse else ends c (keep plain)
advance quoted c = if c == b'"' then mark quote_seen else keep quoted
advance quote_seen c = if c == b'"' then keep quoted else ends c refuse

-- One row and the text behind it, with the fields read so far and the bytes of the next.
unfoldable pub read_row : Place → List Text → Text → Text → Option (List Text × Text)
unfolding advance
read_row place row field [] = none
read_row place row field (c ∷ s) = elim (advance place c) [
  | keep p ↦ read_row p row (field ++ (c ∷ [])) s
  | mark p ↦ read_row p row field s
  | next_field ↦ read_row field_start (row ++ (field ∷ [])) [] s
  | end_row ↦ some (row ++ (field ∷ []), s)
  | refuse ↦ none
]

abbrev pub read_line : Text → Option (List Text × Text)
read_line s = read_row field_start [] [] s

-- As many rows as asked for, and the text behind them.
unfoldable pub read_rows : ℕ → Text → Option (List (List Text) × Text)
unfolding read_row
read_rows zero s = some ([], s)
read_rows (suc n) s = elim (read_line s) [
  | none ↦ none
  | some (row, rest) ↦ elim (read_rows n rest) [
    | none ↦ none
    | some (rows, end) ↦ some (row ∷ rows, end)
  ]
]
