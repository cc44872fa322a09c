-- ===== src/AddrLog/Csv.antt =====
-- src/addrlog.rs: `push_csv_fields` and `push_csv_field`, which append to a text.
pub mod Read
pub mod RoundTrip
use new_p2p_crawler.Prelude.{
  ◌==◌, if◌then◌else◌, Text, contains, ℕ, Bool, ◌||◌, List, [], ◌∷◌, ◌++◌,
}

abbrev pub quote : ℕ
quote = b'"'

unfoldable pub needs_quote : Text → Bool
needs_quote field =
    contains b',' field || contains quote field || contains b'\r' field || contains b'\n' field

-- The loop over the characters of a quoted field: a quotation mark is doubled.
unfoldable pub push_quoted : Text → Text → Text
push_quoted out [] = out
push_quoted out (ch ∷ field) =
    push_quoted (if ch == quote then out ++ (quote ∷ ch ∷ []) else out ++ (ch ∷ [])) field

unfoldable pub push_csv_field : Text → Text → Text
unfolding needs_quote push_quoted
push_csv_field out field =
    if needs_quote field
    then push_quoted (out ++ (quote ∷ [])) field ++ (quote ∷ [])
    else out ++ field

-- The loop from the second field on: a comma stands before each.
unfoldable pub push_more_fields : Text → List Text → Text
unfolding push_csv_field
push_more_fields out [] = out
push_more_fields out (field ∷ fields) =
    push_more_fields (push_csv_field (out ++ (b',' ∷ [])) field) fields

unfoldable pub push_csv_fields : Text → List Text → Text
unfolding push_csv_field push_more_fields
push_csv_fields out [] = out
push_csv_fields out (field ∷ fields) = push_more_fields (push_csv_field out field) fields
