-- ===== src/AddrLog/Csv/RoundTrip.antt =====
-- The rows that src/addrlog.rs writes are read back field by field, whatever the fields hold.
use new_p2p_crawler.AddrLog.Csv.{
  quote, needs_quote, push_quoted, push_csv_field, push_more_fields, push_csv_fields,
}
use new_p2p_crawler.AddrLog.Csv.Read.{
  Place, field_start, plain, quoted, quote_seen, read_row, read_line, advance, keep, mark,
}
use new_p2p_crawler.Prelude.{
  ◌==◌, if◌then◌else◌, Bool-cases, Text, contains, ◌≡◌, sym, ◌∙◌, inl, inr, false, List, [], ◌∷◌,
  ◌++◌, append-nil, append_assoc, ℕ, refl, ap, some, arith,
}

-- The field as the loop copies it.
doubled : Text → Text
doubled [] = []
doubled (ch ∷ field) = if ch == quote then quote ∷ ch ∷ doubled field else ch ∷ doubled field

push_quoted-doubled : (out field : Text) → push_quoted out field ≡ out ++ doubled field
unfolding push_quoted doubled
push_quoted-doubled out [] = sym (append-nil out)
push_quoted-doubled out (ch ∷ field) = elim (Bool-cases (ch == quote)) [
  | inl e ↦ rw e (
      push_quoted-doubled (out ++ (quote ∷ ch ∷ [])) field
      ∙ append_assoc out (quote ∷ ch ∷ []) (doubled field))
  | inr e ↦
      rw e
        (push_quoted-doubled (out ++ (ch ∷ [])) field ∙ append_assoc out (ch ∷ []) (doubled field))
]

-- The field as it stands in the row.
written : Text → Text
written field = if needs_quote field then quote ∷ (doubled field ++ (quote ∷ [])) else field

push_csv_field-written : (out field : Text) → push_csv_field out field ≡ out ++ written field
unfolding push_csv_field written
push_csv_field-written out field = elim (Bool-cases (needs_quote field)) [
  | inl e ↦ rw e (simp (push_quoted-doubled, append_assoc))
  | inr e ↦ rw e
]

-- One step of the reader, by what the byte does.
read_keep :
    (place p : Place) (row : List Text) (acc : Text) (c : ℕ) (s : Text)
    → advance place c ≡ keep p
    → read_row place row acc (c ∷ s) ≡ read_row p row (acc ++ (c ∷ [])) s
unfolding read_row
read_keep place p row acc c s h = rw (h, read_row)

read_mark :
    (place p : Place) (row : List Text) (acc : Text) (c : ℕ) (s : Text)
    → advance place c ≡ mark p
    → read_row place row acc (c ∷ s) ≡ read_row p row acc s
unfolding read_row
read_mark place p row acc c s h = rw (h, read_row)

read_row-doubled :
    (row : List Text) (field acc rest : Text)
    → read_row quoted row acc (doubled field ++ (quote ∷ rest))
      ≡ read_row quote_seen row (acc ++ field) rest
unfolding doubled advance
read_row-doubled row [] acc rest =
    rw append-nil (read_mark quoted quote_seen row acc quote rest refl)
read_row-doubled row (ch ∷ field) acc rest =
    let later =
      read_row-doubled row field (acc ++ (ch ∷ [])) rest
      ∙ ap (λ t. read_row quote_seen row t rest) (append_assoc acc (ch ∷ []) field) in
    elim (Bool-cases (ch == quote)) [
      | inl e ↦ rw e (
          read_mark quoted quote_seen row acc quote (ch ∷ (doubled field ++ (quote ∷ rest))) refl
          ∙ read_keep quote_seen quoted row acc ch (doubled field ++ (quote ∷ rest)) (ground arith)
          ∙ later)
      | inr e ↦ rw e (
          read_keep quoted quoted row acc ch (doubled field ++ (quote ∷ rest)) (ground arith)
          ∙ later)
    ]

-- A field with no byte that has a meaning.
record IsBare (field : Text) : Type 0 where
  no_comma : contains b',' field ≡ false
  no_quote : contains quote field ≡ false
  no_newline : contains b'\n' field ≡ false

module _ (ch : ℕ) (field : Text) (h : IsBare (ch ∷ field)) where
  IsBare-rest : IsBare field
  IsBare-rest = ground arith

  advance-plain : advance plain ch ≡ keep plain
  unfolding advance
  advance-plain = ground arith

  advance-start : advance field_start ch ≡ keep plain
  unfolding advance
  advance-start = ground arith

read_row-bare :
    (row : List Text) (field acc rest : Text)
    → IsBare field
    → read_row plain row acc (field ++ rest) ≡ read_row plain row (acc ++ field) rest
read_row-bare row [] acc rest h = rw append-nil
read_row-bare row (ch ∷ field) acc rest h =
    read_keep plain plain row acc ch (field ++ rest) (advance-plain ch field h)
    ∙ read_row-bare row field (acc ++ (ch ∷ [])) rest (IsBare-rest ch field h)
    ∙ ap (λ t. read_row plain row t rest) (append_assoc acc (ch ∷ []) field)

-- A written field is read back, and leaves the reader where a comma or a new line ends the field.
abbrev CanEnd : Place → Type 0
CanEnd quoted = ⊥
CanEnd _ = Unit

abbrev ReadsBack : Text → Text → Type 0
ReadsBack s field =
    (p : Place) × CanEnd p
    × ((row : List Text) (rest : Text)
        → read_row field_start row [] (s ++ rest) ≡ read_row p row field rest)

bare-ReadsBack : (field : Text) → IsBare field → ReadsBack field field
bare-ReadsBack [] h = (field_start, tt, λ row rest. refl)
bare-ReadsBack (ch ∷ field) h = (
  plain,
  tt,
  λ row rest.
      read_keep field_start plain row [] ch (field ++ rest) (advance-start ch field h)
      ∙ read_row-bare row field (ch ∷ []) rest (IsBare-rest ch field h),
)

quoted-ReadsBack : (field : Text) → ReadsBack (quote ∷ (doubled field ++ (quote ∷ []))) field
unfolding advance
quoted-ReadsBack field = (
  quote_seen,
  tt,
  λ row rest.
      read_mark field_start quoted row [] quote ((doubled field ++ (quote ∷ [])) ++ rest) refl
      ∙ ap (read_row quoted row []) (append_assoc (doubled field) (quote ∷ []) rest)
      ∙ read_row-doubled row field [] rest,
)

needs_quote-IsBare : (field : Text) → needs_quote field ≡ false → IsBare field
unfolding needs_quote
needs_quote-IsBare field h = ground arith

written-ReadsBack : (field : Text) → ReadsBack (written field) field
unfolding written
written-ReadsBack field = elim (Bool-cases (needs_quote field)) [
  | inl e ↦ rw e (quoted-ReadsBack field)
  | inr e ↦ rw e (bare-ReadsBack field (needs_quote-IsBare field e))
]

read_comma :
    (p : Place)
    → CanEnd p
    → (row : List Text) (field rest : Text)
    → read_row p row field (b',' ∷ rest) ≡ read_row field_start (row ++ (field ∷ [])) [] rest
unfolding read_row
read_comma quoted h row field rest = absurd h
read_comma field_start h row field rest = refl
read_comma plain h row field rest = refl
read_comma quote_seen h row field rest = refl

read_newline :
    (p : Place)
    → CanEnd p
    → (row : List Text) (field rest : Text)
    → read_row p row field (b'\n' ∷ rest) ≡ some (row ++ (field ∷ []), rest)
unfolding read_row
read_newline quoted h row field rest = absurd h
read_newline field_start h row field rest = refl
read_newline plain h row field rest = refl
read_newline quote_seen h row field rest = refl

-- The fields after the first, each with its comma.
tail_text : List Text → Text
tail_text [] = []
tail_text (field ∷ fields) = b',' ∷ (written field ++ tail_text fields)

comma_field :
    (out field rest : Text)
    → push_csv_field (out ++ (b',' ∷ [])) field ++ rest ≡ out ++ (b',' ∷ (written field ++ rest))
comma_field out field rest = simp (push_csv_field-written, append_assoc)

first_field :
    (out field rest : Text)
    → push_csv_field out field ++ rest ≡ out ++ (push_csv_field [] field ++ rest)
first_field out field rest = simp (push_csv_field-written, append_assoc)

push_more_fields-tail :
    (out : Text) (fields : List Text) → push_more_fields out fields ≡ out ++ tail_text fields
unfolding push_more_fields tail_text
push_more_fields-tail out [] = sym (append-nil out)
push_more_fields-tail out (field ∷ fields) =
    push_more_fields-tail (push_csv_field (out ++ (b',' ∷ [])) field) fields
    ∙ comma_field out field (tail_text fields)

read_row-tail :
    (p : Place)
    → CanEnd p
    → (row : List Text) (field : Text) (fields : List Text) (rest : Text)
    → read_row p row field (tail_text fields ++ (b'\n' ∷ rest))
      ≡ some (row ++ (field ∷ fields), rest)
unfolding tail_text
read_row-tail p h row field [] rest = read_newline p h row field rest
read_row-tail p h row field (next ∷ fields) rest =
    let (q, can_end, reads) = written-ReadsBack next in
    read_comma p h row field ((written next ++ tail_text fields) ++ (b'\n' ∷ rest))
    ∙ ap (read_row field_start (row ++ (field ∷ [])) [])
        (append_assoc (written next) (tail_text fields) (b'\n' ∷ rest))
    ∙ reads (row ++ (field ∷ [])) (tail_text fields ++ (b'\n' ∷ rest))
    ∙ read_row-tail q can_end (row ++ (field ∷ [])) next fields rest
    ∙ ap (λ t. some (t, rest)) (append_assoc row (field ∷ []) (next ∷ fields))

-- Appending a row to a text that ends in whole fields appends its fields to that text.
pub push_csv_fields_append :
    (out : Text) (fields : List Text)
    → push_csv_fields out fields ≡ out ++ push_csv_fields [] fields
unfolding push_csv_fields
push_csv_fields_append out [] = sym (append-nil out)
push_csv_fields_append out (field ∷ fields) =
    push_more_fields-tail (push_csv_field out field) fields
    ∙ first_field out field (tail_text fields)
    ∙ ap (λ t. out ++ t) (sym (push_more_fields-tail (push_csv_field [] field) fields))

-- A row of at least one field, with the new line that ends it and any text behind it, is read back
-- as the same fields and that text, whatever bytes the fields hold.
pub read_line-push_csv_fields :
    (field : Text) (fields : List Text) (rest : Text)
    → read_line (push_csv_fields [] (field ∷ fields) ++ (b'\n' ∷ rest))
      ≡ some (field ∷ fields, rest)
unfolding push_csv_fields
read_line-push_csv_fields field fields rest =
    let (q, can_end, reads) = written-ReadsBack field in
    ap (λ t. read_line (t ++ (b'\n' ∷ rest)))
      (push_more_fields-tail (push_csv_field [] field) fields
        ∙ ap (λ t. t ++ tail_text fields) (push_csv_field-written [] field))
    ∙ ap read_line (append_assoc (written field) (tail_text fields) (b'\n' ∷ rest))
    ∙ reads [] (tail_text fields ++ (b'\n' ∷ rest))
    ∙ read_row-tail q can_end [] field fields rest
