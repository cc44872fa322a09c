-- ===== src/AddrLog/Blocks/Rows.antt =====
-- The records of src/addrlog.rs, read as CSV.
use new_p2p_crawler.AddrLog.Csv.{push_csv_fields}
use new_p2p_crawler.AddrLog.Csv.Read.{read_line, read_rows}
use new_p2p_crawler.AddrLog.Csv.RoundTrip.{push_csv_fields_append, read_line-push_csv_fields}
use new_p2p_crawler.AddrLog.Blocks.{
  Responder, block_marker, block_fields, addr_fields, push_addrs, block_text, end_line,
}
use new_p2p_crawler.Protocol.Addr.{AdvertisedAddr, ParsedAddrMessage}
use new_p2p_crawler.Prelude.{
  length, Text, ℕ, suc, ◌≡◌, refl, sym, ap, ◌∙◌, some, List, [], ◌∷◌, ◌++◌, append-nil,
  append_assoc, map, arith,
}

-- A marker with its comma and a row behind it make one row.
marker_row :
    (event_id : ℕ) (r : Responder) (parsed : ParsedAddrMessage)
    → push_csv_fields (block_marker ++ (b',' ∷ [])) (block_fields event_id r parsed)
      ≡ push_csv_fields [] (block_marker ∷ block_fields event_id r parsed)
unfolding push_csv_fields block_fields
marker_row event_id r parsed = refl

-- The addresses' rows, each with its new line.
rows_text : ℕ → List AdvertisedAddr → Text
rows_text event_id [] = []
rows_text event_id (a ∷ addrs) =
    push_csv_fields [] (addr_fields event_id a) ++ (b'\n' ∷ rows_text event_id addrs)

line_lem :
    (buf : Text) (row : List Text) (rest : Text)
    → end_line (push_csv_fields buf row) ++ rest ≡ buf ++ (push_csv_fields [] row ++ (b'\n' ∷ rest))
line_lem buf row rest =
    ap (λ t. end_line t ++ rest) (push_csv_fields_append buf row) ∙ simp append_assoc

push_addrs-rows :
    (buf : Text) (event_id : ℕ) (addrs : List AdvertisedAddr)
    → push_addrs buf event_id addrs ≡ buf ++ rows_text event_id addrs
unfolding push_addrs rows_text
push_addrs-rows buf event_id [] = sym (append-nil buf)
push_addrs-rows buf event_id (a ∷ addrs) =
    push_addrs-rows (end_line (push_csv_fields buf (addr_fields event_id a))) event_id addrs
    ∙ line_lem buf (addr_fields event_id a) (rows_text event_id addrs)

read_line-addr :
    (event_id : ℕ) (a : AdvertisedAddr) (rest : Text)
    → read_line (push_csv_fields [] (addr_fields event_id a) ++ (b'\n' ∷ rest))
      ≡ some (addr_fields event_id a, rest)
unfolding addr_fields
read_line-addr event_id a rest = read_line-push_csv_fields _ _ rest

read_rows_step :
    (n : ℕ) (s : Text) (row : List Text) (rest : Text) (rows : List (List Text)) (end : Text)
    → read_line s ≡ some (row, rest)
    → read_rows n rest ≡ some (rows, end)
    → read_rows (suc n) s ≡ some (row ∷ rows, end)
unfolding read_rows
read_rows_step n s row rest rows end h k = ground arith

read_rows-addrs :
    (event_id : ℕ) (addrs : List AdvertisedAddr) (rest : Text)
    → read_rows (length addrs) (rows_text event_id addrs ++ rest)
      ≡ some (map (addr_fields event_id) addrs, rest)
unfolding rows_text read_rows
read_rows-addrs event_id [] rest = refl
read_rows-addrs event_id (a ∷ addrs) rest =
    ap (read_rows (suc (length addrs))) (
      append_assoc (push_csv_fields [] (addr_fields event_id a)) (b'\n' ∷ rows_text event_id addrs)
        rest)
    ∙ read_rows_step (length addrs)
        (push_csv_fields [] (addr_fields event_id a)
          ++ (b'\n' ∷ (rows_text event_id addrs ++ rest)))
        _ _ _ _ (read_line-addr event_id a (rows_text event_id addrs ++ rest))
        (read_rows-addrs event_id addrs rest)

-- The record of a response, with any text behind it, is read back as one row for the responder,
-- behind its marker, and one row for each advertised address in order, and that text, whatever bytes
-- the hosts and the user agent hold.
pub read_rows-block_text :
    (event_id : ℕ) (r : Responder) (parsed : ParsedAddrMessage) (rest : Text)
    → read_rows (suc (length parsed.addrs)) (block_text event_id r parsed ++ rest)
      ≡ some (
        (block_marker ∷ block_fields event_id r parsed) ∷ map (addr_fields event_id) parsed.addrs,
        rest,
      )
unfolding block_text
read_rows-block_text event_id r parsed rest =
    let rows = rows_text event_id parsed.addrs in
    ap (λ t. read_rows (suc (length parsed.addrs)) (t ++ rest))
      (ap (λ t. push_addrs (end_line t) event_id parsed.addrs) (marker_row event_id r parsed)
        ∙ push_addrs-rows _ event_id parsed.addrs)
    ∙ ap (read_rows (suc (length parsed.addrs))) (
        append_assoc _ rows rest
        ∙ line_lem [] (block_marker ∷ block_fields event_id r parsed) (rows ++ rest))
    ∙ read_rows_step (length parsed.addrs)
        (push_csv_fields [] (block_marker ∷ block_fields event_id r parsed)
          ++ (b'\n' ∷ (rows ++ rest)))
        _ _ _ _
        (read_line-push_csv_fields block_marker (block_fields event_id r parsed) (rows ++ rest))
        (read_rows-addrs event_id parsed.addrs rest)
