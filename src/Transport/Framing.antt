-- ===== src/Transport/Framing.antt =====
-- src/transport.rs: `try_parse_envelope` and `parse_command`, on the receive buffer as a byte list.
pub mod RoundTrip
pub mod Soundness
use new_p2p_crawler.Prelude.{
  ltb, ◌==◌, if◌then◌else◌, length, take, drop, any, from_le, Text, text, ℕ, suc, ◌+◌, ◌-◌, Bool,
  true, false, not, ◌&&◌, ◌||◌, Option, none, some, List, [], ◌∷◌, ◌++◌, list_eq, slice,
}
use new_p2p_crawler.Io.{invalid_data, ok, err, IoResult}
use new_p2p_crawler.Crates.{Crates}
use new_p2p_crawler.Utf8.{is_utf8}
use new_p2p_crawler.Protocol.{magic, max_protocol_message_length, checksum, is_printable}
use new_p2p_crawler.Decimal.{decimal}
use new_p2p_crawler.Transport.{Envelope, data_error}

-- `bytes.iter().position(|&b| b == 0).unwrap_or(bytes.len())`
unfoldable pub zero_position : List ℕ → ℕ
zero_position [] = 0
zero_position (b ∷ bs) = if b == 0 then 0 else suc (zero_position bs)

abbrev pub bad_field : List ℕ → ℕ → Bool
bad_field bytes end =
    end == 0
    || any (λ b. not (is_printable b)) (take end bytes)
    || any (λ b. not (b == 0)) (drop end bytes)

unfoldable pub parse_command : List ℕ → IoResult Text
unfolding zero_position is_utf8
parse_command bytes =
    if not (length bytes == 12)
    then err (data_error (text "command field is not 12 bytes"))
    else let end = zero_position bytes in
      if bad_field bytes end
      then err (data_error (text "invalid command field"))
      else if is_utf8 (take end bytes)
      then ok (take end bytes)
      else err (data_error (text "non-ASCII command"))

-- The buffer is the second component: advanced past the frame on a message, else left as it was.
abbrev pub parsed_body : Crates → List ℕ → Text → ℕ → List ℕ → IoResult (Option Envelope) × List ℕ
parsed_body crates buf command len expected_checksum =
    if ltb max_protocol_message_length len
    then (
      err (data_error (text "payload length " ++ (decimal len ++ text " exceeds 4,000,000 bytes"))),
      buf,
    )
    else if ltb (length buf) (24 + len)
    then (ok none, buf)
    else let payload = slice 24 (24 + len) buf in
      if not (list_eq (checksum crates payload) expected_checksum)
      then (err (data_error (text "payload checksum mismatch")), buf)
      else (ok (some (record { command = command; payload = payload })), drop (24 + len) buf)

unfoldable pub try_parse_envelope : Crates → List ℕ → IoResult (Option Envelope) × List ℕ
try_parse_envelope crates buf =
    if ltb (length buf) 24
    then (ok none, buf)
    else let header = take 24 buf in
      if not (list_eq (slice 0 4 header) magic)
      then (err (data_error (text "network magic mismatch (stream desynchronized)")), buf)
      else elim (parse_command (slice 4 16 header)) [
        | err e ↦ (err e, buf)
        | ok command ↦
            parsed_body crates buf command (from_le (slice 16 20 header)) (slice 20 24 header)
      ]
