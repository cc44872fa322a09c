-- ===== src/AddrLog/Blocks.antt =====
-- src/addrlog.rs: the records of `write_block`, `write_outcome` and `write_malformed`, as text.
pub mod Rows
use new_p2p_crawler.AddrLog.Csv.{push_csv_fields}
use new_p2p_crawler.Protocol.Version.{hex_bytes}
use new_p2p_crawler.Protocol.Addr.{
  AdvertisedAddr, ParsedAddrMessage, AddrParseError, non_canonical_or_truncated, too_many,
  wrong_length, invalid_network_encoding, trailing_bytes,
}
use new_p2p_crawler.Protocol.{max_addr_to_send}
use new_p2p_crawler.Crates.{Crates}
use new_p2p_crawler.Address.{as_str}
use new_p2p_crawler.Node.{HandshakeData, CollectionOutcome, outcome_str}
use new_p2p_crawler.Decimal.{decimal, decimal_ℤ}
use new_p2p_crawler.Prelude.{length, ℤ, text, Text, ℕ, Bool, true, false, List, [], ◌∷◌, ◌++◌}

-- The node that sent a response.
pub record Responder : Type 0 where
  pub host : Text
  pub port : ℕ
  pub network : Text
  pub received_at : ℤ
  pub message_type : Text
  pub handshake : HandshakeData

-- `bool::to_string`
abbrev pub bool_text : Bool → Text
bool_text true = text "true"
bool_text false = text "false"

-- `buf.push('\n')`
abbrev pub end_line : Text → Text
end_line buf = buf ++ (b'\n' ∷ [])

abbrev pub block_marker : Text
unfolding text
block_marker = text "===NEW NODE==="

unfoldable pub block_fields : ℕ → Responder → ParsedAddrMessage → List Text
unfolding text
block_fields event_id r parsed =
    decimal event_id
    ∷ r.host
    ∷ decimal r.port
    ∷ r.network
    ∷ decimal_ℤ r.received_at
    ∷ r.message_type
    ∷ text "complete"
    ∷ decimal parsed.declared_count
    ∷ decimal (length parsed.addrs)
    ∷ decimal parsed.unknown_entries
    ∷ decimal_ℤ r.handshake.version
    ∷ decimal r.handshake.services
    ∷ r.handshake.user_agent
    ∷ decimal_ℤ r.handshake.latest_block
    ∷ bool_text r.handshake.relay
    ∷ []

unfoldable pub addr_fields : ℕ → AdvertisedAddr → List Text
addr_fields event_id a =
    decimal event_id
    ∷ a.host
    ∷ decimal a.port
    ∷ as_str a.network
    ∷ decimal_ℤ a.timestamp
    ∷ decimal a.services
    ∷ decimal a.wire_network_id
    ∷ []

-- The loop over the addresses.
unfoldable pub push_addrs : Text → ℕ → List AdvertisedAddr → Text
push_addrs buf event_id [] = buf
push_addrs buf event_id (a ∷ addrs) =
    push_addrs (end_line (push_csv_fields buf (addr_fields event_id a))) event_id addrs

unfoldable pub block_text : ℕ → Responder → ParsedAddrMessage → Text
unfolding push_addrs
block_text event_id r parsed =
    push_addrs
      (end_line (push_csv_fields (block_marker ++ (b',' ∷ [])) (block_fields event_id r parsed)))
      event_id parsed.addrs

abbrev pub outcome_marker : Text
unfolding text
outcome_marker = text "===REQUEST OUTCOME==="

unfoldable pub outcome_fields : ℕ → Text → ℕ → CollectionOutcome → List Text
outcome_fields event_id host port outcome =
    decimal event_id ∷ host ∷ decimal port ∷ outcome_str outcome ∷ []

unfoldable pub outcome_text : ℕ → Text → ℕ → CollectionOutcome → Text
outcome_text event_id host port outcome =
    end_line
      (push_csv_fields (outcome_marker ++ (b',' ∷ [])) (outcome_fields event_id host port outcome))

abbrev pub malformed_marker : Text
unfolding text
malformed_marker = text "===MALFORMED RESPONSE==="

-- `AddrParseError` as its `Display` shows it.
unfoldable pub addr_parse_error_text : AddrParseError → Text
unfolding text
addr_parse_error_text non_canonical_or_truncated = text "non-canonical or truncated address message"
addr_parse_error_text (too_many n) =
    text "declared address count " ++ (decimal n ++ (text " exceeds " ++ decimal max_addr_to_send))
addr_parse_error_text (wrong_length network_id bytes) =
    text "wrong length " ++ (decimal bytes ++ (text " for BIP155 network " ++ decimal network_id))
addr_parse_error_text (invalid_network_encoding id) =
    text "invalid encoding for BIP155 network " ++ decimal id
addr_parse_error_text (trailing_bytes n) = decimal n ++ text " trailing bytes after address vector"

unfoldable pub malformed_fields : Crates → ℕ → Text → ℕ → Text → AddrParseError → List ℕ → List Text
unfolding text
malformed_fields crates event_id host port message_type error payload =
    decimal event_id
    ∷ host
    ∷ decimal port
    ∷ message_type
    ∷ text "malformed"
    ∷ addr_parse_error_text error
    ∷ hex_bytes (crates.sha256 payload)
    ∷ []

unfoldable pub malformed_text : Crates → ℕ → Text → ℕ → Text → AddrParseError → List ℕ → Text
malformed_text crates event_id host port message_type error payload = end_line (
    push_csv_fields (malformed_marker ++ (b',' ∷ []))
      (malformed_fields crates event_id host port message_type error payload))
