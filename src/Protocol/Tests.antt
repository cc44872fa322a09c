-- ===== src/Protocol/Tests.antt =====
-- Examples of the message formats.
use new_p2p_crawler.Io.{ok, err}
use new_p2p_crawler.Decimal.{decimal}
use new_p2p_crawler.Net.Show.{show_ipv4}
use new_p2p_crawler.Prelude.{
  pos, negsuc, ℕ, ◌≡◌, refl, true, none, some, List, [], ◌∷◌, ◌++◌, arith,
}
use new_p2p_crawler.Crates.Sample.{sample}
use new_p2p_crawler.Address.{ipv4}
use new_p2p_crawler.Protocol.Cursor.{Cursor, new}
use new_p2p_crawler.Protocol.Cursor.Reads.{ahead}
use new_p2p_crawler.Protocol.Compact.{write_compact_size, compact_size, compact_size_canonical}
use new_p2p_crawler.Protocol.Compact.RoundTrip.{compact_size-write_compact_size}
use new_p2p_crawler.Protocol.Version.{build_version, parse_version}
use new_p2p_crawler.Protocol.Version.RoundTrip.{
  WireAddr, IsWireAddr, Fields, IsFields, payload_bytes, parsed, parse_version_with_relay,
  own_version, parse_version-build_version,
}
use new_p2p_crawler.Protocol.Addr.{
  parse_addr, parse_addrv2, trailing_bytes, decode_addrv2, expected_length,
}
use new_p2p_crawler.Protocol.Addr.Wire.{
  LegacyRecord, IsLegacyRecord, addr_payload, parse_addr-payload,
}
use new_p2p_crawler.Protocol.Addr.WireV2.{
  V2Record, IsV2Record, v2_payload, v2_message, parse_addrv2-payload,
}
use new_p2p_crawler.Protocol.Addr.Bounds.{IsAddrV2, IsMessage, parse_addrv2-IsMessage}

compact_size-write_compact_size_example :
    ((c : Cursor) × (compact_size (new (write_compact_size [] 70_000 ++ (9 ∷ [])))
        ≡ some (70_000, c))
      × (ahead c ≡ 9 ∷ []))
    × ((c : Cursor) × (compact_size_canonical (new (write_compact_size [] 70_000 ++ (9 ∷ [])))
          ≡ some (70_000, c))
        × (ahead c ≡ 9 ∷ []))
compact_size-write_compact_size_example =
    compact_size-write_compact_size 70_000 (9 ∷ []) (omega arith)

parse_version-build_version_example :
    parse_version (build_version (pos 1_700_000_000) 42) ≡ some (own_version (pos 1_700_000_000) 42)
parse_version-build_version_example =
    parse_version-build_version (pos 1_700_000_000) 42 (omega arith) (omega arith)

abbrev octets : List ℕ
octets = 0 ∷ 0 ∷ 0 ∷ 0 ∷ 0 ∷ 0 ∷ 0 ∷ 0 ∷ 0 ∷ 0 ∷ 0xFF ∷ 0xFF ∷ 1 ∷ 2 ∷ 3 ∷ 4 ∷ []

abbrev peer : WireAddr
peer = record { services = 9; octets = octets; port = 8333 }

abbrev fields : Fields
fields = record {
  version = pos 70_015;
  services = 9;
  timestamp = pos 1_700_000_000;
  recv = peer;
  from = peer;
  nonce = 7;
  agent = 0x2F ∷ 0x61 ∷ 0x2F ∷ [];
  block = negsuc 0;
}

peer-IsWireAddr : IsWireAddr peer
peer-IsWireAddr = record { services_fit = omega arith; sixteen = refl; port_fits = omega arith }

fields-IsFields : IsFields fields
fields-IsFields = record {
  version_fits = omega arith;
  modern = refl;
  services_fit = omega arith;
  timestamp_fits = omega arith;
  recv_fits = peer-IsWireAddr;
  from_fits = peer-IsWireAddr;
  nonce_fits = omega arith;
  agent_fits = omega arith;
  block_fits = omega arith;
}

parse_version_with_relay_example :
    parse_version (payload_bytes fields (1 ∷ []) ++ (5 ∷ [])) ≡ some (parsed fields true)
parse_version_with_relay_example = parse_version_with_relay fields 1 (5 ∷ []) fields-IsFields refl

abbrev legacy : LegacyRecord
legacy = record { time = 1_700_000_000; services = 9; octets = octets; port = 8333 }

legacy-IsLegacyRecord : IsLegacyRecord legacy
legacy-IsLegacyRecord = record {
  time_fits = omega arith;
  services_fit = omega arith;
  sixteen = refl;
  port_fits = omega arith;
}

parse_addr-payload_example :
    parse_addr (addr_payload (legacy ∷ []) ++ (5 ∷ [])) ≡ err (trailing_bytes 1)
parse_addr-payload_example =
    parse_addr-payload (legacy ∷ []) (5 ∷ []) (legacy-IsLegacyRecord, tt) (omega arith)

-- An IPv4 address, and an entry of a network of the future.
abbrev ipv4_record : V2Record
ipv4_record = record {
  time = 1_700_000_000;
  services = 9;
  net_id = 1;
  bytes = 1 ∷ 2 ∷ 3 ∷ 4 ∷ [];
  port = 8333;
  decoded = some (0x31 ∷ 0x2E ∷ 0x32 ∷ 0x2E ∷ 0x33 ∷ 0x2E ∷ 0x34 ∷ [], ipv4);
}

abbrev future_record : V2Record
future_record = record {
  time = 1_700_000_001;
  services = 0;
  net_id = 9;
  bytes = 1 ∷ 2 ∷ [];
  port = 1;
  decoded = none;
}

ipv4_record-IsV2Record : IsV2Record sample ipv4_record
unfolding decode_addrv2 expected_length show_ipv4 decimal
ipv4_record-IsV2Record = record {
  time_fits = omega arith;
  services_fit = omega arith;
  at_most = omega arith;
  expected = refl;
  port_fits = omega arith;
  decodes = refl;
}

future_record-IsV2Record : IsV2Record sample future_record
unfolding decode_addrv2 expected_length
future_record-IsV2Record = record {
  time_fits = omega arith;
  services_fit = omega arith;
  at_most = omega arith;
  expected = refl;
  port_fits = omega arith;
  decodes = refl;
}

abbrev two_records : List V2Record
two_records = ipv4_record ∷ future_record ∷ []

parsed_two : parse_addrv2 sample (v2_payload two_records ++ []) ≡ ok (v2_message two_records)
parsed_two =
    parse_addrv2-payload sample two_records []
      (ipv4_record-IsV2Record, (future_record-IsV2Record, tt)) (omega arith)

parse_addrv2-payload_example :
    parse_addrv2 sample (v2_payload two_records ++ []) ≡ ok (v2_message two_records)
parse_addrv2-payload_example =
    parse_addrv2-payload sample two_records []
      (ipv4_record-IsV2Record, (future_record-IsV2Record, tt)) (omega arith)

parse_addrv2-IsMessage_example : IsMessage IsAddrV2 (v2_message two_records)
parse_addrv2-IsMessage_example =
    parse_addrv2-IsMessage sample (v2_payload two_records ++ []) {m = v2_message two_records}
      parsed_two
