-- ===== src/Protocol/Version.antt =====
-- src/protocol.rs: the version message, written by `build_version` and read by `parse_version`.
pub mod RoundTrip
use new_p2p_crawler.Prelude.{
  ltb, ◌==◌, if◌then◌else◌, length, get_or, ℤ, pos, leb_ℤ, to_le, to_be, of_i64, Text, ℕ, ◌/◌, ◌%◌,
  Bool, true, not, Option, none, some, List, [], ◌∷◌, ◌++◌,
}
use new_p2p_crawler.Utf8.{is_utf8}
use new_p2p_crawler.Address.{NetworkType, ipv4, ipv6, ip}
use new_p2p_crawler.Net.Show.{show_ipv4, hex, is_mapped, show_ipv6}
use new_p2p_crawler.Protocol.{our_user_agent, protocol_version, max_subversion_length}
use new_p2p_crawler.Protocol.Cursor.{
  Cursor, Reader, ◌>>=◌, pure, fail, new, take_bytes, u8, u16_be, i32_le, u64_le, i64_le, ◌>>◌,
}
use new_p2p_crawler.Protocol.Compact.{write_compact_size, compact_size_canonical}

-- A legacy network address claimed inside a version message.
pub record VersionNetAddr : Type 0 where
  pub services : ℕ
  pub host : Text
  pub port : ℕ

pub record VersionData : Type 0 where
  pub version : ℤ
  pub services : ℕ
  pub timestamp : ℤ
  pub user_agent : Text
  pub latest_block : ℤ
  pub relay : Bool
  pub addr_recv : VersionNetAddr
  pub addr_from : Option VersionNetAddr
  pub nonce : Option ℕ

-- services, ::ffff:0.0.0.0 and the port
abbrev pub zero_ip : List ℕ
zero_ip = 0 ∷ 0 ∷ 0 ∷ 0 ∷ 0 ∷ 0 ∷ 0 ∷ 0 ∷ 0 ∷ 0 ∷ 0xFF ∷ 0xFF ∷ 0 ∷ 0 ∷ 0 ∷ 0 ∷ []

abbrev pub write_zero_netaddr : List ℕ
write_zero_netaddr = to_le 8 0 ++ (zero_ip ++ to_be 2 0)

unfoldable pub build_version : ℤ → ℕ → List ℕ
build_version timestamp nonce =
    to_le 4 protocol_version
    ++ (to_le 8 0
        ++ (to_le 8 (of_i64 timestamp)
            ++ (write_zero_netaddr
                ++ (write_zero_netaddr
                    ++ (to_le 8 nonce
                        ++ (write_compact_size [] (length our_user_agent)
                            ++ (our_user_agent ++ (to_le 4 0 ++ 0 ∷ []))))))))

-- A 16-byte address field, with an IPv4-mapped one as a dotted quad.
unfoldable pub decode_legacy_ip : List ℕ → Text × NetworkType
decode_legacy_ip octets =
    if is_mapped octets
    then (
      show_ipv4 (get_or octets 12 0) (get_or octets 13 0) (get_or octets 14 0) (get_or octets 15 0),
      ipv4,
    )
    else (show_ipv6 octets, ipv6)

unfoldable pub parse_version_netaddr : Reader VersionNetAddr
parse_version_netaddr = do
  services ← u64_le
  octets ← take_bytes 16
  port ← u16_be
  pure (record { services = services; host = (decode_legacy_ip octets).0; port = port })

-- `{:02x}` of each byte
unfoldable pub hex_bytes : List ℕ → Text
hex_bytes [] = []
hex_bytes (b ∷ bs) = hex (b / 16) ++ (hex (b % 16) ++ hex_bytes bs)

abbrev pub read_text : List ℕ → Text
read_text bytes = if is_utf8 bytes then bytes else hex_bytes bytes

-- An absent relay byte counts as true; a failed read leaves the cursor where it was.
unfoldable pub read_relay : ℤ → Reader Bool
read_relay version c =
    if leb_ℤ (pos 70001) version
    then (elim (u8 c) [ none ↦ some (true, c) | some (byte, c') ↦ some (not (byte == 0), c') ])
    else some (true, c)

abbrev pub bounded : ℕ → Reader ℕ
bounded ua_len = if ltb max_subversion_length ua_len then fail else pure ua_len

-- The fields from version 106 on.
unfoldable pub read_tail : ℤ → ℕ → ℤ → VersionNetAddr → Reader VersionData
read_tail version services timestamp addr_recv = do
  addr_from ← parse_version_netaddr
  nonce ← u64_le
  ua_len ← compact_size_canonical
  bounded ua_len
  ua_bytes ← take_bytes ua_len
  latest_block ← i32_le
  relay ← read_relay version
  pure (record {
    version = version;
    services = services;
    timestamp = timestamp;
    user_agent = read_text ua_bytes;
    latest_block = latest_block;
    relay = relay;
    addr_recv = addr_recv;
    addr_from = some addr_from;
    nonce = some nonce;
  })

abbrev pub without_tail : ℤ → ℕ → ℤ → VersionNetAddr → VersionData
without_tail version services timestamp addr_recv = record {
  version = version;
  services = services;
  timestamp = timestamp;
  user_agent = [];
  latest_block = pos 0;
  relay = true;
  addr_recv = addr_recv;
  addr_from = none;
  nonce = none;
}

unfoldable pub read_version : Reader VersionData
unfolding read_tail
read_version = do
  version ← i32_le
  services ← u64_le
  timestamp ← i64_le
  addr_recv ← parse_version_netaddr
  if leb_ℤ (pos 106) version
      then read_tail version services timestamp addr_recv
      else pure (without_tail version services timestamp addr_recv)

abbrev pub value : {A : Type 0} → Option (A × Cursor) → Option A
value none = none
value (some (a, c)) = some a

-- Bytes behind the last field are not looked at.
unfoldable pub parse_version : List ℕ → Option VersionData
unfolding read_version
parse_version payload = value (read_version (new payload))
