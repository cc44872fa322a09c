-- ===== src/Protocol/Addr.antt =====
-- src/protocol.rs: `parse_addr` and `parse_addrv2`. A message is accepted whole or refused whole.
pub mod Wire
pub mod WireV2
pub mod Bounds
use new_p2p_crawler.Prelude.{
  ltb, ◌==◌, if◌then◌else◌, length, get_or, ℤ, pos, text, Text, ℕ, zero, suc, ◌+◌, not, ◌||◌,
  Option, none, some, List, [], ◌∷◌, ◌++◌, map,
}
use new_p2p_crawler.Io.{Result, ok, err}
use new_p2p_crawler.Crates.{Crates}
use new_p2p_crawler.Address.{
  NetworkType, ipv4, ipv6, cjdns, onion_v2, onion_v3, i2p, to_lower, onion_checksum,
}
use new_p2p_crawler.Net.Show.{show_ipv4, is_mapped, show_ipv6}
use new_p2p_crawler.Protocol.{max_addr_to_send}
use new_p2p_crawler.Protocol.Cursor.{
  Cursor, Reader, new, take_bytes, remaining, u8, u16_be, u32_le, u64_le,
}
use new_p2p_crawler.Protocol.Compact.{compact_size_canonical}
use new_p2p_crawler.Protocol.Version.{decode_legacy_ip}

pub record AdvertisedAddr : Type 0 where
  pub host : Text
  pub port : ℕ
  pub network : NetworkType
  pub timestamp : ℤ
  pub services : ℕ
  pub wire_network_id : ℕ

pub record ParsedAddrMessage : Type 0 where
  pub declared_count : ℕ
  pub addrs : List AdvertisedAddr
  pub unknown_entries : ℕ

pub data AddrParseError : Type 0 where
  non_canonical_or_truncated : AddrParseError
  too_many : ℕ → AddrParseError
  wrong_length : (network_id bytes : ℕ) → AddrParseError
  invalid_network_encoding : ℕ → AddrParseError
  trailing_bytes : ℕ → AddrParseError

-- A step of the parse: the cursor goes along, and an error ends it.
abbrev pub Parse : Type 0 → Type 0
Parse A = Cursor → Result AddrParseError (A × Cursor)

infixl 5 ◌>>=◌
abbrev pub ◌>>=◌ : {A B : Type 0} → Parse A → (A → Parse B) → Parse B
◌>>=◌ m f c = elim (m c) [ err e ↦ err e | ok (a, c') ↦ f a c' ]

abbrev pub yield : {A : Type 0} → A → Parse A
yield a c = ok (a, c)

abbrev pub raise : {A : Type 0} → AddrParseError → Parse A
raise e c = err e

abbrev pub lift : {A : Type 0} → Result AddrParseError A → Parse A
lift (ok a) c = ok (a, c)
lift (err e) c = err e

-- `.ok_or(NonCanonicalOrTruncated)?`
abbrev pub need : {A : Type 0} → Reader A → Parse A
need m c = elim (m c) [ none ↦ err non_canonical_or_truncated | some r ↦ ok r ]

unfoldable pub check_addr_count : ℕ → Result AddrParseError (Unit {0})
check_addr_count count = if ltb max_addr_to_send count then err (too_many count) else ok tt

unfoldable pub finish_addr_parse :
    ℕ → List AdvertisedAddr → ℕ → Cursor → Result AddrParseError ParsedAddrMessage
finish_addr_parse count addrs unknown_entries c =
    if not (remaining c == 0)
    then err (trailing_bytes (remaining c))
    else ok (record { declared_count = count; addrs = addrs; unknown_entries = unknown_entries })

-- One record of a legacy `addr` message.
unfoldable pub read_addr : Parse AdvertisedAddr
read_addr = do
  ts ← need u32_le
  services ← need u64_le
  octets ← need (take_bytes 16)
  port ← need u16_be
  yield (record {
    host = (decode_legacy_ip octets).0;
    port = port;
    network = (decode_legacy_ip octets).1;
    timestamp = pos ts;
    services = services;
    wire_network_id = 2;
  })

-- The loop over `count` records, with `out` read already.
unfoldable pub read_addrs : ℕ → List AdvertisedAddr → Parse (List AdvertisedAddr)
read_addrs zero out = yield out
read_addrs (suc left) out = read_addr >>= λ a. read_addrs left (out ++ a ∷ [])

abbrev pub finished : {A : Type 0} → Result AddrParseError (A × Cursor) → Result AddrParseError A
finished (ok (a, c)) = ok a
finished (err e) = err e

unfoldable pub read_addr_message : Parse ParsedAddrMessage
read_addr_message = do
  count ← need compact_size_canonical
  checked ← lift (check_addr_count count)
  out ← read_addrs count []
  λ c. lift (finish_addr_parse count out 0 c) c

unfoldable pub parse_addr : List ℕ → Result AddrParseError ParsedAddrMessage
unfolding read_addr_message
parse_addr payload = finished (read_addr_message (new payload))

-- `BASE32_NOPAD.encode(bytes).to_lowercase()`
abbrev pub label_of : Crates → List ℕ → Text
label_of crates bytes = map to_lower (crates.base32_encode bytes)

unfoldable pub encode_onion_v3 : Crates → List ℕ → Option Text
encode_onion_v3 crates pubkey =
    if not (length pubkey == 32)
    then none
    else some
        (label_of crates (pubkey ++ (onion_checksum crates pubkey ++ 3 ∷ [])) ++ text ".onion")

abbrev onion_or : ℕ → Option Text → Result AddrParseError (Option (Text × NetworkType))
onion_or net_id none = err (invalid_network_encoding net_id)
onion_or net_id (some host) = ok (some (host, onion_v3))

-- `ok none` is a network of the future, which is skipped.
unfoldable pub decode_addrv2 :
    Crates → ℕ → List ℕ → Result AddrParseError (Option (Text × NetworkType))
decode_addrv2 crates net_id bytes =
    if net_id == 1
    then ok (
        some (
          show_ipv4 (get_or bytes 0 0) (get_or bytes 1 0) (get_or bytes 2 0) (get_or bytes 3 0),
          ipv4,
        ))
    else if net_id == 2
    then if is_mapped bytes || get_or bytes 0 0 == 0xfc
      then err (invalid_network_encoding net_id)
      else ok (some (show_ipv6 bytes, ipv6))
    else if net_id == 3
    then ok (some (label_of crates bytes ++ text ".onion", onion_v2))
    else if net_id == 4
    then onion_or net_id (encode_onion_v3 crates bytes)
    else if net_id == 5
    then ok (some (label_of crates bytes ++ text ".b32.i2p", i2p))
    else if net_id == 6
    then if not (get_or bytes 0 0 == 0xfc)
      then err (invalid_network_encoding net_id)
      else ok (some (show_ipv6 bytes, cjdns))
    else ok none

unfoldable pub expected_length : ℕ → ℕ → ℕ
expected_length net_id addr_len =
    if net_id == 1
    then 4
    else if net_id == 2
    then 16
    else if net_id == 3
    then 10
    else if net_id == 4
    then 32
    else if net_id == 5
    then 32
    else if net_id == 6
    then 16
    else addr_len

unfoldable pub check_length : ℕ → ℕ → Result AddrParseError (Unit {0})
check_length net_id addr_len =
    if ltb 512 addr_len || not (addr_len == expected_length net_id addr_len)
    then err (wrong_length net_id addr_len)
    else ok tt

abbrev pub entry : ℕ → ℕ → ℕ → ℕ → Option (Text × NetworkType) → Option AdvertisedAddr
entry ts services net_id port none = none
entry ts services net_id port (some (host, network)) = some (record {
  host = host;
  port = port;
  network = network;
  timestamp = pos ts;
  services = services;
  wire_network_id = net_id;
})

-- One record of an `addrv2` message; `none` is an entry that is skipped.
unfoldable pub read_addrv2 : Crates → Parse (Option AdvertisedAddr)
read_addrv2 crates = do
  ts ← need u32_le
  services ← need compact_size_canonical
  net_id ← need u8
  addr_len ← need compact_size_canonical
  checked ← lift (check_length net_id addr_len)
  addr_bytes ← need (take_bytes addr_len)
  port ← need u16_be
  decoded ← lift (decode_addrv2 crates net_id addr_bytes)
  yield (entry ts services net_id port decoded)

abbrev pub Entries : Type 0
Entries = List AdvertisedAddr × ℕ

abbrev pub add_entry : Entries → Option AdvertisedAddr → Entries
add_entry (out, unknown_entries) none = (out, unknown_entries + 1)
add_entry (out, unknown_entries) (some a) = (out ++ a ∷ [], unknown_entries)

unfoldable pub read_addrv2s : Crates → ℕ → Entries → Parse Entries
read_addrv2s crates zero out = yield out
read_addrv2s crates (suc left) out =
    read_addrv2 crates >>= λ a. read_addrv2s crates left (add_entry out a)

unfoldable pub read_addrv2_message : Crates → Parse ParsedAddrMessage
read_addrv2_message crates = do
  count ← need compact_size_canonical
  checked ← lift (check_addr_count count)
  out ← read_addrv2s crates count ([], 0)
  λ c. lift (finish_addr_parse count out.0 out.1 c) c

unfoldable pub parse_addrv2 : Crates → List ℕ → Result AddrParseError ParsedAddrMessage
unfolding read_addrv2_message
parse_addrv2 crates payload = finished (read_addrv2_message crates (new payload))
