-- ===== src/Protocol/Version/RoundTrip.antt =====
-- What `parse_version` makes of a version payload, for any values of its fields.
use new_p2p_crawler.Decimal.{decimal}
use new_p2p_crawler.Net.Show.{is_mapped, show_ipv4}
use new_p2p_crawler.Utf8.{is_utf8}
use new_p2p_crawler.Prelude.{
  le→not_ltb, length, ℤ, pos, leb_ℤ, to_le, to_be, of_i32, of_i64, IsSigned, ℕ, ◌^◌, ◌≤◌, ◌<◌, ◌≡◌,
  refl, Bool, true, some, List, [], ◌++◌, append-nil, arith, ◌==◌, text, sym, ap, ◌∙◌, false, not,
  ◌∷◌,
}
use new_p2p_crawler.Protocol.{our_user_agent, max_subversion_length, protocol_version}
use new_p2p_crawler.Protocol.Cursor.{new}
use new_p2p_crawler.Protocol.Cursor.Reads.{
  Reads, Reads-pure, Reads-bytes, Reads-bind, Reads-take, Reads-u16_be, Reads-u64_le, Reads-i32_le,
  Reads-i64_le, Reads-u8,
}
use new_p2p_crawler.Protocol.Compact.RoundTrip.{compact, compact_size-write}
use new_p2p_crawler.Protocol.Version.{
  VersionNetAddr, VersionData, decode_legacy_ip, parse_version_netaddr, read_text, read_relay,
  read_tail, read_version, parse_version, zero_ip, build_version, bounded,
}

-- A network address as it stands on the wire.
pub record WireAddr : Type 0 where
  pub services : ℕ
  pub octets : List ℕ
  pub port : ℕ

pub record IsWireAddr (a : WireAddr) : Type 0 where
  pub services_fit : a.services < 2 ^ 64
  pub sixteen : length a.octets ≡ 16
  pub port_fits : a.port < 2 ^ 16

abbrev pub wire : WireAddr → List ℕ
wire a = to_le 8 a.services ++ (a.octets ++ to_be 2 a.port)

abbrev pub shown : WireAddr → VersionNetAddr
shown a = record { services = a.services; host = (decode_legacy_ip a.octets).0; port = a.port }

Reads-netaddr : (a : WireAddr) → IsWireAddr a → Reads parse_version_netaddr (wire a) (shown a)
unfolding parse_version_netaddr
Reads-netaddr a v = Reads-bind _ (Reads-u64_le a.services v.services_fit) (
    Reads-bind _ (Reads-take a.octets 16 v.sixteen) (
      Reads-bytes (append-nil (to_be 2 a.port))
        (Reads-bind _ (Reads-u16_be a.port v.port_fits) (Reads-pure (shown a)))))

-- The fields of a payload from version 106 on, before the relay byte.
pub record Fields : Type 0 where
  pub version : ℤ
  pub services : ℕ
  pub timestamp : ℤ
  pub recv : WireAddr
  pub from : WireAddr
  pub nonce : ℕ
  pub agent : List ℕ
  pub block : ℤ

pub record IsFields (f : Fields) : Type 0 where
  pub version_fits : IsSigned (2 ^ 31) f.version
  pub modern : leb_ℤ (pos 106) f.version ≡ true
  pub services_fit : f.services < 2 ^ 64
  pub timestamp_fits : IsSigned (2 ^ 63) f.timestamp
  pub recv_fits : IsWireAddr f.recv
  pub from_fits : IsWireAddr f.from
  pub nonce_fits : f.nonce < 2 ^ 64
  pub agent_fits : length f.agent ≤ max_subversion_length
  pub block_fits : IsSigned (2 ^ 31) f.block

abbrev pub tail_bytes : Fields → List ℕ → List ℕ
tail_bytes f relay_bytes =
    wire f.from
    ++ (to_le 8 f.nonce
        ++ (compact (length f.agent) ++ (f.agent ++ (to_le 4 (of_i32 f.block) ++ relay_bytes))))

abbrev pub payload_bytes : Fields → List ℕ → List ℕ
payload_bytes f relay_bytes =
    to_le 4 (of_i32 f.version)
    ++ (to_le 8 f.services
        ++ (to_le 8 (of_i64 f.timestamp) ++ (wire f.recv ++ tail_bytes f relay_bytes)))

abbrev pub parsed : Fields → Bool → VersionData
parsed f relay = record {
  version = f.version;
  services = f.services;
  timestamp = f.timestamp;
  user_agent = read_text f.agent;
  latest_block = f.block;
  relay = relay;
  addr_recv = shown f.recv;
  addr_from = some (shown f.from);
  nonce = some f.nonce;
}

module _ (f : Fields) (v : IsFields f) (relay_bytes : List ℕ) (relay : Bool)
    (r : Reads (read_relay f.version) relay_bytes relay) where
  Reads-bounded : Reads (bounded (length f.agent)) [] (length f.agent)
  Reads-bounded =
      rw (le→not_ltb max_subversion_length (length f.agent) v.agent_fits)
        (Reads-pure (length f.agent))

  Reads-tail :
      Reads
        (read_tail f.version f.services f.timestamp (shown f.recv))
        (tail_bytes f relay_bytes)
        (parsed f relay)
  unfolding read_tail
  Reads-tail = Reads-bind _ (Reads-netaddr f.from v.from_fits) (
      Reads-bind _ (Reads-u64_le f.nonce v.nonce_fits) (
        Reads-bind _ (compact_size-write (length f.agent) (omega (arith, v.agent_fits))).1 (
          Reads-bind _ Reads-bounded (
            Reads-bind _ (Reads-take f.agent (length f.agent) refl) (
              Reads-bind _ (Reads-i32_le f.block v.block_fits) (
                Reads-bytes (append-nil relay_bytes)
                  (Reads-bind _ r (Reads-pure (parsed f relay)))))))))

  Reads-version : Reads read_version (payload_bytes f relay_bytes) (parsed f relay)
  unfolding read_version
  Reads-version = Reads-bind _ (Reads-i32_le f.version v.version_fits) (
      Reads-bind _ (Reads-u64_le f.services v.services_fit) (
        Reads-bind _ (Reads-i64_le f.timestamp v.timestamp_fits)
          (Reads-bind _ (Reads-netaddr f.recv v.recv_fits) (rw v.modern Reads-tail))))

  parse_version-Reads :
      (rest : List ℕ) → parse_version (payload_bytes f relay_bytes ++ rest) ≡ some (parsed f relay)
  unfolding parse_version
  parse_version-Reads rest =
      let (c', e, h, i) =
        Reads-version.at (new (payload_bytes f relay_bytes ++ rest)) rest (omega arith) refl in
      rw e

-- The relay byte, from version 70001 on.
Reads-relay :
    (version : ℤ) (byte : ℕ)
    → leb_ℤ (pos 70001) version ≡ true
    → Reads (read_relay version) (byte ∷ []) (not (byte == 0))
unfolding read_relay
Reads-relay version byte h = record {
  at = λ c rest i e.
      let (c', eq, ahead', i') = (Reads-u8 byte).at c rest i e in
      (c', rw (h, eq, read_relay), ahead', i');
}

-- A version message with any values that fit their fields, of version 70001 or later, is read back
-- field by field; bytes behind it are ignored.
pub parse_version_with_relay :
    (f : Fields) (byte : ℕ) (rest : List ℕ)
    → IsFields f
    → leb_ℤ (pos 70001) f.version ≡ true
    → parse_version (payload_bytes f (byte ∷ []) ++ rest) ≡ some (parsed f (not (byte == 0)))
parse_version_with_relay f byte rest v h =
    parse_version-Reads f v (byte ∷ []) (not (byte == 0)) (Reads-relay f.version byte h) rest

abbrev pub nowhere : WireAddr
nowhere = record { services = 0; octets = zero_ip; port = 0 }

abbrev pub own_fields : ℤ → ℕ → Fields
own_fields timestamp nonce = record {
  version = pos protocol_version;
  services = 0;
  timestamp = timestamp;
  recv = nowhere;
  from = nowhere;
  nonce = nonce;
  agent = our_user_agent;
  block = pos 0;
}

nowhere-IsWireAddr : IsWireAddr nowhere
nowhere-IsWireAddr = record { services_fit = omega arith; sixteen = refl; port_fits = omega arith }

own_fields-IsFields :
    (timestamp : ℤ) (nonce : ℕ)
    → IsSigned (2 ^ 63) timestamp
    → nonce < 2 ^ 64
    → IsFields (own_fields timestamp nonce)
unfolding text
own_fields-IsFields timestamp nonce t n = record {
  version_fits = omega arith;
  modern = refl;
  services_fit = omega arith;
  timestamp_fits = t;
  recv_fits = nowhere-IsWireAddr;
  from_fits = nowhere-IsWireAddr;
  nonce_fits = n;
  agent_fits = omega arith;
  block_fits = omega arith;
}

abbrev pub nobody : VersionNetAddr
nobody = record { services = 0; host = text "0.0.0.0"; port = 0 }

abbrev pub own_version : ℤ → ℕ → VersionData
own_version timestamp nonce = record {
  version = pos protocol_version;
  services = 0;
  timestamp = timestamp;
  user_agent = our_user_agent;
  latest_block = pos 0;
  relay = false;
  addr_recv = nobody;
  addr_from = some nobody;
  nonce = some nonce;
}

parsed-own_fields :
    (timestamp : ℤ) (nonce : ℕ)
    → parsed (own_fields timestamp nonce) false ≡ own_version timestamp nonce
unfolding text is_utf8 decode_legacy_ip is_mapped show_ipv4 decimal
parsed-own_fields timestamp nonce = refl

-- For every i64 timestamp and u64 nonce, the crawler's own version message, read by its own parser,
-- gives version 70016, the timestamp, the nonce, no services, height 0, relay off, the user agent
-- and the address 0.0.0.0 port 0 twice.
pub parse_version-build_version :
    (timestamp : ℤ) (nonce : ℕ)
    → IsSigned (2 ^ 63) timestamp
    → nonce < 2 ^ 64
    → parse_version (build_version timestamp nonce) ≡ some (own_version timestamp nonce)
unfolding build_version
parse_version-build_version timestamp nonce t n =
    ap parse_version (sym (append-nil (build_version timestamp nonce)))
    ∙ parse_version_with_relay (own_fields timestamp nonce) 0 []
        (own_fields-IsFields timestamp nonce t n) refl
    ∙ ap some (parsed-own_fields timestamp nonce)
