-- ===== src/Address.antt =====
-- src/address.rs: network types, the transport that carries each, and the classification of hosts.
use new_p2p_crawler.Prelude.{
  ltb, leb, ◌==◌, if◌then◌else◌, length, take, get_or, any, all, text, Text, strip_suffix, split,
  list_eq, slice, contains, ℕ, ◌+◌, ◌-◌, ◌^◌, Bool, true, false, not, ◌&&◌, ◌||◌, Option, none,
  some, List, [], ◌∷◌, ◌++◌, map,
}
use new_p2p_crawler.Decimal.{decimal, is_digit, parse_unsigned}
use new_p2p_crawler.Crates.{Crates}
use new_p2p_crawler.Net.Parse.{parse_ipv6}

pub data NetworkType : Type 0 where
  ipv4 ipv6 cjdns onion_v2 onion_v3 i2p unknown : NetworkType

unfoldable pub NetworkType-discrete : Discrete NetworkType
NetworkType-discrete = hlevel

unfoldable pub as_str : NetworkType → Text
unfolding text
as_str ipv4 = text "ipv4"
as_str ipv6 = text "ipv6"
as_str cjdns = text "cjdns"
as_str onion_v2 = text "onion_v2"
as_str onion_v3 = text "onion_v3"
as_str i2p = text "i2p"
as_str unknown = text "unknown"

pub data Transport : Type 0 where
  ip tor i2p : Transport

unfoldable pub transport : NetworkType → Transport
transport ipv4 = ip
transport ipv6 = ip
transport cjdns = ip
transport onion_v2 = tor
transport onion_v3 = tor
transport NetworkType.i2p = Transport.i2p
transport unknown = ip

abbrev pub is_base32_char : ℕ → Bool
is_base32_char b = (leb b'a' b && leb b b'z') || (leb b'2' b && leb b b'7')

-- `to_ascii_uppercase` and `to_lowercase`, at one byte of ASCII
abbrev pub to_upper : ℕ → ℕ
to_upper c = if leb b'a' c && leb c b'z' then c - 32 else c

abbrev pub to_lower : ℕ → ℕ
to_lower c = if leb b'A' c && leb c b'Z' then c + 32 else c

abbrev of_length : ℕ → Option (List ℕ) → Option (List ℕ)
of_length expected none = none
of_length expected (some bytes) = if length bytes == expected then some bytes else none

unfoldable pub decode_base32 : Crates → Text → ℕ → Option (List ℕ)
decode_base32 crates label expected_len =
    if any (λ b. not (is_base32_char b)) label
    then none
    else of_length expected_len (crates.base32_decode (map to_upper label))

-- The first two bytes of the digest that a v3 onion name carries.
unfoldable pub onion_checksum : Crates → List ℕ → List ℕ
onion_checksum crates pubkey =
    take 2 (crates.sha3_256 (text ".onion checksum" ++ (pubkey ++ (3 ∷ []))))

abbrev onion_v3_bytes : Crates → Option (List ℕ) → Bool
onion_v3_bytes crates none = false
onion_v3_bytes crates (some decoded) =
    if not (get_or decoded 34 0 == 3)
    then false
    else list_eq (slice 32 34 decoded) (onion_checksum crates (take 32 decoded))

unfoldable pub valid_onion_v3 : Crates → Text → Bool
valid_onion_v3 crates label = onion_v3_bytes crates (decode_base32 crates label 35)

abbrev is_octet : Text → Bool
is_octet part =
    not (length part == 0)
    && (all is_digit part
        && (elim (parse_unsigned (2 ^ 32 - 1) part) [ none ↦ false | some n ↦ ltb n 256 ]))

unfoldable pub is_ipv4_dotted : Text → Bool
is_ipv4_dotted host =
    let parts = split b'.' host in if not (length parts == 4) then false else all is_octet parts

abbrev colon_type : Option (List ℕ) → NetworkType
colon_type none = unknown
colon_type (some octets) = if get_or octets 0 0 == 0xfc then cjdns else ipv6

abbrev onion_type : Crates → Text → NetworkType
onion_type crates label =
    if length label == 16 && (elim (decode_base32 crates label 10) [ none ↦ false | some b ↦ true ])
    then onion_v2
    else if length label == 56 && valid_onion_v3 crates label
    then onion_v3
    else unknown

abbrev i2p_type : Crates → Text → NetworkType
i2p_type crates label =
    if length label == 52 && (elim (decode_base32 crates label 32) [ none ↦ false | some b ↦ true ])
    then NetworkType.i2p
    else unknown

unfoldable pub classify : Crates → Text → NetworkType
classify crates host =
    if contains b':' host
    then colon_type (parse_ipv6 host)
    else elim (strip_suffix (text ".onion") host) [
      | some label ↦ onion_type crates label
      | none ↦ elim (strip_suffix (text ".b32.i2p") host) [
        | some label ↦ i2p_type crates label
        | none ↦ if is_ipv4_dotted host then ipv4 else unknown
      ]
    ]

unfoldable pub render_addr : Text → ℕ → Text
render_addr host port =
    if contains b':' host
    then b'[' ∷ (host ++ (b']' ∷ b':' ∷ decimal port))
    else host ++ (b':' ∷ decimal port)
