-- ===== src/Node/Stats.antt =====
-- src/store.rs: the counters of one node, `NodeStats`, and the per-network totals, `NetworkBreakdown`.
use new_p2p_crawler.Node.{CollectionOutcome, not_requested}
use new_p2p_crawler.Prelude.{ℕ, ◌+◌, ◌%◌, ◌^◌, ◌≡◌, arith, ℤ, refl, Option, none}
use new_p2p_crawler.Address.{NetworkType}

-- `+=` on a u64
abbrev pub add64 : ℕ → ℕ → ℕ
add64 a b = (a + b) % 2 ^ 64

-- Addresses seen, in total and per network.
pub record NetworkBreakdown : Type 0 where
  pub total : ℕ
  pub unknown : ℕ
  pub ipv4 : ℕ
  pub ipv6 : ℕ
  pub onion_v2 : ℕ
  pub onion_v3 : ℕ
  pub i2p : ℕ
  pub cjdns : ℕ

abbrev pub none_seen : NetworkBreakdown
none_seen = record {
  total = 0;
  unknown = 0;
  ipv4 = 0;
  ipv6 = 0;
  onion_v2 = 0;
  onion_v3 = 0;
  i2p = 0;
  cjdns = 0;
}

abbrev count_network : NetworkBreakdown → NetworkType → NetworkBreakdown
count_network b NetworkType.ipv4 = record b { ipv4 = add64 b.ipv4 1 }
count_network b NetworkType.ipv6 = record b { ipv6 = add64 b.ipv6 1 }
count_network b NetworkType.onion_v2 = record b { onion_v2 = add64 b.onion_v2 1 }
count_network b NetworkType.onion_v3 = record b { onion_v3 = add64 b.onion_v3 1 }
count_network b NetworkType.i2p = record b { i2p = add64 b.i2p 1 }
count_network b NetworkType.cjdns = record b { cjdns = add64 b.cjdns 1 }
count_network b NetworkType.unknown = record b { unknown = add64 b.unknown 1 }

unfoldable pub add : NetworkBreakdown → NetworkType → NetworkBreakdown
add b net = count_network (record b { total = add64 b.total 1 }) net

abbrev pub parts : NetworkBreakdown → ℕ
parts b = b.unknown + b.ipv4 + b.ipv6 + b.onion_v2 + b.onion_v3 + b.i2p + b.cjdns

-- The total is the sum of the parts, as u64 values.
abbrev pub IsBreakdown : NetworkBreakdown → Type 0
IsBreakdown b = b.total % 2 ^ 64 ≡ parts b % 2 ^ 64

-- If the total of a breakdown is the sum of its parts, as u64 values, it is so after an address of
-- any network was counted.
pub add-IsBreakdown :
    (b : NetworkBreakdown) (net : NetworkType) → IsBreakdown b → IsBreakdown (add b net)
unfolding add
add-IsBreakdown b NetworkType.ipv4 h = omega arith
add-IsBreakdown b _ h = omega arith

pub record NodeStats : Type 0 where
  pub time_connect_ms : Option ℕ
  pub handshake_attempts : ℕ
  pub first_version_send_ts : Option ℤ
  pub advertised_total : ℕ
  pub advertised_ipv4 : ℕ
  pub advertised_ipv6 : ℕ
  pub advertised_onion_v2 : ℕ
  pub advertised_onion_v3 : ℕ
  pub advertised_i2p : ℕ
  pub advertised_cjdns : ℕ
  pub advertised_unknown : ℕ
  pub collection_outcome : CollectionOutcome
  pub valid_addr_messages : ℕ
  pub malformed_addr_messages : ℕ

-- `NodeStats::default()`
abbrev pub no_stats : NodeStats
no_stats = record {
  time_connect_ms = none;
  handshake_attempts = 0;
  first_version_send_ts = none;
  advertised_total = 0;
  advertised_ipv4 = 0;
  advertised_ipv6 = 0;
  advertised_onion_v2 = 0;
  advertised_onion_v3 = 0;
  advertised_i2p = 0;
  advertised_cjdns = 0;
  advertised_unknown = 0;
  collection_outcome = not_requested;
  valid_addr_messages = 0;
  malformed_addr_messages = 0;
}

abbrev record_network : NodeStats → NetworkType → NodeStats
record_network s NetworkType.ipv4 = record s { advertised_ipv4 = add64 s.advertised_ipv4 1 }
record_network s NetworkType.ipv6 = record s { advertised_ipv6 = add64 s.advertised_ipv6 1 }
record_network s NetworkType.onion_v2 = record s {
  advertised_onion_v2 = add64 s.advertised_onion_v2 1;
}
record_network s NetworkType.onion_v3 = record s {
  advertised_onion_v3 = add64 s.advertised_onion_v3 1;
}
record_network s NetworkType.i2p = record s { advertised_i2p = add64 s.advertised_i2p 1 }
record_network s NetworkType.cjdns = record s { advertised_cjdns = add64 s.advertised_cjdns 1 }
record_network s NetworkType.unknown = record s {
  advertised_unknown = add64 s.advertised_unknown 1;
}

unfoldable pub record_advertised : NodeStats → NetworkType → NodeStats
record_advertised s net =
    record_network (record s { advertised_total = add64 s.advertised_total 1 }) net

-- The breakdown that a node's counters hold.
abbrev pub advertised : NodeStats → NetworkBreakdown
advertised s = record {
  total = s.advertised_total;
  unknown = s.advertised_unknown;
  ipv4 = s.advertised_ipv4;
  ipv6 = s.advertised_ipv6;
  onion_v2 = s.advertised_onion_v2;
  onion_v3 = s.advertised_onion_v3;
  i2p = s.advertised_i2p;
  cjdns = s.advertised_cjdns;
}

-- Recording an address counts it as the run-wide breakdown does.
pub advertised-record :
    (s : NodeStats) (net : NetworkType)
    → advertised (record_advertised s net) ≡ add (advertised s) net
unfolding record_advertised add
advertised-record s NetworkType.ipv4 = refl
advertised-record s _ = refl
