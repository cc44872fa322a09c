-- ===== src/Output/Rows.antt =====
-- src/output.rs: the rows of the three CSV files. A row is what `write_record` is given.
pub mod Sorted
use mathlib.Core.Option
use new_p2p_crawler.Output.Sort.{sort_by_key}
use new_p2p_crawler.Output.Json.{
  Json, null, number, string, array, object, items, fields, unsigned, optional, Printer,
}
use new_p2p_crawler.Store.{NodeEntry, NodeMap, state_eq}
use new_p2p_crawler.Node.{
  AddrKey, NodeState, reachable, handshake_failed, unreachable, FailKind, fail_kind_str,
  HandshakeData, AttemptData, outcome_str,
}
use new_p2p_crawler.Address.{as_str}
use new_p2p_crawler.AddrLog.Blocks.{bool_text}
use new_p2p_crawler.Decimal.{decimal, decimal_ℤ}
use new_p2p_crawler.Io.{Result, ok, err, ◌>>=◌}
use new_p2p_crawler.Prelude.{
  if◌then◌else◌, ℤ, pos, text, Text, Option, none, some, List, [], ◌∷◌, map,
}

-- The entries in one state, in the order of the snapshot.
unfoldable pub in_state : NodeState → NodeMap → NodeMap
in_state state [] = []
in_state state ((key, e) ∷ m) =
    if state_eq e.state state then (key, e) ∷ in_state state m else in_state state m

-- The keys of the sorts.
abbrev pub reachable_time : AddrKey × NodeEntry → ℤ
reachable_time (key, e) = elim e.handshake [ none ↦ pos 0 | some h ↦ h.handshake_timestamp ]

abbrev pub failed_time : AddrKey × NodeEntry → ℤ
failed_time (key, e) = elim e.stats.first_version_send_ts [ none ↦ pos 0 | some t ↦ t ]

abbrev pub unreachable_time : AddrKey × NodeEntry → ℤ
unreachable_time (key, e) = e.freshest_ts

unfoldable pub reachable_entries : NodeMap → NodeMap
unfolding in_state sort_by_key
reachable_entries snapshot = sort_by_key reachable_time (in_state reachable snapshot)

unfoldable pub failed_entries : NodeMap → NodeMap
unfolding in_state sort_by_key
failed_entries snapshot = sort_by_key failed_time (in_state handshake_failed snapshot)

unfoldable pub unreachable_entries : NodeMap → NodeMap
unfolding in_state sort_by_key
unreachable_entries snapshot = sort_by_key unreachable_time (in_state unreachable snapshot)

-- `.map(|v| v.to_string()).unwrap_or_default()`
abbrev pub or_empty : {A : Type 0} → (A → Text) → Option A → Text
or_empty f none = []
or_empty f (some a) = f a

unfoldable pub attempt_json : AttemptData → Json
unfolding text
attempt_json a = object (
    fields (
      (text "attempt", unsigned a.attempt)
      ∷ (text "connect_duration_ms", optional unsigned a.connect_duration_ms)
      ∷ (text "version_send_timestamp", optional number a.version_send_timestamp)
      ∷ (text "outcome", string a.outcome)
      ∷ (text "failure", optional (λ f. string (fail_kind_str f)) a.failure)
      ∷ []))

unfoldable pub attempt_history_json : Printer → NodeEntry → Result Text Text
unfolding attempt_json
attempt_history_json printer e = printer.to_string (array (items (map attempt_json e.attempts)))

unfoldable pub reachable_header : List Text
unfolding text
reachable_header =
    text "host"
    ∷ text "port"
    ∷ text "network"
    ∷ text "handshake_timestamp"
    ∷ text "time_connect"
    ∷ text "handshake_attempts"
    ∷ text "handshake_duration"
    ∷ text "version"
    ∷ text "services"
    ∷ text "user_agent"
    ∷ text "latest_block"
    ∷ text "relay"
    ∷ text "version_reply_timestamp_remote"
    ∷ text "advertised_addrs_total"
    ∷ text "advertised_addrs_ipv4"
    ∷ text "advertised_addrs_ipv6"
    ∷ text "advertised_addrs_onion_v2"
    ∷ text "advertised_addrs_onion_v3"
    ∷ text "advertised_addrs_i2p"
    ∷ text "advertised_addrs_cjdns"
    ∷ text "freshest_timestamp"
    ∷ text "collection_outcome"
    ∷ text "valid_addr_messages"
    ∷ text "malformed_addr_messages"
    ∷ text "requested_endpoint"
    ∷ text "transport_destination"
    ∷ text "socket_local"
    ∷ text "socket_peer"
    ∷ text "version_addr_recv"
    ∷ text "version_addr_recv_services"
    ∷ text "version_addr_from"
    ∷ text "version_addr_from_services"
    ∷ text "version_nonce"
    ∷ text "attempt_history_json"
    ∷ []

unfoldable pub reachable_fields : AddrKey → NodeEntry → HandshakeData → Text → List Text
reachable_fields key e h history =
    key.host
    ∷ decimal key.port
    ∷ as_str e.network
    ∷ decimal_ℤ h.handshake_timestamp
    ∷ or_empty decimal e.stats.time_connect_ms
    ∷ decimal e.stats.handshake_attempts
    ∷ decimal h.handshake_duration_ms
    ∷ decimal_ℤ h.version
    ∷ decimal h.services
    ∷ h.user_agent
    ∷ decimal_ℤ h.latest_block
    ∷ bool_text h.relay
    ∷ decimal_ℤ h.version_reply_timestamp_remote
    ∷ decimal e.stats.advertised_total
    ∷ decimal e.stats.advertised_ipv4
    ∷ decimal e.stats.advertised_ipv6
    ∷ decimal e.stats.advertised_onion_v2
    ∷ decimal e.stats.advertised_onion_v3
    ∷ decimal e.stats.advertised_i2p
    ∷ decimal e.stats.advertised_cjdns
    ∷ decimal_ℤ e.freshest_ts
    ∷ outcome_str e.stats.collection_outcome
    ∷ decimal e.stats.valid_addr_messages
    ∷ decimal e.stats.malformed_addr_messages
    ∷ h.requested_endpoint
    ∷ h.transport_destination
    ∷ h.socket_local
    ∷ h.socket_peer
    ∷ h.version_addr_recv
    ∷ decimal h.version_addr_recv_services
    ∷ or_empty (λ s. s) h.version_addr_from
    ∷ or_empty decimal h.version_addr_from_services
    ∷ or_empty decimal h.version_nonce
    ∷ history
    ∷ []

unfoldable pub failed_header : List Text
unfolding text
failed_header =
    text "host"
    ∷ text "port"
    ∷ text "network"
    ∷ text "failure_reason"
    ∷ text "handshake_timestamp"
    ∷ text "time_connect"
    ∷ text "handshake_attempts"
    ∷ text "freshest_timestamp"
    ∷ text "attempt_history_json"
    ∷ []

unfoldable pub failed_fields : AddrKey → NodeEntry → Text → List Text
failed_fields key e history =
    key.host
    ∷ decimal key.port
    ∷ as_str e.network
    ∷ or_empty fail_kind_str e.failure
    ∷ or_empty decimal_ℤ e.stats.first_version_send_ts
    ∷ or_empty decimal e.stats.time_connect_ms
    ∷ decimal e.stats.handshake_attempts
    ∷ decimal_ℤ e.freshest_ts
    ∷ history
    ∷ []

unfoldable pub unreachable_header : List Text
unfolding text
unreachable_header =
    text "host"
    ∷ text "port"
    ∷ text "network"
    ∷ text "failure_reason"
    ∷ text "handshake_attempts"
    ∷ text "freshest_timestamp"
    ∷ text "attempt_history_json"
    ∷ []

unfoldable pub unreachable_fields : AddrKey → NodeEntry → Text → List Text
unreachable_fields key e history =
    key.host
    ∷ decimal key.port
    ∷ as_str e.network
    ∷ or_empty fail_kind_str e.failure
    ∷ decimal e.stats.handshake_attempts
    ∷ decimal_ℤ e.freshest_ts
    ∷ history
    ∷ []
