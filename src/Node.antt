-- ===== src/Node.antt =====
-- src/store.rs: what is recorded of one node (keys, states, failures, handshake data, counters).
pub mod Stats
use mathlib.Core.Option
use new_p2p_crawler.Prelude.{ℤ, text, Text, ℕ, Bool, Option, map, ℕ_discrete}
use new_p2p_crawler.Address.{render_addr}
use new_p2p_crawler.Protocol.Version.{VersionNetAddr, VersionData}

pub record AddrKey : Type 0 where
  pub host : Text
  pub port : ℕ

unfoldable pub AddrKey-discrete : Discrete AddrKey
AddrKey-discrete = hlevel ℕ_discrete

unfoldable pub render : AddrKey → Text
unfolding render_addr
render key = render_addr key.host key.port

pub data NodeState : Type 0 where
  queued processing reachable handshake_failed unreachable : NodeState
  stale_discarded budget_discarded : NodeState

unfoldable pub NodeState-discrete : Discrete NodeState
NodeState-discrete = hlevel

pub data FailKind : Type 0 where
  connect_refused connect_timeout connect_unreachable connect_reset : FailKind
  proxy_error sam_error connect_other : FailKind
  version_send_failed negotiation_send_failed verack_send_failed peer_verack_timeout : FailKind
  handshake_timeout connection_closed malformed_version protocol_desync handshake_other : FailKind
  worker_failed : FailKind

unfoldable pub fail_kind_str : FailKind → Text
unfolding text
fail_kind_str connect_refused = text "connect_refused"
fail_kind_str connect_timeout = text "connect_timeout"
fail_kind_str connect_unreachable = text "connect_unreachable"
fail_kind_str connect_reset = text "connect_reset"
fail_kind_str proxy_error = text "proxy_error"
fail_kind_str sam_error = text "sam_error"
fail_kind_str connect_other = text "connect_other"
fail_kind_str version_send_failed = text "version_send_failed"
fail_kind_str negotiation_send_failed = text "negotiation_send_failed"
fail_kind_str verack_send_failed = text "verack_send_failed"
fail_kind_str peer_verack_timeout = text "peer_verack_timeout"
fail_kind_str handshake_timeout = text "handshake_timeout"
fail_kind_str connection_closed = text "connection_closed"
fail_kind_str malformed_version = text "malformed_version"
fail_kind_str protocol_desync = text "protocol_desync"
fail_kind_str handshake_other = text "handshake_other"
fail_kind_str worker_failed = text "worker_failed"

pub record HandshakeData : Type 0 where
  pub version : ℤ
  pub services : ℕ
  pub user_agent : Text
  pub latest_block : ℤ
  pub relay : Bool
  pub version_reply_timestamp_remote : ℤ
  pub handshake_timestamp : ℤ
  pub handshake_duration_ms : ℕ
  pub requested_endpoint : Text
  pub transport_destination : Text
  pub socket_local : Text
  pub socket_peer : Text
  pub version_addr_recv : Text
  pub version_addr_recv_services : ℕ
  pub version_addr_from : Option Text
  pub version_addr_from_services : Option ℕ
  pub version_nonce : Option ℕ

abbrev claimed : VersionNetAddr → Text
claimed a = render_addr a.host a.port

unfoldable pub from_version : VersionData → ℤ → ℕ → Text → Text → Text → Text → HandshakeData
unfolding render_addr
from_version v handshake_timestamp duration_ms requested_endpoint transport_destination socket_local
      socket_peer =
    record {
      version = v.version;
      services = v.services;
      user_agent = v.user_agent;
      latest_block = v.latest_block;
      relay = v.relay;
      version_reply_timestamp_remote = v.timestamp;
      handshake_timestamp = handshake_timestamp;
      handshake_duration_ms = duration_ms;
      requested_endpoint = requested_endpoint;
      transport_destination = transport_destination;
      socket_local = socket_local;
      socket_peer = socket_peer;
      version_addr_recv = claimed v.addr_recv;
      version_addr_recv_services = v.addr_recv.services;
      version_addr_from = Option.map claimed v.addr_from;
      version_addr_from_services = Option.map (λ a. a.services) v.addr_from;
      version_nonce = v.nonce;
    }

pub data CollectionOutcome : Type 0 where
  not_requested complete_quiet no_response_timeout partial_hard_timeout : CollectionOutcome
  hard_timeout send_failed malformed_response partial_malformed_response : CollectionOutcome
  remote_disconnect partial_remote_disconnect incomplete_envelope_timeout : CollectionOutcome
  partial_incomplete_envelope_timeout log_failed : CollectionOutcome

unfoldable pub outcome_str : CollectionOutcome → Text
unfolding text
outcome_str not_requested = text "not_requested"
outcome_str complete_quiet = text "complete_quiet"
outcome_str no_response_timeout = text "no_response_timeout"
outcome_str partial_hard_timeout = text "partial_hard_timeout"
outcome_str hard_timeout = text "hard_timeout"
outcome_str send_failed = text "send_failed"
outcome_str malformed_response = text "malformed_response"
outcome_str partial_malformed_response = text "partial_malformed_response"
outcome_str remote_disconnect = text "remote_disconnect"
outcome_str partial_remote_disconnect = text "partial_remote_disconnect"
outcome_str incomplete_envelope_timeout = text "incomplete_envelope_timeout"
outcome_str partial_incomplete_envelope_timeout = text "partial_incomplete_envelope_timeout"
outcome_str log_failed = text "log_failed"

pub record AttemptData : Type 0 where
  pub attempt : ℕ
  pub connect_duration_ms : Option ℕ
  pub version_send_timestamp : Option ℤ
  pub outcome : Text
  pub failure : Option FailKind
