-- ===== src/Settings.antt =====
-- src/settings.rs: the settings tree, the timeouts of a network, and which networks are on.
pub mod Duration
pub mod Build
pub mod Tests
use new_p2p_crawler.Prelude.{ℤ, Text, ℕ, Bool, false, Option, text, List, [], ◌∷◌, ◌++◌}
use new_p2p_crawler.Address.{NetworkType, onion_v2, onion_v3, unknown}

pub record Timeouts : Type 0 where
  pub connect : ℕ
  pub message : ℕ
  pub getaddr : ℕ
  pub getaddr_idle : ℕ

pub record EnabledNetworks : Type 0 where
  pub ipv4 : Bool
  pub ipv6 : Bool
  pub tor : Bool
  pub i2p : Bool
  pub cjdns : Bool

pub record Concurrency : Type 0 where
  pub ip : ℕ
  pub tor : ℕ
  pub i2p : ℕ

pub record TimeoutSettings : Type 0 where
  pub ip : Timeouts
  pub tor : Timeouts
  pub i2p : Timeouts
  pub cjdns : Timeouts

pub record NetworkEndpoints : Type 0 where
  pub tor_proxy_host : Text
  pub tor_proxy_port : ℕ
  pub i2p_sam_host : Text
  pub i2p_sam_port : ℕ

pub record NodeSettings : Type 0 where
  pub timeouts : TimeoutSettings
  pub handshake_attempts : ℕ
  pub network_settings : NetworkEndpoints

pub record ResultSettings : Type 0 where
  pub path : Text
  pub timestamp : Text
  pub reachable_nodes : Text
  pub handshake_failed_nodes : Text
  pub unreachable_nodes : Text
  pub crawler_stats : Text
  pub addr_responses : Text

pub record VersionInfo : Type 0 where
  pub version : Text
  pub extra : Option Text

pub record Settings : Type 0 where
  pub version_info : VersionInfo
  pub delay_start : ℕ
  pub max_nodes : Option ℕ
  pub max_addresses : ℕ
  pub enabled_networks : EnabledNetworks
  pub strict_networks : Bool
  pub freshness_threshold : ℤ
  pub record_addr_responses : Bool
  pub concurrency : Concurrency
  pub node_settings : NodeSettings
  pub result_settings : ResultSettings
  pub dry_run : Bool
  pub log_level : Text
  pub store_debug_log : Bool
  pub retry_on_timeout : Bool
  pub checkpoint_interval : ℤ
  pub probe_mode : Bool

unfoldable pub timeouts_for : Settings → NetworkType → Timeouts
timeouts_for s NetworkType.ipv4 = s.node_settings.timeouts.ip
timeouts_for s NetworkType.ipv6 = s.node_settings.timeouts.ip
timeouts_for s NetworkType.cjdns = s.node_settings.timeouts.cjdns
timeouts_for s NetworkType.onion_v2 = s.node_settings.timeouts.tor
timeouts_for s NetworkType.onion_v3 = s.node_settings.timeouts.tor
timeouts_for s NetworkType.i2p = s.node_settings.timeouts.i2p
timeouts_for s NetworkType.unknown = s.node_settings.timeouts.ip

unfoldable pub is_enabled : Settings → NetworkType → Bool
is_enabled s NetworkType.ipv4 = s.enabled_networks.ipv4
is_enabled s NetworkType.ipv6 = s.enabled_networks.ipv6
is_enabled s NetworkType.cjdns = s.enabled_networks.cjdns
is_enabled s NetworkType.onion_v2 = s.enabled_networks.tor
is_enabled s NetworkType.onion_v3 = s.enabled_networks.tor
is_enabled s NetworkType.i2p = s.enabled_networks.i2p
is_enabled s NetworkType.unknown = false

-- `<timestamp>_v<version>`
unfoldable pub prefix : Settings → Text
unfolding text
prefix s = s.result_settings.timestamp ++ (text "_v" ++ s.version_info.version)

-- The run's directory and a file in it, by their components.
unfoldable pub run_dir : Settings → List Text
unfolding prefix
run_dir s = s.result_settings.path ∷ prefix s ∷ []

unfoldable pub output_path : Settings → Text → List Text
unfolding run_dir
output_path s file = run_dir s ++ (file ∷ [])
