-- ===== src/Settings/Build.antt =====
-- src/settings.rs: `into_settings`, which checks the arguments and builds the settings from them. The
-- arguments come parsed by the clap crate; the package version and the start time are parameters.
pub mod Valid
use new_p2p_crawler.Prelude.{
  ltb, leb, if◌then◌else◌, ℤ, pos, text, Text, ℕ, zero, Bool, false, not, ◌&&◌, ◌||◌, Option, none,
  some,
}
use new_p2p_crawler.Io.{Result, ok, err, ◌>>◌}
use new_p2p_crawler.Settings.{EnabledNetworks, Settings}
use new_p2p_crawler.Settings.Duration.{parse_duration}

pub record CommonArgs : Type 0 where
  pub ip_connect_timeout : ℕ
  pub ip_message_timeout : ℕ
  pub ip_getaddr_timeout : ℕ
  pub ip_getaddr_idle_timeout : ℕ
  pub tor_connect_timeout : ℕ
  pub tor_message_timeout : ℕ
  pub tor_getaddr_timeout : ℕ
  pub tor_getaddr_idle_timeout : ℕ
  pub i2p_connect_timeout : ℕ
  pub i2p_message_timeout : ℕ
  pub i2p_getaddr_timeout : ℕ
  pub i2p_getaddr_idle_timeout : ℕ
  pub cjdns_connect_timeout : ℕ
  pub cjdns_message_timeout : ℕ
  pub cjdns_getaddr_timeout : ℕ
  pub cjdns_getaddr_idle_timeout : ℕ
  pub ip_concurrency : ℕ
  pub tor_concurrency : ℕ
  pub i2p_concurrency : ℕ
  pub handshake_attempts : ℕ
  pub delay_start : ℕ
  pub record_addr_responses : Bool
  pub no_record_addr_responses : Bool
  pub retry_on_timeout : Bool
  pub ipv4 : Bool
  pub no_ipv4 : Bool
  pub ipv6 : Bool
  pub no_ipv6 : Bool
  pub tor : Bool
  pub no_tor : Bool
  pub i2p : Bool
  pub no_i2p : Bool
  pub cjdns : Bool
  pub no_cjdns : Bool
  pub strict_networks : Bool
  pub tor_proxy_host : Text
  pub tor_proxy_port : ℕ
  pub i2p_sam_host : Text
  pub i2p_sam_port : ℕ
  pub result_path : Text
  pub timestamp : Option Text
  pub extra_version_info : Option Text
  pub log_level : Text
  pub no_store_debug_log : Bool
  pub checkpoint_interval : Text

pub record Cli : Type 0 where
  pub common : CommonArgs
  pub dry_run : Bool
  pub max_nodes : Option ℕ
  pub max_addresses : ℕ
  pub freshness_threshold : Text
  pub no_freshness_filter : Bool

abbrev pub ensure : Bool → Text → Result Text (Unit {0})
ensure b message = if b then ok tt else err message

abbrev pub max_concurrency : ℕ
max_concurrency = 4096

-- A flag and its negation; the negation alone turns a network off.
abbrev pub enabled_networks_of : CommonArgs → EnabledNetworks
enabled_networks_of a = record {
  ipv4 = a.ipv4 || not a.no_ipv4;
  ipv6 = a.ipv6 || not a.no_ipv6;
  tor = a.tor || not a.no_tor;
  i2p = a.i2p || not a.no_i2p;
  cjdns = a.cjdns || not a.no_cjdns;
}

-- The checks, in the order of the source.
unfoldable pub check_args : CommonArgs → ℕ → Result Text (Unit {0})
check_args a max_addresses =
    let on = enabled_networks_of a in
    ensure (ltb 0 max_addresses) (text "--max-addresses must be greater than zero")
    >> ensure (ltb 0 a.handshake_attempts) (text "--handshake-attempts must be greater than zero")
    >> ensure (leb a.ip_concurrency max_concurrency) (text "--ip-concurrency exceeds 4096")
    >> ensure (leb a.tor_concurrency max_concurrency) (text "--tor-concurrency exceeds 4096")
    >> ensure (leb a.i2p_concurrency max_concurrency) (text "--i2p-concurrency exceeds 4096")
    >> ensure (not (on.ipv4 || on.ipv6 || on.cjdns) || ltb 0 a.ip_concurrency)
        (text "enabled IP/CJDNS networks require --ip-concurrency > 0")
    >> ensure (not on.tor || ltb 0 a.tor_concurrency)
        (text "enabled Tor requires --tor-concurrency > 0")
    >> ensure (not on.i2p || ltb 0 a.i2p_concurrency)
        (text "enabled I2P requires --i2p-concurrency > 0")

abbrev or_default : Option Text → Text → Text
or_default none d = d
or_default (some t) d = t

module _ (pkg_version started : Text) where
  abbrev pub settings_of : CommonArgs → ℤ → Option ℕ → ℕ → Bool → Bool → ℤ → Settings
  settings_of a freshness_threshold max_nodes max_addresses dry_run probe_mode checkpoint_interval =
      record {
        version_info = record { version = pkg_version; extra = a.extra_version_info };
        delay_start = a.delay_start;
        max_nodes = max_nodes;
        max_addresses = max_addresses;
        enabled_networks = enabled_networks_of a;
        strict_networks = a.strict_networks;
        freshness_threshold = freshness_threshold;
        record_addr_responses = a.record_addr_responses && not a.no_record_addr_responses;
        concurrency = record {
          ip = a.ip_concurrency;
          tor = a.tor_concurrency;
          i2p = a.i2p_concurrency;
        };
        node_settings = record {
          timeouts = record {
            ip = record {
              connect = a.ip_connect_timeout;
              message = a.ip_message_timeout;
              getaddr = a.ip_getaddr_timeout;
              getaddr_idle = a.ip_getaddr_idle_timeout;
            };
            tor = record {
              connect = a.tor_connect_timeout;
              message = a.tor_message_timeout;
              getaddr = a.tor_getaddr_timeout;
              getaddr_idle = a.tor_getaddr_idle_timeout;
            };
            i2p = record {
              connect = a.i2p_connect_timeout;
              message = a.i2p_message_timeout;
              getaddr = a.i2p_getaddr_timeout;
              getaddr_idle = a.i2p_getaddr_idle_timeout;
            };
            cjdns = record {
              connect = a.cjdns_connect_timeout;
              message = a.cjdns_message_timeout;
              getaddr = a.cjdns_getaddr_timeout;
              getaddr_idle = a.cjdns_getaddr_idle_timeout;
            };
          };
          handshake_attempts = a.handshake_attempts;
          network_settings = record {
            tor_proxy_host = a.tor_proxy_host;
            tor_proxy_port = a.tor_proxy_port;
            i2p_sam_host = a.i2p_sam_host;
            i2p_sam_port = a.i2p_sam_port;
          };
        };
        result_settings = record {
          path = a.result_path;
          timestamp = or_default a.timestamp started;
          reachable_nodes = text "reachable_nodes.csv";
          handshake_failed_nodes = text "handshake_failed_nodes.csv";
          unreachable_nodes = text "unreachable_nodes.csv";
          crawler_stats = text "crawler_stats.json";
          addr_responses = text "addr_responses.csv";
        };
        dry_run = dry_run;
        log_level = a.log_level;
        store_debug_log = not a.no_store_debug_log;
        retry_on_timeout = a.retry_on_timeout;
        checkpoint_interval = checkpoint_interval;
        probe_mode = probe_mode;
      }

  abbrev pub built :
      CommonArgs
      → ℤ
      → Option ℕ
      → ℕ
      → Bool
      → Bool
      → ℤ
      → Result Text (Unit {0})
      → Result Text Settings
  built a freshness_threshold max_nodes max_addresses dry_run probe_mode checkpoint_interval
        (err e) =
      err e
  built a freshness_threshold max_nodes max_addresses dry_run probe_mode checkpoint_interval
        (ok checked) =
      ok (
        settings_of a freshness_threshold max_nodes max_addresses dry_run probe_mode
          checkpoint_interval)

  abbrev pub with_checkpoint :
      CommonArgs → ℤ → Option ℕ → ℕ → Bool → Bool → Result Text ℤ → Result Text Settings
  with_checkpoint a freshness_threshold max_nodes max_addresses dry_run probe_mode (err e) = err e
  with_checkpoint a freshness_threshold max_nodes max_addresses dry_run probe_mode (ok interval) =
      built a freshness_threshold max_nodes max_addresses dry_run probe_mode interval
        (check_args a max_addresses)

  unfoldable pub common_into_settings :
      CommonArgs → ℤ → Option ℕ → ℕ → Bool → Bool → Result Text Settings
  unfolding parse_duration check_args
  common_into_settings a freshness_threshold max_nodes max_addresses dry_run probe_mode =
      with_checkpoint a freshness_threshold max_nodes max_addresses dry_run probe_mode
        (parse_duration a.checkpoint_interval)

  abbrev pub threshold_of : Cli → Result Text ℤ
  threshold_of cli =
      if cli.no_freshness_filter then ok (pos 0) else parse_duration cli.freshness_threshold

  abbrev pub with_threshold : Cli → Result Text ℤ → Result Text Settings
  with_threshold cli (err e) = err e
  with_threshold cli (ok threshold) =
      common_into_settings cli.common threshold cli.max_nodes cli.max_addresses cli.dry_run false

  unfoldable pub into_settings : Cli → Result Text Settings
  unfolding common_into_settings parse_duration
  into_settings cli = with_threshold cli (threshold_of cli)
