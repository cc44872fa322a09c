-- ===== src/Settings/Tests.antt =====
-- Examples of durations and of built settings.
use new_p2p_crawler.Prelude.{pos, negsuc, ◌*◌, ◌≡◌, refl, true, false, none, [], ◌∷◌, ◌++◌, arith}
use new_p2p_crawler.Io.{ok}
use new_p2p_crawler.Decimal.{digits_value}
use new_p2p_crawler.Settings.{Settings}
use new_p2p_crawler.Settings.Duration.{parse_duration}
use new_p2p_crawler.Settings.Duration.Units.{hour, parse_duration-unit}
use new_p2p_crawler.Settings.Build.{CommonArgs, Cli, settings_of, into_settings}
use new_p2p_crawler.Settings.Build.Valid.{IsSettings, into_settings-IsSettings}

two_days : parse_duration (b'2' ∷ (b'd' ∷ [])) ≡ ok (pos 172_800)
unfolding parse_duration
two_days = refl

spaced :
    parse_duration (0x20 ∷ b'4' ∷ b'8' ∷ b'h' ∷ 0xE2 ∷ 0x80 ∷ 0x89 ∷ 0x0A ∷ []) ≡ ok (pos 172_800)
unfolding parse_duration
spaced = refl

-- Past 2^63 seconds the product wraps around, here to a negative threshold.
wrapped :
    parse_duration (
      b'2' ∷ b'0' ∷ b'0' ∷ b'0' ∷ b'0' ∷ b'0' ∷ b'0' ∷ b'0' ∷ b'0' ∷ b'0' ∷ b'0' ∷ b'0' ∷ b'0'
      ∷ b'0' ∷ b'0' ∷ b'd' ∷ [])
    ≡ ok (negsuc 1_166_744_073_709_551_615)
unfolding parse_duration
wrapped = refl

parse_duration-unit_example :
    parse_duration (b'4' ∷ (b'8' ∷ []) ++ b'h' ∷ []) ≡ ok (pos (48 * 3600))
unfolding digits_value
parse_duration-unit_example =
    parse_duration-unit b'4' (b'8' ∷ []) b'h' 3600 48
      ((omega arith, omega arith), ((omega arith, omega arith), tt)) refl hour (omega arith)

-- The default arguments with Tor off and no worker for it.
abbrev common : CommonArgs
common = record {
  ip_connect_timeout = 3;
  ip_message_timeout = 30;
  ip_getaddr_timeout = 70;
  ip_getaddr_idle_timeout = 3;
  tor_connect_timeout = 3;
  tor_message_timeout = 30;
  tor_getaddr_timeout = 70;
  tor_getaddr_idle_timeout = 3;
  i2p_connect_timeout = 3;
  i2p_message_timeout = 30;
  i2p_getaddr_timeout = 70;
  i2p_getaddr_idle_timeout = 3;
  cjdns_connect_timeout = 3;
  cjdns_message_timeout = 30;
  cjdns_getaddr_timeout = 70;
  cjdns_getaddr_idle_timeout = 3;
  ip_concurrency = 64;
  tor_concurrency = 0;
  i2p_concurrency = 32;
  handshake_attempts = 3;
  delay_start = 0;
  record_addr_responses = true;
  no_record_addr_responses = false;
  retry_on_timeout = false;
  ipv4 = false;
  no_ipv4 = false;
  ipv6 = false;
  no_ipv6 = false;
  tor = false;
  no_tor = true;
  i2p = false;
  no_i2p = false;
  cjdns = false;
  no_cjdns = false;
  strict_networks = false;
  tor_proxy_host = [];
  tor_proxy_port = 9050;
  i2p_sam_host = [];
  i2p_sam_port = 7656;
  result_path = [];
  timestamp = none;
  extra_version_info = none;
  log_level = [];
  no_store_debug_log = false;
  checkpoint_interval = b'1' ∷ b'0' ∷ b'm' ∷ [];
}

abbrev cli : Cli
cli = record {
  common = common;
  dry_run = false;
  max_nodes = none;
  max_addresses = 1_000_000;
  freshness_threshold = b'2' ∷ b'd' ∷ [];
  no_freshness_filter = false;
}

abbrev pub default_settings : Settings
default_settings = settings_of [] [] common (pos 172_800) none 1_000_000 false false (pos 600)

cli_built : into_settings [] [] cli ≡ ok default_settings
unfolding into_settings
cli_built = refl

into_settings-IsSettings_example : IsSettings default_settings
into_settings-IsSettings_example =
    into_settings-IsSettings [] [] cli {s = default_settings} cli_built
