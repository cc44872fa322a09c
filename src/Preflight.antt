-- ===== src/Preflight.antt =====
-- src/preflight.rs: the probes of the networks that are on, and the table of their results.
pub mod Tries
pub mod Tests
use new_p2p_crawler.Address.{NetworkType, ipv4, ipv6, cjdns, i2p, ip, tor}
use new_p2p_crawler.Dns.{seeds, mainnet_port, Resolver, resolve_seed, ip_to_host}
use new_p2p_crawler.Transport.Dial.{
  IpAddr, v4, v6, Network, connect_tcp, socks5_probe, sam_probe, with_port,
}
use new_p2p_crawler.Net.Show.{show_ipv6}
use new_p2p_crawler.Settings.{Settings}
use new_p2p_crawler.Io.{IoResult, ok, err, is_ok}
use new_p2p_crawler.Prelude.{
  if◌then◌else◌, leb, ◌==◌, ◌+◌, ◌*◌, any, get_or, text, Text, ℕ, Bool, true, false, not, ◌&&◌,
  List, [], ◌∷◌, ◌++◌, zero, suc,
}

pub data ProbeResult : Type 0 where
  reachable : ProbeResult
  unreachable : Text → ProbeResult
  skipped : ProbeResult

-- `is_ok`
abbrev pub is_reachable : ProbeResult → Bool
is_reachable reachable = true
is_reachable (unreachable why) = false
is_reachable skipped = false

unfoldable pub render_result : ProbeResult → Text
unfolding text
render_result reachable = text "reachable"
render_result (unreachable why) = text "unreachable (" ++ (why ++ (b')' ∷ []))
render_result skipped = text "skipped"

pub record PreflightRow : Type 0 where
  pub network : Text
  pub enabled : Bool
  pub result : ProbeResult

-- How far the tries of `probe_ip` have come.
pub data Tried : Type 0 where
  connected : Tried
  tried : ℕ → Tried

-- The rest of the system: the resolver, the network, the time of each try of each probe, and the
-- addresses of the local interfaces.
pub record Surroundings : Type 0 where
  pub lookup : Resolver
  pub net : Network
  pub clock : ℕ → ℕ → ℕ
  pub interfaces : IoResult (List (List ℕ))

abbrev is_v6 : IpAddr → Bool
is_v6 (v4 octets) = false
is_v6 (v6 octets) = any (λ c. c == b':') (show_ipv6 octets)

module _ (s : Surroundings) (want_ipv6 : Bool) (connect_timeout : ℕ) where
  unfoldable pub is_wanted : IpAddr → Bool
  unfolding show_ipv6
  is_wanted address = if want_ipv6 then is_v6 address else not (is_v6 address)

  unfoldable pub accepts : ℕ → IpAddr → Bool
  unfolding connect_tcp ip_to_host
  accepts n address = is_ok (
      connect_tcp s.net (s.clock (if want_ipv6 then 1 else 0) n) (ip_to_host address) mainnet_port
        connect_timeout)

  -- The inner loop.
  unfoldable pub try_ips : ℕ → List IpAddr → Tried
  try_ips n [] = tried n
  try_ips n (address ∷ ips) = elim (is_wanted address) [
    | false ↦ try_ips n ips
    | true ↦ elim (accepts n address) [
      | true ↦ connected
      | false ↦ elim (leb 5 (n + 1)) [ true ↦ tried (n + 1) | false ↦ try_ips (n + 1) ips ]
    ]
  ]

  -- The outer loop.
  unfoldable pub try_seeds : Tried → List Text → Tried
  try_seeds connected names = connected
  try_seeds (tried n) [] = tried n
  try_seeds (tried n) (name ∷ names) = elim (leb 5 n) [
    | true ↦ tried n
    | false ↦ try_seeds (try_ips n (resolve_seed s.lookup name)) names
  ]

  abbrev pub probe_result : Tried → ProbeResult
  unfolding text
  probe_result connected = reachable
  probe_result (tried zero) = unreachable (text "no seed addresses resolved for this family")
  probe_result (tried (suc n)) = unreachable (text "no resolved node accepted a connection")

  unfoldable pub probe_ip : ProbeResult
  unfolding seeds
  probe_ip = probe_result (try_seeds (tried 0) seeds)

-- A probe of a proxy, with the words that name it.
abbrev proxy_result : Text → Text → ℕ → IoResult (Unit {0}) → ProbeResult
unfolding text
proxy_result what host port (ok u) = reachable
proxy_result what host port (err e) =
    unreachable (what ++ (with_port host port ++ (text ": " ++ e.message)))

unfoldable pub probe_cjdns : IoResult (List (List ℕ)) → ProbeResult
unfolding text
probe_cjdns (ok addrs) =
    if any (λ a. get_or a 0 0 == 0xfc) addrs
    then reachable
    else unreachable (text "no cjdns interface")
probe_cjdns (err e) = unreachable (text "no cjdns interface")

abbrev row : Text → Bool → ProbeResult → PreflightRow
row network enabled result = record {
  network = network;
  enabled = enabled;
  result = if enabled then result else skipped;
}

unfoldable pub run_preflight : Surroundings → Settings → List PreflightRow
unfolding text probe_ip socks5_probe sam_probe probe_cjdns
run_preflight s settings =
    let en = settings.enabled_networks in
    let to = settings.node_settings.timeouts in
    let ns = settings.node_settings.network_settings in
    row (text "ipv4") en.ipv4 (probe_ip s false (1000 * to.ip.connect))
    ∷ row (text "ipv6") en.ipv6 (probe_ip s true (1000 * to.ip.connect))
    ∷ row (text "tor") en.tor (
        proxy_result (text "SOCKS5 proxy ") ns.tor_proxy_host ns.tor_proxy_port (
          socks5_probe s.net (s.clock 2 0) ns.tor_proxy_host ns.tor_proxy_port
            (1000 * to.tor.connect)))
    ∷ row (text "i2p") en.i2p (
        proxy_result (text "SAM router ") ns.i2p_sam_host ns.i2p_sam_port
          (sam_probe s.net (s.clock 3 0) ns.i2p_sam_host ns.i2p_sam_port (1000 * to.i2p.connect)))
    ∷ row (text "cjdns") en.cjdns (probe_cjdns s.interfaces)
    ∷ []

unfoldable pub any_enabled_failed : List PreflightRow → List Text
unfolding render_result text
any_enabled_failed [] = []
any_enabled_failed (r ∷ rows) =
    let rest = any_enabled_failed rows in
    if r.enabled && not (is_reachable r.result)
    then (r.network ++ (text ": " ++ render_result r.result)) ∷ rest
    else rest

-- What `print_table` returns.
unfoldable pub print_table : Bool → List PreflightRow → Bool
print_table all_ok [] = all_ok
print_table all_ok (r ∷ rows) =
    print_table (if r.enabled && not (is_reachable r.result) then false else all_ok) rows
