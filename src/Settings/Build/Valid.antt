-- ===== src/Settings/Build/Valid.antt =====
-- What holds of settings that `into_settings` builds.
use new_p2p_crawler.Settings.Duration.{parse_duration}
use new_p2p_crawler.Prelude.{
  Text, ℕ, ◌≤◌, ◌<◌, ◌≡◌, refl, ◌⊎◌, Bool, true, false, ltb, leb, not, ◌||◌, arith, ltb→lt, leb→le,
  ℤ, subst, inl, inr, Option,
}
use new_p2p_crawler.Io.{Result, ok, err}
use new_p2p_crawler.Address.{NetworkType, Transport, transport}
use new_p2p_crawler.Settings.{Concurrency, Settings, is_enabled, EnabledNetworks}
use new_p2p_crawler.Settings.Build.{
  max_concurrency, CommonArgs, enabled_networks_of, check_args, Cli, settings_of, built,
  with_checkpoint, common_into_settings, threshold_of, with_threshold, into_settings,
}

abbrev pub workers : Concurrency → Transport → ℕ
workers c Transport.ip = c.ip
workers c Transport.tor = c.tor
workers c Transport.i2p = c.i2p

-- There is room and an attempt for every address, and a worker for every network that is on.
pub record IsSettings (s : Settings) : Type 0 where
  pub room : 0 < s.max_addresses
  pub attempts : 0 < s.node_settings.handshake_attempts
  pub at_most : (t : Transport) → workers s.concurrency t ≤ max_concurrency
  pub served :
      (n : NetworkType) → (is_enabled s n ≡ false) ⊎ (0 < workers s.concurrency (transport n))

check_parts :
    (a : CommonArgs) (m : ℕ) {u : Unit {0}}
    → check_args a m ≡ ok u
    → let on = enabled_networks_of a in
      (ltb 0 m ≡ true)
      × (ltb 0 a.handshake_attempts ≡ true)
      × (leb a.ip_concurrency max_concurrency ≡ true)
      × (leb a.tor_concurrency max_concurrency ≡ true)
      × (leb a.i2p_concurrency max_concurrency ≡ true)
      × ((not (on.ipv4 || on.ipv6 || on.cjdns) || ltb 0 a.ip_concurrency) ≡ true)
      × ((not on.tor || ltb 0 a.tor_concurrency) ≡ true)
      × ((not on.i2p || ltb 0 a.i2p_concurrency) ≡ true)
unfolding check_args
check_parts a m e = ground arith

either : (on : Bool) (n : ℕ) → (not on || ltb 0 n) ≡ true → (on ≡ false) ⊎ (0 < n)
either true n e = inr (ground arith)
either false n e = inl refl

ip_networks : (a b c : Bool) → (a || b || c) ≡ false → (a ≡ false) × (b ≡ false) × (c ≡ false)
ip_networks a b c e = ground arith

ok_injective : {s t : Settings} → ◌≡◌ {A = Result Text Settings} (ok s) (ok t) → s ≡ t
ok_injective e = cc

module _ (pkg_version started : Text) where
  settings_of-IsSettings :
      (a : CommonArgs) (threshold : ℤ) (max_nodes : Option ℕ) (m : ℕ) (dry_run probe_mode : Bool)
      (interval : ℤ) {u : Unit {0}}
      → check_args a m ≡ ok u
      → IsSettings
          (settings_of pkg_version started a threshold max_nodes m dry_run probe_mode interval)
  unfolding is_enabled transport
  settings_of-IsSettings a threshold max_nodes m dry_run probe_mode interval e =
      let (room, attempts, ip_le, tor_le, i2p_le, ip_on, tor_on, i2p_on) = check_parts a m e in
      let on = enabled_networks_of a in
      let ip_either = either (on.ipv4 || on.ipv6 || on.cjdns) a.ip_concurrency ip_on in
      let tor_either = either on.tor a.tor_concurrency tor_on in
      let i2p_either = either on.i2p a.i2p_concurrency i2p_on in
      record {
        room = ltb→lt 0 m room;
        attempts = ltb→lt 0 a.handshake_attempts attempts;
        at_most = limits ip_le tor_le i2p_le;
        served = serves ip_either tor_either i2p_either;
      }
    where
      on : EnabledNetworks
      on = enabled_networks_of a

      limits :
          leb a.ip_concurrency max_concurrency ≡ true
          → leb a.tor_concurrency max_concurrency ≡ true
          → leb a.i2p_concurrency max_concurrency ≡ true
          → (t : Transport)
          → workers
              (record { ip = a.ip_concurrency; tor = a.tor_concurrency; i2p = a.i2p_concurrency })
              t
            ≤ max_concurrency
      limits p q r Transport.ip = leb→le a.ip_concurrency max_concurrency p
      limits p q r Transport.tor = leb→le a.tor_concurrency max_concurrency q
      limits p q r Transport.i2p = leb→le a.i2p_concurrency max_concurrency r

      serves :
          ((on.ipv4 || on.ipv6 || on.cjdns) ≡ false) ⊎ (0 < a.ip_concurrency)
          → (on.tor ≡ false) ⊎ (0 < a.tor_concurrency)
          → (on.i2p ≡ false) ⊎ (0 < a.i2p_concurrency)
          → (n : NetworkType)
          → (is_enabled
                (settings_of pkg_version started a threshold max_nodes m dry_run probe_mode
                  interval)
                n
              ≡ false)
            ⊎ (0
                < workers
                    (record {
                      ip = a.ip_concurrency;
                      tor = a.tor_concurrency;
                      i2p = a.i2p_concurrency;
                    })
                    (transport n))
      serves p q r NetworkType.ipv4 = elim p [
        | inl h ↦ inl (ip_networks on.ipv4 on.ipv6 on.cjdns h).0
        | inr h ↦ inr h
      ]
      serves p q r NetworkType.ipv6 = elim p [
        | inl h ↦ inl (ip_networks on.ipv4 on.ipv6 on.cjdns h).1
        | inr h ↦ inr h
      ]
      serves p q r NetworkType.cjdns = elim p [
        | inl h ↦ inl (ip_networks on.ipv4 on.ipv6 on.cjdns h).2
        | inr h ↦ inr h
      ]
      serves p q r NetworkType.onion_v2 = q
      serves p q r NetworkType.onion_v3 = q
      serves p q r NetworkType.i2p = r
      serves p q r NetworkType.unknown = inl refl

  built-IsSettings :
      (a : CommonArgs) (threshold : ℤ) (max_nodes : Option ℕ) (m : ℕ) (dry_run probe_mode : Bool)
      (interval : Result Text ℤ) {s : Settings}
      → with_checkpoint pkg_version started a threshold max_nodes m dry_run probe_mode interval
        ≡ ok s
      → IsSettings s
  built-IsSettings a threshold max_nodes m dry_run probe_mode (err x) e = absurd (no_settings e)
    where
      no_settings : {s : Settings} → ◌≡◌ {A = Result Text Settings} (err x) (ok s) → ⊥
      no_settings p = cc
  built-IsSettings a threshold max_nodes m dry_run probe_mode (ok interval) {s} e =
      go (check_args a m) refl e
    where
      go :
          (r : Result Text (Unit {0}))
          → check_args a m ≡ r
          → built pkg_version started a threshold max_nodes m dry_run probe_mode interval r ≡ ok s
          → IsSettings s
      go (err x) p q = absurd (no_settings q)
        where
          no_settings : ◌≡◌ {A = Result Text Settings} (err x) (ok s) → ⊥
          no_settings y = cc
      go (ok u) p q =
          subst IsSettings (ok_injective q)
            (settings_of-IsSettings a threshold max_nodes m dry_run probe_mode interval p)

  -- Settings that `into_settings` builds leave room for at least one address and one attempt, start
  -- at most 4096 workers for a transport, and start at least one for each network that is on.
  pub into_settings-IsSettings :
      (cli : Cli) {s : Settings} → into_settings pkg_version started cli ≡ ok s → IsSettings s
  unfolding into_settings common_into_settings
  into_settings-IsSettings cli {s} e = go (threshold_of pkg_version started cli) e
    where
      go : (r : Result Text ℤ) → with_threshold pkg_version started cli r ≡ ok s → IsSettings s
      go (err x) q = absurd (no_settings q)
        where
          no_settings : ◌≡◌ {A = Result Text Settings} (err x) (ok s) → ⊥
          no_settings y = cc
      go (ok threshold) q =
          built-IsSettings cli.common threshold cli.max_nodes cli.max_addresses cli.dry_run false
            (parse_duration cli.common.checkpoint_interval) q
