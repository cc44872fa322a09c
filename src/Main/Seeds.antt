-- ===== src/Main/Seeds.antt =====
-- src/main.rs: `seed_from_dns`, which queues what the DNS seeds resolve to.
pub mod Count
use new_p2p_crawler.Dns.{seeds, mainnet_port, Resolver, resolve_seed, ip_to_host}
use new_p2p_crawler.Transport.Dial.{IpAddr}
use new_p2p_crawler.Output.Stats.{SeedResult}
use new_p2p_crawler.Channel.{Channel}
use new_p2p_crawler.Crawler.{Crawler, enqueue_key}
use new_p2p_crawler.Crawler.Discover.{with_store}
use new_p2p_crawler.Store.{NodeStore, observe_seed}
use new_p2p_crawler.Settings.{Settings, is_enabled}
use new_p2p_crawler.Address.{NetworkType, classify}
use new_p2p_crawler.Node.{AddrKey}
use new_p2p_crawler.Crates.{Crates}
use new_p2p_crawler.Prelude.{if◌then◌else◌, ℤ, Text, Bool, true, false, not, List, [], ◌∷◌, ◌++◌}

abbrev pub seed_key : Text → AddrKey
seed_key host = record { host = host; port = mainnet_port }

module _ (ch : Channel) (crates : Crates) (settings : Settings) (now : ℤ) where
  -- `enqueue_seed`, where the key is new.
  abbrev pub enqueue_new : Crawler ch → AddrKey → NodeStore × Bool → Crawler ch
  enqueue_new c key (store, true) = enqueue_key ch crates (with_store ch c store) key
  enqueue_new c key (store, false) = with_store ch c store

  -- One round of the inner loop.
  unfoldable pub seed_address :
      Crawler ch → List (AddrKey × NetworkType) → IpAddr → Crawler ch × List (AddrKey × NetworkType)
  unfolding ip_to_host observe_seed enqueue_key
  seed_address c addrs address =
      let host = ip_to_host address in
      if not (is_enabled settings (classify crates host)) then (c, addrs) else (
        enqueue_new c (seed_key host) (observe_seed crates c.store (seed_key host) now),
        addrs ++ ((seed_key host, classify crates host) ∷ []),
      )

  unfoldable pub seed_addresses :
      Crawler ch
      → List (AddrKey × NetworkType)
      → List IpAddr
      → Crawler ch × List (AddrKey × NetworkType)
  unfolding seed_address
  seed_addresses c addrs [] = (c, addrs)
  seed_addresses c addrs (address ∷ ips) =
      let (c', addrs') = seed_address c addrs address in seed_addresses c' addrs' ips

  unfoldable pub seed_all :
      Resolver → Crawler ch → List SeedResult → List Text → Crawler ch × List SeedResult
  unfolding seed_addresses resolve_seed
  seed_all lookup c results [] = (c, results)
  seed_all lookup c results (seed ∷ rest) =
      let (c', addrs) = seed_addresses c [] (resolve_seed lookup seed) in
      seed_all lookup c' (results ++ (record { seed = seed; addrs = addrs } ∷ [])) rest

  unfoldable pub seed_from_dns : Resolver → Crawler ch → Crawler ch × List SeedResult
  unfolding seed_all seeds
  seed_from_dns lookup c = seed_all lookup c [] seeds
