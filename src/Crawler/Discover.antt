-- ===== src/Crawler/Discover.antt =====
-- src/crawler.rs: `handle_addr_message`, which feeds the addresses of one message into the frontier.
-- The shuffle of the rand crate and the outcome of the write to the address log are parameters.
pub mod Count
use new_p2p_crawler.Crawler.{log_write, Crawler, set_entry, enqueue_key}
use new_p2p_crawler.Prelude.{if◌then◌else◌, ℤ, List, [], ◌∷◌}
use new_p2p_crawler.Crates.{Crates}
use new_p2p_crawler.Io.{ok, err, IoResult}
use new_p2p_crawler.Node.{AddrKey}
use new_p2p_crawler.Node.Stats.{add64, NodeStats, record_advertised}
use new_p2p_crawler.Store.{NodeEntry, NodeStore, update, FrontierOutcome, enqueue, frontier_upsert}
use new_p2p_crawler.Protocol.Addr.{AdvertisedAddr, ParsedAddrMessage}
use new_p2p_crawler.Channel.{Channel}
use new_p2p_crawler.Settings.{Settings, is_enabled}
use new_p2p_crawler.Crawler.{Crawler, set_entry, enqueue_key, log_write}

abbrev pub key_of : AdvertisedAddr → AddrKey
key_of a = record { host = a.host; port = a.port }

-- The counters of the responder: every address, and the skipped entries as unknown ones.
unfoldable pub record_all : NodeStats → List AdvertisedAddr → NodeStats
unfolding record_advertised
record_all s [] = s
record_all s (a ∷ rest) = record_all (record_advertised s a.network) rest

abbrev pub record_message : ParsedAddrMessage → NodeStats → NodeStats
record_message parsed s =
    let seen = record_all s parsed.addrs in
    record seen {
      advertised_total = add64 seen.advertised_total parsed.unknown_entries;
      advertised_unknown = add64 seen.advertised_unknown parsed.unknown_entries;
    }

abbrev pub message_entry : ParsedAddrMessage → NodeEntry → NodeEntry
message_entry parsed e = record e { stats = record_message parsed e.stats }

unfoldable pub enabled_only : Settings → List AdvertisedAddr → List AdvertisedAddr
unfolding is_enabled
enabled_only settings [] = []
enabled_only settings (a ∷ rest) =
    let kept = enabled_only settings rest in
    if is_enabled settings a.network then a ∷ kept else kept

module _ (ch : Channel) where
  abbrev pub with_store : Crawler ch → NodeStore → Crawler ch
  with_store c s = record c { store = s }

  abbrev pub enqueue_if : Crates → AddrKey → Crawler ch → FrontierOutcome → Crawler ch
  enqueue_if crates key c FrontierOutcome.enqueue = enqueue_key ch crates c key
  enqueue_if crates key c _ = c

  -- One address: into the frontier, and into its queue if it is to be visited.
  unfoldable pub discover : Crates → Settings → ℤ → Crawler ch → AdvertisedAddr → Crawler ch
  unfolding frontier_upsert enqueue_key
  discover crates settings now c a =
      let (store, outcome) =
        frontier_upsert c.store (key_of a) a.timestamp a.network settings.freshness_threshold now in
      enqueue_if crates (key_of a) (with_store c store) outcome

  unfoldable pub discover_all :
      Crates → Settings → ℤ → Crawler ch → List AdvertisedAddr → Crawler ch
  unfolding discover
  discover_all crates settings now c [] = c
  discover_all crates settings now c (a ∷ rest) =
      discover_all crates settings now (discover crates settings now c a) rest

  abbrev pub after_log :
      Crates
      → Settings
      → (List AdvertisedAddr → List AdvertisedAddr)
      → ℤ
      → ParsedAddrMessage
      → Crawler ch × IoResult (Unit {0})
      → Crawler ch × IoResult (Unit {0})
  after_log crates settings shuffle now parsed (c, err e) = (c, err e)
  after_log crates settings shuffle now parsed (c, ok done) =
      (discover_all crates settings now c (shuffle (enabled_only settings parsed.addrs)), ok tt)

  -- The block is logged before any address is looked up; a failed write ends the message.
  unfoldable pub handle_addr_message :
      Crates
      → Settings
      → (List AdvertisedAddr → List AdvertisedAddr)
      → ℤ
      → Crawler ch
      → AddrKey
      → ParsedAddrMessage
      → Crawler ch × IoResult (Unit {0})
  unfolding discover_all record_all enabled_only update log_write
  handle_addr_message crates settings shuffle now c responder parsed =
      after_log crates settings shuffle now parsed
        (log_write ch (set_entry ch c responder (message_entry parsed)))
