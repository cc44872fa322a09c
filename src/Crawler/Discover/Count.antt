-- ===== src/Crawler/Discover/Count.antt =====
-- A message with addresses keeps the count of outstanding addresses.
use new_p2p_crawler.Crawler.{log_write, Crawler, set_entry}
use new_p2p_crawler.Crawler.Count.{log_write-store, IsCounted, update-IsCounted}
use new_p2p_crawler.Crawler.Discover.{
  after_log, key_of, record_all, record_message, message_entry, enabled_only, with_store,
  enqueue_if, discover, discover_all, handle_addr_message,
}
use new_p2p_crawler.Address.{NetworkType}
use new_p2p_crawler.Node.Stats.{
  advertised, IsBreakdown, NodeStats, record_advertised, add-IsBreakdown, advertised-record,
}
use new_p2p_crawler.Crawler.Enqueue.{enqueue_key-IsCounted}
use new_p2p_crawler.Prelude.{
  ℤ, ◌^◌, ◌≡◌, refl, List, [], ◌∷◌, ap, arith, length, ◌+◌, ◌%◌, sym, subst,
}
use new_p2p_crawler.Crates.{Crates}
use new_p2p_crawler.Io.{ok, err, IoResult}
use new_p2p_crawler.Node.{AddrKey}
use new_p2p_crawler.Store.{
  NodeStore, FrontierOutcome, enqueue, known, stale_new, still_stale, budget_rejected, update,
}
use new_p2p_crawler.Store.Active.{is_active}
use new_p2p_crawler.Store.Effect.{Effect, enqueued, frontier_upsert-Effect}
use new_p2p_crawler.Protocol.Addr.{AdvertisedAddr, ParsedAddrMessage}
use new_p2p_crawler.Channel.{Channel}
use new_p2p_crawler.Settings.{Settings}
use new_p2p_crawler.Crawler.{Crawler, set_entry, log_write}
use new_p2p_crawler.Crawler.Count.{IsCounted, update-IsCounted, log_write-store}
use new_p2p_crawler.Crawler.Discover.{
  message_entry, enqueue_if, discover, discover_all, handle_addr_message, key_of, with_store,
  record_all, record_message, enabled_only, after_log,
}

still :
    (s : NodeStore) (key : AddrKey) (store : NodeStore) (outcome : FrontierOutcome)
    → IsCounted s
    → Effect s key (store, outcome)
    → enqueued outcome ≡ 0
    → IsCounted store
still s key store outcome v e none_new = record {
  store = e.store;
  usize = omega (arith, v.usize, e.limit);
  counted = omega (arith, v.counted, e.outstanding, e.active_now);
}

module _ (ch : Channel) (crates : Crates) where
  -- After the upsert, the store is counted, or short of the entry that is now queued.
  enqueue_if-IsCounted :
      (s : NodeStore) (key : AddrKey) (c : Crawler ch) (store : NodeStore)
      (outcome : FrontierOutcome)
      → IsCounted s
      → Effect s key (store, outcome)
      → IsCounted (enqueue_if ch crates key (with_store ch c store) outcome).store
  enqueue_if-IsCounted s key c store enqueue v e =
      let (w, h, p) = e.entry.queued_now in
      enqueue_key-IsCounted ch (with_store ch c store) key
        (record {
          store = e.store;
          usize = omega (arith, v.usize, e.limit);
          entry = (w, h, ap is_active p);
          counted = omega (arith, v.counted, e.outstanding, e.active_now);
        })
        crates
  enqueue_if-IsCounted s key c store known v e = still s key store known v e refl
  enqueue_if-IsCounted s key c store stale_new v e = still s key store stale_new v e refl
  enqueue_if-IsCounted s key c store still_stale v e = still s key store still_stale v e refl
  enqueue_if-IsCounted s key c store budget_rejected v e =
      still s key store budget_rejected v e refl

  module _ (settings : Settings) (now : ℤ) where
    pub discover-IsCounted :
        (c : Crawler ch) (a : AdvertisedAddr)
        → IsCounted c.store
        → IsCounted (discover ch crates settings now c a).store
    unfolding discover
    discover-IsCounted c a v = enqueue_if-IsCounted c.store (key_of a) c _ _ v (
        frontier_upsert-Effect c.store (key_of a) a.timestamp a.network settings.freshness_threshold
          now v.store)

    discover_all-IsCounted :
        (c : Crawler ch) (addrs : List AdvertisedAddr)
        → IsCounted c.store
        → IsCounted (discover_all ch crates settings now c addrs).store
    unfolding discover_all
    discover_all-IsCounted c [] v = v
    discover_all-IsCounted c (a ∷ rest) v =
        discover_all-IsCounted (discover ch crates settings now c a) rest (discover-IsCounted c a v)

    after_log-IsCounted :
        (shuffle : List AdvertisedAddr → List AdvertisedAddr) (parsed : ParsedAddrMessage)
        (r : Crawler ch × IoResult (Unit {0}))
        → IsCounted r.0.store
        → IsCounted (after_log ch crates settings shuffle now parsed r).0.store
    after_log-IsCounted shuffle parsed (c, err e) v = v
    after_log-IsCounted shuffle parsed (c, ok done) v =
        discover_all-IsCounted c (shuffle (enabled_only settings parsed.addrs)) v

    -- If `outstanding` is the number of active entries of a store in its invariant, that is so after
    -- any message with addresses, whether its log write succeeded or not, and for any shuffle.
    pub handle_addr_message-IsCounted :
        (shuffle : List AdvertisedAddr → List AdvertisedAddr) (c : Crawler ch) (responder : AddrKey)
        (parsed : ParsedAddrMessage)
        → IsCounted c.store
        → IsCounted (handle_addr_message ch crates settings shuffle now c responder parsed).0.store
    unfolding handle_addr_message update
    handle_addr_message-IsCounted shuffle c responder parsed v =
        after_log-IsCounted shuffle parsed
          (log_write ch (set_entry ch c responder (message_entry parsed)))
          (subst IsCounted
            (sym (log_write-store ch (set_entry ch c responder (message_entry parsed))))
            (update-IsCounted c.store responder (message_entry parsed) (λ e. refl) v))

one_more :
    (s : NodeStats) (n : NetworkType)
    → (record_advertised s n).advertised_total ≡ (s.advertised_total + 1) % 2 ^ 64
unfolding record_advertised
one_more s NetworkType.ipv4 = refl
one_more s _ = refl

record_all-total :
    (s : NodeStats) (addrs : List AdvertisedAddr)
    → (record_all s addrs).advertised_total % 2 ^ 64 ≡ (s.advertised_total + length addrs) % 2 ^ 64
unfolding record_all
record_all-total s [] = omega arith
record_all-total s (a ∷ rest) =
    omega (arith, record_all-total (record_advertised s a.network) rest, one_more s a.network)

record_all-IsBreakdown :
    (s : NodeStats) (addrs : List AdvertisedAddr)
    → IsBreakdown (advertised s)
    → IsBreakdown (advertised (record_all s addrs))
unfolding record_all
record_all-IsBreakdown s [] v = v
record_all-IsBreakdown s (a ∷ rest) v =
    record_all-IsBreakdown (record_advertised s a.network) rest (
      subst IsBreakdown (sym (advertised-record s a.network))
        (add-IsBreakdown (advertised s) a.network v))

-- If the responder's breakdown by network sums up to its total, it does so after a message, which
-- raises the total by its addresses and skipped entries, all as u64 values.
pub record_message-IsBreakdown :
    (s : NodeStats) (parsed : ParsedAddrMessage)
    → IsBreakdown (advertised s)
    → IsBreakdown (advertised (record_message parsed s))
      × ((record_message parsed s).advertised_total
          ≡ (s.advertised_total + (length parsed.addrs + parsed.unknown_entries)) % 2 ^ 64)
record_message-IsBreakdown s parsed v = (
  omega (arith, record_all-IsBreakdown s parsed.addrs v),
  omega (arith, record_all-total s parsed.addrs),
)
