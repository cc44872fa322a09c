-- ===== src/Crawler/Workers/Hear.antt =====
-- What a message with addresses does to the addresses that are held.
use new_p2p_crawler.Settings.{Settings}
use new_p2p_crawler.Io.{IoError}
use new_p2p_crawler.Crawler.{
  log_next, log_write, queue_of, set_queue, known_network, Crawler, budget_discarded_entry,
  enqueue_key,
}
use new_p2p_crawler.Crawler.Discover.{discover, key_of, with_store, enqueue_if}
use new_p2p_crawler.Crawler.Discover.Count.{discover-IsCounted}
use new_p2p_crawler.Crawler.Workers.Once.{flagged, held, IsSound}
use new_p2p_crawler.Store.{
  frontier_upsert, NodeEntry, NodeStore, find_entry, incr_outstanding, decr_outstanding, update,
  FrontierOutcome, enqueue, known, stale_new, still_stale, budget_rejected,
}
use new_p2p_crawler.Store.Effect.{frontier_upsert-Effect, frontier_upsert_others, Kept, Effect}
use new_p2p_crawler.Address.{Transport, transport}
use new_p2p_crawler.Channel.{Channel, IsChannel}
use new_p2p_crawler.Crawler.{
  known_network, queue_of, set_queue, enqueue_key, budget_discarded_entry, Crawler, log_next,
  log_write,
}
use new_p2p_crawler.Crates.{Crates}
use new_p2p_crawler.Crawler.Discover.{enqueue_if, with_store, key_of, discover}
use new_p2p_crawler.Crawler.Workers.Held.{
  sent-in_queues, one_if_self, one_if_ne, occurs, in_queues, activity, activity_of,
}
use new_p2p_crawler.Crawler.Workers.Activity.{update-activity_ne}
use new_p2p_crawler.Crawler.Workers.Once.{held, IsSound, flagged}
use new_p2p_crawler.Store.Effect.{Effect, Kept, frontier_upsert-Effect, frontier_upsert_others}
use new_p2p_crawler.Store.{
  NodeStore, update, find_entry, known, stale_new, still_stale, budget_rejected, incr_outstanding,
  decr_outstanding, NodeEntry, FrontierOutcome, enqueue, frontier_upsert,
}
use new_p2p_crawler.Node.{AddrKey, AddrKey-discrete, queued, stale_discarded}
use new_p2p_crawler.Prelude.{
  ◌≤◌, ◌≡◌, refl, ap, ◌≢◌, ◌⊎◌, inl, inr, Option, none, some, arith, Option-cases, ◌+◌, subst, ◌∙◌,
  List, ℤ, [], ◌∷◌,
}
use new_p2p_crawler.Node.{queued, stale_discarded, AddrKey, AddrKey-discrete}
use new_p2p_crawler.Store.{
  NodeEntry, FrontierOutcome, enqueue, NodeStore, find_entry, incr_outstanding, decr_outstanding,
  update, known, stale_new, still_stale, budget_rejected, frontier_upsert,
}
use new_p2p_crawler.Store.Active.{is_active, active}
use new_p2p_crawler.Store.Effect.{Kept, Effect, frontier_upsert-Effect, frontier_upsert_others}
use new_p2p_crawler.Protocol.Addr.{AdvertisedAddr}
use new_p2p_crawler.Crawler.Workers.Held.{
  activity_of, occurs, one_if_self, one_if_ne, activity, in_queues, sent-in_queues,
}

-- An upsert that queues nothing leaves an active entry active, and one that queues found none.
Kept-activity :
    (before after : Option NodeEntry) (o : FrontierOutcome)
    → Kept before after o
    → activity_of before ≤ activity_of after
Kept-activity none after o k = omega arith
Kept-activity (some e) after o (e', p, later) = omega (arith, ap activity_of p, still later.1)
  where
    still :
        ((e'.state ≡ e.state) × (o ≢ enqueue))
          ⊎ ((e.state ≡ stale_discarded) × (e'.state ≡ queued) × (o ≡ enqueue))
        → active e ≤ active e'
    still (inl (same, n)) = ground (arith, ap is_active same)
    still (inr (stale, now, o_is)) = ground (arith, ap is_active stale)

new-activity :
    (before after : Option NodeEntry) → Kept before after enqueue → activity_of before ≡ 0
new-activity none after k = refl
new-activity (some e) after (e', p, later) = go later.1
  where
    go :
        ((e'.state ≡ e.state) × (enqueue ≢ enqueue))
          ⊎ ((e.state ≡ stale_discarded) × (e'.state ≡ queued) × (enqueue ≡ enqueue))
        → active e ≡ 0
    go (inl (same, n)) = absurd (n refl)
    go (inr (stale, now, o_is)) = ground (arith, ap is_active stale)

module _ (ch : Channel) (law : IsChannel ch) (crates : Crates) where
  module _ (c : Crawler ch) (hands : List AddrKey) (key : AddrKey)
      (none_held : held ch key c hands ≡ 0)
      (others : (k : AddrKey) → key ≢ k → held ch k c hands ≤ activity k c.store.map)
      (active_now : activity key c.store.map ≡ 1) where
    abbrev Once : Crawler ch → Type 0
    Once c' = (k : AddrKey) → held ch k c' hands ≤ activity k c'.store.map

    -- A newly queued address goes into its queue, or is discarded.
    enqueue_key-Once : Once (enqueue_key ch crates c key)
    unfolding enqueue_key incr_outstanding decr_outstanding update
    enqueue_key-Once k = elim (Option-cases (ch.try_send key (queue_of ch c.queues t))) [
      | inr (q, sent) ↦
          rw (sent, enqueue_key)
            (elim (AddrKey-discrete key k) [
              | yes p ↦
                  subst
                    (λ j.
                      in_queues ch j (set_queue ch c.queues t q) + occurs j hands
                      ≤ activity j c.store.map)
                    p
                    (omega (
                      arith,
                      none_held,
                      active_now,
                      sent-in_queues ch law key key c.queues t q sent,
                      one_if_self key,
                    ))
              | no n ↦ omega (
                arith,
                others k n,
                sent-in_queues ch law k key c.queues t q sent,
                one_if_ne key k n,
              )
            ])
      | inl refused ↦
          rw (refused, enqueue_key)
            (elim (AddrKey-discrete key k) [
              | yes p ↦
                  subst
                    (λ j.
                      in_queues ch j c.queues + occurs j hands
                      ≤ activity j (update c.store key (budget_discarded_entry ch)).map)
                    p (omega (arith, none_held))
              | no n ↦ omega (
                arith,
                others k n,
                update-activity_ne c.store key k (budget_discarded_entry ch) n,
              )
            ])
    ]
      where
        t : Transport
        t = transport (known_network crates c.store key)

  module _ (c : Crawler ch) (hands : List AddrKey) (v : IsSound ch c hands) (key : AddrKey)
      (store : NodeStore) where
    quiet :
        (outcome : FrontierOutcome)
        → Effect c.store key (store, outcome)
        → ((k : AddrKey) → key ≢ k → find_entry k store.map ≡ find_entry k c.store.map)
        → (k : AddrKey) → held ch k (with_store ch c store) hands ≤ activity k store.map
    quiet outcome e same k = elim (AddrKey-discrete key k) [
      | yes p ↦
          subst (λ j. held ch j (with_store ch c store) hands ≤ activity j store.map) p
            (omega (
              arith,
              v.once key,
              Kept-activity (find_entry key c.store.map) (find_entry key store.map) outcome
                  e.entry.kept,
            ))
      | no n ↦ omega (arith, v.once k, ap activity_of (same k n))
    ]

    enqueue_if-Once :
        (outcome : FrontierOutcome)
        → Effect c.store key (store, outcome)
        → ((k : AddrKey) → key ≢ k → find_entry k store.map ≡ find_entry k c.store.map)
        → (k : AddrKey)
        → held ch k (enqueue_if ch crates key (with_store ch c store) outcome) hands
          ≤ activity k (enqueue_if ch crates key (with_store ch c store) outcome).store.map
    enqueue_if-Once enqueue e same k =
        let (w, h, p) = e.entry.queued_now in
        enqueue_key-Once (with_store ch c store) hands key
          (omega (
            arith,
            v.once key,
            new-activity (find_entry key c.store.map) (find_entry key store.map) e.entry.kept,
          ))
          (λ j n. omega (arith, v.once j, ap activity_of (same j n)))
          (ap activity_of h ∙ now_active w p) k
      where
        now_active : (w : NodeEntry) → w.state ≡ queued → active w ≡ 1
        now_active w p = ground (arith, ap is_active p)
    enqueue_if-Once known e same k = quiet known e same k
    enqueue_if-Once stale_new e same k = quiet stale_new e same k
    enqueue_if-Once still_stale e same k = quiet still_stale e same k
    enqueue_if-Once budget_rejected e same k = quiet budget_rejected e same k

  module _ (settings : Settings) (now : ℤ) where
    pub discover-IsSound :
        (c : Crawler ch) (hands : List AddrKey) (a : AdvertisedAddr)
        → IsSound ch c hands
        → IsSound ch (discover ch crates settings now c a) hands
    unfolding discover
    discover-IsSound c hands a v = record {
      counted = discover-IsCounted ch crates settings now c a v.counted;
      once = λ k.
          enqueue_if-Once c hands v (key_of a)
            (frontier_upsert c.store (key_of a) a.timestamp a.network settings.freshness_threshold
              now).0
            (frontier_upsert c.store (key_of a) a.timestamp a.network settings.freshness_threshold
              now).1
            (frontier_upsert-Effect c.store (key_of a) a.timestamp a.network
              settings.freshness_threshold now v.counted.store)
            (λ j n.
              frontier_upsert_others c.store (key_of a) a.timestamp a.network
                settings.freshness_threshold now v.counted.store j n)
            k;
    }

  -- A write to the log leaves the addresses alone.
  pub log_write-IsSound :
      (c : Crawler ch) (hands : List AddrKey)
      → IsSound ch c hands
      → IsSound ch (log_write ch c).0 hands
  unfolding log_write
  log_write-IsSound c hands v = logged c.addr_log
    where
      logged : (writes : Option (List (Option IoError))) → IsSound ch (log_next ch c writes).0 hands
      logged none = v
      logged (some []) = v
      logged (some (none ∷ rest)) = flagged ch law c _ _ refl refl v
      logged (some (some e ∷ rest)) = flagged ch law c _ _ refl refl v
