-- ===== src/Crawler/Enqueue.antt =====
-- `enqueue`, `requeue` and `retry_or_finish` keep the count of outstanding addresses.
use new_p2p_crawler.Prelude.{
  ◌+◌, ◌-◌, ◌^◌, ◌<◌, ◌≡◌, refl, true, false, Option, none, some, arith, Option-cases, inl, inr,
  Bool,
}
use new_p2p_crawler.Crates.{Crates}
use new_p2p_crawler.Address.{Transport, transport}
use new_p2p_crawler.Node.{AddrKey, NodeState, FailKind, budget_discarded}
use new_p2p_crawler.Node.Stats.{add64}
use new_p2p_crawler.Store.{
  NodeEntry, NodeStore, find_entry, incr_outstanding, decr_outstanding, update,
}
use new_p2p_crawler.Store.Active.{is_active, find-adjust_entry_self}
use new_p2p_crawler.Store.Invariant.{update-IsStore}
use new_p2p_crawler.Channel.{Channel}
use new_p2p_crawler.Crawler.{
  Crawler, budget_discarded_entry, enqueue_key, requeue, queue_of, set_queue, known_network,
  set_entry, queued_entry, retry_or_finish,
}
use new_p2p_crawler.Crawler.Count.{
  IsCounted, IsUncounted, active_count-lt, IsStore-outstanding, changed, update_one-IsCounted,
}
use new_p2p_crawler.Crawler.Finish.{IsTerminal, finish-IsCounted}

module _ (ch : Channel) (c : Crawler ch) (key : AddrKey) where
  abbrev counted_store : NodeStore
  counted_store = record c.store { outstanding = add64 c.store.outstanding 1 }

  abbrev discarded_store : NodeStore
  discarded_store = record (update c.store key (budget_discarded_entry ch)) {
    outstanding = add64 (add64 c.store.outstanding 1) (2 ^ 64 - 1);
  }

  module _ (v : IsUncounted c.store key) where
    room : c.store.outstanding + 1 < 2 ^ 64
    room = omega (arith, v.counted, active_count-lt c.store v.store v.usize)

    counted_store-IsCounted : IsCounted counted_store
    counted_store-IsCounted = record {
      store = IsStore-outstanding _ _ v.store;
      usize = v.usize;
      counted = omega (arith, v.counted, room);
    }

    discarded_store-IsCounted : IsCounted discarded_store
    unfolding update
    discarded_store-IsCounted =
        let (e, h, p) = v.entry in
        record {
          store =
              IsStore-outstanding _ _
                (update-IsStore c.store key (budget_discarded_entry ch) v.store);
          usize = v.usize;
          counted = omega (
            arith,
            v.counted,
            room,
            changed c.store key (budget_discarded_entry ch) e true false h p refl,
          );
        }

    pub enqueue_key-IsCounted : (crates : Crates) → IsCounted (enqueue_key ch crates c key).store
    unfolding enqueue_key incr_outstanding decr_outstanding update
    enqueue_key-IsCounted crates =
        elim (Option-cases
          (ch.try_send key (queue_of ch c.queues (transport (known_network crates c.store key))))) [
            | inr (q, h) ↦ rw (h, enqueue_key) counted_store-IsCounted
            | inl h ↦ rw (h, enqueue_key) discarded_store-IsCounted
          ]

    -- What `enqueue` comes to, by what the queue of the key's transport answers.
    abbrev pub Enqueued : Crates → Option ch.Queue → Crawler ch → Type 0
    Enqueued crates (some q) c' =
        (find_entry key c'.store.map ≡ some v.entry.0)
        × (c'.queues ≡ set_queue ch c.queues (transport (known_network crates c.store key)) q)
        × (c'.store.outstanding ≡ c.store.outstanding + 1)
    Enqueued crates none c' =
        (find_entry key c'.store.map ≡ some (record v.entry.0 { state = budget_discarded }))
        × (c'.queues ≡ c.queues)
        × (c'.store.outstanding ≡ c.store.outstanding)

    -- If all active entries but the key's are counted in `outstanding`, then after `enqueue` all
    -- are. Where the queue of the key's transport takes the key, the entry is unchanged, the queue
    -- is the new one and one more is counted; where it takes no more, the entry is discarded for the
    -- budget and the queues and the count are as before.
    pub enqueue_key-Enqueued :
        (crates : Crates)
        → IsCounted (enqueue_key ch crates c key).store
          × Enqueued crates
              (ch.try_send key
                (queue_of ch c.queues (transport (known_network crates c.store key))))
              (enqueue_key ch crates c key)
    unfolding enqueue_key incr_outstanding decr_outstanding update
    enqueue_key-Enqueued crates =
        elim (Option-cases
          (ch.try_send key (queue_of ch c.queues (transport (known_network crates c.store key))))) [
            | inr (q, h) ↦
                rw (h, enqueue_key)
                  (counted_store-IsCounted, (v.entry.1, refl, omega (arith, room)))
            | inl h ↦
                rw (h, enqueue_key)
                  (
                    discarded_store-IsCounted,
                    (
                      find-adjust_entry_self key (budget_discarded_entry ch) v.entry.0 c.store.map
                          v.entry.1,
                      refl,
                      omega (arith, room),
                    ),
                  )
          ]

module _ (ch : Channel) (c : Crawler ch) (key : AddrKey) (t : Transport) (terminal : NodeState)
    (reason : Option FailKind) where
  -- Sending an address back to its queue leaves the count as it was; where the queue takes no more, the
  -- address gets its terminal state instead, and the queues close if it was the last.
  pub requeue-IsCounted :
      (e : NodeEntry)
      → find_entry key c.store.map ≡ some e
      → is_active e.state ≡ true
      → IsTerminal terminal
      → IsCounted c.store
      → IsCounted (requeue ch c key t terminal reason).store
  unfolding requeue
  requeue-IsCounted e h p out v = elim (Option-cases (ch.try_send key (queue_of ch c.queues t))) [
    | inr (q, sent) ↦ rw (sent, requeue) lateral-IsCounted
    | inl refused ↦
        rw (refused, requeue)
          (finish-IsCounted ch (set_entry ch c key (queued_entry ch)) key terminal reason out
            lateral-IsCounted).0
  ]
    where
      lateral-IsCounted : IsCounted (update c.store key (queued_entry ch))
      lateral-IsCounted = update_one-IsCounted c.store key (queued_entry ch) e h p refl v

  -- If `outstanding` is the number of active entries of a store in its invariant, that is so after
  -- an active address was retried or given a terminal state, also where its queue took no more.
  pub retry_or_finish-IsCounted :
      (should_retry : Bool) (e : NodeEntry)
      → find_entry key c.store.map ≡ some e
      → is_active e.state ≡ true
      → IsTerminal terminal
      → IsCounted c.store
      → IsCounted (retry_or_finish ch c key t should_retry terminal reason).store
  unfolding retry_or_finish
  retry_or_finish-IsCounted true e h p out v = requeue-IsCounted e h p out v
  retry_or_finish-IsCounted false e h p out v = (finish-IsCounted ch c key terminal reason out v).0
