-- ===== src/Crawler/Workers/Once.antt =====
-- Each address is held at most once, and only while it is active: what `next_work`, `retry_or_finish` and the
-- ends of the crawl do to it.
use new_p2p_crawler.Crawler.{
  requeue, retry_or_finish, queued_entry, closed_queues, reserve_limit, reserve_node_slot,
  set_queue, queue_of, Crawler, set_entry, finish,
}
use new_p2p_crawler.Crawler.Count.{update_one-IsCounted, IsCounted, update-IsCounted}
use new_p2p_crawler.Crawler.Workers.{
  Work, hand, again, stop, on_slot, on_recv, next_work, interrupted, panicked, processing_entry,
}
use new_p2p_crawler.Channel.{Received, taken, drained, waiting, Channel, IsChannel}
use new_p2p_crawler.Settings.{Settings}
use new_p2p_crawler.Node.{
  worker_failed, budget_discarded, AddrKey, AddrKey-discrete, NodeState, FailKind,
}
use new_p2p_crawler.Crawler.Workers.Held.{
  close_all-in_queues, sent-in_queues, taken-in_queues, one_if, occurs, occurs-append, one_if_self,
  one_if_ne, activity, in_queues,
}
use new_p2p_crawler.Address.{Transport}
use new_p2p_crawler.Store.{NodeStore, NodeEntry, find_entry, update}
use new_p2p_crawler.Prelude.{
  ℕ, ◌+◌, ◌≤◌, ◌≡◌, subst, true, Option, some, List, ◌∷◌, ◌++◌, arith, ltb, if◌then◌else◌,
  Bool-cases, Option-cases, refl, sym, ap, inl, inr, Bool, false, none, [],
}
use new_p2p_crawler.Address.{Transport}
use new_p2p_crawler.Node.{
  AddrKey, AddrKey-discrete, NodeState, FailKind, budget_discarded, worker_failed,
}
use new_p2p_crawler.Store.{NodeEntry, find_entry, update, NodeStore}
use new_p2p_crawler.Store.Active.{is_active, active}
use new_p2p_crawler.Channel.{Channel, IsChannel, Received, taken, drained, waiting}
use new_p2p_crawler.Crawler.{
  Crawler, set_entry, finish, queue_of, set_queue, closed_queues, queued_entry, requeue,
  retry_or_finish, reserve_limit, reserve_node_slot,
}
use new_p2p_crawler.Crawler.Count.{IsCounted, update-IsCounted, update_one-IsCounted}
use new_p2p_crawler.Crawler.Finish.{IsTerminal, finish-IsCounted}
use new_p2p_crawler.Crawler.Workers.Held.{
  one_if, occurs, occurs-append, one_if_self, one_if_ne, activity, in_queues, close_all-in_queues,
  sent-in_queues, taken-in_queues,
}
use new_p2p_crawler.Crawler.Workers.Activity.{
  activity-positive, activity-le, update-activity_le, finish-activity_ne, finish-in_queues,
}

module _ (ch : Channel) where
  abbrev pub held : AddrKey → Crawler ch → List AddrKey → ℕ
  held k c hands = in_queues ch k c.queues + occurs k hands

  -- `outstanding` is right, and an address in a queue or in hand is an active one, in one place only.
  pub record IsSound (c : Crawler ch) (hands : List AddrKey) : Type 0 where
    pub counted : IsCounted c.store
    pub once : (k : AddrKey) → held k c hands ≤ activity k c.store.map

hands_split :
    (k key : AddrKey) (before after : List AddrKey)
    → occurs k (before ++ key ∷ after)
      ≡ occurs k (before ++ after) + one_if (AddrKey-discrete key k)
hands_split k key before after =
    omega (arith, occurs-append k before (key ∷ after), occurs-append k before after)

module _ (ch : Channel) (law : IsChannel ch) (c : Crawler ch) (before after : List AddrKey)
    (key : AddrKey) (v : IsSound ch c (before ++ key ∷ after)) where
  -- The address in hand is an active entry.
  in_hand : (e : NodeEntry) × (find_entry key c.store.map ≡ some e) × (is_active e.state ≡ true)
  in_hand =
      activity-positive key c.store.map
        (omega (arith, v.once key, hands_split key key before after, one_if_self key))

  finish-IsSound :
      (terminal : NodeState) (reason : Option FailKind)
      → IsTerminal terminal
      → IsSound ch (finish ch c key terminal reason) (before ++ after)
  finish-IsSound terminal reason out = record {
    counted = (finish-IsCounted ch c key terminal reason out v.counted).0;
    once = λ k. elim (AddrKey-discrete key k) [
      | yes p ↦
          subst
            (λ j.
              held ch j (finish ch c key terminal reason) (before ++ after)
              ≤ activity j (finish ch c key terminal reason).store.map)
            p
            (omega (
              arith,
              v.once key,
              activity-le key c.store.map,
              finish-in_queues ch law c key key terminal reason,
              hands_split key key before after,
              one_if_self key,
            ))
      | no n ↦ omega (
        arith,
        v.once k,
        finish-in_queues ch law c key k terminal reason,
        finish-activity_ne ch law c key k terminal reason n,
        hands_split k key before after,
        one_if_ne key k n,
      )
    ];
  }

  pub update-IsSound :
      (f : NodeEntry → NodeEntry)
      → ((e : NodeEntry) → is_active (f e).state ≡ is_active e.state)
      → IsSound ch (set_entry ch c key f) (before ++ key ∷ after)
  unfolding update
  update-IsSound f same = record {
    counted = update-IsCounted c.store key f same v.counted;
    once = λ k. omega (arith, v.once k, update-activity_le c.store key k f (λ e. as_active e));
  }
    where
      as_active : (e : NodeEntry) → active e ≤ active (f e)
      as_active e = ground (arith, same e)

  -- The address in hand is given an active state.
  activate-IsSound :
      (f : NodeEntry → NodeEntry)
      → ((e : NodeEntry) → is_active (f e).state ≡ true)
      → IsSound ch (set_entry ch c key f) (before ++ key ∷ after)
  unfolding update
  activate-IsSound f on =
      let (e, h, p) = in_hand in
      record {
        counted = update_one-IsCounted c.store key f e h p (on e) v.counted;
        once = λ k. omega (arith, v.once k, update-activity_le c.store key k f (λ w. as_active w));
      }
    where
      as_active : (w : NodeEntry) → active w ≤ active (f w)
      as_active w = ground (arith, on w)

module _ (ch : Channel) (law : IsChannel ch) where
  requeue-IsSound :
      (c : Crawler ch) (before after : List AddrKey) (key : AddrKey) (t : Transport)
      (terminal : NodeState) (reason : Option FailKind)
      → IsTerminal terminal
      → IsSound ch c (before ++ key ∷ after)
      → IsSound ch (requeue ch c key t terminal reason) (before ++ after)
  unfolding requeue
  requeue-IsSound c before after key t terminal reason out v =
      elim (Option-cases (ch.try_send key (queue_of ch c.queues t))) [
        | inl refused ↦
            rw (refused, requeue)
              (finish-IsSound ch law lateral before after key sound terminal reason out)
        | inr (q, sent) ↦
            rw (sent, requeue)
              (record {
                counted = sound.counted;
                once = λ k. omega (
                  arith,
                  sound.once k,
                  sent-in_queues ch law k key c.queues t q sent,
                  hands_split k key before after,
                );
              })
      ]
    where
      lateral : Crawler ch
      lateral = set_entry ch c key (queued_entry ch)

      sound : IsSound ch lateral (before ++ key ∷ after)
      sound = activate-IsSound ch law c before after key v (queued_entry ch) (λ e. refl)

  pub retry_or_finish-IsSound :
      (c : Crawler ch) (before after : List AddrKey) (key : AddrKey) (t : Transport)
      (should_retry : Bool) (terminal : NodeState) (reason : Option FailKind)
      → IsTerminal terminal
      → IsSound ch c (before ++ key ∷ after)
      → IsSound ch (retry_or_finish ch c key t should_retry terminal reason) (before ++ after)
  unfolding retry_or_finish
  retry_or_finish-IsSound c before after key t true terminal reason out v =
      requeue-IsSound c before after key t terminal reason out v
  retry_or_finish-IsSound c before after key t false terminal reason out v =
      finish-IsSound ch law c before after key v terminal reason out

  -- Closing the queues loses nothing that is in them.
  closed-IsSound :
      (c : Crawler ch) (hands : List AddrKey)
      → IsSound ch c hands
      → IsSound ch (closed_queues ch c) hands
  closed-IsSound c hands v = record {
    counted = v.counted;
    once = λ k. omega (arith, v.once k, close_all-in_queues ch law k c.queues);
  }

  pub flagged :
      (c c' : Crawler ch) (hands : List AddrKey)
      → c'.store ≡ c.store
      → c'.queues ≡ c.queues
      → IsSound ch c hands
      → IsSound ch c' hands
  flagged c c' hands s q v = record {
    counted = subst IsCounted (sym s) v.counted;
    once = λ k.
        omega (
          arith,
          v.once k,
          ap (λ x. in_queues ch k x) q,
          ap (λ (x : NodeStore). activity k x.map) s,
        );
  }

  pub interrupted-IsSound :
      (c : Crawler ch) (hands : List AddrKey)
      → IsSound ch c hands
      → IsSound ch (interrupted ch c) hands
  unfolding interrupted
  interrupted-IsSound c hands v =
      closed-IsSound (record c { shutdown = true }) hands
        (flagged c (record c { shutdown = true }) hands refl refl v)

  pub panicked-IsSound :
      (c : Crawler ch) (before after : List AddrKey) (key : AddrKey)
      → IsSound ch c (before ++ key ∷ after)
      → IsSound ch (panicked ch c key) (before ++ after)
  unfolding panicked
  panicked-IsSound c before after key v = closed-IsSound _ (before ++ after) (
      finish-IsSound ch law marked before after key
        (flagged c marked (before ++ key ∷ after) refl refl v) NodeState.handshake_failed
        (some worker_failed) refl)
    where
      marked : Crawler ch
      marked = record c { worker_failed = true; shutdown = true }

  -- A received address goes from its queue into a hand.
  received-IsSound :
      (c : Crawler ch) (hands : List AddrKey) (t : Transport) (key : AddrKey) (q : ch.Queue)
      → ch.recv (queue_of ch c.queues t) ≡ taken key q
      → IsSound ch c hands
      → IsSound ch (record c { queues = set_queue ch c.queues t q }) (key ∷ hands)
  received-IsSound c hands t key q e v = record {
    counted = v.counted;
    once = λ k. omega (arith, v.once k, taken-in_queues ch law k key c.queues t q e);
  }

  -- What a worker has after it was told `w`.
  abbrev pub with_work : Work → List AddrKey → List AddrKey
  with_work (hand key) hands = key ∷ hands
  with_work again hands = hands
  with_work stop hands = hands

  abbrev Sound : List AddrKey → Crawler ch × Work → Type 0
  Sound hands r = IsSound ch r.0 (with_work r.1 hands)

  on_slot-IsSound :
      (hands : List AddrKey) (key : AddrKey) (r : Crawler ch × Bool)
      → IsSound ch r.0 (key ∷ hands)
      → Sound hands (on_slot ch key r)
  on_slot-IsSound hands key (c, true) v =
      activate-IsSound ch law c [] hands key v (processing_entry ch) (λ e. refl)
  on_slot-IsSound hands key (c, false) v =
      closed-IsSound _ hands (finish-IsSound ch law c [] hands key v budget_discarded none refl)

  reserve-IsSound :
      (settings : Settings) (c : Crawler ch) (hands : List AddrKey)
      → IsSound ch c hands
      → IsSound ch (reserve_node_slot ch settings c).0 hands
  unfolding reserve_node_slot
  reserve-IsSound settings c hands v = go settings.max_nodes
    where
      go : (limit : Option ℕ) → IsSound ch (reserve_limit ch limit c).0 hands
      go none = flagged c _ hands refl refl v
      go (some n) = elim (Bool-cases (ltb c.num_processed n)) [
        | inl room ↦ rw room (flagged c _ hands refl refl v)
        | inr full ↦ rw full (flagged c _ hands refl refl v)
      ]

  on_recv-IsSound :
      (settings : Settings) (t : Transport) (c : Crawler ch) (hands : List AddrKey)
      (r : Received ch.Queue)
      → ch.recv (queue_of ch c.queues t) ≡ r
      → IsSound ch c hands
      → Sound hands (on_recv ch settings t c r)
  on_recv-IsSound settings t c hands (taken key q) e v =
      on_slot-IsSound hands key
        (reserve_node_slot ch settings (record c { queues = set_queue ch c.queues t q }))
        (reserve-IsSound settings (record c { queues = set_queue ch c.queues t q }) (key ∷ hands)
          (received-IsSound c hands t key q e v))
  on_recv-IsSound settings t c hands drained e v = v
  on_recv-IsSound settings t c hands waiting e v = v

  pub next_work-IsSound :
      (settings : Settings) (t : Transport) (shutdown : Bool) (c : Crawler ch)
      (hands : List AddrKey)
      → IsSound ch c hands
      → IsSound ch
          (next_work ch settings t shutdown c).0
          (with_work (next_work ch settings t shutdown c).1 hands)
  unfolding next_work
  next_work-IsSound settings t shutdown c hands v = go shutdown
    where
      rest : Crawler ch × Work
      rest = on_recv ch settings t c (ch.recv (queue_of ch c.queues t))

      go : (b : Bool) → Sound hands (if b then (c, stop) else rest)
      go true = v
      go false = on_recv-IsSound settings t c hands (ch.recv (queue_of ch c.queues t)) refl v
