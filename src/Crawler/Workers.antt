-- ===== src/Crawler/Workers.antt =====
-- src/crawler.rs: `worker_loop` and the signals, as a step relation. The workers are the addresses that they
-- have in hand. A step is one operation on the shared state, and the operations of all workers come in any
-- order: a message is a step for the responder's entry, one for the log and one for each address.
pub mod Held
pub mod Activity
pub mod Once
pub mod Hear
pub mod Message
pub mod Safety
use new_p2p_crawler.Prelude.{
  if◌then◌else◌, ℤ, ◌≡◌, Bool, true, false, Option, none, some, List, ◌∷◌, ◌++◌,
}
use new_p2p_crawler.Crates.{Crates}
use new_p2p_crawler.Address.{Transport}
use new_p2p_crawler.Node.{
  AddrKey, NodeState, processing, handshake_failed, budget_discarded, FailKind, worker_failed,
}
use new_p2p_crawler.Store.{NodeEntry, update}
use new_p2p_crawler.Store.Active.{is_active}
use new_p2p_crawler.Protocol.Addr.{AdvertisedAddr}
use new_p2p_crawler.Channel.{Received, taken, drained, waiting, Channel}
use new_p2p_crawler.Settings.{Settings}
use new_p2p_crawler.Crawler.{
  queue_of, set_queue, close_all, Crawler, set_entry, closed_queues, finish, retry_or_finish,
  reserve_node_slot, log_write,
}
use new_p2p_crawler.Crawler.Discover.{discover}

-- What a worker that asks for work is told: an address to process, to ask again, or to stop.
pub data Work : Type 0 where
  hand : AddrKey → Work
  again stop : Work

module _ (ch : Channel) where
  abbrev pub processing_entry : NodeEntry → NodeEntry
  processing_entry e = record e { state = processing }

  -- Past the limit of nodes the address is discarded and all queues close.
  abbrev pub on_slot : AddrKey → Crawler ch × Bool → Crawler ch × Work
  on_slot key (c, true) = (set_entry ch c key processing_entry, hand key)
  on_slot key (c, false) = (closed_queues ch (finish ch c key budget_discarded none), again)

  abbrev pub on_recv : Settings → Transport → Crawler ch → Received ch.Queue → Crawler ch × Work
  on_recv settings t c (taken key q) =
      on_slot key (reserve_node_slot ch settings (record c { queues = set_queue ch c.queues t q }))
  on_recv settings t c drained = (c, stop)
  on_recv settings t c waiting = (c, again)

  -- The head of the loop; `again` on an open and empty queue is to wait there. `shutdown` is the flag as the
  -- worker read it, which may have been before it waited.
  unfoldable pub next_work : Settings → Transport → Bool → Crawler ch → Crawler ch × Work
  unfolding reserve_node_slot finish update close_all
  next_work settings t shutdown c =
      if shutdown then (c, stop) else on_recv settings t c (ch.recv (queue_of ch c.queues t))

  -- A worker that panicked on an address ends the crawl.
  unfoldable pub panicked : Crawler ch → AddrKey → Crawler ch
  unfolding finish close_all
  panicked c key = closed_queues ch (
      finish ch (record c { worker_failed = true; shutdown = true }) key NodeState.handshake_failed
        (some worker_failed))

  -- Ctrl+C
  unfoldable pub interrupted : Crawler ch → Crawler ch
  unfolding close_all
  interrupted c = closed_queues ch (record c { shutdown = true })

-- The state that the workers share, and what each has in hand.
pub record System (ch : Channel) : Type 0 where
  pub crawler : Crawler ch
  pub hands : List AddrKey

module _ (crates : Crates) (settings : Settings) (ch : Channel) where
  -- One step: of a worker that asks for work, of a worker with an address in hand, or of the signals.
  pub data Step : System ch → System ch → Type 0 where
    takes :
        (c c' : Crawler ch) (hands : List AddrKey) (t : Transport) (shutdown : Bool) (key : AddrKey)
        → next_work ch settings t shutdown c ≡ (c', hand key)
        → Step
            (record { crawler = c; hands = hands })
            (record { crawler = c'; hands = key ∷ hands })
    passes :
        (c c' : Crawler ch) (hands : List AddrKey) (t : Transport) (shutdown : Bool)
        → next_work ch settings t shutdown c ≡ (c', again)
        → Step (record { crawler = c; hands = hands }) (record { crawler = c'; hands = hands })
    notes :
        (c : Crawler ch) (before after : List AddrKey) (key : AddrKey) (f : NodeEntry → NodeEntry)
        → ((e : NodeEntry) → (f e).state ≡ e.state)
        → Step
            (record { crawler = c; hands = before ++ key ∷ after })
            (record { crawler = set_entry ch c key f; hands = before ++ key ∷ after })
    logs :
        (c : Crawler ch) (before after : List AddrKey) (key : AddrKey)
        → Step
            (record { crawler = c; hands = before ++ key ∷ after })
            (record { crawler = (log_write ch c).0; hands = before ++ key ∷ after })
    marks :
        (c : Crawler ch) (before after : List AddrKey) (key : AddrKey)
        → Step
            (record { crawler = c; hands = before ++ key ∷ after })
            (record { crawler = record c { output_failed = true }; hands = before ++ key ∷ after })
    discovers :
        (c : Crawler ch) (before after : List AddrKey) (key : AddrKey) (now : ℤ)
        (a : AdvertisedAddr)
        → Step
            (record { crawler = c; hands = before ++ key ∷ after })
            (record {
              crawler = discover ch crates settings now c a;
              hands = before ++ key ∷ after;
            })
    gives_up :
        (c : Crawler ch) (before after : List AddrKey) (key : AddrKey) (t : Transport)
        (should_retry : Bool) (terminal : NodeState) (reason : Option FailKind)
        → is_active terminal ≡ false
        → Step
            (record { crawler = c; hands = before ++ key ∷ after })
            (record {
              crawler = retry_or_finish ch c key t should_retry terminal reason;
              hands = before ++ after;
            })
    panics :
        (c : Crawler ch) (before after : List AddrKey) (key : AddrKey)
        → Step
            (record { crawler = c; hands = before ++ key ∷ after })
            (record { crawler = panicked ch c key; hands = before ++ after })
    interrupts :
        (c : Crawler ch) (hands : List AddrKey)
        → Step
            (record { crawler = c; hands = hands })
            (record { crawler = interrupted ch c; hands = hands })

  pub data Reachable (start : System ch) : System ch → Type 0 where
    here : Reachable start start
    after_step : {s s' : System ch} → Reachable start s → Step s s' → Reachable start s'
