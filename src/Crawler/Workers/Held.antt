-- ===== src/Crawler/Workers/Held.antt =====
-- How often an address is held, in the queues and in hands, and whether the store has it as active.
use new_p2p_crawler.Prelude.{
  ℕ, ◌+◌, ◌≡◌, refl, ap, ◌≢◌, Option, none, some, List, [], ◌∷◌, ◌++◌, arith,
}
use new_p2p_crawler.Address.{Transport}
use new_p2p_crawler.Node.{AddrKey, AddrKey-discrete}
use new_p2p_crawler.Store.{NodeEntry, NodeMap, find_entry}
use new_p2p_crawler.Store.Active.{active}
use new_p2p_crawler.Channel.{taken, Channel, IsChannel}
use new_p2p_crawler.Crawler.{Queues, queue_of, set_queue, close_all}

abbrev pub one_if : {k j : AddrKey} → Dec (k ≡ j) → ℕ
one_if (yes p) = 1
one_if (no p) = 0

abbrev pub occurs : AddrKey → List AddrKey → ℕ
occurs k [] = 0
occurs k (j ∷ rest) = one_if (AddrKey-discrete j k) + occurs k rest

pub occurs-append :
    (k : AddrKey) (xs ys : List AddrKey) → occurs k (xs ++ ys) ≡ occurs k xs + occurs k ys
occurs-append k [] ys = omega arith
occurs-append k (x ∷ xs) ys = omega (arith, occurs-append k xs ys)

pub one_if_self : (k : AddrKey) → one_if (AddrKey-discrete k k) ≡ 1
one_if_self k = ground arith

pub one_if_ne : (k j : AddrKey) → k ≢ j → one_if (AddrKey-discrete k j) ≡ 0
one_if_ne k j n = ground arith

-- 1 for an active entry, else 0.
abbrev pub activity_of : Option NodeEntry → ℕ
activity_of none = 0
activity_of (some e) = active e

abbrev pub activity : AddrKey → NodeMap → ℕ
activity k m = activity_of (find_entry k m)

module _ (ch : Channel) where
  abbrev pub in_queues : AddrKey → Queues ch → ℕ
  in_queues k q =
      occurs k (ch.contents q.ip) + (occurs k (ch.contents q.tor) + occurs k (ch.contents q.i2p))

  module _ (law : IsChannel ch) where
    -- A queue whose contents changed, for each transport.
    pub set_queue-in_queues :
        (k : AddrKey) (q : Queues ch) (t : Transport) (x : ch.Queue)
        → in_queues k (set_queue ch q t x) + occurs k (ch.contents (queue_of ch q t))
          ≡ in_queues k q + occurs k (ch.contents x)
    set_queue-in_queues k q Transport.ip x = omega arith
    set_queue-in_queues k q Transport.tor x = omega arith
    set_queue-in_queues k q Transport.i2p x = omega arith

    pub close_all-in_queues :
        (k : AddrKey) (q : Queues ch) → in_queues k (close_all ch q) ≡ in_queues k q
    unfolding close_all
    close_all-in_queues k q =
        rw ((law.close-contents q.ip).0, (law.close-contents q.tor).0, (law.close-contents q.i2p).0)
          refl

    pub sent-in_queues :
        (k key : AddrKey) (q : Queues ch) (t : Transport) (x : ch.Queue)
        → ch.try_send key (queue_of ch q t) ≡ some x
        → in_queues k (set_queue ch q t x) ≡ in_queues k q + one_if (AddrKey-discrete key k)
    sent-in_queues k key q t x e = omega (
      arith,
      set_queue-in_queues k q t x,
      ap (occurs k) (law.try_send-some key (queue_of ch q t) x e).2,
      occurs-append k (ch.contents (queue_of ch q t)) (key ∷ []),
    )

    pub taken-in_queues :
        (k key : AddrKey) (q : Queues ch) (t : Transport) (x : ch.Queue)
        → ch.recv (queue_of ch q t) ≡ taken key x
        → in_queues k (set_queue ch q t x) + one_if (AddrKey-discrete key k) ≡ in_queues k q
    taken-in_queues k key q t x e = omega (
      arith,
      set_queue-in_queues k q t x,
      ap (occurs k) (law.recv-taken key (queue_of ch q t) x e).0,
    )
