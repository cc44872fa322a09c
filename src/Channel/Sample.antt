-- ===== src/Channel/Sample.antt =====
-- A channel on a list, for the examples.
use new_p2p_crawler.Prelude.{
  leb, if◌then◌else◌, length, ℕ, ◌≡◌, refl, Bool, true, false, ◌||◌, Option, none, some, List, [],
  ◌∷◌, ◌++◌, arith,
}
use new_p2p_crawler.Node.{AddrKey}
use new_p2p_crawler.Channel.{Received, taken, drained, waiting, Channel, IsChannel}

pub record ListQueue : Type 0 where
  pub items : List AddrKey
  pub capacity : ℕ
  pub closed : Bool

abbrev send : AddrKey → ListQueue → Option ListQueue
send key q =
    if q.closed || leb q.capacity (length q.items)
    then none
    else some (record q { items = q.items ++ key ∷ [] })

abbrev take_first : ListQueue → List AddrKey → Received ListQueue
take_first q [] = if q.closed then drained else waiting
take_first q (key ∷ rest) = taken key (record q { items = rest })

abbrev pub list_channel : Channel
list_channel = record {
  Queue = ListQueue;
  bounded = λ n. record { items = []; capacity = n; closed = false };
  try_send = send;
  recv = λ q. take_first q q.items;
  close = λ q. record q { closed = true };
  contents = λ q. q.items;
  is_closed = λ q. q.closed;
}

taken_first :
    (q q' : ListQueue) (items : List AddrKey) (key : AddrKey)
    → take_first q items ≡ taken key q'
    → (items ≡ key ∷ q'.items) × (q'.closed ≡ q.closed)
taken_first q q' [] key e = ground arith
taken_first q q' (k ∷ rest) key e = ground arith

drained_first :
    (q : ListQueue) (items : List AddrKey)
    → take_first q items ≡ drained
    → (items ≡ []) × (q.closed ≡ true)
drained_first q [] e = ground arith
drained_first q (k ∷ rest) e = ground arith

-- It behaves as a channel does.
pub list_channel-IsChannel : IsChannel list_channel
list_channel-IsChannel = record {
  bounded-contents = λ n. (refl, refl);
  try_send-some = λ key q q' e. ground arith;
  recv-taken = λ key q q' e. taken_first q q' q.items key e;
  recv-drained = λ q e. drained_first q q.items e;
  close-contents = λ q. (refl, refl);
}
