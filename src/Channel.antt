-- ===== src/Channel.antt =====
-- The bounded channels of the async_channel crate, which carry the keys to the workers. They are a
-- parameter of the crawler's model; `IsChannel` is the behaviour that their documentation gives.
pub mod Sample
use new_p2p_crawler.Prelude.{ℕ, ◌≡◌, Bool, true, false, Option, some, List, [], ◌∷◌, ◌++◌}
use new_p2p_crawler.Node.{AddrKey}

-- What a receiver finds: a key, a closed and drained channel, or nothing yet.
pub data Received (Queue : Type 0) : Type 0 where
  taken : AddrKey → Queue → Received Queue
  drained waiting : Received Queue

-- `try_send` gives `none` where the channel is full or closed.
pub record Channel : Type 1 where
  pub Queue : Type 0
  pub bounded : ℕ → Queue
  pub try_send : AddrKey → Queue → Option Queue
  pub recv : Queue → Received Queue
  pub close : Queue → Queue
  pub contents : Queue → List AddrKey
  pub is_closed : Queue → Bool

-- Keys come out in the order in which they went in; a closed channel takes none and gives out the rest.
pub record IsChannel (ch : Channel) : Type 0 where
  pub bounded-contents :
      (n : ℕ) → (ch.contents (ch.bounded n) ≡ []) × (ch.is_closed (ch.bounded n) ≡ false)
  pub try_send-some :
      (key : AddrKey) (q q' : ch.Queue)
      → ch.try_send key q ≡ some q'
      → (ch.is_closed q ≡ false)
        × (ch.is_closed q' ≡ false)
        × (ch.contents q' ≡ ch.contents q ++ key ∷ [])
  pub recv-taken :
      (key : AddrKey) (q q' : ch.Queue)
      → ch.recv q ≡ taken key q'
      → (ch.contents q ≡ key ∷ ch.contents q') × (ch.is_closed q' ≡ ch.is_closed q)
  pub recv-drained :
      (q : ch.Queue) → ch.recv q ≡ drained → (ch.contents q ≡ []) × (ch.is_closed q ≡ true)
  pub close-contents :
      (q : ch.Queue)
      → (ch.contents (ch.close q) ≡ ch.contents q) × (ch.is_closed (ch.close q) ≡ true)
