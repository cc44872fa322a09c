-- ===== src/Crawler/World.antt =====
-- What the crawler takes from outside while it works: the epoch clock at a reading of the monotonic one,
-- in seconds, and the numbers and shuffles of the rand crate.
use new_p2p_crawler.Prelude.{ℤ, ℕ, List}
use new_p2p_crawler.Protocol.Addr.{AdvertisedAddr}

pub record World : Type 0 where
  pub now_epoch : ℕ → ℤ
  pub nonce : ℕ → ℕ
  pub shuffle : ℕ → List AdvertisedAddr → List AdvertisedAddr
