-- ===== src/Transport/Socks/Served.antt =====
-- The SOCKS5 dialogue of src/transport.rs with a proxy that grants the connection in time.
use new_p2p_crawler.Transport.Stream.{Dial, ◌>>=◌, pure, read_exact}
use new_p2p_crawler.Prelude.{ℕ, ◌+◌}

module _ (deadline : ℕ) where
  abbrev after_length : ℕ → Dial (Unit {0})
  after_length addr_len = read_exact deadline (addr_len + 2) >>= λ scratch. pure tt
