-- ===== src/Crates/Sample.antt =====
-- Simple functions in place of the third-party code, for the examples: a digest that is the first 32
-- bytes, filled up with zeros, and an encoding that leaves the bytes as they are.
use new_p2p_crawler.Prelude.{take, replicate, ℕ, some, List, ◌++◌}
use new_p2p_crawler.Crates.{Crates}

abbrev first_32 : List ℕ → List ℕ
first_32 bytes = take 32 (bytes ++ replicate 32 0)

abbrev pub sample : Crates
sample = record {
  sha256 = first_32;
  sha3_256 = first_32;
  base32_encode = λ bytes. bytes;
  base32_decode = λ t. some t;
}
