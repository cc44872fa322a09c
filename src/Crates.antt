-- ===== src/Crates.antt =====
-- The third-party code that the program calls: the digests of the sha2 and sha3 crates and the
-- unpadded Base32 of the data-encoding crate. It is a parameter of every definition that uses it.
pub mod Sample
use new_p2p_crawler.Prelude.{ℕ, Text, List, Option}

pub record Crates : Type 0 where
  pub sha256 : List ℕ → List ℕ
  pub sha3_256 : List ℕ → List ℕ
  pub base32_encode : List ℕ → Text
  pub base32_decode : Text → Option (List ℕ)
