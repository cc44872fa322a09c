-- ===== src/Protocol/Compact.antt =====
-- src/protocol.rs: CompactSize, written in its shortest form and read with and without that check.
pub mod RoundTrip
use new_p2p_crawler.Prelude.{
  ltb, leb, ◌==◌, if◌then◌else◌, to_le, ℕ, ◌%◌, ◌^◌, Bool, ◌&&◌, ◌||◌, List, [], ◌∷◌, ◌++◌,
}
use new_p2p_crawler.Protocol.Cursor.{Reader, pure, fail, u8, u16_le, u32_le, u64_le, ◌>>=◌}

-- `out` with the encoding of a u64 behind it
unfoldable pub write_compact_size : List ℕ → ℕ → List ℕ
write_compact_size out value =
    if leb value 0xFC
    then out ++ (value % 256) ∷ []
    else if leb value 0xFFFF
    then out ++ (0xFD ∷ to_le 2 (value % 2 ^ 16))
    else if leb value 0xFFFF_FFFF
    then out ++ (0xFE ∷ to_le 4 (value % 2 ^ 32))
    else out ++ (0xFF ∷ to_le 8 value)

abbrev pub sized : ℕ → Reader ℕ
sized prefix =
    if prefix == 0xFF
    then u64_le
    else if prefix == 0xFE
    then u32_le
    else if prefix == 0xFD
    then u16_le
    else pure prefix

unfoldable pub compact_size : Reader ℕ
compact_size = do prefix ← u8; sized prefix

-- The value is refused where a shorter form would have held it.
abbrev pub is_overlong : ℕ → ℕ → Bool
is_overlong prefix value =
    (prefix == 0xFF && leb value 0xffff_ffff)
    || ((prefix == 0xFE && leb value 0xffff) || (prefix == 0xFD && ltb value 0xfd))

unfoldable pub compact_size_canonical : Reader ℕ
compact_size_canonical = do
  prefix ← u8
  value ← sized prefix
  if is_overlong prefix value then fail else pure value
