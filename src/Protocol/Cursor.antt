-- ===== src/Protocol/Cursor.antt =====
-- src/protocol.rs: `Cursor`, the defensive reader of a byte slice. A reader gives `none` on a short
-- read; the caller then drops the cursor, or reads no more from it.
pub mod Reads
use new_p2p_crawler.Prelude.{
  ltb, if◌then◌else◌, length, take, drop, get_or, ℤ, from_le, from_be, to_i32, to_i64, ℕ, ◌+◌, ◌-◌,
  Option, none, some, List,
}

pub record Cursor : Type 0 where
  pub buf : List ℕ
  pub pos : ℕ

abbrev pub Reader : Type 0 → Type 0
Reader A = Cursor → Option (A × Cursor)

infixl 5 ◌>>=◌ ◌>>◌
abbrev pub ◌>>=◌ : {A B : Type 0} → Reader A → (A → Reader B) → Reader B
◌>>=◌ m f c = elim (m c) [ none ↦ none | some (a, c') ↦ f a c' ]

abbrev pub ◌>>◌ : {A B : Type 0} → Reader A → Reader B → Reader B
m >> k = m >>= λ _. k

abbrev pub pure : {A : Type 0} → A → Reader A
pure a c = some (a, c)

abbrev pub fail : {A : Type 0} → Reader A
fail c = none

abbrev pub new : List ℕ → Cursor
new buf = record { buf = buf; pos = 0 }

-- A slice is shorter than 2^63 bytes, so a sum that overflows `usize` is past the end too.
unfoldable pub take_bytes : ℕ → Reader (List ℕ)
take_bytes n c =
    if ltb (length c.buf) (c.pos + n)
    then none
    else some (take n (drop c.pos c.buf), record c { pos = c.pos + n })

abbrev pub remaining : Cursor → ℕ
remaining c = length c.buf - c.pos

unfoldable pub u8 : Reader ℕ
u8 = do b ← take_bytes 1; pure (get_or b 0 0)

unfoldable pub u16_le : Reader ℕ
u16_le = do b ← take_bytes 2; pure (from_le b)

unfoldable pub u16_be : Reader ℕ
u16_be = do b ← take_bytes 2; pure (from_be b)

unfoldable pub u32_le : Reader ℕ
u32_le = do b ← take_bytes 4; pure (from_le b)

unfoldable pub i32_le : Reader ℤ
i32_le = do v ← u32_le; pure (to_i32 v)

unfoldable pub u64_le : Reader ℕ
u64_le = do b ← take_bytes 8; pure (from_le b)

unfoldable pub i64_le : Reader ℤ
i64_le = do v ← u64_le; pure (to_i64 v)
