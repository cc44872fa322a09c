-- ===== src/Protocol/Compact/RoundTrip.antt =====
-- Reading what `write_compact_size` wrote.
use new_p2p_crawler.Prelude.{
  if◌then◌else◌, le→leb, ℕ, ◌^◌, ◌<◌, ◌≡◌, sym, subst, false, List, [], ◌∷◌, ◌++◌, append-nil,
  arith, dec_le, lt→not_leb, some, refl, to_le, ◌%◌, ◌≤◌, ne→not_==,
}
use new_p2p_crawler.Protocol.Cursor.{Cursor, new, pure, fail}
use new_p2p_crawler.Protocol.Cursor.Reads.{
  ahead, Reads, Reads-pure, Reads-bytes, Reads-bind, Reads-u8, Reads-u16_le, Reads-u32_le,
  Reads-u64_le,
}
use new_p2p_crawler.Protocol.Compact.{
  write_compact_size, compact_size, compact_size_canonical, sized, is_overlong,
}

abbrev pub compact : ℕ → List ℕ
compact v = write_compact_size [] v

-- What is written goes behind `out`, and does not depend on it.
pub write_compact_size-append : (out : List ℕ) (v : ℕ) → write_compact_size out v ≡ out ++ compact v
unfolding write_compact_size
write_compact_size-append out v = ground arith

-- The reading of the bytes behind a prefix, and the check.
module _ (prefix v : ℕ) (xs : List ℕ) (r : Reads (sized prefix) xs v) where
  Reads-sized : Reads compact_size (prefix ∷ xs) v
  unfolding compact_size
  Reads-sized = Reads-bind _ (Reads-u8 prefix) r

  Reads-checked : is_overlong prefix v ≡ false → Reads compact_size_canonical (prefix ∷ xs) v
  unfolding compact_size_canonical
  Reads-checked short = Reads-bind _ (Reads-u8 prefix) (
      Reads-bytes (append-nil xs) (
        Reads-bind _ r
          (subst (λ b. Reads (if b then fail else pure v) [] v) (sym short) (Reads-pure v))))

Both : ℕ → List ℕ → Type 0
Both v xs = Reads compact_size xs v × Reads compact_size_canonical xs v

both :
    (prefix v : ℕ) (xs : List ℕ)
    → Reads (sized prefix) xs v
    → is_overlong prefix v ≡ false
    → Both v (prefix ∷ xs)
unfolding Both
both prefix v xs r short = (Reads-sized prefix v xs r, Reads-checked prefix v xs r short)

module _ (v : ℕ) where
  one_byte : v ≤ 0xFC → Both v ((v % 256) ∷ [])
  one_byte p =
      let e : v % 256 ≡ v = omega arith in
      rw e (both v v [] (sized_small (Reads-pure v)) (ground arith))
    where
      sized_small : Reads (pure v) [] v → Reads (sized v) [] v
      sized_small r =
          rw
            (
              ne→not_== v 255 (omega arith),
              ne→not_== v 254 (omega arith),
              ne→not_== v 253 (omega arith),
            )
            r

  two_bytes : v ≤ 0xFFFF → 0xFD ≤ v → Both v (0xFD ∷ to_le 2 (v % 2 ^ 16))
  two_bytes p q =
      let e : v % 2 ^ 16 ≡ v = omega arith in
      rw e (both 0xFD v (to_le 2 v) (Reads-u16_le v (omega arith)) (ground arith))

  four_bytes : v ≤ 0xFFFF_FFFF → 0xFFFF < v → Both v (0xFE ∷ to_le 4 (v % 2 ^ 32))
  four_bytes p q =
      let e : v % 2 ^ 32 ≡ v = omega arith in
      rw e (both 0xFE v (to_le 4 v) (Reads-u32_le v (omega arith)) (ground arith))

  eight_bytes : v < 2 ^ 64 → 0xFFFF_FFFF < v → Both v (0xFF ∷ to_le 8 v)
  eight_bytes p q = both 0xFF v (to_le 8 v) (Reads-u64_le v p) (ground arith)

compact-Both : (v : ℕ) → v < 2 ^ 64 → Both v (compact v)
unfolding write_compact_size
compact-Both v h = elim (dec_le v 0xFC) [
  | yes p ↦ rw (le→leb v 0xFC p) (one_byte v p)
  | no p ↦ elim (dec_le v 0xFFFF) [
    | yes q ↦ rw (lt→not_leb 0xFC v (omega arith), le→leb v 0xFFFF q) (two_bytes v q (omega arith))
    | no q ↦ elim (dec_le v 0xFFFF_FFFF) [
      | yes r ↦
          rw
            (
              lt→not_leb 0xFC v (omega arith),
              lt→not_leb 0xFFFF v (omega arith),
              le→leb v 0xFFFF_FFFF r,
            )
            (four_bytes v r (omega arith))
      | no r ↦
          rw
            (
              lt→not_leb 0xFC v (omega arith),
              lt→not_leb 0xFFFF v (omega arith),
              lt→not_leb 0xFFFF_FFFF v (omega arith),
            )
            (eight_bytes v h (omega arith))
    ]
  ]
]

-- Both readers give back any u64 that was written, and leave what follows it.
pub compact_size-write :
    (v : ℕ)
    → v < 2 ^ 64
    → Reads compact_size (compact v) v × Reads compact_size_canonical (compact v) v
unfolding Both
compact_size-write v h = compact-Both v h

-- Any u64 that was written is read back by both readings, and what follows it is left.
pub compact_size-write_compact_size :
    (v : ℕ) (rest : List ℕ)
    → v < 2 ^ 64
    → ((c : Cursor) × (compact_size (new (write_compact_size [] v ++ rest)) ≡ some (v, c))
        × (ahead c ≡ rest))
      × ((c : Cursor) × (compact_size_canonical (new (write_compact_size [] v ++ rest))
            ≡ some (v, c))
          × (ahead c ≡ rest))
compact_size-write_compact_size v rest h =
    let c : Cursor = new (compact v ++ rest) in
    let (plain, canonical) = compact_size-write v h in
    let (p, read_p, left_p, i) = plain.at c rest (omega arith) refl in
    let (q, read_q, left_q, j) = canonical.at c rest (omega arith) refl in
    ((p, read_p, left_p), (q, read_q, left_q))
