-- ===== src/Protocol/Cursor/Reads.antt =====
-- `Reads m xs a`: wherever the bytes `xs` come next, `m` reads exactly them and gives `a`. One rule
-- for each reader and for each way to join readers.
use new_p2p_crawler.Prelude.{
  drop, ℕ, ◌≡◌, refl, some, List, [], ◌++◌, le→not_ltb, length, take, get_or, length-append,
  length-drop, take-append, drop-append, drop-drop, ℤ, to_le, from_le, to_be, from_be,
  from_le-to_le, to_i32, of_i32, to_i64, of_i64, IsSigned, to_signed-of_signed, of_signed-lt, ◌+◌,
  ◌^◌, ◌≤◌, ◌<◌, sym, ap, subst, ◌∙◌, ◌∷◌, append-nil, append_assoc, arith,
}
use new_p2p_crawler.Protocol.Cursor.{
  Cursor, Reader, pure, ◌>>=◌, take_bytes, remaining, u8, u16_le, u16_be, u32_le, i32_le, u64_le,
  i64_le,
}

-- What the cursor has not read yet.
abbrev pub ahead : Cursor → List ℕ
ahead c = drop c.pos c.buf

abbrev pub InRange : Cursor → Type 0
InRange c = c.pos ≤ length c.buf

pub record Reads {A : Type 0} (m : Reader A) (xs : List ℕ) (a : A) : Type 0 where
  pub at :
      (c : Cursor) (rest : List ℕ)
      → InRange c
      → ahead c ≡ xs ++ rest
      → (c' : Cursor) × (m c ≡ some (a, c')) × (ahead c' ≡ rest) × InRange c'

pub remaining-ahead : (c : Cursor) → remaining c ≡ length (ahead c)
remaining-ahead c = sym (length-drop c.pos c.buf)

module _ {A : Type 0} where
  pub Reads-pure : (a : A) → Reads (pure a) [] a
  Reads-pure a = record { at = λ c rest r h. (c, refl, h, r) }

  pub Reads-bytes : {m : Reader A} {xs ys : List ℕ} {a : A} → xs ≡ ys → Reads m xs a → Reads m ys a
  Reads-bytes {m} {a} p r = subst (λ t. Reads m t a) p r

  pub Reads-value : {m : Reader A} {xs : List ℕ} {a b : A} → a ≡ b → Reads m xs a → Reads m xs b
  Reads-value {m} {xs} p r = subst (λ t. Reads m xs t) p r

module _ {A B : Type 0} where
  pub Reads-bind :
      {m : Reader A} (f : A → Reader B) {xs ys : List ℕ} {a : A} {b : B}
      → Reads m xs a
      → Reads (f a) ys b
      → Reads (m >>= f) (xs ++ ys) b
  Reads-bind {m} f {xs} {ys} {a} r s = record {
    at = λ c rest i h.
        let (c', e, h', i') = r.at c (ys ++ rest) i (h ∙ append_assoc xs ys rest) in
        let (c'', e', h'', i'') = s.at c' rest i' h' in (c'', rw (e, ◌>>=◌) e', h'', i'');
  }

pub Reads-take : (xs : List ℕ) (n : ℕ) → length xs ≡ n → Reads (take_bytes n) xs xs
unfolding take_bytes
Reads-take xs n len = record {
  at = λ c rest i h.
      let fits : c.pos + n ≤ length c.buf =
        omega (arith, ap length h, length-append xs rest, length-drop c.pos c.buf) in
      (
        record c { pos = c.pos + n },
        rw (le→not_ltb (length c.buf) (c.pos + n) fits) (λ j.
            some ((ap (take n) h ∙ take-append n xs rest len) j, record c { pos = c.pos + n })),
        sym (drop-drop c.pos n c.buf) ∙ (ap (drop n) h ∙ drop-append n xs rest len),
        fits,
      );
}

-- A reader that turns the next bytes `xs` into a value.
Reads-map :
    {A : Type 0} {m : Reader (List ℕ)} (xs : List ℕ) (f : List ℕ → A)
    → Reads m xs xs
    → Reads (m >>= λ b. pure (f b)) xs (f xs)
Reads-map xs f r = Reads-bytes (append-nil xs) (Reads-bind _ r (Reads-pure (f xs)))

pub Reads-u8 : (b : ℕ) → Reads u8 (b ∷ []) b
unfolding u8
Reads-u8 b = Reads-map (b ∷ []) (λ bs. get_or bs 0 0) (Reads-take (b ∷ []) 1 refl)

pub Reads-u16_be : (v : ℕ) → v < 2 ^ 16 → Reads u16_be (to_be 2 v) v
unfolding u16_be
Reads-u16_be v h =
    Reads-value (omega arith) (Reads-map (to_be 2 v) from_be (Reads-take (to_be 2 v) 2 refl))

pub Reads-u16_le : (v : ℕ) → v < 2 ^ 16 → Reads u16_le (to_le 2 v) v
unfolding u16_le
Reads-u16_le v h =
    Reads-value (from_le-to_le 2 v h)
      (Reads-map (to_le 2 v) from_le (Reads-take (to_le 2 v) 2 refl))

pub Reads-u32_le : (v : ℕ) → v < 2 ^ 32 → Reads u32_le (to_le 4 v) v
unfolding u32_le
Reads-u32_le v h =
    Reads-value (from_le-to_le 4 v h)
      (Reads-map (to_le 4 v) from_le (Reads-take (to_le 4 v) 4 refl))

pub Reads-u64_le : (v : ℕ) → v < 2 ^ 64 → Reads u64_le (to_le 8 v) v
unfolding u64_le
Reads-u64_le v h =
    Reads-value (from_le-to_le 8 v h)
      (Reads-map (to_le 8 v) from_le (Reads-take (to_le 8 v) 8 refl))

pub Reads-i32_le : (z : ℤ) → IsSigned (2 ^ 31) z → Reads i32_le (to_le 4 (of_i32 z)) z
unfolding i32_le
Reads-i32_le z h = Reads-value (to_signed-of_signed (2 ^ 31) z h) (
    Reads-bytes (append-nil _) (
      Reads-bind _ (Reads-u32_le (of_i32 z) (of_signed-lt (2 ^ 31) z h))
        (Reads-pure (to_i32 (of_i32 z)))))

pub Reads-i64_le : (z : ℤ) → IsSigned (2 ^ 63) z → Reads i64_le (to_le 8 (of_i64 z)) z
unfolding i64_le
Reads-i64_le z h = Reads-value (to_signed-of_signed (2 ^ 63) z h) (
    Reads-bytes (append-nil _) (
      Reads-bind _ (Reads-u64_le (of_i64 z) (of_signed-lt (2 ^ 63) z h))
        (Reads-pure (to_i64 (of_i64 z)))))
