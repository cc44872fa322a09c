-- ===== src/Net/Show.antt =====
-- `Display` of `Ipv4Addr` and `Ipv6Addr`.
use new_p2p_crawler.Prelude.{
  ltb, ◌==◌, if◌then◌else◌, take, drop, get_or, all, text, Text, ℕ, ◌+◌, ◌-◌, ◌*◌, ◌/◌, ◌%◌, Bool,
  ◌&&◌, List, [], ◌∷◌, ◌++◌,
}
use new_p2p_crawler.Decimal.{decimal}

unfoldable pub show_ipv4 : ℕ → ℕ → ℕ → ℕ → Text
show_ipv4 a b c d = decimal a ++ (b'.' ∷ (decimal b ++ (b'.' ∷ (decimal c ++ (b'.' ∷ decimal d)))))

-- The eight 16-bit segments.
unfoldable pub segments : List ℕ → List ℕ
segments [] = []
segments (a ∷ []) = []
segments (a ∷ b ∷ rest) = (a * 256 + b) ∷ segments rest

abbrev pub hex_digit : ℕ → ℕ
hex_digit n = if ltb n 10 then b'0' + n else b'a' + (n - 10)

-- `{:x}` of a segment: at most four digits, the leading zeros left out.
unfoldable pub hex : ℕ → Text
hex n =
    if ltb n 0x10
    then hex_digit n ∷ []
    else if ltb n 0x100
    then hex_digit (n / 16) ∷ hex_digit (n % 16) ∷ []
    else if ltb n 0x1000
    then hex_digit (n / 256) ∷ hex_digit (n / 16 % 16) ∷ hex_digit (n % 16) ∷ []
    else hex_digit (n / 4096)
      ∷ hex_digit (n / 256 % 16)
      ∷ hex_digit (n / 16 % 16)
      ∷ hex_digit (n % 16)
      ∷ []

unfoldable pub show_segments : List ℕ → Text
show_segments [] = []
show_segments (s ∷ []) = hex s
show_segments (s ∷ t ∷ rest) = hex s ++ (b':' ∷ show_segments (t ∷ rest))

pub record Span : Type 0 where
  pub first : ℕ
  pub len : ℕ

abbrev empty : Span
empty = record { first = 0; len = 0 }

abbrev extend : ℕ → Span → Span
extend i current =
    if current.len == 0
    then record { first = i; len = 1 }
    else record current { len = current.len + 1 }

-- The first longest run of zero segments, from segment `i` on.
unfoldable pub longest_zeros : ℕ → Span → Span → List ℕ → Span
longest_zeros i longest current [] = longest
longest_zeros i longest current (s ∷ rest) =
    let run = if s == 0 then extend i current else empty in
    longest_zeros (i + 1) (if ltb longest.len run.len then run else longest) run rest

abbrev compress : Span → List ℕ → Text
compress zeros segs =
    if ltb 1 zeros.len
    then show_segments (take zeros.first segs)
      ++ (b':' ∷ b':' ∷ show_segments (drop (zeros.first + zeros.len) segs))
    else show_segments segs

-- Ten zero octets, then ff ff.
unfoldable pub is_mapped : List ℕ → Bool
is_mapped octets =
    all (λ b. b == 0) (take 10 octets) && (get_or octets 10 0 == 0xff && get_or octets 11 0 == 0xff)

unfoldable pub show_ipv6 : List ℕ → Text
unfolding is_mapped show_ipv4 segments longest_zeros show_segments hex decimal text
show_ipv6 octets =
    if is_mapped octets
    then text "::ffff:"
      ++ show_ipv4 (get_or octets 12 0) (get_or octets 13 0) (get_or octets 14 0)
          (get_or octets 15 0)
    else compress (longest_zeros 0 empty empty (segments octets)) (segments octets)
