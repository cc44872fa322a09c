-- ===== src/Prelude/Words.antt =====
-- Machine words as byte strings: `to_le_bytes`, `from_le_bytes`, the big-endian pair, and the signed
-- reading of a 32- or 64-bit word.
use Prim.Native.Nat.{ℕ, zero, suc, ◌+◌, ◌-◌, ◌*◌, ◌/◌, ◌%◌, ◌^◌, ◌<◌}
use mathlib.Core.Path.{◌≡◌, refl, ap, ◌∙◌}
use mathlib.Core.List.{List, [], ◌∷◌, reverse}
use native.Mathlib.Omega.{arith}
use native.Mathlib.Nat.{pow-suc}
use new_p2p_crawler.Prelude.Tests.{ltb, if◌then◌else◌}
use new_p2p_crawler.Prelude.Lists.{length, All}
use new_p2p_crawler.Prelude.Int.{ℤ, pos, negsuc}

abbrev pub IsByte : ℕ → Type 0
IsByte b = b < 256

abbrev pub IsBytes : List ℕ → Type 0
IsBytes = All IsByte

-- The `w` low bytes of `v`, the lowest first.
abbrev pub to_le : ℕ → ℕ → List ℕ
to_le zero v = []
to_le (suc w) v = (v % 256) ∷ to_le w (v / 256)

abbrev pub from_le : List ℕ → ℕ
from_le [] = 0
from_le (b ∷ bs) = b + 256 * from_le bs

abbrev pub to_be : ℕ → ℕ → List ℕ
to_be w v = reverse (to_le w v)

abbrev pub from_be : List ℕ → ℕ
from_be bs = from_le (reverse bs)

pub length-to_le : (w v : ℕ) → length (to_le w v) ≡ w
length-to_le zero v = refl
length-to_le (suc w) v = ap suc (length-to_le w (v / 256))

pub to_le-IsBytes : (w v : ℕ) → IsBytes (to_le w v)
to_le-IsBytes zero v = tt
to_le-IsBytes (suc w) v = (omega arith, to_le-IsBytes w (v / 256))

pub from_le-to_le : (w v : ℕ) → v < 256 ^ w → from_le (to_le w v) ≡ v
from_le-to_le zero v h = omega arith
from_le-to_le (suc w) v h = omega (arith, from_le-to_le w (v / 256) (omega (arith, pow-suc 256 w)))

pub from_le-lt : (bs : List ℕ) → IsBytes bs → from_le bs < 256 ^ length bs
from_le-lt [] h = omega arith
from_le-lt (b ∷ bs) h = omega (arith, from_le-lt bs h.1, pow-suc 256 (length bs))

pub to_le-from_le : (bs : List ℕ) → IsBytes bs → to_le (length bs) (from_le bs) ≡ bs
to_le-from_le [] h = refl
to_le-from_le (b ∷ bs) h =
    let low : (b + 256 * from_le bs) % 256 ≡ b = omega arith in
    let high : (b + 256 * from_le bs) / 256 ≡ from_le bs = omega arith in
    λ i. low i ∷ ((ap (to_le (length bs)) high ∙ to_le-from_le bs h.1) i)

-- `as i32` and `as i64` of the unsigned word, and `to_le_bytes` of the signed one.
abbrev pub to_signed : ℕ → ℕ → ℤ
to_signed half v = if ltb v half then pos v else negsuc (half + half - 1 - v)

abbrev pub of_signed : ℕ → ℤ → ℕ
of_signed half (pos n) = n
of_signed half (negsuc n) = half + half - 1 - n

abbrev pub to_i32 : ℕ → ℤ
to_i32 = to_signed (2 ^ 31)

abbrev pub of_i32 : ℤ → ℕ
of_i32 = of_signed (2 ^ 31)

abbrev pub to_i64 : ℕ → ℤ
to_i64 = to_signed (2 ^ 63)

abbrev pub of_i64 : ℤ → ℕ
of_i64 = of_signed (2 ^ 63)

-- The values of a signed type with `half` values on each side.
abbrev pub IsSigned : ℕ → ℤ → Type 0
IsSigned half (pos n) = n < half
IsSigned half (negsuc n) = n < half

pub to_signed-of_signed :
    (half : ℕ) (z : ℤ) → IsSigned half z → to_signed half (of_signed half z) ≡ z
to_signed-of_signed half (pos n) h = ground arith
to_signed-of_signed half (negsuc n) h = ground arith

pub of_signed-lt : (half : ℕ) (z : ℤ) → IsSigned half z → of_signed half z < half + half
of_signed-lt half (pos n) h = omega arith
of_signed-lt half (negsuc n) h = omega arith
