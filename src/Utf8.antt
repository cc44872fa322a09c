-- ===== src/Utf8.antt =====
-- `std::str::from_utf8`: the validation of UTF-8, as a machine that reads one byte at a time.
use new_p2p_crawler.Prelude.{
  ltb, leb, ◌==◌, if◌then◌else◌, lt→ltb, All, ℕ, zero, suc, ◌<◌, ◌≡◌, refl, Bool, true, false, ◌&&◌,
  Option, none, some, List, [], ◌∷◌, ◌++◌,
}

-- Between characters, or inside one: how many bytes are still wanted, and the range of the next.
pub data Utf8State : Type 0 where
  start : Utf8State
  want : (more lo hi : ℕ) → Utf8State

abbrev pub within : ℕ → ℕ → ℕ → Bool
within lo hi b = leb lo b && leb b hi

abbrev first_byte : ℕ → Option Utf8State
first_byte b =
    if ltb b 0x80
    then some start
    else if within 0xC2 0xDF b
    then some (want 0 0x80 0xBF)
    else if b == 0xE0
    then some (want 1 0xA0 0xBF)
    else if b == 0xED
    then some (want 1 0x80 0x9F)
    else if within 0xE1 0xEF b
    then some (want 1 0x80 0xBF)
    else if b == 0xF0
    then some (want 2 0x90 0xBF)
    else if b == 0xF4
    then some (want 2 0x80 0x8F)
    else if within 0xF1 0xF3 b
    then some (want 2 0x80 0xBF)
    else none

abbrev pub utf8_step : Utf8State → ℕ → Option Utf8State
utf8_step start b = first_byte b
utf8_step (want zero lo hi) b = if within lo hi b then some start else none
utf8_step (want (suc more) lo hi) b = if within lo hi b then some (want more 0x80 0xBF) else none

unfoldable pub utf8_from : Utf8State → List ℕ → Bool
utf8_from start [] = true
utf8_from (want more lo hi) [] = false
utf8_from st (b ∷ bs) = elim (utf8_step st b) [ none ↦ false | some next ↦ utf8_from next bs ]

unfoldable pub is_utf8 : List ℕ → Bool
unfolding utf8_from
is_utf8 bytes = utf8_from start bytes

-- Every string of bytes below 0x80 is valid.
pub is_utf8_ascii : (bytes : List ℕ) → All (λ b. b < 0x80) bytes → is_utf8 bytes ≡ true
unfolding is_utf8
is_utf8_ascii [] h = refl
is_utf8_ascii (b ∷ bs) h = rw (lt→ltb b 0x80 h.0, utf8_from) (is_utf8_ascii bs h.1)

-- `String::from_utf8_lossy`: each longest beginning of a character that breaks off, and each byte that
-- begins none, becomes U+FFFD. `pending` is the character so far.
abbrev replacement : List ℕ
replacement = 0xEF ∷ 0xBF ∷ 0xBD ∷ []

abbrev pub broken_off : List ℕ → List ℕ
broken_off [] = []
broken_off (b ∷ bs) = replacement

-- What is put out, the state and the pending bytes after one byte.
abbrev lossy_first : List ℕ → ℕ → Option Utf8State → List ℕ × Utf8State × List ℕ
lossy_first out b none = (out ++ replacement, start, [])
lossy_first out b (some start) = (out ++ (b ∷ []), start, [])
lossy_first out b (some (want more lo hi)) = (out, want more lo hi, b ∷ [])

abbrev lossy_step : Utf8State → List ℕ → ℕ → List ℕ × Utf8State × List ℕ
lossy_step start pending b = lossy_first [] b (utf8_step start b)
lossy_step (want more lo hi) pending b = elim (utf8_step (want more lo hi) b) [
  | none ↦ lossy_first replacement b (utf8_step start b)
  | some start ↦ (pending ++ (b ∷ []), start, [])
  | some (want m l h) ↦ ([], want m l h, pending ++ (b ∷ []))
]

unfoldable pub lossy_from : Utf8State → List ℕ → List ℕ → List ℕ
lossy_from st pending [] = broken_off pending
lossy_from st pending (b ∷ bs) =
    let (out, next, held) = lossy_step st pending b in out ++ lossy_from next held bs

unfoldable pub from_utf8_lossy : List ℕ → List ℕ
unfolding lossy_from
from_utf8_lossy bytes = lossy_from start [] bytes
