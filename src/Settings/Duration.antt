-- ===== src/Settings/Duration.antt =====
-- src/settings.rs: `parse_duration`, a number of seconds or a number with a unit.
pub mod Units
use new_p2p_crawler.Prelude.{
  leb, ◌==◌, if◌then◌else◌, length, drop, ℤ, pos, to_i64, of_i64, text, Text, list_eq, ℕ, zero, suc,
  ◌*◌, ◌%◌, ◌^◌, ◌≡◌, refl, Bool, ◌&&◌, ◌||◌, Option, none, some, [], ◌∷◌, ◌++◌,
}
use new_p2p_crawler.Io.{Result, ok, err}
use new_p2p_crawler.Decimal.{is_digit, parse_i64}

-- The length of the white space character, as Unicode has it, that the UTF-8 bytes start with; 0 if none.
abbrev is_ascii_space : ℕ → Bool
is_ascii_space c = c == 0x20 || (leb 0x09 c && leb c 0x0D)

abbrev two_byte_space : ℕ → ℕ → Bool
two_byte_space c d = c == 0xC2 && (d == 0x85 || d == 0xA0)

abbrev three_byte_space : ℕ → ℕ → ℕ → Bool
three_byte_space c d e =
    (c == 0xE1 && (d == 0x9A && e == 0x80))
    || ((c == 0xE2
          && (d == 0x80 && ((leb 0x80 e && leb e 0x8A) || (e == 0xA8 || (e == 0xA9 || e == 0xAF)))))
        || ((c == 0xE2 && (d == 0x81 && e == 0x9F)) || (c == 0xE3 && (d == 0x80 && e == 0x80))))

abbrev pub space_length : Text → ℕ
space_length [] = 0
space_length (c ∷ []) = if is_ascii_space c then 1 else 0
space_length (c ∷ (d ∷ [])) = if is_ascii_space c then 1 else if two_byte_space c d then 2 else 0
space_length (c ∷ (d ∷ (e ∷ rest))) =
    if is_ascii_space c
    then 1
    else if two_byte_space c d
    then 2
    else if three_byte_space c d e
    then 3
    else 0

-- The white space in front; the fuel is the length.
unfoldable pub trim_front : ℕ → Text → Text
trim_front zero s = s
trim_front (suc fuel) s =
    let n = space_length s in let rest = trim_front fuel (drop n s) in if n == 0 then s else rest

-- A text is white space only.
abbrev pub is_blank : Text → Bool
is_blank s = length (trim_front (length s) s) == 0

-- Cut where only white space follows.
unfoldable pub trim_back : Text → Text
unfolding trim_front
trim_back [] = []
trim_back (c ∷ cs) = let rest = trim_back cs in if is_blank (c ∷ cs) then [] else c ∷ rest

abbrev pub trim : Text → Text
trim s = trim_back (trim_front (length s) s)

-- `split_at` the first character that is no digit.
unfoldable pub split_digits : Text → Text × Text
split_digits [] = ([], [])
split_digits (c ∷ cs) =
    let (num, unit) = split_digits cs in if is_digit c then (c ∷ num, unit) else ([], c ∷ cs)

abbrev pub unit_seconds : Text → Option ℕ
unit_seconds unit =
    if list_eq unit (b's' ∷ [])
    then some 1
    else if list_eq unit (b'm' ∷ [])
    then some 60
    else if list_eq unit (b'h' ∷ [])
    then some 3600
    else if list_eq unit (b'd' ∷ [])
    then some 86_400
    else none

abbrev invalid : Text → Result Text ℤ
invalid s = err (text "invalid duration: " ++ s)

-- The product wraps around, as it does in a release build.
abbrev pub scaled : Text → ℤ → Option ℕ → Result Text ℤ
scaled unit n none = err (text "unknown duration unit: " ++ unit)
scaled unit n (some mult) = ok (to_i64 ((of_i64 n * mult) % 2 ^ 64))

abbrev pub with_unit : Text → Text → Option ℤ → Result Text ℤ
with_unit s unit none = invalid s
with_unit s unit (some n) = scaled unit n (unit_seconds unit)

abbrev pub number_and_unit : Text → Text × Text → Result Text ℤ
number_and_unit s (num, []) = invalid s
number_and_unit s (num, u ∷ unit) = with_unit s (u ∷ unit) (parse_i64 num)

abbrev pub trimmed : Text → Option ℤ → Result Text ℤ
trimmed s (some n) = ok n
trimmed s none = number_and_unit s (split_digits s)

unfoldable pub parse_duration : Text → Result Text ℤ
unfolding trim_front trim_back split_digits parse_i64
parse_duration s = trimmed (trim s) (parse_i64 (trim s))
