-- ===== src/Settings/Duration/Units.antt =====
-- A number with a unit is that many seconds.
use new_p2p_crawler.Io.{ok}
use new_p2p_crawler.Prelude.{
  length, All, Text, ℕ, zero, suc, ◌<◌, ◌≡◌, refl, ap, ◌∙◌, false, none, some, [], ◌∷◌, ◌++◌, arith,
  ne→not_==, Option-cases, pos, ◌-◌, ◌^◌, inl, inr, to_i64, of_i64, ◌*◌, ◌%◌, lt→ltb,
}
use new_p2p_crawler.Decimal.{push_digit, is_digit, digits_value, IsDigits, parse_i64}
use new_p2p_crawler.Settings.Duration.{
  space_length, trim_front, trim_back, trim, split_digits, unit_seconds, scaled, with_unit,
  number_and_unit, trimmed, parse_duration,
}

-- A byte that no white space starts with.
IsInk : ℕ → Type 0
IsInk c = (0x20 < c) × (c < 0x80)

space_length-IsInk : (c : ℕ) (cs : Text) → IsInk c → space_length (c ∷ cs) ≡ 0
unfolding IsInk
space_length-IsInk c [] h = ground arith
space_length-IsInk c (d ∷ []) h = ground arith
space_length-IsInk c (d ∷ (e ∷ rest)) h = ground arith

trim_front-IsInk : (fuel c : ℕ) (cs : Text) → IsInk c → trim_front fuel (c ∷ cs) ≡ c ∷ cs
unfolding trim_front
trim_front-IsInk zero c cs h = refl
trim_front-IsInk (suc fuel) c cs h = rw (space_length-IsInk c cs h)

-- Nothing is cut off where every byte is ink.
trim_back-IsInk : (s : Text) → All IsInk s → trim_back s ≡ s
unfolding trim_back
trim_back-IsInk [] h = refl
trim_back-IsInk (c ∷ cs) h =
    rw (trim_front-IsInk (length (c ∷ cs)) c cs h.0, ne→not_== (length (c ∷ cs)) 0 (omega arith))
      (ap (λ t. c ∷ t) (trim_back-IsInk cs h.1))

trim-IsInk : (c : ℕ) (cs : Text) → All IsInk (c ∷ cs) → trim (c ∷ cs) ≡ c ∷ cs
trim-IsInk c cs h =
    ap trim_back (trim_front-IsInk (length (c ∷ cs)) c cs h.0) ∙ trim_back-IsInk (c ∷ cs) h

split_digits-unit :
    (ds : Text) (u : ℕ)
    → IsDigits ds
    → is_digit u ≡ false
    → split_digits (ds ++ u ∷ []) ≡ (ds, u ∷ [])
unfolding split_digits
split_digits-unit [] u h n = ground arith
split_digits-unit (c ∷ cs) u h n = ground (arith, split_digits-unit cs u h.1 n)

digits_value-unit :
    (limit value : ℕ) (ds : Text) (u : ℕ)
    → is_digit u ≡ false
    → digits_value limit value (ds ++ u ∷ []) ≡ none
unfolding digits_value
digits_value-unit limit value [] u n = ground arith
digits_value-unit limit value (c ∷ cs) u n = elim (Option-cases (push_digit limit value c)) [
  | inl e ↦ ground (arith, e)
  | inr (v, e) ↦ ground (arith, e, digits_value-unit limit v cs u n)
]

digits-IsInk : (ds : Text) (u : ℕ) → IsDigits ds → IsInk u → All IsInk (ds ++ u ∷ [])
unfolding IsInk
digits-IsInk [] u h k = (k, tt)
digits-IsInk (c ∷ cs) u h k = ((omega arith, omega arith), digits-IsInk cs u h.1 k)

-- The letter of a unit and its seconds.
pub data IsUnit : ℕ → ℕ → Type 0 where
  second : IsUnit b's' 1
  minute : IsUnit b'm' 60
  hour : IsUnit b'h' 3600
  day : IsUnit b'd' 86_400

unit_seconds-unit : (u mult : ℕ) → IsUnit u mult → unit_seconds (u ∷ []) ≡ some mult
unit_seconds-unit u mult second = refl
unit_seconds-unit u mult minute = refl
unit_seconds-unit u mult hour = refl
unit_seconds-unit u mult day = refl

unit-IsInk : (u mult : ℕ) → IsUnit u mult → IsInk u
unfolding IsInk
unit-IsInk u mult second = (omega arith, omega arith)
unit-IsInk u mult minute = (omega arith, omega arith)
unit-IsInk u mult hour = (omega arith, omega arith)
unit-IsInk u mult day = (omega arith, omega arith)

unit-letter : (u mult : ℕ) → IsUnit u mult → is_digit u ≡ false
unit-letter u mult second = refl
unit-letter u mult minute = refl
unit-letter u mult hour = refl
unit-letter u mult day = refl

-- Digits are read as a number, and are none with a unit behind them.
parse_i64-digits :
    (c : ℕ) (cs : Text) (n : ℕ)
    → IsDigits (c ∷ cs)
    → digits_value (2 ^ 63 - 1) 0 (c ∷ cs) ≡ some n
    → parse_i64 (c ∷ cs) ≡ some (pos n)
unfolding parse_i64
parse_i64-digits c cs n h e =
    rw (ne→not_== c b'-' (omega (arith, h.0)), ne→not_== c b'+' (omega (arith, h.0)), e) refl

parse_i64-unit :
    (c : ℕ) (cs : Text) (u : ℕ)
    → IsDigits (c ∷ cs)
    → is_digit u ≡ false
    → parse_i64 (c ∷ (cs ++ u ∷ [])) ≡ none
unfolding parse_i64
parse_i64-unit c cs u h n =
    rw
      (
        ne→not_== c b'-' (omega (arith, h.0)),
        ne→not_== c b'+' (omega (arith, h.0)),
        digits_value-unit (2 ^ 63 - 1) 0 (c ∷ cs) u n,
      )
      refl

small_mod : (x : ℕ) → x < 2 ^ 63 → x % 2 ^ 64 ≡ x
small_mod x h = omega arith

-- Decimal digits with the value `n` and a unit behind them are read as `n` times its seconds, if
-- these are less than 2^63: 1 for s, 60 for m, 3600 for h and 86400 for d.
pub parse_duration-unit :
    (c : ℕ) (cs : Text) (u mult n : ℕ)
    → IsDigits (c ∷ cs)
    → digits_value (2 ^ 63 - 1) 0 (c ∷ cs) ≡ some n
    → IsUnit u mult
    → n * mult < 2 ^ 63
    → parse_duration (c ∷ (cs ++ u ∷ [])) ≡ ok (pos (n * mult))
unfolding parse_duration
parse_duration-unit c cs u mult n h e unit small =
    ap (λ t. trimmed t (parse_i64 t))
      (trim-IsInk c (cs ++ u ∷ []) (digits-IsInk (c ∷ cs) u h (unit-IsInk u mult unit)))
    ∙ ap (trimmed (c ∷ (cs ++ u ∷ []))) (parse_i64-unit c cs u h letter)
    ∙ ap (number_and_unit (c ∷ (cs ++ u ∷ []))) (split_digits-unit (c ∷ cs) u h letter)
    ∙ ap (with_unit (c ∷ (cs ++ u ∷ [])) (u ∷ [])) (parse_i64-digits c cs n h e)
    ∙ ap (scaled (u ∷ []) (pos n)) (unit_seconds-unit u mult unit)
    ∙ ap ok fits
  where
    letter : is_digit u ≡ false
    letter = unit-letter u mult unit

    whole : (n * mult) % 2 ^ 64 ≡ n * mult
    whole = small_mod (n * mult) small

    fits : to_i64 ((of_i64 (pos n) * mult) % 2 ^ 64) ≡ pos (n * mult)
    fits = rw whole (rw (lt→ltb (n * mult) (2 ^ 63) small) refl)
