-- ===== src/Decimal.antt =====
-- Integers as text, as the standard library prints (`Display`) and parses (`str::parse`) them.
use new_p2p_crawler.Prelude.{
  ltb, leb, ◌==◌, if◌then◌else◌, ltb→lt, Bool-cases, All, ℤ, pos, negsuc, sub_ℕ, Text, ℕ, zero, suc,
  ◌+◌, ◌-◌, ◌*◌, ◌/◌, ◌%◌, ◌^◌, ◌≤◌, ◌<◌, ◌≡◌, refl, ◌∙◌, inl, inr, Bool, ◌&&◌, Option, none, some,
  [], ◌∷◌, arith,
}

-- The digits of `n`, before those already made. The fuel is the number of digits left to make.
unfoldable pub decimal_loop : ℕ → ℕ → Text → Text
decimal_loop zero n done = done
decimal_loop (suc fuel) n done =
    let rest = decimal_loop fuel (n / 10) ((b'0' + n % 10) ∷ done) in
    if ltb n 10 then (b'0' + n) ∷ done else rest

unfoldable pub decimal : ℕ → Text
unfolding decimal_loop
decimal n = decimal_loop (suc n) n []

unfoldable pub decimal_ℤ : ℤ → Text
unfolding decimal
decimal_ℤ (pos n) = decimal n
decimal_ℤ (negsuc n) = b'-' ∷ decimal (suc n)

abbrev pub is_digit : ℕ → Bool
is_digit c = leb b'0' c && leb c b'9'

-- One more digit, refused where the value would pass `limit`.
abbrev pub push_digit : ℕ → ℕ → ℕ → Option ℕ
push_digit limit value c =
    if is_digit c
    then (if ltb limit (value * 10 + (c - b'0')) then none else some (value * 10 + (c - b'0')))
    else none

unfoldable pub digits_value : ℕ → ℕ → Text → Option ℕ
digits_value limit value [] = some value
digits_value limit value (c ∷ cs) = elim (push_digit limit value c) [
  | none ↦ none
  | some v ↦ digits_value limit v cs
]

abbrev drop_plus : Text → Text
drop_plus [] = []
drop_plus (c ∷ cs) = if c == b'+' then cs else c ∷ cs

abbrev nonempty_value : ℕ → Text → Option ℕ
nonempty_value limit [] = none
nonempty_value limit (c ∷ cs) = digits_value limit 0 (c ∷ cs)

-- `parse` into an unsigned type whose largest value is `limit`: a sign `+` is allowed.
unfoldable pub parse_unsigned : ℕ → Text → Option ℕ
unfolding digits_value
parse_unsigned limit s = nonempty_value limit (drop_plus s)

abbrev negated : Option ℕ → Option ℤ
negated none = none
negated (some n) = some (sub_ℕ 0 n)

abbrev positive : Option ℕ → Option ℤ
positive none = none
positive (some n) = some (pos n)

-- `parse::<i64>()`
unfoldable pub parse_i64 : Text → Option ℤ
unfolding digits_value
parse_i64 [] = none
parse_i64 (c ∷ cs) =
    if c == b'-'
    then negated (nonempty_value (2 ^ 63) cs)
    else positive (nonempty_value (2 ^ 63 - 1) (drop_plus (c ∷ cs)))

-- A text of digits.
abbrev pub IsDigits : Text → Type 0
IsDigits = All (λ c. (b'0' ≤ c) × (c ≤ b'9'))

decimal_loop-IsDigits :
    (fuel n : ℕ) (done : Text) → IsDigits done → IsDigits (decimal_loop fuel n done)
unfolding decimal_loop
decimal_loop-IsDigits zero n done h = h
decimal_loop-IsDigits (suc fuel) n done h = elim (Bool-cases (ltb n 10)) [
  | inl e ↦ rw e ((omega arith, omega (arith, ltb→lt n 10 e)), h)
  | inr e ↦ rw e (decimal_loop-IsDigits fuel (n / 10) _ ((omega arith, omega arith), h))
]

pub decimal-IsDigits : (n : ℕ) → IsDigits (decimal n)
unfolding decimal
decimal-IsDigits n = decimal_loop-IsDigits (suc n) n [] tt

-- Reading the digits that the loop makes gives back `n`, and then the rest is read.
digits_value-decimal_loop :
    (fuel n limit : ℕ) (done : Text)
    → n < fuel
    → n ≤ limit
    → digits_value limit 0 (decimal_loop fuel n done) ≡ digits_value limit n done
unfolding decimal_loop digits_value
digits_value-decimal_loop zero n limit done f h = absurd (omega arith)
digits_value-decimal_loop (suc fuel) n limit done f h = elim (Bool-cases (ltb n 10)) [
  | inl e ↦ ground (arith, ltb→lt n 10 e)
  | inr e ↦
      rw e (
        digits_value-decimal_loop fuel (n / 10) limit _ (ground arith) (omega arith) ∙ ground arith)
]

pub digits_value-decimal : (n limit : ℕ) → n ≤ limit → digits_value limit 0 (decimal n) ≡ some n
unfolding decimal
digits_value-decimal n limit h =
    digits_value-decimal_loop (suc n) n limit [] (omega arith) h ∙ unfold digits_value in refl
