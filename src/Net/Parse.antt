-- ===== src/Net/Parse.antt =====
-- `str::parse` into `Ipv4Addr` and `Ipv6Addr`, after the parser of `core::net`. A step gives what it
-- read and the text behind it, or `none` with the text given back to the caller.
use new_p2p_crawler.Prelude.{
  ltb, leb, ◌==◌, if◌then◌else◌, length, replicate, Text, ℕ, zero, suc, ◌+◌, ◌-◌, ◌*◌, ◌/◌, ◌%◌,
  max, Bool, true, false, not, ◌&&◌, ◌||◌, Option, none, some, List, [], ◌∷◌, ◌++◌,
}
use new_p2p_crawler.Decimal.{is_digit}

abbrev Step : Type 0 → Type 0
Step A = Text → Option (A × Text)

abbrev bind : {A B : Type 0} → Option (A × Text) → (A → Step B) → Option (B × Text)
bind none f = none
bind (some (a, s)) f = f a s

abbrev given : ℕ → Step (Unit {0})
given c [] = none
given c (x ∷ s) = if x == c then some (tt, s) else none

-- The value of a digit in base 10 or 16.
abbrev digit : ℕ → ℕ → Option ℕ
digit radix c =
    if is_digit c
    then some (c - b'0')
    else if radix == 16 && (leb b'a' c && leb c b'f')
    then some (c - b'a' + 10)
    else if radix == 16 && (leb b'A' c && leb c b'F')
    then some (c - b'A' + 10)
    else none

-- The digits that follow, at most `max`, with their count and value; `limit` is the type's largest.
read_digits : ℕ → ℕ → ℕ → ℕ → ℕ → Text → Option (ℕ × ℕ × Text)
read_digits max radix limit count value [] = some (count, value, [])
read_digits max radix limit count value (c ∷ s) = elim (digit radix c) [
  | none ↦ some (count, value, c ∷ s)
  | some d ↦
      if ltb max (count + 1) || ltb limit (value * radix + d)
      then none
      else read_digits max radix limit (count + 1) (value * radix + d) s
]

abbrev leading_zero : Text → Bool
leading_zero [] = false
leading_zero (c ∷ s) = c == b'0'

read_number : ℕ → ℕ → ℕ → Bool → Step ℕ
unfolding read_digits
read_number radix max limit zero_prefix s = elim (read_digits max radix limit 0 0 s) [
  | none ↦ none
  | some (count, value, rest) ↦
      if count == 0 || (not zero_prefix && (leading_zero s && ltb 1 count))
      then none
      else some (value, rest)
]

-- `read_separator`: from the second item on, the separator comes first.
abbrev separated : {A : Type 0} → ℕ → ℕ → Step A → Step A
separated sep index inner s =
    if index == 0 then inner s else bind (given sep s) (λ u rest. inner rest)

octet : ℕ → Step ℕ
unfolding read_number
octet index = separated b'.' index (read_number 10 3 255 false)

read_ipv4 : Step (List ℕ)
unfolding octet
read_ipv4 s = bind (octet 0 s) λ a s1.
    bind (octet 1 s1)
      λ b s2. bind (octet 2 s2) λ c s3. bind (octet 3 s3) λ d s4. some (a ∷ b ∷ c ∷ d ∷ [], s4)

-- What `read_groups` gives: the octets read, two to a group, and whether an IPv4 tail ended them.
record Groups : Type 0 where
  octets : List ℕ
  ipv4_tail : Bool
  rest : Text

abbrev stop : List ℕ → Bool → Text → Groups
stop octets ipv4_tail rest = record { octets = octets; ipv4_tail = ipv4_tail; rest = rest }

-- `left` groups may still be read, and `index` have been.
read_groups : ℕ → ℕ → List ℕ → Text → Groups
unfolding read_ipv4 read_number
read_groups zero index octets s = stop octets false s
read_groups (suc left) index octets s =
    elim (if ltb 0 left then separated b':' index read_ipv4 s else none) [
      | some (v4, rest) ↦ stop (octets ++ v4) true rest
      | none ↦ elim (separated b':' index (read_number 16 4 0xFFFF true) s) [
        | none ↦ stop octets false s
        | some (g, rest) ↦ read_groups left (index + 1) (octets ++ (g / 256 ∷ (g % 256) ∷ [])) rest
      ]
    ]

abbrev filled : List ℕ → List ℕ → List ℕ
filled head tail = head ++ (replicate (16 - length head - length tail) 0 ++ tail)

abbrev after_head : Groups → Option (List ℕ × Text)
after_head head =
    if length head.octets == 16
    then some (head.octets, head.rest)
    else if head.ipv4_tail
    then none
    else bind (given b':' head.rest) λ u s1. bind (given b':' s1) λ v s2.
      let tail = read_groups (8 - (length head.octets / 2 + 1)) 0 [] s2 in
      some (filled head.octets tail.octets, tail.rest)

abbrev whole : {A : Type 0} → Option (A × Text) → Option A
whole none = none
whole (some (a, [])) = some a
whole (some (a, c ∷ s)) = none

-- The text must be read to its end.
unfoldable pub parse_ipv6 : Text → Option (List ℕ)
unfolding read_groups
parse_ipv6 s = whole (after_head (read_groups 8 0 [] s))

-- An IPv4 text longer than "255.255.255.255" is refused at once.
unfoldable pub parse_ipv4 : Text → Option (List ℕ)
unfolding read_ipv4
parse_ipv4 s = if ltb 15 (length s) then none else whole (read_ipv4 s)
