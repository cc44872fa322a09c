-- ===== src/Prelude/Bytes.antt =====
-- Byte strings compared, cut and split, as `&[u8]` and `str` do it.
use Prim.Native.Nat.{ℕ, ◌-◌}
use mathlib.Core.Path.{◌≡◌, refl, ap, ◌∙◌}
use mathlib.Core.Bool.{Bool, true, false, ◌&&◌}
use mathlib.Core.Option.{Option, none, some}
use mathlib.Core.List.{List, [], ◌∷◌, ◌++◌}
use native.Mathlib.Omega.{arith}
use new_p2p_crawler.Prelude.Tests.{leb, ◌==◌, if◌then◌else◌, le→leb}
use new_p2p_crawler.Prelude.Lists.{length, take, drop, take-append, drop-append, length-append}

abbrev pub list_eq : List ℕ → List ℕ → Bool
list_eq [] [] = true
list_eq [] (y ∷ ys) = false
list_eq (x ∷ xs) [] = false
list_eq (x ∷ xs) (y ∷ ys) = x == y && list_eq xs ys

pub list_eq_self : (xs : List ℕ) → list_eq xs xs ≡ true
list_eq_self [] = refl
list_eq_self (x ∷ xs) = ground (arith, list_eq_self xs)

pub list_eq-eq : (xs ys : List ℕ) → list_eq xs ys ≡ true → xs ≡ ys
list_eq-eq [] [] h = refl
list_eq-eq [] (y ∷ ys) h = cc
list_eq-eq (x ∷ xs) [] h = cc
list_eq-eq (x ∷ xs) (y ∷ ys) h = ground (arith, list_eq-eq xs ys)

-- `&bytes[from..to]`
abbrev pub slice : ℕ → ℕ → List ℕ → List ℕ
slice from to bytes = take (to - from) (drop from bytes)

pub slice-append :
    (from to : ℕ) (xs ys zs : List ℕ)
    → length xs ≡ from
    → length ys ≡ to - from
    → slice from to (xs ++ (ys ++ zs)) ≡ ys
slice-append from to xs ys zs hx hy =
    ap (take (to - from)) (drop-append from xs (ys ++ zs) hx) ∙ take-append (to - from) ys zs hy

-- `str::strip_suffix`
unfoldable pub strip_suffix : List ℕ → List ℕ → Option (List ℕ)
strip_suffix suffix s =
    if leb (length suffix) (length s) && list_eq (drop (length s - length suffix) s) suffix
    then some (take (length s - length suffix) s)
    else none

pub strip_suffix-append : (s suffix : List ℕ) → strip_suffix suffix (s ++ suffix) ≡ some s
unfolding strip_suffix
strip_suffix-append s suffix =
    let e : length (s ++ suffix) - length suffix ≡ length s =
      omega (arith, length-append s suffix) in
    simp (
      e,
      drop-append (length s) s suffix refl,
      take-append (length s) s suffix refl,
      list_eq_self,
      le→leb (length suffix) (length (s ++ suffix)) (omega (arith, length-append s suffix)),
    )

-- `str::split` at a byte: one part more than there are separators.
abbrev cons_first : ℕ → List (List ℕ) → List (List ℕ)
cons_first c [] = (c ∷ []) ∷ []
cons_first c (part ∷ parts) = (c ∷ part) ∷ parts

unfoldable pub split : ℕ → List ℕ → List (List ℕ)
split sep [] = [] ∷ []
split sep (c ∷ s) = if c == sep then [] ∷ split sep s else cons_first c (split sep s)

abbrev pub contains : ℕ → List ℕ → Bool
contains c [] = false
contains c (x ∷ s) = if x == c then true else contains c s
