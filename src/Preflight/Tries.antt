-- ===== src/Preflight/Tries.antt =====
-- What `probe_ip` of src/preflight.rs comes to: the first five addresses of the family.
use new_p2p_crawler.Dns.{Resolver, seeds, resolve_seed}
use new_p2p_crawler.Preflight.{
  Tried, connected, tried, Surroundings, is_wanted, accepts, try_ips, try_seeds, ProbeResult,
  probe_result, probe_ip, reachable, unreachable,
}
use new_p2p_crawler.Transport.Dial.{IpAddr}
use new_p2p_crawler.Prelude.{
  if◌then◌else◌, leb, Bool-cases, take, length, min, arith, Text, ℕ, ◌+◌, ◌-◌, ◌≤◌, ◌≡◌, refl, sym,
  ap, ◌∙◌, inl, inr, Bool, true, false, ◌||◌, List, [], ◌∷◌, ◌++◌, zero, suc, le→leb, lt→not_leb,
  leb→le, not_leb→lt, text, ◌<◌,
}

-- All addresses of the seeds, in order.
pub all_ips : Resolver → List Text → List IpAddr
all_ips lookup [] = []
all_ips lookup (name ∷ names) = resolve_seed lookup name ++ all_ips lookup names

module _ (s : Surroundings) (want_ipv6 : Bool) (connect_timeout : ℕ) where
  pub wanted : List IpAddr → List IpAddr
  wanted [] = []
  wanted (ip ∷ ips) =
      if is_wanted s want_ipv6 connect_timeout ip then ip ∷ wanted ips else wanted ips

  -- Some one of these accepts, where the first of them is the `n`-th try.
  pub any_accepts : ℕ → List IpAddr → Bool
  any_accepts n [] = false
  any_accepts n (ip ∷ ips) = accepts s want_ipv6 connect_timeout n ip || any_accepts (n + 1) ips

  -- At most `k` tries from the `n`-th on.
  go : ℕ → ℕ → List IpAddr → Tried
  go k n [] = tried n
  go zero n (ip ∷ ips) = tried n
  go (suc k) n (ip ∷ ips) = elim (accepts s want_ipv6 connect_timeout n ip) [
    | true ↦ connected
    | false ↦ go k (n + 1) ips
  ]

  wanted-append : (xs ys : List IpAddr) → wanted (xs ++ ys) ≡ wanted xs ++ wanted ys
  unfolding wanted
  wanted-append [] ys = refl
  wanted-append (x ∷ xs) ys = elim (Bool-cases (is_wanted s want_ipv6 connect_timeout x)) [
    | inl h ↦ rw h (ap (λ t. x ∷ t) (wanted-append xs ys))
    | inr h ↦ rw h (wanted-append xs ys)
  ]

  go-zero : (n : ℕ) (ips : List IpAddr) → go 0 n ips ≡ tried n
  unfolding go
  go-zero n [] = refl
  go-zero n (_ ∷ _) = refl

  go-spent : (n : ℕ) (ips : List IpAddr) → 5 ≤ n → go (5 - n) n ips ≡ tried n
  go-spent n ips h =
      let spent : 5 - n ≡ 0 = omega (arith, h) in ap (λ j. go j n ips) spent ∙ go-zero n ips

  after_try :
      (k n : ℕ) (ips : List IpAddr)
      → n + suc k ≡ 5
      → ((j : ℕ)
          → n + 1 + suc j ≡ 5
          → try_ips s want_ipv6 connect_timeout (n + 1) ips ≡ go (suc j) (n + 1) (wanted ips))
      → elim (leb 5 (n + 1)) [
        | true ↦ tried (n + 1)
        | false ↦ try_ips s want_ipv6 connect_timeout (n + 1) ips
      ]
        ≡ go k (n + 1) (wanted ips)
  after_try zero n ips h ih =
      rw (le→leb 5 (n + 1) (omega (arith, h))) (sym (go-zero (n + 1) (wanted ips)))
  after_try (suc k) n ips h ih =
      rw (lt→not_leb (n + 1) 5 (omega (arith, h))) (ih k (omega (arith, h)))

  try_ips-go :
      (k n : ℕ) (ips : List IpAddr)
      → n + suc k ≡ 5
      → try_ips s want_ipv6 connect_timeout n ips ≡ go (suc k) n (wanted ips)
  unfolding try_ips go wanted
  try_ips-go k n [] h = refl
  try_ips-go k n (x ∷ ips) h = elim (Bool-cases (is_wanted s want_ipv6 connect_timeout x)) [
    | inr e ↦ rw (e, try_ips) (try_ips-go k n ips h)
    | inl e ↦ elim (Bool-cases (accepts s want_ipv6 connect_timeout n x)) [
      | inl a ↦ rw (e, try_ips, go, a) refl
      | inr a ↦ rw (e, try_ips, go, a) (after_try k n ips h (λ j. try_ips-go j (n + 1) ips))
    ]
  ]

  -- What is tried on, with what is left of the five tries.
  continue : Tried → List IpAddr → Tried
  continue connected ips = connected
  continue (tried n) ips = go (5 - n) n ips

  go-append :
      (k n : ℕ) (xs ys : List IpAddr) → n + k ≡ 5 → go k n (xs ++ ys) ≡ continue (go k n xs) ys
  unfolding go continue
  go-append k n [] ys h = ap (λ j. go j n ys) (omega (arith, h))
  go-append zero n (x ∷ xs) ys h = sym (go-spent n ys (omega (arith, h)))
  go-append (suc k) n (x ∷ xs) ys h = elim (Bool-cases (accepts s want_ipv6 connect_timeout n x)) [
    | inl a ↦ rw (a, go) refl
    | inr a ↦ rw (a, go) (go-append k (n + 1) xs ys (omega (arith, h)))
  ]

  AtMostFive : Tried → Type 0
  AtMostFive connected = Unit
  AtMostFive (tried n) = n ≤ 5

  go-AtMostFive : (k n : ℕ) (xs : List IpAddr) → n + k ≡ 5 → AtMostFive (go k n xs)
  unfolding go AtMostFive
  go-AtMostFive k n [] h = omega (arith, h)
  go-AtMostFive zero n (x ∷ xs) h = omega (arith, h)
  go-AtMostFive (suc k) n (x ∷ xs) h = elim (Bool-cases (accepts s want_ipv6 connect_timeout n x)) [
    | inl a ↦ rw (a, go) tt
    | inr a ↦ rw (a, go) (go-AtMostFive k (n + 1) xs (omega (arith, h)))
  ]

  next_seed :
      (n : ℕ) (name : Text) (names : List Text)
      → n < 5
      → ((t : Tried)
          → AtMostFive t
          → try_seeds s want_ipv6 connect_timeout t names
            ≡ continue t (wanted (all_ips s.lookup names)))
      → try_seeds s want_ipv6 connect_timeout
          (try_ips s want_ipv6 connect_timeout n (resolve_seed s.lookup name))
          names
        ≡ go (5 - n) n (wanted (resolve_seed s.lookup name) ++ wanted (all_ips s.lookup names))
  next_seed n name names h ih =
      let ips = resolve_seed s.lookup name in
      let rest = wanted (all_ips s.lookup names) in
      ap (λ t. try_seeds s want_ipv6 connect_timeout t names)
        (try_ips-go (4 - n) n ips (omega (arith, h)))
      ∙ ih (go (suc (4 - n)) n (wanted ips))
          (go-AtMostFive (suc (4 - n)) n (wanted ips) (omega (arith, h)))
      ∙ sym (go-append (suc (4 - n)) n (wanted ips) rest (omega (arith, h)))
      ∙ ap (λ j. go j n (wanted ips ++ rest)) (omega (arith, h))

  try_seeds-continue :
      (t : Tried) (names : List Text)
      → AtMostFive t
      → try_seeds s want_ipv6 connect_timeout t names ≡ continue t (wanted (all_ips s.lookup names))
  unfolding try_seeds continue AtMostFive all_ips go wanted
  try_seeds-continue connected names v = refl
  try_seeds-continue (tried n) [] v = refl
  try_seeds-continue (tried n) (name ∷ names) v = elim (Bool-cases (leb 5 n)) [
    | inl e ↦ rw (e, try_seeds) (sym (go-spent n _ (leb→le 5 n e)))
    | inr e ↦
        rw (e, try_seeds, wanted-append (resolve_seed s.lookup name) (all_ips s.lookup names))
          (next_seed n name names (not_leb→lt 5 n e) (λ t. try_seeds-continue t names))
  ]

  -- The first of the tries that accepts, or how many there were.
  first_tries : ℕ → ℕ → List IpAddr → Tried
  first_tries k n xs =
      if any_accepts n (take k xs) then connected else tried (n + min k (length xs))

  go-first_tries : (k n : ℕ) (xs : List IpAddr) → go k n xs ≡ first_tries k n xs
  unfolding go first_tries any_accepts
  go-first_tries zero n [] = ap tried (omega arith)
  go-first_tries (suc k) n [] = ap tried (omega arith)
  go-first_tries zero n (x ∷ xs) = ap tried (omega arith)
  go-first_tries (suc k) n (x ∷ xs) = elim (Bool-cases (accepts s want_ipv6 connect_timeout n x)) [
    | inl a ↦ rw (a, go, any_accepts) refl
    | inr a ↦
        rw (a, go, any_accepts, go-first_tries k (n + 1) xs)
          (ap (λ m. if any_accepts (n + 1) (take k xs) then connected else tried m) (omega arith))
  ]

  -- What the addresses of the family, in order, say of the network.
  abbrev pub verdict : List IpAddr → ProbeResult
  unfolding text
  verdict [] = unreachable (text "no seed addresses resolved for this family")
  verdict (x ∷ xs) =
      if any_accepts 0 (take 5 (x ∷ xs))
      then reachable
      else unreachable (text "no resolved node accepted a connection")

  some_tried :
      (n : ℕ)
      → 0 < n
      → probe_result s want_ipv6 connect_timeout (tried n)
        ≡ unreachable (text "no resolved node accepted a connection")
  unfolding probe_result text
  some_tried zero h = ground arith
  some_tried (suc n) h = refl

  first_tries-verdict :
      (xs : List IpAddr)
      → probe_result s want_ipv6 connect_timeout (first_tries 5 0 xs) ≡ verdict xs
  unfolding first_tries any_accepts verdict probe_result text
  first_tries-verdict [] = refl
  first_tries-verdict (x ∷ xs) = elim (Bool-cases (any_accepts 0 (take 5 (x ∷ xs)))) [
    | inl a ↦ rw a refl
    | inr a ↦ rw a (some_tried (0 + min 5 (length (x ∷ xs))) (omega arith))
  ]

  -- The probe of an IP family, two loops over the seeds and their addresses that stop at the fifth
  -- try, gives what the first five addresses of the family say, all seeds taken in order: reachable
  -- if one of them accepts the connection, else which of the two failures it is, no address at all
  -- or no one that accepted.
  pub probe_ip-verdict :
      probe_ip s want_ipv6 connect_timeout ≡ verdict (wanted (all_ips s.lookup seeds))
  unfolding probe_ip continue AtMostFive
  probe_ip-verdict =
      ap (probe_result s want_ipv6 connect_timeout) (
        try_seeds-continue (tried 0) seeds (omega arith)
        ∙ go-first_tries 5 0 (wanted (all_ips s.lookup seeds)))
      ∙ first_tries-verdict (wanted (all_ips s.lookup seeds))
