-- ===== src/Transport/Stream/Served.antt =====
-- Reads of a stream of src/transport.rs whose bytes come in time.
use new_p2p_crawler.Transport.Connection.{Arrival}
use new_p2p_crawler.Transport.Stream.{
  Stream, value, elapsed, Dial, then_dial, ◌>>=◌, pure, write_all, write_next, rest_of, take_event,
  read_next, read_byte, or_eof, read_exact,
}
use new_p2p_crawler.Transport.Stream.Reads.{Delivers, nothing, byte}
use new_p2p_crawler.Prelude.{
  length, ℕ, ◌≡◌, refl, sym, ap, subst, ◌∙◌, some, List, [], ◌∷◌, ◌++◌, append-nil, append_assoc,
  if◌then◌else◌, le→not_ltb, max,
}

Delivers-nil :
    {deadline : ℕ} {arrivals rest : List Arrival} {xs : List ℕ}
    → Delivers deadline arrivals xs rest
    → xs ≡ []
    → arrivals ≡ rest
Delivers-nil (nothing arrivals) e = refl
Delivers-nil (byte a arrivals b chunk bytes rest x t h) e = cc

module _ {deadline : ℕ} where
  Delivers_split :
      (xs ys : List ℕ) {zs : List ℕ} {arrivals rest : List Arrival}
      → Delivers deadline arrivals zs rest
      → zs ≡ xs ++ ys
      → (middle : List Arrival) × Delivers deadline arrivals xs middle
        × Delivers deadline middle ys rest
  Delivers_split [] ys {arrivals} {rest} h e =
      (arrivals, nothing arrivals, subst (λ t. Delivers deadline arrivals t rest) e h)
  Delivers_split (x ∷ xs) ys (nothing arrivals) e = cc
  Delivers_split (x ∷ xs) ys (byte a arrivals b chunk bytes rest ev t h) e =
      let tails : bytes ≡ xs ++ ys = cc in
      let heads : b ≡ x = cc in
      let (middle, first, second) = Delivers_split xs ys h tails in
      (
        middle,
        subst (λ c. Delivers deadline (a ∷ arrivals) (c ∷ xs) middle) heads
            (byte a arrivals b chunk xs middle ev t first),
        second,
      )

-- A dialogue that finds all of `xs` in time reads them, gives `a`, and writes `out`.
abbrev pub Completes : {A : Type 0} → ℕ → Dial A → List ℕ → A → List (List ℕ) → Type 0
Completes deadline m xs a out =
    (s : Stream) (rest : List Arrival)
    → s.writes ≡ []
    → Delivers deadline s.arrivals xs rest
    → (s' : Stream) × (m s ≡ (value a, s'))
      × (s'.arrivals ≡ rest)
      × (s'.writes ≡ [])
      × (s'.sent ≡ s.sent ++ out)

module _ (deadline : ℕ) where
  pub bind-Completes :
      {A B : Type 0} (m : Dial A) (k : A → Dial B) (xs ys : List ℕ) (a : A) (b : B)
      (out after : List (List ℕ))
      → Completes deadline m xs a out
      → Completes deadline (k a) ys b after
      → Completes deadline (m >>= k) (xs ++ ys) b (out ++ after)
  bind-Completes m k xs ys a b out after hm hk s rest w d =
      let (middle, first, second) = Delivers_split xs ys d refl in
      let (s', e, at, w', o) = hm s middle w first in
      let (s'', e', at', w'', o') =
        hk s' rest w' (subst (λ t. Delivers deadline t ys rest) (sym at) second) in
      (
        s'',
        ap (then_dial k) e ∙ e',
        at',
        w'',
        o' ∙ ap (λ t. t ++ after) o ∙ append_assoc s.sent out after,
      )

  pub pure-Completes : {A : Type 0} (a : A) → Completes deadline (pure a) [] a []
  pure-Completes a s rest w d = (s, refl, Delivers-nil d refl, w, sym (append-nil s.sent))

  pub write_all-Completes :
      (bytes : List ℕ) → Completes deadline (write_all deadline bytes) [] tt (bytes ∷ [])
  unfolding write_all
  write_all-Completes bytes s rest w d = (
    record s { sent = s.sent ++ (bytes ∷ []) },
    ap (write_next deadline s bytes) w,
    Delivers-nil d refl,
    w,
    refl,
  )

  read_next-byte :
      (s : Stream) (b : ℕ) {arrivals rest : List Arrival} {xs : List ℕ}
      → Delivers deadline arrivals xs rest
      → xs ≡ b ∷ []
      → (now : ℕ) × (read_next deadline s arrivals
          ≡ (value (some b), record s { arrivals = rest; now = now }))
  read_next-byte s b (nothing arrivals) e = cc
  read_next-byte s b (byte a arrivals c chunk bytes rest ev t h) e =
      let tails : bytes ≡ [] = cc in
      let heads : c ≡ b = cc in
      (
        max s.now a.ready,
        ap
              (λ x.
                if x
                then (elapsed, record s { now = max s.now deadline })
                else take_event s a arrivals a.event)
              (le→not_ltb deadline a.ready t)
            ∙ ap (take_event s a arrivals) ev
            ∙ ap
                (λ x. (
                  value (some x),
                  record s { arrivals = rest_of a.ready chunk arrivals; now = max s.now a.ready },
                ))
                heads
            ∙ ap (λ x. (value (some b), record s { arrivals = x; now = max s.now a.ready }))
                (Delivers-nil h tails),
      )

  read_byte-Completes : (b : ℕ) → Completes deadline (read_byte deadline) (b ∷ []) (some b) []
  unfolding read_byte
  read_byte-Completes b s rest w d =
      let (now, e) = read_next-byte s b d refl in
      (record s { arrivals = rest; now = now }, e, refl, w, sym (append-nil s.sent))

  pub read_exact-Completes :
      (xs : List ℕ) → Completes deadline (read_exact deadline (length xs)) xs xs []
  unfolding read_exact
  read_exact-Completes [] = pure-Completes []
  read_exact-Completes (x ∷ xs) =
      bind-Completes (read_byte deadline)
        (λ next. or_eof next >>= λ b. read_exact deadline (length xs) >>= λ bytes. pure (b ∷ bytes))
        (x ∷ []) xs (some x) (x ∷ xs) [] [] (read_byte-Completes x)
        (subst
          (λ t.
            Completes deadline (read_exact deadline (length xs) >>= λ bytes. pure (x ∷ bytes)) t
              (x ∷ xs) [])
          (append-nil xs)
          (bind-Completes (read_exact deadline (length xs)) (λ bytes. pure (x ∷ bytes)) xs [] xs
            (x ∷ xs) [] [] (read_exact-Completes xs) (pure-Completes (x ∷ xs))))
