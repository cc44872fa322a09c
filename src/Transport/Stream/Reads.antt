-- ===== src/Transport/Stream/Reads.antt =====
-- What the reads of a stream of src/transport.rs give, however its bytes are cut into arrivals.
use new_p2p_crawler.Transport.Connection.{failed, received, Arrival, ReadEvent, Write}
use new_p2p_crawler.Transport.Stream.{
  Stream, Outcome, value, raised, elapsed, Dial, then_dial, ◌>>=◌, pure, raise, write_next,
  write_all, rest_of, take_event, read_next, read_byte, or_eof, early_eof, read_exact, write_ended,
  write_event,
}
use new_p2p_crawler.Io.{IoError}
use new_p2p_crawler.Prelude.{
  ltb, not_ltb→le, Bool-cases, length, ℕ, zero, suc, ◌≤◌, ◌≡◌, refl, sym, ap, subst, ◌∙◌, inl, inr,
  Option, none, some, List, [], ◌∷◌, ◌++◌, append-nil, append_assoc, ◌+◌,
}

-- The arrivals bring these bytes by the deadline, and leave the others.
pub data Delivers (deadline : ℕ) : List Arrival → List ℕ → List Arrival → Type 0 where
  nothing : (arrivals : List Arrival) → Delivers deadline arrivals [] arrivals
  byte :
      (a : Arrival) (arrivals : List Arrival) (b : ℕ) (chunk bytes : List ℕ) (rest : List Arrival)
      → a.event ≡ received (b ∷ chunk)
      → a.ready ≤ deadline
      → Delivers deadline (rest_of a.ready chunk arrivals) bytes rest
      → Delivers deadline (a ∷ arrivals) (b ∷ bytes) rest

pub Delivers-append :
    {deadline : ℕ} {arrivals middle rest : List Arrival} {xs ys : List ℕ}
    → Delivers deadline arrivals xs middle
    → Delivers deadline middle ys rest
    → Delivers deadline arrivals (xs ++ ys) rest
Delivers-append (nothing arrivals) k = k
Delivers-append {ys} (byte a arrivals b chunk bytes middle e t h) k =
    byte a arrivals b chunk (bytes ++ ys) _ e t (Delivers-append h k)

-- A read under the deadline gave a value: what it consumed and what else it changed.
pub record Consumed (deadline : ℕ) (s s' : Stream) (bytes : List ℕ) : Type 0 where
  pub taken : Delivers deadline s.arrivals bytes s'.arrivals
  pub sent : s'.sent ≡ s.sent

-- A dialogue that gives a value has read bytes with `P`, and written `out`.
abbrev pub Gives :
    {A : Type 0} → ℕ → List (List ℕ) → (A → List ℕ → Type 0) → Stream → Outcome A × Stream → Type 0
Gives deadline out P s (value a, s') =
    (bytes : List ℕ) × Delivers deadline s.arrivals bytes s'.arrivals
    × (s'.sent ≡ s.sent ++ out)
    × P a bytes
Gives deadline out P s (raised e, s') = Unit
Gives deadline out P s (elapsed, s') = Unit

abbrev pub Sound : {A : Type 0} → ℕ → Dial A → List (List ℕ) → (A → List ℕ → Type 0) → Type 0
Sound deadline m out P = (s : Stream) → Gives deadline out P s (m s)

module _ {A B : Type 0} (deadline : ℕ) (k : A → Dial B) (out after : List (List ℕ))
    (P : A → List ℕ → Type 0) (Q : B → List ℕ → Type 0)
    (next : (a : A) (xs : List ℕ)
      → P a xs
      → Sound deadline (k a) after (λ b ys. Q b (xs ++ ys))) where
  later :
      (s s' : Stream) (xs : List ℕ) (r : Outcome B × Stream)
      → Delivers deadline s.arrivals xs s'.arrivals
      → s'.sent ≡ s.sent ++ out
      → Gives deadline after (λ b ys. Q b (xs ++ ys)) s' r
      → Gives deadline (out ++ after) Q s r
  later s s' xs (value b, s'') h e (ys, h', e', q) = (
    xs ++ ys,
    Delivers-append h h',
    e' ∙ ap (λ t. t ++ after) e ∙ append_assoc s.sent out after,
    q,
  )
  later s s' xs (raised x, s'') h e q = tt
  later s s' xs (elapsed, s'') h e q = tt

  step :
      (s : Stream) (r : Outcome A × Stream)
      → Gives deadline out P s r
      → Gives deadline (out ++ after) Q s (then_dial k r)
  step s (value a, s') (xs, h, e, p) = later s s' xs (k a s') h e (next a xs p s')
  step s (raised x, s') h = tt
  step s (elapsed, s') h = tt

  pub bind-Sound : (m : Dial A) → Sound deadline m out P → Sound deadline (m >>= k) (out ++ after) Q
  bind-Sound m h s = step s (m s) (h s)

module _ (deadline : ℕ) where
  pub pure-Sound :
      {A : Type 0} (a : A) (P : A → List ℕ → Type 0) → P a [] → Sound deadline (pure a) [] P
  pure-Sound a P h s = ([], nothing s.arrivals, sym (append-nil s.sent), h)

  pub raise-Sound :
      {A : Type 0} (e : IoError) (out : List (List ℕ)) (P : A → List ℕ → Type 0)
      → Sound deadline (raise e) out P
  raise-Sound e out P s = tt

  pub write_all-Sound :
      (bytes : List ℕ) → Sound deadline (write_all deadline bytes) (bytes ∷ []) (λ u xs. xs ≡ [])
  unfolding write_all
  write_all-Sound bytes s = go s.writes
    where
      ended :
          (now : ℕ) (error : Option IoError) (rest : List Write)
          → Gives deadline (bytes ∷ []) (λ u xs. xs ≡ []) s (write_ended s bytes now error rest)
      ended now none rest = ([], nothing s.arrivals, refl, refl)
      ended now (some e) rest = tt

      event :
          (takes : Option ℕ) (error : Option IoError) (rest : List Write)
          → Gives deadline
              (bytes ∷ [])
              (λ u xs. xs ≡ [])
              s
              (write_event deadline s bytes takes error rest)
      event none error rest = tt
      event (some ms) error rest = elim (Bool-cases (ltb deadline (s.now + ms))) [
        | inl late ↦ rw late tt
        | inr time ↦ rw time (ended (s.now + ms) error rest)
      ]

      go :
          (writes : List Write)
          → Gives deadline (bytes ∷ []) (λ u xs. xs ≡ []) s (write_next deadline s bytes writes)
      go [] = ([], nothing s.arrivals, refl, refl)
      go (w ∷ rest) = event w.takes w.error rest

  abbrev Read : Option ℕ → List ℕ → Type 0
  Read none xs = xs ≡ []
  Read (some b) xs = xs ≡ b ∷ []

  take_event-Gives :
      (s : Stream) (a : Arrival) (arrivals : List Arrival) (event : ReadEvent)
      → s.arrivals ≡ a ∷ arrivals
      → a.event ≡ event
      → a.ready ≤ deadline
      → Gives deadline [] Read s (take_event s a arrivals event)
  take_event-Gives s a arrivals (failed e) h ev t = tt
  take_event-Gives s a arrivals (received []) h ev t =
      ([], nothing s.arrivals, sym (append-nil s.sent), refl)
  take_event-Gives s a arrivals (received (b ∷ bs)) h ev t = (
    b ∷ [],
    subst (λ x. Delivers deadline x (b ∷ []) (rest_of a.ready bs arrivals)) (sym h)
        (byte a arrivals b bs [] _ ev t (nothing _)),
    sym (append-nil s.sent),
    refl,
  )

  read_next-Gives :
      (s : Stream) (arrivals : List Arrival)
      → s.arrivals ≡ arrivals
      → Gives deadline [] Read s (read_next deadline s arrivals)
  read_next-Gives s [] h = tt
  read_next-Gives s (a ∷ arrivals) h = elim (Bool-cases (ltb deadline a.ready)) [
    | inl e ↦ rw e tt
    | inr e ↦ rw e (take_event-Gives s a arrivals a.event h refl (not_ltb→le deadline a.ready e))
  ]

  read_byte-Sound : Sound deadline (read_byte deadline) [] Read
  unfolding read_byte
  read_byte-Sound s = read_next-Gives s s.arrivals refl

  -- Exactly the bytes read.
  abbrev pub Exactly : ℕ → List ℕ → List ℕ → Type 0
  Exactly n a xs = (xs ≡ a) × (length a ≡ n)

  abbrev rest_after : ℕ → ℕ → Dial (List ℕ)
  rest_after n b = read_exact deadline n >>= λ bytes. pure (b ∷ bytes)

  after_byte :
      (n : ℕ)
      → Sound deadline (read_exact deadline n) [] (Exactly n)
      → (next : Option ℕ) (xs : List ℕ) → Read next xs
      → Sound deadline (or_eof next >>= rest_after n) [] (λ a ys. Exactly (suc n) a (xs ++ ys))
  after_byte n ih none xs e = raise-Sound early_eof [] (λ a ys. Exactly (suc n) a (xs ++ ys))
  after_byte n ih (some b) xs e =
      bind-Sound deadline (λ bytes. pure (b ∷ bytes)) [] [] (Exactly n)
        (λ a ys. Exactly (suc n) a (xs ++ ys))
        (λ bytes ys h.
          pure-Sound (b ∷ bytes) (λ a zs. Exactly (suc n) a (xs ++ (ys ++ zs)))
            (ap (λ t. t ++ (ys ++ [])) e ∙ ap (λ t. b ∷ t) (append-nil ys ∙ h.0), ap suc h.1))
        (read_exact deadline n) ih

  pub read_exact-Sound : (n : ℕ) → Sound deadline (read_exact deadline n) [] (Exactly n)
  unfolding read_exact
  read_exact-Sound zero = pure-Sound [] (Exactly 0) (refl, refl)
  read_exact-Sound (suc n) =
      bind-Sound deadline (λ next. or_eof next >>= rest_after n) [] [] Read (Exactly (suc n))
        (after_byte n (read_exact-Sound n)) (read_byte deadline) read_byte-Sound
