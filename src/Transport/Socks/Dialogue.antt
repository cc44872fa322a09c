-- ===== src/Transport/Socks/Dialogue.antt =====
-- When the SOCKS5 dialogue of src/transport.rs succeeds, and what it leaves on the stream.
use new_p2p_crawler.Transport.Stream.{
  Stream, Outcome, value, raised, elapsed, Dial, ◌>>=◌, pure, raise, write_all, read_exact,
}
use new_p2p_crawler.Transport.Stream.Reads.{
  Gives, Sound, bind-Sound, pure-Sound, raise-Sound, write_all-Sound, Exactly, read_exact-Sound,
}
use new_p2p_crawler.Transport.Socks.{
  greeting, method_failed, socks5_greeting, connect_request, host_too_long, rep_failed,
  unknown_atyp, address_length, read_reply, socks5_connect, socks5_dialogue,
}
use new_p2p_crawler.Prelude.{
  ◌==◌, if◌then◌else◌, ==_iff, Bool-cases, length, get_or, length-append, ℕ, ◌+◌, ◌≡◌, refl, sym,
  ap, subst, ◌∙◌, ◌⊎◌, inl, inr, not, List, [], ◌∷◌, ◌++◌, append-nil, arith, ltb, not_ltb→le, Text,
  list_eq, list_eq-eq, ◌≤◌,
}

-- BND.ADDR and BND.PORT, by the type of the address.
abbrev pub IsBound : ℕ → List ℕ → Type 0
IsBound atyp body =
    ((atyp ≡ 1) × (length body ≡ 6))
    ⊎ (((atyp ≡ 4) × (length body ≡ 18))
        ⊎ ((atyp ≡ 3) × ((l : ℕ) × (name : List ℕ) × (body ≡ l ∷ name) × (length name ≡ l + 2))))

-- A reply that grants the connection (RFC 1928): REP is zero.
pub record IsGranted (reply : List ℕ) : Type 0 where
  pub version : ℕ
  pub reserved : ℕ
  pub atyp : ℕ
  pub body : List ℕ
  pub layout : reply ≡ version ∷ 0 ∷ reserved ∷ atyp ∷ body
  pub bound : IsBound atyp body

-- The length that the address takes, and the byte in front of it where there is one.
abbrev IsLength : ℕ → ℕ → List ℕ → Type 0
IsLength atyp n xs =
    ((atyp ≡ 1) × (xs ≡ []) × (n ≡ 4))
    ⊎ (((atyp ≡ 4) × (xs ≡ []) × (n ≡ 16)) ⊎ ((atyp ≡ 3) × (xs ≡ n ∷ [])))

IsLength-IsBound :
    (atyp n : ℕ) (xs ys : List ℕ) → IsLength atyp n xs → length ys ≡ n + 2 → IsBound atyp (xs ++ ys)
IsLength-IsBound atyp n xs ys (inl (e, f, g)) h =
    inl (e, omega (arith, ap length f, length-append {0} xs ys))
IsLength-IsBound atyp n xs ys (inr (inl (e, f, g))) h =
    inr (inl (e, omega (arith, ap length f, length-append {0} xs ys)))
IsLength-IsBound atyp n xs ys (inr (inr (e, f))) h = inr (inr (e, (n, ys, ap (λ t. t ++ ys) f, h)))

one_byte : (a : List ℕ) → length a ≡ 1 → a ≡ get_or a 0 0 ∷ []
one_byte [] h = absurd (omega arith)
one_byte (x ∷ []) h = refl
one_byte (x ∷ y ∷ xs) h = absurd (omega arith)

four_bytes :
    (a : List ℕ) → length a ≡ 4 → a ≡ get_or a 0 0 ∷ get_or a 1 0 ∷ get_or a 2 0 ∷ get_or a 3 0 ∷ []
four_bytes (x ∷ y ∷ z ∷ w ∷ []) h = refl
four_bytes [] h = absurd (omega arith)
four_bytes (x ∷ []) h = absurd (omega arith)
four_bytes (x ∷ y ∷ []) h = absurd (omega arith)
four_bytes (x ∷ y ∷ z ∷ []) h = absurd (omega arith)
four_bytes (x ∷ y ∷ z ∷ w ∷ v ∷ xs) h = absurd (omega arith)

module _ (deadline : ℕ) where
  address_length-Sound :
      (atyp : ℕ) → Sound deadline (address_length deadline atyp) [] (IsLength atyp)
  unfolding address_length
  address_length-Sound atyp = elim (Bool-cases (atyp == 1)) [
    | inl e ↦ rw e (pure-Sound deadline 4 (IsLength atyp) (inl (ground arith, refl, refl)))
    | inr e ↦ rw e (elim (Bool-cases (atyp == 4)) [
      | inl f ↦ rw f (pure-Sound deadline 16 (IsLength atyp) (inr (inl (ground arith, refl, refl))))
      | inr f ↦ rw f (elim (Bool-cases (atyp == 3)) [
        | inl g ↦ rw g (
            bind-Sound deadline (λ l. pure (get_or l 0 0)) [] [] (Exactly deadline 1)
              (IsLength atyp)
              (λ l xs h.
                pure-Sound deadline (get_or l 0 0) (λ n ys. IsLength atyp n (xs ++ ys))
                  (inr (inr (ground arith, append-nil xs ∙ h.0 ∙ one_byte l h.1))))
              (read_exact deadline 1) (read_exact-Sound deadline 1))
        | inr g ↦ rw g (raise-Sound deadline (unknown_atyp atyp) [] (IsLength atyp))
      ])
    ])
  ]

  abbrev Granted : Unit {0} → List ℕ → Type 0
  Granted u xs = IsGranted xs

  granted_lem :
      (head xs ys : List ℕ) (n : ℕ)
      → length head ≡ 4
      → get_or head 1 0 ≡ 0
      → IsLength (get_or head 3 0) n xs
      → length ys ≡ n + 2
      → IsGranted (head ++ (xs ++ (ys ++ [])))
  granted_lem head xs ys n h z l m = record {
    version = get_or head 0 0;
    reserved = get_or head 2 0;
    atyp = get_or head 3 0;
    body = xs ++ ys;
    layout =
        ap (λ t. head ++ (xs ++ t)) (append-nil ys)
        ∙ ap (λ t. t ++ (xs ++ ys)) (four_bytes head h)
        ∙ ap (λ t. get_or head 0 0 ∷ t ∷ get_or head 2 0 ∷ get_or head 3 0 ∷ (xs ++ ys)) z;
    bound = IsLength-IsBound (get_or head 3 0) n xs ys l m;
  }

  abbrev after_length : ℕ → Dial (Unit {0})
  after_length addr_len = read_exact deadline (addr_len + 2) >>= λ scratch. pure tt

  abbrev after_head : List ℕ → Dial (Unit {0})
  after_head head =
      if not (get_or head 1 0 == 0)
      then raise (rep_failed (get_or head 1 0))
      else (address_length deadline (get_or head 3 0) >>= after_length)

  after_head-Sound :
      (head xs : List ℕ)
      → Exactly deadline 4 head xs
      → Sound deadline (after_head head) [] (λ u ys. IsGranted (xs ++ ys))
  after_head-Sound head xs h = elim (Bool-cases (get_or head 1 0 == 0)) [
    | inr e ↦ rw e (
        raise-Sound deadline {A = Unit {0}} (rep_failed (get_or head 1 0)) []
          (λ u ys. IsGranted (xs ++ ys)))
    | inl e ↦ rw e (
        bind-Sound deadline after_length [] [] (IsLength (get_or head 3 0))
          (λ u ys. IsGranted (xs ++ ys))
          (λ n ys l.
            bind-Sound deadline (λ scratch. pure tt) [] [] (Exactly deadline (n + 2))
              (λ u zs. IsGranted (xs ++ (ys ++ zs)))
              (λ scratch zs m.
                pure-Sound deadline tt (λ u ws. IsGranted (xs ++ (ys ++ (zs ++ ws))))
                  (subst (λ t. IsGranted (t ++ (ys ++ (zs ++ [])))) (sym h.0)
                    (granted_lem head ys zs n h.1 ((==_iff _ _).0 e) l (ap length m.0 ∙ m.1))))
              (read_exact deadline (n + 2)) (read_exact-Sound deadline (n + 2)))
          (address_length deadline (get_or head 3 0)) (address_length-Sound (get_or head 3 0)))
  ]

  read_reply-Sound : Sound deadline (read_reply deadline) [] Granted
  unfolding read_reply
  read_reply-Sound =
      bind-Sound deadline after_head [] [] (Exactly deadline 4) Granted after_head-Sound
        (read_exact deadline 4) (read_exact-Sound deadline 4)

  abbrev Greeted : Unit {0} → List ℕ → Type 0
  Greeted u xs = xs ≡ 5 ∷ 0 ∷ []

  abbrev after_method : List ℕ → Dial (Unit {0})
  after_method reply = if list_eq reply (5 ∷ 0 ∷ []) then pure tt else raise (method_failed reply)

  after_method-Sound :
      (reply xs : List ℕ)
      → Exactly deadline 2 reply xs
      → Sound deadline (after_method reply) [] (λ u ys. Greeted u (xs ++ ys))
  after_method-Sound reply xs h = elim (Bool-cases (list_eq reply (5 ∷ 0 ∷ []))) [
    | inl e ↦ rw e (
        pure-Sound deadline tt (λ u ys. Greeted u (xs ++ ys))
          (append-nil xs ∙ h.0 ∙ list_eq-eq reply (5 ∷ 0 ∷ []) e))
    | inr e ↦ rw e (
        raise-Sound deadline {A = Unit {0}} (method_failed reply) [] (λ u ys. Greeted u (xs ++ ys)))
  ]

  socks5_greeting-Sound : Sound deadline (socks5_greeting deadline) (greeting ∷ []) Greeted
  unfolding socks5_greeting
  socks5_greeting-Sound =
      bind-Sound deadline (λ _. read_exact deadline 2 >>= after_method) (greeting ∷ []) []
        (λ u xs. xs ≡ []) Greeted
        (λ u xs e.
          subst
            (λ t.
              Sound deadline (read_exact deadline 2 >>= after_method) []
                (λ v ys. Greeted v (t ++ ys)))
            (sym e)
            (bind-Sound deadline after_method [] [] (Exactly deadline 2) Greeted after_method-Sound
              (read_exact deadline 2) (read_exact-Sound deadline 2)))
        (write_all deadline greeting) (write_all-Sound deadline greeting)

  module _ (host : Text) (port : ℕ) where
    abbrev Connected : Unit {0} → List ℕ → Type 0
    Connected u xs = (length host ≤ 255) × IsGranted xs

    with_host :
        length host ≤ 255
        → (s : Stream) (r : Outcome (Unit {0}) × Stream) → Gives deadline [] Granted s r
        → Gives deadline [] Connected s r
    with_host h s (value u, s') (xs, d, e, g) = (xs, d, e, (h, g))
    with_host h s (raised x, s') g = tt
    with_host h s (elapsed, s') g = tt

    socks5_connect-Sound :
        Sound deadline
          (socks5_connect deadline host port)
          (connect_request host port ∷ [])
          Connected
    unfolding socks5_connect
    socks5_connect-Sound = elim (Bool-cases (ltb 255 (length host))) [
      | inl e ↦ rw e (
          raise-Sound deadline {A = Unit {0}} host_too_long (connect_request host port ∷ [])
            Connected)
      | inr e ↦ rw e (
          bind-Sound deadline (λ _. read_reply deadline) (connect_request host port ∷ []) []
            (λ u xs. xs ≡ []) Connected
            (λ u xs h.
              subst (λ t. Sound deadline (read_reply deadline) [] (λ v ys. Connected v (t ++ ys)))
                (sym h)
                (λ s.
                  with_host (not_ltb→le 255 (length host) e) s (read_reply deadline s)
                    (read_reply-Sound s)))
            (write_all deadline (connect_request host port))
            (write_all-Sound deadline (connect_request host port)))
    ]

    -- What was read and written where the dialogue succeeded.
    abbrev pub Accepted : Unit {0} → List ℕ → Type 0
    Accepted u xs =
        (length host ≤ 255) × ((reply : List ℕ) × (xs ≡ 5 ∷ 0 ∷ reply) × IsGranted reply)

    accepted :
        (s : Stream) (r : Outcome (Unit {0}) × Stream)
        → Gives deadline (connect_request host port ∷ []) Connected s r
        → Gives deadline (connect_request host port ∷ []) (λ u xs. Accepted u (5 ∷ 0 ∷ xs)) s r
    accepted s (value u, s') (xs, d, e, (h, g)) = (xs, d, e, (h, (xs, refl, g)))
    accepted s (raised x, s') g = tt
    accepted s (elapsed, s') g = tt

    -- The SOCKS5 dialogue succeeds only where the name has at most 255 bytes and the proxy has sent,
    -- by the deadline, the bytes 05 00 and then a whole reply that grants the connection; exactly
    -- these bytes are read, and the greeting and the request are all that is written.
    pub socks5_dialogue-Sound :
        Sound deadline
          (socks5_dialogue deadline host port)
          (greeting ∷ connect_request host port ∷ [])
          Accepted
    unfolding socks5_dialogue
    socks5_dialogue-Sound =
        bind-Sound deadline (λ _. socks5_connect deadline host port) (greeting ∷ [])
          (connect_request host port ∷ []) Greeted Accepted
          (λ u xs h.
            subst
              (λ t.
                Sound deadline (socks5_connect deadline host port) (connect_request host port ∷ [])
                  (λ v ys. Accepted v (t ++ ys)))
              (sym h)
              (λ s. accepted s (socks5_connect deadline host port s) (socks5_connect-Sound s)))
          (socks5_greeting deadline) socks5_greeting-Sound
