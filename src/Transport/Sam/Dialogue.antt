-- ===== src/Transport/Sam/Dialogue.antt =====
-- When the SAM dialogues of src/transport.rs succeed.
use new_p2p_crawler.Transport.Stream.{
  Stream, Outcome, value, raised, elapsed, Dial, ◌>>=◌, pure, raise, write_all,
}
use new_p2p_crawler.Transport.Stream.Reads.{
  Gives, Sound, bind-Sound, pure-Sound, raise-Sound, write_all-Sound,
}
use new_p2p_crawler.Transport.Sam.{
  is_good, refused, hello_version, sam_hello, sam_read_line, stream_connect, connect_dialogue,
}
use new_p2p_crawler.Transport.Sam.Lines.{IsLine, sam_read_line-Sound}
use new_p2p_crawler.Io.{IoError}
use new_p2p_crawler.Prelude.{
  if◌then◌else◌, Bool-cases, text, Text, ℕ, ◌≡◌, refl, sym, subst, inl, inr, true, List, [], ◌∷◌,
  ◌++◌, append-nil,
}

module _ (deadline : ℕ) where
  -- A line with the status and `RESULT=OK`.
  abbrev pub IsGood : Text → List ℕ → Type 0
  IsGood status xs = (reply : Text) × IsLine deadline [] reply xs × (is_good status reply ≡ true)

  -- A line is asked for with `out`, and judged.
  abbrev ask : {A : Type 0} → List ℕ → Text → A → (Text → IoError) → Dial A
  ask out status a error = write_all deadline out >>= λ _. sam_read_line deadline >>= λ reply.
      if is_good status reply then pure a else raise (error reply)

  abbrev Answered : {A : Type 0} → A → Text → A → List ℕ → Type 0
  Answered a status b xs = (b ≡ a) × IsGood status xs

  module _ {A : Type 0} (out : List ℕ) (status : Text) (a : A) (error : Text → IoError) where
    judge-Sound :
        (reply : Text) (xs : List ℕ)
        → IsLine deadline [] reply xs
        → Sound deadline
            (if is_good status reply then pure a else raise (error reply))
            []
            (λ b ys. Answered a status b (xs ++ ys))
    judge-Sound reply xs l = elim (Bool-cases (is_good status reply)) [
      | inl e ↦ rw e (
          pure-Sound deadline a (λ b ys. Answered a status b (xs ++ ys))
            (refl, rw append-nil (reply, l, e)))
      | inr e ↦
          rw e
            (raise-Sound deadline {A = A} (error reply) [] (λ b ys. Answered a status b (xs ++ ys)))
    ]

    ask-Sound : Sound deadline (ask out status a error) (out ∷ []) (Answered a status)
    ask-Sound =
        bind-Sound deadline
          (λ _. sam_read_line deadline >>= λ reply.
            if is_good status reply then pure a else raise (error reply))
          (out ∷ []) [] (λ u xs. xs ≡ []) (Answered a status)
          (λ u xs e.
            subst
              (λ t.
                Sound deadline
                  (sam_read_line deadline >>= λ reply.
                    if is_good status reply then pure a else raise (error reply))
                  [] (λ b ys. Answered a status b (t ++ ys)))
              (sym e)
              (bind-Sound deadline
                (λ reply. if is_good status reply then pure a else raise (error reply)) [] []
                (IsLine deadline []) (Answered a status) judge-Sound (sam_read_line deadline)
                (sam_read_line-Sound deadline)))
          (write_all deadline out) (write_all-Sound deadline out)

  sam_hello-Sound :
      Sound deadline (sam_hello deadline) (hello_version ∷ []) (Answered tt (text "HELLO REPLY"))
  unfolding sam_hello
  sam_hello-Sound =
      ask-Sound hello_version (text "HELLO REPLY") tt (refused (text "SAM HELLO failed: "))

  -- Two good lines, one behind the other.
  abbrev pub TwoLines : Text → List ℕ → Type 0
  TwoLines status zs =
      (xs : List ℕ) × (ys : List ℕ) × (zs ≡ xs ++ ys)
      × IsGood (text "HELLO REPLY") xs
      × IsGood status ys

  second :
      {A : Type 0} (a : A) (status : Text) (out : List (List ℕ)) (xs : List ℕ)
      → IsGood (text "HELLO REPLY") xs
      → (s : Stream) (r : Outcome A × Stream) → Gives deadline out (Answered a status) s r
      → Gives deadline out (λ b ys. TwoLines status (xs ++ ys)) s r
  second a status out xs g s (value b, s') (ys, d, e, h) = (ys, d, e, (xs, ys, refl, g, h.1))
  second a status out xs g s (raised x, s') h = tt
  second a status out xs g s (elapsed, s') h = tt

  -- A SAM stream is connected only where the router has sent, by the deadline, two lines of at most
  -- 4096 bytes that both say RESULT=OK, the first with HELLO REPLY and the second with STREAM
  -- STATUS; exactly these lines are read, and the greeting and the request for the destination are
  -- all that is written.
  pub connect_dialogue-Sound :
      (session_id host : Text)
      → Sound deadline
          (connect_dialogue deadline session_id host)
          (hello_version ∷ stream_connect session_id host ∷ [])
          (λ u zs. TwoLines (text "STREAM STATUS") zs)
  unfolding connect_dialogue
  connect_dialogue-Sound session_id host =
      let status = text "STREAM STATUS" in
      bind-Sound deadline
        (λ _.
          ask (stream_connect session_id host) status tt
            (refused (text "SAM stream connect failed: ")))
        (hello_version ∷ []) (stream_connect session_id host ∷ [])
        (Answered tt (text "HELLO REPLY")) (λ u zs. TwoLines status zs)
        (λ u xs h s.
          second tt status (stream_connect session_id host ∷ []) xs h.1 s
            (ask (stream_connect session_id host) status tt
              (refused (text "SAM stream connect failed: ")) s)
            (ask-Sound (stream_connect session_id host) status tt
              (refused (text "SAM stream connect failed: ")) s))
        (sam_hello deadline) sam_hello-Sound
