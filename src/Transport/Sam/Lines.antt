-- ===== src/Transport/Sam/Lines.antt =====
-- Which bytes `sam_read_line` of src/transport.rs takes off the stream.
use new_p2p_crawler.Transport.Connection.{Arrival, ReadEvent, failed, received}
use new_p2p_crawler.Transport.Stream.{Stream, Outcome, value, raised, elapsed, rest_of}
use new_p2p_crawler.Transport.Stream.Reads.{Delivers, Delivers-append, nothing, byte, Gives, Sound}
use new_p2p_crawler.Transport.Sam.{
  Scan, line_end, too_long, unfinished, scan_line, Read, whole, broken, more, read_event, scanned,
  read_line_from, sam_read_line,
}
use new_p2p_crawler.Utf8.{from_utf8_lossy}
use new_p2p_crawler.Prelude.{
  ltb, ◌==◌, not_ltb→le, ==_iff, Bool-cases, length, Text, contains, ℕ, ◌≤◌, ◌≡◌, refl, sym, ap,
  subst, ◌∙◌, inl, inr, false, List, [], ◌∷◌, ◌++◌, append-nil, append_assoc, arith, max,
}

abbrev newline : ℕ
newline = b'\n'

-- What a scan has read behind `line`: no newline, or one at the end; never more than 4096 bytes in all.
abbrev Scanned : List ℕ → List ℕ → Scan → Type 0
Scanned line bytes (line_end line' rest) =
    (taken : List ℕ) × (bytes ≡ taken ++ (newline ∷ rest))
    × (line' ≡ line ++ taken)
    × (contains newline taken ≡ false)
    × (length line' ≤ 4096)
Scanned line bytes too_long = Unit
Scanned line bytes (unfinished line') =
    (line' ≡ line ++ bytes) × (contains newline bytes ≡ false) × (length line' ≤ 4096)

Scanned-later :
    (line : List ℕ) (b : ℕ) (bs : List ℕ) (r : Scan)
    → (b == newline) ≡ false
    → Scanned (line ++ (b ∷ [])) bs r
    → Scanned line (b ∷ bs) r
Scanned-later line b bs (line_end line' rest) e (taken, h, k, n, m) =
    (b ∷ taken, ap (λ t. b ∷ t) h, k ∙ append_assoc line (b ∷ []) taken, (rw e n), m)
Scanned-later line b bs too_long e h = tt
Scanned-later line b bs (unfinished line') e (k, n, m) =
    (k ∙ append_assoc line (b ∷ []) bs, (rw e n), m)

scan_line-Scanned :
    (line bytes : List ℕ) → length line ≤ 4096 → Scanned line bytes (scan_line line bytes)
unfolding scan_line
scan_line-Scanned line [] h = (sym (append-nil line), refl, h)
scan_line-Scanned line (b ∷ bs) h = elim (Bool-cases (b == newline)) [
  | inl e ↦ rw e ([], ap (λ t. t ∷ bs) ((==_iff b newline).0 e), sym (append-nil line), refl, h)
  | inr e ↦ rw e (elim (Bool-cases (ltb 4096 (length (line ++ (b ∷ []))))) [
    | inl f ↦ rw f tt
    | inr f ↦ rw f (
        Scanned-later line b bs (scan_line (line ++ (b ∷ [])) bs) e
          (scan_line-Scanned (line ++ (b ∷ [])) bs (not_ltb→le 4096 _ f)))
  ])
]

module _ (deadline : ℕ) where
  -- The first bytes of an arrival.
  deliver_rest :
      (ready : ℕ) (bytes xs ys : List ℕ) (arrivals : List Arrival)
      → ready ≤ deadline
      → bytes ≡ xs ++ ys
      → Delivers deadline (rest_of ready bytes arrivals) xs (rest_of ready ys arrivals)
  deliver_rest ready bytes [] ys arrivals t e =
      subst (λ b. Delivers deadline (rest_of ready b arrivals) [] (rest_of ready ys arrivals))
        (sym e) (nothing _)
  deliver_rest ready bytes (x ∷ xs) ys arrivals t e =
      subst (λ b. Delivers deadline (rest_of ready b arrivals) (x ∷ xs) (rest_of ready ys arrivals))
        (sym e)
        (byte (record { ready = ready; event = received (x ∷ (xs ++ ys)) }) arrivals x (xs ++ ys) xs
          (rest_of ready ys arrivals) refl t (deliver_rest ready (xs ++ ys) xs ys arrivals t refl))

  deliver :
      (a : Arrival) (b : ℕ) (bs xs ys : List ℕ) (arrivals : List Arrival)
      → a.event ≡ received (b ∷ bs)
      → a.ready ≤ deadline
      → (b ∷ bs) ≡ xs ++ ys
      → Delivers deadline (a ∷ arrivals) xs (rest_of a.ready ys arrivals)
  deliver a b bs xs ys arrivals h t e =
      subst
        (λ (ev : ReadEvent).
          Delivers deadline (record { ready = a.ready; event = ev } ∷ arrivals) xs
            (rest_of a.ready ys arrivals))
        (sym h) (deliver_rest a.ready (b ∷ bs) xs ys arrivals t e)

  -- A line with its newline was read, from the bytes in `line` on.
  abbrev pub IsLine : List ℕ → Text → List ℕ → Type 0
  IsLine line reply xs =
      (taken : List ℕ) × (xs ≡ taken ++ (newline ∷ []))
      × (contains newline taken ≡ false)
      × (length (line ++ taken) ≤ 4096)
      × (reply ≡ from_utf8_lossy (line ++ taken))

  contains-append :
      (xs ys : List ℕ)
      → contains newline xs ≡ false
      → contains newline ys ≡ false
      → contains newline (xs ++ ys) ≡ false
  contains-append [] ys h k = k
  contains-append (x ∷ xs) ys h k = ground (arith, contains-append xs ys)

  -- What one event does to the line.
  abbrev Event : List ℕ → Arrival → List Arrival → Read → Type 0
  Event line a arrivals (whole line' rest) =
      (taken : List ℕ) × Delivers deadline (a ∷ arrivals) (taken ++ (newline ∷ [])) rest
      × (line' ≡ line ++ taken)
      × (contains newline taken ≡ false)
      × (length line' ≤ 4096)
  Event line a arrivals (broken e) = Unit
  Event line a arrivals (more line') =
      (taken : List ℕ) × Delivers deadline (a ∷ arrivals) taken arrivals
      × (line' ≡ line ++ taken)
      × (contains newline taken ≡ false)
      × (length line' ≤ 4096)

  scanned-Event :
      (line : List ℕ) (a : Arrival) (arrivals : List Arrival) (b : ℕ) (bs : List ℕ) (r : Scan)
      → a.event ≡ received (b ∷ bs)
      → a.ready ≤ deadline
      → Scanned line (b ∷ bs) r
      → Event line a arrivals (scanned a.ready arrivals r)
  scanned-Event line a arrivals b bs (line_end line' rest) h t (taken, e, k, n, m) = (
    taken,
    deliver a b bs (taken ++ (newline ∷ [])) rest arrivals h t
        (e ∙ sym (append_assoc taken (newline ∷ []) rest)),
    k,
    n,
    m,
  )
  scanned-Event line a arrivals b bs too_long h t s = tt
  scanned-Event line a arrivals b bs (unfinished line') h t (k, n, m) =
      (b ∷ bs, deliver a b bs (b ∷ bs) [] arrivals h t (sym (append-nil (b ∷ bs))), k, n, m)

  read_event-Event :
      (line : List ℕ) (a : Arrival) (arrivals : List Arrival) (event : ReadEvent)
      → a.event ≡ event
      → a.ready ≤ deadline
      → length line ≤ 4096
      → Event line a arrivals (read_event a.ready line arrivals event)
  unfolding read_event
  read_event-Event line a arrivals (failed e) h t m = tt
  read_event-Event line a arrivals (received []) h t m = tt
  read_event-Event line a arrivals (received (b ∷ bs)) h t m =
      scanned-Event line a arrivals b bs (scan_line line (b ∷ bs)) h t
        (scan_line-Scanned line (b ∷ bs) m)

  abbrev Line : List ℕ → Stream → List Arrival → Outcome Text × Stream → Type 0
  Line line s arrivals (value reply, s') =
      (xs : List ℕ) × Delivers deadline arrivals xs s'.arrivals
      × (s'.sent ≡ s.sent)
      × IsLine line reply xs
  Line line s arrivals (raised e, s') = Unit
  Line line s arrivals (elapsed, s') = Unit

  Line-later :
      (line line' taken : List ℕ) (s : Stream) (before arrivals : List Arrival)
      (r : Outcome Text × Stream)
      → Delivers deadline before taken arrivals
      → line' ≡ line ++ taken
      → contains newline taken ≡ false
      → Line line' s arrivals r
      → Line line s before r
  Line-later line line' taken s before arrivals (value reply, s') d k n
        (xs, d', e, (rest, f, n', m, v)) =
      let joined : line' ++ rest ≡ line ++ (taken ++ rest) =
        ap (λ t. t ++ rest) k ∙ append_assoc line taken rest in
      (
        taken ++ xs,
        Delivers-append d d',
        e,
        (
          taken ++ rest,
          ap (λ t. taken ++ t) f ∙ sym (append_assoc taken rest (newline ∷ [])),
          contains-append taken rest n n',
          subst (λ t. length t ≤ 4096) joined m,
          v ∙ ap from_utf8_lossy joined,
        ),
      )
  Line-later line line' taken s before arrivals (raised x, s') d k n h = tt
  Line-later line line' taken s before arrivals (elapsed, s') d k n h = tt

  -- After one event, with the line that reading on would give.
  abbrev after_event : Stream → ℕ → (List ℕ → Outcome Text × Stream) → Read → Outcome Text × Stream
  after_event s now go r = elim r [
    | whole line' rest ↦ (value (from_utf8_lossy line'), record s { arrivals = rest; now = now })
    | broken e ↦ (raised e, record s { now = now })
    | more line' ↦ go line'
  ]

  after_event-Line :
      (line : List ℕ) (s : Stream) (now : ℕ) (a : Arrival) (arrivals : List Arrival)
      (go : List ℕ → Outcome Text × Stream) (r : Read)
      → Event line a arrivals r
      → ((line' : List ℕ) → length line' ≤ 4096 → Line line' s arrivals (go line'))
      → Line line s (a ∷ arrivals) (after_event s now go r)
  after_event-Line line s now a arrivals go (whole line' rest) (taken, d, k, n, m) h = (
    taken ++ (newline ∷ []),
    d,
    refl,
    (taken, refl, n, subst (λ t. length t ≤ 4096) k m, ap from_utf8_lossy k),
  )
  after_event-Line line s now a arrivals go (broken e) ev h = tt
  after_event-Line line s now a arrivals go (more line') (taken, d, k, n, m) h =
      Line-later line line' taken s (a ∷ arrivals) arrivals (go line') d k n (h line' m)

  read_line_from-Line :
      (line : List ℕ) (s : Stream) (arrivals : List Arrival)
      → length line ≤ 4096
      → Line line s arrivals (read_line_from deadline line s arrivals)
  unfolding read_line_from
  read_line_from-Line line s [] m = tt
  read_line_from-Line line s (a ∷ arrivals) m = elim (Bool-cases (ltb deadline a.ready)) [
    | inl e ↦ rw e tt
    | inr e ↦ rw e (
        after_event-Line line s (max s.now a.ready) a arrivals
          (λ line'. read_line_from deadline line' (record s { now = max s.now a.ready }) arrivals)
          (read_event a.ready line arrivals a.event)
          (read_event-Event line a arrivals a.event refl (not_ltb→le deadline a.ready e) m)
          (λ line' m'.
            read_line_from-Line line' (record s { now = max s.now a.ready }) arrivals m'))
  ]

  Line-Gives :
      (s : Stream) (r : Outcome Text × Stream)
      → Line [] s s.arrivals r
      → Gives deadline [] (IsLine []) s r
  Line-Gives s (value reply, s') (xs, d, e, l) = (xs, d, e ∙ sym (append-nil s.sent), l)
  Line-Gives s (raised x, s') h = tt
  Line-Gives s (elapsed, s') h = tt

  -- A line that is returned was read with its newline by the deadline and nothing behind it, had no
  -- newline before and at most 4096 bytes, and is these bytes as lossy UTF-8.
  pub sam_read_line-Sound : Sound deadline (sam_read_line deadline) [] (IsLine [])
  unfolding sam_read_line
  sam_read_line-Sound s =
      Line-Gives s (read_line_from deadline [] s s.arrivals)
        (read_line_from-Line [] s s.arrivals (omega arith))
