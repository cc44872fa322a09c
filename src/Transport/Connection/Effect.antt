-- ===== src/Transport/Connection/Effect.antt =====
-- What `recv_one` does to a connection: it ends by its deadline, and each message takes bytes away.
use new_p2p_crawler.Protocol.{max_protocol_message_length}
use new_p2p_crawler.Prelude.{
  length, take, length-drop, from_le, slice, ℕ, ◌+◌, ◌≤◌, ◌<◌, ◌≡◌, refl, ◌∙◌, ap, ◌⊎◌, Option,
  none, some, List, [], ◌∷◌, arith, ◌==◌, Bool-cases, ◌-◌, min, sym, subst, inl, inr, ltb,
  not_ltb→le, length-append, max,
}
use new_p2p_crawler.Io.{IoError, ok, err, IoResult}
use new_p2p_crawler.Crates.{Crates}
use new_p2p_crawler.Transport.{Envelope}
use new_p2p_crawler.Transport.Framing.{try_parse_envelope}
use new_p2p_crawler.Transport.Framing.Soundness.{envelope_parts}
use new_p2p_crawler.Transport.Connection.{
  event_bytes, arriving, bytes_left, timed_out_at, ReadEvent, failed, received, Arrival, Connection,
  Reception, stopped, wait_or_stop, after_parse, turn, hard_remaining, hard_deadline_error,
  eof_error, limit_error, taken_in, on_event, wait_for, receive, recv_one,
}

-- A message is at least a header long.
abbrev pub consumed : IoResult (Option Envelope) → ℕ
consumed (err e) = 0
consumed (ok none) = 0
consumed (ok (some env)) = 24

-- Without a message the deadline has come, or the clock has moved.
abbrev pub Progress : ℕ → ℕ → ℕ → IoResult (Option Envelope) → Type 0
Progress deadline before after (ok none) = (deadline ≤ after) ⊎ (before < after)
Progress deadline before after (err e) = Unit
Progress deadline before after (ok (some env)) = Unit

pub record ReceiveEffect (deadline : ℕ) (conn : Connection) (r : Reception) : Type 0 where
  pub forward : conn.now ≤ r.1.now
  pub on_time : r.1.now ≤ deadline
  pub fewer : bytes_left r.1 + consumed r.0 ≤ bytes_left conn
  pub same_writes : r.1.writes ≡ conn.writes
  pub progress : Progress deadline conn.now r.1.now r.0

parse_kept :
    (crates : Crates) (buf b : List ℕ) → try_parse_envelope crates buf ≡ (ok none, b) → b ≡ buf
unfolding try_parse_envelope
parse_kept crates buf b e = ground arith

parse_failed :
    (crates : Crates) (buf b : List ℕ) (x : IoError)
    → try_parse_envelope crates buf ≡ (err x, b)
    → b ≡ buf
unfolding try_parse_envelope
parse_failed crates buf b x e = ground arith

parse_shorter :
    (crates : Crates) (buf rest : List ℕ) (env : Envelope)
    → try_parse_envelope crates buf ≡ (ok (some env), rest)
    → length rest + 24 ≤ length buf
parse_shorter crates buf rest env e =
    let (long, start, command, small, whole, sum, payload, left) =
      envelope_parts crates buf rest e in
    omega (arith, ap length left, length-drop (24 + from_le (slice 16 20 (take 24 buf))) buf)

module _ (crates : Crates) (deadline : ℕ) (conn : Connection) (h : conn.now ≤ deadline) where
  stopped-Effect :
      (c : Connection) (e : IoError)
      → conn.now ≤ c.now
      → c.now ≤ deadline
      → bytes_left c ≤ bytes_left conn
      → c.writes ≡ conn.writes
      → ReceiveEffect deadline conn (stopped c e)
  stopped-Effect c e f o b w = record {
    forward = f;
    on_time = o;
    fewer = omega arith;
    same_writes = w;
    progress = tt;
  }

  module _ (waiting : ℕ → Reception)
      (w : (wait : ℕ)
        → 0 < wait
        → conn.now + wait ≤ deadline
        → ReceiveEffect deadline conn (waiting wait)) where
    wait_or_stop-Effect : ReceiveEffect deadline conn (wait_or_stop deadline waiting conn)
    wait_or_stop-Effect = elim (Bool-cases (hard == 0)) [
      | inl over ↦
          rw over (stopped-Effect conn hard_deadline_error (omega arith) h (omega arith) refl)
      | inr left ↦ elim (Bool-cases (call == 0)) [
        | inl due ↦
            rw (left, due)
              (record {
                forward = omega arith;
                on_time = h;
                fewer = omega arith;
                same_writes = refl;
                progress = inl (ground arith);
              })
        | inr time ↦ rw (left, time) (w (min call hard) (ground arith) (ground arith))
      ]
    ]
      where
        hard : ℕ
        hard = hard_remaining conn.frame_started conn.now

        call : ℕ
        call = deadline - conn.now

    turn-Effect : ReceiveEffect deadline conn (turn crates deadline waiting conn)
    turn-Effect = go (try_parse_envelope crates conn.recv_buf) refl
      where
        go :
            (r : IoResult (Option Envelope) × List ℕ)
            → try_parse_envelope crates conn.recv_buf ≡ r
            → ReceiveEffect deadline conn (after_parse deadline waiting conn r)
        go (err e, buf) p =
            stopped-Effect (record conn { recv_buf = buf }) e (omega arith) h
              (omega (arith, ap length (parse_failed crates conn.recv_buf buf e p))) refl
        go (ok (some env), buf) p = record {
          forward = omega arith;
          on_time = h;
          fewer = omega (arith, parse_shorter crates conn.recv_buf buf env p);
          same_writes = refl;
          progress = tt;
        }
        go (ok none, buf) p =
            subst
              (λ b.
                ReceiveEffect deadline conn
                  (wait_or_stop deadline waiting (record conn { recv_buf = b })))
              (sym (parse_kept crates conn.recv_buf buf p)) wait_or_stop-Effect

  -- What is done from a later connection on.
  later-Effect :
      (c : Connection) (r : Reception)
      → conn.now ≤ c.now
      → bytes_left c ≤ bytes_left conn
      → c.writes ≡ conn.writes
      → ReceiveEffect deadline c r
      → ReceiveEffect deadline conn r
  later-Effect c (err e, k) f b w v = record {
    forward = omega (arith, v.forward);
    on_time = v.on_time;
    fewer = omega (arith, v.fewer);
    same_writes = v.same_writes ∙ w;
    progress = tt;
  }
  later-Effect c (ok (some env), k) f b w v = record {
    forward = omega (arith, v.forward);
    on_time = v.on_time;
    fewer = omega (arith, v.fewer);
    same_writes = v.same_writes ∙ w;
    progress = tt;
  }
  later-Effect c (ok none, k) f b w v = record {
    forward = omega (arith, v.forward);
    on_time = v.on_time;
    fewer = omega (arith, v.fewer);
    same_writes = v.same_writes ∙ w;
    progress = elim v.progress [ inl due ↦ inl due | inr moved ↦ inr (omega arith) ];
  }

  module _ (a : Arrival) (rest : List Arrival) (next : conn.arrivals ≡ a ∷ rest)
      (later : Connection → Reception)
      (w : (c : Connection)
        → c.now ≤ deadline
        → c.arrivals ≡ rest
        → ReceiveEffect deadline c (later c)) where
    left_after : bytes_left conn ≡ length conn.recv_buf + (event_bytes a.event + arriving rest)
    left_after = ap (λ l. length conn.recv_buf + arriving l) next

    on_event-Effect :
        (t : ℕ) (event : ReadEvent)
        → a.event ≡ event
        → conn.now ≤ t
        → t ≤ deadline
        → ReceiveEffect deadline conn (on_event later conn t rest event)
    on_event-Effect t (failed e) p f o =
        stopped-Effect (record conn { arrivals = rest; now = t }) e f o (omega (arith, left_after))
          refl
    on_event-Effect t (received []) p f o =
        stopped-Effect (record conn { arrivals = rest; now = t }) eof_error f o
          (omega (arith, left_after)) refl
    on_event-Effect t (received (b ∷ bytes)) p f o =
        elim (Bool-cases (ltb (24 + max_protocol_message_length) (length fuller.recv_buf))) [
          | inl over ↦ rw over (stopped-Effect fuller limit_error f o same refl)
          | inr fits ↦ rw fits (later-Effect fuller (later fuller) f same refl (w fuller o refl))
        ]
      where
        fuller : Connection
        fuller = taken_in conn t (b ∷ bytes) rest

        same : bytes_left fuller ≤ bytes_left conn
        same = omega (arith, left_after, ap event_bytes p, length-append conn.recv_buf (b ∷ bytes))

    wait_for-Effect :
        (wait : ℕ)
        → 0 < wait
        → conn.now + wait ≤ deadline
        → ReceiveEffect deadline conn (wait_for later conn wait a rest)
    wait_for-Effect wait positive room = elim (Bool-cases (ltb (conn.now + wait) a.ready)) [
      | inl silent ↦ rw silent (record {
        forward = omega arith;
        on_time = room;
        fewer = omega arith;
        same_writes = refl;
        progress = inr (omega arith);
      })
      | inr ready ↦ rw ready (
          on_event-Effect (max conn.now a.ready) a.event refl (omega arith)
            (ground (arith, not_ltb→le (conn.now + wait) a.ready ready)))
    ]

receive-Effect :
    (crates : Crates) (deadline : ℕ) (arrivals : List Arrival) (conn : Connection)
    → conn.now ≤ deadline
    → conn.arrivals ≡ arrivals
    → ReceiveEffect deadline conn (receive crates deadline arrivals conn)
unfolding receive
receive-Effect crates deadline [] conn h e =
    turn-Effect crates deadline conn h (λ wait. timed_out_at conn (conn.now + wait))
      λ wait positive room. record {
        forward = omega arith;
        on_time = room;
        fewer = omega arith;
        same_writes = refl;
        progress = inr (omega arith);
      }
receive-Effect crates deadline (a ∷ rest) conn h e =
    turn-Effect crates deadline conn h
      (λ wait. wait_for (λ fuller. receive crates deadline rest fuller) conn wait a rest)
      λ wait positive room.
        wait_for-Effect crates deadline conn h a rest e
          (λ fuller. receive crates deadline rest fuller)
          (λ c o same. receive-Effect crates deadline rest c o same) wait positive room

-- One receive returns by its deadline and not before it began; a message takes at least a header's bytes
-- from those that are buffered or still to come; and without a message the deadline has come or the
-- clock has moved.
pub recv_one-Effect :
    (crates : Crates) (conn : Connection) (per_timeout : ℕ)
    → ReceiveEffect (conn.now + per_timeout) conn (recv_one crates conn per_timeout)
unfolding recv_one
recv_one-Effect crates conn per_timeout =
    receive-Effect crates (conn.now + per_timeout) conn.arrivals conn (omega arith) refl
