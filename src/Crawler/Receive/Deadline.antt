-- ===== src/Crawler/Receive/Deadline.antt =====
-- The receive loops end, and by their deadline.
use new_p2p_crawler.Crawler.Receive.{
  turns, message, timeout, transport_error, unmatched, matched, recv_matching, ponged, Ended,
  RecvResult, ping, is_expected,
}
use new_p2p_crawler.Transport.{Envelope}
use new_p2p_crawler.Prelude.{
  ℤ, Text, ℕ, ◌≡◌, refl, ap, sym, subst, All, Option, none, some, List, Bool-cases, list_eq, ◌+◌,
  ◌-◌, ◌≤◌, ◌<◌, max, inl, inr, true, arith, leb, zero, suc, min, ◌⊎◌, not_leb→lt,
}
use new_p2p_crawler.Io.{ok, err}
use new_p2p_crawler.Crates.{Crates}
use new_p2p_crawler.Transport.Connection.{
  Write, Sending, Connection, answer_ping, Reception, recv_one, bytes_left,
}
use new_p2p_crawler.Transport.Connection.Effect.{ReceiveEffect, recv_one-Effect}
use new_p2p_crawler.Transport.Connection.Writes.{
  time_of_writes, writing, Returns, Finishes, Sent, Sends, answer_ping-Sends,
}

-- What a wait from `conn` on gives: past the deadline it is by no more than the writes of that time take,
-- and it took bytes and writes only.
pub record OnTime (deadline : ℕ) (conn c : Connection) : Type 0 where
  pub forward : conn.now ≤ c.now
  pub by : c.now + writing c ≤ max conn.now deadline + writing conn
  pub less : writing c ≤ writing conn
  pub fewer : bytes_left c ≤ bytes_left conn
  pub finishes : Finishes c

pub OnTime-refl : (deadline : ℕ) (conn : Connection) → Finishes conn → OnTime deadline conn conn
OnTime-refl deadline conn h = record {
  forward = omega arith;
  by = omega arith;
  less = omega arith;
  fewer = omega arith;
  finishes = h;
}

pub Sent-OnTime : (deadline : ℕ) (conn c : Connection) → Sent conn c → OnTime deadline conn c
Sent-OnTime deadline conn c s = record {
  forward = s.forward;
  by = omega (arith, s.now);
  less = s.less;
  fewer = omega (arith, s.bytes);
  finishes = s.finishes;
}

pub OnTime-trans :
    (deadline : ℕ) (conn c k : Connection)
    → OnTime deadline conn c
    → OnTime deadline c k
    → OnTime deadline conn k
OnTime-trans deadline conn c k o p = record {
  forward = omega (arith, o.forward, p.forward);
  by = omega (arith, o.by, o.less, p.by);
  less = omega (arith, o.less, p.less);
  fewer = omega (arith, o.fewer, p.fewer);
  finishes = p.finishes;
}

-- A receive that waited no longer than to the deadline.
pub ReceiveEffect-OnTime :
    (deadline wait : ℕ) (conn : Connection) (r : Reception)
    → conn.now + wait ≤ deadline
    → Finishes conn
    → ReceiveEffect (conn.now + wait) conn r
    → OnTime deadline conn r.1
ReceiveEffect-OnTime deadline wait conn r q h v = record {
  forward = v.forward;
  by = omega (arith, v.on_time, ap time_of_writes v.same_writes);
  less = omega (arith, ap time_of_writes v.same_writes);
  fewer = omega (arith, v.fewer);
  finishes = subst (All (λ (w : Write). Returns w.takes)) (sym v.same_writes) h;
}

-- A message is one of the expected ones.
abbrev pub Matches : List Text → RecvResult → Type 0
Matches expected (message env) = is_expected expected env.command ≡ true
Matches expected timeout = Unit
Matches expected (transport_error e) = Unit

abbrev pub EndsOnTime : List Text → ℕ → Connection → Ended → Type 0
EndsOnTime expected deadline conn r =
    (a : RecvResult) × (c : Connection) × (r ≡ some (a, c))
    × Matches expected a
    × OnTime deadline conn c

module _ (crates : Crates) (expected : List Text) (deadline : ℕ) where
  later-EndsOnTime :
      (conn c : Connection) (r : Ended)
      → OnTime deadline conn c
      → EndsOnTime expected deadline c r
      → EndsOnTime expected deadline conn r
  later-EndsOnTime conn c r o (a, k, e, m, v) = (a, k, e, m, OnTime-trans deadline conn c k o v)

  module _ (conn : Connection) (open_ : conn.now < deadline) (fuel : ℕ) (again : Connection → Ended)
      (next : (c : Connection)
        → OnTime deadline conn c
        → turns deadline c < turns deadline conn
        → EndsOnTime expected deadline c (again c)) where
    ponged-EndsOnTime :
        (c : Connection) (r : Sending)
        → OnTime deadline conn c
        → turns deadline c < turns deadline conn
        → Sends c r
        → EndsOnTime expected deadline conn (ponged again r)
    ponged-EndsOnTime c none o fewer s = absurd s
    ponged-EndsOnTime c (some (err e, k)) o fewer s = (
      transport_error e,
      k,
      refl,
      tt,
      OnTime-trans deadline conn c k o (Sent-OnTime deadline c k s),
    )
    ponged-EndsOnTime c (some (ok done, k)) o fewer s =
        let on = OnTime-trans deadline conn c k o (Sent-OnTime deadline c k s) in
        later-EndsOnTime conn k _ on (next k on (omega (arith, s.forward, s.bytes)))

    unmatched-EndsOnTime :
        (ping_version : Option ℤ) (env : Envelope) (c : Connection)
        → OnTime deadline conn c
        → turns deadline c < turns deadline conn
        → EndsOnTime expected deadline conn (unmatched crates again ping_version env c)
    unmatched-EndsOnTime none env c o fewer = later-EndsOnTime conn c _ o (next c o fewer)
    unmatched-EndsOnTime (some version) env c o fewer =
        elim (Bool-cases (list_eq env.command ping)) [
          | inr not_ping ↦ rw not_ping (later-EndsOnTime conn c _ o (next c o fewer))
          | inl is_ping ↦ rw is_ping (
              ponged-EndsOnTime c (answer_ping crates c env.payload version) o fewer
                (answer_ping-Sends crates c env.payload version o.finishes))
        ]

    matched-EndsOnTime :
        (ping_version : Option ℤ) (wait : ℕ) (r : Reception)
        → 0 < wait
        → OnTime deadline conn r.1
        → ReceiveEffect (conn.now + wait) conn r
        → EndsOnTime expected deadline conn (matched crates again expected ping_version r)
    matched-EndsOnTime ping_version wait (err e, c) p o v = (transport_error e, c, refl, tt, o)
    matched-EndsOnTime ping_version wait (ok none, c) p o v =
        later-EndsOnTime conn c _ o (next c o (omega (arith, moved v.progress, v.fewer)))
      where
        moved : (conn.now + wait ≤ c.now) ⊎ (conn.now < c.now) → conn.now < c.now
        moved (inl due) = omega arith
        moved (inr later) = later
    matched-EndsOnTime ping_version wait (ok (some env), c) p o v =
        elim (Bool-cases (is_expected expected env.command)) [
          | inl yes_ ↦ rw yes_ (message env, c, refl, yes_, o)
          | inr no_ ↦
              rw no_ (unmatched-EndsOnTime ping_version env c o (omega (arith, v.forward, v.fewer)))
        ]

-- If the time-out of one receive is not zero and every write on the connection returns, then with
-- one turn for each byte that is buffered or still to come, one for each millisecond to the deadline
-- and one more, the wait for an expected message ends: with an expected message, a timeout or an
-- error, later than the deadline (or than now, if that is past) by no more than the time that its
-- writes take, and with no more to read than before.
pub recv_matching-EndsOnTime :
    (crates : Crates) (expected : List Text) (deadline per_timeout : ℕ) (ping_version : Option ℤ)
    (fuel : ℕ) (conn : Connection)
    → (conn.now < deadline → 0 < per_timeout)
    → turns deadline conn < fuel
    → Finishes conn
    → EndsOnTime expected deadline conn
        (recv_matching crates expected deadline per_timeout ping_version fuel conn)
unfolding recv_matching
recv_matching-EndsOnTime crates expected deadline per ping_version zero conn p h w =
    absurd (omega arith)
recv_matching-EndsOnTime crates expected deadline per ping_version (suc fuel) conn p h w =
    elim (Bool-cases (leb deadline conn.now)) [
      | inl due ↦ rw due (timeout, conn, refl, tt, OnTime-refl deadline conn w)
      | inr time ↦
          let open_ : conn.now < deadline = not_leb→lt deadline conn.now time in
          let wait : ℕ = min (deadline - conn.now) per in
          rw time (
            matched-EndsOnTime crates expected deadline conn open_ fuel
              (λ c. recv_matching crates expected deadline per ping_version fuel c)
              (λ c o fewer.
                recv_matching-EndsOnTime crates expected deadline per ping_version fuel c
                  (λ q. p open_) (omega arith) o.finishes)
              ping_version wait (recv_one crates conn wait) (omega (arith, p open_))
              (ReceiveEffect-OnTime deadline wait conn (recv_one crates conn wait) (omega arith) w
                (recv_one-Effect crates conn wait))
              (recv_one-Effect crates conn wait))
    ]
