-- ===== src/Transport/Connection/Writes.antt =====
-- What the writes on a connection take, and those that return.
use new_p2p_crawler.Protocol.{frame}
use new_p2p_crawler.Transport.{validate_ping_payload}
use new_p2p_crawler.Prelude.{
  ℤ, Text, ℕ, ◌≡◌, refl, ap, sym, subst, All, Option, none, some, List, [], ◌∷◌, pos, ltb_ℤ, text,
  ◌+◌, ◌≤◌, Bool, true, false, arith,
}
use new_p2p_crawler.Io.{IoError, ok, err, IoResult}
use new_p2p_crawler.Crates.{Crates}
use new_p2p_crawler.Transport.Connection.{
  write_frame, pong_if, write_next, write_all, Write, Sending, Connection, send, answer_ping,
  bytes_left,
}

-- What the coming writes take, and that each of them returns.
abbrev pub time_of : Option ℕ → ℕ
time_of none = 0
time_of (some ms) = ms

abbrev pub time_of_writes : List Write → ℕ
time_of_writes [] = 0
time_of_writes (w ∷ rest) = time_of w.takes + time_of_writes rest

abbrev pub writing : Connection → ℕ
writing conn = time_of_writes conn.writes

abbrev pub Returns : Option ℕ → Type 0
Returns none = ⊥
Returns (some ms) = Unit

abbrev pub Finishes : Connection → Type 0
Finishes conn = All (λ (w : Write). Returns w.takes) conn.writes

-- A write takes its time and leaves what is to be read alone.
pub record Sent (conn c : Connection) : Type 0 where
  pub forward : conn.now ≤ c.now
  pub now : c.now + writing c ≡ conn.now + writing conn
  pub less : writing c ≤ writing conn
  pub bytes : bytes_left c ≡ bytes_left conn
  pub finishes : Finishes c

-- A write that returns.
abbrev pub Sends : Connection → Sending → Type 0
Sends conn none = ⊥
Sends conn (some (r, c)) = Sent conn c

pub Sent-refl : (conn : Connection) → Finishes conn → Sent conn conn
Sent-refl conn h = record {
  forward = omega arith;
  now = refl;
  less = omega arith;
  bytes = refl;
  finishes = h;
}

write_next-Sends :
    (conn : Connection) (bytes : List ℕ) (w : Write) (takes : Option ℕ) (error : Option IoError)
    (rest : List Write)
    → conn.writes ≡ w ∷ rest
    → w.takes ≡ takes
    → Returns takes
    → All (λ (w : Write). Returns w.takes) rest
    → Sends conn (write_next conn bytes takes error rest)
write_next-Sends conn bytes w none error rest e t h hs = absurd h
write_next-Sends conn bytes w (some ms) none rest e t h hs = record {
  forward = omega arith;
  now = omega (arith, ap time_of_writes e, ap time_of t);
  less = omega (arith, ap time_of_writes e);
  bytes = refl;
  finishes = hs;
}
write_next-Sends conn bytes w (some ms) (some x) rest e t h hs = record {
  forward = omega arith;
  now = omega (arith, ap time_of_writes e, ap time_of t);
  less = omega (arith, ap time_of_writes e);
  bytes = refl;
  finishes = hs;
}

write_all-Sends :
    (conn : Connection) (bytes : List ℕ) (writes : List Write)
    → conn.writes ≡ writes
    → All (λ (w : Write). Returns w.takes) writes
    → Sends conn (write_all conn bytes writes)
write_all-Sends conn bytes [] e h = record {
  forward = omega arith;
  now = refl;
  less = omega arith;
  bytes = refl;
  finishes = subst (All (λ (w : Write). Returns w.takes)) (sym e) tt;
}
write_all-Sends conn bytes (w ∷ rest) e h =
    write_next-Sends conn bytes w w.takes w.error rest e refl h.0 h.1

write_frame-Sends :
    (conn : Connection) (r : IoResult (List ℕ)) → Finishes conn → Sends conn (write_frame conn r)
write_frame-Sends conn (err e) h = Sent-refl conn h
write_frame-Sends conn (ok bytes) h = write_all-Sends conn bytes conn.writes refl h

pub send-Sends :
    (crates : Crates) (conn : Connection) (command : Text) (payload : List ℕ)
    → Finishes conn
    → Sends conn (send crates conn command payload)
unfolding send
send-Sends crates conn command payload h = write_frame-Sends conn (frame crates command payload) h

pong_if-Sends :
    (crates : Crates) (conn : Connection) (payload : List ℕ) (expects : Bool)
    (r : IoResult (Unit {0}))
    → Finishes conn
    → Sends conn (pong_if crates conn payload expects r)
pong_if-Sends crates conn payload expects (err e) h = Sent-refl conn h
pong_if-Sends crates conn payload false (ok fine) h = Sent-refl conn h
pong_if-Sends crates conn payload true (ok fine) h = send-Sends crates conn (text "pong") payload h

pub answer_ping-Sends :
    (crates : Crates) (conn : Connection) (payload : List ℕ) (version : ℤ)
    → Finishes conn
    → Sends conn (answer_ping crates conn payload version)
unfolding answer_ping
answer_ping-Sends crates conn payload version h =
    pong_if-Sends crates conn payload (ltb_ℤ (pos 60_000) version)
      (validate_ping_payload payload (ltb_ℤ (pos 60_000) version)) h
