-- ===== src/Transport/Connection.antt =====
-- src/transport.rs: `Connection`. The peer is a list of arrivals: what each read of the stream gives and
-- when it is ready, and a list of what the coming writes meet. Times are in milliseconds; the clock moves
-- only while the connection waits.

pub mod Effect
pub mod Writes
use new_p2p_crawler.Prelude.{
  min, max, ltb, leb, ◌==◌, if◌then◌else◌, length, ℤ, pos, ltb_ℤ, text, Text, ℕ, ◌+◌, ◌-◌, Bool,
  true, false, not, Option, none, some, List, [], ◌∷◌, ◌++◌,
}
use new_p2p_crawler.Io.{ErrorKind, timed_out, unexpected_eof, IoError, io_error, ok, err, IoResult}
use new_p2p_crawler.Crates.{Crates}
use new_p2p_crawler.Protocol.{max_protocol_message_length, protocol_version, frame}
use new_p2p_crawler.Transport.{Envelope, data_error, validate_ping_payload}
use new_p2p_crawler.Transport.Framing.{try_parse_envelope}

-- What `read` gives: an error, or bytes, none of them at the end of the stream.
pub data ReadEvent : Type 0 where
  failed : IoError → ReadEvent
  received : List ℕ → ReadEvent

pub record Arrival : Type 0 where
  pub ready : ℕ
  pub event : ReadEvent

-- A write of the stream, which has no time-out: how long it takes, `none` if it never returns since the
-- peer does not read, and the error that it ends with.
pub record Write : Type 0 where
  pub takes : Option ℕ
  pub error : Option IoError

-- `writes` is what the coming writes meet; where it is used up they succeed at once. The two socket
-- addresses are as they are displayed.
pub record Connection : Type 0 where
  pub recv_buf : List ℕ
  pub frame_started : Option ℕ
  pub arrivals : List Arrival
  pub writes : List Write
  pub sent : List (List ℕ)
  pub now : ℕ
  pub socket_local : Text
  pub socket_peer : Text

-- The bytes of an arrival, and those that a connection holds or has still to read.
abbrev pub event_bytes : ReadEvent → ℕ
event_bytes (failed e) = 0
event_bytes (received bytes) = length bytes

abbrev pub arriving : List Arrival → ℕ
arriving [] = 0
arriving (a ∷ rest) = event_bytes a.event + arriving rest

abbrev pub bytes_left : Connection → ℕ
bytes_left conn = length conn.recv_buf + arriving conn.arrivals

abbrev pub is_empty : List ℕ → Bool
is_empty [] = true
is_empty (b ∷ bs) = false

abbrev pub has_partial_envelope : Connection → Bool
has_partial_envelope conn = not (is_empty conn.recv_buf)

-- What `send` gives; `none` is that it does not return.
abbrev pub Sending : Type 0
Sending = Option (IoResult (Unit {0}) × Connection)

abbrev pub write_next : Connection → List ℕ → Option ℕ → Option IoError → List Write → Sending
write_next conn bytes none error rest = none
write_next conn bytes (some ms) none rest =
    some (ok tt, record conn { sent = conn.sent ++ bytes ∷ []; writes = rest; now = conn.now + ms })
write_next conn bytes (some ms) (some e) rest =
    some (err e, record conn { writes = rest; now = conn.now + ms })

abbrev pub write_all : Connection → List ℕ → List Write → Sending
write_all conn bytes [] = some (ok tt, record conn { sent = conn.sent ++ bytes ∷ [] })
write_all conn bytes (w ∷ rest) = write_next conn bytes w.takes w.error rest

abbrev pub write_frame : Connection → IoResult (List ℕ) → Sending
write_frame conn (err e) = some (err e, conn)
write_frame conn (ok bytes) = write_all conn bytes conn.writes

unfoldable pub send : Crates → Connection → Text → List ℕ → Sending
unfolding frame
send crates conn command payload = write_frame conn (frame crates command payload)

abbrev pub envelope_hard_timeout : ℕ
envelope_hard_timeout = 120_000

abbrev pub hard_remaining : Option ℕ → ℕ → ℕ
hard_remaining none now = envelope_hard_timeout
hard_remaining (some start) now = envelope_hard_timeout - (now - start)

abbrev pub Reception : Type 0
Reception = IoResult (Option Envelope) × Connection

abbrev pub stopped : Connection → IoError → Reception
stopped conn e = (err e, conn)

abbrev pub hard_deadline_error : IoError
hard_deadline_error =
    io_error ErrorKind.timed_out (text "incomplete envelope exceeded hard deadline")

abbrev pub eof_error : IoError
eof_error = io_error ErrorKind.unexpected_eof (text "peer closed connection")

abbrev pub limit_error : IoError
limit_error = data_error (text "receive buffer limit exceeded")

-- The bytes of a read go behind the buffer, and start a frame where it was empty.
abbrev pub taken_in : Connection → ℕ → List ℕ → List Arrival → Connection
taken_in conn now bytes rest = record conn {
  recv_buf = conn.recv_buf ++ bytes;
  frame_started = if is_empty conn.recv_buf then some now else conn.frame_started;
  arrivals = rest;
  now = now;
}

abbrev pub message_out : Connection → Envelope → List ℕ → Reception
message_out conn env rest = (
  ok (some env),
  record conn { recv_buf = rest; frame_started = if is_empty rest then none else some conn.now },
)

abbrev pub timed_out_at : Connection → ℕ → Reception
timed_out_at conn until = (ok none, record conn { now = until })

-- The loop of `recv_one`: one turn for each arrival that is taken, and one to stop. `later` is the turn
-- after the bytes of a read.
abbrev pub on_event :
    (Connection → Reception) → Connection → ℕ → List Arrival → ReadEvent → Reception
on_event later conn now rest (failed e) = stopped (record conn { arrivals = rest; now = now }) e
on_event later conn now rest (received []) =
    stopped (record conn { arrivals = rest; now = now }) eof_error
on_event later conn now rest (received (b ∷ bytes)) =
    let fuller = taken_in conn now (b ∷ bytes) rest in
    if ltb (24 + max_protocol_message_length) (length fuller.recv_buf)
    then stopped fuller limit_error
    else later fuller

abbrev pub wait_for : (Connection → Reception) → Connection → ℕ → Arrival → List Arrival → Reception
wait_for later conn wait a rest =
    if ltb (conn.now + wait) a.ready
    then timed_out_at conn (conn.now + wait)
    else on_event later conn (max conn.now a.ready) rest a.event

-- A turn: `waiting` is what a read bounded by the given time does.
abbrev pub wait_or_stop : ℕ → (ℕ → Reception) → Connection → Reception
wait_or_stop call_deadline waiting conn =
    let hard = hard_remaining conn.frame_started conn.now in
    let call = call_deadline - conn.now in
    if hard == 0
    then stopped conn hard_deadline_error
    else if call == 0
    then (ok none, conn)
    else waiting (min call hard)

abbrev pub after_parse :
    ℕ → (ℕ → Reception) → Connection → IoResult (Option Envelope) × List ℕ → Reception
after_parse call_deadline waiting conn (err e, buf) = stopped (record conn { recv_buf = buf }) e
after_parse call_deadline waiting conn (ok (some env), buf) = message_out conn env buf
after_parse call_deadline waiting conn (ok none, buf) =
    wait_or_stop call_deadline waiting (record conn { recv_buf = buf })

abbrev pub turn : Crates → ℕ → (ℕ → Reception) → Connection → Reception
turn crates call_deadline waiting conn =
    after_parse call_deadline waiting conn (try_parse_envelope crates conn.recv_buf)

unfoldable pub receive : Crates → ℕ → List Arrival → Connection → Reception
unfolding try_parse_envelope
receive crates call_deadline [] conn =
    turn crates call_deadline (λ wait. timed_out_at conn (conn.now + wait)) conn
receive crates call_deadline (a ∷ rest) conn =
    turn crates call_deadline
      (λ wait. wait_for (λ fuller. receive crates call_deadline rest fuller) conn wait a rest) conn

unfoldable pub recv_one : Crates → Connection → ℕ → Reception
unfolding receive
recv_one crates conn per_timeout = receive crates (conn.now + per_timeout) conn.arrivals conn

abbrev pub pong_if : Crates → Connection → List ℕ → Bool → IoResult (Unit {0}) → Sending
pong_if crates conn ping_payload expects_nonce (err e) = some (err e, conn)
pong_if crates conn ping_payload false (ok fine) = some (ok tt, conn)
pong_if crates conn ping_payload true (ok fine) = send crates conn (text "pong") ping_payload

unfoldable pub answer_ping : Crates → Connection → List ℕ → ℤ → Sending
unfolding send validate_ping_payload
answer_ping crates conn ping_payload protocol_version =
    let expects_nonce = ltb_ℤ (pos 60_000) protocol_version in
    pong_if crates conn ping_payload expects_nonce
      (validate_ping_payload ping_payload expects_nonce)
