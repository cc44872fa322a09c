-- ===== src/Transport/Stream.antt =====
-- src/transport.rs: the byte stream of a TCP connection before it becomes a `Connection`, with the
-- reads and writes that dialling makes, under one `timeout`. Times are in milliseconds.
pub mod Reads
pub mod Served
use new_p2p_crawler.Transport.Connection.{ReadEvent, failed, received, Arrival, Write, Connection}
use new_p2p_crawler.Io.{IoError, io_error, Result, IoResult, ok, err, unexpected_eof, timed_out}
use new_p2p_crawler.Prelude.{
  ltb, if◌then◌else◌, text, Text, ℕ, zero, suc, ◌+◌, max, Option, none, some, List, [], ◌∷◌, ◌++◌,
}

pub record Stream : Type 0 where
  pub arrivals : List Arrival
  pub writes : List Write
  pub sent : List (List ℕ)
  pub now : ℕ
  pub local : Text
  pub peer : Text

-- `Connection::new`
unfoldable pub connection_of : Stream → Connection
connection_of s = record {
  recv_buf = [];
  frame_started = none;
  arrivals = s.arrivals;
  writes = s.writes;
  sent = s.sent;
  now = s.now;
  socket_local = s.local;
  socket_peer = s.peer;
}

-- A step under the time-out gives a value or an error, or the time-out comes first.
pub data Outcome (A : Type 0) : Type 0 where
  value : A → Outcome A
  raised : IoError → Outcome A
  elapsed : Outcome A

abbrev pub Dial : Type 0 → Type 0
Dial A = Stream → Outcome A × Stream

abbrev pub then_dial : {A B : Type 0} → (A → Dial B) → Outcome A × Stream → Outcome B × Stream
then_dial k (value a, s) = k a s
then_dial k (raised e, s) = (raised e, s)
then_dial k (elapsed, s) = (elapsed, s)

infixl 5 ◌>>=◌ ◌>>◌
abbrev pub ◌>>=◌ : {A B : Type 0} → Dial A → (A → Dial B) → Dial B
◌>>=◌ m k s = then_dial k (m s)

abbrev pub ◌>>◌ : {A B : Type 0} → Dial A → Dial B → Dial B
m >> k = m >>= λ _. k

abbrev pub pure : {A : Type 0} → A → Dial A
pure a s = (value a, s)

abbrev pub raise : {A : Type 0} → IoError → Dial A
raise e s = (raised e, s)

-- `timeout(…)` around a dialogue, with the text of its error.
abbrev pub within_time : {A : Type 0} → Text → Outcome A × Stream → IoResult (A × Stream)
within_time message (value a, s) = ok (a, s)
within_time message (raised e, s) = err e
within_time message (elapsed, s) = err (io_error timed_out message)

-- The time-out comes first.
abbrev pub out_of_time : {A : Type 0} → ℕ → Stream → Outcome A × Stream
out_of_time deadline s = (elapsed, record s { now = max s.now deadline })

abbrev pub write_ended :
    Stream → List ℕ → ℕ → Option IoError → List Write → Outcome (Unit {0}) × Stream
write_ended s bytes now none rest =
    (value tt, record s { sent = s.sent ++ (bytes ∷ []); writes = rest; now = now })
write_ended s bytes now (some e) rest = (raised e, record s { writes = rest; now = now })

-- A write that does not return by the deadline is dropped.
abbrev pub write_event :
    ℕ → Stream → List ℕ → Option ℕ → Option IoError → List Write → Outcome (Unit {0}) × Stream
write_event deadline s bytes none error rest = out_of_time deadline s
write_event deadline s bytes (some ms) error rest =
    if ltb deadline (s.now + ms)
    then out_of_time deadline s
    else write_ended s bytes (s.now + ms) error rest

abbrev pub write_next : ℕ → Stream → List ℕ → List Write → Outcome (Unit {0}) × Stream
write_next deadline s bytes [] = (value tt, record s { sent = s.sent ++ (bytes ∷ []) })
write_next deadline s bytes (w ∷ rest) = write_event deadline s bytes w.takes w.error rest

unfoldable pub write_all : ℕ → List ℕ → Dial (Unit {0})
write_all deadline bytes s = write_next deadline s bytes s.writes

-- What is left of an arrival behind a byte that was read.
abbrev pub rest_of : ℕ → List ℕ → List Arrival → List Arrival
rest_of ready [] arrivals = arrivals
rest_of ready (b ∷ bs) arrivals = record { ready = ready; event = received (b ∷ bs) } ∷ arrivals

-- One byte, or `none` at the end of the stream, which stays.
abbrev pub take_event : Stream → Arrival → List Arrival → ReadEvent → Outcome (Option ℕ) × Stream
take_event s a arrivals (failed e) =
    (raised e, record s { arrivals = arrivals; now = max s.now a.ready })
take_event s a arrivals (received []) = (value none, record s { now = max s.now a.ready })
take_event s a arrivals (received (b ∷ bs)) =
    (value (some b), record s { arrivals = rest_of a.ready bs arrivals; now = max s.now a.ready })

abbrev pub read_next : ℕ → Stream → List Arrival → Outcome (Option ℕ) × Stream
read_next deadline s [] = out_of_time deadline s
read_next deadline s (a ∷ arrivals) =
    if ltb deadline a.ready then out_of_time deadline s else take_event s a arrivals a.event

unfoldable pub read_byte : ℕ → Dial (Option ℕ)
read_byte deadline s = read_next deadline s s.arrivals

-- `read_exact` into a buffer of `n` bytes.
abbrev pub early_eof : IoError
unfolding text
early_eof = io_error unexpected_eof (text "early eof")

abbrev pub or_eof : Option ℕ → Dial ℕ
or_eof none = raise early_eof
or_eof (some b) = pure b

unfoldable pub read_exact : ℕ → ℕ → Dial (List ℕ)
unfolding read_byte
read_exact deadline zero = pure []
read_exact deadline (suc n) = do
  next ← read_byte deadline
  b ← or_eof next
  bytes ← read_exact deadline n
  pure (b ∷ bytes)
