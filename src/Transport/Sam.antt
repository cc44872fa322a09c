-- ===== src/Transport/Sam.antt =====
-- src/transport.rs: the SAM v3.1 dialogues with the I2P router.
pub mod Lines
pub mod Dialogue
use new_p2p_crawler.Transport.Connection.{Arrival, ReadEvent, failed, received}
use new_p2p_crawler.Transport.Stream.{
  Stream, Outcome, value, raised, elapsed, Dial, then_dial, ◌>>=◌, ◌>>◌, pure, raise, write_all,
  rest_of,
}
use new_p2p_crawler.Settings.Duration.{trim}
use new_p2p_crawler.Utf8.{from_utf8_lossy}
use new_p2p_crawler.Decimal.{decimal}
use new_p2p_crawler.Io.{IoError, io_error, other, unexpected_eof}
use new_p2p_crawler.Prelude.{
  ltb, ◌==◌, if◌then◌else◌, length, text, Text, ℕ, max, Bool, true, false, ◌&&◌, ◌||◌, List, [],
  ◌∷◌, ◌++◌,
}

-- `str::contains` at a text.
unfoldable pub starts_with : Text → Text → Bool
starts_with [] s = true
starts_with (x ∷ needle) [] = false
starts_with (x ∷ needle) (y ∷ s) = x == y && starts_with needle s

unfoldable pub contains_text : Text → Text → Bool
unfolding starts_with
contains_text needle [] = starts_with needle []
contains_text needle (y ∷ s) = starts_with needle (y ∷ s) || contains_text needle s

-- The loop of `sam_read_line` over the bytes of one arrival: the line ends, gets too long, or goes on.
pub data Scan : Type 0 where
  line_end : (line rest : List ℕ) → Scan
  too_long : Scan
  unfinished : (line : List ℕ) → Scan

unfoldable pub scan_line : List ℕ → List ℕ → Scan
scan_line line [] = unfinished line
scan_line line (b ∷ bs) =
    if b == b'\n'
    then line_end line bs
    else if ltb 4096 (length (line ++ (b ∷ [])))
    then too_long
    else scan_line (line ++ (b ∷ [])) bs

unfoldable pub closed_before_newline : IoError
unfolding text
closed_before_newline = io_error unexpected_eof (text "SAM connection closed before newline")

unfoldable pub line_too_long : IoError
unfolding text
line_too_long = io_error other (text "SAM line too long")

-- What a read of `line` came to, with the arrival left: the line, an error, or more to read.
pub data Read : Type 0 where
  whole : List ℕ → List Arrival → Read
  broken : IoError → Read
  more : List ℕ → Read

abbrev scanned : ℕ → List Arrival → Scan → Read
scanned ready arrivals (line_end line rest) = whole line (rest_of ready rest arrivals)
scanned ready arrivals too_long = broken line_too_long
scanned ready arrivals (unfinished line) = more line

unfoldable pub read_event : ℕ → List ℕ → List Arrival → ReadEvent → Read
unfolding scan_line closed_before_newline line_too_long
read_event ready line arrivals (failed e) = broken e
read_event ready line arrivals (received []) = broken closed_before_newline
read_event ready line arrivals (received (b ∷ bs)) =
    scanned ready arrivals (scan_line line (b ∷ bs))

-- The loop over the arrivals.
unfoldable pub read_line_from : ℕ → List ℕ → Stream → List Arrival → Outcome Text × Stream
unfolding read_event
read_line_from deadline line s [] = (elapsed, record s { now = max s.now deadline })
read_line_from deadline line s (a ∷ arrivals) =
    if ltb deadline a.ready
    then (elapsed, record s { now = max s.now deadline })
    else elim (read_event a.ready line arrivals a.event) [
      | whole line' rest ↦
          (value (from_utf8_lossy line'), record s { arrivals = rest; now = max s.now a.ready })
      | broken e ↦ (raised e, record s { now = max s.now a.ready })
      | more line' ↦ read_line_from deadline line' (record s { now = max s.now a.ready }) arrivals
    ]

unfoldable pub sam_read_line : ℕ → Dial Text
unfolding read_line_from from_utf8_lossy
sam_read_line deadline s = read_line_from deadline [] s s.arrivals

-- A reply is good if it has both texts.
abbrev pub is_good : Text → Text → Bool
unfolding contains_text text
is_good status reply = contains_text status reply && contains_text (text "RESULT=OK") reply

abbrev pub refused : Text → Text → IoError
refused what reply = io_error other (what ++ trim reply)

unfoldable pub hello_version : Text
unfolding text
hello_version = text "HELLO VERSION MIN=3.0 MAX=3.1\n"

unfoldable pub sam_hello : ℕ → Dial (Unit {0})
unfolding hello_version sam_read_line write_all text contains_text
sam_hello deadline = do
  write_all deadline hello_version
  reply ← sam_read_line deadline
  if is_good (text "HELLO REPLY") reply
      then pure tt
      else raise (refused (text "SAM HELLO failed: ") reply)

unfoldable pub session_create : Text → Text
unfolding text
session_create session_id =
    text "SESSION CREATE STYLE=STREAM ID="
    ++ (session_id ++ text " DESTINATION=TRANSIENT SIGNATURE_TYPE=7\n")

-- `crawler` and a random number of 32 bits
unfoldable pub session_id_of : ℕ → Text
unfolding text
session_id_of random = text "crawler" ++ decimal random

-- `SamSession::create` once the router is reached: the id of the session.
unfoldable pub create_dialogue : ℕ → ℕ → Dial Text
unfolding sam_hello session_create session_id_of sam_read_line write_all text contains_text
create_dialogue deadline random = do
  sam_hello deadline
  write_all deadline (session_create (session_id_of random))
  reply ← sam_read_line deadline
  if is_good (text "SESSION STATUS") reply
      then pure (session_id_of random)
      else raise (refused (text "SAM session create failed: ") reply)

unfoldable pub stream_connect : Text → Text → Text
unfolding text
stream_connect session_id host =
    text "STREAM CONNECT ID="
    ++ (session_id ++ (text " DESTINATION=" ++ (host ++ text " SILENT=false\n")))

-- `SamSession::connect` once the router is reached.
unfoldable pub connect_dialogue : ℕ → Text → Text → Dial (Unit {0})
unfolding sam_hello stream_connect sam_read_line write_all text contains_text
connect_dialogue deadline session_id host = do
  sam_hello deadline
  write_all deadline (stream_connect session_id host)
  reply ← sam_read_line deadline
  if is_good (text "STREAM STATUS") reply
      then pure tt
      else raise (refused (text "SAM stream connect failed: ") reply)
