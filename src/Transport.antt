-- ===== src/Transport.antt =====
-- src/transport.rs: what a connection exchanges. The children model the framed parser, the receive
-- loop of a connection, and the SOCKS5 and SAM dialogues.
pub mod Framing
pub mod Connection
pub mod Stream
pub mod Socks
pub mod Sam
pub mod Dial
pub mod Tests
use new_p2p_crawler.Prelude.{
  ◌==◌, if◌then◌else◌, length, Text, text, ℕ, Bool, not, ◌&&◌, ◌||◌, List,
}
use new_p2p_crawler.Io.{ErrorKind, invalid_data, IoError, io_error, ok, err, IoResult}

pub record Envelope : Type 0 where
  pub command : Text
  pub payload : List ℕ

abbrev pub data_error : Text → IoError
data_error message = io_error ErrorKind.invalid_data message

unfoldable pub validate_ping_payload : List ℕ → Bool → IoResult (Unit {0})
validate_ping_payload payload expects_nonce =
    if (expects_nonce && length payload == 8) || (not expects_nonce && length payload == 0)
    then ok tt
    else err (data_error (text "ping nonce must be exactly 8 bytes"))
