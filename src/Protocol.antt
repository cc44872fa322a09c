-- ===== src/Protocol.antt =====
-- src/protocol.rs: constants and the framing of a message (`frame`, `checksum`, `validate_command`).
-- The children model CompactSize, the cursor, the version message and the address messages.
pub mod Cursor
pub mod Compact
pub mod Version
pub mod Addr
pub mod Tests
use new_p2p_crawler.Prelude.{
  ℕ, ◌-◌, ◌^◌, Text, text, Bool, ◌||◌, not, ◌&&◌, List, [], ◌∷◌, ◌++◌, length, get_or, any,
  replicate, ltb, leb, ◌==◌, if◌then◌else◌, to_le,
}
use new_p2p_crawler.Io.{IoResult, IoError, io_error, ErrorKind, ok, err, ◌>>◌}
use new_p2p_crawler.Crates.{Crates}

abbrev pub magic : List ℕ
magic = 0xF9 ∷ 0xBE ∷ 0xB4 ∷ 0xD9 ∷ []

abbrev pub max_protocol_message_length : ℕ
max_protocol_message_length = 4_000_000

abbrev pub max_addr_to_send : ℕ
max_addr_to_send = 1000

abbrev pub protocol_version : ℕ
protocol_version = 70016

abbrev pub our_user_agent : Text
our_user_agent = text "/new-p2p-crawler:0.1.0/"

abbrev pub max_subversion_length : ℕ
max_subversion_length = 256

-- A digest is an array of 32 bytes; its first four are the checksum.
unfoldable pub checksum : Crates → List ℕ → List ℕ
checksum crates payload =
    let second : List ℕ = crates.sha256 (crates.sha256 payload) in
    get_or second 0 0 ∷ get_or second 1 0 ∷ get_or second 2 0 ∷ get_or second 3 0 ∷ []

abbrev pub is_printable : ℕ → Bool
is_printable b = leb 0x20 b && leb b 0x7e

unfoldable pub validate_command : Text → IoResult (Unit {0})
validate_command command =
    if length command == 0 || ltb 12 (length command) || any (λ b. not (is_printable b)) command
    then err
        (io_error ErrorKind.invalid_input (text "command must be 1..=12 printable ASCII bytes"))
    else ok tt

-- `cmd[..bytes.len()].copy_from_slice(bytes)` on twelve zero bytes
abbrev pub padded_command : Text → List ℕ
padded_command command = command ++ replicate (12 - length command) 0

abbrev too_large : IoError
too_large = io_error ErrorKind.invalid_input (text "payload too large")

abbrev over_limit : IoError
over_limit = io_error ErrorKind.invalid_input (text "payload exceeds protocol limit")

abbrev pub frame_bytes : Crates → Text → List ℕ → List ℕ
frame_bytes crates command payload =
    magic
    ++ (padded_command command
        ++ (to_le 4 (length payload) ++ (checksum crates payload ++ payload)))

unfoldable pub frame : Crates → Text → List ℕ → IoResult (List ℕ)
unfolding validate_command
frame crates command payload = do
  validate_command command
  if leb (2 ^ 32) (length payload)
      then err too_large
      else if ltb max_protocol_message_length (length payload)
      then err over_limit
      else ok (frame_bytes crates command payload)
