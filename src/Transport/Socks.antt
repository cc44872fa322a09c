-- ===== src/Transport/Socks.antt =====
-- src/transport.rs: the SOCKS5 dialogue with the Tor proxy (RFC 1928, no authentication, names
-- resolved by the proxy).
pub mod Dialogue
pub mod Served
use new_p2p_crawler.Transport.Stream.{
  Stream, Outcome, value, raised, elapsed, Dial, then_dial, ◌>>=◌, ◌>>◌, pure, raise, write_all,
  read_exact,
}
use new_p2p_crawler.Net.Show.{hex, hex_digit}
use new_p2p_crawler.Io.{IoError, io_error, other}
use new_p2p_crawler.Decimal.{decimal}
use new_p2p_crawler.Prelude.{
  ltb, ◌==◌, if◌then◌else◌, length, get_or, text, Text, list_eq, ℕ, ◌+◌, ◌/◌, ◌%◌, not, List, [],
  ◌∷◌, ◌++◌,
}

-- `{:02x}` of a byte
abbrev pub hex_byte : ℕ → Text
hex_byte b = hex (b / 16) ++ hex (b % 16)

unfoldable pub greeting : List ℕ
greeting = 5 ∷ 1 ∷ 0 ∷ []

-- The error shows both bytes of the reply.
unfoldable pub method_failed : List ℕ → IoError
unfolding text
method_failed reply = io_error other (
    text "socks5 method selection failed: ["
    ++ (hex_byte (get_or reply 0 0) ++ (text ", " ++ (hex_byte (get_or reply 1 0) ++ text "]"))))

unfoldable pub socks5_greeting : ℕ → Dial (Unit {0})
unfolding greeting write_all read_exact method_failed
socks5_greeting deadline = do
  write_all deadline greeting
  reply ← read_exact deadline 2
  if list_eq reply (5 ∷ 0 ∷ []) then pure tt else raise (method_failed reply)

unfoldable pub connect_request : Text → ℕ → List ℕ
connect_request host port =
    (5 ∷ 1 ∷ 0 ∷ 3 ∷ [])
    ++ ((length host % 256) ∷ (host ++ ((port / 256 % 256) ∷ (port % 256) ∷ [])))

unfoldable pub host_too_long : IoError
unfolding text
host_too_long = io_error other (text "socks5 host too long")

unfoldable pub rep_failed : ℕ → IoError
unfolding text
rep_failed rep = io_error other (text "socks5 connect failed: REP=0x" ++ hex_byte rep)

unfoldable pub unknown_atyp : ℕ → IoError
unfolding text
unknown_atyp atyp = io_error other (text "socks5 reply unknown ATYP " ++ decimal atyp)

-- The length of BND.ADDR, which a name sends in front of it.
unfoldable pub address_length : ℕ → ℕ → Dial ℕ
unfolding unknown_atyp read_exact
address_length deadline atyp =
    if atyp == 1
    then pure 4
    else if atyp == 4
    then pure 16
    else if atyp == 3
    then (do l ← read_exact deadline 1; pure (get_or l 0 0))
    else raise (unknown_atyp atyp)

unfoldable pub read_reply : ℕ → Dial (Unit {0})
unfolding read_exact address_length rep_failed
read_reply deadline = do
  head ← read_exact deadline 4
  if not (get_or head 1 0 == 0) then raise (rep_failed (get_or head 1 0)) else (do
    addr_len ← address_length deadline (get_or head 3 0)
    scratch ← read_exact deadline (addr_len + 2)
    pure tt)

unfoldable pub socks5_connect : ℕ → Text → ℕ → Dial (Unit {0})
unfolding connect_request host_too_long read_reply write_all
socks5_connect deadline host port =
    if ltb 255 (length host)
    then raise host_too_long
    else (do write_all deadline (connect_request host port); read_reply deadline)

-- What `connect_socks5` does once the proxy is reached.
unfoldable pub socks5_dialogue : ℕ → Text → ℕ → Dial (Unit {0})
unfolding socks5_greeting socks5_connect
socks5_dialogue deadline host port = do socks5_greeting deadline; socks5_connect deadline host port
