-- ===== src/Transport/Dial.antt =====
-- src/transport.rs: the functions that open a stream: plain TCP, through a SOCKS5 proxy, and over a SAM
-- session, each under one time-out. What connecting to an address gives is the parameter `Network`.
use new_p2p_crawler.Transport.Stream.{Stream, Outcome, value, raised, elapsed, Dial, within_time}
use new_p2p_crawler.Transport.Socks.{socks5_dialogue, socks5_greeting}
use new_p2p_crawler.Transport.Sam.{create_dialogue, connect_dialogue, sam_hello}
use new_p2p_crawler.Net.Parse.{parse_ipv4, parse_ipv6}
use new_p2p_crawler.Decimal.{decimal}
use new_p2p_crawler.Io.{IoError, io_error, IoResult, ok, err, other, timed_out}
use new_p2p_crawler.Prelude.{
  ltb, if◌then◌else◌, text, Text, ℕ, ◌+◌, max, Option, none, some, List, ◌∷◌, ◌++◌,
}

pub data IpAddr : Type 0 where
  v4 v6 : List ℕ → IpAddr

-- `str::parse::<IpAddr>`
unfoldable pub parse_ip : Text → Option IpAddr
parse_ip s = elim (parse_ipv4 s) [
  | some octets ↦ some (v4 octets)
  | none ↦ elim (parse_ipv6 s) [ some octets ↦ some (v6 octets) | none ↦ none ]
]

-- When an attempt to connect is decided, and how.
pub record Attempt : Type 0 where
  pub ready : ℕ
  pub result : IoResult Stream

-- `TcpStream::connect`, to a socket address or to `host:port`, at a time.
pub record Network : Type 0 where
  pub to_socket : IpAddr → ℕ → ℕ → Attempt
  pub to_name : Text → ℕ → Attempt

abbrev reached : ℕ → IoResult Stream → Outcome Stream
reached now (ok s) = value (record s { now = now })
reached now (err e) = raised e

-- `connect(…).await` under the deadline.
unfoldable pub connecting : ℕ → ℕ → Attempt → Outcome Stream
connecting deadline now a =
    if ltb deadline a.ready then elapsed else reached (max now a.ready) a.result

-- Connect, then hold a dialogue.
abbrev pub then_talk : {A : Type 0} → Dial A → Text → Outcome Stream → IoResult (A × Stream)
then_talk m message (value s) = within_time message (m s)
then_talk m message (raised e) = err e
then_talk m message elapsed = err (io_error timed_out message)

abbrev stream_only : {A : Type 0} → IoResult (A × Stream) → IoResult Stream
stream_only (ok (a, s)) = ok s
stream_only (err e) = err e

abbrev value_only : {A : Type 0} → IoResult (A × Stream) → IoResult A
value_only (ok (a, s)) = ok a
value_only (err e) = err e

-- `{host}:{port}`
abbrev pub with_port : Text → ℕ → Text
with_port host port = host ++ (b':' ∷ decimal port)

abbrev pub not_numeric : Text → IoError
unfolding text
not_numeric host = io_error other (text "not a numeric IP address: " ++ host)

module _ (net : Network) (now : ℕ) where
  unfoldable pub connect_tcp : Text → ℕ → ℕ → IoResult Stream
  unfolding parse_ip connecting text
  connect_tcp host port connect_timeout = elim (parse_ip host) [
    | none ↦ err (not_numeric host)
    | some ip ↦ stream_only (
        then_talk (λ s. (value tt, s)) (text "tcp connect timed out")
          (connecting (now + connect_timeout) now (net.to_socket ip port now)))
  ]

  unfoldable pub connect_socks5 : Text → ℕ → Text → ℕ → ℕ → IoResult Stream
  unfolding connecting socks5_dialogue text
  connect_socks5 proxy_host proxy_port host port connect_timeout = stream_only (
      then_talk (socks5_dialogue (now + connect_timeout) host port)
        (text "socks5 connect timed out")
        (connecting (now + connect_timeout) now
          (net.to_name (with_port proxy_host proxy_port) now)))

  unfoldable pub socks5_probe : Text → ℕ → ℕ → IoResult (Unit {0})
  unfolding connecting socks5_greeting text
  socks5_probe proxy_host proxy_port connect_timeout = value_only (
      then_talk (socks5_greeting (now + connect_timeout)) (text "socks5 probe timed out") (
        connecting (now + connect_timeout) now (net.to_name (with_port proxy_host proxy_port) now)))

  unfoldable pub sam_probe : Text → ℕ → ℕ → IoResult (Unit {0})
  unfolding connecting sam_hello text
  sam_probe router_host router_port connect_timeout = value_only (
      then_talk (sam_hello (now + connect_timeout)) (text "SAM probe timed out") (
        connecting (now + connect_timeout) now
          (net.to_name (with_port router_host router_port) now)))

-- The control socket of a session stays open as long as the session; it is not used again. `identity`
-- is which allocation an `Arc<SamSession>` points to.
pub record SamSession : Type 0 where
  pub session_id : Text
  pub router_host : Text
  pub router_port : ℕ
  pub identity : ℕ

abbrev session_of : Text → ℕ → ℕ → IoResult (Text × Stream) → IoResult SamSession
session_of host port identity (ok (id, control)) =
    ok (record { session_id = id; router_host = host; router_port = port; identity = identity })
session_of host port identity (err e) = err e

module _ (net : Network) (now : ℕ) where
  -- `SamSession::create`, with the random number of the id.
  unfoldable pub create : ℕ → ℕ → Text → ℕ → ℕ → IoResult SamSession
  unfolding connecting create_dialogue text
  create random identity router_host router_port connect_timeout =
      session_of router_host router_port identity (
        then_talk (create_dialogue (now + connect_timeout) random)
          (text "SAM session create timed out")
          (connecting (now + connect_timeout) now
            (net.to_name (with_port router_host router_port) now)))

  -- `SamSession::connect`
  unfoldable pub session_connect : SamSession → Text → ℕ → IoResult Stream
  unfolding connecting connect_dialogue text
  session_connect session host connect_timeout = stream_only (
      then_talk (connect_dialogue (now + connect_timeout) session.session_id host)
        (text "SAM stream connect timed out")
        (connecting (now + connect_timeout) now
          (net.to_name (with_port session.router_host session.router_port) now)))
