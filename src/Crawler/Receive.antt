-- ===== src/Crawler/Receive.antt =====
-- src/crawler.rs: `recv_matching`, which waits for one of the expected messages. The loop runs on fuel.
pub mod Deadline
use new_p2p_crawler.Prelude.{
  leb, if◌then◌else◌, any, ℤ, Text, list_eq, ℕ, zero, suc, ◌-◌, min, Bool, Option, none, some, List,
  [], ◌∷◌, ◌+◌,
}
use new_p2p_crawler.Io.{IoError, ok, err, IoResult}
use new_p2p_crawler.Crates.{Crates}
use new_p2p_crawler.Transport.{Envelope}
use new_p2p_crawler.Transport.Connection.{
  Connection, Sending, Reception, recv_one, answer_ping, bytes_left,
}

pub data RecvResult : Type 0 where
  message : Envelope → RecvResult
  timeout : RecvResult
  transport_error : IoError → RecvResult

abbrev pub ping : Text
ping = 0x70 ∷ 0x69 ∷ 0x6e ∷ 0x67 ∷ []

-- `expected.contains(&command)`
abbrev pub is_expected : List Text → Text → Bool
is_expected expected command = any (λ e. list_eq e command) expected

-- `none` is that the wait does not return.
abbrev pub Ended : Type 0
Ended = Option (RecvResult × Connection)

-- An unmatched message: a ping is answered once the peer's version is known.
abbrev pub ponged : (Connection → Ended) → Sending → Ended
ponged again none = none
ponged again (some (err e, conn)) = some (transport_error e, conn)
ponged again (some (ok done, conn)) = again conn

abbrev pub unmatched : Crates → (Connection → Ended) → Option ℤ → Envelope → Connection → Ended
unmatched crates again none env conn = again conn
unmatched crates again (some version) env conn =
    if list_eq env.command ping
    then ponged again (answer_ping crates conn env.payload version)
    else again conn

abbrev pub matched : Crates → (Connection → Ended) → List Text → Option ℤ → Reception → Ended
matched crates again expected ping_version (err e, conn) = some (transport_error e, conn)
matched crates again expected ping_version (ok none, conn) = again conn
matched crates again expected ping_version (ok (some env), conn) =
    if is_expected expected env.command
    then some (message env, conn)
    else unmatched crates again ping_version env conn

-- The turns that are left: one for each byte and each millisecond.
abbrev pub turns : ℕ → Connection → ℕ
turns deadline conn = bytes_left conn + (deadline - conn.now)

unfoldable pub recv_matching : Crates → List Text → ℕ → ℕ → Option ℤ → ℕ → Connection → Ended
unfolding recv_one answer_ping
recv_matching crates expected deadline per_timeout ping_version zero conn = none
recv_matching crates expected deadline per_timeout ping_version (suc fuel) conn =
    if leb deadline conn.now
    then some (timeout, conn)
    else matched crates
        (λ c. recv_matching crates expected deadline per_timeout ping_version fuel c) expected
        ping_version (recv_one crates conn (min (deadline - conn.now) per_timeout))

-- With as many turns as it can take.
abbrev pub recv_expected : Crates → List Text → ℕ → ℕ → Option ℤ → Connection → Ended
recv_expected crates expected deadline per_timeout ping_version conn =
    recv_matching crates expected deadline per_timeout ping_version (suc (turns deadline conn)) conn
