-- ===== src/Crawler/Handshake.antt =====
-- src/crawler.rs: `handshake`, the exchange of version and verack with a peer.
pub mod Deadline
use new_p2p_crawler.Prelude.{
  if◌then◌else◌, ℤ, pos, leb_ℤ, min_ℤ, text, Text, ℕ, ◌+◌, ◌-◌, ◌*◌, not, Option, none, some, [],
  ◌∷◌,
}
use new_p2p_crawler.Io.{ok, err, IoResult}
use new_p2p_crawler.Crates.{Crates}
use new_p2p_crawler.Node.{
  AddrKey, FailKind, version_send_failed, negotiation_send_failed, verack_send_failed,
  peer_verack_timeout, malformed_version,
}
use new_p2p_crawler.Store.{NodeEntry, update}
use new_p2p_crawler.Protocol.{protocol_version}
use new_p2p_crawler.Protocol.Version.{VersionData, build_version, parse_version}
use new_p2p_crawler.Channel.{Channel}
use new_p2p_crawler.Settings.{Timeouts}
use new_p2p_crawler.Transport.Connection.{received, Connection, Sending, send}
use new_p2p_crawler.Crawler.{
  Crawler, set_entry, change_last, attempt_entry, classify_handshake_error,
}
use new_p2p_crawler.Crawler.World.{World}
use new_p2p_crawler.Crawler.Receive.{
  RecvResult, message, transport_error, Ended, recv_matching, recv_expected,
}

pub data HandshakeResult : Type 0 where
  version : VersionData → ℤ → ℕ → HandshakeResult
  timeout : HandshakeResult
  failed : FailKind → Text → HandshakeResult

-- `Duration::from_secs`, in milliseconds
abbrev pub from_secs : ℕ → ℕ
from_secs s = 1000 * s

abbrev first_send : ℤ → Option ℤ → Option ℤ
first_send sent_ts none = some sent_ts
first_send sent_ts (some ts) = some ts

abbrev pub version_sent_entry : ℤ → NodeEntry → NodeEntry
version_sent_entry sent_ts e =
    attempt_entry (text "version_sent") none none (some sent_ts) (record e {
      stats = record e.stats {
        first_version_send_ts = first_send sent_ts e.stats.first_version_send_ts;
      };
    })

abbrev pub HandshakeEnd : Type 0
HandshakeEnd = Option (HandshakeResult × Connection)

module _ (crates : Crates) (timeouts : Timeouts) (start : ℕ) (sent_ts : ℤ) where
  abbrev pub deadline : ℕ
  deadline = start + from_secs timeouts.message

  abbrev pub after_verack : VersionData → Ended → HandshakeEnd
  after_verack v none = none
  after_verack v (some (message env, conn)) = some (version v sent_ts (conn.now - start), conn)
  after_verack v (some (RecvResult.timeout, conn)) = some (
    failed peer_verack_timeout (text "peer verack was not received before the handshake deadline"),
    conn,
  )
  after_verack v (some (transport_error e, conn)) =
      some (failed (classify_handshake_error e) e.message, conn)

  abbrev pub on_verack_sent : VersionData → Sending → HandshakeEnd
  on_verack_sent v none = none
  on_verack_sent v (some (err e, conn)) = some (failed verack_send_failed e.message, conn)
  on_verack_sent v (some (ok done, conn)) = after_verack v (
      recv_expected crates (text "verack" ∷ []) deadline (from_secs timeouts.message)
        (some v.version) conn)

  abbrev pub send_verack : VersionData → Sending → HandshakeEnd
  send_verack v none = none
  send_verack v (some (err e, conn)) = some (failed negotiation_send_failed e.message, conn)
  send_verack v (some (ok done, conn)) = on_verack_sent v (send crates conn (text "verack") [])

  -- BIP155 is offered to a peer of version 70016 or later.
  unfoldable pub negotiate : VersionData → Connection → HandshakeEnd
  unfolding send recv_matching
  negotiate v conn =
      if leb_ℤ (pos 70_016) (min_ℤ v.version (pos protocol_version))
      then send_verack v (send crates conn (text "sendaddrv2") [])
      else send_verack v (some (ok tt, conn))

  abbrev pub on_version : Option VersionData → Connection → HandshakeEnd
  on_version none conn =
      some (failed malformed_version (text "peer version payload could not be parsed"), conn)
  on_version (some v) conn = negotiate v conn

  abbrev pub after_version : Ended → HandshakeEnd
  after_version none = none
  after_version (some (message env, conn)) = on_version (parse_version env.payload) conn
  after_version (some (RecvResult.timeout, conn)) = some (timeout, conn)
  after_version (some (transport_error e, conn)) =
      some (failed (classify_handshake_error e) e.message, conn)

  unfoldable pub await_version : Connection → HandshakeEnd
  unfolding recv_matching negotiate parse_version
  await_version conn =
      after_version
        (recv_expected crates (text "version" ∷ []) deadline (from_secs timeouts.message) none conn)

abbrev pub with_crawler :
    {ch : Channel} → Crawler ch → HandshakeEnd → Option (HandshakeResult × Crawler ch × Connection)
with_crawler c none = none
with_crawler c (some (r, conn)) = some (r, c, conn)

module _ (crates : Crates) (ch : Channel) (world : World) (timeouts : Timeouts)
    (key : AddrKey) where
  -- Only a version message that was written is recorded.
  abbrev pub on_version_sent :
      Crawler ch → ℕ → ℤ → Sending → Option (HandshakeResult × Crawler ch × Connection)
  on_version_sent c start sent_ts none = none
  on_version_sent c start sent_ts (some (err e, conn)) =
      some (failed version_send_failed e.message, c, conn)
  on_version_sent c start sent_ts (some (ok done, conn)) =
      with_crawler (set_entry ch c key (version_sent_entry sent_ts))
        (await_version crates timeouts start sent_ts conn)

  unfoldable pub handshake :
      Crawler ch → Connection → Option (HandshakeResult × Crawler ch × Connection)
  unfolding send build_version update await_version change_last
  handshake c conn =
      let sent_ts = world.now_epoch conn.now in
      on_version_sent c conn.now sent_ts
        (send crates conn (text "version") (build_version sent_ts (world.nonce conn.now)))
