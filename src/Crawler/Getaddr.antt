-- ===== src/Crawler/Getaddr.antt =====
-- src/crawler.rs: `getaddr`, which asks a peer for addresses and collects its replies.
pub mod Deadline
use new_p2p_crawler.Prelude.{
  leb, ◌==◌, if◌then◌else◌, length, ℤ, text, Text, list_eq, ℕ, zero, suc, ◌+◌, ◌-◌, min, Bool, true,
  false, ◌||◌, Option, none, some, List, [],
}
use new_p2p_crawler.Io.{ErrorKind, timed_out, Result, ok, err, IoResult}
use new_p2p_crawler.Crates.{Crates}
use new_p2p_crawler.Node.{
  AddrKey, CollectionOutcome, complete_quiet, no_response_timeout, partial_hard_timeout,
  hard_timeout, send_failed, malformed_response, partial_malformed_response, remote_disconnect,
  partial_remote_disconnect, incomplete_envelope_timeout, partial_incomplete_envelope_timeout,
  log_failed,
}
use new_p2p_crawler.Node.Stats.{add64}
use new_p2p_crawler.Store.{NodeEntry, update}
use new_p2p_crawler.Protocol.Addr.{ParsedAddrMessage, AddrParseError, parse_addr, parse_addrv2}
use new_p2p_crawler.Channel.{Channel}
use new_p2p_crawler.Settings.{Timeouts, Settings}
use new_p2p_crawler.Transport.{Envelope}
use new_p2p_crawler.Transport.Connection.{
  Connection, Sending, has_partial_envelope, send, Reception, recv_one, answer_ping,
}
use new_p2p_crawler.Crawler.{Crawler, set_entry, log_write, is_getaddr_reply_complete}
use new_p2p_crawler.Crawler.World.{World}
use new_p2p_crawler.Crawler.Receive.{ping, turns}
use new_p2p_crawler.Crawler.Discover.{handle_addr_message}
use new_p2p_crawler.Crawler.Handshake.{from_secs, version}

-- One outcome before the first valid message, another after it.
abbrev pub by_valid : ℕ → CollectionOutcome → CollectionOutcome → CollectionOutcome
by_valid valid_messages first later = if valid_messages == 0 then first else later

-- `addr` and `addrv2` have their own parsers.
abbrev pub parse_message : Crates → Text → List ℕ → Result AddrParseError ParsedAddrMessage
parse_message crates command payload =
    if list_eq command (text "addr") then parse_addr payload else parse_addrv2 crates payload

abbrev pub is_addr_command : Text → Bool
is_addr_command command = list_eq command (text "addr") || list_eq command (text "addrv2")

abbrev pub malformed_entry : NodeEntry → NodeEntry
malformed_entry e = record e {
  stats = record e.stats { malformed_addr_messages = add64 e.stats.malformed_addr_messages 1 };
}

abbrev pub valid_entry : NodeEntry → NodeEntry
valid_entry e = record e {
  stats = record e.stats { valid_addr_messages = add64 e.stats.valid_addr_messages 1 };
}

abbrev pub is_timed_out : ErrorKind → Bool
is_timed_out timed_out = true
is_timed_out _ = false

module _ (crates : Crates) (ch : Channel) where
  abbrev pub Collected : Type 0
  Collected = Option (CollectionOutcome × Crawler ch × Connection)

  abbrev pub State : Type 0
  State = Crawler ch × Connection

  abbrev pub output_failure : Crawler ch → Crawler ch
  output_failure c = record c { output_failed = true }

  -- A malformed message ends the collection, after it is put into the log.
  abbrev pub quarantined : ℕ → Connection → Crawler ch × IoResult (Unit {0}) → Collected
  quarantined valid_messages conn (c, err e) = some (log_failed, output_failure c, conn)
  quarantined valid_messages conn (c, ok done) =
      some (by_valid valid_messages malformed_response partial_malformed_response, c, conn)

  -- `again` goes on with the loop, with the number of valid messages.
  abbrev pub after_message :
      (ℕ → Crawler ch → Connection → Collected)
      → ℕ
      → AddrKey
      → Connection
      → ParsedAddrMessage
      → Crawler ch × IoResult (Unit {0})
      → Collected
  after_message again valid_messages key conn parsed (c, err e) =
      some (log_failed, output_failure c, conn)
  after_message again valid_messages key conn parsed (c, ok done) =
      let counted = set_entry ch c key valid_entry in
      if is_getaddr_reply_complete (length parsed.addrs)
      then some (complete_quiet, counted, conn)
      else again (valid_messages + 1) counted conn

  module _ (settings : Settings) (world : World) (key : AddrKey) (version : ℤ) where
    abbrev pub on_parsed :
        (ℕ → Crawler ch → Connection → Collected)
        → ℕ
        → Crawler ch
        → Connection
        → Result AddrParseError ParsedAddrMessage
        → Collected
    on_parsed again valid_messages c conn (err e) =
        quarantined valid_messages conn (log_write ch (set_entry ch c key malformed_entry))
    on_parsed again valid_messages c conn (ok parsed) =
        after_message again valid_messages key conn parsed (
          handle_addr_message ch crates settings (world.shuffle conn.now) (world.now_epoch conn.now)
            c key parsed)

    abbrev pub on_pong :
        (ℕ → Crawler ch → Connection → Collected) → ℕ → Crawler ch → Sending → Collected
    on_pong again valid_messages c none = none
    on_pong again valid_messages c (some (err e, conn)) =
        some (by_valid valid_messages remote_disconnect partial_remote_disconnect, c, conn)
    on_pong again valid_messages c (some (ok done, conn)) = again valid_messages c conn

    abbrev pub on_envelope :
        (ℕ → Crawler ch → Connection → Collected)
        → ℕ
        → Crawler ch
        → Connection
        → Envelope
        → Collected
    on_envelope again valid_messages c conn env =
        if is_addr_command env.command
        then on_parsed again valid_messages c conn (parse_message crates env.command env.payload)
        else if list_eq env.command ping
        then on_pong again valid_messages c (answer_ping crates conn env.payload version)
        else again valid_messages c conn

    abbrev pub incomplete_or : ℕ → Bool → CollectionOutcome → CollectionOutcome → CollectionOutcome
    incomplete_or valid_messages incomplete first later =
        if incomplete
        then by_valid valid_messages incomplete_envelope_timeout partial_incomplete_envelope_timeout
        else by_valid valid_messages first later

    abbrev pub on_received :
        (ℕ → Crawler ch → Connection → Collected) → ℕ → Crawler ch → Reception → Collected
    on_received again valid_messages c (ok (some env), conn) =
        on_envelope again valid_messages c conn env
    on_received again valid_messages c (ok none, conn) = some (
      incomplete_or valid_messages (has_partial_envelope conn) no_response_timeout complete_quiet,
      c,
      conn,
    )
    on_received again valid_messages c (err e, conn) = some (
      incomplete_or valid_messages (is_timed_out e.kind) remote_disconnect
          partial_remote_disconnect,
      c,
      conn,
    )

    unfoldable pub collect : ℕ → ℕ → ℕ → ℕ → Crawler ch → Connection → Collected
    unfolding recv_one handle_addr_message answer_ping log_write parse_addr parse_addrv2
        is_getaddr_reply_complete update
    collect hard_deadline idle zero valid_messages c conn = none
    collect hard_deadline idle (suc fuel) valid_messages c conn =
        if leb hard_deadline conn.now
        then some (by_valid valid_messages hard_timeout partial_hard_timeout, c, conn)
        else on_received (λ n c' conn'. collect hard_deadline idle fuel n c' conn') valid_messages c
            (recv_one crates conn (min (hard_deadline - conn.now) idle))

    -- One turn for each byte and each millisecond.
    abbrev pub collect_replies : Timeouts → Crawler ch → Connection → Collected
    collect_replies timeouts c conn =
        let hard_deadline = conn.now + from_secs timeouts.getaddr in
        collect hard_deadline (from_secs timeouts.getaddr_idle) (suc (turns hard_deadline conn)) 0 c
          conn

    abbrev pub on_asked : Timeouts → Crawler ch → Sending → Collected
    on_asked timeouts c none = none
    on_asked timeouts c (some (err e, conn)) = some (send_failed, c, conn)
    on_asked timeouts c (some (ok done, conn)) = collect_replies timeouts c conn

    unfoldable pub getaddr : Timeouts → Crawler ch → Connection → Collected
    unfolding send collect
    getaddr timeouts c conn = on_asked timeouts c (send crates conn (text "getaddr") [])
