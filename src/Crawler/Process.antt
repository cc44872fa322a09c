-- ===== src/Crawler/Process.antt =====
-- src/crawler.rs: `process`, one iteration on one address: connect, handshake, getaddr, and the state that
-- the address gets. `dial` is what `connect` gives, with the clock where it gives it.
pub mod Count
use new_p2p_crawler.Prelude.{
  ltb, if◌then◌else◌, ℤ, text, Text, ℕ, ◌+◌, ◌-◌, ◌%◌, ◌^◌, Bool, true, false, ◌&&◌, Option, none,
  some, [], ◌∷◌, ◌++◌,
}
use new_p2p_crawler.Io.{ok, err, IoResult}
use new_p2p_crawler.Crates.{Crates}
use new_p2p_crawler.Address.{NetworkType, Transport}
use new_p2p_crawler.Node.{
  AddrKey, render, NodeState, reachable, handshake_failed, unreachable, FailKind, handshake_timeout,
  HandshakeData, from_version, CollectionOutcome,
}
use new_p2p_crawler.Store.{NodeEntry, update, read, network_of, known}
use new_p2p_crawler.Protocol.Version.{VersionData}
use new_p2p_crawler.Channel.{Channel}
use new_p2p_crawler.Settings.{Timeouts, Settings, timeouts_for}
use new_p2p_crawler.Transport.Connection.{failed, Connection}
use new_p2p_crawler.Crawler.{
  known_network, Crawler, set_entry, log_write, finish, retry_or_finish, change_last, attempt_entry,
  classify_connect_error,
}
use new_p2p_crawler.Crawler.World.{World}
use new_p2p_crawler.Crawler.Handshake.{HandshakeResult, version, timeout, failed, handshake}
use new_p2p_crawler.Crawler.Getaddr.{Collected, getaddr}

-- A u32
abbrev add32 : ℕ → ℕ → ℕ
add32 a b = (a + b) % 2 ^ 32

abbrev pub begin_entry : NodeEntry → NodeEntry
begin_entry e =
    let stats = record e.stats { handshake_attempts = add32 e.stats.handshake_attempts 1 } in
    record e {
      stats = stats;
      attempts =
          e.attempts
          ++ record {
            attempt = stats.handshake_attempts;
            connect_duration_ms = none;
            version_send_timestamp = none;
            outcome = text "started";
            failure = none;
          }
            ∷ [];
    }

abbrev pub connected_entry : ℕ → NodeEntry → NodeEntry
connected_entry connect_ms e =
    attempt_entry (text "connected") none (some connect_ms) none
      (record e { stats = record e.stats { time_connect_ms = some connect_ms } })

abbrev pub handshake_entry : HandshakeData → NodeEntry → NodeEntry
handshake_entry hd e = record e { handshake = some hd }

abbrev pub outcome_entry : CollectionOutcome → NodeEntry → NodeEntry
outcome_entry outcome e = record e { stats = record e.stats { collection_outcome = outcome } }

abbrev ever_connected : Option ℕ → Bool
ever_connected none = false
ever_connected (some ms) = true

module _ (crates : Crates) (ch : Channel) (settings : Settings) (world : World) (key : AddrKey)
    (t : Transport) where
  abbrev pub ended_attempt : Crawler ch → Text → Option FailKind → Option ℤ → Crawler ch
  ended_attempt c outcome failure sent_ts =
      set_entry ch c key (attempt_entry outcome failure none sent_ts)

  -- A node that connected on an earlier attempt is not unreachable.
  abbrev pub terminal_of : Crawler ch → NodeState
  terminal_of c =
      if read c.store key (λ e. ever_connected e.stats.time_connect_ms) false
      then NodeState.handshake_failed
      else unreachable

  abbrev pub connect_failed : Crawler ch → Bool → FailKind → Crawler ch
  connect_failed c more kind =
      let noted = ended_attempt c (text "connect_failed") (some kind) none in
      retry_or_finish ch noted key t more (terminal_of noted) (some kind)

  -- A failed write of the outcome marks the output as failed, and nothing else.
  abbrev pub outcome_logged : Crawler ch × IoResult (Unit {0}) → Crawler ch
  outcome_logged (c, ok done) = c
  outcome_logged (c, err e) = record c { output_failed = true }

  abbrev pub completed : ℤ → Crawler ch → Crawler ch
  completed sent_ts c =
      finish ch (ended_attempt c (text "handshake_complete") none (some sent_ts)) key reachable none

  abbrev pub after_collection : ℤ → Collected crates ch → Option (Crawler ch)
  after_collection sent_ts none = none
  after_collection sent_ts (some (outcome, c, conn)) = some (
      completed sent_ts
        (outcome_logged (log_write ch (set_entry ch c key (outcome_entry outcome)))))

  abbrev pub shook_hands :
      Timeouts → VersionData → ℤ → ℕ → Crawler ch → Connection → Option (Crawler ch)
  shook_hands timeouts v sent_ts duration_ms c conn =
      let hd =
        from_version v sent_ts duration_ms (render key) (render key) conn.socket_local
          conn.socket_peer in
      let known = set_entry ch c key (handshake_entry hd) in
      if settings.probe_mode
      then some (completed sent_ts known)
      else after_collection sent_ts
          (getaddr crates ch settings world key hd.version timeouts known conn)

  -- `more` says that attempts remain.
  abbrev pub after_handshake :
      Timeouts → Bool → Option (HandshakeResult × Crawler ch × Connection) → Option (Crawler ch)
  after_handshake timeouts more none = none
  after_handshake timeouts more (some (HandshakeResult.version v sent_ts duration_ms, c, conn)) =
      shook_hands timeouts v sent_ts duration_ms c conn
  after_handshake timeouts more (some (HandshakeResult.timeout, c, conn)) = some (
      retry_or_finish ch (ended_attempt c (text "handshake_timeout") (some handshake_timeout) none)
        key t (settings.retry_on_timeout && more) NodeState.handshake_failed
        (some handshake_timeout))
  after_handshake timeouts more (some (HandshakeResult.failed kind detail, c, conn)) = some (
      retry_or_finish ch (ended_attempt c (text "handshake_failed") (some kind) none) key t more
        NodeState.handshake_failed (some kind))

  abbrev pub after_dial :
      NetworkType → ℕ → Bool → Crawler ch → IoResult Connection → Option (Crawler ch)
  after_dial network start more c (err e) =
      some (connect_failed c more (classify_connect_error e network))
  after_dial network start more c (ok conn) =
      let timeouts = timeouts_for settings network in
      after_handshake timeouts more (
        handshake crates ch world timeouts key
          (set_entry ch c key (connected_entry (conn.now - start))) conn)

  abbrev pub attempt_of : Crawler ch → ℕ
  attempt_of c = read c.store key (λ e. e.stats.handshake_attempts) 1

  unfoldable pub process : Crawler ch → ℕ → IoResult Connection → Option (Crawler ch)
  unfolding handshake getaddr retry_or_finish finish update log_write timeouts_for from_version
      classify_connect_error change_last network_of
  process c start dial =
      let network = known_network crates c.store key in
      let begun = set_entry ch c key begin_entry in
      after_dial network start (ltb (attempt_of begun) settings.node_settings.handshake_attempts)
        begun dial
