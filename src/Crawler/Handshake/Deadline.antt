-- ===== src/Crawler/Handshake/Deadline.antt =====
-- The handshake always gives a result, by its deadline, and keeps the count of outstanding addresses.
use new_p2p_crawler.Store.{update}
use new_p2p_crawler.Crawler.Count.{IsCounted, update-IsCounted}
use new_p2p_crawler.Crawler.{Crawler, set_entry}
use new_p2p_crawler.Node.{AddrKey}
use new_p2p_crawler.Crawler.World.{World}
use new_p2p_crawler.Channel.{Channel}
use new_p2p_crawler.Protocol.{protocol_version}
use new_p2p_crawler.Prelude.{
  ℤ, text, Text, ℕ, ◌≤◌, ◌≡◌, refl, Option, some, List, [], ◌∷◌, arith, Bool-cases, pos, leb_ℤ,
  min_ℤ, ◌+◌, ◌⊎◌, inl, inr, none,
}
use new_p2p_crawler.Io.{ok, err}
use new_p2p_crawler.Crates.{Crates}
use new_p2p_crawler.Protocol.Version.{VersionData, build_version, parse_version}
use new_p2p_crawler.Settings.{Timeouts}
use new_p2p_crawler.Transport.Connection.{Connection, Sending, send}
use new_p2p_crawler.Crawler.Receive.{message, transport_error, recv_expected, Ended, RecvResult}
use new_p2p_crawler.Crawler.Receive.Deadline.{
  OnTime, OnTime-refl, Sent-OnTime, OnTime-trans, EndsOnTime, recv_matching-EndsOnTime,
}
use new_p2p_crawler.Transport.Connection.Writes.{Sent, Sends, Finishes, Sent-refl, send-Sends}
use new_p2p_crawler.Crawler.Handshake.{
  HandshakeResult, HandshakeEnd, from_secs, deadline, after_verack, on_verack_sent, send_verack,
  negotiate, on_version, after_version, await_version, with_crawler, on_version_sent,
  version_sent_entry, handshake,
}

abbrev pub EndsBy : ℕ → Connection → HandshakeEnd → Type 0
EndsBy by conn r = (a : HandshakeResult) × (c : Connection) × (r ≡ some (a, c)) × OnTime by conn c

module _ (crates : Crates) (timeouts : Timeouts) (start : ℕ) (sent_ts : ℤ) where
  abbrev by : ℕ
  by = deadline crates timeouts start sent_ts

  after-EndsBy :
      (conn c : Connection) (r : HandshakeEnd) → OnTime by conn c → EndsBy by c r → EndsBy by conn r
  after-EndsBy conn c r o (a, k, e, p) = (a, k, e, OnTime-trans by conn c k o p)

  stop-EndsBy :
      (conn : Connection) (a : HandshakeResult) → Finishes conn → EndsBy by conn (some (a, conn))
  stop-EndsBy conn a w = (a, conn, refl, OnTime-refl by conn w)

  -- The wait itself, for any expected message.
  wait_ends :
      (expected : List Text) (ping_version : Option ℤ) (conn : Connection)
      → start ≤ conn.now
      → Finishes conn
      → EndsOnTime expected by conn
          (recv_expected crates expected by (from_secs timeouts.message) ping_version conn)
  wait_ends expected ping_version conn h w =
      recv_matching-EndsOnTime crates expected by (from_secs timeouts.message) ping_version _ conn
        (λ open_. omega arith) (omega arith) w

  after_verack-EndsBy :
      (v : VersionData) (conn : Connection) (expected : List Text) (r : Ended)
      → EndsOnTime expected by conn r
      → EndsBy by conn (after_verack crates timeouts start sent_ts v r)
  after_verack-EndsBy v conn expected r (message env, c, e, m, o) =
      rw e (after-EndsBy conn c _ o (stop-EndsBy c _ o.finishes))
  after_verack-EndsBy v conn expected r (RecvResult.timeout, c, e, m, o) =
      rw e (after-EndsBy conn c _ o (stop-EndsBy c _ o.finishes))
  after_verack-EndsBy v conn expected r (transport_error x, c, e, m, o) =
      rw e (after-EndsBy conn c _ o (stop-EndsBy c _ o.finishes))

  on_verack_sent-EndsBy :
      (v : VersionData) (conn : Connection) (r : Sending)
      → start ≤ conn.now
      → Sends conn r
      → EndsBy by conn (on_verack_sent crates timeouts start sent_ts v r)
  on_verack_sent-EndsBy v conn none h s = absurd s
  on_verack_sent-EndsBy v conn (some (err e, k)) h s =
      after-EndsBy conn k _ (Sent-OnTime by conn k s) (stop-EndsBy k _ s.finishes)
  on_verack_sent-EndsBy v conn (some (ok done, k)) h s =
      after-EndsBy conn k _ (Sent-OnTime by conn k s) (
        after_verack-EndsBy v k (text "verack" ∷ []) _
          (wait_ends (text "verack" ∷ []) (some v.version) k (omega (arith, s.forward)) s.finishes))

  send_verack-EndsBy :
      (v : VersionData) (conn : Connection) (r : Sending)
      → start ≤ conn.now
      → Sends conn r
      → EndsBy by conn (send_verack crates timeouts start sent_ts v r)
  send_verack-EndsBy v conn none h s = absurd s
  send_verack-EndsBy v conn (some (err e, k)) h s =
      after-EndsBy conn k _ (Sent-OnTime by conn k s) (stop-EndsBy k _ s.finishes)
  send_verack-EndsBy v conn (some (ok done, k)) h s =
      after-EndsBy conn k _ (Sent-OnTime by conn k s) (
        on_verack_sent-EndsBy v k (send crates k (text "verack") []) (omega (arith, s.forward))
          (send-Sends crates k (text "verack") [] s.finishes))

  negotiate-EndsBy :
      (v : VersionData) (conn : Connection)
      → start ≤ conn.now
      → Finishes conn
      → EndsBy by conn (negotiate crates timeouts start sent_ts v conn)
  unfolding negotiate
  negotiate-EndsBy v conn h w =
      elim (Bool-cases (leb_ℤ (pos 70_016) (min_ℤ v.version (pos protocol_version)))) [
        | inl modern ↦ rw modern (
            send_verack-EndsBy v conn (send crates conn (text "sendaddrv2") []) h
              (send-Sends crates conn (text "sendaddrv2") [] w))
        | inr old ↦ rw old (send_verack-EndsBy v conn (some (ok tt, conn)) h (Sent-refl conn w))
      ]

  on_version-EndsBy :
      (parsed : Option VersionData) (conn : Connection)
      → start ≤ conn.now
      → Finishes conn
      → EndsBy by conn (on_version crates timeouts start sent_ts parsed conn)
  on_version-EndsBy none conn h w = stop-EndsBy conn _ w
  on_version-EndsBy (some v) conn h w = negotiate-EndsBy v conn h w

  after_version-EndsBy :
      (conn : Connection) (expected : List Text) (r : Ended)
      → start ≤ conn.now
      → EndsOnTime expected by conn r
      → EndsBy by conn (after_version crates timeouts start sent_ts r)
  after_version-EndsBy conn expected r h (message env, c, e, m, o) = rw e (
      after-EndsBy conn c _ o
        (on_version-EndsBy (parse_version env.payload) c (omega (arith, o.forward)) o.finishes))
  after_version-EndsBy conn expected r h (RecvResult.timeout, c, e, m, o) =
      rw e (after-EndsBy conn c _ o (stop-EndsBy c _ o.finishes))
  after_version-EndsBy conn expected r h (transport_error x, c, e, m, o) =
      rw e (after-EndsBy conn c _ o (stop-EndsBy c _ o.finishes))

  await_version-EndsBy :
      (conn : Connection)
      → start ≤ conn.now
      → Finishes conn
      → EndsBy by conn (await_version crates timeouts start sent_ts conn)
  unfolding await_version
  await_version-EndsBy conn h w =
      after_version-EndsBy conn (text "version" ∷ []) _ h
        (wait_ends (text "version" ∷ []) none conn h w)

module _ (crates : Crates) (ch : Channel) (world : World) (timeouts : Timeouts)
    (key : AddrKey) where
  abbrev pub HandshakeEnds :
      Crawler ch → Connection → Option (HandshakeResult × Crawler ch × Connection) → Type 0
  HandshakeEnds c conn r =
      (a : HandshakeResult) × (c' : Crawler ch) × (k : Connection) × (r ≡ some (a, c', k))
      × OnTime (conn.now + from_secs timeouts.message) conn k
      × IsCounted c'.store
      × ((c'.store ≡ c.store)
          ⊎ (c'.store ≡ update c.store key (version_sent_entry (world.now_epoch conn.now))))

  with_crawler-Ends :
      (c : Crawler ch) (conn k : Connection) (r : HandshakeEnd)
      → Sent conn k
      → IsCounted c.store
      → EndsBy (conn.now + from_secs timeouts.message) k r
      → HandshakeEnds c conn
          (with_crawler (set_entry ch c key (version_sent_entry (world.now_epoch conn.now))) r)
  with_crawler-Ends c conn k r s v (a, c', e, o) = rw e (
    a,
    set_entry ch c key (version_sent_entry (world.now_epoch conn.now)),
    c',
    refl,
    OnTime-trans _ conn k c' (Sent-OnTime _ conn k s) o,
    update-IsCounted c.store key (version_sent_entry (world.now_epoch conn.now)) (λ e. refl) v,
    inr refl,
  )

  on_version_sent-Ends :
      (c : Crawler ch) (conn : Connection) (r : Sending)
      → Sends conn r
      → IsCounted c.store
      → HandshakeEnds c conn
          (on_version_sent crates ch world timeouts key c conn.now (world.now_epoch conn.now) r)
  on_version_sent-Ends c conn none s v = absurd s
  on_version_sent-Ends c conn (some (err e, k)) s v =
      (_, c, k, refl, Sent-OnTime _ conn k s, v, inl refl)
  on_version_sent-Ends c conn (some (ok done, k)) s v = with_crawler-Ends c conn k _ s v (
      await_version-EndsBy crates timeouts conn.now (world.now_epoch conn.now) k s.forward
        s.finishes)

  -- If every write on the connection returns and `outstanding` is the number of active entries of a
  -- store in its invariant, then the handshake gives a result, later than the message time-out by no
  -- more than the time that its writes take; that is so again after it, and the store is as before
  -- or has only the node's entry marked with the version message that was sent.
  pub handshake-Ends :
      (c : Crawler ch) (conn : Connection)
      → Finishes conn
      → IsCounted c.store
      → HandshakeEnds c conn (handshake crates ch world timeouts key c conn)
  unfolding handshake
  handshake-Ends c conn w v =
      on_version_sent-Ends c conn
        (send crates conn (text "version")
          (build_version (world.now_epoch conn.now) (world.nonce conn.now)))
        (send-Sends crates conn (text "version")
          (build_version (world.now_epoch conn.now) (world.nonce conn.now)) w)
        v
