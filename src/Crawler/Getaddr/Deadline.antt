-- ===== src/Crawler/Getaddr/Deadline.antt =====
-- The collection of addresses always ends, by its deadline, and keeps the count of outstanding addresses.
use new_p2p_crawler.Transport.Connection.Effect.{ReceiveEffect, recv_one-Effect}
use new_p2p_crawler.Prelude.{
  Bool-cases, length, ℤ, list_eq, ℕ, ◌+◌, ◌<◌, ◌≡◌, refl, sym, subst, inl, inr, some, arith, leb,
  not_leb→lt, text, zero, suc, ◌-◌, min, none, [],
}
use new_p2p_crawler.Io.{Result, ok, err, IoResult}
use new_p2p_crawler.Crates.{Crates}
use new_p2p_crawler.Node.{AddrKey, CollectionOutcome}
use new_p2p_crawler.Store.{update}
use new_p2p_crawler.Protocol.Addr.{ParsedAddrMessage, AddrParseError}
use new_p2p_crawler.Channel.{Channel}
use new_p2p_crawler.Settings.{Settings, Timeouts}
use new_p2p_crawler.Transport.{Envelope}
use new_p2p_crawler.Transport.Connection.{
  Connection, Sending, answer_ping, send, Reception, recv_one,
}
use new_p2p_crawler.Crawler.{Crawler, set_entry, log_write, is_getaddr_reply_complete}
use new_p2p_crawler.Crawler.Count.{IsCounted, update-IsCounted, log_write-store}
use new_p2p_crawler.Crawler.World.{World}
use new_p2p_crawler.Crawler.Discover.{handle_addr_message}
use new_p2p_crawler.Crawler.Discover.Count.{handle_addr_message-IsCounted}
use new_p2p_crawler.Crawler.Receive.{ping, turns}
use new_p2p_crawler.Crawler.Receive.Deadline.{
  OnTime, OnTime-refl, Sent-OnTime, OnTime-trans, ReceiveEffect-OnTime,
}
use new_p2p_crawler.Transport.Connection.Writes.{
  Sent, Sends, Finishes, answer_ping-Sends, send-Sends,
}
use new_p2p_crawler.Crawler.Handshake.{from_secs, deadline}
use new_p2p_crawler.Crawler.Getaddr.{
  parse_message, is_addr_command, malformed_entry, valid_entry, Collected, quarantined,
  after_message, on_parsed, on_pong, on_envelope, on_received, collect, on_asked, getaddr,
}

module _ (crates : Crates) (ch : Channel) (deadline : ℕ) where
  abbrev pub CollectedBy : Connection → Collected crates ch → Type 0
  CollectedBy conn r =
      (a : CollectionOutcome) × (c : Crawler ch) × (k : Connection) × (r ≡ some (a, c, k))
      × OnTime deadline conn k
      × IsCounted c.store

  later-CollectedBy :
      (conn k : Connection) (r : Collected crates ch)
      → OnTime deadline conn k
      → CollectedBy k r
      → CollectedBy conn r
  later-CollectedBy conn k r o (a, c, m, e, p, v) =
      (a, c, m, e, OnTime-trans deadline conn k m o p, v)

  stop-CollectedBy :
      (conn : Connection) (a : CollectionOutcome) (c : Crawler ch)
      → Finishes conn
      → IsCounted c.store
      → CollectedBy conn (some (a, c, conn))
  stop-CollectedBy conn a c w v = (a, c, conn, refl, OnTime-refl deadline conn w, v)

  module _ (settings : Settings) (world : World) (key : AddrKey) (version : ℤ) (conn : Connection)
      (again : ℕ → Crawler ch → Connection → Collected crates ch)
      (next : (n : ℕ) (c : Crawler ch) (k : Connection)
        → IsCounted c.store
        → OnTime deadline conn k
        → turns deadline k < turns deadline conn
        → CollectedBy k (again n c k)) where
    quarantined-CollectedBy :
        (n : ℕ) (k : Connection) (r : Crawler ch × IoResult (Unit {0}))
        → Finishes k
        → IsCounted r.0.store
        → CollectedBy k (quarantined crates ch n k r)
    quarantined-CollectedBy n k (c, err e) w v = stop-CollectedBy k _ _ w v
    quarantined-CollectedBy n k (c, ok done) w v = stop-CollectedBy k _ _ w v

    module _ (n : ℕ) (k : Connection) (o : OnTime deadline conn k)
        (fewer : turns deadline k < turns deadline conn) where
      after_message-CollectedBy :
          (parsed : ParsedAddrMessage) (r : Crawler ch × IoResult (Unit {0}))
          → IsCounted r.0.store
          → CollectedBy k (after_message crates ch again n key k parsed r)
      after_message-CollectedBy parsed (c, err e) v = stop-CollectedBy k _ _ o.finishes v
      after_message-CollectedBy parsed (c, ok done) v =
          elim (Bool-cases (is_getaddr_reply_complete (length parsed.addrs))) [
            | inl complete ↦ rw complete (stop-CollectedBy k _ _ o.finishes counted)
            | inr more ↦ rw more (next (n + 1) (set_entry ch c key valid_entry) k counted o fewer)
          ]
        where
          counted : IsCounted (update c.store key valid_entry)
          counted = update-IsCounted c.store key valid_entry (λ e. refl) v

      on_parsed-CollectedBy :
          (c : Crawler ch) (r : Result AddrParseError ParsedAddrMessage)
          → IsCounted c.store
          → CollectedBy k (on_parsed crates ch settings world key version again n c k r)
      on_parsed-CollectedBy c (err e) v =
          quarantined-CollectedBy n k (log_write ch (set_entry ch c key malformed_entry)) o.finishes
            (subst IsCounted (sym (log_write-store ch (set_entry ch c key malformed_entry)))
              (update-IsCounted c.store key malformed_entry (λ e. refl) v))
      on_parsed-CollectedBy c (ok parsed) v =
          after_message-CollectedBy parsed
            (handle_addr_message ch crates settings (world.shuffle k.now) (world.now_epoch k.now) c
              key parsed)
            (handle_addr_message-IsCounted ch crates settings (world.now_epoch k.now)
              (world.shuffle k.now) c key parsed v)

      on_pong-CollectedBy :
          (c : Crawler ch) (r : Sending)
          → Sends k r
          → IsCounted c.store
          → CollectedBy k (on_pong crates ch settings world key version again n c r)
      on_pong-CollectedBy c none s v = absurd s
      on_pong-CollectedBy c (some (err e, m)) s v =
          later-CollectedBy k m _ (Sent-OnTime deadline k m s) (stop-CollectedBy m _ c s.finishes v)
      on_pong-CollectedBy c (some (ok done, m)) s v =
          later-CollectedBy k m _ (Sent-OnTime deadline k m s) (
            next n c m v (OnTime-trans deadline conn k m o (Sent-OnTime deadline k m s))
              (omega (arith, s.forward, s.bytes)))

      on_envelope-CollectedBy :
          (c : Crawler ch) (env : Envelope)
          → IsCounted c.store
          → CollectedBy k (on_envelope crates ch settings world key version again n c k env)
      on_envelope-CollectedBy c env v = elim (Bool-cases (is_addr_command env.command)) [
        | inl addr_ ↦
            rw addr_ (on_parsed-CollectedBy c (parse_message crates env.command env.payload) v)
        | inr not_addr ↦ elim (Bool-cases (list_eq env.command ping)) [
          | inl is_ping ↦
              rw (not_addr, is_ping)
                (on_pong-CollectedBy c (answer_ping crates k env.payload version)
                  (answer_ping-Sends crates k env.payload version o.finishes) v)
          | inr skip ↦ rw (not_addr, skip) (next n c k v o fewer)
        ]
      ]

    on_received-CollectedBy :
        (n wait : ℕ) (c : Crawler ch) (r : Reception)
        → OnTime deadline conn r.1
        → conn.now < deadline
        → ReceiveEffect (conn.now + wait) conn r
        → IsCounted c.store
        → CollectedBy conn (on_received crates ch settings world key version again n c r)
    on_received-CollectedBy n wait c (err e, k) o open_ w v =
        later-CollectedBy conn k _ o (stop-CollectedBy k _ c o.finishes v)
    on_received-CollectedBy n wait c (ok none, k) o open_ w v =
        later-CollectedBy conn k _ o (stop-CollectedBy k _ c o.finishes v)
    on_received-CollectedBy n wait c (ok (some env), k) o open_ w v =
        later-CollectedBy conn k _ o
          (on_envelope-CollectedBy n k o (omega (arith, w.forward, w.fewer)) c env v)

module _ (crates : Crates) (ch : Channel) (settings : Settings) (world : World) (key : AddrKey)
    (version : ℤ) where
  collect-CollectedBy :
      (deadline idle fuel n : ℕ) (c : Crawler ch) (conn : Connection)
      → turns deadline conn < fuel
      → Finishes conn
      → IsCounted c.store
      → CollectedBy crates ch deadline conn
          (collect crates ch settings world key version deadline idle fuel n c conn)
  unfolding collect
  collect-CollectedBy deadline idle zero n c conn h w v = absurd (omega arith)
  collect-CollectedBy deadline idle (suc fuel) n c conn h w v =
      elim (Bool-cases (leb deadline conn.now)) [
        | inl due ↦ rw due (stop-CollectedBy crates ch deadline conn _ c w v)
        | inr time ↦
            let open_ : conn.now < deadline = not_leb→lt deadline conn.now time in
            let wait : ℕ = min (deadline - conn.now) idle in
            rw time (
              on_received-CollectedBy crates ch deadline settings world key version conn
                (λ m c' k. collect crates ch settings world key version deadline idle fuel m c' k)
                (λ m c' k v' o fewer.
                  collect-CollectedBy deadline idle fuel m c' k (omega arith) o.finishes v')
                n wait c (recv_one crates conn wait)
                (ReceiveEffect-OnTime deadline wait conn (recv_one crates conn wait) (omega arith) w
                  (recv_one-Effect crates conn wait))
                open_ (recv_one-Effect crates conn wait) v)
      ]

  -- The deadline begins once the request is written.
  asked-OnTime :
      (limit : ℕ) (conn k m : Connection)
      → Sent conn k
      → OnTime (k.now + limit) k m
      → OnTime (conn.now + limit) conn m
  asked-OnTime limit conn k m s o = record {
    forward = omega (arith, s.forward, o.forward);
    by = omega (arith, s.now, s.less, o.by);
    less = omega (arith, s.less, o.less);
    fewer = omega (arith, s.bytes, o.fewer);
    finishes = o.finishes;
  }

  on_asked-CollectedBy :
      (timeouts : Timeouts) (c : Crawler ch) (conn : Connection) (r : Sending)
      → Sends conn r
      → IsCounted c.store
      → CollectedBy crates ch
          (conn.now + from_secs timeouts.getaddr)
          conn
          (on_asked crates ch settings world key version timeouts c r)
  on_asked-CollectedBy timeouts c conn none s v = absurd s
  on_asked-CollectedBy timeouts c conn (some (err e, k)) s v =
      later-CollectedBy crates ch _ conn k _ (Sent-OnTime _ conn k s)
        (stop-CollectedBy crates ch _ k _ c s.finishes v)
  on_asked-CollectedBy timeouts c conn (some (ok done, k)) s v =
      let (a, c', m, e, o, w) =
        collect-CollectedBy (k.now + from_secs timeouts.getaddr) (from_secs timeouts.getaddr_idle)
          (suc (turns (k.now + from_secs timeouts.getaddr) k)) 0 c k (omega arith) s.finishes v in
      (a, c', m, e, asked-OnTime (from_secs timeouts.getaddr) conn k m s o, w)

  pub getaddr-CollectedBy :
      (timeouts : Timeouts) (c : Crawler ch) (conn : Connection)
      → Finishes conn
      → IsCounted c.store
      → CollectedBy crates ch
          (conn.now + from_secs timeouts.getaddr)
          conn
          (getaddr crates ch settings world key version timeouts c conn)
  unfolding getaddr
  getaddr-CollectedBy timeouts c conn w v =
      on_asked-CollectedBy timeouts c conn (send crates conn (text "getaddr") [])
        (send-Sends crates conn (text "getaddr") [] w) v
