-- ===== src/Crawler/Process/Count.antt =====
-- An iteration on an address ends, and keeps the count of outstanding addresses.
use new_p2p_crawler.Crawler.Handshake.Deadline.{HandshakeEnds, handshake-Ends}
use new_p2p_crawler.Transport.Connection.Writes.{Finishes}
use new_p2p_crawler.Prelude.{
  ℤ, text, ℕ, ◌≡◌, refl, sym, subst, ◌∙◌, inl, inr, Bool, true, Option, none, some, arith, Text,
  ◌-◌, ◌&&◌, if◌then◌else◌, ◌+◌, false,
}
use new_p2p_crawler.Io.{ok, err, IoResult}
use new_p2p_crawler.Crates.{Crates}
use new_p2p_crawler.Address.{NetworkType, Transport}
use new_p2p_crawler.Node.{
  AddrKey, NodeState, FailKind, handshake_timeout, reachable, render, HandshakeData, from_version,
}
use new_p2p_crawler.Store.{NodeEntry, NodeStore, find_entry, update}
use new_p2p_crawler.Store.Active.{is_active, find-adjust_entry_self}
use new_p2p_crawler.Protocol.Version.{VersionData}
use new_p2p_crawler.Channel.{Channel}
use new_p2p_crawler.Settings.{Timeouts, Settings, timeouts_for}
use new_p2p_crawler.Transport.Connection.{Connection}
use new_p2p_crawler.Crawler.{
  Crawler, set_entry, log_write, retry_or_finish, known_network, classify_connect_error,
}
use new_p2p_crawler.Crawler.Count.{IsCounted, update-IsCounted, log_write-store}
use new_p2p_crawler.Crawler.Finish.{IsTerminal, finish-IsCounted}
use new_p2p_crawler.Crawler.Enqueue.{retry_or_finish-IsCounted}
use new_p2p_crawler.Crawler.World.{World}
use new_p2p_crawler.Crawler.Handshake.{deadline, HandshakeResult, from_secs}
use new_p2p_crawler.Crawler.Getaddr.{Collected, getaddr}
use new_p2p_crawler.Crawler.Getaddr.Deadline.{CollectedBy, getaddr-CollectedBy}
use new_p2p_crawler.Crawler.Process.{
  handshake_entry, outcome_entry, ended_attempt, terminal_of, connect_failed, outcome_logged,
  completed, after_collection, shook_hands, begin_entry, connected_entry, after_handshake,
  after_dial, process,
}

-- Every write on the connection that dialling gave returns.
abbrev pub DialFinishes : IoResult Connection → Type 0
DialFinishes (err e) = Unit
DialFinishes (ok conn) = Finishes conn

-- The store is counted, and the address that a worker has in hand is an active one.
pub record InHand (key : AddrKey) (s : NodeStore) : Type 0 where
  pub counted : IsCounted s
  pub entry : (e : NodeEntry) × (find_entry key s.map ≡ some e) × (is_active e.state ≡ true)

update-InHand :
    (s : NodeStore) (key : AddrKey) (f : NodeEntry → NodeEntry)
    → ((e : NodeEntry) → is_active (f e).state ≡ is_active e.state)
    → InHand key s
    → InHand key (update s key f)
unfolding update
update-InHand s key f same v =
    let (e, h, p) = v.entry in
    record {
      counted = update-IsCounted s key f same v.counted;
      entry = (f e, find-adjust_entry_self key f e s.map h, same e ∙ p);
    }

module _ (ch : Channel) (key : AddrKey) (t : Transport) where
  retry-IsCounted :
      (c : Crawler ch) (more : Bool) (terminal : NodeState) (reason : Option FailKind)
      → IsTerminal terminal
      → InHand key c.store
      → IsCounted (retry_or_finish ch c key t more terminal reason).store
  retry-IsCounted c more terminal reason out v =
      let (e, h, p) = v.entry in
      retry_or_finish-IsCounted ch c key t terminal reason more e h p out v.counted

module _ (crates : Crates) (ch : Channel) (settings : Settings) (world : World) (key : AddrKey)
    (t : Transport) where
  -- A result that is there, with its store counted.
  abbrev pub Ends : Option (Crawler ch) → Type 0
  Ends r = (c : Crawler ch) × (r ≡ some c) × IsCounted c.store

  terminal_of-IsTerminal :
      (c : Crawler ch) → IsTerminal (terminal_of crates ch settings world key t c)
  terminal_of-IsTerminal c = ground arith

  connect_failed-IsCounted :
      (c : Crawler ch) (more : Bool) (kind : FailKind)
      → InHand key c.store
      → IsCounted (connect_failed crates ch settings world key t c more kind).store
  connect_failed-IsCounted c more kind v =
      retry-IsCounted ch key t noted more (terminal_of crates ch settings world key t noted)
        (some kind) (terminal_of-IsTerminal noted) (update-InHand c.store key _ (λ e. refl) v)
    where
      noted : Crawler ch
      noted =
          ended_attempt crates ch settings world key t c (text "connect_failed") (some kind) none

  completed-IsCounted :
      (sent_ts : ℤ) (c : Crawler ch)
      → IsCounted c.store
      → IsCounted (completed crates ch settings world key t sent_ts c).store
  completed-IsCounted sent_ts c v =
      (finish-IsCounted ch
        (ended_attempt crates ch settings world key t c (text "handshake_complete") none
          (some sent_ts))
        key reachable none refl (update-IsCounted c.store key _ (λ e. refl) v)).0

  outcome_logged-IsCounted :
      (r : Crawler ch × IoResult (Unit {0}))
      → IsCounted r.0.store
      → IsCounted (outcome_logged crates ch settings world key t r).store
  outcome_logged-IsCounted (c, ok done) v = v
  outcome_logged-IsCounted (c, err e) v = v

  after_collection-Ends :
      (sent_ts : ℤ) (deadline : ℕ) (conn : Connection) (r : Collected crates ch)
      → CollectedBy crates ch deadline conn r
      → Ends (after_collection crates ch settings world key t sent_ts r)
  after_collection-Ends sent_ts deadline conn r (outcome, c, k, e, o, v) = rw e (
    _,
    refl,
    completed-IsCounted sent_ts _ (
        outcome_logged-IsCounted (log_write ch noted) (
          subst IsCounted (sym (log_write-store ch noted))
            (update-IsCounted c.store key (outcome_entry outcome) (λ e. refl) v))),
  )
    where
      noted : Crawler ch
      noted = set_entry ch c key (outcome_entry outcome)

  if_Ends : (b : Bool) (x y : Option (Crawler ch)) → Ends x → Ends y → Ends (if b then x else y)
  if_Ends true x y v w = v
  if_Ends false x y v w = w

  shook_hands-Ends :
      (timeouts : Timeouts) (v : VersionData) (sent_ts : ℤ) (ms : ℕ) (c : Crawler ch)
      (conn : Connection)
      → Finishes conn
      → IsCounted c.store
      → Ends (shook_hands crates ch settings world key t timeouts v sent_ts ms c conn)
  shook_hands-Ends timeouts v sent_ts ms c conn w h =
      if_Ends settings.probe_mode _ _ (_, refl, completed-IsCounted sent_ts shaken known)
        (after_collection-Ends sent_ts (conn.now + from_secs timeouts.getaddr) conn
          (getaddr crates ch settings world key hd.version timeouts shaken conn)
          (getaddr-CollectedBy crates ch settings world key hd.version timeouts shaken conn w
            known))
    where
      hd : HandshakeData
      hd = from_version v sent_ts ms (render key) (render key) conn.socket_local conn.socket_peer

      shaken : Crawler ch
      shaken = set_entry ch c key (handshake_entry hd)

      known : IsCounted shaken.store
      known = update-IsCounted c.store key (handshake_entry hd) (λ e. refl) h

  after_handshake-Ends :
      (timeouts : Timeouts) (more : Bool) (c : Crawler ch) (conn : Connection)
      (r : Option (HandshakeResult × Crawler ch × Connection))
      → InHand key c.store
      → HandshakeEnds crates ch world timeouts key c conn r
      → Ends (after_handshake crates ch settings world key t timeouts more r)
  after_handshake-Ends timeouts more c conn r v (a, c', k, e, o, w, same) = rw e (go a)
    where
      in_hand : InHand key c'.store
      in_hand = elim same [
        | inl p ↦ subst (InHand key) (sym p) v
        | inr p ↦ subst (InHand key) (sym p) (update-InHand c.store key _ (λ e. refl) v)
      ]

      failing :
          (again : Bool) (outcome : Text) (reason : Option FailKind)
          → IsCounted
              (retry_or_finish ch
                (ended_attempt crates ch settings world key t c' outcome reason none)
                key
                t
                again
                NodeState.handshake_failed
                reason).store
      failing again outcome reason =
          retry-IsCounted ch key t
            (ended_attempt crates ch settings world key t c' outcome reason none) again
            NodeState.handshake_failed reason refl
            (update-InHand c'.store key _ (λ e. refl) in_hand)

      go :
          (a : HandshakeResult)
          → Ends (after_handshake crates ch settings world key t timeouts more (some (a, c', k)))
      go (HandshakeResult.version u sent_ts ms) =
          shook_hands-Ends timeouts u sent_ts ms c' k o.finishes in_hand.counted
      go HandshakeResult.timeout = (
        _,
        refl,
        failing (settings.retry_on_timeout && more) (text "handshake_timeout")
            (some handshake_timeout),
      )
      go (HandshakeResult.failed kind detail) =
          (_, refl, failing more (text "handshake_failed") (some kind))

  after_dial-Ends :
      (network : NetworkType) (start : ℕ) (more : Bool) (c : Crawler ch)
      (dial : IoResult Connection)
      → DialFinishes dial
      → InHand key c.store
      → Ends (after_dial crates ch settings world key t network start more c dial)
  after_dial-Ends network start more c (err e) w v =
      (_, refl, connect_failed-IsCounted c more (classify_connect_error e network) v)
  after_dial-Ends network start more c (ok conn) w v =
      after_handshake-Ends (timeouts_for settings network) more
        (set_entry ch c key (connected_entry (conn.now - start))) conn _ connected
        (handshake-Ends crates ch world (timeouts_for settings network) key _ conn w
          connected.counted)
    where
      connected : InHand key (update c.store key (connected_entry (conn.now - start)))
      connected = update-InHand c.store key (connected_entry (conn.now - start)) (λ e. refl) v

  -- If every write on the connection that dialling gave returns, the address is active and
  -- `outstanding` is the number of active entries of a store in its invariant, then an iteration on
  -- the address ends, whatever else the peer does, and that is so again after it.
  pub process-Ends :
      (c : Crawler ch) (start : ℕ) (dial : IoResult Connection)
      → DialFinishes dial
      → InHand key c.store
      → Ends (process crates ch settings world key t c start dial)
  unfolding process
  process-Ends c start dial w v =
      after_dial-Ends (known_network crates c.store key) start _ (set_entry ch c key begin_entry)
        dial w (update-InHand c.store key begin_entry (λ e. refl) v)
