-- ===== src/Crawler/Connect.antt =====
-- src/crawler.rs: `connect`, and `sam_session` with the session that all workers share.
use new_p2p_crawler.Transport.Connection.{Connection}
use new_p2p_crawler.Transport.Stream.{Stream, connection_of}
use new_p2p_crawler.Transport.Dial.{
  Network, SamSession, create, session_connect, connect_tcp, connect_socks5,
}
use new_p2p_crawler.Transport.Sam.{contains_text}
use new_p2p_crawler.Settings.{Settings}
use new_p2p_crawler.Address.{NetworkType}
use new_p2p_crawler.Node.{AddrKey}
use new_p2p_crawler.Io.{IoError, io_error, IoResult, ok, err, other}
use new_p2p_crawler.Prelude.{
  ◌==◌, if◌then◌else◌, text, Text, ℕ, ◌≡◌, ◌≢◌, ◌↔◌, ◌⊎◌, true, false, Option, none, some, ==_iff,
  Bool-cases, refl, ap, ◌∙◌, inl, inr, arith, sym, subst,
}

-- What dialling meets: the network, the clock when it starts and when a session is there, the random
-- number and the allocation of a new session, and what the other workers make of the shared session
-- while a stream is connected.
pub record Surroundings : Type 0 where
  pub net : Network
  pub now : ℕ
  pub session_at : ℕ
  pub random : ℕ
  pub identity : ℕ
  pub meanwhile : Option SamSession → Option SamSession

abbrev Cache : Type 0
Cache = Option SamSession

abbrev keep_created : IoResult SamSession → Option SamSession × Cache
keep_created (ok s) = (some s, some s)
keep_created (err e) = (none, none)

-- The session and the shared one, which is created where there is none.
unfoldable pub sam_session : Surroundings → Settings → ℕ → Cache → Option SamSession × Cache
unfolding create
sam_session env settings limit (some s) = (some s, some s)
sam_session env settings limit none = keep_created (
    create env.net env.now env.random env.identity
      settings.node_settings.network_settings.i2p_sam_host
      settings.node_settings.network_settings.i2p_sam_port limit)

-- `Arc::ptr_eq` with the shared session: then it is dropped.
abbrev drop_same : SamSession → Cache → Cache
drop_same used none = none
drop_same used (some s) = if s.identity == used.identity then none else some s

unfoldable pub forget_invalid : SamSession → IoError → Cache → Cache
unfolding contains_text text
forget_invalid used e cached =
    if contains_text (text "RESULT=INVALID_ID") e.message then drop_same used cached else cached

abbrev pub after_session : SamSession → IoResult Stream → Cache → IoResult Connection × Cache
after_session used (ok s) cached = (ok (connection_of s), cached)
after_session used (err e) cached = (err e, forget_invalid used e cached)

abbrev over_session :
    Surroundings → Text → ℕ → Option SamSession × Cache → IoResult Connection × Cache
unfolding text
over_session env host limit (none, cached) = (err (io_error other (text "no SAM session")), cached)
over_session env host limit (some s, cached) =
    after_session s (session_connect env.net env.session_at s host limit) (env.meanwhile cached)

abbrev pub opened : IoResult Stream → IoResult Connection
opened (ok s) = ok (connection_of s)
opened (err e) = err e

unfoldable pub connect :
    Surroundings → Settings → AddrKey → NetworkType → ℕ → Cache → IoResult Connection × Cache
unfolding sam_session forget_invalid connection_of connect_tcp connect_socks5 session_connect text
connect env settings key NetworkType.ipv4 limit cached =
    (opened (connect_tcp env.net env.now key.host key.port limit), cached)
connect env settings key NetworkType.ipv6 limit cached =
    (opened (connect_tcp env.net env.now key.host key.port limit), cached)
connect env settings key NetworkType.cjdns limit cached =
    (opened (connect_tcp env.net env.now key.host key.port limit), cached)
connect env settings key NetworkType.onion_v2 limit cached = (
  opened (
      connect_socks5 env.net env.now settings.node_settings.network_settings.tor_proxy_host
        settings.node_settings.network_settings.tor_proxy_port key.host key.port limit),
  cached,
)
connect env settings key NetworkType.onion_v3 limit cached = (
  opened (
      connect_socks5 env.net env.now settings.node_settings.network_settings.tor_proxy_host
        settings.node_settings.network_settings.tor_proxy_port key.host key.port limit),
  cached,
)
connect env settings key NetworkType.i2p limit cached =
    over_session env key.host limit (sam_session env settings limit cached)
connect env settings key NetworkType.unknown limit cached =
    (err (io_error other (text "unknown network type has no transport")), cached)

-- What is left of the shared session after a stream over `used`: a router that does not know the id
-- makes it go, and no other one; every other result leaves what the workers left.
abbrev pub Remembers : SamSession → Cache → IoResult Stream → Cache → Type 0
Remembers used left (ok s) cached = cached ≡ left
Remembers used left (err e) cached =
    ((contains_text (text "RESULT=INVALID_ID") e.message ≡ false) × (cached ≡ left))
    ⊎ ((contains_text (text "RESULT=INVALID_ID") e.message ≡ true)
        × ((s : SamSession) → (cached ≡ some s) ↔ ((left ≡ some s) × (s.identity ≢ used.identity))))

drop_same_iff :
    (used : SamSession) (left : Cache) (s : SamSession)
    → (drop_same used left ≡ some s) ↔ ((left ≡ some s) × (s.identity ≢ used.identity))
drop_same_iff used none s = (λ h. cc, λ h. h.0)
drop_same_iff used (some x) s = elim (Bool-cases (x.identity == used.identity)) [
  | inl e ↦ rw e (
    λ h. cc,
    λ h. absurd (
        h.1 (ap (λ (t : SamSession). t.identity) (let q : s ≡ x = cc h.0 in q) ∙ (==_iff _ _).0 e)),
  )
  | inr e ↦ rw e (
    λ h. (
      h,
      λ q.
          absurd
            (ground (arith, ap (λ (t : SamSession). t.identity) (let p : x ≡ s = cc h in p), q, e)),
    ),
    λ h. h.0,
  )
]

forget_invalid-Remembers :
    (used : SamSession) (left : Cache) (r : IoResult Stream)
    → Remembers used left r (after_session used r left).1
unfolding forget_invalid
forget_invalid-Remembers used left (ok s) = refl
forget_invalid-Remembers used left (err e) =
    elim (Bool-cases (contains_text (text "RESULT=INVALID_ID") e.message)) [
      | inl h ↦ rw h (inr (refl, drop_same_iff used left))
      | inr h ↦ rw h (inl (refl, refl))
    ]

after_session-opened :
    (used : SamSession) (r : IoResult Stream) (left : Cache)
    → (after_session used r left).0 ≡ opened r
after_session-opened used (ok s) left = refl
after_session-opened used (err e) left = refl

-- Dialling an I2P address over a session gives what connecting a stream over it gives. An error with
-- RESULT=INVALID_ID takes that session out of the shared place, if it is still there, and no other
-- session; every other result leaves the place as the other workers left it.
pub connect-Remembers :
    (env : Surroundings) (settings : Settings) (key : AddrKey) (limit : ℕ) (cached after : Cache)
    (used : SamSession)
    → sam_session env settings limit cached ≡ (some used, after)
    → ((connect env settings key NetworkType.i2p limit cached).0
        ≡ opened (session_connect env.net env.session_at used key.host limit))
      × Remembers used
          (env.meanwhile after)
          (session_connect env.net env.session_at used key.host limit)
          (connect env settings key NetworkType.i2p limit cached).1
unfolding connect
connect-Remembers env settings key limit cached after used h =
    let r : IoResult Stream = session_connect env.net env.session_at used key.host limit in
    subst
      (λ (p : Option SamSession × Cache).
        ((over_session env key.host limit p).0 ≡ opened r)
        × Remembers used (env.meanwhile after) r (over_session env key.host limit p).1)
      (sym h)
      (
        after_session-opened used r (env.meanwhile after),
        forget_invalid-Remembers used (env.meanwhile after) r,
      )
