-- ===== src/Protocol/Addr/Wire.antt =====
-- Address messages laid out on the wire, and what the two parsers make of them.
use new_p2p_crawler.Protocol.{max_addr_to_send}
use new_p2p_crawler.Prelude.{
  length, All, pos, to_le, to_be, ℕ, ◌^◌, ◌<◌, ◌≡◌, refl, ap, subst, ◌∙◌, List, [], ◌∷◌, ◌++◌,
  append-nil, append_assoc, map, arith, le→not_ltb, ◌≤◌,
}
use new_p2p_crawler.Io.{Result, ok, err}
use new_p2p_crawler.Protocol.Cursor.{Cursor, Reader, new}
use new_p2p_crawler.Protocol.Cursor.Reads.{
  ahead, InRange, Reads, remaining-ahead, Reads-take, Reads-u16_be, Reads-u32_le, Reads-u64_le,
}
use new_p2p_crawler.Protocol.Compact.RoundTrip.{compact, compact_size-write}
use new_p2p_crawler.Protocol.Version.{decode_legacy_ip}
use new_p2p_crawler.Protocol.Addr.{
  ◌>>=◌, AdvertisedAddr, ParsedAddrMessage, AddrParseError, trailing_bytes, Parse, yield, lift,
  need, finish_addr_parse, read_addr, read_addrs, check_addr_count, read_addr_message, parse_addr,
  finished,
}

-- As `Reads`, for a step of the address parse.
pub record Parses {A : Type 0} (m : Parse A) (xs : List ℕ) (a : A) : Type 0 where
  pub at :
      (c : Cursor) (rest : List ℕ)
      → InRange c
      → ahead c ≡ xs ++ rest
      → (c' : Cursor) × (m c ≡ ok (a, c')) × (ahead c' ≡ rest) × InRange c'

module _ {A : Type 0} where
  pub Parses-yield : (a : A) → Parses (yield a) [] a
  Parses-yield a = record { at = λ c rest i h. (c, refl, h, i) }

  pub Parses-need : {m : Reader A} {xs : List ℕ} {a : A} → Reads m xs a → Parses (need m) xs a
  Parses-need {m} r = record {
    at = λ c rest i h. let (c', e, h', i') = r.at c rest i h in (c', rw (e, need), h', i');
  }

  pub Parses-lift : {r : Result AddrParseError A} {a : A} → r ≡ ok a → Parses (lift r) [] a
  Parses-lift {r} {a} e = record { at = λ c rest i h. (c, rw e, h, i) }

  pub Parses-bytes :
      {m : Parse A} {xs ys : List ℕ} {a : A} → xs ≡ ys → Parses m xs a → Parses m ys a
  Parses-bytes {m} {a} p r = subst (λ t. Parses m t a) p r

module _ {A B : Type 0} where
  pub Parses-bind :
      {m : Parse A} (f : A → Parse B) {xs ys : List ℕ} {a : A} {b : B}
      → Parses m xs a
      → Parses (f a) ys b
      → Parses (m >>= f) (xs ++ ys) b
  Parses-bind {m} f {xs} {ys} {a} r s = record {
    at = λ c rest i h.
        let (c', e, h', i') = r.at c (ys ++ rest) i (h ∙ append_assoc xs ys rest) in
        let (c'', e', h'', i'') = s.at c' rest i' h' in (c'', rw (e, ◌>>=◌) e', h'', i'');
  }

-- `Ends m xs g`: wherever `xs` comes next, the parse `m` ends with the outcome `g rest`, where `rest`
-- is what stands behind `xs`.
pub record Ends {A : Type 0} (m : Parse A) (xs : List ℕ) (g : List ℕ → Result AddrParseError A)
    : Type 0 where
  pub at : (c : Cursor) (rest : List ℕ) → InRange c → ahead c ≡ xs ++ rest → finished (m c) ≡ g rest

pub Ends-bind :
    {A B : Type 0} {m : Parse A} (f : A → Parse B) {xs ys : List ℕ} {a : A}
    {g : List ℕ → Result AddrParseError B}
    → Parses m xs a
    → Ends (f a) ys g
    → Ends (m >>= f) (xs ++ ys) g
Ends-bind {m} f {xs} {ys} r s = record {
  at = λ c rest i h.
      let (c', e, h', i') = r.at c (ys ++ rest) i (h ∙ append_assoc xs ys rest) in
      rw (e, ◌>>=◌) (s.at c' rest i' h');
}

-- A record of a legacy message.
pub record LegacyRecord : Type 0 where
  pub time : ℕ
  pub services : ℕ
  pub octets : List ℕ
  pub port : ℕ

pub record IsLegacyRecord (r : LegacyRecord) : Type 0 where
  pub time_fits : r.time < 2 ^ 32
  pub services_fit : r.services < 2 ^ 64
  pub sixteen : length r.octets ≡ 16
  pub port_fits : r.port < 2 ^ 16

abbrev pub legacy_bytes : LegacyRecord → List ℕ
legacy_bytes r = to_le 4 r.time ++ (to_le 8 r.services ++ (r.octets ++ to_be 2 r.port))

abbrev pub legacy_addr : LegacyRecord → AdvertisedAddr
legacy_addr r = record {
  host = (decode_legacy_ip r.octets).0;
  port = r.port;
  network = (decode_legacy_ip r.octets).1;
  timestamp = pos r.time;
  services = r.services;
  wire_network_id = 2;
}

abbrev pub concat : {A : Type 0} → (A → List ℕ) → List A → List ℕ
concat f [] = []
concat f (x ∷ xs) = f x ++ concat f xs

Parses-read_addr :
    (r : LegacyRecord) → IsLegacyRecord r → Parses read_addr (legacy_bytes r) (legacy_addr r)
unfolding read_addr
Parses-read_addr r v = Parses-bind _ (Parses-need (Reads-u32_le r.time v.time_fits)) (
    Parses-bind _ (Parses-need (Reads-u64_le r.services v.services_fit)) (
      Parses-bind _ (Parses-need (Reads-take r.octets 16 v.sixteen)) (
        Parses-bytes (append-nil (to_be 2 r.port)) (
          Parses-bind _ (Parses-need (Reads-u16_be r.port v.port_fits))
            (Parses-yield (legacy_addr r))))))

Parses-read_addrs :
    (rs : List LegacyRecord) (out : List AdvertisedAddr)
    → All IsLegacyRecord rs
    → Parses (read_addrs (length rs) out) (concat legacy_bytes rs) (out ++ map legacy_addr rs)
unfolding read_addrs
Parses-read_addrs [] out h = rw append-nil (Parses-yield out)
Parses-read_addrs (r ∷ rs) out h = Parses-bind _ (Parses-read_addr r h.0) (
    subst (Parses _ _) (append_assoc out (legacy_addr r ∷ []) (map legacy_addr rs))
      (Parses-read_addrs rs (out ++ legacy_addr r ∷ []) h.1))

-- A payload: the count and the records.
abbrev pub addr_payload : List LegacyRecord → List ℕ
addr_payload rs = compact (length rs) ++ concat legacy_bytes rs

-- The message as a whole, or the number of bytes that were left over.
abbrev pub whole_or_trailing : ParsedAddrMessage → List ℕ → Result AddrParseError ParsedAddrMessage
whole_or_trailing m [] = ok m
whole_or_trailing m (b ∷ rest) = err (trailing_bytes (length (b ∷ rest)))

finish-ahead :
    (count unknown_entries : ℕ) (addrs : List AdvertisedAddr) (c : Cursor) (rest : List ℕ)
    → ahead c ≡ rest
    → finish_addr_parse count addrs unknown_entries c
      ≡ whole_or_trailing
          (record { declared_count = count; addrs = addrs; unknown_entries = unknown_entries })
          rest
unfolding finish_addr_parse
finish-ahead count unknown_entries addrs c [] h = ground (arith, remaining-ahead c, ap length h)
finish-ahead count unknown_entries addrs c (b ∷ rest) h =
    ground (arith, remaining-ahead c, ap length h)

pub check-count : (n : ℕ) → n ≤ max_addr_to_send → check_addr_count n ≡ ok tt
unfolding check_addr_count
check-count n h = rw (le→not_ltb max_addr_to_send n h)

pub Ends-finish :
    (count unknown_entries : ℕ) (addrs : List AdvertisedAddr)
    → Ends
        (λ c. lift (finish_addr_parse count addrs unknown_entries c) c)
        []
        (whole_or_trailing
          (record { declared_count = count; addrs = addrs; unknown_entries = unknown_entries }))
Ends-finish count unknown_entries addrs = record {
  at = λ c rest i h.
      finished-lift (finish_addr_parse count addrs unknown_entries c) c
      ∙ finish-ahead count unknown_entries addrs c rest h;
}
  where
    finished-lift :
        {A : Type 0} (r : Result AddrParseError A) (c : Cursor) → finished (lift r c) ≡ r
    finished-lift (ok a) c = refl
    finished-lift (err e) c = refl

-- A legacy message of at most 1000 records in range is read back record by record; if bytes follow,
-- the whole message is refused with their number.
pub parse_addr-payload :
    (rs : List LegacyRecord) (rest : List ℕ)
    → All IsLegacyRecord rs
    → length rs ≤ max_addr_to_send
    → parse_addr (addr_payload rs ++ rest)
      ≡ whole_or_trailing
          (record { declared_count = length rs; addrs = map legacy_addr rs; unknown_entries = 0 })
          rest
unfolding parse_addr
parse_addr-payload rs rest v few = ends.at (new (addr_payload rs ++ rest)) rest (omega arith) refl
  where
    ends : Ends read_addr_message (addr_payload rs) (
        whole_or_trailing
          (record { declared_count = length rs; addrs = map legacy_addr rs; unknown_entries = 0 }))
    ends =
        subst
          (λ t. Ends read_addr_message (compact (length rs) ++ t) (
            whole_or_trailing (record {
              declared_count = length rs;
              addrs = map legacy_addr rs;
              unknown_entries = 0;
            })))
          (append-nil (concat legacy_bytes rs))
          (Ends-bind _ (Parses-need (compact_size-write (length rs) (omega arith)).1) (
            Ends-bind _ (Parses-lift (check-count (length rs) few)) (
              Ends-bind _ (Parses-read_addrs rs [] v)
                (Ends-finish (length rs) 0 (map legacy_addr rs)))))
