-- ===== src/Protocol/Addr/WireV2.antt =====
-- BIP155 messages laid out on the wire, and what `parse_addrv2` makes of them.
use new_p2p_crawler.Prelude.{
  length, All, to_le, to_be, Text, ℕ, suc, ◌+◌, ◌^◌, ◌≤◌, ◌<◌, ◌≡◌, refl, sym, subst, Option, none,
  some, List, [], ◌∷◌, ◌++◌, append-nil, append_assoc, arith,
}
use new_p2p_crawler.Io.{ok}
use new_p2p_crawler.Crates.{Crates}
use new_p2p_crawler.Address.{NetworkType}
use new_p2p_crawler.Protocol.{max_addr_to_send}
use new_p2p_crawler.Protocol.Cursor.{new}
use new_p2p_crawler.Protocol.Cursor.Reads.{Reads-take, Reads-u8, Reads-u16_be, Reads-u32_le}
use new_p2p_crawler.Protocol.Compact.RoundTrip.{compact, compact_size-write}
use new_p2p_crawler.Protocol.Addr.{
  AdvertisedAddr, ParsedAddrMessage, decode_addrv2, expected_length, check_length, entry,
  read_addrv2, Entries, add_entry, read_addrv2s, read_addrv2_message, parse_addrv2,
}
use new_p2p_crawler.Protocol.Addr.Wire.{
  Parses, Parses-yield, Parses-need, Parses-lift, Parses-bytes, Parses-bind, Ends, Ends-bind,
  concat, whole_or_trailing, check-count, Ends-finish,
}

-- A record on the wire, with what its address decodes to: `none` for a network that is not known.
pub record V2Record : Type 0 where
  pub time : ℕ
  pub services : ℕ
  pub net_id : ℕ
  pub bytes : List ℕ
  pub port : ℕ
  pub decoded : Option (Text × NetworkType)

pub record IsV2Record (crates : Crates) (r : V2Record) : Type 0 where
  pub time_fits : r.time < 2 ^ 32
  pub services_fit : r.services < 2 ^ 64
  pub at_most : length r.bytes ≤ 512
  pub expected : length r.bytes ≡ expected_length r.net_id (length r.bytes)
  pub port_fits : r.port < 2 ^ 16
  pub decodes : decode_addrv2 crates r.net_id r.bytes ≡ ok r.decoded

abbrev pub v2_bytes : V2Record → List ℕ
v2_bytes r =
    to_le 4 r.time
    ++ (compact r.services
        ++ (r.net_id ∷ (compact (length r.bytes) ++ (r.bytes ++ to_be 2 r.port))))

abbrev pub v2_entry : V2Record → Option AdvertisedAddr
v2_entry r = entry r.time r.services r.net_id r.port r.decoded

-- The addresses of known networks in order, and the number of the others.
abbrev keep : Option AdvertisedAddr → List AdvertisedAddr → List AdvertisedAddr
keep none rest = rest
keep (some a) rest = a ∷ rest

abbrev pub known : List V2Record → List AdvertisedAddr
known [] = []
known (r ∷ rs) = keep (v2_entry r) (known rs)

abbrev skip : Option AdvertisedAddr → ℕ → ℕ
skip none n = suc n
skip (some a) n = n

abbrev pub skipped : List V2Record → ℕ
skipped [] = 0
skipped (r ∷ rs) = skip (v2_entry r) (skipped rs)

abbrev join : Entries → List V2Record → Entries
join (out, n) rs = (out ++ known rs, n + skipped rs)

join-cons :
    (out : Entries) (r : V2Record) (rs : List V2Record)
    → join (add_entry out (v2_entry r)) rs ≡ join out (r ∷ rs)
join-cons (out, n) r rs = go (v2_entry r)
  where
    go :
        (e : Option AdvertisedAddr)
        → join (add_entry (out, n) e) rs ≡ (out ++ keep e (known rs), n + skip e (skipped rs))
    go none = λ i. (out ++ known rs, add_one i)
      where
        add_one : n + 1 + skipped rs ≡ n + suc (skipped rs)
        add_one = omega arith
    go (some a) = λ i. (append_assoc out (a ∷ []) (known rs) i, n + skipped rs)

module _ (crates : Crates) where
  check-length :
      (r : V2Record) → IsV2Record crates r → check_length r.net_id (length r.bytes) ≡ ok tt
  unfolding check_length
  check-length r v = ground (arith, v.at_most, v.expected)

  Parses-read_addrv2 :
      (r : V2Record) → IsV2Record crates r → Parses (read_addrv2 crates) (v2_bytes r) (v2_entry r)
  unfolding read_addrv2
  Parses-read_addrv2 r v = Parses-bind _ (Parses-need (Reads-u32_le r.time v.time_fits)) (
      Parses-bind _ (Parses-need (compact_size-write r.services v.services_fit).1) (
        Parses-bind _ (Parses-need (Reads-u8 r.net_id)) (
          Parses-bind _
            (Parses-need (compact_size-write (length r.bytes) (omega (arith, v.at_most))).1)
            (Parses-bind _ (Parses-lift (check-length r v)) (
              Parses-bind _ (Parses-need (Reads-take r.bytes (length r.bytes) refl)) (
                Parses-bytes (append-nil (to_be 2 r.port)) (
                  Parses-bind _ (Parses-need (Reads-u16_be r.port v.port_fits))
                    (Parses-bind _ (Parses-lift v.decodes) (Parses-yield (v2_entry r))))))))))

  Parses-read_addrv2s :
      (rs : List V2Record) (out : Entries)
      → All (IsV2Record crates) rs
      → Parses (read_addrv2s crates (length rs) out) (concat v2_bytes rs) (join out rs)
  unfolding read_addrv2s
  Parses-read_addrv2s [] out h =
      subst (Parses _ _) (λ i. (sym (append-nil out.0) i, nothing i)) (Parses-yield out)
    where
      nothing : out.1 ≡ out.1 + 0
      nothing = omega arith
  Parses-read_addrv2s (r ∷ rs) out h = Parses-bind _ (Parses-read_addrv2 r h.0) (
      subst (Parses _ _) (join-cons out r rs)
        (Parses-read_addrv2s rs (add_entry out (v2_entry r)) h.1))

abbrev pub v2_payload : List V2Record → List ℕ
v2_payload rs = compact (length rs) ++ concat v2_bytes rs

abbrev pub v2_message : List V2Record → ParsedAddrMessage
v2_message rs = record {
  declared_count = length rs;
  addrs = known rs;
  unknown_entries = 0 + skipped rs;
}

-- A BIP155 message of at most 1000 records in range is read back: the addresses of known networks in
-- order and the number of the others; if bytes follow, it is refused with their number.
pub parse_addrv2-payload :
    (crates : Crates) (rs : List V2Record) (rest : List ℕ)
    → All (IsV2Record crates) rs
    → length rs ≤ max_addr_to_send
    → parse_addrv2 crates (v2_payload rs ++ rest) ≡ whole_or_trailing (v2_message rs) rest
unfolding parse_addrv2
parse_addrv2-payload crates rs rest v few =
    ends.at (new (v2_payload rs ++ rest)) rest (omega arith) refl
  where
    ends : Ends (read_addrv2_message crates) (v2_payload rs) (whole_or_trailing (v2_message rs))
    ends =
        subst
          (λ t.
            Ends (read_addrv2_message crates) (compact (length rs) ++ t)
              (whole_or_trailing (v2_message rs)))
          (append-nil (concat v2_bytes rs))
          (Ends-bind _ (Parses-need (compact_size-write (length rs) (omega arith)).1) (
            Ends-bind _ (Parses-lift (check-count (length rs) few)) (
              Ends-bind _ (Parses-read_addrv2s crates rs ([], 0) v)
                (Ends-finish (length rs) (0 + skipped rs) (known rs)))))
