-- ===== src/Protocol/Addr/Bounds.antt =====
-- What holds of every address message that a parser accepts, whatever the payload.
use new_p2p_crawler.Protocol.Compact.{compact_size_canonical}
use new_p2p_crawler.Crates.{Crates}
use new_p2p_crawler.Protocol.{max_addr_to_send}
use native.Mathlib.Nat.{add-zero, add-suc, suc-add}
use new_p2p_crawler.Address.{NetworkType, ipv4, ipv6, cjdns, onion_v2, onion_v3, i2p, unknown}
use new_p2p_crawler.Prelude.{
  ◌≡◌, refl, length, All, pos, ◌≤ℤ◌, Text, ℕ, ◌+◌, ◌≤◌, some, List, arith, subst, Option, none,
  length-append, All-append, zero, suc, [], ◌∷◌, sym, ◌∙◌,
}
use new_p2p_crawler.Io.{Result, ok, err}
use new_p2p_crawler.Protocol.Cursor.{Cursor, take_bytes, u8, u16_be, u32_le, new}
use native.Mathlib.Nat.{add-zero, add-suc, suc-add}
use new_p2p_crawler.Address.{NetworkType, ipv4, ipv6, cjdns, onion_v2, onion_v3, i2p, unknown}
use new_p2p_crawler.Protocol.Addr.{
  ◌>>=◌, AddrParseError, Parse, AdvertisedAddr, ParsedAddrMessage, lift, check_addr_count,
  finish_addr_parse, finished, decode_addrv2, need, check_length, entry, read_addrv2, yield,
  Entries, add_entry, read_addrv2s, read_addrv2_message, parse_addrv2,
}

-- A step that went well, taken apart.
>>=-ok_inv :
    {A B : Type 0} (m : Parse A) (f : A → Parse B) (c : Cursor) {r : B × Cursor}
    → (m >>= f) c ≡ ok r
    → (a : A) × (c' : Cursor) × (m c ≡ ok (a, c')) × (f a c' ≡ ok r)
>>=-ok_inv {A} {B} m f c {r} = go (m c) refl
  where
    go :
        (x : Result AddrParseError (A × Cursor))
        → m c ≡ x
        → (elim (m c) as (λ y. Result AddrParseError (B × Cursor)) [
          | err e ↦ err e
          | ok (a, c') ↦ f a c'
        ])
          ≡ ok r
        → (a : A) × (c' : Cursor) × (m c ≡ ok (a, c')) × (f a c' ≡ ok r)
    go (ok (a, c')) e h = (a, c', e, (rw e at h))
    go (err x) e h =
        let stuck : ◌≡◌ {A = Result AddrParseError (B × Cursor)} (err x) (ok r) = (rw e at h) in cc

-- Whatever `m` gives satisfies `P`. One rule for each way to build a parse.
record Ensures {A : Type 0} (P : A → Type 0) (m : Parse A) : Type 0 where
  at : (c : Cursor) {a : A} {c' : Cursor} → m c ≡ ok (a, c') → P a

Ensures-bind :
    {A B : Type 0} {P : B → Type 0} (Q : A → Type 0) (m : Parse A) (f : A → Parse B)
    → Ensures Q m
    → ((a : A) → Q a → Ensures P (f a))
    → Ensures P (m >>= f)
Ensures-bind Q m f hm hf = record {
  at = λ c e. let (a, c', e1, e2) = >>=-ok_inv m f c e in (hf a (hm.at c e1)).at c' e2;
}

-- A step of which nothing is used.
Ensures-any :
    {A B : Type 0} {P : B → Type 0} (m : Parse A) (f : A → Parse B)
    → ((a : A) → Ensures P (f a))
    → Ensures P (m >>= f)
Ensures-any m f hf = Ensures-bind (λ _. Unit) m f (record { at = λ c e. tt }) (λ a _. hf a)

Ensures-yield : {A : Type 0} (P : A → Type 0) (a : A) → P a → Ensures P (yield a)
Ensures-yield {A} P a h = record { at = λ c e. subst P (yielded e) h }
  where
    yielded :
        {b : A} {c c' : Cursor}
        → ◌≡◌ {A = Result AddrParseError (A × Cursor)} (ok (a, c)) (ok (b, c'))
        → a ≡ b
    yielded e = cc

lift_inv :
    {A : Type 0} (r : Result AddrParseError A) (c : Cursor) {a : A} {c' : Cursor}
    → lift r c ≡ ok (a, c')
    → r ≡ ok a
lift_inv (ok x) c e = cc
lift_inv (err x) c e = cc

Ensures-lift :
    {A : Type 0} (P : A → Type 0) (r : Result AddrParseError A)
    → ((a : A) → r ≡ ok a → P a)
    → Ensures P (lift r)
Ensures-lift P r h = record { at = λ c {a} e. h a (lift_inv r c e) }

finished_inv :
    {A : Type 0} (r : Result AddrParseError (A × Cursor)) {a : A}
    → finished r ≡ ok a
    → (c : Cursor) × (r ≡ ok (a, c))
finished_inv (ok (x, c)) e = (c, cc)
finished_inv (err x) e = cc

count_checked :
    (count : ℕ) {u : Unit {0}} → check_addr_count count ≡ ok u → count ≤ max_addr_to_send
unfolding check_addr_count
count_checked count e = ground arith

-- Which network an address of a message belongs to, by the BIP155 id on the wire.
abbrev pub NetworkOf : NetworkType → ℕ → Type 0
NetworkOf ipv4 id = id ≡ 1
NetworkOf ipv6 id = id ≡ 2
NetworkOf onion_v2 id = id ≡ 3
NetworkOf onion_v3 id = id ≡ 4
NetworkOf i2p id = id ≡ 5
NetworkOf cjdns id = id ≡ 6
NetworkOf unknown id = ⊥

pub record IsAddrV2 (a : AdvertisedAddr) : Type 0 where
  pub network_of : NetworkOf a.network a.wire_network_id
  pub not_negative : pos 0 ≤ℤ a.timestamp

-- A message is consistent: its addresses and skipped entries are as many as declared, at most 1000.
pub record IsMessage (P : AdvertisedAddr → Type 0) (m : ParsedAddrMessage) : Type 0 where
  pub counted : length m.addrs + m.unknown_entries ≡ m.declared_count
  pub bounded : m.declared_count ≤ max_addr_to_send
  pub each : All P m.addrs

finish_inv :
    (count unknown_entries : ℕ) (addrs : List AdvertisedAddr) (c : Cursor) {m : ParsedAddrMessage}
    → finish_addr_parse count addrs unknown_entries c ≡ ok m
    → m ≡ record { declared_count = count; addrs = addrs; unknown_entries = unknown_entries }
unfolding finish_addr_parse
finish_inv count unknown_entries addrs c e = ground arith

decode_network :
    (crates : Crates) (id : ℕ) (bytes : List ℕ) (host : Text) (network : NetworkType)
    → decode_addrv2 crates id bytes ≡ ok (some (host, network))
    → NetworkOf network id
unfolding decode_addrv2
decode_network crates id bytes host ipv4 e = ground arith
decode_network crates id bytes host _ e = ground arith

-- What an entry may be: skipped, or a consistent address.
abbrev IsEntry : Option AdvertisedAddr → Type 0
IsEntry none = Unit
IsEntry (some a) = IsAddrV2 a

entry-IsEntry :
    (crates : Crates) (ts services id port : ℕ) (bytes : List ℕ)
    (decoded : Option (Text × NetworkType))
    → decode_addrv2 crates id bytes ≡ ok decoded
    → IsEntry (entry ts services id port decoded)
entry-IsEntry crates ts services id port bytes none d = tt
entry-IsEntry crates ts services id port bytes (some (host, network)) d = record {
  network_of = decode_network crates id bytes host network d;
  not_negative = omega arith;
}

read_addrv2-Ensures : (crates : Crates) → Ensures IsEntry (read_addrv2 crates)
unfolding read_addrv2
read_addrv2-Ensures crates = Ensures-any (need u32_le) _ λ ts.
    Ensures-any (need compact_size_canonical) _ λ services. Ensures-any (need u8) _ λ id.
      Ensures-any (need compact_size_canonical) _ λ len.
        Ensures-any (lift (check_length id len)) _ λ u.
          Ensures-any (need (take_bytes len)) _ λ bytes. Ensures-any (need u16_be) _ λ port.
            Ensures-bind (λ d. decode_addrv2 crates id bytes ≡ ok d)
              (lift (decode_addrv2 crates id bytes)) _ (Ensures-lift _ _ (λ d e. e))
              λ decoded e.
                Ensures-yield IsEntry _ (entry-IsEntry crates ts services id port bytes decoded e)

-- What the loop keeps: as many entries as were read, and each address consistent.
record IsRead (total : ℕ) (out : Entries) : Type 0 where
  counted : length out.0 + out.1 ≡ total
  each : All IsAddrV2 out.0

add_entry-IsRead :
    (total : ℕ) (out : Entries) (o : Option AdvertisedAddr)
    → IsRead total out
    → IsEntry o
    → IsRead (suc total) (add_entry out o)
add_entry-IsRead total out none v h = record { counted = omega (arith, v.counted); each = v.each }
add_entry-IsRead total out (some a) v h = record {
  counted = omega (arith, v.counted, length-append out.0 (a ∷ []));
  each = All-append IsAddrV2 out.0 (a ∷ []) v.each (h, tt);
}

read_addrv2s-Ensures :
    (crates : Crates) (left total : ℕ) (out : Entries)
    → IsRead total out
    → Ensures (IsRead (total + left)) (read_addrv2s crates left out)
unfolding read_addrv2s
read_addrv2s-Ensures crates zero total out v = Ensures-yield _ out (rw add-zero v)
read_addrv2s-Ensures crates (suc left) total out v =
    Ensures-bind IsEntry (read_addrv2 crates) _ (read_addrv2-Ensures crates) λ o h. rw add-suc (
      rw suc-add at (
        read_addrv2s-Ensures crates left (suc total) (add_entry out o)
          (add_entry-IsRead total out o v h)))

read_addrv2_message-Ensures :
    (crates : Crates) → Ensures (IsMessage IsAddrV2) (read_addrv2_message crates)
unfolding read_addrv2_message
read_addrv2_message-Ensures crates = Ensures-any (need compact_size_canonical) _ λ count.
    Ensures-bind (λ _. count ≤ max_addr_to_send) (lift (check_addr_count count)) _
      (Ensures-lift _ _ (λ u e. count_checked count e))
      λ u few.
        Ensures-bind (IsRead (0 + count)) (read_addrv2s crates count ([], 0)) _
          (read_addrv2s-Ensures crates count 0 ([], 0)
            (record { counted = omega arith; each = tt }))
          λ out v. record { at = finished_message count out few v }
  where
    finished_message :
        (count : ℕ) (out : Entries)
        → count ≤ max_addr_to_send
        → IsRead (0 + count) out
        → (c : Cursor) {m : ParsedAddrMessage} {c' : Cursor}
        → lift (finish_addr_parse count out.0 out.1 c) c ≡ ok (m, c')
        → IsMessage IsAddrV2 m
    finished_message count out few v c e =
        subst (IsMessage IsAddrV2) (sym (finish_inv count out.1 out.0 c (lift_inv _ c e)))
          (record { counted = v.counted ∙ omega arith; bounded = few; each = v.each })

-- Every message that `parse_addrv2` accepts declares at most 1000 entries and has exactly that many,
-- each either skipped or an address whose network is the one of its BIP155 id and whose timestamp is
-- not negative; an address of an unknown network is never among them.
pub parse_addrv2-IsMessage :
    (crates : Crates) (payload : List ℕ) {m : ParsedAddrMessage}
    → parse_addrv2 crates payload ≡ ok m
    → IsMessage IsAddrV2 m
unfolding parse_addrv2
parse_addrv2-IsMessage crates payload e =
    let (c, r) = finished_inv _ e in (read_addrv2_message-Ensures crates).at (new payload) r
