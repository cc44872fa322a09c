-- ===== src/AddrLog/Journal/Refines.antt =====
-- The log of src/addrlog.rs implements the journal.
use new_p2p_crawler.AddrLog.Writer.{
  written, write_failed, WriteOutcome, SyncOutcome, synced, flush_failed, sync_failed, on_append,
  on_flush,
}
use new_p2p_crawler.AddrLog.Operations.{
  AddrLog, Delivery, not_sent, not_answered, handled, append, take_id, write_block, write_outcome,
  write_malformed, flush, Call, block, outcome, malformed, flushed, call, not_sent_error,
  not_answered_error,
}
use new_p2p_crawler.AddrLog.Journal.{
  Entry, whole, torn, Journal, text_of, entry_text, last_id, record_text, with_entry, Promises,
  acknowledged, torn_off, lost, checkpoint, refused,
}
use new_p2p_crawler.Crates.{Crates}
use new_p2p_crawler.Io.{IoError, IoResult, ok}
use new_p2p_crawler.Prelude.{
  length, take, Text, ℕ, ◌+◌, ◌^◌, ◌≤◌, ◌<◌, ◌≡◌, refl, ap, some, List, [], ◌∷◌, ◌++◌, append-nil,
  append_assoc, length-append, take-append_le, sym, subst, ◌∙◌, none, arith,
}

-- The log and the journal tell the same: the bytes accepted, the bytes on the disk, the ids.
pub record Represents (log : AddrLog) (j : Journal) : Type 0 where
  pub bytes : log.writer.accepted ≡ text_of j.entries
  pub last : log.writer.durable_event_id ≡ last_id 0 j.entries
  pub next : log.next_event_id ≡ j.next_event_id
  pub bound : j.synced ≤ length j.entries
  pub disk : log.writer.on_disk ≡ length (text_of (take j.synced j.entries))

text_of-append :
    (es : List Entry) (e : Entry) → text_of (es ++ (e ∷ [])) ≡ text_of es ++ entry_text e
text_of-append [] e = append-nil (entry_text e)
text_of-append (x ∷ es) e = simp (text_of-append es e, append_assoc)

last_id-whole :
    (id : ℕ) (es : List Entry) (event_id : ℕ) (s : Text)
    → last_id id (es ++ (whole event_id s ∷ [])) ≡ event_id
last_id-whole id [] event_id s = refl
last_id-whole id (whole i t ∷ es) event_id s = last_id-whole i es event_id s
last_id-whole id (torn t ∷ es) event_id s = last_id-whole id es event_id s

last_id-torn :
    (id : ℕ) (es : List Entry) (s : Text) → last_id id (es ++ (torn s ∷ [])) ≡ last_id id es
last_id-torn id [] s = refl
last_id-torn id (whole i t ∷ es) s = last_id-torn i es s
last_id-torn id (torn t ∷ es) s = last_id-torn id es s

take_all {ℓ} : {A : Type ℓ} (xs : List A) → take (length xs) xs ≡ xs
take_all [] = refl
take_all (x ∷ xs) = ap (λ t. x ∷ t) (take_all xs)

-- The two after one more record: whole, torn off, or lost.
module _ {log : AddrLog} {j : Journal} (rep : Represents log j)
    (room : log.next_event_id + 1 < 2 ^ 64) where
  next_lem : (take_id log).next_event_id ≡ j.next_event_id + 1
  next_lem = omega (arith, rep.next)

  disk_lem :
      (e : Entry) → log.writer.on_disk ≡ length (text_of (take j.synced (j.entries ++ (e ∷ []))))
  disk_lem e =
      rep.disk
      ∙ ap (λ t. length (text_of t)) (sym (take-append_le j.synced j.entries (e ∷ []) rep.bound))

  bound_lem : (e : Entry) → j.synced ≤ length (j.entries ++ (e ∷ []))
  bound_lem e = omega (arith, rep.bound, length-append {0} j.entries (e ∷ []))

  whole-Represents :
      (s : Text) (id : ℕ)
      → id ≡ j.next_event_id
      → Represents
          (record (take_id log) { writer = (on_append log.writer s id written).0 })
          (with_entry j (whole j.next_event_id s))
  unfolding on_append
  whole-Represents s id e = record {
    bytes = ap (λ t. t ++ s) rep.bytes ∙ sym (text_of-append j.entries (whole j.next_event_id s));
    last = e ∙ sym (last_id-whole 0 j.entries j.next_event_id s);
    next = next_lem;
    bound = bound_lem (whole j.next_event_id s);
    disk = disk_lem (whole j.next_event_id s);
  }

  torn-Represents :
      (s : Text) (id n : ℕ) (e : IoError)
      → Represents
          (record (take_id log) { writer = (on_append log.writer s id (write_failed n e)).0 })
          (with_entry j (torn (take n s)))
  unfolding on_append
  torn-Represents s id n e = record {
    bytes = ap (λ t. t ++ take n s) rep.bytes ∙ sym (text_of-append j.entries (torn (take n s)));
    last = rep.last ∙ sym (last_id-torn 0 j.entries (take n s));
    next = next_lem;
    bound = bound_lem (torn (take n s));
    disk = disk_lem (torn (take n s));
  }

  lost-Represents : Represents (take_id log) (record j { next_event_id = j.next_event_id + 1 })
  lost-Represents = record {
    bytes = rep.bytes;
    last = rep.last;
    next = next_lem;
    bound = rep.bound;
    disk = rep.disk;
  }

-- What a call makes of the journal, for the log and the reply that it gives.
abbrev pub Keeps : Crates → Call → Journal → AddrLog × IoResult ℕ → Type 0
Keeps crates c j (log, reply) = (j' : Journal) × Represents log j' × Promises crates c j j' reply

module _ (crates : Crates) (c : Call) {log : AddrLog} {j : Journal} (rep : Represents log j) where
  append-Keeps :
      log.next_event_id + 1 < 2 ^ 64
      → (s : Text) → record_text crates log.next_event_id c ≡ some s
      → (d : Delivery WriteOutcome) → Keeps crates c j (append (take_id log) log.next_event_id s d)
  unfolding append on_append
  append-Keeps room s h not_sent =
      (_, lost-Represents rep room, lost s not_sent_error (rw rep.next at h))
  append-Keeps room s h not_answered =
      (_, lost-Represents rep room, lost s not_answered_error (rw rep.next at h))
  append-Keeps room s h (handled written) = (
    _,
    whole-Represents rep room s log.next_event_id rep.next,
    subst (λ id. Promises crates c j (with_entry j (whole j.next_event_id s)) (ok id))
        (sym rep.next) (acknowledged s (rw rep.next at h)),
  )
  append-Keeps room s h (handled (write_failed n e)) =
      (_, torn-Represents rep room s log.next_event_id n e, torn_off s n e (rw rep.next at h))

  flush-Keeps :
      record_text crates j.next_event_id c ≡ none
      → (d : Delivery SyncOutcome) → Keeps crates c j (flush log d)
  unfolding flush on_flush
  flush-Keeps h not_sent = (j, rep, refused not_sent_error h)
  flush-Keeps h not_answered = (j, rep, refused not_answered_error h)
  flush-Keeps h (handled (flush_failed e)) = (j, rep, refused e h)
  flush-Keeps h (handled (sync_failed e)) = (j, rep, refused e h)
  flush-Keeps h (handled synced) = (
    record j { synced = length j.entries },
    record {
      bytes = rep.bytes;
      last = rep.last;
      next = rep.next;
      bound = omega arith;
      disk = ap length rep.bytes ∙ ap (λ t. length (text_of t)) (sym (take_all j.entries));
    },
    subst (λ id. Promises crates c j (record j { synced = length j.entries }) (ok id))
        (sym rep.last) (checkpoint h),
  )

-- For a log that stands for a journal, and below the last id of 64 bits, every call gives a log that
-- stands for a next journal, with a step and a reply that the journal promises for the call,
-- whatever the file system and the writer thread do.
pub call-Keeps :
    (crates : Crates) (log : AddrLog) (j : Journal)
    → Represents log j
    → log.next_event_id + 1 < 2 ^ 64
    → (c : Call) → Keeps crates c j (call crates log c)
unfolding call record_text write_block write_outcome write_malformed
call-Keeps crates log j rep room (block r parsed d) =
    append-Keeps crates (block r parsed d) rep room _ refl d
call-Keeps crates log j rep room (outcome host port o d) =
    append-Keeps crates (outcome host port o d) rep room _ refl d
call-Keeps crates log j rep room (malformed host port message_type error payload d) =
    append-Keeps crates (malformed host port message_type error payload d) rep room _ refl d
call-Keeps crates log j rep room (flushed d) = flush-Keeps crates (flushed d) rep refl d
