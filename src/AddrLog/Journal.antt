-- ===== src/AddrLog/Journal.antt =====
-- What the log of src/addrlog.rs promises, without its buffer and its thread: a journal of records,
-- each whole under its id or torn off by a failed write, and how many of them were synced.
pub mod Refines
pub mod Ordered
use new_p2p_crawler.AddrLog.Blocks.{block_text, outcome_text, malformed_text}
use new_p2p_crawler.AddrLog.Operations.{Call, block, outcome, malformed, flushed}
use new_p2p_crawler.Crates.{Crates}
use new_p2p_crawler.Io.{IoError, IoResult, ok, err}
use new_p2p_crawler.Prelude.{
  length, take, Text, ℕ, ◌+◌, ◌<◌, ◌≡◌, Option, none, some, List, [], ◌∷◌, ◌++◌,
}

pub data Entry : Type 0 where
  whole : (event_id : ℕ) → Text → Entry
  torn : Text → Entry

pub record Journal : Type 0 where
  pub entries : List Entry
  pub synced : ℕ
  pub next_event_id : ℕ

abbrev pub entry_text : Entry → Text
entry_text (whole event_id s) = s
entry_text (torn s) = s

abbrev pub text_of : List Entry → Text
text_of [] = []
text_of (e ∷ es) = entry_text e ++ text_of es

-- The id of the last whole record, or the id given where there is none.
abbrev pub last_id : ℕ → List Entry → ℕ
last_id id [] = id
last_id id (whole event_id s ∷ es) = last_id event_id es
last_id id (torn s ∷ es) = last_id id es

-- The ids of the whole records rise, above `low` and below `high`.
abbrev pub IsOrdered : ℕ → List Entry → ℕ → Type 0
IsOrdered low [] high = low < high
IsOrdered low (whole event_id s ∷ es) high = (low < event_id) × IsOrdered event_id es high
IsOrdered low (torn s ∷ es) high = IsOrdered low es high

-- The record that a call hands over under an id; a flush has none.
pub record_text : Crates → ℕ → Call → Option Text
record_text crates id (block r parsed d) = some (block_text id r parsed)
record_text crates id (outcome host port o d) = some (outcome_text id host port o)
record_text crates id (malformed host port message_type error payload d) =
    some (malformed_text crates id host port message_type error payload)
record_text crates id (flushed d) = none

abbrev pub with_entry : Journal → Entry → Journal
with_entry j e = record {
  entries = j.entries ++ (e ∷ []);
  synced = j.synced;
  next_event_id = j.next_event_id + 1;
}

-- One call on the journal, and its reply.
pub data Promises (crates : Crates) (c : Call) (j : Journal) : Journal → IoResult ℕ → Type 0 where
  -- the record is whole, under the next id, which is the reply
  acknowledged :
      (s : Text)
      → record_text crates j.next_event_id c ≡ some s
      → Promises crates c j (with_entry j (whole j.next_event_id s)) (ok j.next_event_id)
  -- some of its bytes are there, and the reply is an error
  torn_off :
      (s : Text) (n : ℕ) (e : IoError)
      → record_text crates j.next_event_id c ≡ some s
      → Promises crates c j (with_entry j (torn (take n s))) (err e)
  -- an id is used up and nothing was written
  lost :
      (s : Text) (e : IoError)
      → record_text crates j.next_event_id c ≡ some s
      → Promises crates c j (record j { next_event_id = j.next_event_id + 1 }) (err e)
  -- every record is on the disk, and the reply is the id of the last whole one
  checkpoint :
      record_text crates j.next_event_id c ≡ none
      → Promises crates c j (record j { synced = length j.entries }) (ok (last_id 0 j.entries))
  -- nothing changes
  refused :
      (e : IoError) → record_text crates j.next_event_id c ≡ none → Promises crates c j j (err e)
