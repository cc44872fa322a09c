-- ===== src/AddrLog/Journal/Ordered.antt =====
-- Runs of the log of src/addrlog.rs from its creation.
use new_p2p_crawler.AddrLog.Operations.{AddrLog, create, Call, call}
use new_p2p_crawler.AddrLog.Journal.{
  Entry, whole, torn, Journal, IsOrdered, Promises, acknowledged, torn_off, lost, checkpoint,
  refused,
}
use new_p2p_crawler.AddrLog.Journal.Refines.{Represents, call-Keeps}
use new_p2p_crawler.Crates.{Crates}
use new_p2p_crawler.Io.{IoResult}
use new_p2p_crawler.Prelude.{
  length, take, Text, ℕ, ◌+◌, ◌-◌, ◌^◌, ◌≤◌, ◌<◌, refl, List, [], ◌∷◌, ◌++◌, arith,
}

IsOrdered-later :
    (low : ℕ) (es : List Entry) (high : ℕ) → IsOrdered low es high → IsOrdered low es (high + 1)
IsOrdered-later low [] high h = omega arith
IsOrdered-later low (whole id s ∷ es) high h = (h.0, IsOrdered-later id es high h.1)
IsOrdered-later low (torn s ∷ es) high h = IsOrdered-later low es high h

IsOrdered-whole :
    (low : ℕ) (es : List Entry) (high : ℕ) (s : Text)
    → IsOrdered low es high
    → IsOrdered low (es ++ (whole high s ∷ [])) (high + 1)
IsOrdered-whole low [] high s h = (h, omega arith)
IsOrdered-whole low (whole id t ∷ es) high s h = (h.0, IsOrdered-whole id es high s h.1)
IsOrdered-whole low (torn t ∷ es) high s h = IsOrdered-whole low es high s h

IsOrdered-torn :
    (low : ℕ) (es : List Entry) (high : ℕ) (s : Text)
    → IsOrdered low es high
    → IsOrdered low (es ++ (torn s ∷ [])) (high + 1)
IsOrdered-torn low [] high s h = omega arith
IsOrdered-torn low (whole id t ∷ es) high s h = (h.0, IsOrdered-torn id es high s h.1)
IsOrdered-torn low (torn t ∷ es) high s h = IsOrdered-torn low es high s h

Promises-IsOrdered :
    {crates : Crates} {c : Call} {j j' : Journal} {reply : IoResult ℕ}
    → Promises crates c j j' reply
    → IsOrdered 0 j.entries j.next_event_id
    → IsOrdered 0 j'.entries j'.next_event_id
Promises-IsOrdered {j} (acknowledged s e) h = IsOrdered-whole 0 j.entries j.next_event_id s h
Promises-IsOrdered {j} (torn_off s n x e) h =
    IsOrdered-torn 0 j.entries j.next_event_id (take n s) h
Promises-IsOrdered {j} (lost s x e) h = IsOrdered-later 0 j.entries j.next_event_id h
Promises-IsOrdered (checkpoint e) h = h
Promises-IsOrdered (refused x e) h = h

Promises-next :
    {crates : Crates} {c : Call} {j j' : Journal} {reply : IoResult ℕ}
    → Promises crates c j j' reply
    → j'.next_event_id ≤ j.next_event_id + 1
Promises-next (acknowledged s e) = omega arith
Promises-next (torn_off s n x e) = omega arith
Promises-next (lost s x e) = omega arith
Promises-next (checkpoint e) = omega arith
Promises-next (refused x e) = omega arith

-- The log after some calls.
unfoldable pub run_calls : Crates → AddrLog → List Call → AddrLog
unfolding call
run_calls crates log [] = log
run_calls crates log (c ∷ cs) = run_calls crates (call crates log c).0 cs

-- A journal with rising ids that the log stands for.
abbrev pub IsKept : AddrLog → Type 0
IsKept log = (j : Journal) × Represents log j × IsOrdered 0 j.entries j.next_event_id

run_calls_from :
    (crates : Crates) (log : AddrLog) (cs : List Call)
    → IsKept log
    → log.next_event_id + length cs < 2 ^ 64
    → IsKept (run_calls crates log cs)
unfolding run_calls
run_calls_from crates log [] kept room = kept
run_calls_from crates log (c ∷ cs) (j, rep, ordered) room =
    let (j', rep', promised) = call-Keeps crates log j rep (omega (arith, room)) c in
    run_calls_from crates (call crates log c).0 cs (j', rep', Promises-IsOrdered promised ordered)
      (omega (arith, room, rep.next, rep'.next, Promises-next promised))

create-IsKept : IsKept create
create-IsKept = (
  record { entries = []; synced = 0; next_event_id = 1 },
  record { bytes = refl; last = refl; next = refl; bound = omega arith; disk = refl },
  omega arith,
)

-- After any fewer than 2^64 - 1 calls of a new log, whatever the file system and the writer thread
-- do, the bytes it has taken are the records of a journal in order: the ids of the whole ones rise
-- and are below the next id, the last of them is the durable event id, and what is on the disk is
-- the records up to some point.
pub run_calls-IsKept :
    (crates : Crates) (cs : List Call)
    → length cs < 2 ^ 64 - 1
    → IsKept (run_calls crates create cs)
run_calls-IsKept crates cs room =
    run_calls_from crates create cs create-IsKept (omega (arith, room))
