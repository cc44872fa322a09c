-- ===== src/AddrLog/Operations.antt =====
-- src/addrlog.rs: the operations of `AddrLog`. Each holds the lock on the next id from the id to
-- the reply, so they run one after the other; the channel has one command at most.
use new_p2p_crawler.AddrLog.Blocks.{Responder, block_text, outcome_text, malformed_text}
use new_p2p_crawler.AddrLog.Writer.{
  Writer, new_writer, WriteOutcome, SyncOutcome, on_append, on_flush,
}
use new_p2p_crawler.Protocol.Addr.{ParsedAddrMessage, AddrParseError}
use new_p2p_crawler.Crates.{Crates}
use new_p2p_crawler.Node.{CollectionOutcome}
use new_p2p_crawler.Node.Stats.{add64}
use new_p2p_crawler.Io.{IoError, io_error, IoResult, err, broken_pipe}
use new_p2p_crawler.Prelude.{text, Text, ℕ, List}

pub record AddrLog : Type 0 where
  pub writer : Writer
  pub next_event_id : ℕ

abbrev pub create : AddrLog
create = record { writer = new_writer; next_event_id = 1 }

-- How the writer thread meets a command: it is gone, it goes before it answers, or it answers.
pub data Delivery (O : Type 0) : Type 0 where
  not_sent not_answered : Delivery O
  handled : O → Delivery O

abbrev pub not_sent_error : IoError
unfolding text
not_sent_error = io_error broken_pipe (text "address writer stopped")

abbrev pub not_answered_error : IoError
unfolding text
not_answered_error = io_error broken_pipe (text "address writer dropped acknowledgement")

abbrev with_writer : AddrLog → Writer × IoResult ℕ → AddrLog × IoResult ℕ
with_writer log (w, reply) = (record log { writer = w }, reply)

unfoldable pub append : AddrLog → ℕ → Text → Delivery WriteOutcome → AddrLog × IoResult ℕ
unfolding on_append
append log event_id bytes not_sent = (log, err not_sent_error)
append log event_id bytes not_answered = (log, err not_answered_error)
append log event_id bytes (handled o) = with_writer log (on_append log.writer bytes event_id o)

-- `*next_event_id += 1`
abbrev pub take_id : AddrLog → AddrLog
take_id log = record log { next_event_id = add64 log.next_event_id 1 }

unfoldable pub write_block :
    AddrLog → Responder → ParsedAddrMessage → Delivery WriteOutcome → AddrLog × IoResult ℕ
unfolding append block_text
write_block log r parsed d =
    append (take_id log) log.next_event_id (block_text log.next_event_id r parsed) d

unfoldable pub write_outcome :
    AddrLog → Text → ℕ → CollectionOutcome → Delivery WriteOutcome → AddrLog × IoResult ℕ
unfolding append outcome_text
write_outcome log host port outcome d =
    append (take_id log) log.next_event_id (outcome_text log.next_event_id host port outcome) d

unfoldable pub write_malformed :
    Crates
    → AddrLog
    → Text
    → ℕ
    → Text
    → AddrParseError
    → List ℕ
    → Delivery WriteOutcome
    → AddrLog × IoResult ℕ
unfolding append malformed_text
write_malformed crates log host port message_type error payload d =
    append (take_id log) log.next_event_id
      (malformed_text crates log.next_event_id host port message_type error payload) d

unfoldable pub flush : AddrLog → Delivery SyncOutcome → AddrLog × IoResult ℕ
unfolding on_flush
flush log not_sent = (log, err not_sent_error)
flush log not_answered = (log, err not_answered_error)
flush log (handled o) = with_writer log (on_flush log.writer o)

-- A call of the log, and a run of calls with the replies.
pub data Call : Type 0 where
  block : Responder → ParsedAddrMessage → Delivery WriteOutcome → Call
  outcome : Text → ℕ → CollectionOutcome → Delivery WriteOutcome → Call
  malformed : Text → ℕ → Text → AddrParseError → List ℕ → Delivery WriteOutcome → Call
  flushed : Delivery SyncOutcome → Call

unfoldable pub call : Crates → AddrLog → Call → AddrLog × IoResult ℕ
unfolding write_block write_outcome write_malformed flush
call crates log (block r parsed d) = write_block log r parsed d
call crates log (outcome host port o d) = write_outcome log host port o d
call crates log (malformed host port message_type error payload d) =
    write_malformed crates log host port message_type error payload d
call crates log (flushed d) = flush log d
