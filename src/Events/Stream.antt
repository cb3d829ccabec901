-- ===== src/Events/Stream.antt =====
-- cmd/saguaro-eventd/main.go: the channel of events, what is put into it, and the batches that are
-- written to the database.
use sgsu.Prelude.{
  ℕ, Bool, not, ◌||◌, Option, none, some, String, List, [], ◌∷◌, ◌++◌, str_eq, leb, ◌==◌,
  if◌then◌else◌, length,
}
use sgsu.Prelude.Integers.{ℤ}
use sgsu.Events.Collector.{
  LogEvent, JournalEntry, EveRecord, rank, below_rank, parse_journal_line, parse_eve_line,
}

-- What one source reads: a line of the journal or of the alerts, as far as it decodes, the time, and
-- whether the channel has room
pub data Line : Type 0 where
  journal : Option JournalEntry → (now : ℤ) → (room : Bool) → Line
  eve : Option EveRecord → (now : ℤ) → (room : Bool) → Line

-- The collector: the cursor of the journal, and what the channel was given, the last one first
pub record Collected : Type 0 where
  pub cursor : String
  pub sent : List LogEvent

-- An event that is not below the least severity is put into the channel where it has room.
unfoldable pub offer_event :
    (min_sev : String) → (room : Bool) → Option LogEvent → Collected → Collected
unfolding rank
offer_event min_sev room none s = s
offer_event min_sev room (some e) s =
    if below_rank (rank e.severity) (rank min_sev) || not room
    then s
    else record s { sent = e ∷ s.sent }

-- One line: the loop of `follow`, and the function that `TailEve` is given
unfoldable pub collect : (min_sev : String) → Line → Collected → Collected
unfolding parse_journal_line parse_eve_line offer_event
collect min_sev (journal je now room) s =
    let parsed = parse_journal_line now je in
    offer_event min_sev room parsed.0
      (record s { cursor = if str_eq parsed.1 "" then s.cursor else parsed.1 })
collect min_sev (eve rec now room) s = offer_event min_sev room (parse_eve_line now rec) s

unfoldable pub collect_all : (min_sev : String) → List Line → Collected → Collected
unfolding collect
collect_all min_sev [] s = s
collect_all min_sev (l ∷ ls) s = collect_all min_sev ls (collect min_sev l s)

-- What the loop of `batcher` takes up: an event, a tick, or the end
pub data Input : Type 0 where
  arrived : LogEvent → Input
  tick : Input

-- The batch, and the rows of the table of events, in order
pub record Batcher : Type 0 where
  pub batch : List LogEvent
  pub rows : List LogEvent

-- `batchSize`
abbrev pub batch_size : ℕ
batch_size = 100

-- `flush`; `InsertBatch` writes all rows or none.
unfoldable pub flush_batch : (written : Bool) → Batcher → Batcher
flush_batch written s =
    if length s.batch == 0
    then s
    else record { batch = []; rows = if written then s.rows ++ s.batch else s.rows }

-- One round of the loop of `batcher`
unfoldable pub batch_step : (written : Bool) → Input → Batcher → Batcher
unfolding flush_batch
batch_step written (arrived e) s =
    let more : Batcher = record s { batch = s.batch ++ (e ∷ []) } in
    if leb batch_size (length more.batch) then flush_batch written more else more
batch_step written tick s = flush_batch written s

-- `batcher`: all rounds, with the flush at the end
unfoldable pub batch_run : List (Bool × Input) → (last : Bool) → Batcher → Batcher
unfolding batch_step flush_batch
batch_run [] last s = flush_batch last s
batch_run ((written, i) ∷ more) last s = batch_run more last (batch_step written i s)
