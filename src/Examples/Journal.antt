-- ===== src/Examples/Journal.antt =====
-- The theorems on events and their tables at concrete dates and lines.
use sgsu.Prelude.{
  ◌+◌, ◌-◌, ◌≤◌, Bool, true, not, ◌&&◌, ◌||◌, none, some, String, List, [], ◌∷◌, ◌++◌, ◌≡◌, refl,
  arith, all, leb, length, if◌then◌else◌,
}
use sgsu.Prelude.Integers.{pos}
use sgsu.Prelude.Text.{codes, trim_space}
use sgsu.Prelude.Json.{null}
use sgsu.Events.Partitions.{
  Date, month_index, days_in, at_month, partition_name, table_month, before_month, listed_table,
  ensure_partitions, prune_old_partitions,
}
use sgsu.Events.Retention.{ensure_partitions_next, prune_old_partitions_lem}
use sgsu.Events.Collector.{
  valid_severity, LogEvent, JournalEntry, EveRecord, unit_modules, has_prefix, trim_suffix,
  module_for_unit,
}
use sgsu.Events.Stream.{
  Line, journal, eve, Collected, collect_all, Batcher, Input, arrived, tick, batch_run,
}
use sgsu.Events.Severities.{at_least, collect_all-at_least}
use sgsu.Events.Batches.{arrivals, batch_run_keeps_all}
use sgsu.Events.Units.{in_table, module_for_unit_longest}

abbrev last_of_january : Date
last_of_january = record { year = 2026; month = 1; day = 31 }

ensure_partitions_next_example :
    listed_table
      (partition_name (at_month (month_index last_of_january + 1) 1))
      (ensure_partitions (λ u. true) last_of_january []).0
    ≡ (listed_table (partition_name (at_month (month_index last_of_january + 1) 1)) []
        || leb last_of_january.day (days_in (month_index last_of_january + 1)))
ensure_partitions_next_example =
    ensure_partitions_next last_of_january []
      (omega arith, omega arith, omega arith, omega arith, omega arith) (omega arith)

-- At the end of January there is a table for March in place of one for February.
february_missing :
    (ensure_partitions (λ u. true) last_of_january []).0 ≡ "events_202603" ∷ "events_202601" ∷ []
unfolding ensure_partitions
february_missing = refl

abbrev last_of_may : Date
last_of_may = record { year = 2026; month = 5; day = 31 }

abbrev some_tables : List String
some_tables = "events_202601" ∷ "events_202602" ∷ "events_202605" ∷ "events_notes" ∷ []

prune_old_partitions_lem_example :
    listed_table "events_202602" (prune_old_partitions true (λ u. true) last_of_may 3 some_tables).0
    ≡ (listed_table "events_202602" some_tables
        && not (
            before_month
              (if leb last_of_may.day (days_in (month_index last_of_may - 3))
                then month_index last_of_may - 3
                else month_index last_of_may - 3 + 1)
              (table_month "events_202602")))
unfolding month_index
prune_old_partitions_lem_example =
    prune_old_partitions_lem last_of_may 3 "events_202602" some_tables
      (omega arith, omega arith, omega arith, omega arith, omega arith) (omega arith) (omega arith)

february_dropped :
    (prune_old_partitions true (λ u. true) last_of_may 3 some_tables).0
    ≡ "events_202605" ∷ "events_notes" ∷ []
unfolding prune_old_partitions
february_dropped = refl

abbrev failing_unbound : JournalEntry
failing_unbound = record {
  cursor = "s=1;i=2a";
  realtime = "1790000000000000";
  message = some "rpz: applied [saguaro-rpz] ads.example.com.";
  priority = "6";
  unit = "unbound.service";
  hostname = "gw";
  identifier = "unbound";
}

abbrev alert : EveRecord
alert = record {
  timestamp = none;
  event_type = "alert";
  src_ip = "10.1.0.7";
  dest_ip = "192.0.2.1";
  proto = "TCP";
  in_iface = "lan0";
  action = "allowed";
  signature_id = pos 2024001;
  signature = "ET SCAN";
  category = "Attempted scan";
  severity = pos 1;
}

abbrev lines : List Line
lines =
    journal (some failing_unbound) (pos 0) true
    ∷ journal none (pos 0) true
    ∷ eve (some alert) (pos 5) true
    ∷ journal (some (record failing_unbound { message = some "info: start of service" })) (pos 0)
        true
    ∷ []

abbrev nothing_yet : Collected
nothing_yet = record { cursor = ""; sent = [] }

collect_all-at_least_example :
    all (at_least "notice") (collect_all "notice" lines nothing_yet).sent ≡ true
unfolding valid_severity
collect_all-at_least_example = collect_all-at_least "notice" lines nothing_yet refl refl

-- Of the four lines two events are sent.
two_sent : length (collect_all "notice" lines nothing_yet).sent ≡ 2
unfolding collect_all trim_space
two_sent = refl

abbrev hit : LogEvent
hit = record {
  ts = pos 5;
  origin = "dns-filter";
  severity = "notice";
  host = "gw";
  src_ip = "";
  dst_ip = "";
  iface = "";
  action = "rpz-block";
  result = "";
  message = "rpz";
  raw = null;
}

abbrev inputs : List (Bool × Input)
inputs = (true, arrived hit) ∷ (true, tick) ∷ (true, arrived (record hit { ts = pos 9 })) ∷ []

abbrev no_batch : Batcher
no_batch = record { batch = []; rows = [] }

batch_run_keeps_all_example :
    ((batch_run inputs true no_batch).rows ≡ (no_batch.rows ++ no_batch.batch) ++ arrivals inputs)
    × ((batch_run inputs true no_batch).batch ≡ [])
batch_run_keeps_all_example = batch_run_keeps_all inputs no_batch refl

module_for_unit_longest_example :
    (f : String × String) × (module_for_unit "saguaro-backup.service" ≡ f.1)
    × (in_table f unit_modules ≡ true)
    × (has_prefix (codes f.0) (trim_suffix (codes ".service") (codes "saguaro-backup.service"))
        ≡ true)
    × (length (codes "saguaro") ≤ length (codes f.0))
module_for_unit_longest_example =
    module_for_unit_longest "saguaro-backup.service" ("saguaro", "control-plane") refl refl
