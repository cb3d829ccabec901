-- ===== src/Events/Collector.antt =====
-- internal/events/events.go, journal.go and eve.go: severities, and the events that the collector
-- makes of the journal and of the alerts of Suricata.
use sgsu.Prelude.{
  ℕ, ◌+◌, ◌-◌, ◌*◌, ◌^◌, zero, suc, Bool, true, false, not, ◌&&◌, ◌||◌, Option, none, some, String,
  List, [], ◌∷◌, str_eq, ltb, leb, ◌==◌, if◌then◌else◌, drop,
}
use sgsu.Prelude.Integers.{ℤ, pos, negsuc}
use sgsu.Prelude.Text.{codes, trim_space, is_digit}
use sgsu.Prelude.Json.{Json, string, int, object, field, empty}

-- `severities`
abbrev pub severities : List String
severities = "info" ∷ "notice" ∷ "warning" ∷ "error" ∷ "critical" ∷ "security" ∷ []

-- The position of a text in a list, from a number on
abbrev pub position : String → List String → ℕ → Option ℕ
position s [] n = none
position s (t ∷ ts) n = if str_eq t s then some n else position s ts (suc n)

-- `Rank`, where `none` stands for -1
unfoldable pub rank : String → Option ℕ
rank severity = position severity severities 0

-- `<` on the results of `Rank`
abbrev pub below_rank : Option ℕ → Option ℕ → Bool
below_rank none none = false
below_rank none (some m) = true
below_rank (some n) none = false
below_rank (some n) (some m) = ltb n m

-- `ValidSeverity`
unfoldable pub valid_severity : String → Bool
unfolding rank
valid_severity s = elim (rank s) [ none ↦ false | some n ↦ true ]

abbrev pub from_position : Option ℕ → List String
from_position none = []
from_position (some n) = drop n severities

-- `SeveritiesAtLeast`
unfoldable pub severities_at_least : String → List String
unfolding rank
severities_at_least min = from_position (rank min)

-- `FromJournalPriority`
unfoldable pub from_journal_priority : ℤ → String
from_journal_priority (negsuc n) = "critical"
from_journal_priority (pos p) =
    if leb p 2
    then "critical"
    else if p == 3
    then "error"
    else if p == 4
    then "warning"
    else if p == 5
    then "notice"
    else "info"

-- `SeverityFromSuricata`
unfoldable pub severity_from_suricata : ℤ → String
severity_from_suricata (negsuc n) = "notice"
severity_from_suricata (pos s) =
    if s == 1 then "security" else if s == 2 then "warning" else "notice"

-- `Event`, without the fields that neither parser sets; its time counts nanoseconds.
pub record LogEvent : Type 0 where
  pub ts : ℤ
  pub origin : String
  pub severity : String
  pub host : String
  pub src_ip : String
  pub dst_ip : String
  pub iface : String
  pub action : String
  pub result : String
  pub message : String
  pub raw : Json

-- `strings.HasPrefix` on code points
abbrev pub has_prefix : (prefix text : List ℕ) → Bool
has_prefix [] cs = true
has_prefix (p ∷ ps) [] = false
has_prefix (p ∷ ps) (c ∷ cs) = p == c && has_prefix ps cs

abbrev same_texts : List ℕ → List ℕ → Bool
same_texts [] [] = true
same_texts (a ∷ xs) (b ∷ ys) = a == b && same_texts xs ys
same_texts _ _ = false

-- `strings.TrimSuffix`
abbrev pub trim_suffix : (suffix text : List ℕ) → List ℕ
trim_suffix suffix [] = []
trim_suffix suffix (c ∷ cs) =
    let rest = trim_suffix suffix cs in if same_texts (c ∷ cs) suffix then [] else c ∷ rest

-- `strings.Contains`
abbrev pub contains : (part text : List ℕ) → Bool
contains part [] = has_prefix part []
contains part (c ∷ cs) = has_prefix part (c ∷ cs) || contains part cs

-- `unitModule`
abbrev pub unit_modules : List (String × String)
unit_modules =
    ("kea-dhcp4", "dhcp")
    ∷ ("kea-dhcp-ddns", "dhcp")
    ∷ ("kea-ctrl-agent", "dhcp")
    ∷ ("unbound", "dns")
    ∷ ("pdns", "dns")
    ∷ ("nginx", "proxy")
    ∷ ("step-ca", "certificates")
    ∷ ("nftables", "firewall")
    ∷ ("suricata", "ids")
    ∷ ("ssh", "system")
    ∷ ("saguaro-eventd", "control-plane")
    ∷ ("saguaro-backup", "backup")
    ∷ ("saguaro", "control-plane")
    ∷ []

-- The first entry whose prefix a unit has
abbrev pub first_prefix : List (String × String) → List ℕ → Option (String × String)
first_prefix [] unit = none
first_prefix ((prefix, name) ∷ more) unit =
    if has_prefix (codes prefix) unit then some (prefix, name) else first_prefix more unit

abbrev pub name_or_system : Option (String × String) → String
name_or_system none = "system"
name_or_system (some (prefix, name)) = name

-- `ModuleForUnit`
unfoldable pub module_for_unit : String → String
module_for_unit unit =
    name_or_system (first_prefix unit_modules (trim_suffix (codes ".service") (codes unit)))

-- `JournalEntry`; `message` is what MESSAGE decodes to as a text, where it does.
pub record JournalEntry : Type 0 where
  pub cursor : String
  pub realtime : String
  pub message : Option String
  pub priority : String
  pub unit : String
  pub hostname : String
  pub identifier : String

abbrev pub digits_value : ℕ → List ℕ → Option ℕ
digits_value n [] = some n
digits_value n (c ∷ cs) = if is_digit c then digits_value (n * 10 + (c - b'0')) cs else none

abbrev pub some_digits : List ℕ → Option ℕ
some_digits [] = none
some_digits (c ∷ cs) = digits_value 0 (c ∷ cs)

abbrev pub up_to_max : Option ℕ → Option ℤ
up_to_max none = none
up_to_max (some n) = if ltb n (2 ^ 63) then some (pos n) else none

abbrev pub down_to_min : Option ℕ → Option ℤ
down_to_min none = none
down_to_min (some zero) = some (pos zero)
down_to_min (some (suc n)) = if ltb n (2 ^ 63) then some (negsuc n) else none

-- `strconv.Atoi` and `strconv.ParseInt(s, 10, 64)`
abbrev pub signed : List ℕ → Option ℤ
signed [] = none
signed (c ∷ cs) =
    if c == b'+'
    then up_to_max (some_digits cs)
    else if c == b'-'
    then down_to_min (some_digits cs)
    else up_to_max (some_digits (c ∷ cs))

unfoldable pub parse_int : String → Option ℤ
parse_int s = signed (codes s)

abbrev pub nanoseconds : ℤ → ℤ
nanoseconds (pos n) = pos (n * 1000)
nanoseconds (negsuc n) = negsuc (n * 1000 + 999)

-- The hits of the filter of names, which Unbound logs as information
unfoldable pub promoted : LogEvent → LogEvent
unfolding rank
promoted e =
    if str_eq e.origin "dns" && contains (codes "saguaro-rpz") (codes e.message)
    then record e {
      origin = "dns-filter";
      action = "rpz-block";
      severity = if below_rank (rank e.severity) (rank "notice") then "notice" else e.severity;
    }
    else e

-- The event of a journal entry that has a text and a unit, before the hits of the filter are promoted
unfoldable pub plain_event : (now : ℤ) → JournalEntry → (msg unit : String) → LogEvent
unfolding module_for_unit from_journal_priority parse_int
plain_event now je msg unit = record {
  ts = elim (parse_int je.realtime) [ none ↦ now | some us ↦ nanoseconds us ];
  origin = module_for_unit unit;
  severity = from_journal_priority (elim (parse_int je.priority) [ none ↦ pos 6 | some p ↦ p ]);
  host = je.hostname;
  src_ip = "";
  dst_ip = "";
  iface = "";
  action = "log";
  result = "";
  message = msg;
  raw = object (field "unit" (string unit) empty);
}

unfoldable pub with_text : (now : ℤ) → JournalEntry → Option String → Option LogEvent
unfolding plain_event promoted
with_text now je none = none
with_text now je (some msg) =
    let unit = if str_eq je.unit "" then je.identifier else je.unit in
    if str_eq (trim_space msg) "" || str_eq unit ""
    then none
    else some (promoted (plain_event now je msg unit))

-- `ParseJournalLine` of a line that decodes to an entry, or of one that does not: the event, where it
-- is not skipped, and the cursor
unfoldable pub parse_journal_line : (now : ℤ) → Option JournalEntry → Option LogEvent × String
unfolding with_text
parse_journal_line now none = (none, "")
parse_journal_line now (some je) = (with_text now je je.message, je.cursor)

-- `eveRecord`; `timestamp` is the time it parses to, where it does.
pub record EveRecord : Type 0 where
  pub timestamp : Option ℤ
  pub event_type : String
  pub src_ip : String
  pub dest_ip : String
  pub proto : String
  pub in_iface : String
  pub action : String
  pub signature_id : ℤ
  pub signature : String
  pub category : String
  pub severity : ℤ

-- The event of an alert
unfoldable pub eve_event : (now : ℤ) → EveRecord → LogEvent
unfolding severity_from_suricata
eve_event now rec = record {
  ts = elim rec.timestamp [ none ↦ now | some t ↦ t ];
  origin = "ids";
  severity = severity_from_suricata rec.severity;
  host = "";
  src_ip = rec.src_ip;
  dst_ip = rec.dest_ip;
  iface = rec.in_iface;
  action = rec.action;
  result = rec.category;
  message = if str_eq rec.signature "" then "suricata alert" else rec.signature;
  raw = object (
      field "action" (string rec.action) (
        field "category" (string rec.category)
          (field "proto" (string rec.proto) (field "sid" (int rec.signature_id) empty))));
}

-- `ParseEveLine` of a line that decodes to a record, or of one that does not
unfoldable pub parse_eve_line : (now : ℤ) → Option EveRecord → Option LogEvent
unfolding eve_event
parse_eve_line now none = none
parse_eve_line now (some rec) =
    if not (str_eq rec.event_type "alert") then none else some (eve_event now rec)
