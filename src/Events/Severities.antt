-- ===== src/Events/Severities.antt =====
-- internal/events: the order of severities, and the severities of what the collector sends on.
use sgsu.Prelude.{
  ℕ, ◌+◌, ◌≤◌, zero, suc, Bool, true, false, not, ◌&&◌, ◌||◌, Option, none, some, String, List, [],
  ◌∷◌, ◌≡◌, refl, ap, sym, ◌∙◌, arith, str_eq, eq_iff, leb, ◌==◌, if◌then◌else◌, any, all, drop,
  Bool-cases, inl, inr,
}
use sgsu.Prelude.Integers.{ℤ, pos, negsuc}
use sgsu.Prelude.Text.{codes, trim_space}
use sgsu.Events.Collector.{
  LogEvent, JournalEntry, EveRecord, severities, position, rank, valid_severity, below_rank,
  from_position, severities_at_least, parse_journal_line, with_text, plain_event, promoted,
  from_journal_priority, parse_int, parse_eve_line, eve_event, severity_from_suricata, contains,
}
use sgsu.Events.Stream.{Line, journal, eve, Collected, offer_event, collect, collect_all}

abbrev reached : ℕ → Option ℕ → Bool
reached m none = false
reached m (some j) = leb m j

abbrev among : String → List String → Bool
among s ts = any (λ t. str_eq t s) ts

abbrev distinct : List String → Bool
distinct [] = true
distinct (t ∷ ts) = not (among t ts) && distinct ts

reached-position :
    (s : String) (ts : List String) (m k : ℕ) → m ≤ k → reached m (position s ts k) ≡ among s ts
reached-position s [] m k h = refl
reached-position s (t ∷ ts) m k h = elim (Bool-cases (str_eq t s)) [
  | inl here ↦ rw (here) (ground arith)
  | inr further ↦ rw (further) (reached-position s ts m (suc k) (omega arith))
]

among-drop_absent :
    (s : String) (n : ℕ) (ts : List String) → among s ts ≡ false → among s (drop n ts) ≡ false
among-drop_absent s zero ts h = h
among-drop_absent s (suc n) [] h = refl
among-drop_absent s (suc n) (t ∷ ts) h = among-drop_absent s n ts (ground arith)

add_suc : (k n : ℕ) → suc k + n ≡ k + suc n
add_suc k n = omega arith

among-drop :
    (s : String) (n k : ℕ) (ts : List String)
    → distinct ts ≡ true
    → among s (drop n ts) ≡ reached (k + n) (position s ts k)
among-drop s zero k ts h = sym (reached-position s ts (k + 0) k (omega arith))
among-drop s (suc n) k [] h = refl
among-drop s (suc n) k (t ∷ ts) h = elim (Bool-cases (str_eq t s)) [
  | inl here ↦
      let same : t ≡ s = ground (arith, eq_iff t s) in
      let apart : among t ts ≡ false = ground arith in
      let absent : among s ts ≡ false = ap (λ u. among u ts) (sym same) ∙ apart in
      among-drop_absent s n ts absent ∙ rw (here) (ground arith)
  | inr further ↦ rw (further) (
      among-drop s n (suc k) ts (ground arith)
      ∙ ap (λ m. reached m (position s ts (suc k))) (add_suc k n))
]

abbrev known_rank : Option ℕ → Bool
known_rank r = elim r [ none ↦ false | some n ↦ true ]

not_below :
    (n : ℕ) (r : Option ℕ) → reached (0 + n) r ≡ (known_rank r && not (below_rank r (some n)))
not_below n none = refl
not_below n (some j) = ground arith

among-from_position :
    (s : String) (r : Option ℕ)
    → among s (from_position r)
      ≡ (known_rank r && (known_rank (rank s) && not (below_rank (rank s) r)))
unfolding rank
among-from_position s none = refl
among-from_position s (some n) =
    among-drop s n 0 severities refl ∙ not_below n (position s severities 0)

-- Whether a text is among the severities from a least one on: it is where both are severities and the
-- rank of the text is not below that of the least one, and not otherwise.
pub severities_at_least_lem :
    (s min : String)
    → any (λ t. str_eq t s) (severities_at_least min)
      ≡ (valid_severity min && (valid_severity s && not (below_rank (rank s) (rank min))))
unfolding severities_at_least valid_severity rank
severities_at_least_lem s min = among-from_position s (rank min)

either_way :
    (p : String → Bool) (b : Bool) (x y : String)
    → p x ≡ true
    → p y ≡ true
    → p (if b then x else y) ≡ true
either_way p true x y h k = h
either_way p false x y h k = k

from_journal_priority-Valid : (p : ℤ) → valid_severity (from_journal_priority p) ≡ true
unfolding from_journal_priority valid_severity rank
from_journal_priority-Valid (negsuc n) = refl
from_journal_priority-Valid (pos p) = either_way valid_severity (leb p 2) "critical" _ refl (
    either_way valid_severity (p == 3) "error" _ refl (
      either_way valid_severity (p == 4) "warning" _ refl
        (either_way valid_severity (p == 5) "notice" "info" refl refl)))

severity_from_suricata-Valid : (p : ℤ) → valid_severity (severity_from_suricata p) ≡ true
unfolding severity_from_suricata valid_severity rank
severity_from_suricata-Valid (negsuc n) = refl
severity_from_suricata-Valid (pos p) =
    either_way valid_severity (p == 1) "security" _ refl
      (either_way valid_severity (p == 2) "warning" "notice" refl refl)

promoted-Valid :
    (e : LogEvent) → valid_severity e.severity ≡ true → valid_severity (promoted e).severity ≡ true
unfolding promoted valid_severity rank
promoted-Valid e h =
    elim (Bool-cases (str_eq e.origin "dns" && contains (codes "saguaro-rpz") (codes e.message))) [
      | inl hit ↦ rw (hit) (
          either_way valid_severity (below_rank (rank e.severity) (rank "notice")) "notice"
            e.severity refl h)
      | inr other ↦ rw (other) h
    ]

-- What a parsed line holds
abbrev Severe : Option LogEvent → Type 0
Severe none = Unit
Severe (some e) = valid_severity e.severity ≡ true

Severe-cases : (b : Bool) (o : Option LogEvent) → Severe o → Severe (if b then none else o)
Severe-cases true o h = tt
Severe-cases false o h = h

with_text-Severe :
    (now : ℤ) (je : JournalEntry) (msg : Option String) → Severe (with_text now je msg)
unfolding with_text plain_event
with_text-Severe now je none = tt
with_text-Severe now je (some msg) =
    let unit = if str_eq je.unit "" then je.identifier else je.unit in
    let e = plain_event now je msg unit in
    Severe-cases (str_eq (trim_space msg) "" || str_eq unit "") (some (promoted e)) (
      promoted-Valid e
        (from_journal_priority-Valid (elim (parse_int je.priority) [ none ↦ pos 6 | some p ↦ p ])))

parse_journal_line-Severe :
    (now : ℤ) (je : Option JournalEntry) → Severe (parse_journal_line now je).0
unfolding parse_journal_line
parse_journal_line-Severe now none = tt
parse_journal_line-Severe now (some je) = with_text-Severe now je je.message

parse_eve_line-Severe : (now : ℤ) (rec : Option EveRecord) → Severe (parse_eve_line now rec)
unfolding parse_eve_line eve_event
parse_eve_line-Severe now none = tt
parse_eve_line-Severe now (some rec) =
    Severe-cases (not (str_eq rec.event_type "alert")) (some (eve_event now rec))
      (severity_from_suricata-Valid rec.severity)

or_left : (a b : Bool) → (a || b) ≡ false → a ≡ false
or_left true b h = h
or_left false b h = refl

-- The severity of an event is among those from a least one on.
abbrev pub at_least : String → LogEvent → Bool
at_least min_sev e = any (λ t. str_eq t e.severity) (severities_at_least min_sev)

module _ (min_sev : String) (known : valid_severity min_sev ≡ true) where
  offer_event-at_least :
      (room : Bool) (o : Option LogEvent) (s : Collected)
      → Severe o
      → all (at_least min_sev) s.sent ≡ true
      → all (at_least min_sev) (offer_event min_sev room o s).sent ≡ true
  unfolding offer_event
  offer_event-at_least room none s v h = h
  offer_event-at_least room (some e) s v h =
      elim (Bool-cases (below_rank (rank e.severity) (rank min_sev) || not room)) [
        | inl left_out ↦ rw (left_out) h
        | inr put ↦
            let high : below_rank (rank e.severity) (rank min_sev) ≡ false = or_left _ _ put in
            let fits : at_least min_sev e ≡ true =
              severities_at_least_lem e.severity min_sev ∙ rw (known, v, high) refl in
            rw (put, fits) h
      ]

  collect-at_least :
      (l : Line) (s : Collected)
      → all (at_least min_sev) s.sent ≡ true
      → all (at_least min_sev) (collect min_sev l s).sent ≡ true
  unfolding collect
  collect-at_least (journal je now room) s h =
      offer_event-at_least room (parse_journal_line now je).0 _ (parse_journal_line-Severe now je) h
  collect-at_least (eve rec now room) s h =
      offer_event-at_least room (parse_eve_line now rec) s (parse_eve_line-Severe now rec) h

-- Whatever lines the collector reads, of the journal and of the alerts: where the least severity is
-- one of the severities, and every event in the channel has a severity among those from it on, so has
-- every event after the lines.
pub collect_all-at_least :
    (min_sev : String) (ls : List Line) (s : Collected)
    → valid_severity min_sev ≡ true
    → all (at_least min_sev) s.sent ≡ true
    → all (at_least min_sev) (collect_all min_sev ls s).sent ≡ true
unfolding collect_all
collect_all-at_least min_sev [] s known h = h
collect_all-at_least min_sev (l ∷ ls) s known h =
    collect_all-at_least min_sev ls (collect min_sev l s) known
      (collect-at_least min_sev known l s h)
