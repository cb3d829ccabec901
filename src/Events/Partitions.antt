-- ===== src/Events/Partitions.antt =====
-- internal/events/events.go: the monthly partitions of the table of events. Of a time the code reads
-- the date in UTC; the tables of the schema are their names.
use sgsu.Prelude.{
  ℕ, ◌+◌, ◌-◌, ◌*◌, ◌/◌, ◌%◌, Bool, true, false, not, ◌&&◌, ◌||◌, Option, none, some, String, List,
  [], ◌∷◌, str_eq, ltb, leb, ◌==◌, if◌then◌else◌, any, all, keep,
}
use sgsu.Prelude.Text.{codes, is_digit, between}
use sgsu.Prelude.Format.{◌^^◌, digit_text, decimal_text}

-- The date of a `time.Time` in UTC, the months from 1 to 12
pub record Date : Type 0 where
  pub year : ℕ
  pub month : ℕ
  pub day : ℕ

-- The months since the year 0
unfoldable pub month_index : Date → ℕ
month_index d = d.year * 12 + (d.month - 1)

unfoldable pub is_leap : ℕ → Bool
is_leap y = y % 4 == 0 && (not (y % 100 == 0) || y % 400 == 0)

unfoldable pub days_in_month : ℕ → ℕ → ℕ
unfolding is_leap
days_in_month year month =
    if month == 2
    then (if is_leap year then 29 else 28)
    else if month == 4 || month == 6 || month == 9 || month == 11
    then 30
    else 31

-- The number of days of a month, by its index
unfoldable pub days_in : ℕ → ℕ
unfolding days_in_month
days_in i = days_in_month (i / 12) (i % 12 + 1)

abbrev pub at_month : ℕ → ℕ → Date
at_month i day = record { year = i / 12; month = i % 12 + 1; day = day }

-- `time.Date` on a day from 1 to 31: the days after the end of the month run into the next one.
unfoldable pub normalized : ℕ → ℕ → Date
unfolding days_in
normalized i day =
    if leb day (days_in i) then at_month i day else at_month (i + 1) (day - days_in i)

-- `t.AddDate(0, n, 0)` and `t.AddDate(0, -n, 0)`, the latter for times whose result is not before the
-- year 0
unfoldable pub add_months : ℕ → Date → Date
unfolding normalized month_index
add_months n d = normalized (month_index d + n) d.day

unfoldable pub sub_months : ℕ → Date → Date
unfolding normalized month_index
sub_months n d = normalized (month_index d - n) d.day

abbrev pub four_digits : ℕ → String
four_digits y =
    digit_text (y / 1000)
    ^^ (digit_text (y / 100 % 10) ^^ (digit_text (y / 10 % 10) ^^ digit_text (y % 10)))

-- `Format("200601")`
abbrev pub year_text : ℕ → String
year_text y = if ltb y 10000 then four_digits y else decimal_text y

abbrev pub month_text : ℕ → String
month_text m = digit_text (m / 10) ^^ digit_text (m % 10)

-- `PartitionName`
unfoldable pub partition_name : Date → String
partition_name d = "events_" ^^ (year_text d.year ^^ month_text d.month)

-- `PartitionBounds`
unfoldable pub partition_bounds : Date → Date × Date
unfolding add_months
partition_bounds d = let from : Date = record d { day = 1 } in (from, add_months 1 from)

abbrev pub listed_table : String → List String → Bool
listed_table t tables = any (λ u. str_eq t u) tables

-- `CREATE TABLE IF NOT EXISTS` of a partition over the month of its name; the database can refuse it.
unfoldable pub create_table : (works : String → Bool) → String → List String → List String × Bool
create_table works t tables =
    if not (works t)
    then (tables, false)
    else (if listed_table t tables then tables else t ∷ tables, true)

-- The loop of `EnsurePartitions`
unfoldable pub ensure_all : (works : String → Bool) → List Date → List String → List String × Bool
unfolding create_table partition_name
ensure_all works [] tables = (tables, true)
ensure_all works (d ∷ ds) tables =
    let made = create_table works (partition_name d) tables in
    let rest = ensure_all works ds made.0 in if made.1 then rest else made

-- `EnsurePartitions`, and whether it returns no error
unfoldable pub ensure_partitions :
    (works : String → Bool) → (now : Date) → List String → List String × Bool
unfolding ensure_all add_months
ensure_partitions works now tables = ensure_all works (now ∷ add_months 1 now ∷ []) tables

abbrev pub digit_of : ℕ → ℕ
digit_of c = c - b'0'

-- `time.Parse("200601", ...)` of six digits, as a month's index
abbrev pub month_number : (a b c d e f : ℕ) → Option ℕ
month_number a b c d e f =
    let month = digit_of e * 10 + digit_of f in
    if between 1 12 month
    then some
        ((digit_of a * 1000 + digit_of b * 100 + digit_of c * 10 + digit_of d) * 12 + (month - 1))
    else none

abbrev pub six_digits : List ℕ → Option ℕ
six_digits (a ∷ b ∷ c ∷ d ∷ e ∷ f ∷ []) =
    if all is_digit (a ∷ b ∷ c ∷ d ∷ e ∷ f ∷ []) then month_number a b c d e f else none
six_digits _ = none

abbrev pub after_prefix : (prefix text : List ℕ) → Option (List ℕ)
after_prefix [] cs = some cs
after_prefix (p ∷ ps) [] = none
after_prefix (p ∷ ps) (c ∷ cs) = if p == c then after_prefix ps cs else none

abbrev pub digits_after : Option (List ℕ) → Option ℕ
digits_after none = none
digits_after (some cs) = six_digits cs

-- The month that the name of a table stands for: `partitionRe` and the parsing after it
unfoldable pub table_month : String → Option ℕ
table_month t = digits_after (after_prefix (codes "events_") (codes t))

abbrev pub before_month : ℕ → Option ℕ → Bool
before_month cutoff none = false
before_month cutoff (some i) = ltb i cutoff

-- The first month that is kept
unfoldable pub first_kept : (now : Date) → (keep_months : ℕ) → ℕ
unfolding sub_months partition_bounds month_index
first_kept now keep_months =
    month_index (partition_bounds (sub_months (if ltb keep_months 1 then 1 else keep_months) now)).0

-- `DROP TABLE IF EXISTS` for each candidate, up to the first that the database refuses; with the
-- tables that are left and the ones dropped
unfoldable pub drop_all :
    (works : String → Bool) → (candidates tables : List String) → List String × List String × Bool
drop_all works [] tables = (tables, [], true)
drop_all works (t ∷ ts) tables =
    let rest = drop_all works ts (keep (λ u. not (str_eq t u)) tables) in
    if not (works t) then (tables, [], false) else (rest.0, t ∷ rest.1, rest.2)

-- `PruneOldPartitions`; `readable` says whether the query of the tables succeeds.
unfoldable pub prune_old_partitions :
    (readable : Bool) (works : String → Bool)
    → (now : Date) → (keep_months : ℕ) → List String
    → List String × List String × Bool
unfolding drop_all first_kept table_month
prune_old_partitions readable works now keep_months tables =
    if not readable
    then (tables, [], false)
    else drop_all works
        (keep (λ t. before_month (first_kept now keep_months) (table_month t)) tables) tables

-- One round of the daily upkeep of cmd/saguaro-eventd, whose errors are only logged
unfoldable pub upkeep :
    (readable : Bool) (works : String → Bool)
    → (now : Date) → (retention : ℕ) → List String
    → List String
unfolding ensure_partitions prune_old_partitions
upkeep readable works now retention tables =
    (prune_old_partitions readable works now retention (ensure_partitions works now tables).0).0
