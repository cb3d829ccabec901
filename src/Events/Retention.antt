-- ===== src/Events/Retention.antt =====
-- internal/events/events.go: which partitions the daily upkeep makes and drops.
use sgsu.Prelude.{
  ℕ, ◌+◌, ◌-◌, ◌/◌, ◌%◌, ◌<◌, ◌≤◌, Bool, true, false, not, ◌&&◌, ◌||◌, String, List, [], ◌∷◌, ◌≡◌,
  refl, ap, ◌∙◌, sym, arith, if◌then◌else◌, ltb, leb, ◌==◌, keep, str_eq, eq_iff, eq_refl,
  Bool-cases, inl, inr,
}
use sgsu.Events.Partitions.{
  Date, month_index, partition_name, table_month, days_in, days_in_month, at_month, normalized,
  add_months, sub_months, ensure_partitions, ensure_all, create_table, listed_table,
  prune_old_partitions, drop_all, first_kept, before_month, partition_bounds, upkeep,
}
use sgsu.Events.Names.{IsDate, table_month-partition_name}

month_index-at_month : (i day : ℕ) → month_index (at_month i day) ≡ i
unfolding month_index
month_index-at_month i day = omega arith

days_in_month_bounds : (y m : ℕ) → (28 ≤ days_in_month y m) × (days_in_month y m ≤ 31)
unfolding days_in_month
days_in_month_bounds y m = (ground arith, ground arith)

days_in_bounds : (i : ℕ) → (28 ≤ days_in i) × (days_in i ≤ 31)
unfolding days_in
days_in_bounds i = days_in_month_bounds (i / 12) (i % 12 + 1)

-- A month later by its index, where the day runs over the end of the month
month_index-normalized :
    (i day : ℕ) → month_index (normalized i day) ≡ (if leb day (days_in i) then i else i + 1)
unfolding normalized
month_index-normalized i day = elim (Bool-cases (leb day (days_in i))) [
  | inl fits ↦ rw (fits) (month_index-at_month i day)
  | inr over ↦ rw (over) (month_index-at_month (i + 1) (day - days_in i))
]

normalized-IsDate : (i day : ℕ) → i + 1 < 120000 → 1 ≤ day → day ≤ 31 → IsDate (normalized i day)
unfolding normalized
normalized-IsDate i day h h1 h2 = elim (Bool-cases (leb day (days_in i))) [
  | inl fits ↦ rw (fits) (omega arith, omega arith, omega arith, h1, h2)
  | inr over ↦
      let b = days_in_bounds i in
      let low : days_in i < day = ground arith in
      let more : 1 ≤ day - days_in i = omega arith in
      let less : day - days_in i ≤ 31 = omega arith in
      rw (over) (omega arith, omega arith, omega arith, more, less)
]

-- A table that is created where it is not there yet
listed-made :
    (t u : String) (tables : List String)
    → listed_table t (if listed_table u tables then tables else u ∷ tables)
      ≡ (listed_table t tables || str_eq t u)
listed-made t u tables = elim (Bool-cases (listed_table u tables)) [
  | inl there ↦ elim (Bool-cases (str_eq t u)) [
    | inl same ↦
        let equal : t ≡ u = ground (arith, eq_iff t u) in
        let found : listed_table t tables ≡ true = rw (equal) there in rw (there, same, found) refl
    | inr other ↦ rw (there, other) (ground arith)
  ]
  | inr missing ↦ rw (missing) (ground arith)
]

-- Which tables there are after partitions have been created
listed-ensure_partitions :
    (t : String) (now : Date) (tables : List String)
    → listed_table t (ensure_partitions (λ u. true) now tables).0 ≡ (
        (listed_table t tables || str_eq t (partition_name now))
        || str_eq t (partition_name (add_months 1 now)))
unfolding ensure_partitions ensure_all create_table
listed-ensure_partitions t now tables =
    listed-made t (partition_name (add_months 1 now)) _
    ∙ ap (λ b. b || str_eq t (partition_name (add_months 1 now)))
        (listed-made t (partition_name now) tables)

listed-keep :
    (t : String) (p : String → Bool) (tables : List String)
    → listed_table t (keep p tables) ≡ (listed_table t tables && p t)
listed-keep t p [] = refl
listed-keep t p (u ∷ tables) = elim (Bool-cases (str_eq t u)) [
  | inl same ↦
      let equal : t ≡ u = ground (arith, eq_iff t u) in
      let tests : p u ≡ p t = ap p (sym equal) in ground (arith, listed-keep t p tables)
  | inr other ↦ ground (arith, listed-keep t p tables)
]

listed-drop_all :
    (t : String) (candidates tables : List String)
    → listed_table t (drop_all (λ u. true) candidates tables).0
      ≡ (listed_table t tables && not (listed_table t candidates))
unfolding drop_all
listed-drop_all t [] tables = ground arith
listed-drop_all t (c ∷ cs) tables =
    let others = keep (λ u. not (str_eq c u)) tables in
    let swapped : str_eq c t ≡ str_eq t c = ground (arith, eq_iff c t, eq_iff t c) in
    ground (arith, listed-drop_all t cs others, listed-keep t (λ u. not (str_eq c u)) tables)

module _ (d e : Date) (hd : IsDate d) (he : IsDate e) where
  same_name : month_index d ≡ month_index e → partition_name d ≡ partition_name e
  unfolding partition_name month_index
  same_name h =
      let years : d.year ≡ e.year = omega arith in
      let months : d.month ≡ e.month = omega arith in rw (years, months) refl

  same_month : partition_name d ≡ partition_name e → month_index d ≡ month_index e
  same_month h =
      let read = ap table_month h in
      let one = table_month-partition_name d hd in
      let other = table_month-partition_name e he in ground arith

  -- Two partitions have the same name where they are of the same month.
  partition_name_inj :
      str_eq (partition_name d) (partition_name e) ≡ (month_index d == month_index e)
  partition_name_inj = elim (Bool-cases (month_index d == month_index e)) [
    | inl same ↦
        let months : month_index d ≡ month_index e = ground arith in
        rw (same, same_name months) (eq_refl (partition_name e))
    | inr other ↦ elim (Bool-cases (str_eq (partition_name d) (partition_name e))) [
      | inl equal ↦
          let names : partition_name d ≡ partition_name e =
            ground (arith, eq_iff (partition_name d) (partition_name e)) in
          let months = same_month names in ground arith
      | inr differ ↦ rw (differ, other) refl
    ]
  ]

-- Where the database works, the upkeep of partitions leaves a partition for the month after a date
-- if there was one before, or if the day of the date is one that the next month has, and not
-- otherwise. The date is one that four digits of the year show, before the last of those years.
pub ensure_partitions_next :
    (now : Date) (tables : List String)
    → IsDate now
    → now.year < 9999
    → listed_table
        (partition_name (at_month (month_index now + 1) 1))
        (ensure_partitions (λ u. true) now tables).0
      ≡ (listed_table (partition_name (at_month (month_index now + 1) 1)) tables
          || leb now.day (days_in (month_index now + 1)))
unfolding month_index add_months
ensure_partitions_next now tables h small =
    let i = month_index now in
    let next = at_month (i + 1) 1 in
    let later = normalized (i + 1) now.day in
    let next_date : IsDate next =
      (omega arith, omega arith, omega arith, omega arith, omega arith) in
    let later_date = normalized-IsDate (i + 1) now.day (omega arith) h.3 h.4 in
    let now_name : str_eq (partition_name next) (partition_name now) ≡ false =
      partition_name_inj next now next_date h
      ∙ (let e = month_index-at_month (i + 1) 1 in ground arith) in
    let later_name : str_eq (partition_name next) (partition_name later)
        ≡ leb now.day (days_in (i + 1)) =
      partition_name_inj next later next_date later_date
      ∙ (let one = month_index-at_month (i + 1) 1 in
          let other = month_index-normalized (i + 1) now.day in ground arith) in
    let all_tables = listed-ensure_partitions (partition_name next) now tables in ground arith

first_kept_lem :
    (now : Date) (keep_months : ℕ)
    → 1 ≤ keep_months
    → first_kept now keep_months ≡ (
        if leb now.day (days_in (month_index now - keep_months))
        then month_index now - keep_months
        else month_index now - keep_months + 1)
unfolding first_kept partition_bounds sub_months month_index
first_kept_lem now keep_months h =
    let positive : ltb keep_months 1 ≡ false = ground arith in
    rw (positive) (month_index-normalized (month_index now - keep_months) now.day)

-- Where the database works, dropping old partitions keeps, of the tables, those that are no partitions
-- and those of a month from the one that comes the given number of months before the date, or from
-- the month after that one where it does not have the day of the date. The number is at least one and
-- does not lead before the year 0.
pub prune_old_partitions_lem :
    (now : Date) (keep_months : ℕ) (t : String) (tables : List String)
    → IsDate now
    → 1 ≤ keep_months
    → keep_months ≤ month_index now
    → listed_table t (prune_old_partitions true (λ u. true) now keep_months tables).0 ≡ (
        listed_table t tables
        && not (
            before_month
              (if leb now.day (days_in (month_index now - keep_months))
                then month_index now - keep_months
                else month_index now - keep_months + 1)
              (table_month t)))
unfolding prune_old_partitions first_kept
prune_old_partitions_lem now keep_months t tables h1 h2 h3 =
    let old : String → Bool = λ u. before_month (first_kept now keep_months) (table_month u) in
    listed-drop_all t (keep old tables) tables
    ∙ ap (λ b. listed_table t tables && not b) (listed-keep t old tables)
    ∙ twice (listed_table t tables) (old t)
    ∙ ap (λ cutoff. listed_table t tables && not (before_month cutoff (table_month t)))
        (first_kept_lem now keep_months h2)
  where
    twice : (a b : Bool) → (a && not (a && b)) ≡ (a && not b)
    twice true b = refl
    twice false b = refl

-- Where the database works, there is a partition for the month of the date after a round of the
-- upkeep, for any number of months that are kept, from one on and not leading before the year 0.
upkeep_keeps_current :
    (now : Date) (retention : ℕ) (tables : List String)
    → IsDate now
    → 1 ≤ retention
    → retention ≤ month_index now
    → listed_table (partition_name now) (upkeep true (λ u. true) now retention tables) ≡ true
unfolding upkeep
upkeep_keeps_current now retention tables h1 h2 h3 =
    let name = partition_name now in
    let made = (ensure_partitions (λ u. true) now tables).0 in
    let there : listed_table name made ≡ true =
      ground (arith, listed-ensure_partitions name now tables, eq_refl name) in
    prune_old_partitions_lem now retention name made h1 h2 h3
    ∙ rw (there, table_month-partition_name now h1) (ground arith)
