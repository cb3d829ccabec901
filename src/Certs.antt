-- ===== src/Certs.antt =====
-- cmd/saguaro/certs_expiry.go: the report on certificates that expire. Times are nanoseconds. The
-- reading of a certificate's file (certExpiry in certs.go) is a parameter, none for the zero time,
-- and the report is made at one reading of the clock. The quotient of Hours() by 24 is taken without
-- rounding: within a month of the expiry that of a float64 crosses no whole day.
pub mod Report
use sgsu.Prelude.{
  ℕ, zero, suc, ◌-◌, ◌/◌, min, Bool, true, false, not, Option, none, some, String, List, [], ◌∷◌,
  ltb, leb, if◌then◌else◌, reverse_onto,
}
use sgsu.Prelude.Integers.{ℤ, pos, negsuc, lt_int, is_negative}

-- `certRecord`
pub record CertRecord : Type 0 where
  pub name : String
  pub sans : List String
  pub issued_at : ℕ
  pub public : Bool

-- `certExpiryItem`
pub record CertExpiryItem : Type 0 where
  pub name : String
  pub not_after : ℕ
  pub days_left : ℤ
  pub severity : String
  pub expired : Bool

-- 24 hours
abbrev pub day : ℕ
day = 86400000000000

abbrev minus : ℕ → ℤ
minus zero = pos 0
minus (suc n) = negsuc n

-- `int(time.Until(exp).Hours() / 24)`: the days are cut off towards zero, and `Until` stops at the
-- ends of a 64-bit duration.
abbrev pub days_until : ℕ → ℕ → ℤ
days_until exp now =
    if leb now exp
    then pos (min (exp - now) 9223372036854775807 / day)
    else minus (min (now - exp) 9223372036854775808 / day)

abbrev not_above : ℤ → ℕ → Bool
not_above days n = not (lt_int (pos n) days)

abbrev pub item_of : String → ℕ → ℤ → String → Bool → CertExpiryItem
item_of name exp days severity expired = record {
  name = name;
  not_after = exp;
  days_left = days;
  severity = severity;
  expired = expired;
}

-- The item of one certificate, by the cases of the `switch`
unfoldable pub expiry_item : String → ℕ → ℕ → Option CertExpiryItem
expiry_item name exp now =
    let days = days_until exp now in
    let item = item_of name exp days in
    if is_negative days
    then some (item "critical" true)
    else if not_above days 7
    then some (item "critical" false)
    else if not_above days 21
    then some (item "warning" false)
    else none

abbrev pub added : Option CertExpiryItem → List CertExpiryItem → List CertExpiryItem
added none items = items
added (some i) items = i ∷ items

abbrev pub readable : String → Option ℕ → ℕ → Option CertExpiryItem
readable name none now = none
readable name (some exp) now = expiry_item name exp now

-- The first loop of `certExpiryReport`
unfoldable pub expiry_items : (String → Option ℕ) → ℕ → List CertRecord → List CertExpiryItem
expiry_items cert_expiry now [] = []
expiry_items cert_expiry now (c ∷ cs) =
    added (readable c.name (cert_expiry c.name) now) (expiry_items cert_expiry now cs)

-- The inner loop: an item goes back past those with more days left. The list is what stands before
-- it, the last one first.
unfoldable pub sink : CertExpiryItem → List CertExpiryItem → List CertExpiryItem
sink i [] = i ∷ []
sink i (j ∷ js) =
    let rest = sink i js in if lt_int i.days_left j.days_left then j ∷ rest else i ∷ j ∷ js

-- The outer loop, over what is sorted already, the last one first
unfoldable pub sort_onto : List CertExpiryItem → List CertExpiryItem → List CertExpiryItem
sort_onto sorted [] = sorted
sort_onto sorted (i ∷ is) = sort_onto (sink i sorted) is

-- `certExpiryReport`
unfoldable pub cert_expiry_report : (String → Option ℕ) → ℕ → List CertRecord → List CertExpiryItem
cert_expiry_report cert_expiry now certs =
    reverse_onto (sort_onto [] (expiry_items cert_expiry now certs)) []
