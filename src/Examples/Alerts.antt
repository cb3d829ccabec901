-- ===== src/Examples/Alerts.antt =====
-- The theorems on repeated alerts and expiring certificates at a concrete state.
use sgsu.Prelude.{
  ℕ, ◌*◌, false, Option, none, some, String, List, str_eq, refl, ◌+◌, ◌≡◌, if◌then◌else◌, [], ◌∷◌,
}
use sgsu.Prelude.Integers.{pos}
use sgsu.Prelude.Table.{lookup}
use sgsu.Mail.{Aggregator, offer}
use sgsu.Mail.Accounting.{waiting, waiting-offer}
use sgsu.Certs.{
  CertRecord, CertExpiryItem, day, cert_expiry_report, sort_onto, expiry_items, expiry_item, sink,
}

-- Three repeats of an alert of time 10 wait.
abbrev repeats : Aggregator
repeats = record {
  window = 60;
  seen = ("disk", record { first_sent = 10; suppressed = 3; last = "full" }) ∷ [];
}

waiting-offer_example :
    waiting (offer repeats "disk" "full" 100).0.seen + 3
    ≡ 3 + (if (offer repeats "disk" "full" 100).1 then 0 else 1)
unfolding lookup
waiting-offer_example = waiting-offer repeats "disk" "full" 100

abbrev cert : String → CertRecord
cert name = record { name = name; sans = []; issued_at = 0; public = false }

abbrev certs : List CertRecord
certs = cert "app" ∷ cert "vpn" ∷ cert "new" ∷ cert "old" ∷ cert "lost" ∷ []

-- At day 100, `app` has 20 days left, `vpn` 3, `new` 80, and `old` ended 3 days ago.
abbrev ends : String → Option ℕ
ends name =
    if str_eq name "app"
    then some (120 * day)
    else if str_eq name "vpn"
    then some (103 * day)
    else if str_eq name "new"
    then some (180 * day)
    else if str_eq name "old"
    then some (97 * day)
    else none

names : List CertExpiryItem → List String
names [] = []
names (i ∷ is) = i.name ∷ names is

report_names : names (cert_expiry_report ends (100 * day) certs) ≡ "old" ∷ "vpn" ∷ "app" ∷ []
unfolding names cert_expiry_report sort_onto expiry_items expiry_item sink
report_names = refl

-- A certificate that ended an hour ago is listed with no day left, and is not marked as expired.
abbrev ended : CertExpiryItem
ended = record {
  name = "vpn";
  not_after = 103 * day;
  days_left = pos 0;
  severity = "critical";
  expired = false;
}

just_ended : cert_expiry_report ends (103 * day + 3600000000000) (cert "vpn" ∷ []) ≡ ended ∷ []
unfolding cert_expiry_report sort_onto expiry_items expiry_item sink
just_ended = refl
