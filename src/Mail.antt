-- ===== src/Mail.antt =====
-- internal/mail/aggregate.go: repeated alerts are counted in place of being sent. Times are as in
-- the limiter; the map is an association list, in whose order the summaries come.
pub mod Accounting
use sgsu.Prelude.{
  ℕ, suc, ◌+◌, ◌-◌, Bool, true, false, not, ◌&&◌, Option, none, some, String, List, [], ◌∷◌, ltb,
  keep, if◌then◌else◌,
}
use sgsu.Prelude.Integers.{ℤ, pos, negsuc}
use sgsu.Prelude.Table.{lookup, insert}

-- `aggState`
pub record AggState : Type 0 where
  pub first_sent : ℕ
  pub suppressed : ℕ
  pub last : String

-- `Aggregator`
pub record Aggregator : Type 0 where
  pub window : ℕ
  pub seen : List (String × AggState)

-- `Summary`
pub record Summary : Type 0 where
  pub key : String
  pub count : ℕ
  pub last : String

abbrev ten_minutes : ℕ
ten_minutes = 600000000000

-- `NewAggregator`
unfoldable pub new_aggregator : ℤ → Aggregator
new_aggregator (pos n) = record { window = if ltb 0 n then n else ten_minutes; seen = [] }
new_aggregator (negsuc n) = record { window = ten_minutes; seen = [] }

abbrev fresh : ℕ → AggState
fresh now = record { first_sent = now; suppressed = 0; last = "" }

-- The state under a key after an offer, and whether to send
unfoldable pub offer_state : ℕ → Option AggState → String → ℕ → AggState × Bool
offer_state window none message now = (fresh now, true)
offer_state window (some st) message now =
    if ltb window (now - st.first_sent)
    then (fresh now, true)
    else (record st { suppressed = suc st.suppressed; last = message }, false)

-- `Offer`
unfoldable pub offer : Aggregator → (key message : String) → ℕ → Aggregator × Bool
offer a key message now =
    let (st, send_now) = offer_state a.window (lookup key a.seen) message now in
    (record a { seen = insert key st a.seen }, send_now)

-- The entries that `Flush` passes over
abbrev pub is_open : ℕ → ℕ → String × AggState → Bool
is_open window now (key, st) = ltb (now - st.first_sent) window

-- The summaries of the other entries
unfoldable pub summaries : ℕ → ℕ → List (String × AggState) → List Summary
summaries window now [] = []
summaries window now ((key, st) ∷ m) =
    let rest = summaries window now m in
    if not (is_open window now (key, st)) && ltb 0 st.suppressed
    then record { key = key; count = st.suppressed; last = st.last } ∷ rest
    else rest

-- `Flush`
unfoldable pub flush : Aggregator → ℕ → Aggregator × List Summary
unfolding summaries
flush a now =
    (record a { seen = keep (is_open a.window now) a.seen }, summaries a.window now a.seen)
