-- ===== src/Mail/Accounting.antt =====
-- Where the offered messages go: sent, waiting for a summary, in a summary, or lost.
use sgsu.Prelude.{
  ℕ, ◌+◌, ◌-◌, Option, none, some, String, List, [], ◌∷◌, ltb, keep, if◌then◌else◌, ◌≡◌, refl,
  arith,
}
use sgsu.Prelude.Table.{lookup, insert}
use sgsu.Mail.{Aggregator, AggState, Summary, offer, offer_state, flush, summaries, is_open}

-- The repeats that wait for a summary
abbrev pub waiting : List (String × AggState) → ℕ
waiting [] = 0
waiting ((key, st) ∷ m) = st.suppressed + waiting m

abbrev pub reported : List Summary → ℕ
reported [] = 0
reported (s ∷ ss) = s.count + reported ss

abbrev waiting_at : Option AggState → ℕ
waiting_at none = 0
waiting_at (some st) = st.suppressed

-- The repeats that an offer forgets: those of its key, if the window is over and not flushed yet
abbrev pub lost : ℕ → Option AggState → ℕ → ℕ
lost window none now = 0
lost window (some st) now = if ltb window (now - st.first_sent) then st.suppressed else 0

waiting-insert :
    (key : String) (st : AggState) (m : List (String × AggState))
    → waiting (insert key st m) + waiting_at (lookup key m) ≡ waiting m + st.suppressed
unfolding lookup insert
waiting-insert key st [] = omega arith
waiting-insert key st ((j, old) ∷ m) = ground (arith, waiting-insert key st m)

offered :
    (window : ℕ) (o : Option AggState) (message : String) (now : ℕ)
    → (offer_state window o message now).0.suppressed + lost window o now
      ≡ waiting_at o + (if (offer_state window o message now).1 then 0 else 1)
unfolding offer_state
offered window none message now = refl
offered window (some st) message now = ground arith

-- An offer that is not sent adds one to the repeats that wait. One that is sent adds none and
-- forgets those that still waited under its key, of a window that was over and not flushed.
pub waiting-offer :
    (a : Aggregator) (key message : String) (now : ℕ)
    → waiting (offer a key message now).0.seen + lost a.window (lookup key a.seen) now
      ≡ waiting a.seen + (if (offer a key message now).1 then 0 else 1)
unfolding offer
waiting-offer a key message now = omega (
  arith,
  offered a.window (lookup key a.seen) message now,
  waiting-insert key (offer_state a.window (lookup key a.seen) message now).0 a.seen,
)

flushed :
    (window now : ℕ) (m : List (String × AggState))
    → waiting (keep (is_open window now) m) + reported (summaries window now m) ≡ waiting m
unfolding summaries
flushed window now [] = refl
flushed window now ((key, st) ∷ m) = ground (arith, flushed window now m)

-- A flush loses no repeat: each is in a summary or still waits.
waiting-flush :
    (a : Aggregator) (now : ℕ)
    → waiting (flush a now).0.seen + reported (flush a now).1 ≡ waiting a.seen
unfolding flush
waiting-flush a now = flushed a.window now a.seen
