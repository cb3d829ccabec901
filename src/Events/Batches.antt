-- ===== src/Events/Batches.antt =====
-- cmd/saguaro-eventd/main.go: what the batches write of the events that arrive.
use sgsu.Prelude.{
  Bool, true, false, List, [], ◌∷◌, ◌++◌, ◌≡◌, refl, ap, sym, ◌∙◌, arith, leb, ◌==◌, all,
  Bool-cases, inl, inr, length,
}
use mathlib.Core.List.{append_assoc, append-nil}
use sgsu.Events.Collector.{LogEvent}
use sgsu.Events.Stream.{
  Batcher, Input, arrived, tick, batch_run, batch_step, flush_batch, batch_size,
}

-- The events among the inputs
unfoldable pub arrivals : List (Bool × Input) → List LogEvent
arrivals [] = []
arrivals ((written, arrived e) ∷ more) = e ∷ arrivals more
arrivals ((written, tick) ∷ more) = arrivals more

-- The rows and then the batch
abbrev kept : Batcher → List LogEvent
kept s = s.rows ++ s.batch

empty_batch : (xs : List LogEvent) → (length xs == 0) ≡ true → xs ≡ []
empty_batch [] h = refl
empty_batch (x ∷ xs) h = let no : ⊥ = ground arith in absurd no

kept-flush_batch : (s : Batcher) → kept (flush_batch true s) ≡ kept s
unfolding flush_batch
kept-flush_batch s = elim (Bool-cases (length s.batch == 0)) [
  | inl none_waits ↦ rw (none_waits) refl
  | inr some_wait ↦ rw (some_wait) (append-nil (s.rows ++ s.batch))
]

batch-flush_batch : (written : Bool) (s : Batcher) → (flush_batch written s).batch ≡ []
unfolding flush_batch
batch-flush_batch written s = elim (Bool-cases (length s.batch == 0)) [
  | inl none_waits ↦ rw (none_waits) (empty_batch s.batch none_waits)
  | inr some_wait ↦ rw (some_wait) refl
]

kept-batch_step_arrived :
    (e : LogEvent) (s : Batcher) → kept (batch_step true (arrived e) s) ≡ kept s ++ (e ∷ [])
unfolding batch_step
kept-batch_step_arrived e s =
    let more : Batcher = record s { batch = s.batch ++ (e ∷ []) } in
    let same : kept more ≡ kept s ++ (e ∷ []) = sym (append_assoc s.rows s.batch (e ∷ [])) in
    elim (Bool-cases (leb batch_size (length more.batch))) [
      | inl full ↦ rw (full) (kept-flush_batch more ∙ same)
      | inr room ↦ rw (room) same
    ]

-- Where the database takes every batch, the rows are at the end those that were there, the batch that
-- waited and then every event that arrived, in the order of arrival, and nothing waits.
pub batch_run_keeps_all :
    (inputs : List (Bool × Input)) (s : Batcher)
    → all (λ x. x.0) inputs ≡ true
    → ((batch_run inputs true s).rows ≡ (s.rows ++ s.batch) ++ arrivals inputs)
      × ((batch_run inputs true s).batch ≡ [])
unfolding batch_run batch_step arrivals
batch_run_keeps_all [] s h =
    let flushed = flush_batch true s in
    let waits : flushed.batch ≡ [] = batch-flush_batch true s in
    (
      sym (append-nil flushed.rows)
          ∙ ap (λ b. flushed.rows ++ b) (sym waits)
          ∙ kept-flush_batch s
          ∙ sym (append-nil (s.rows ++ s.batch)),
      waits,
    )
batch_run_keeps_all ((true, arrived e) ∷ more) s h =
    let next = batch_step true (arrived e) s in
    let rest = batch_run_keeps_all more next h in
    (
      rest.0
          ∙ ap (λ r. r ++ arrivals more) (kept-batch_step_arrived e s)
          ∙ append_assoc (s.rows ++ s.batch) (e ∷ []) (arrivals more),
      rest.1,
    )
batch_run_keeps_all ((true, tick) ∷ more) s h =
    let rest = batch_run_keeps_all more (flush_batch true s) h in
    (rest.0 ∙ ap (λ r. r ++ arrivals more) (kept-flush_batch s), rest.1)
batch_run_keeps_all ((false, i) ∷ more) s h = let no : ⊥ = ground arith in absurd no
