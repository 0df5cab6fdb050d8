-- ===== src/Journal/Stored.antt =====
-- `TryInsertEvent` on any node of any class: an insertion that succeeds leaves the record in its place.
use apptraverse.Prelude.{
  ℕ, ◌-◌, ◌≡◌, refl, sym, ap, ◌∙◌, inl, inr, Bool, true, false, List, length, drop, if◌then◌else◌,
  if_true, if_false, Bool-cases, ◌==◌, nat_eq,
}
use mathlib.Core.Bool.{false≢true}
use apptraverse.Journal.{
  Target, EventRecord, Node, AppliedSize, applied, fully_materialized,
  try_ensure_current_generation, load_base, try_rebuild_from_base_and_replay, try_append,
  insertable, lower_bound, insert_at, try_insert_event,
}
use apptraverse.Journal.Replay.{ensure_from-SameHistory, try_replay_journal-SameHistory}
use apptraverse.Journal.Insertion.{insert_record, insert_at-lower_bound}
use apptraverse.Journal.WellFormed.{retained}

module _ {S E : Type 0} (t : Target S E) where
  ensure-journal : (n : Node S E) → (try_ensure_current_generation t n).0.journal ≡ n.journal
  unfolding try_ensure_current_generation
  ensure-journal n =
      elim n.applied_journal_size
        as (λ (a : AppliedSize).
          (try_ensure_current_generation t (record n { applied_journal_size = a })).0.journal
          ≡ n.journal) [
            | fully_materialized ↦ refl
            | applied k ↦
                (ensure_from-SameHistory t (record n { applied_journal_size = applied k }) k
                  (drop k n.journal)).journal
          ]

  kept :
      (b : Bool) (good bad : Node S E) (j : List (EventRecord E))
      → good.journal ≡ j
      → let out : Node S E × Bool = (if b then (good, true) else (bad, false)) in
        out.1 ≡ true → out.0.journal ≡ j
  kept true good bad j h done = h
  kept false good bad j h done = absurd (false≢true done)

  append-journal :
      (n : Node S E) → (try_append t n).1 ≡ true → (try_append t n).0.journal ≡ n.journal
  unfolding try_append
  append-journal n =
      elim n.applied_journal_size
        as (λ (a : AppliedSize).
          (try_append t (record n { applied_journal_size = a })).1 ≡ true
          → (try_append t (record n { applied_journal_size = a })).0.journal ≡ n.journal) [
            | fully_materialized ↦
                let m : Node S E = record n {
                  applied_journal_size = applied (length n.journal - 1);
                } in
                kept (try_ensure_current_generation t m).1 (try_ensure_current_generation t m).0 _
                  n.journal (ensure-journal m)
            | applied k ↦
                let m : Node S E = record n { applied_journal_size = applied k } in
                kept (try_ensure_current_generation t m).1 (try_ensure_current_generation t m).0 _
                  n.journal (ensure-journal m)
          ]

  rebuild-journal : (n : Node S E) → (try_rebuild_from_base_and_replay t n).0.journal ≡ n.journal
  unfolding try_rebuild_from_base_and_replay
  rebuild-journal n =
      (try_replay_journal-SameHistory t
        (record n { fields = load_base t n; generation = 1 })).journal

  placed-journal :
      (b : Bool) (n : Node S E)
      → (if b then try_append t n else try_rebuild_from_base_and_replay t n).1 ≡ true
      → (if b then try_append t n else try_rebuild_from_base_and_replay t n).0.journal ≡ n.journal
  placed-journal true n done = append-journal n done
  placed-journal false n done = rebuild-journal n

  pub journal-try_insert_event :
      (now_us : ℕ) (n : Node S E) (r : EventRecord E)
      → (try_insert_event t now_us n r).1 ≡ true
      → (try_insert_event t now_us n r).0.journal ≡ insert_record (retained now_us r) n.journal
  unfolding try_insert_event
  journal-try_insert_event now_us n r done = elim (Bool-cases (insertable n r)) [
    | inr refused ↦
        absurd (false≢true (sym (ap (λ (o : Node S E × Bool). o.1) (if_false _ _ refused)) ∙ done))
    | inl insert ↦
        let r' = retained now_us r in
        let m : Node S E = record n {
          journal = insert_at (lower_bound r' n.journal) r' n.journal;
        } in
        let b = lower_bound r' n.journal == length n.journal in
        let run =
          if_true (if b then try_append t m else try_rebuild_from_base_and_replay t m) (n, false)
            insert in
        ap (λ (o : Node S E × Bool). o.0.journal) run
        ∙ placed-journal b m (sym (ap (λ (o : Node S E × Bool). o.1) run) ∙ done)
        ∙ insert_at-lower_bound r' n.journal
  ]
