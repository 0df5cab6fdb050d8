-- ===== src/Journal/Compaction.antt =====
-- Journal compaction: `CollapsiblePrefixCount`, `CompactJournalInto` and `CaptureBaseStateInto` of
-- include/apptraverse/node.h. Where the code asserts a success, the model goes on with the state.
use apptraverse.Prelude.{
  ℕ, suc, ◌-◌, Bool, true, false, ◌||◌, none, some, List, [], ◌∷◌, ltb, leb, if◌then◌else◌, length,
  take, drop, ◌==◌, nat_eq,
}
use apptraverse.Journal.{
  Target, EventRecord, Node, JournalRetentionPolicy, fully_materialized, try_replay_journal,
  try_rebuild_from_base_and_replay,
}

module _ {E : Type 0} where
  -- Whether the policy keeps a record that has `remaining` records from itself to the end.
  unfoldable pub retains : JournalRetentionPolicy → ℕ → ℕ → EventRecord E → Bool
  retains policy now_us remaining r =
      (elim policy.max_events [ none ↦ true | some max_events ↦ leb remaining max_events ])
      || (elim policy.max_age [
        | none ↦ false
        | some max_age ↦
            if ltb now_us r.retained_since_us
            then true
            else leb (now_us - r.retained_since_us) max_age
      ])

  unfoldable pub collapse_from : JournalRetentionPolicy → ℕ → List (EventRecord E) → ℕ
  collapse_from policy now_us [] = 0
  collapse_from policy now_us (r ∷ rs) =
      let rest = suc (collapse_from policy now_us rs) in
      if retains policy now_us (length (r ∷ rs)) r then 0 else rest

module _ {S E : Type 0} where
  unfoldable pub collapsible_prefix_count : Node S E → ℕ → ℕ
  collapsible_prefix_count n now_us =
      if n.compaction_blocked || (length n.journal == 0)
      then 0
      else collapse_from n.policy now_us n.journal

module _ {S E : Type 0} (t : Target S E) where
  -- The base takes the live fields, through storage. It must be there, and the journal be empty.
  unfoldable pub capture_base_state : Node S E → Node S E
  capture_base_state n = elim n.base [
    | none ↦ n
    | some b ↦ record n { base = some (t.reload n.fields) }
  ]

  unfoldable pub collapse_all : Node S E → Node S E
  unfolding capture_base_state
  collapse_all n = record (capture_base_state (record n { journal = [] })) {
    generation = n.generation;
    applied_journal_size = fully_materialized;
  }

  unfoldable pub collapse_prefix : ℕ → Node S E → Node S E
  collapse_prefix collapse n =
      let shortened = record n {
        journal = take collapse n.journal;
        suppress_materialized_change = true;
      } in
      let rebuilt = (try_rebuild_from_base_and_replay t shortened).0 in
      let captured = capture_base_state (record rebuilt { journal = [] }) in
      let replayed =
        (try_replay_journal t (record captured { journal = drop collapse n.journal })).0 in
      record replayed {
        suppress_materialized_change = false;
        generation = n.generation;
        applied_journal_size = fully_materialized;
      }

  unfoldable pub compact_journal : Node S E → ℕ → Node S E
  compact_journal n now_us =
      let collapse = collapsible_prefix_count n now_us in
      if collapse == 0
      then n
      else if length (drop collapse n.journal) == 0
      then collapse_all n
      else collapse_prefix collapse n
