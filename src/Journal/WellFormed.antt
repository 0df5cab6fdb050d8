-- ===== src/Journal/WellFormed.antt =====
-- A node at rest: its journal in order, its fields a replay of the journal; and the rebuild that gets there.
use apptraverse.Prelude.{
  ℕ, ◌≡◌, sym, ap, ◌∙◌, inr, subst, true, some, List, arith, length, if◌then◌else◌, is_some, ◌==◌,
  nat_eq,
}
use apptraverse.Identity.{id_eq}
use apptraverse.Journal.{
  Target, EventRecord, Node, applied, load_base, try_rebuild_from_base_and_replay,
}
use apptraverse.Journal.Replay.{
  replay, try_replay_journal-done, try_replay_journal-replay, try_replay_journal-quiet,
  try_replay_journal-SameHistory, SameHistory,
}
use apptraverse.Journal.Insertion.{IsSorted, IsUnique}
use apptraverse.Journal.Append.{IsCounted}

-- The local retention time is filled in where it is missing.
abbrev pub retained : {E : Type 0} → ℕ → EventRecord E → EventRecord E
retained now_us r = if r.retained_since_us == 0 then record r { retained_since_us = now_us } else r

module _ {S E : Type 0} (t : Target S E) where
  -- A node at rest over the base `b`: its journal is sorted by timestamp, names no identity twice, and
  -- its fields are the base with every record applied.
  pub record IsWellFormed (n : Node S E) (b : S) : Type 0 where
    pub attached : n.attached ≡ true
    pub based : n.base ≡ some b
    pub sorted : IsSorted n.journal
    pub unique : IsUnique n.journal
    pub current : replay t b n.journal ≡ some n.fields
    pub counted : IsCounted t n (length n.journal)

  -- The class keeps no local-persistent fields across a rebuild.
  abbrev pub IsPlain : Type 0
  IsPlain = (live base : S) → t.carry live base ≡ base

  pub rebuild-done :
      (n : Node S E) (b : S)
      → IsPlain
      → n.base ≡ some b
      → (try_rebuild_from_base_and_replay t n).1 ≡ is_some (replay t b n.journal)
  unfolding try_rebuild_from_base_and_replay load_base
  rebuild-done n b plain based = ground (
    arith,
    try_replay_journal-done t (record n { fields = load_base t n; generation = 1 }),
    plain n.fields b,
  )

  pub rebuild-IsWellFormed :
      (n : Node S E) (b s : S)
      → IsPlain
      → n.attached ≡ true
      → n.base ≡ some b
      → IsSorted n.journal
      → IsUnique n.journal
      → replay t b n.journal ≡ some s
      → IsWellFormed (try_rebuild_from_base_and_replay t n).0 b
        × ((try_rebuild_from_base_and_replay t n).0.journal ≡ n.journal)
        × ((try_rebuild_from_base_and_replay t n).0.fields ≡ s)
  unfolding try_rebuild_from_base_and_replay load_base
  rebuild-IsWellFormed n b s plain attached based sorted unique h =
      let m : Node S E = record n { fields = load_base t n; generation = 1 } in
      let loaded : load_base t n ≡ b = ground (arith, plain n.fields b) in
      let from_fields : replay t m.fields m.journal ≡ some s =
        ap (λ (f : S). replay t f n.journal) loaded ∙ h in
      let same = try_replay_journal-SameHistory t m in
      let (fields, size) = try_replay_journal-replay t m s from_fields in
      (
        record {
          attached = same.attached ∙ attached;
          based = same.base ∙ based;
          sorted = subst IsSorted (sym same.journal) sorted;
          unique = subst IsUnique (sym same.journal) unique;
          current = ap (replay t b) same.journal ∙ h ∙ ap some (sym fields);
          counted =
              inr (size ∙ ap (λ (j : List (EventRecord E)). applied (length j)) (sym same.journal));
        },
        same.journal,
        fields,
      )

  -- A rebuild ends with the replayed fields, over the same history.
  pub rebuild-replay :
      (n : Node S E) (b s : S)
      → IsPlain
      → n.base ≡ some b
      → replay t b n.journal ≡ some s
      → ((try_rebuild_from_base_and_replay t n).0.fields ≡ s)
        × SameHistory t (try_rebuild_from_base_and_replay t n).0 n
  unfolding try_rebuild_from_base_and_replay load_base
  rebuild-replay n b s plain based h =
      let m : Node S E = record n { fields = load_base t n; generation = 1 } in
      let loaded : load_base t n ≡ b = ground (arith, plain n.fields b) in
      let (fields, _) =
        try_replay_journal-replay t m s (ap (λ (f : S). replay t f n.journal) loaded ∙ h) in
      let same = try_replay_journal-SameHistory t m in
      (
        fields,
        record {
          base = same.base;
          journal = same.journal;
          attached = same.attached;
          policy = same.policy;
          blocked = same.blocked;
          suppressed = same.suppressed;
          notifier = same.notifier;
        },
      )

  pub rebuild-quiet :
      (n : Node S E)
      → n.suppress_materialized_change ≡ true
      → (try_rebuild_from_base_and_replay t n).0.notified ≡ n.notified
  unfolding try_rebuild_from_base_and_replay
  rebuild-quiet n h =
      try_replay_journal-quiet t (record n { fields = load_base t n; generation = 1 }) h
