-- ===== src/Journal/Compact.antt =====
-- Compaction is housekeeping: `Node::CompactJournal` moves records into the base and changes nothing
-- that is seen of the node.
use apptraverse.Prelude.{
  ℕ, ◌≡◌, refl, sym, ap, ◌∙◌, inl, inr, subst, true, false, some, [], ◌++◌, arith, length, take,
  drop, take-append-drop, append-nil, Bool-cases, nil_of_length, nat_beq_iff, ◌==◌, nat_eq,
}
use mathlib.Core.Path.{ap₂}
use apptraverse.Journal.{
  Target, Node, fully_materialized, try_replay_journal, try_rebuild_from_base_and_replay,
}
use apptraverse.Journal.Replay.{
  replay, replay-split, replay-nil, try_replay_journal-replay, try_replay_journal-SameHistory,
  try_replay_journal-quiet,
}
use apptraverse.Journal.Insertion.{IsSorted, IsUnique, drop-IsSorted, drop-IsUnique}
use apptraverse.Journal.WellFormed.{IsWellFormed, IsPlain, rebuild-replay, rebuild-quiet}
use apptraverse.Journal.Compaction.{
  collapsible_prefix_count, capture_base_state, collapse_all, collapse_prefix, compact_journal,
}

module _ {S E : Type 0} (t : Target S E) where
  -- A base that has been saved is loaded as it was.
  abbrev pub IsStored : Type 0
  IsStored = (s : S) → t.reload s ≡ s

  -- `m` shows what `n` shows, and is at rest over a base to which `count` records have moved.
  pub record Compacted (count : ℕ) (n : Node S E) (b : S) (m : Node S E) : Type 0 where
    pub new_base : S
    pub moved : replay t b (take count n.journal) ≡ some new_base
    pub well_formed : IsWellFormed t m new_base
    pub journal : m.journal ≡ drop count n.journal
    pub fields : m.fields ≡ n.fields
    pub generation : m.generation ≡ n.generation
    pub notified : m.notified ≡ n.notified
    pub suppressed : m.suppress_materialized_change ≡ false

  record Captured (n m : Node S E) : Type 0 where
    base : m.base ≡ some (t.reload n.fields)
    fields : m.fields ≡ n.fields
    attached : m.attached ≡ n.attached
    suppressed : m.suppress_materialized_change ≡ n.suppress_materialized_change
    notified : m.notified ≡ n.notified
    generation : m.generation ≡ n.generation
    journal : m.journal ≡ n.journal

  captured : (n : Node S E) (b : S) → n.base ≡ some b → Captured n (capture_base_state t n)
  unfolding capture_base_state
  captured n b h = ground arith

  -- The node between the capture and the replay of the records that stay.
  record Ready (count : ℕ) (n : Node S E) (u : S) (m : Node S E) : Type 0 where
    base : m.base ≡ some u
    fields : m.fields ≡ u
    attached : m.attached ≡ true
    suppressed : m.suppress_materialized_change ≡ true
    notified : m.notified ≡ n.notified
    journal : m.journal ≡ drop count n.journal
    stays : replay t u (drop count n.journal) ≡ some n.fields

  replayed-Compacted :
      (count : ℕ) (n : Node S E) (b u : S) (m : Node S E)
      → IsWellFormed t n b
      → replay t b (take count n.journal) ≡ some u
      → Ready count n u m
      → Compacted count n b (record (try_replay_journal t m).0 {
        suppress_materialized_change = false;
        generation = n.generation;
        applied_journal_size = fully_materialized;
      })
  replayed-Compacted count n b u m w moved r =
      let from_fields : replay t m.fields m.journal ≡ some n.fields =
        ap₂ (replay t) r.fields r.journal ∙ r.stays in
      let (fields, _) = try_replay_journal-replay t m n.fields from_fields in
      let same = try_replay_journal-SameHistory t m in
      let journal = same.journal ∙ r.journal in
      record {
        new_base = u;
        moved = moved;
        well_formed = record {
          attached = same.attached ∙ r.attached;
          based = same.base ∙ r.base;
          sorted = subst IsSorted (sym journal) (drop-IsSorted count n.journal w.sorted);
          unique = subst IsUnique (sym journal) (drop-IsUnique count n.journal w.unique);
          current = ap (replay t u) journal ∙ r.stays ∙ ap some (sym fields);
          counted = inl refl;
        };
        journal = journal;
        fields = fields;
        generation = refl;
        notified = try_replay_journal-quiet t m r.suppressed ∙ r.notified;
        suppressed = refl;
      }

  collapse_prefix-Compacted :
      (count : ℕ) (n : Node S E) (b : S)
      → IsPlain t
      → IsStored
      → IsWellFormed t n b
      → Compacted count n b (collapse_prefix t count n)
  unfolding collapse_prefix
  collapse_prefix-Compacted count n b plain stored w =
      let shortened : Node S E = record n {
        journal = take count n.journal;
        suppress_materialized_change = true;
      } in
      let (u, first, second) =
        replay-split t b (take count n.journal) (drop count n.journal) n.fields
          (ap (replay t b) (take-append-drop count n.journal) ∙ w.current) in
      let (fields, same) = rebuild-replay t shortened b u plain w.based first in
      let cleared : Node S E = record (try_rebuild_from_base_and_replay t shortened).0 {
        journal = [];
      } in
      let c = captured cleared b (same.base ∙ w.based) in
      replayed-Compacted count n b u
        (record (capture_base_state t cleared) { journal = drop count n.journal }) w first
        (record {
          base = c.base ∙ ap some (stored cleared.fields ∙ fields);
          fields = c.fields ∙ fields;
          attached = c.attached ∙ same.attached ∙ w.attached;
          suppressed = c.suppressed ∙ same.suppressed;
          notified = c.notified ∙ rebuild-quiet t shortened refl;
          journal = refl;
          stays = second;
        })

  collapse_all-Compacted :
      (count : ℕ) (n : Node S E) (b : S)
      → IsStored
      → IsWellFormed t n b
      → n.suppress_materialized_change ≡ false
      → drop count n.journal ≡ []
      → Compacted count n b (collapse_all t n)
  unfolding collapse_all
  collapse_all-Compacted count n b stored w loud all =
      let c = captured (record n { journal = [] }) b w.based in
      let whole : take count n.journal ≡ n.journal =
        sym (append-nil (take count n.journal))
        ∙ ap (◌++◌ (take count n.journal)) (sym all)
        ∙ take-append-drop count n.journal in
      record {
        new_base = n.fields;
        moved = ap (replay t b) whole ∙ w.current;
        well_formed = record {
          attached = c.attached ∙ w.attached;
          based = c.base ∙ ap some (stored n.fields);
          sorted = subst IsSorted (sym c.journal) tt;
          unique = subst IsUnique (sym c.journal) tt;
          current =
              ap (replay t n.fields) c.journal ∙ replay-nil t n.fields ∙ ap some (sym c.fields);
          counted = inl refl;
        };
        journal = c.journal ∙ sym all;
        fields = c.fields;
        generation = refl;
        notified = c.notified;
        suppressed = c.suppressed ∙ loud;
      }

  nothing_moved :
      (n : Node S E) (b : S)
      → IsWellFormed t n b
      → n.suppress_materialized_change ≡ false
      → Compacted 0 n b n
  nothing_moved n b w loud = record {
    new_base = b;
    moved = replay-nil t b;
    well_formed = w;
    journal = refl;
    fields = refl;
    generation = refl;
    notified = refl;
    suppressed = loud;
  }

  -- Compaction of a node at rest, of a class without local-persistent fields and over storage that
  -- gives back what was saved: the collapsible prefix of the journal is replayed into the base, the rest
  -- of the journal stays, and the fields, the generation and the notifications are what they were.
  pub compact_journal_lem :
      (now_us : ℕ) (n : Node S E) (b : S)
      → IsPlain t
      → IsStored
      → IsWellFormed t n b
      → n.suppress_materialized_change ≡ false
      → Compacted (collapsible_prefix_count n now_us) n b (compact_journal t n now_us)
  unfolding compact_journal
  compact_journal_lem now_us n b plain stored w loud =
      elim (Bool-cases (collapsible_prefix_count n now_us == 0)) [
        | inl nothing ↦ rw nothing (
            subst (λ count. Compacted count n b n) (sym ((nat_beq_iff _ _).0 nothing))
              (nothing_moved n b w loud))
        | inr some' ↦
            rw some'
              (elim (Bool-cases
                (length (drop (collapsible_prefix_count n now_us) n.journal) == 0)) [
                  | inl all ↦ rw all (
                      collapse_all-Compacted (collapsible_prefix_count n now_us) n b stored w loud
                        (nil_of_length _ ((nat_beq_iff _ _).0 all)))
                  | inr part ↦ rw part (
                      collapse_prefix-Compacted (collapsible_prefix_count n now_us) n b plain stored
                        w)
                ])
      ]
