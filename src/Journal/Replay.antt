-- ===== src/Journal/Replay.antt =====
-- What replaying a journal means, and that the loop of `TryEnsureCurrentGeneration` does it.
use apptraverse.Prelude.{
  ℕ, suc, ◌+◌, ◌≡◌, refl, ap, ◌∙◌, true, Option, none, some, List, [], ◌∷◌, ◌++◌, arith, length,
  if◌then◌else◌, is_some, Option-cases, inl, inr,
}
use apptraverse.Journal.{
  Target, EventRecord, Node, applied, apply_event, ensure_from, try_ensure_current_generation,
  try_replay_journal,
}

module _ {S E : Type 0} (t : Target S E) where
  -- The fields after the events of the records in their order, each admitted at its turn.
  unfoldable pub replay : S → List (EventRecord E) → Option S
  replay s [] = some s
  replay s (r ∷ rs) = elim r.event [
    | none ↦ none
    | some e ↦ let rest = replay (t.apply e s) rs in if t.can_apply e s then rest else none
  ]

  pub replay-nil : (s : S) → replay s [] ≡ some s
  unfolding replay
  replay-nil s = refl

  pub replay-append :
      (s : S) (rs qs : List (EventRecord E)) (u : S)
      → replay s rs ≡ some u
      → replay s (rs ++ qs) ≡ replay u qs
  unfolding replay
  replay-append s [] qs u h = ground arith
  replay-append s (r ∷ rs) qs u h = elim (Option-cases r.event) [
    | inl missing ↦ ground arith
    | inr (e, found) ↦ ground (arith, replay-append (t.apply e s) rs qs u)
  ]

  pub fields-apply_event : (e : E) (n : Node S E) → (apply_event t e n).fields ≡ t.apply e n.fields
  unfolding apply_event
  fields-apply_event e n = ground arith

  -- All but the fields, the generation, the applied count and the notifications is the same.
  pub record SameHistory (m n : Node S E) : Type 0 where
    pub base : m.base ≡ n.base
    pub journal : m.journal ≡ n.journal
    pub attached : m.attached ≡ n.attached
    pub policy : m.policy ≡ n.policy
    pub blocked : m.compaction_blocked ≡ n.compaction_blocked
    pub suppressed : m.suppress_materialized_change ≡ n.suppress_materialized_change
    pub notifier : m.has_notifier ≡ n.has_notifier

  SameHistory-trans : {a b c : Node S E} → SameHistory a b → SameHistory b c → SameHistory a c
  SameHistory-trans h k = ground arith

  pub apply_event-SameHistory : (e : E) (n : Node S E) → SameHistory (apply_event t e n) n
  unfolding apply_event
  apply_event-SameHistory e n = ground arith

  pub ensure_from-SameHistory :
      (n : Node S E) (k : ℕ) (rs : List (EventRecord E)) → SameHistory (ensure_from t n k rs).0 n
  unfolding ensure_from
  ensure_from-SameHistory n k [] = ground arith
  ensure_from-SameHistory n k (r ∷ rs) = elim (Option-cases r.event) [
    | inl missing ↦ ground arith
    | inr (e, found) ↦
        ground (
          arith,
          ensure_from-SameHistory (apply_event t e n) (suc k) rs,
          apply_event-SameHistory e n,
        )
  ]

  -- The loop ends with success exactly when the records replay.
  pub ensure_from-done :
      (n : Node S E) (k : ℕ) (rs : List (EventRecord E))
      → (ensure_from t n k rs).1 ≡ is_some (replay n.fields rs)
  unfolding ensure_from replay
  ensure_from-done n k [] = refl
  ensure_from-done n k (r ∷ rs) = elim (Option-cases r.event) [
    | inl missing ↦ ground arith
    | inr (e, found) ↦
        ground (arith, ensure_from-done (apply_event t e n) (suc k) rs, fields-apply_event e n)
  ]

  pub ensure_from-replay :
      (n : Node S E) (k : ℕ) (rs : List (EventRecord E)) (s : S)
      → replay n.fields rs ≡ some s
      → ((ensure_from t n k rs).0.fields ≡ s)
        × ((ensure_from t n k rs).0.applied_journal_size ≡ applied (k + length rs))
  unfolding ensure_from replay
  ensure_from-replay n k [] s h = ground arith
  ensure_from-replay n k (r ∷ rs) s h = elim (Option-cases r.event) [
    | inl missing ↦ ground arith
    | inr (e, found) ↦
        ground (arith, ensure_from-replay (apply_event t e n) (suc k) rs s, fields-apply_event e n)
  ]

  -- Replaying the whole journal from the fields at hand.
  pub try_replay_journal-SameHistory : (n : Node S E) → SameHistory (try_replay_journal t n).0 n
  unfolding try_replay_journal try_ensure_current_generation
  try_replay_journal-SameHistory n =
      SameHistory-trans
        (ensure_from-SameHistory (record n { applied_journal_size = applied 0 }) 0 n.journal)
        (record {
          base = refl;
          journal = refl;
          attached = refl;
          policy = refl;
          blocked = refl;
          suppressed = refl;
          notifier = refl;
        })

  pub try_replay_journal-done :
      (n : Node S E) → (try_replay_journal t n).1 ≡ is_some (replay n.fields n.journal)
  unfolding try_replay_journal try_ensure_current_generation
  try_replay_journal-done n =
      ensure_from-done (record n { applied_journal_size = applied 0 }) 0 n.journal

  pub try_replay_journal-replay :
      (n : Node S E) (s : S)
      → replay n.fields n.journal ≡ some s
      → ((try_replay_journal t n).0.fields ≡ s)
        × ((try_replay_journal t n).0.applied_journal_size ≡ applied (length n.journal))
  unfolding try_replay_journal try_ensure_current_generation
  try_replay_journal-replay n s h =
      let (fields, size) =
        ensure_from-replay (record n { applied_journal_size = applied 0 }) 0 n.journal s h in
      (fields, size ∙ ap applied (omega arith))

  -- With the notifications suppressed, nobody is told of the replay.
  ensure_from-quiet :
      (n : Node S E) (k : ℕ) (rs : List (EventRecord E))
      → n.suppress_materialized_change ≡ true
      → (ensure_from t n k rs).0.notified ≡ n.notified
  unfolding ensure_from apply_event
  ensure_from-quiet n k [] h = refl
  ensure_from-quiet n k (r ∷ rs) h = elim (Option-cases r.event) [
    | inl missing ↦ ground arith
    | inr (e, found) ↦ ground (arith, ensure_from-quiet (apply_event t e n) (suc k) rs)
  ]

  pub try_replay_journal-quiet :
      (n : Node S E)
      → n.suppress_materialized_change ≡ true
      → (try_replay_journal t n).0.notified ≡ n.notified
  unfolding try_replay_journal try_ensure_current_generation
  try_replay_journal-quiet n h =
      ensure_from-quiet (record n { applied_journal_size = applied 0 }) 0 n.journal h

  -- A journal replays in two parts.
  pub replay-split :
      (s : S) (rs qs : List (EventRecord E)) (u : S)
      → replay s (rs ++ qs) ≡ some u
      → (m : S) × (replay s rs ≡ some m) × (replay m qs ≡ some u)
  unfolding replay
  replay-split s [] qs u h = (s, refl, h)
  replay-split s (r ∷ rs) qs u h = elim (Option-cases r.event) [
    | inl missing ↦ absurd (ground arith)
    | inr (e, found) ↦
        let (m, first, second) = replay-split (t.apply e s) rs qs u (ground arith) in
        (m, ground arith, second)
  ]
