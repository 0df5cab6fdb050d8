-- ===== src/Journal/Commit.antt =====
-- Local commits: `Node::Commit` over `CommitInto`.
use apptraverse.Prelude.{
  Bool, ℕ, suc, ◌+◌, ◌^◌, ◌<◌, ◌≡◌, refl, sym, ap, ◌∙◌, true, ◌&&◌, some, List, [], ◌∷◌, ◌++◌,
  arith, All, is_some, of_some, length, ◌==◌, nat_eq, if_true, if◌then◌else◌,
}
use mathlib.Core.Path.{ap₂}
use apptraverse.Identity.{order_less}
use apptraverse.Journal.{
  Target, EventRecord, Node, has_shared_identity, insertable, commit_timestamp, try_insert_event,
  commit, lower_bound, insert_at, apply_event, applied, try_append,
  try_rebuild_from_base_and_replay,
}
use apptraverse.Journal.Replay.{fields-apply_event, replay, replay-append}
use apptraverse.Journal.Insertion.{insert_record, IsSorted}
use apptraverse.Journal.WellFormed.{retained, IsWellFormed, IsPlain}
use apptraverse.Journal.Append.{IsCounted, try_append_lem}
use apptraverse.Journal.Insert.{try_insert_event_lem}

module _ {E : Type 0} where
  -- The next timestamp does not wrap.
  abbrev pub HasRoom : List (EventRecord E) → Type 0
  HasRoom = All (λ (q : EventRecord E). q.timestamp_us + 1 < 2 ^ 64)

  commit_timestamp-later :
      (now_us : ℕ) (j : List (EventRecord E))
      → IsSorted j
      → HasRoom j
      → All (λ (q : EventRecord E). q.timestamp_us < commit_timestamp now_us j) j
  unfolding commit_timestamp
  commit_timestamp-later now_us [] sorted room = tt
  commit_timestamp-later now_us (r ∷ []) sorted room = ground arith
  commit_timestamp-later now_us (r ∷ s ∷ rs) sorted room =
      let later = commit_timestamp-later now_us (s ∷ rs) sorted.1 room.1 in (omega arith, later)

  commit_timestamp-pos :
      (now_us : ℕ) (j : List (EventRecord E))
      → 0 < now_us
      → HasRoom j
      → 0 < commit_timestamp now_us j
  unfolding commit_timestamp
  commit_timestamp-pos now_us [] pos room = pos
  commit_timestamp-pos now_us (r ∷ []) pos room = ground arith
  commit_timestamp-pos now_us (r ∷ s ∷ rs) pos room =
      commit_timestamp-pos now_us (s ∷ rs) pos room.1

  insert_record_end :
      (r : EventRecord E) (j : List (EventRecord E))
      → All (λ (q : EventRecord E). q.timestamp_us < r.timestamp_us) j
      → insert_record r j ≡ j ++ r ∷ []
  unfolding insert_record order_less
  insert_record_end r [] h = refl
  insert_record_end r (q ∷ j) h = ground (arith, insert_record_end r j h.1)

-- The record of a local commit.
abbrev pub committed : {E : Type 0} → ℕ → List (EventRecord E) → E → EventRecord E
committed now_us journal e = record {
  event = some e;
  identity = record { origin_uid = []; origin_sequence = 0 };
  timestamp_us = commit_timestamp now_us journal;
  retained_since_us = now_us;
}

module _ {S E : Type 0} (t : Target S E) where
  replay_one :
      (r : EventRecord E) (e : E) (s : S)
      → r.event ≡ some e
      → t.can_apply e s ≡ true
      → replay t s (r ∷ []) ≡ some (t.apply e s)
  unfolding replay
  replay_one r e s found can = ground arith

  commit_insertable :
      (now_us : ℕ) (n : Node S E) (b : S) (e : E)
      → IsWellFormed t n b
      → 0 < commit_timestamp now_us n.journal
      → insertable n (committed now_us n.journal e) ≡ true
  unfolding insertable has_shared_identity
  commit_insertable now_us n b e w pos = ground (arith, w.attached, w.based)

  -- On a node at rest, of a class without local-persistent fields, at a time that is not 0 and with
  -- timestamps that leave room below 2^64, the commit of an event that can apply always succeeds: the
  -- record goes to the end with a timestamp later than all others, the event is applied to the fields,
  -- and the node is at rest again.
  pub commit_lem :
      (now_us : ℕ) (n : Node S E) (b : S) (e : E)
      → IsPlain t
      → IsWellFormed t n b
      → 0 < now_us
      → HasRoom n.journal
      → t.can_apply e n.fields ≡ true
      → let out = commit t now_us n e in
        (out.1 ≡ true)
        × IsWellFormed t out.0 b
        × (out.0.journal ≡ n.journal ++ committed now_us n.journal e ∷ [])
        × (out.0.fields ≡ t.apply e n.fields)
        × All (λ (q : EventRecord E). q.timestamp_us < commit_timestamp now_us n.journal) n.journal
  unfolding commit
  commit_lem now_us n b e plain w pos room can =
      let r = committed now_us n.journal e in
      let later = commit_timestamp-later now_us n.journal w.sorted room in
      let at : insert_record r n.journal ≡ n.journal ++ r ∷ [] =
        insert_record_end r n.journal later in
      let same : retained now_us r ≡ r = ground arith in
      let applies : replay t b (insert_record (retained now_us r) n.journal)
          ≡ some (t.apply e n.fields) =
        ap (λ (q : EventRecord E). replay t b (insert_record q n.journal)) same
        ∙ ap (replay t b) at
        ∙ replay-append t b n.journal (r ∷ []) n.fields w.current
        ∙ replay_one r e n.fields refl can in
      let (done, rest) = try_insert_event_lem t now_us n b r plain w in
      let success =
        done
        ∙ ap₂ ◌&&◌
            (commit_insertable now_us n b e w (commit_timestamp-pos now_us n.journal pos room))
            (ap is_some applies) in
      let (w', journal) = rest success in
      (
        success,
        w',
        journal ∙ ap (λ (q : EventRecord E). insert_record q n.journal) same ∙ at,
        of_some (sym w'.current ∙ ap (replay t b) journal ∙ applies),
        later,
      )

-- A commit on a node whose journal is applied, of any class: the base is not consulted.
module _ {S E : Type 0} (t : Target S E) where
  lower_bound_end :
      (r : EventRecord E) (j : List (EventRecord E))
      → All (λ (q : EventRecord E). q.timestamp_us < r.timestamp_us) j
      → lower_bound r j ≡ length j
  unfolding lower_bound order_less
  lower_bound_end r [] h = refl
  lower_bound_end r (q ∷ j) h = ground (arith, lower_bound_end r j h.1)

  insert_at_end :
      (r : EventRecord E) (j : List (EventRecord E)) → insert_at (length j) r j ≡ j ++ r ∷ []
  unfolding insert_at
  insert_at_end r [] = refl
  insert_at_end r (q ∷ j) = ap (◌∷◌ q) (insert_at_end r j)

  -- The node after a record has been appended and its event applied.
  abbrev pub appended : Node S E → EventRecord E → E → Node S E
  appended n r e = record (apply_event t e (record n { journal = n.journal ++ r ∷ [] })) {
    applied_journal_size = applied (suc (length n.journal));
  }

  insert_end :
      (now_us : ℕ) (n : Node S E) (r : EventRecord E) (e : E)
      → insertable n r ≡ true
      → retained now_us r ≡ r
      → r.event ≡ some e
      → IsCounted t n (length n.journal)
      → All (λ (q : EventRecord E). q.timestamp_us < r.timestamp_us) n.journal
      → t.can_apply e n.fields ≡ true
      → try_insert_event t now_us n r ≡ (appended n r e, true)
  unfolding try_insert_event
  insert_end now_us n r e insert same found counted later can =
      let end = lower_bound_end r n.journal later in
      let m : List (EventRecord E) → Node S E =
        λ (j : List (EventRecord E)). record n { journal = j } in
      if_true _ _ insert
      ∙ ap
          (λ (q : EventRecord E).
            if lower_bound q n.journal == length n.journal
            then try_append t (m (insert_at (lower_bound q n.journal) q n.journal))
            else try_rebuild_from_base_and_replay t
                (m (insert_at (lower_bound q n.journal) q n.journal)))
          same
      ∙ if_true _ _ ((nat_eq.beq_iff _ _).1 end)
      ∙ ap (λ (i : ℕ). try_append t (m (insert_at i r n.journal))) end
      ∙ ap (λ (j : List (EventRecord E)). try_append t (m j)) (insert_at_end r n.journal)
      ∙ try_append_lem t (m (n.journal ++ r ∷ [])) n.journal r e refl counted found
      ∙ if_true _ _ can

  pub commit_applied :
      (now_us : ℕ) (n : Node S E) (e : E)
      → n.attached ≡ true
      → is_some n.base ≡ true
      → IsCounted t n (length n.journal)
      → IsSorted n.journal
      → HasRoom n.journal
      → 0 < now_us
      → t.can_apply e n.fields ≡ true
      → commit t now_us n e ≡ (appended n (committed now_us n.journal e) e, true)
  unfolding commit insertable has_shared_identity
  commit_applied now_us n e attached based counted sorted room pos can =
      let at = commit_timestamp-pos now_us n.journal pos room in
      insert_end now_us n (committed now_us n.journal e) e (ground (arith, attached, based, at))
        (ground arith) refl counted (commit_timestamp-later now_us n.journal sorted room) can

module _ {S E : Type 0} (t : Target S E) where
  -- A live node that can take a commit: all its journal is applied, and the timestamps leave room.
  pub record IsLive (n : Node S E) : Type 0 where
    pub attached : n.attached ≡ true
    pub based : is_some n.base ≡ true
    pub counted : IsCounted t n (length n.journal)
    pub sorted : IsSorted n.journal
    pub room : HasRoom n.journal

  pub fields-commit :
      (now_us : ℕ) (n : Node S E) (e : E)
      → IsLive n
      → 0 < now_us
      → t.can_apply e n.fields ≡ true
      → (commit t now_us n e).0.fields ≡ t.apply e n.fields
  fields-commit now_us n e r pos can =
      ap (λ (out : Node S E × Bool). out.0.fields)
        (commit_applied t now_us n e r.attached r.based r.counted r.sorted r.room pos can)
      ∙ fields-apply_event t e _
