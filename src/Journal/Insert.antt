-- ===== src/Journal/Insert.antt =====
-- What `Node::TryInsertEvent` guarantees: order, identities, and the fields as a replay of the journal.
use mathlib.Core.Path.{ap₂}
use apptraverse.Prelude.{
  of_some, ℕ, suc, ◌≡◌, refl, sym, ap, ◌∙◌, inl, inr, subst, Bool, true, false, ◌&&◌, some, List,
  [], ◌∷◌, ◌++◌, arith, length, if◌then◌else◌, if_true, if_false, length-append, is_some,
  Option-cases, Bool-cases, ◌==◌, nat_eq,
}
use mathlib.Core.Bool.{false≢true}
use apptraverse.Identity.{id_eq}
use apptraverse.Journal.{
  Target, EventRecord, Node, applied, apply_event, has_shared_identity, find_by_identity,
  lower_bound, insert_at, insertable, try_append, try_insert_event,
  try_rebuild_from_base_and_replay,
}
use apptraverse.Journal.Replay.{replay, replay-append, fields-apply_event, apply_event-SameHistory}
use apptraverse.Journal.Insertion.{
  insert_record, IsSorted, IsUnique, insert_record-IsSorted, insert_record-IsUnique,
  insert_at-lower_bound, append_of_lower_bound,
}
use apptraverse.Journal.Append.{try_append_lem}
use apptraverse.Journal.WellFormed.{
  retained, IsWellFormed, IsPlain, rebuild-done, rebuild-IsWellFormed,
}

module _ {S E : Type 0} (t : Target S E) where
  -- What an insertion of an insertable record into a node at rest does.
  pub record Inserted (n : Node S E) (b : S) (r : EventRecord E) (out : Node S E × Bool)
      : Type 0 where
    pub done : out.1 ≡ is_some (replay t b (insert_record r n.journal))
    pub well_formed : out.1 ≡ true → IsWellFormed t out.0 b
    pub journal : out.1 ≡ true → out.0.journal ≡ insert_record r n.journal

  module _ (n : Node S E) (b : S) (r : EventRecord E) (e : E) (w : IsWellFormed t n b)
      (found : r.event ≡ some e) (at : insert_record r n.journal ≡ n.journal ++ r ∷ []) where
    abbrev extended : Node S E
    extended = record n { journal = insert_record r n.journal }

    replay-extended : replay t b (insert_record r n.journal) ≡ replay t n.fields (r ∷ [])
    replay-extended = ap (replay t b) at ∙ replay-append t b n.journal (r ∷ []) n.fields w.current

    accepted :
        IsSorted (insert_record r n.journal)
        → IsUnique (insert_record r n.journal)
        → t.can_apply e n.fields ≡ true
        → Inserted n b r (
          record (apply_event t e extended) {
            applied_journal_size = applied (suc (length n.journal));
          },
          true,
        )
    unfolding replay
    accepted sorted unique can =
        let same = apply_event-SameHistory t e extended in
        let now : replay t b (insert_record r n.journal) ≡ some (t.apply e n.fields) =
          ground (arith, replay-extended) in
        let size : length (insert_record r n.journal) ≡ suc (length n.journal) =
          omega (arith, ap length at, length-append n.journal (r ∷ [])) in
        record {
          done = ground (arith, now);
          well_formed = λ _. record {
            attached = same.attached ∙ w.attached;
            based = same.base ∙ w.based;
            sorted = subst IsSorted (sym same.journal) sorted;
            unique = subst IsUnique (sym same.journal) unique;
            current =
                ap (replay t b) same.journal
                ∙ now
                ∙ ap some (sym (fields-apply_event t e extended));
            counted = inr (ap applied (sym size ∙ ap length (sym same.journal)));
          };
          journal = λ _. same.journal;
        }

    refused :
        t.can_apply e n.fields ≡ false
        → Inserted n b r (record n { applied_journal_size = applied (length n.journal) }, false)
    unfolding replay
    refused cannot = record {
      done = ground (arith, replay-extended);
      well_formed = λ h. absurd (false≢true h);
      journal = λ h. absurd (false≢true h);
    }

    append-Inserted :
        IsSorted (insert_record r n.journal)
        → IsUnique (insert_record r n.journal)
        → Inserted n b r (try_append t extended)
    append-Inserted sorted unique =
        let lem = try_append_lem t extended n.journal r e at w.counted found in
        elim (Bool-cases (t.can_apply e n.fields)) [
          | inl can ↦
              subst (Inserted n b r) (sym (lem ∙ if_true _ _ can)) (accepted sorted unique can)
          | inr cannot ↦ subst (Inserted n b r) (sym (lem ∙ if_false _ _ cannot)) (refused cannot)
        ]

  rebuild-Inserted :
      (n : Node S E) (b : S) (r : EventRecord E)
      → IsPlain t
      → IsWellFormed t n b
      → IsSorted (insert_record r n.journal)
      → IsUnique (insert_record r n.journal)
      → Inserted n b r
          (try_rebuild_from_base_and_replay t (record n { journal = insert_record r n.journal }))
  rebuild-Inserted n b r plain w sorted unique =
      let m : Node S E = record n { journal = insert_record r n.journal } in
      let done = rebuild-done t m b plain w.based in
      elim (Option-cases (replay t b (insert_record r n.journal))) [
        | inl fails ↦
            let no = done ∙ ap is_some fails in
            record {
              done = done;
              well_formed = λ h. absurd (false≢true (sym no ∙ h));
              journal = λ h. absurd (false≢true (sym no ∙ h));
            }
        | inr (s, replays) ↦
            let (w', j, _) =
              rebuild-IsWellFormed t m b s plain w.attached w.based sorted unique replays in
            record { done = done; well_formed = λ _. w'; journal = λ _. j }
      ]

  placed-Inserted :
      (n : Node S E) (b : S) (r : EventRecord E) (e : E)
      → IsPlain t
      → IsWellFormed t n b
      → r.event ≡ some e
      → (has_shared_identity r && is_some (find_by_identity r.identity n.journal)) ≡ false
      → let m : Node S E = record n { journal = insert_at (lower_bound r n.journal) r n.journal } in
        Inserted n b r (
          if lower_bound r n.journal == length n.journal
          then try_append t m
          else try_rebuild_from_base_and_replay t m)
  placed-Inserted n b r e plain w found new =
      let sorted = insert_record-IsSorted r n.journal w.sorted in
      let unique = insert_record-IsUnique r n.journal new w.unique in
      rw (insert_at-lower_bound r n.journal)
        (elim (Bool-cases (lower_bound r n.journal == length n.journal)) [
          | inl end ↦ subst (Inserted n b r) (sym (if_true _ _ end)) (
              append-Inserted n b r e w found
                (append_of_lower_bound r n.journal ((nat_eq.beq_iff _ _).0 end)) sorted unique)
          | inr middle ↦
              subst (Inserted n b r) (sym (if_false _ _ middle))
                (rebuild-Inserted n b r plain w sorted unique)
        ])

  insertable_facts :
      (n : Node S E) (r : EventRecord E)
      → insertable n r ≡ true
      → (e : E) × (r.event ≡ some e)
        × ((has_shared_identity r && is_some (find_by_identity r.identity n.journal)) ≡ false)
  unfolding insertable
  insertable_facts n r h = elim (Option-cases r.event) [
    | inl missing ↦ absurd (ground arith)
    | inr (e, found) ↦ (e, found, ground arith)
  ]

  retained-keeps :
      (now_us : ℕ) (r : EventRecord E)
      → ((retained now_us r).event ≡ r.event)
        × ((retained now_us r).identity ≡ r.identity)
        × ((retained now_us r).timestamp_us ≡ r.timestamp_us)
  retained-keeps now_us r = ground arith

  retained-new :
      (now_us : ℕ) (r : EventRecord E) (j : List (EventRecord E))
      → (has_shared_identity r && is_some (find_by_identity r.identity j)) ≡ false
      → (has_shared_identity (retained now_us r)
          && is_some (find_by_identity (retained now_us r).identity j))
        ≡ false
  unfolding has_shared_identity
  retained-new now_us r j h = ground arith

  -- A node at rest over a base, of a class without local-persistent fields, takes a record exactly when
  -- it is insertable and the journal with the record at its place, the first that keeps the timestamps
  -- sorted, replays from the base. It then is a node at rest over the same base with that journal.
  pub try_insert_event_lem :
      (now_us : ℕ) (n : Node S E) (b : S) (r : EventRecord E)
      → IsPlain t
      → IsWellFormed t n b
      → let out = try_insert_event t now_us n r in
        let journal = insert_record (retained now_us r) n.journal in
        (out.1 ≡ (insertable n r && is_some (replay t b journal)))
        × (out.1 ≡ true → IsWellFormed t out.0 b × (out.0.journal ≡ journal))
  unfolding try_insert_event
  try_insert_event_lem now_us n b r plain w = elim (Bool-cases (insertable n r)) [
    | inr not_insertable ↦ rw not_insertable (refl, λ h. absurd (false≢true h))
    | inl insert ↦
        let (e, found, new) = insertable_facts n r insert in
        let (same_event, same_identity, _) = retained-keeps now_us r in
        let i =
          placed-Inserted n b (retained now_us r) e plain w (same_event ∙ found)
            (retained-new now_us r n.journal new) in
        rw insert (i.done, λ h. (i.well_formed h, i.journal h))
  ]

  -- A node at rest over a base, of a class without local-persistent fields, takes a record that is
  -- insertable and with which the journal replays: the record goes to the first place that keeps the
  -- timestamps sorted, the fields are the replay of the journal from the base, and the node is at rest.
  pub try_insert_event_accepts :
      (now_us : ℕ) (n : Node S E) (b : S) (r : EventRecord E) (s : S)
      → IsPlain t
      → IsWellFormed t n b
      → insertable n r ≡ true
      → replay t b (insert_record (retained now_us r) n.journal) ≡ some s
      → let out = try_insert_event t now_us n r in
        (out.1 ≡ true)
        × IsWellFormed t out.0 b
        × (out.0.journal ≡ insert_record (retained now_us r) n.journal)
        × (out.0.fields ≡ s)
  try_insert_event_accepts now_us n b r s plain w insert replays =
      let (done, rest) = try_insert_event_lem now_us n b r plain w in
      let success = done ∙ ap₂ ◌&&◌ insert (ap is_some replays) in
      let (w', journal) = rest success in
      (success, w', journal, of_some (sym w'.current ∙ ap (replay t b) journal ∙ replays))

  -- A node at rest, of a class without local-persistent fields, refuses a record that is not insertable,
  -- or with which the journal does not replay from the base.
  pub try_insert_event_refuses :
      (now_us : ℕ) (n : Node S E) (b : S) (r : EventRecord E)
      → IsPlain t
      → IsWellFormed t n b
      → (insertable n r && is_some (replay t b (insert_record (retained now_us r) n.journal)))
        ≡ false
      → (try_insert_event t now_us n r).1 ≡ false
  try_insert_event_refuses now_us n b r plain w refused =
      (try_insert_event_lem now_us n b r plain w).0 ∙ refused
