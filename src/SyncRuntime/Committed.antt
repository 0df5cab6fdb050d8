-- ===== src/SyncRuntime/Committed.antt =====
-- `InsertShared`, as `OnEvent` calls it: a shared event that is taken is found in the journal.
use apptraverse.Prelude.{
  ℕ, ◌≡◌, sym, ap, ◌∙◌, inl, inr, Bool, true, false, ◌&&◌, not, none, some, List, [], ◌∷◌, arith,
  length, if◌then◌else◌, if_true, if_false, Bool-cases, ◌==◌, nat_eq, bytes_eq,
}
use mathlib.Core.Bool.{false≢true}
use apptraverse.Identity.{SharedEventId, id_eq}
use apptraverse.Journal.{
  Target, EventRecord, Node, has_shared_identity, find_by_identity, find_shared_event,
  try_insert_event, try_commit_shared,
}
use apptraverse.Journal.Insertion.{insert_record}
use apptraverse.Journal.WellFormed.{retained}
use apptraverse.Journal.Stored.{journal-try_insert_event}
use apptraverse.SyncRuntime.{}

module _ {E : Type 0} where
  found_inserted :
      (id : SharedEventId) (r : EventRecord E) (j : List (EventRecord E))
      → (has_shared_identity r && (r.identity == id)) ≡ true
      → find_by_identity id j ≡ none
      → find_by_identity id (insert_record r j) ≡ some r
  unfolding find_by_identity insert_record
  found_inserted id r [] h k = ground (arith, h)
  found_inserted id r (q ∷ j) h k = ground (arith, h, k, found_inserted id r j h)

-- The record of a shared event.
abbrev pub shared_record : {E : Type 0} → ℕ → E → SharedEventId → ℕ → EventRecord E
shared_record now_us e identity timestamp_us = record {
  event = some e;
  identity = identity;
  timestamp_us = timestamp_us;
  retained_since_us = now_us;
}

module _ {S E : Type 0} (t : Target S E) where
  -- A shared commit that succeeds leaves the event in the journal.
  pub shared_commit_stored :
      (matches : E → SharedEventId → ℕ → Bool) (now_us : ℕ) (n : Node S E) (e : E)
      (identity : SharedEventId) (timestamp_us : ℕ)
      → find_shared_event n identity ≡ none
      → (try_commit_shared t matches now_us n (some e) identity timestamp_us).1 ≡ true
      → find_shared_event
          (try_commit_shared t matches now_us n (some e) identity timestamp_us).0
          identity
        ≡ some (retained now_us (shared_record now_us e identity timestamp_us))
  unfolding try_commit_shared find_shared_event has_shared_identity
  shared_commit_stored matches now_us n e identity timestamp_us absent done =
      elim (Bool-cases (not (length identity.origin_uid == 0) && matches e identity timestamp_us)) [
        | inr refused ↦
            absurd
              (false≢true (sym (ap (λ (o : Node S E × Bool). o.1) (if_false _ _ refused)) ∙ done))
        | inl admitted ↦
            let r = shared_record now_us e identity timestamp_us in
            let run = if_true (try_insert_event t now_us n r) (n, false) admitted in
            let journal =
              journal-try_insert_event t now_us n r
                (sym (ap (λ (o : Node S E × Bool). o.1) run) ∙ done) in
            let named : (length identity.origin_uid == 0) ≡ false = ground arith in
            let unknown : find_by_identity identity n.journal ≡ none =
              sym (if_false _ _ named) ∙ absent in
            let stored =
              found_inserted identity (retained now_us r) n.journal
                (ground (arith, named, id_eq.beq_iff identity identity)) unknown in
            ap
              (λ (m : Node S E).
                if length identity.origin_uid == 0
                then none
                else find_by_identity identity m.journal)
              (ap (λ (o : Node S E × Bool). o.0) run)
            ∙ if_false _ _ named
            ∙ ap (find_by_identity identity) journal
            ∙ stored
      ]
