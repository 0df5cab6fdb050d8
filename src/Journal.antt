-- ===== src/Journal.antt =====
-- The event-sourced node, include/apptraverse/node.h, with event_record.h, event_for.h, node_for.h and
-- journal_retention_policy.h of include/apptraverse. The concrete node class is a parameter: its
-- fields `S`, its events `E`, and how an event is admitted and applied. Time is an argument.
pub mod Compaction
pub mod Retention
pub mod Replay
pub mod Insertion
pub mod Append
pub mod WellFormed
pub mod Insert
pub mod Commit
pub mod Stored
pub mod Converge
pub mod Compact
mod Runs
use apptraverse.Prelude.{
  ℕ, suc, ◌+◌, ◌-◌, ◌%◌, ◌^◌, Bool, true, false, ◌&&◌, ◌||◌, not, Option, none, some, List, [], ◌∷◌,
  ◌++◌, ltb, leb, if◌then◌else◌, length, take, drop, is_some, Eq, ◌==◌, nat_eq,
}
use apptraverse.Identity.{SharedEventId, order_less, id_eq}

-- What a concrete class adds to `Node` through `NodeFor` and `EventFor`. `carry live base` is what
-- `StashLocalPersistentAcrossRebuild` and `RestoreLocalPersistentAcrossRebuild` make of the fields
-- that are loaded from the base. `reload` is a save of the fields and a load of what was saved.
pub record Target (S E : Type 0) : Type 0 where
  pub can_apply : E → S → Bool
  pub apply : E → S → S
  pub carry : S → S → S
  pub reload : S → S

-- `event` is `none` where the pointer is not valid, not loaded, or of another domain.
pub record EventRecord (E : Type 0) : Type 0 where
  pub event : Option E
  pub identity : SharedEventId
  pub timestamp_us : ℕ
  pub retained_since_us : ℕ

unfoldable pub has_shared_identity : {E : Type 0} → EventRecord E → Bool
has_shared_identity record' = not (length record'.identity.origin_uid == 0)

-- `none` is `kUnlimitedEvents`, and an absent `max_age`.
pub record JournalRetentionPolicy : Type 0 where
  pub max_events : Option ℕ
  pub max_age : Option ℕ

-- `applied_journal_size_`; the first constructor is `kJournalFullyMaterialized`.
pub data AppliedSize : Type 0 where
  fully_materialized : AppliedSize
  applied : ℕ → AppliedSize

-- `attached` is `domain != nullptr`. `notified` counts the calls of a bound notifier.
pub record Node (S E : Type 0) : Type 0 where
  pub fields : S
  pub base : Option S
  pub journal : List (EventRecord E)
  pub attached : Bool
  pub generation : ℕ
  pub applied_journal_size : AppliedSize
  pub policy : JournalRetentionPolicy
  pub compaction_blocked : Bool
  pub suppress_materialized_change : Bool
  pub has_notifier : Bool
  pub notified : ℕ

-- `Node::FindSharedEvent`.
unfoldable pub find_by_identity :
    {E : Type 0} → SharedEventId → List (EventRecord E) → Option (EventRecord E)
find_by_identity identity [] = none
find_by_identity identity (r ∷ rs) =
    if has_shared_identity r && (r.identity == identity)
    then some r
    else find_by_identity identity rs

module _ {S E : Type 0} where
  unfoldable pub find_shared_event : Node S E → SharedEventId → Option (EventRecord E)
  unfolding find_by_identity
  find_shared_event n identity =
      if length identity.origin_uid == 0 then none else find_by_identity identity n.journal

  unfoldable pub note_materialized_change : Node S E → Node S E
  note_materialized_change n = if n.suppress_materialized_change then n else record n {
    generation = (n.generation + 1) % 2 ^ 64;
    notified = if n.has_notifier then n.notified + 1 else n.notified;
  }

module _ {E : Type 0} where
  -- The first position whose record is not below the new one (`std::lower_bound`).
  unfoldable pub lower_bound : EventRecord E → List (EventRecord E) → ℕ
  lower_bound new [] = 0
  lower_bound new (r ∷ rs) =
      let below = suc (lower_bound new rs) in
      if order_less r.timestamp_us new.timestamp_us then below else 0

  unfoldable pub insert_at : ℕ → EventRecord E → List (EventRecord E) → List (EventRecord E)
  insert_at i new rs = take i rs ++ new ∷ drop i rs

  unfoldable pub drop_last : List (EventRecord E) → List (EventRecord E)
  drop_last [] = []
  drop_last (r ∷ []) = []
  drop_last (r ∷ s ∷ rs) = r ∷ drop_last (s ∷ rs)

  -- A local commit is later than the last record, even where the clock is not. The sum wraps.
  unfoldable pub commit_timestamp : ℕ → List (EventRecord E) → ℕ
  commit_timestamp now_us [] = now_us
  commit_timestamp now_us (r ∷ []) =
      if leb now_us r.timestamp_us then (r.timestamp_us + 1) % 2 ^ 64 else now_us
  commit_timestamp now_us (r ∷ s ∷ rs) = commit_timestamp now_us (s ∷ rs)

module _ {S E : Type 0} where
  -- The early returns of `TryInsertEvent`.
  unfoldable pub insertable : Node S E → EventRecord E → Bool
  insertable n r =
      n.attached
      && is_some n.base
      && is_some r.event
      && not (r.timestamp_us == 0)
      && not (has_shared_identity r && is_some (find_by_identity r.identity n.journal))

module _ {S E : Type 0} (t : Target S E) where
  -- Each `Apply` of the node classes changes the fields and then notes the change once.
  unfoldable pub apply_event : E → Node S E → Node S E
  unfolding note_materialized_change
  apply_event e n = note_materialized_change (record n { fields = t.apply e n.fields })

  -- The loop of `TryEnsureCurrentGeneration` over the records from `k` on.
  unfoldable pub ensure_from : Node S E → ℕ → List (EventRecord E) → Node S E × Bool
  ensure_from n k [] = (record n { applied_journal_size = applied k }, true)
  ensure_from n k (r ∷ rs) = elim r.event [
    | none ↦ (record n { applied_journal_size = applied k }, false)
    | some e ↦
        let next = ensure_from (apply_event e n) (suc k) rs in
        if t.can_apply e n.fields
        then next
        else (record n { applied_journal_size = applied k }, false)
  ]

  unfoldable pub try_ensure_current_generation : Node S E → Node S E × Bool
  try_ensure_current_generation n = elim n.applied_journal_size [
    | fully_materialized ↦ (record n { applied_journal_size = applied (length n.journal) }, true)
    | applied k ↦ ensure_from n k (drop k n.journal)
  ]

  unfoldable pub try_replay_journal : Node S E → Node S E × Bool
  try_replay_journal n =
      try_ensure_current_generation (record n { applied_journal_size = applied 0 })

  -- The fields as the base stores them, with the local-persistent ones of the live node.
  unfoldable pub load_base : Node S E → S
  load_base n = elim n.base [ none ↦ n.fields | some b ↦ t.carry n.fields b ]

  unfoldable pub try_rebuild_from_base_and_replay : Node S E → Node S E × Bool
  try_rebuild_from_base_and_replay n =
      try_replay_journal (record n { fields = load_base n; generation = 1 })

  unfoldable pub try_replay_from_base : Node S E → Node S E × Bool
  try_replay_from_base n = try_rebuild_from_base_and_replay n

  -- The journal, with the new record at its end, has been extended: apply what is not applied yet.
  unfoldable pub try_append : Node S E → Node S E × Bool
  try_append n =
      let size = length n.journal in
      let m : Node S E = elim n.applied_journal_size [
        | fully_materialized ↦ record n { applied_journal_size = applied (size - 1) }
        | applied k ↦ n
      ] in
      let (m', done) = try_ensure_current_generation m in
      if done then (m', true) else (
        record m' { journal = drop_last m'.journal; applied_journal_size = applied (size - 1) },
        false,
      )

  -- `now_us` is the clock, read where the record has no local retention time.
  unfoldable pub try_insert_event : ℕ → Node S E → EventRecord E → Node S E × Bool
  try_insert_event now_us n r =
      if insertable n r
      then (let r' =
            if r.retained_since_us == 0 then record r { retained_since_us = now_us } else r in
          let position = lower_bound r' n.journal in
          let n' = record n { journal = insert_at position r' n.journal } in
          if position == length n.journal
          then try_append n'
          else try_rebuild_from_base_and_replay n')
      else (n, false)

  unfoldable pub commit : ℕ → Node S E → E → Node S E × Bool
  commit now_us n e = try_insert_event now_us n (record {
    event = some e;
    identity = record { origin_uid = []; origin_sequence = 0 };
    timestamp_us = commit_timestamp now_us n.journal;
    retained_since_us = now_us;
  })

  -- `matches` is `MatchesSharedMetadata` of the event's class.
  unfoldable pub try_commit_shared :
      (E → SharedEventId → ℕ → Bool) → ℕ → Node S E → Option E → SharedEventId → ℕ → Node S E × Bool
  try_commit_shared matches now_us n event identity timestamp_us = elim event [
    | none ↦ (n, false)
    | some e ↦
        if not (length identity.origin_uid == 0) && matches e identity timestamp_us
        then try_insert_event now_us n (record {
          event = some e;
          identity = identity;
          timestamp_us = timestamp_us;
          retained_since_us = now_us;
        })
        else (n, false)
  ]
