-- ===== src/Journal/Runs.antt =====
-- Runs of the journal over a small node class, and the theorems at concrete nodes.
use mathlib.Core.List.{
  Permᴰ, Nodup, Nodup-cons, Nodup-nil, not-mem-nil, Mem-prop, eq-or-mem_of_mem-cons,
}
use mathlib.Core.Logic.Or
use apptraverse.Prelude.{
  if◌then◌else◌, list_beq, ℕ, ◌+◌, ◌*◌, ◌<◌, ◌≡◌, refl, inl, Bool, true, false, some, List, [], ◌∷◌,
  ◌++◌, arith, leb, map, take, All,
}
use apptraverse.Identity.{SharedEventId, id_beq, order_less}
use apptraverse.Journal.{
  Target, EventRecord, Node, applied, fully_materialized, has_shared_identity, find_by_identity,
  insertable, commit_timestamp, commit, try_commit_shared, try_insert_event, lower_bound, insert_at,
  drop_last, try_append, try_rebuild_from_base_and_replay, load_base, try_replay_journal,
  try_ensure_current_generation, ensure_from, apply_event, note_materialized_change,
}
use apptraverse.Journal.Compaction.{
  collapsible_prefix_count, compact_journal, collapse_from, retains,
}
use apptraverse.Journal.Replay.{replay}
use apptraverse.Journal.Insertion.{insert_record}
use apptraverse.Journal.WellFormed.{retained, IsWellFormed, IsPlain}
use apptraverse.Journal.Insert.{try_insert_event_accepts}
use apptraverse.Journal.Commit.{committed, commit_lem}
use apptraverse.Journal.Compact.{Compacted, compact_journal_lem}
use apptraverse.Journal.Retention.{IsExpired, HasLimit, collapsible_prefix_count_lem}
use apptraverse.Journal.Converge.{Delivery, deliver_all, as_record, shared_view, replicas_converge}

-- A class with one number: an event appends a binary digit and is admitted below a limit.
abbrev register : Target ℕ ℕ
register = record {
  can_apply = λ e s. leb (2 * s + e) 100;
  apply = λ e s. 2 * s + e;
  carry = λ live base. base;
  reload = λ s. s;
}

abbrev entry : ℕ → ℕ → EventRecord ℕ
entry e time = record {
  event = some e;
  identity = record { origin_uid = 97 ∷ []; origin_sequence = time };
  timestamp_us = time;
  retained_since_us = time;
}

abbrev busy : Node ℕ ℕ
busy = record {
  fields = 11;
  base = some 2;
  journal = entry 1 10 ∷ entry 1 30 ∷ [];
  attached = true;
  generation = 3;
  applied_journal_size = fully_materialized;
  policy = record { max_events = some 1; max_age = some 5 };
  compaction_blocked = false;
  suppress_materialized_change = false;
  has_notifier = true;
  notified = 2;
}

busy-IsWellFormed : IsWellFormed register busy 2
unfolding replay has_shared_identity find_by_identity id_beq
busy-IsWellFormed = record {
  attached = refl;
  based = refl;
  sorted = omega arith;
  unique = (refl, (refl, tt));
  current = refl;
  counted = inl refl;
}

register-IsPlain : IsPlain register
register-IsPlain live base = refl

abbrev late : EventRecord ℕ
late = entry 0 20

try_insert_event_accepts_example :
    let out = try_insert_event register 50 busy late in
    let journal = insert_record (retained 50 late) busy.journal in
    (out.1 ≡ true) × IsWellFormed register out.0 2 × (out.0.journal ≡ journal) × (out.0.fields ≡ 21)
unfolding insertable has_shared_identity find_by_identity id_beq replay insert_record order_less
    list_beq
try_insert_event_accepts_example =
    try_insert_event_accepts register 50 busy 2 late 21 register-IsPlain busy-IsWellFormed refl refl

-- Everything that an insertion computes with.
insert_unfolded : ℕ
unfolding try_insert_event insertable has_shared_identity find_by_identity id_beq lower_bound
    insert_at drop_last order_less try_append try_rebuild_from_base_and_replay load_base
    try_replay_journal try_ensure_current_generation ensure_from apply_event
    note_materialized_change
insert_unfolded = 0

late_inserted : (try_insert_event register 50 busy late).0.fields ≡ 21
unfolding insert_unfolded
late_inserted = refl

commit_example :
    let out = commit register 7 busy 1 in
    (out.1 ≡ true)
    × IsWellFormed register out.0 2
    × (out.0.journal ≡ busy.journal ++ committed 7 busy.journal 1 ∷ [])
    × (out.0.fields ≡ 23)
    × All (λ (q : EventRecord ℕ). q.timestamp_us < commit_timestamp 7 busy.journal) busy.journal
commit_example =
    commit_lem register 7 busy 2 1 register-IsPlain busy-IsWellFormed (omega arith) (omega arith)
      refl

compact_journal_example :
    Compacted register
      (collapsible_prefix_count busy 100)
      busy
      2
      (compact_journal register busy 100)
compact_journal_example =
    compact_journal_lem register 100 busy 2 register-IsPlain (λ s. refl) busy-IsWellFormed refl

collapses_one : collapsible_prefix_count busy 100 ≡ 1
unfolding collapsible_prefix_count collapse_from retains
collapses_one = refl

collapsible_prefix_count_example :
    let count = collapsible_prefix_count busy 100 in
    ((if busy.compaction_blocked then count else 0) ≡ 0)
    × HasLimit busy.policy.max_events busy.journal count
    × All (IsExpired busy.policy 100) (take count busy.journal)
collapsible_prefix_count_example = collapsible_prefix_count_lem busy 100

abbrev delivery : ℕ → ℕ → Delivery ℕ
delivery e time = record {
  event = e;
  identity = record { origin_uid = 98 ∷ []; origin_sequence = time };
  timestamp_us = time;
}

abbrev any_metadata : ℕ → SharedEventId → ℕ → Bool
any_metadata e identity time = true

abbrev first_order : List (ℕ × Delivery ℕ)
first_order = (1, delivery 1 20) ∷ (2, delivery 0 15) ∷ []

abbrev second_order : List (ℕ × Delivery ℕ)
second_order = (7, delivery 0 15) ∷ (9, delivery 1 20) ∷ []

abbrev shared_entry : ℕ → ℕ → ℕ → EventRecord ℕ
shared_entry e time now_us = record {
  event = some e;
  identity = record { origin_uid = 98 ∷ []; origin_sequence = time };
  timestamp_us = time;
  retained_since_us = now_us;
}

-- The node after both deliveries, which arrived at the times `a` and `b`.
abbrev settled : ℕ → ℕ → Node ℕ ℕ
settled a b = record busy {
  fields = 43;
  journal = entry 1 10 ∷ shared_entry 0 15 a ∷ shared_entry 1 20 b ∷ entry 1 30 ∷ [];
  generation = 5;
  applied_journal_size = applied 4;
  notified = 9;
}

orders_permute :
    Permᴰ
      (map (λ (d : ℕ × Delivery ℕ). as_record d.1) first_order)
      (map (λ (d : ℕ × Delivery ℕ). as_record d.1) second_order)
orders_permute = Permᴰ.swap refl refl

distinct_timestamps : Nodup (map (λ (d : ℕ × Delivery ℕ). d.1.timestamp_us) first_order)
distinct_timestamps = Nodup-cons.1 (
  λ m.
      not-mem-nil (Or.elim Mem-prop (eq-or-mem_of_mem-cons m) (λ e. absurd (omega arith)) (λ r. r)),
  Nodup-cons.1 (not-mem-nil, Nodup-nil),
)

-- The two orders leave the register alike.
replicas_converge_example :
    (43 ≡ (settled 7 9).fields)
    × (map shared_view (settled 2 1).journal ≡ map shared_view (settled 7 9).journal)
unfolding deliver_all insert_unfolded try_commit_shared
replicas_converge_example =
    replicas_converge register any_metadata busy busy (settled 2 1) (settled 7 9) 2 first_order
      second_order register-IsPlain busy-IsWellFormed busy-IsWellFormed refl orders_permute
      distinct_timestamps refl refl
