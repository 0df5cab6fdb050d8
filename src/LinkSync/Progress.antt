-- ===== src/LinkSync/Progress.antt =====
-- The states that synchronization passes through, with the conditions under which
-- src/shared_sync_runtime.cpp commits each event.
use apptraverse.Prelude.{
  IsDistinct, ℕ, ◌≤◌, ◌≡◌, ◌↔◌, ◌⊎◌, inl, inr, refl, Bool, true, false, ◌&&◌, not, List, [], arith,
  nat_eq, Bytes, length, ap, Bool-cases,
}
use apptraverse.Identity.{SharedEventId, id_eq}
use apptraverse.LinkSync.{
  LinkSyncState, LinkSyncEvent, InitialSyncPhase, not_started, pending, complete, phase_beq,
  no_identity, set_link_initial_sync_phase, begin_initial_sync, complete_initial_sync,
  note_initial_sync_received, complete_from_received_snapshot, begin_incremental_event_sync,
  complete_incremental_event_sync, has_pending_event, new_link_sync_state, with_origin, apply,
  asserted, can_apply,
}
use apptraverse.LinkSync.Delivered.{note_delivered-IsDistinct, note_all_delivered-IsDistinct}

-- `SyncInitialState`, `SyncNextEvent`, `OnNodeState` and `OnAck` commit an event only in these states;
-- nothing of the runtime sets a phase by itself.
unfoldable pub permitted : LinkSyncEvent → LinkSyncState → Bool
permitted (set_link_initial_sync_phase phase) s = false
permitted (begin_initial_sync id packet covered) s =
    asserted (begin_initial_sync id packet covered) s
permitted complete_initial_sync s = phase_beq s.initial_sync_phase pending
permitted (note_initial_sync_received packet_id) s =
    asserted (note_initial_sync_received packet_id) s
    && not (phase_beq s.initial_sync_phase pending)
permitted (complete_from_received_snapshot ids) s =
    can_apply (complete_from_received_snapshot ids) s
permitted (begin_incremental_event_sync id identity packet) s =
    asserted (begin_incremental_event_sync id identity packet) s
permitted complete_incremental_event_sync s = asserted complete_incremental_event_sync s

pub phase_beq_iff : (p q : InitialSyncPhase) → (phase_beq p q ≡ true) ↔ (p ≡ q)
unfolding phase_beq
phase_beq_iff not_started not_started = ground arith
phase_beq_iff not_started pending = ground arith
phase_beq_iff not_started complete = ground arith
phase_beq_iff pending not_started = ground arith
phase_beq_iff pending pending = ground arith
phase_beq_iff pending complete = ground arith
phase_beq_iff complete not_started = ground arith
phase_beq_iff complete pending = ground arith
phase_beq_iff complete complete = ground arith

-- A frozen packet is there exactly while it waits for its acknowledgement.
pub record IsConsistent (s : LinkSyncState) : Type 0 where
  pub frozen :
      s.initial_sync_phase ≡ pending
      → ¬ (s.pending_initial_packet_id ≡ 0) × ¬ (length s.pending_initial_packet ≡ 0)
  pub cleared :
      ¬ (s.initial_sync_phase ≡ pending)
      → (s.pending_initial_packet_id ≡ 0)
        × (s.pending_initial_packet ≡ [])
        × (s.pending_initial_covered_event_ids ≡ [])
  pub event_frozen :
      has_pending_event s ≡ true
      → (s.initial_sync_phase ≡ complete)
        × ¬ (length s.pending_event_packet ≡ 0)
        × ¬ (length s.pending_event_identity.origin_uid ≡ 0)
  pub event_cleared :
      has_pending_event s ≡ false
      → (s.pending_event_packet ≡ []) × (s.pending_event_identity ≡ no_identity)
  pub distinct : IsDistinct s.delivered_event_ids

pub new-IsConsistent : (share_id link : ℕ) → IsConsistent (new_link_sync_state share_id link)
unfolding has_pending_event
new-IsConsistent share_id link = record {
  frozen = ground arith;
  cleared = λ h. (refl, refl, refl);
  event_frozen = ground arith;
  event_cleared = λ h. (refl, refl);
  distinct = tt;
}

-- Every event that the runtime commits keeps the progress of a relationship consistent: the frozen
-- initial packet is there exactly while the phase is pending, a frozen event packet only in the
-- complete phase and with the identity it carries, and no identity is delivered twice.
pub apply-IsConsistent :
    (e : LinkSyncEvent) (s : LinkSyncState)
    → permitted e s ≡ true
    → IsConsistent s
    → IsConsistent (apply e s)
unfolding permitted asserted can_apply has_pending_event apply
apply-IsConsistent (set_link_initial_sync_phase phase) s h c = absurd (ground arith)
apply-IsConsistent (begin_initial_sync id packet covered) s h c = record {
  frozen = ground (arith);
  cleared = ground arith;
  event_frozen = ground (arith, c.event_frozen, phase_beq_iff s.initial_sync_phase not_started);
  event_cleared = c.event_cleared;
  distinct = c.distinct;
}
apply-IsConsistent complete_initial_sync s h c = record {
  frozen = ground arith;
  cleared = λ h. (refl, refl, refl);
  event_frozen = ground (arith, c.event_frozen, phase_beq_iff s.initial_sync_phase pending);
  event_cleared = c.event_cleared;
  distinct =
      note_all_delivered-IsDistinct s.pending_initial_covered_event_ids s.delivered_event_ids
        c.distinct;
}
apply-IsConsistent (note_initial_sync_received packet_id) s h c = record {
  frozen = ground arith;
  cleared = λ _. c.cleared (ground (arith, phase_beq_iff s.initial_sync_phase pending));
  event_frozen = λ p. let (_, f, o) = c.event_frozen p in (refl, f, o);
  event_cleared = c.event_cleared;
  distinct = c.distinct;
}
apply-IsConsistent (complete_from_received_snapshot ids) s h c = record {
  frozen = ground arith;
  cleared = λ h. (refl, refl, refl);
  event_frozen = λ p. let (_, f, o) = c.event_frozen p in (refl, f, o);
  event_cleared = c.event_cleared;
  distinct = note_all_delivered-IsDistinct (with_origin ids) s.delivered_event_ids c.distinct;
}
apply-IsConsistent (begin_incremental_event_sync id identity packet) s h c = record {
  frozen = c.frozen;
  cleared = c.cleared;
  event_frozen = ground (arith, phase_beq_iff s.initial_sync_phase complete);
  event_cleared = ground arith;
  distinct = c.distinct;
}
apply-IsConsistent complete_incremental_event_sync s h c = record {
  frozen = c.frozen;
  cleared = c.cleared;
  event_frozen = ground arith;
  event_cleared = λ h. (refl, refl);
  distinct = note_delivered-IsDistinct s.pending_event_identity s.delivered_event_ids c.distinct;
}

-- What a retry sends.
abbrev pub initial_packet : LinkSyncState → ℕ × Bytes × List SharedEventId
initial_packet s =
    (s.pending_initial_packet_id, s.pending_initial_packet, s.pending_initial_covered_event_ids)

abbrev pub event_packet : LinkSyncState → ℕ × SharedEventId × Bytes
event_packet s = (s.pending_event_packet_id, s.pending_event_identity, s.pending_event_packet)

unfoldable pub phase_rank : InitialSyncPhase → ℕ
phase_rank not_started = 0
phase_rank pending = 1
phase_rank complete = 2

rank-le : (p : InitialSyncPhase) → phase_rank p ≤ 2
unfolding phase_rank
rank-le not_started = omega arith
rank-le pending = omega arith
rank-le complete = omega arith

-- Under every event that the runtime commits, the phase never goes back; and where an initial packet is on
-- its way, the event completes the initial state, or the phase and the frozen packet stay as they are.
pub apply-initial_frozen :
    (e : LinkSyncEvent) (s : LinkSyncState)
    → permitted e s ≡ true
    → (phase_rank s.initial_sync_phase ≤ phase_rank (apply e s).initial_sync_phase)
      × ((phase_beq s.initial_sync_phase pending ≡ false)
          ⊎ (e ≡ complete_initial_sync)
          ⊎ (((apply e s).initial_sync_phase ≡ pending)
              × (initial_packet (apply e s) ≡ initial_packet s)))
unfolding permitted asserted can_apply has_pending_event apply phase_rank phase_beq
apply-initial_frozen (set_link_initial_sync_phase phase) s h = absurd (ground arith)
apply-initial_frozen (begin_initial_sync id packet covered) s h =
    let start : s.initial_sync_phase ≡ not_started =
      ground (arith, h, phase_beq_iff s.initial_sync_phase not_started) in
    let rank : phase_rank s.initial_sync_phase ≡ 0 = ap phase_rank start in
    (omega (arith, rank), inl (ap (λ p. phase_beq p pending) start))
apply-initial_frozen complete_initial_sync s h = (rank-le s.initial_sync_phase, inr (inl refl))
apply-initial_frozen (note_initial_sync_received packet_id) s h =
    (rank-le s.initial_sync_phase, inl (ground (arith, h)))
apply-initial_frozen (complete_from_received_snapshot ids) s h =
    let start : s.initial_sync_phase ≡ not_started =
      ground (arith, h, phase_beq_iff s.initial_sync_phase not_started) in
    (rank-le s.initial_sync_phase, inl (ap (λ p. phase_beq p pending) start))
apply-initial_frozen (begin_incremental_event_sync id identity packet) s h =
    (omega arith, inl (ground (arith, h, phase_beq_iff s.initial_sync_phase complete)))
apply-initial_frozen complete_incremental_event_sync s h = (
  omega arith,
  elim (Bool-cases (phase_beq s.initial_sync_phase pending)) [
    | inl waits ↦ inr (inr ((phase_beq_iff s.initial_sync_phase pending).0 waits, refl))
    | inr other ↦ inl other
  ],
)

-- Under every event that the runtime commits, an event packet on its way stays as it is until the event
-- that completes it, and the phase stays complete.
pub apply-event_frozen :
    (e : LinkSyncEvent) (s : LinkSyncState)
    → permitted e s ≡ true
    → IsConsistent s
    → has_pending_event s ≡ true
    → ((apply e s).initial_sync_phase ≡ complete)
      × ((e ≡ complete_incremental_event_sync) ⊎ (event_packet (apply e s) ≡ event_packet s))
unfolding permitted asserted can_apply has_pending_event apply
apply-event_frozen (set_link_initial_sync_phase phase) s h c p = absurd (ground arith)
apply-event_frozen (begin_initial_sync id packet covered) s h c p =
    absurd (ground (arith, c.event_frozen, phase_beq_iff s.initial_sync_phase not_started))
apply-event_frozen complete_initial_sync s h c p = (refl, inr refl)
apply-event_frozen (note_initial_sync_received packet_id) s h c p = (refl, inr refl)
apply-event_frozen (complete_from_received_snapshot ids) s h c p = (refl, inr refl)
apply-event_frozen (begin_incremental_event_sync id identity packet) s h c p = absurd (ground arith)
apply-event_frozen complete_incremental_event_sync s h c p = ((c.event_frozen p).0, inl refl)
