-- ===== src/LinkSync/Runs.antt =====
-- Runs of a relationship's progress, and the theorems at concrete states.
use apptraverse.Prelude.{false, arith, ◌≡◌, ◌⊎◌, ◌≤◌, refl, true, [], ◌∷◌, contains, list_beq}
use apptraverse.Identity.{SharedEventId, id_beq}
use apptraverse.LinkSync.{
  complete, LinkSyncState, pending, begin_initial_sync, complete_initial_sync, has_delivered,
  has_pending_event, new_link_sync_state, apply, phase_beq, asserted, note_delivered,
  note_all_delivered,
}
use apptraverse.LinkSync.Progress.{
  IsConsistent, permitted, new-IsConsistent, apply-IsConsistent, apply-initial_frozen,
  initial_packet, phase_rank,
}

abbrev first_id : SharedEventId
first_id = record { origin_uid = 97 ∷ []; origin_sequence = 1 }

abbrev second_id : SharedEventId
second_id = record { origin_uid = 97 ∷ []; origin_sequence = 2 }

-- A relationship whose initial packet, with one event in it, is on its way.
abbrev started : LinkSyncState
started = apply (begin_initial_sync 40 (1 ∷ 2 ∷ []) (first_id ∷ [])) (new_link_sync_state 7 8)

begun :
    permitted (begin_initial_sync 40 (1 ∷ 2 ∷ []) (first_id ∷ [])) (new_link_sync_state 7 8) ≡ true
unfolding permitted asserted phase_beq
begun = refl

started-IsConsistent : IsConsistent started
started-IsConsistent =
    apply-IsConsistent (begin_initial_sync 40 (1 ∷ 2 ∷ []) (first_id ∷ []))
      (new_link_sync_state 7 8) begun (new-IsConsistent 7 8)

completes : permitted complete_initial_sync started ≡ true
unfolding permitted phase_beq apply
completes = refl

apply-IsConsistent_example : IsConsistent (apply complete_initial_sync started)
apply-IsConsistent_example =
    apply-IsConsistent complete_initial_sync started completes started-IsConsistent

apply-initial_frozen_example :
    let s = apply complete_initial_sync started in
    (phase_rank started.initial_sync_phase ≤ phase_rank s.initial_sync_phase)
    × ((phase_beq started.initial_sync_phase pending ≡ false)
        ⊎ (complete_initial_sync ≡ complete_initial_sync)
        ⊎ ((s.initial_sync_phase ≡ pending) × (initial_packet s ≡ initial_packet started)))
unfolding apply
apply-initial_frozen_example = apply-initial_frozen complete_initial_sync started completes

-- A second event is on its way.
abbrev waiting : LinkSyncState
waiting = record (new_link_sync_state 7 8) {
  initial_sync_phase = complete;
  pending_event_packet_id = 41;
  pending_event_identity = second_id;
  pending_event_packet = 3 ∷ [];
}

waiting-IsConsistent : IsConsistent waiting
unfolding has_pending_event
waiting-IsConsistent = record {
  frozen = ground arith;
  cleared = λ h. (refl, refl, refl);
  event_frozen = ground arith;
  event_cleared = ground arith;
  distinct = tt;
}

covered_is_delivered : has_delivered (apply complete_initial_sync started) first_id ≡ true
unfolding has_delivered apply note_all_delivered note_delivered contains id_beq list_beq
covered_is_delivered = refl

next_is_not :
    has_delivered (apply complete_initial_sync started) second_id ≡ has_delivered started second_id
unfolding has_delivered apply note_all_delivered note_delivered contains id_beq list_beq
next_is_not = refl
