-- ===== src/SyncRuntime/Ack.antt =====
-- `OnAck`: which acknowledgements have an effect, and which.
use apptraverse.Prelude.{
  ℕ, ◌<◌, ◌≡◌, refl, sym, ap, ◌∙◌, subst, inl, inr, Bool, true, false, ◌&&◌, Option, none, some,
  arith, is_some, if◌then◌else◌, Bool-cases, if_true, if_false, Bytes, ◌==◌, nat_eq, bytes_eq,
  of_some, not_some,
}
use apptraverse.Journal.{Node, commit}
use apptraverse.Journal.Insertion.{}
use apptraverse.Journal.Commit.{IsLive, fields-commit}
use apptraverse.LinkSync.{
  LinkSyncState, LinkSyncEvent, pending, complete, phase_beq, complete_initial_sync,
  complete_incremental_event_sync, has_pending_event, apply, can_apply, asserted, link_sync,
}
use apptraverse.LinkSync.Progress.{IsConsistent, permitted, apply-IsConsistent, phase_beq_iff}
use apptraverse.Frame.{AckFrame}
use apptraverse.SyncRuntime.{
  SharedClass, Runtime, share_endpoint_of, is_endpoint, find_node, put_node,
}
use apptraverse.SyncRuntime.Handlers.{state_of, with_state, commit_state, on_ack}

abbrev pub IsReady : Node LinkSyncState LinkSyncEvent → Type 0
IsReady = IsLive link_sync

pub committed_fields :
    (now_us : ℕ) (n : Node LinkSyncState LinkSyncEvent) (e : LinkSyncEvent)
    → IsReady n
    → 0 < now_us
    → can_apply e n.fields ≡ true
    → (commit link_sync now_us n e).0.fields ≡ apply e n.fields
committed_fields = fields-commit link_sync

-- What the acknowledgement of a packet completes.
unfoldable pub completes : LinkSyncState → ℕ → Option LinkSyncEvent
completes s packet_id =
    if phase_beq s.initial_sync_phase pending && (s.pending_initial_packet_id == packet_id)
    then some complete_initial_sync
    else if phase_beq s.initial_sync_phase complete && (s.pending_event_packet_id == packet_id)
    then some complete_incremental_event_sync
    else none

completes-permitted :
    (s : LinkSyncState) (packet_id : ℕ) (e : LinkSyncEvent)
    → ¬ (packet_id ≡ 0)
    → completes s packet_id ≡ some e
    → (permitted e s ≡ true) × (can_apply e s ≡ true)
unfolding completes permitted asserted can_apply has_pending_event
completes-permitted s packet_id e valid h =
    elim (Bool-cases
      (phase_beq s.initial_sync_phase pending && (s.pending_initial_packet_id == packet_id))) [
        | inl initial ↦
            let at : complete_initial_sync ≡ e = of_some (sym (if_true _ _ initial) ∙ h) in
            subst (λ (x : LinkSyncEvent). (permitted x s ≡ true) × (can_apply x s ≡ true)) at
              (ground (arith), refl)
        | inr other ↦
            elim (Bool-cases (
              phase_beq s.initial_sync_phase complete
              && (s.pending_event_packet_id == packet_id))) [
                | inl event ↦
                    let at : complete_incremental_event_sync ≡ e =
                      of_some (sym (if_true _ _ event) ∙ sym (if_false _ _ other) ∙ h) in
                    subst (λ (x : LinkSyncEvent). (permitted x s ≡ true) × (can_apply x s ≡ true))
                      at (ground arith, refl)
                | inr neither ↦
                    absurd (not_some (sym (if_false _ _ neither) ∙ sym (if_false _ _ other) ∙ h))
              ]
      ]

-- A packet is completed once.
completes_once :
    (s : LinkSyncState) (packet_id : ℕ) (e : LinkSyncEvent)
    → ¬ (packet_id ≡ 0)
    → IsConsistent s
    → completes s packet_id ≡ some e
    → completes (apply e s) packet_id ≡ none
unfolding completes apply has_pending_event
completes_once s packet_id e valid k h =
    elim (Bool-cases
      (phase_beq s.initial_sync_phase pending && (s.pending_initial_packet_id == packet_id))) [
        | inl initial ↦
            let at : complete_initial_sync ≡ e = of_some (sym (if_true _ _ initial) ∙ h) in
            subst (λ (x : LinkSyncEvent). completes (apply x s) packet_id ≡ none) at
              (ground (arith, k.event_frozen, phase_beq_iff s.initial_sync_phase pending))
        | inr other ↦
            elim (Bool-cases (
              phase_beq s.initial_sync_phase complete
              && (s.pending_event_packet_id == packet_id))) [
                | inl event ↦
                    let at : complete_incremental_event_sync ≡ e =
                      of_some (sym (if_true _ _ event) ∙ sym (if_false _ _ other) ∙ h) in
                    subst (λ (x : LinkSyncEvent). completes (apply x s) packet_id ≡ none) at
                      (ground arith)
                | inr neither ↦
                    absurd (not_some (sym (if_false _ _ neither) ∙ sym (if_false _ _ other) ∙ h))
              ]
      ]

module _ {S E : Type 0} (c : SharedClass S E) where
  -- Whether the frame comes from the endpoint that its relationship points at.
  unfoldable pub from_peer : Bytes → AckFrame → Node S E → Bool
  from_peer source frame n =
      is_endpoint source (share_endpoint_of (c.shared n.fields) frame.destination_share_id)

  on_ack-completes :
      (now_us : ℕ) (source : Bytes) (frame : AckFrame) (rt : Runtime S E) (n : Node S E)
      (state : Node LinkSyncState LinkSyncEvent)
      → find_node rt frame.target_node_id ≡ some n
      → state_of c n frame.destination_share_id ≡ some state
      → on_ack c now_us source frame rt ≡ (
          if from_peer source frame n
          then elim (completes state.fields frame.packet_id) [
            | none ↦ rt
            | some e ↦
                commit_state c now_us frame.target_node_id frame.destination_share_id n state e rt
          ]
          else rt)
  unfolding on_ack completes from_peer
  on_ack-completes now_us source frame rt n state found at = ground (arith, found, at)

  -- An acknowledgement that does not come from the endpoint of its relationship, or that names neither
  -- the pending initial packet nor the pending event packet, changes nothing at all.
  pub on_ack_ignored :
      (now_us : ℕ) (source : Bytes) (frame : AckFrame) (rt : Runtime S E) (n : Node S E)
      (state : Node LinkSyncState LinkSyncEvent)
      → find_node rt frame.target_node_id ≡ some n
      → state_of c n frame.destination_share_id ≡ some state
      → (from_peer source frame n && is_some (completes state.fields frame.packet_id)) ≡ false
      → on_ack c now_us source frame rt ≡ rt
  on_ack_ignored now_us source frame rt n state found at h =
      on_ack-completes now_us source frame rt n state found at ∙ ground (arith, h)

  -- An acknowledgement with a valid packet id, from the endpoint of its relationship, that names the
  -- packet on its way: the event that completes the packet is one that the state permits, it is committed
  -- and the node is saved with it; the progress stays consistent, and the same acknowledgement
  -- completes nothing a second time.
  pub on_ack_lem :
      (now_us : ℕ) (source : Bytes) (frame : AckFrame) (rt : Runtime S E) (n : Node S E)
      (state : Node LinkSyncState LinkSyncEvent) (e : LinkSyncEvent)
      → find_node rt frame.target_node_id ≡ some n
      → state_of c n frame.destination_share_id ≡ some state
      → IsReady state
      → IsConsistent state.fields
      → 0 < now_us
      → ¬ (frame.packet_id ≡ 0)
      → from_peer source frame n ≡ true
      → completes state.fields frame.packet_id ≡ some e
      → let acked = (commit link_sync now_us state e).0 in
        (permitted e state.fields ≡ true)
        × (on_ack c now_us source frame rt
            ≡ put_node frame.target_node_id (with_state c n frame.destination_share_id acked) rt)
        × (acked.fields ≡ apply e state.fields)
        × IsConsistent acked.fields
        × (completes acked.fields frame.packet_id ≡ none)
  unfolding commit_state
  on_ack_lem now_us source frame rt n state e found at ready k pos valid peer h =
      let (allowed, can) = completes-permitted state.fields frame.packet_id e valid h in
      let fields = committed_fields now_us state e ready pos can in
      (
        allowed,
        on_ack-completes now_us source frame rt n state found at ∙ ground (arith, peer, h),
        fields,
        subst IsConsistent (sym fields) (apply-IsConsistent e state.fields allowed k),
        ap (λ (s : LinkSyncState). completes s frame.packet_id) fields
            ∙ completes_once state.fields frame.packet_id e valid k h,
      )
