-- ===== src/SyncRuntime/Repeated.antt =====
-- `OnAck`: an acknowledgement that arrives again.
use apptraverse.Prelude.{
  ℕ, ◌<◌, ◌≡◌, refl, sym, ap, ◌∙◌, inl, inr, true, some, arith, Bool-cases, Option-cases, Bytes,
  ◌==◌, nat_eq,
}
use apptraverse.Prelude.Assoc.{lookup-insert_self}
use apptraverse.Journal.{Node, commit}
use apptraverse.LinkSync.{
  LinkSyncState, LinkSyncEvent, set_link_initial_sync_phase, begin_initial_sync,
  complete_initial_sync, note_initial_sync_received, complete_from_received_snapshot,
  begin_incremental_event_sync, complete_incremental_event_sync, apply, link_sync,
}
use apptraverse.LinkSync.Progress.{IsConsistent}
use apptraverse.Frame.{AckFrame}
use apptraverse.SyncRuntime.{SharedClass, Runtime, find_node, put_node}
use apptraverse.SyncRuntime.Handlers.{state_of, with_state, on_ack}
use apptraverse.SyncRuntime.Ack.{IsReady, completes, from_peer, on_ack_ignored, on_ack_lem}
use apptraverse.SyncRuntime.Initial.{IsLawful, with_state_lem, found_share_id}

share_id-apply : (e : LinkSyncEvent) (s : LinkSyncState) → (apply e s).share_id ≡ s.share_id
unfolding apply
share_id-apply (set_link_initial_sync_phase phase) s = refl
share_id-apply (begin_initial_sync id packet covered) s = refl
share_id-apply complete_initial_sync s = refl
share_id-apply (note_initial_sync_received packet_id) s = refl
share_id-apply (complete_from_received_snapshot ids) s = refl
share_id-apply (begin_incremental_event_sync id identity packet) s = refl
share_id-apply complete_incremental_event_sync s = refl

module _ {S E : Type 0} (c : SharedClass S E) where
  ignored_again :
      (now_us later : ℕ) (source : Bytes) (frame : AckFrame) (rt : Runtime S E)
      → on_ack c now_us source frame rt ≡ rt
      → on_ack c later source frame rt ≡ rt
      → on_ack c later source frame (on_ack c now_us source frame rt)
        ≡ on_ack c now_us source frame rt
  ignored_again now_us later source frame rt once twice =
      ap (on_ack c later source frame) once ∙ twice ∙ sym once

  completed_again :
      (now_us later : ℕ) (source : Bytes) (frame : AckFrame) (rt : Runtime S E) (n : Node S E)
      (state : Node LinkSyncState LinkSyncEvent) (e : LinkSyncEvent)
      → IsLawful c
      → find_node rt frame.target_node_id ≡ some n
      → state_of c n frame.destination_share_id ≡ some state
      → IsReady state
      → IsConsistent state.fields
      → 0 < now_us
      → ¬ (frame.packet_id ≡ 0)
      → from_peer c source frame n ≡ true
      → completes state.fields frame.packet_id ≡ some e
      → on_ack c later source frame (on_ack c now_us source frame rt)
        ≡ on_ack c now_us source frame rt
  unfolding find_node put_node state_of
  completed_again now_us later source frame rt n state e lawful found at ready k pos valid peer h =
      let q = frame.destination_share_id in
      let node_id = frame.target_node_id in
      let acked = (commit link_sync now_us state e).0 in
      let (_, run, fields, _, nothing) =
        on_ack_lem c now_us source frame rt n state e found at ready k pos valid peer h in
      let own : (acked.fields.share_id == q) ≡ true =
        ap (λ (s : LinkSyncState). s.share_id == q) fields
        ∙ ap (λ (i : ℕ). i == q) (share_id-apply e state.fields)
        ∙ found_share_id (c.shared n.fields) q state at in
      let n' = with_state c n q acked in
      let (at', _) = with_state_lem c n q state acked lawful at own in
      let rt' = put_node node_id n' rt in
      let found' : find_node rt' node_id ≡ some n' = lookup-insert_self node_id n' rt.nodes in
      let twice : on_ack c later source frame rt' ≡ rt' =
        on_ack_ignored c later source frame rt' n' acked found' at' (ground (arith, nothing)) in
      ap (on_ack c later source frame) run ∙ twice ∙ sym run

  -- On a registered node with the relationship, whose progress is consistent and at rest: whoever sends an
  -- acknowledgement with a valid packet id, and whatever packet it names, the same acknowledgement from the
  -- same source has no effect when it arrives again, at any time.
  pub on_ack_repeated :
      (now_us later : ℕ) (source : Bytes) (frame : AckFrame) (rt : Runtime S E) (n : Node S E)
      (state : Node LinkSyncState LinkSyncEvent)
      → IsLawful c
      → find_node rt frame.target_node_id ≡ some n
      → state_of c n frame.destination_share_id ≡ some state
      → IsReady state
      → IsConsistent state.fields
      → 0 < now_us
      → ¬ (frame.packet_id ≡ 0)
      → on_ack c later source frame (on_ack c now_us source frame rt)
        ≡ on_ack c now_us source frame rt
  on_ack_repeated now_us later source frame rt n state lawful found at ready k pos valid =
      elim (Bool-cases (from_peer c source frame n)) [
        | inr stranger ↦
            let ignored = λ (t : ℕ).
              on_ack_ignored c t source frame rt n state found at (ground (arith, stranger)) in
            ignored_again now_us later source frame rt (ignored now_us) (ignored later)
        | inl peer ↦ elim (Option-cases (completes state.fields frame.packet_id)) [
          | inl nothing ↦
              let ignored = λ (t : ℕ).
                on_ack_ignored c t source frame rt n state found at (ground (arith, nothing)) in
              ignored_again now_us later source frame rt (ignored now_us) (ignored later)
          | inr (e, h) ↦
              completed_again now_us later source frame rt n state e lawful found at ready k pos
                valid peer h
        ]
      ]
