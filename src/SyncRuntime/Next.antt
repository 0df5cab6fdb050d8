-- ===== src/SyncRuntime/Next.antt =====
-- `SyncNextEvent`: one event at a time, the first that the peer does not have, frozen before it is sent.
use apptraverse.Prelude.{
  ℕ, ◌<◌, ◌≡◌, refl, sym, ap, ◌∙◌, subst, inl, inr, Bool, true, false, ◌&&◌, not, some, List, [],
  ◌∷◌, ◌++◌, arith, length, All, if_true, if_false, Bool-cases, Bytes, ◌==◌, nat_eq, bytes_eq,
  of_some, Option-cases,
}
use apptraverse.Prelude.Assoc.{lookup, lookup-insert_self}
use apptraverse.Identity.{SharedEventId, id_eq}
use apptraverse.Journal.{EventRecord, Node, has_shared_identity, commit}
use apptraverse.LinkSync.{
  LinkSyncState, LinkSyncEvent, complete, begin_incremental_event_sync, has_delivered,
  has_pending_event, apply, can_apply, asserted, phase_beq, link_sync,
}
use apptraverse.LinkSync.Progress.{IsConsistent, permitted, apply-IsConsistent}
use apptraverse.Frame.{EventFrame, encode_event_frame}
use apptraverse.Frame.Length.{encode_event-nonempty}
use apptraverse.SyncRuntime.{
  SharedClass, Runtime, share_endpoint_of, find_node, put_node, send_to, next_undelivered,
  is_standalone_event_class_allowed,
}
use apptraverse.SyncRuntime.Handlers.{
  state_of, with_state, commit_state, event_frame, begin_event, sync_next_event,
}
use apptraverse.SyncRuntime.Ack.{IsReady, committed_fields}
use apptraverse.SyncRuntime.Initial.{IsLawful, with_state_lem, found_share_id}

module _ {E : Type 0} where
  -- Whether a record is one that the peer at `destination` may still need.
  unfoldable pub is_needed : LinkSyncState → Bytes → EventRecord E → Bool
  is_needed s destination r =
      has_shared_identity r
      && not (has_delivered s r.identity)
      && not (has_pending_event s && (s.pending_event_identity == r.identity))
      && not (r.identity.origin_uid == destination)

  -- The record that is chosen for a peer is one of the journal: it has a shared identity, is not
  -- delivered nor on its way, and did not originate at the peer; and no record before it is such.
  pub next_undelivered_lem :
      (j : List (EventRecord E)) (s : LinkSyncState) (destination : Bytes) (r : EventRecord E)
      → next_undelivered j s destination ≡ some r
      → (before : List (EventRecord E)) × (after : List (EventRecord E)) × (j ≡ before ++ r ∷ after)
        × (is_needed s destination r ≡ true)
        × All (λ (q : EventRecord E). is_needed s destination q ≡ false) before
  unfolding next_undelivered is_needed
  next_undelivered_lem [] s destination r h = absurd (ground arith)
  next_undelivered_lem (q ∷ rs) s destination r h = elim (Bool-cases (is_needed s destination q)) [
    | inl needed ↦
        let same : q ≡ r = of_some (sym (if_true _ _ needed) ∙ h) in
        (
          [],
          rs,
          ap (λ (x : EventRecord E). x ∷ rs) same,
          subst (λ (x : EventRecord E). is_needed s destination x ≡ true) same needed,
          tt,
        )
    | inr other ↦
        let (before, after, at, needed, all) =
          next_undelivered_lem rs s destination r (sym (if_false _ _ other) ∙ h) in
        (q ∷ before, after, ap (◌∷◌ q) at, needed, (other, all))
  ]

  is_needed-origin :
      (s : LinkSyncState) (destination : Bytes) (r : EventRecord E)
      → is_needed s destination r ≡ true
      → (length r.identity.origin_uid == 0) ≡ false
  unfolding is_needed has_shared_identity
  is_needed-origin s destination r h = ground arith

module _ {S E : Type 0} (c : SharedClass S E) where
  -- A retry sends the packet that waits.
  sync_waiting :
      (now_us event_id node_id share_id : ℕ) (rt : Runtime S E) (n : Node S E)
      (state : Node LinkSyncState LinkSyncEvent) (destination : Bytes)
      → find_node rt node_id ≡ some n
      → share_endpoint_of (c.shared n.fields) share_id ≡ some destination
      → state_of c n share_id ≡ some state
      → phase_beq state.fields.initial_sync_phase complete ≡ true
      → has_pending_event state.fields ≡ true
      → sync_next_event c now_us event_id node_id share_id rt
        ≡ send_to destination state.fields.pending_event_packet rt
  unfolding sync_next_event
  sync_waiting now_us event_id node_id share_id rt n state destination found endpoint at phase
        waits =
      ground (arith, found, endpoint, at, phase, waits)

  begin-permitted :
      (event_id : ℕ) (frame : EventFrame) (identity : SharedEventId) (s : LinkSyncState)
      → ¬ (event_id ≡ 0)
      → phase_beq s.initial_sync_phase complete ≡ true
      → has_pending_event s ≡ false
      → (length identity.origin_uid == 0) ≡ false
      → ¬ (identity.origin_sequence ≡ 0)
      → permitted (begin_incremental_event_sync event_id identity (encode_event_frame frame)) s
        ≡ true
  unfolding permitted asserted
  begin-permitted event_id frame identity s valid phase idle named counted =
      ground (arith, phase, idle, named, encode_event-nonempty frame)

  -- Before the initial state is complete no event is sent, and nothing changes.
  pub sync_next_event-waits :
      (now_us event_id node_id share_id : ℕ) (rt : Runtime S E) (n : Node S E)
      (state : Node LinkSyncState LinkSyncEvent)
      → find_node rt node_id ≡ some n
      → state_of c n share_id ≡ some state
      → phase_beq state.fields.initial_sync_phase complete ≡ false
      → sync_next_event c now_us event_id node_id share_id rt ≡ rt
  unfolding sync_next_event
  sync_next_event-waits now_us event_id node_id share_id rt n state found at early =
      elim (Option-cases (share_endpoint_of (c.shared n.fields) share_id)) [
        | inl missing ↦ ground (arith, found, missing)
        | inr (destination, endpoint) ↦ ground (arith, found, endpoint, at, early)
      ]

  -- A relationship in the complete phase with no event on its way, on a registered node, where the
  -- journal has a record that the peer needs, of an allowed class and with a payload: the packet that
  -- is sent is the encoded frame of the first such record; at the call of `Send` the storage is the one
  -- that is left in the end, and it holds the state with this packet; the progress stays consistent, and every further call
  -- sends the same bytes again and changes nothing else, so that one event at most is on its way.
  pub sync_next_event_lem :
      (now_us event_id node_id share_id : ℕ) (rt : Runtime S E) (n : Node S E)
      (state : Node LinkSyncState LinkSyncEvent) (destination : Bytes) (r : EventRecord E) (e : E)
      (payload : Bytes)
      → IsLawful c
      → find_node rt node_id ≡ some n
      → share_endpoint_of (c.shared n.fields) share_id ≡ some destination
      → state_of c n share_id ≡ some state
      → IsReady state
      → IsConsistent state.fields
      → 0 < now_us
      → ¬ (event_id ≡ 0)
      → phase_beq state.fields.initial_sync_phase complete ≡ true
      → has_pending_event state.fields ≡ false
      → next_undelivered n.journal state.fields destination ≡ some r
      → ¬ (r.identity.origin_sequence ≡ 0)
      → r.event ≡ some e
      → is_standalone_event_class_allowed rt (c.event_class e) ≡ true
      → c.freeze_event e ≡ some payload
      → let out = sync_next_event c now_us event_id node_id share_id rt in
        let packet = encode_event_frame (event_frame c event_id node_id share_id r e payload) in
        let begun =
          (commit link_sync now_us state
            (begin_incremental_event_sync event_id r.identity packet)).0 in
        (out.sent ≡ rt.sent ++ (destination, packet, out.saved) ∷ [])
        × (lookup node_id out.saved ≡ some (with_state c n share_id begun))
        × (begun.fields.pending_event_packet ≡ packet)
        × IsConsistent begun.fields
        × ((later id : ℕ)
            → sync_next_event c later id node_id share_id out ≡ send_to destination packet out)
  unfolding sync_next_event begin_event commit_state put_node send_to find_node can_apply apply
      has_pending_event state_of
  sync_next_event_lem now_us event_id node_id share_id rt n state destination r e payload lawful
        found endpoint at ready k pos valid phase idle next counted event allowed frozen =
      let frame = event_frame c event_id node_id share_id r e payload in
      let begin = begin_incremental_event_sync event_id r.identity (encode_event_frame frame) in
      let begun = (commit link_sync now_us state begin).0 in
      let fields : begun.fields ≡ apply begin state.fields =
        committed_fields now_us state begin ready pos refl in
      let packet : begun.fields.pending_event_packet ≡ encode_event_frame frame =
        ap (λ (s : LinkSyncState). s.pending_event_packet) fields in
      let (_, _, _, needed, _) = next_undelivered_lem n.journal state.fields destination r next in
      let may =
        begin-permitted event_id frame r.identity state.fields valid phase idle
          (is_needed-origin state.fields destination r needed) counted in
      let own : (begun.fields.share_id == share_id) ≡ true =
        ap (λ (s : LinkSyncState). s.share_id == share_id) fields
        ∙ found_share_id (c.shared n.fields) share_id state at in
      let n' = with_state c n share_id begun in
      let rt' : Runtime S E =
        send_to destination begun.fields.pending_event_packet (put_node node_id n' rt) in
      let run : sync_next_event c now_us event_id node_id share_id rt ≡ rt' =
        ground (arith, found, endpoint, at, phase, idle, next, event, allowed, frozen) in
      let (at', endpoint') = with_state_lem c n share_id state begun lawful at own in
      let found' : find_node rt' node_id ≡ some n' = lookup-insert_self node_id n' rt.nodes in
      let phase' : phase_beq begun.fields.initial_sync_phase complete ≡ true =
        ap (λ (s : LinkSyncState). phase_beq s.initial_sync_phase complete) fields ∙ phase in
      let waits : has_pending_event begun.fields ≡ true =
        ap (λ (s : LinkSyncState). not (s.pending_event_packet_id == 0)) fields ∙ ground arith in
      let retry : (later id : ℕ)
          → sync_next_event c later id node_id share_id rt'
            ≡ send_to destination (encode_event_frame frame) rt' =
        λ later id.
          sync_waiting later id node_id share_id rt' n' begun destination found'
            (endpoint' ∙ endpoint) at' phase' waits
          ∙ ap (λ (bytes : Bytes). send_to destination bytes rt') packet in
      (
        ap (λ (x : Runtime S E). x.sent) run
            ∙ ap (λ (bytes : Bytes). rt.sent ++ (destination, bytes, rt'.saved) ∷ []) packet
            ∙ ap
                (λ (x : Runtime S E).
                  rt.sent ++ (destination, encode_event_frame frame, x.saved) ∷ [])
                (sym run),
        ap (λ (x : Runtime S E). lookup node_id x.saved) run
            ∙ lookup-insert_self node_id n' rt.saved,
        packet,
        subst IsConsistent (sym fields) (apply-IsConsistent begin state.fields may k),
        subst
            (λ (x : Runtime S E).
              (later id : ℕ)
              → sync_next_event c later id node_id share_id x
                ≡ send_to destination (encode_event_frame frame) x)
            (sym run) retry,
      )
