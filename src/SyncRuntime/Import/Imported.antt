-- ===== src/SyncRuntime/Import/Imported.antt =====
-- `OnNodeState` for a node that the replica does not have yet, and for one that it has.
use apptraverse.Prelude.{
  sym, ℕ, ◌<◌, ◌≡◌, refl, ap, ◌∙◌, Bool, true, false, ◌&&◌, none, some, [], ◌++◌, arith, Bytes,
  ◌==◌, nat_eq, append-nil,
}
use apptraverse.Prelude.Assoc.{lookup, insert, lookup-insert_self}
use apptraverse.Journal.{Node, commit}
use apptraverse.LinkSync.{
  LinkSyncState, LinkSyncEvent, not_started, complete, apply, can_apply, note_initial_sync_received,
  has_pending_event, link_sync,
}
use apptraverse.Frame.{NodeStateFrame}
use apptraverse.SyncRuntime.{
  SharedClass, Runtime, addressed_to_this_replica, find_node, register_node, next_undelivered,
}
use apptraverse.SyncRuntime.Handlers.{state_of, with_state}
use apptraverse.SyncRuntime.Ack.{IsReady, committed_fields}
use apptraverse.SyncRuntime.Initial.{IsLawful, with_state_lem, found_share_id}
use apptraverse.SyncRuntime.Import.{
  GraphReader, save_node, expectation_of, bind_and_ack, complete_source, on_imported, on_known,
  import_validated_node, on_node_state,
}
use apptraverse.SyncRuntime.Import.Admission.{IsFaithfulLoad, import_validated_node_lem}
use apptraverse.SyncRuntime.Import.Arrival.{
  is_bound, answer, bind_and_ack_lem, lookup-append_none, with_state-apart, complete_source_lem,
}

module _ {S E : Type 0} (c : SharedClass S E) where
  -- The imported node once the receipt of its packet is noted.
  abbrev pub noted : ℕ → NodeStateFrame → Node S E → Node LinkSyncState LinkSyncEvent → Node S E
  noted now_us frame n state =
      with_state c n frame.destination_share_id
        (commit link_sync now_us state (note_initial_sync_received frame.packet_id)).0

  noted_lem :
      (now_us : ℕ) (frame : NodeStateFrame) (n : Node S E) (dst : Node LinkSyncState LinkSyncEvent)
      → IsLawful c
      → state_of c n frame.destination_share_id ≡ some dst
      → IsReady dst
      → 0 < now_us
      → let m = noted now_us frame n dst in
        (m.journal ≡ n.journal)
        × ((q : ℕ) → (q == frame.destination_share_id) ≡ false → state_of c m q ≡ state_of c n q)
        × (done : Node LinkSyncState LinkSyncEvent) × (state_of c m frame.destination_share_id
            ≡ some done)
        × (done.fields.received_initial_packet_id ≡ frame.packet_id)
        × (done.fields.initial_sync_phase ≡ complete)
  unfolding state_of with_state can_apply apply
  noted_lem now_us frame n dst lawful at ready pos =
      let q = frame.destination_share_id in
      let e = note_initial_sync_received frame.packet_id in
      let done = (commit link_sync now_us dst e).0 in
      let fields : done.fields ≡ apply e dst.fields =
        committed_fields now_us dst e ready pos refl in
      let own : (done.fields.share_id == q) ≡ true =
        ap (λ (s : LinkSyncState). s.share_id == q) fields
        ∙ found_share_id (c.shared n.fields) q dst at in
      (
        refl,
        (λ p other. with_state-apart c n q p done lawful own (turn p q other)),
        done,
        (with_state_lem c n q dst done lawful at own).0,
        ap (λ (s : LinkSyncState). s.received_initial_packet_id) fields,
        ap (λ (s : LinkSyncState). s.initial_sync_phase) fields,
      )
    where
      turn : (p q : ℕ) → (p == q) ≡ false → (q == p) ≡ false
      turn p q h = ground arith

module _ {S E G : Type 0} (c : SharedClass S E) (g : GraphReader S E G) where
  on_imported_run :
      (now_us : ℕ) (occupied : ℕ → Bool) (bind : Bytes → Node S E → Bool) (source : Bytes)
      (frame : NodeStateFrame) (rt : Runtime S E) (n : Node S E) (p : ℕ)
      (dst : Node LinkSyncState LinkSyncEvent)
      → find_node rt frame.target_node_id ≡ none
      → import_validated_node c g occupied rt source frame ≡ some (n, p)
      → ¬ (frame.packet_id ≡ 0)
      → state_of c (complete_source c now_us p n) frame.destination_share_id ≡ some dst
      → dst.fields.received_initial_packet_id ≡ 0
      → let m = noted c now_us frame (complete_source c now_us p n) dst in
        on_node_state c g now_us occupied bind source frame rt
        ≡ bind_and_ack bind source frame m (
            register_node frame.target_node_id m (
              save_node frame.target_node_id m
                (save_node frame.target_node_id (complete_source c now_us p n) rt)))
  unfolding on_node_state on_imported
  on_imported_run now_us occupied bind source frame rt n p dst unknown imported valid at fresh =
      ground (arith, unknown, imported, valid, at, fresh)

  -- An admitted snapshot of a node that is new, with a valid packet id, whose relationships here have
  -- not started: the node is registered and saved with one and the same content, the journal of the
  -- snapshot; the relationship of the source is complete and needs no event of that journal sent back to
  -- any address; the one that the frame names has noted the packet and is complete; and the packet is
  -- acknowledged, once, unless the endpoint is expected and the callback does not bind the node.
  pub on_node_state_imports :
      (now_us : ℕ) (occupied : ℕ → Bool) (bind : Bytes → Node S E → Bool) (source : Bytes)
      (frame : NodeStateFrame) (rt : Runtime S E) (n : Node S E) (p : ℕ)
      (src dst : Node LinkSyncState LinkSyncEvent)
      → IsLawful c
      → IsFaithfulLoad c g
      → find_node rt frame.target_node_id ≡ none
      → import_validated_node c g occupied rt source frame ≡ some (n, p)
      → state_of c n p ≡ some src
      → state_of c n frame.destination_share_id ≡ some dst
      → IsReady src
      → IsReady dst
      → 0 < now_us
      → ¬ (frame.packet_id ≡ 0)
      → src.fields.initial_sync_phase ≡ not_started
      → has_pending_event src.fields ≡ false
      → src.fields.delivered_event_ids ≡ []
      → dst.fields.received_initial_packet_id ≡ 0
      → let out = on_node_state c g now_us occupied bind source frame rt in
        (m : Node S E) × (find_node out frame.target_node_id ≡ some m)
        × (lookup frame.target_node_id out.saved ≡ some m)
        × (m.journal ≡ n.journal)
        × ((done : Node LinkSyncState LinkSyncEvent) × (state_of c m p ≡ some done)
            × (done.fields.initial_sync_phase ≡ complete)
            × ((to : Bytes) → next_undelivered m.journal done.fields to ≡ none))
        × ((done : Node LinkSyncState LinkSyncEvent) × (state_of c m frame.destination_share_id
              ≡ some done)
            × (done.fields.received_initial_packet_id ≡ frame.packet_id)
            × (done.fields.initial_sync_phase ≡ complete))
        × (out.sent ≡ rt.sent ++ answer (is_bound bind source m rt) source frame out.saved)
  unfolding find_node register_node save_node is_bound expectation_of
  on_node_state_imports now_us occupied bind source frame rt n p src dst lawful faithful unknown
        imported at at' ready ready' pos valid phase idle new fresh =
      let q = frame.destination_share_id in
      let node_id = frame.target_node_id in
      let admitted = import_validated_node_lem c g occupied rt source frame n p faithful imported in
      let (journal, kept, settled, there, done, nothing) =
        complete_source_lem c now_us p n src lawful at ready pos phase idle new in
      let k = complete_source c now_us p n in
      let (journal', kept', received, there', packet, done') =
        noted_lem c now_us frame k dst lawful (kept q admitted.others ∙ at') ready' pos in
      let m = noted c now_us frame k dst in
      let stored = register_node node_id m (save_node node_id m (save_node node_id k rt)) in
      let run =
        on_imported_run now_us occupied bind source frame rt n p dst unknown imported valid
          (kept q admitted.others ∙ at') fresh in
      let (nodes, saved, sent) = bind_and_ack_lem bind source frame m stored in
      (
        m,
        ap (λ (r : Runtime S E). find_node r node_id) run
            ∙ ap (lookup node_id) nodes
            ∙ lookup-append_none node_id m rt.nodes unknown,
        ap (λ (r : Runtime S E). lookup node_id r.saved) run
            ∙ ap (lookup node_id) saved
            ∙ lookup-insert_self node_id m (insert node_id k rt.saved),
        journal' ∙ journal,
        (
          settled,
          kept' p admitted.others ∙ there,
          done,
          (λ to.
              ap (λ js. next_undelivered js settled.fields to) (journal' ∙ journal) ∙ nothing to),
        ),
        (received, there', packet, done'),
        ap (λ (r : Runtime S E). r.sent) run
            ∙ sent
            ∙ ap (λ saves. rt.sent ++ answer (is_bound bind source m rt) source frame saves)
                (sym (ap (λ (r : Runtime S E). r.saved) run ∙ saved)),
      )

  -- A NodeState frame for a node that is there changes neither the nodes nor the storage. It is
  -- acknowledged, once, exactly where the frame is addressed to this replica, its relationship has noted
  -- this very packet before, and the endpoint is no longer expected or the callback binds the node.
  pub on_node_state_known :
      (now_us : ℕ) (occupied : ℕ → Bool) (bind : Bytes → Node S E → Bool) (source : Bytes)
      (frame : NodeStateFrame) (rt : Runtime S E) (n : Node S E)
      (state : Node LinkSyncState LinkSyncEvent)
      → find_node rt frame.target_node_id ≡ some n
      → state_of c n frame.destination_share_id ≡ some state
      → let out = on_node_state c g now_us occupied bind source frame rt in
        (out.nodes ≡ rt.nodes)
        × (out.saved ≡ rt.saved)
        × (out.sent
            ≡ rt.sent
              ++ answer
                  (addressed_to_this_replica
                      (c.shared n.fields)
                      rt.local_endpoint
                      source
                      frame.destination_share_id
                    && (state.fields.received_initial_packet_id == frame.packet_id)
                    && is_bound bind source n rt)
                  source
                  frame
                  rt.saved)
  unfolding on_node_state on_known
  on_node_state_known now_us occupied bind source frame rt n state found at =
      let (nodes, saved, sent) = bind_and_ack_lem bind source frame n rt in
      ground (arith, found, at, nodes, saved, sent, append-nil rt.sent)
