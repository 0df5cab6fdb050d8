-- ===== src/SyncRuntime/Initial.antt =====
-- `SyncInitialState`: the packet is frozen and saved before it is sent, and a retry sends its bytes again.
use apptraverse.Prelude.{
  ℕ, ◌<◌, ◌≡◌, refl, sym, ap, ◌∙◌, subst, inl, inr, Bool, true, Option, some, [], ◌∷◌, ◌++◌, arith,
  set, Bool-cases, Bytes, ◌==◌, nat_eq, bytes_eq, index_of, any, first, first-some,
}
use apptraverse.Prelude.Assoc.{lookup, lookup-insert_self}
use apptraverse.Journal.{Node, commit}
use apptraverse.LinkSync.{
  LinkSyncState, LinkSyncEvent, pending, not_started, begin_initial_sync, apply, can_apply,
  asserted, phase_beq, link_sync,
}
use apptraverse.LinkSync.Progress.{IsConsistent, permitted, apply-IsConsistent}
use apptraverse.SharedNode.{
  SharedNode, syncs_share, link_sync_state, find_link_sync_index_for_share,
  find_share_index_for_share,
}
use apptraverse.SharedNode.States.{States, entry_of, link_sync_state-first}
use apptraverse.SharedNode.Rebuild.{has_state}
use apptraverse.Frame.{encode_node_state_frame}
use apptraverse.Frame.Length.{encode_node_state-nonempty}
use apptraverse.SyncRuntime.{SharedClass, Runtime, share_endpoint_of, find_node, put_node, send_to}
use apptraverse.SyncRuntime.Handlers.{
  state_of, with_state, commit_state, initial_frame, sync_initial_state,
}
use apptraverse.SyncRuntime.Ack.{IsReady, committed_fields}

-- A state that takes the place of the one of its relationship is found there.
get-set-index :
    (p : Option (Node LinkSyncState LinkSyncEvent) → Bool) (xs : States)
    (x : Option (Node LinkSyncState LinkSyncEvent))
    → any p xs ≡ true
    → p x ≡ true
    → first p (set xs (index_of p xs) x) ≡ some x
unfolding any first index_of
get-set-index p [] x h k = absurd (ground arith)
get-set-index p (y ∷ ys) x h k = elim (Bool-cases (p y)) [
  | inl here ↦ ground (arith, here, k)
  | inr later ↦ ground (arith, later, get-set-index p ys x (ground arith) k)
]

-- The state of the relationship after another one of the same relationship has taken its place.
link_sync_state-set :
    (n : SharedNode) (q : ℕ) (old new : Node LinkSyncState LinkSyncEvent)
    → link_sync_state n q ≡ some old
    → (new.fields.share_id == q) ≡ true
    → link_sync_state
        (record n {
          link_sync_states = set n.link_sync_states (find_link_sync_index_for_share n q) (some new);
        })
        q
      ≡ some new
unfolding find_link_sync_index_for_share syncs_share
link_sync_state-set n q old new h same =
    link_sync_state-first _ q
    ∙ ap entry_of
        (get-set-index (syncs_share q) n.link_sync_states (some new) (has_state n q old h) same)

-- A state that is found is one of the relationship.
pub found_share_id :
    (n : SharedNode) (q : ℕ) (state : Node LinkSyncState LinkSyncEvent)
    → link_sync_state n q ≡ some state
    → (state.fields.share_id == q) ≡ true
unfolding syncs_share
found_share_id n q state h =
    let (entry, at, holds) =
      first-some (syncs_share q) n.link_sync_states (has_state n q state h) in
    let same : entry ≡ some state =
      entry_is entry state (ap entry_of (sym at) ∙ sym (link_sync_state-first n q) ∙ h) in
    subst (λ (x : Option (Node LinkSyncState LinkSyncEvent)). syncs_share q x ≡ true) same holds
  where
    entry_is :
        (entry : Option (Node LinkSyncState LinkSyncEvent))
        (state : Node LinkSyncState LinkSyncEvent)
        → entry_of (some entry) ≡ some state
        → entry ≡ some state
    entry_is entry state h = h

module _ {S E : Type 0} (c : SharedClass S E) where
  -- The part of the fields that is a SharedNode can be written and read back.
  abbrev pub IsLawful : Type 0
  IsLawful = (s : SharedNode) (f : S) → c.shared (c.with_shared s f) ≡ s

  -- The state that was put into a node is the one of its relationship, and the endpoints are as before.
  pub with_state_lem :
      (n : Node S E) (q : ℕ) (old new : Node LinkSyncState LinkSyncEvent)
      → IsLawful
      → state_of c n q ≡ some old
      → (new.fields.share_id == q) ≡ true
      → (state_of c (with_state c n q new) q ≡ some new)
        × (share_endpoint_of (c.shared (with_state c n q new).fields) q
            ≡ share_endpoint_of (c.shared n.fields) q)
  unfolding state_of with_state share_endpoint_of find_share_index_for_share
  with_state_lem n q old new lawful h same =
      let s = c.shared n.fields in
      let put : SharedNode = record s {
        link_sync_states = set s.link_sync_states (find_link_sync_index_for_share s q) (some new);
      } in
      (
        ap (λ (x : SharedNode). link_sync_state x q) (lawful put n.fields)
            ∙ link_sync_state-set s q old new h same,
        ap (λ (x : SharedNode). share_endpoint_of x q) (lawful put n.fields),
      )

  -- What `SyncInitialState` commits.
  abbrev pub begin_of : ℕ → ℕ → ℕ → Node S E → LinkSyncEvent
  begin_of event_id node_id share_id n =
      begin_initial_sync event_id
        (encode_node_state_frame (initial_frame c event_id node_id share_id n)) (c.freeze_node n).1

  begin-permitted :
      (event_id node_id share_id : ℕ) (n : Node S E) (s : LinkSyncState)
      → ¬ (event_id ≡ 0)
      → s.initial_sync_phase ≡ not_started
      → permitted (begin_of event_id node_id share_id n) s ≡ true
  unfolding permitted asserted phase_beq
  begin-permitted event_id node_id share_id n s valid fresh =
      ground
        (arith, fresh, encode_node_state-nonempty (initial_frame c event_id node_id share_id n))

  -- A retry sends the packet that waits.
  sync_pending :
      (now_us event_id node_id share_id : ℕ) (rt : Runtime S E) (n : Node S E)
      (state : Node LinkSyncState LinkSyncEvent) (destination : Bytes)
      → find_node rt node_id ≡ some n
      → share_endpoint_of (c.shared n.fields) share_id ≡ some destination
      → state_of c n share_id ≡ some state
      → state.fields.initial_sync_phase ≡ pending
      → sync_initial_state c now_us event_id node_id share_id rt
        ≡ send_to destination state.fields.pending_initial_packet rt
  unfolding sync_initial_state
  sync_pending now_us event_id node_id share_id rt n state destination found endpoint at phase =
      ground (arith, found, endpoint, at, phase)

  -- A relationship that has not started, on a registered node, with a valid id for the new event: the
  -- packet that is sent is the encoded frame of the frozen node; at the call of `Send` the storage is
  -- the one that is left in the end, and it holds the state with this packet; the progress stays consistent, and every further call, at
  -- any time and with any new id, sends the same bytes again and changes nothing else.
  pub sync_initial_state_lem :
      (now_us event_id node_id share_id : ℕ) (rt : Runtime S E) (n : Node S E)
      (state : Node LinkSyncState LinkSyncEvent) (destination : Bytes)
      → IsLawful
      → find_node rt node_id ≡ some n
      → share_endpoint_of (c.shared n.fields) share_id ≡ some destination
      → state_of c n share_id ≡ some state
      → IsReady state
      → IsConsistent state.fields
      → 0 < now_us
      → ¬ (event_id ≡ 0)
      → state.fields.initial_sync_phase ≡ not_started
      → let out = sync_initial_state c now_us event_id node_id share_id rt in
        let packet = encode_node_state_frame (initial_frame c event_id node_id share_id n) in
        let begun = (commit link_sync now_us state (begin_of event_id node_id share_id n)).0 in
        (out.sent ≡ rt.sent ++ (destination, packet, out.saved) ∷ [])
        × (lookup node_id out.saved ≡ some (with_state c n share_id begun))
        × (begun.fields.pending_initial_packet ≡ packet)
        × IsConsistent begun.fields
        × ((later id : ℕ)
            → sync_initial_state c later id node_id share_id out ≡ send_to destination packet out)
  unfolding sync_initial_state commit_state put_node send_to find_node can_apply state_of apply
  sync_initial_state_lem now_us event_id node_id share_id rt n state destination lawful found
        endpoint at ready k pos valid fresh =
      let e = begin_of event_id node_id share_id n in
      let begun = (commit link_sync now_us state e).0 in
      let fields : begun.fields ≡ apply e state.fields =
        committed_fields now_us state e ready pos refl in
      let packet : begun.fields.pending_initial_packet
          ≡ encode_node_state_frame (initial_frame c event_id node_id share_id n) =
        ap (λ (s : LinkSyncState). s.pending_initial_packet) fields in
      let phase : begun.fields.initial_sync_phase ≡ pending =
        ap (λ (s : LinkSyncState). s.initial_sync_phase) fields in
      let allowed = begin-permitted event_id node_id share_id n state.fields valid fresh in
      let own : (begun.fields.share_id == share_id) ≡ true =
        ap (λ (s : LinkSyncState). s.share_id == share_id) fields
        ∙ found_share_id (c.shared n.fields) share_id state at in
      let n' = with_state c n share_id begun in
      let rt' : Runtime S E =
        send_to destination begun.fields.pending_initial_packet (put_node node_id n' rt) in
      let run : sync_initial_state c now_us event_id node_id share_id rt ≡ rt' =
        ground (arith, found, endpoint, at, fresh) in
      let (at', endpoint') = with_state_lem n share_id state begun lawful at own in
      let found' : find_node rt' node_id ≡ some n' = lookup-insert_self node_id n' rt.nodes in
      let retry : (later id : ℕ)
          → sync_initial_state c later id node_id share_id rt'
            ≡ send_to destination
                (encode_node_state_frame (initial_frame c event_id node_id share_id n)) rt' =
        λ later id.
          sync_pending later id node_id share_id rt' n' begun destination found'
            (endpoint' ∙ endpoint) at' phase
          ∙ ap (λ (bytes : Bytes). send_to destination bytes rt') packet in
      (
        ap (λ (r : Runtime S E). r.sent) run
            ∙ ap (λ (bytes : Bytes). rt.sent ++ (destination, bytes, rt'.saved) ∷ []) packet
            ∙ ap
                (λ (r : Runtime S E).
                  rt.sent
                  ++ (
                    destination,
                    encode_node_state_frame (initial_frame c event_id node_id share_id n),
                    r.saved,
                  )
                    ∷ [])
                (sym run),
        ap (λ (r : Runtime S E). lookup node_id r.saved) run
            ∙ lookup-insert_self node_id n' rt.saved,
        packet,
        subst IsConsistent (sym fields) (apply-IsConsistent e state.fields allowed k),
        subst
            (λ (r : Runtime S E).
              (later id : ℕ)
              → sync_initial_state c later id node_id share_id r
                ≡ send_to destination
                    (encode_node_state_frame (initial_frame c event_id node_id share_id n)) r)
            (sym run) retry,
      )
