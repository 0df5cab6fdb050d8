-- ===== src/SyncRuntime/Events.antt =====
-- `OnEvent`: an event frame is ignored, or it is acknowledged and the node holds the event.
use apptraverse.Prelude.{
  ℕ, ◌≡◌, ◌⊎◌, refl, sym, ◌∙◌, subst, inl, inr, Bool, true, ◌&&◌, none, some, [], ◌∷◌, ◌++◌, arith,
  if_true, if_false, Bool-cases, Option-cases, Bytes, nat_eq, bytes_eq,
}
use apptraverse.Prelude.Assoc.{lookup-insert_self}
use apptraverse.Identity.{id_eq}
use apptraverse.Journal.{EventRecord, Node, find_shared_event, try_commit_shared}
use apptraverse.Journal.WellFormed.{retained}
use apptraverse.Frame.{EventFrame}
use apptraverse.SyncRuntime.{
  SharedClass, Runtime, find_node, put_node, send_to, event_addressed_to_this_replica,
  is_standalone_event_class_allowed,
}
use apptraverse.SyncRuntime.Handlers.{ack_of, same_event, preflight, admit_event, on_event}
use apptraverse.SyncRuntime.Committed.{shared_record, shared_commit_stored}

module _ {S E : Type 0} (c : SharedClass S E) where
  -- What an insertion promises on a copy it keeps on the node itself.
  abbrev pub IsFaithfulCopy : Node S E → Type 0
  IsFaithfulCopy n =
      (now_us : ℕ) (frame : EventFrame) (e : E)
      → preflight c now_us n frame ≡ true
      → c.import_event frame.payload frame.event_class_id ≡ some e
      → (try_commit_shared c.target c.matches now_us n (some e) frame.identity frame.timestamp_us).1
        ≡ true

  -- The event of the record is the one of the frame: the node had the record before, with an event of the
  -- class and the payload of the frame, or it had no record of this identity and the event was imported
  -- from the frame.
  abbrev pub HasContent : EventFrame → Runtime S E → EventRecord E → E → Type 0
  HasContent frame rt entry event =
      ((before : Node S E) × (find_node rt frame.target_node_id ≡ some before)
        × (find_shared_event before frame.identity ≡ some entry)
        × (c.event_class event ≡ frame.event_class_id)
        × (c.same_payload event frame.payload ≡ true))
      ⊎ ((before : Node S E) × (find_node rt frame.target_node_id ≡ some before)
          × (find_shared_event before frame.identity ≡ none)
          × (c.import_event frame.payload frame.event_class_id ≡ some event))

  -- The node after the frame was handled, and the record it has of the event.
  pub record Stored (source : Bytes) (frame : EventFrame) (rt out : Runtime S E) : Type 0 where
    pub node : Node S E
    pub entry : EventRecord E
    pub live : find_node out frame.target_node_id ≡ some node
    pub stored : find_shared_event node frame.identity ≡ some entry
    pub on_time : entry.timestamp_us ≡ frame.timestamp_us
    pub event : E
    pub of_event : entry.event ≡ some event
    pub content : HasContent frame rt entry event
    pub acknowledged : out.sent ≡ rt.sent ++ (source, ack_of c frame, out.saved) ∷ []

  -- What the check before a duplicate is acknowledged tells.
  same_event_lem :
      (existing : EventRecord E) (frame : EventFrame)
      → same_event c existing frame ≡ true
      → (e : E) × (existing.event ≡ some e)
        × (existing.timestamp_us ≡ frame.timestamp_us)
        × (c.event_class e ≡ frame.event_class_id)
        × (c.same_payload e frame.payload ≡ true)
  unfolding same_event
  same_event_lem existing frame h = elim (Option-cases existing.event) [
    | inl missing ↦ absurd (ground (arith, missing, h))
    | inr (e, there) ↦ (
      e,
      there,
      ground (arith, h, there),
      ground (arith, h, there, nat_eq.beq_iff (c.event_class e) frame.event_class_id),
      ground (arith, h, there),
    )
  ]

  known-Stored :
      (source : Bytes) (frame : EventFrame) (rt : Runtime S E) (n : Node S E)
      (existing : EventRecord E)
      → find_node rt frame.target_node_id ≡ some n
      → find_shared_event n frame.identity ≡ some existing
      → same_event c existing frame ≡ true
      → Stored source frame rt (send_to source (ack_of c frame) rt)
  unfolding send_to find_node
  known-Stored source frame rt n existing found known same =
      let (e, there, on_time, class, payload) = same_event_lem existing frame same in
      record {
        node = n;
        entry = existing;
        event = e;
        live = found;
        stored = known;
        on_time = on_time;
        of_event = there;
        content = inl (n, found, known, class, payload);
        acknowledged = refl;
      }

  new-Stored :
      (now_us : ℕ) (source : Bytes) (frame : EventFrame) (rt : Runtime S E) (n : Node S E) (e : E)
      → find_node rt frame.target_node_id ≡ some n
      → find_shared_event n frame.identity ≡ none
      → c.import_event frame.payload frame.event_class_id ≡ some e
      → (try_commit_shared c.target c.matches now_us n (some e) frame.identity frame.timestamp_us).1
        ≡ true
      → Stored source frame rt (
          send_to source (ack_of c frame) (
            put_node frame.target_node_id
              (try_commit_shared c.target c.matches now_us n
                (some e)
                frame.identity
                frame.timestamp_us).0
              rt))
  unfolding send_to put_node find_node
  new-Stored now_us source frame rt n e found absent imported done =
      let stored =
        shared_commit_stored c.target c.matches now_us n e frame.identity frame.timestamp_us absent
          done in
      let n' =
        (try_commit_shared c.target c.matches now_us n (some e) frame.identity
          frame.timestamp_us).0 in
      record {
        node = n';
        entry = retained now_us (shared_record now_us e frame.identity frame.timestamp_us);
        live = lookup-insert_self frame.target_node_id n' rt.nodes;
        stored = stored;
        event = e;
        of_event = ground arith;
        content = inr (n, found, absent, imported);
        on_time = ground arith;
        acknowledged = refl;
      }

  admit_event-Stored :
      (now_us : ℕ) (source : Bytes) (frame : EventFrame) (rt : Runtime S E) (n : Node S E)
      → IsFaithfulCopy n
      → find_node rt frame.target_node_id ≡ some n
      → find_shared_event n frame.identity ≡ none
      → let out = admit_event c now_us source frame n rt in (out ≡ rt) ⊎ Stored source frame rt out
  unfolding admit_event
  admit_event-Stored now_us source frame rt n copy found absent =
      elim (Bool-cases (preflight c now_us n frame)) [
        | inr refused ↦ inl (if_false _ _ refused)
        | inl passed ↦ elim (Option-cases (c.import_event frame.payload frame.event_class_id)) [
          | inl missing ↦ inl (if_true _ _ passed ∙ ground (arith, missing))
          | inr (e, imported) ↦
              let done = copy now_us frame e passed imported in
              let run : admit_event c now_us source frame n rt
                  ≡ send_to source (ack_of c frame) (
                      put_node frame.target_node_id
                        (try_commit_shared c.target c.matches now_us n (some e) frame.identity
                          frame.timestamp_us).0
                        rt) =
                if_true _ _ passed ∙ ground (arith, imported) in
              inr (
                subst (λ (out : Runtime S E). Stored source frame rt out) (sym run)
                  (new-Stored now_us source frame rt n e found absent imported done))
        ]
      ]

  -- Whether the frame passes the checks that come before the journal is looked at.
  unfoldable pub passes : Bytes → EventFrame → Node S E → Runtime S E → Bool
  passes source frame n rt =
      event_addressed_to_this_replica (c.shared n.fields) rt.local_endpoint source
        frame.destination_share_id
      && is_standalone_event_class_allowed rt frame.event_class_id
      && c.admissible frame.payload frame.event_class_id

  -- An event frame for a registered node, of any class, where an insertion that succeeds on the scratch
  -- copy succeeds on the node: either nothing changes and nothing is sent, or exactly one
  -- acknowledgement goes to the source, after the storage has its last content, and then the live node
  -- has a record with the identity and the timestamp of the frame, whose event is the frame's: the node
  -- had this very record before, with an event of the frame's class and payload, or it had none of the
  -- identity and the event was imported from the frame.
  pub on_event_lem :
      (now_us : ℕ) (source : Bytes) (frame : EventFrame) (rt : Runtime S E) (n : Node S E)
      → find_node rt frame.target_node_id ≡ some n
      → IsFaithfulCopy n
      → let out = on_event c now_us source frame rt in (out ≡ rt) ⊎ Stored source frame rt out
  unfolding on_event passes
  on_event_lem now_us source frame rt n found copy = elim (Bool-cases (passes source frame n rt)) [
    | inr refused ↦ inl (ground (arith, found, refused))
    | inl passed ↦ elim (Option-cases (find_shared_event n frame.identity)) [
      | inl absent ↦
          let run : on_event c now_us source frame rt ≡ admit_event c now_us source frame n rt =
            ground (arith, found, passed, absent) in
          subst (λ (out : Runtime S E). (out ≡ rt) ⊎ Stored source frame rt out) (sym run)
            (admit_event-Stored now_us source frame rt n copy found absent)
      | inr (existing, known) ↦ elim (Bool-cases (same_event c existing frame)) [
        | inr other ↦ inl (ground (arith, found, passed, known, other))
        | inl same ↦
            let run : on_event c now_us source frame rt ≡ send_to source (ack_of c frame) rt =
              ground (arith, found, passed, known, same) in
            inr (
              subst (λ (out : Runtime S E). Stored source frame rt out) (sym run)
                (known-Stored source frame rt n existing found known same))
      ]
    ]
  ]

  -- An event frame whose identity the node has already, for whatever source and payload, leaves every
  -- node, the storage and all else but the packets sent as they are.
  pub on_event_known :
      (now_us : ℕ) (source : Bytes) (frame : EventFrame) (rt : Runtime S E) (n : Node S E)
      (existing : EventRecord E)
      → find_node rt frame.target_node_id ≡ some n
      → find_shared_event n frame.identity ≡ some existing
      → let out = on_event c now_us source frame rt in
        record out { sent = [] } ≡ record rt { sent = [] }
  unfolding on_event send_to
  on_event_known now_us source frame rt n existing found known = ground (arith, found, known)
