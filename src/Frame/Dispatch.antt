-- ===== src/Frame/Dispatch.antt =====
-- The dispatch on the frame type, `PeekSyncFrameType`, against the header checks of the decoders.
use apptraverse.Prelude.{
  ℕ, ◌≡◌, ap, ◌↔◌, inl, inr, Bool, true, Option, some, [], ◌∷◌, arith, is_some, Option-cases, Bytes,
  nat_eq,
}
use apptraverse.Frame.{
  SyncFrameType, node_state, ack, event, type_code, read_header, peek_sync_frame_type, decode,
  NodeStateFrame, AckFrame, EventFrame, read_node_state, read_ack, read_event,
  decode_node_state_frame, decode_ack_frame, decode_event_frame,
}

-- A byte string is dispatched to a type exactly when the decoder of that type passes its header, so
-- one decoder at most does.
pub peek_iff :
    (type : SyncFrameType) (bytes : Bytes)
    → (peek_sync_frame_type bytes ≡ some type) ↔ (is_some (read_header type bytes) ≡ true)
unfolding peek_sync_frame_type read_header type_code
peek_iff node_state [] = ground arith
peek_iff node_state (a ∷ []) = ground arith
peek_iff node_state (a ∷ b ∷ r) = ground arith
peek_iff ack [] = ground arith
peek_iff ack (a ∷ []) = ground arith
peek_iff ack (a ∷ b ∷ r) = ground arith
peek_iff event [] = ground arith
peek_iff event (a ∷ []) = ground arith
peek_iff event (a ∷ b ∷ r) = ground arith

-- Bytes that a decoder accepts are dispatched to its type.
decoded-peek :
    {F : Type 0} (type : SyncFrameType) (read : Bytes → Option (F × Bytes)) (bytes : Bytes) (f : F)
    → decode type read bytes ≡ some f
    → peek_sync_frame_type bytes ≡ some type
decoded-peek type read bytes f h = elim (Option-cases (read_header type bytes)) [
  | inl missing ↦ absurd (ground (arith, missing, h))
  | inr (body, at) ↦ (peek_iff type bytes).1 (ap is_some at)
]

pub peek-node_state :
    (bytes : Bytes) (f : NodeStateFrame)
    → decode_node_state_frame bytes ≡ some f
    → peek_sync_frame_type bytes ≡ some node_state
unfolding decode_node_state_frame
peek-node_state bytes f h = decoded-peek node_state read_node_state bytes f h

pub peek-ack :
    (bytes : Bytes) (f : AckFrame)
    → decode_ack_frame bytes ≡ some f
    → peek_sync_frame_type bytes ≡ some ack
unfolding decode_ack_frame
peek-ack bytes f h = decoded-peek ack read_ack bytes f h

pub peek-event :
    (derives : ℕ → Bool) (bytes : Bytes) (f : EventFrame)
    → decode_event_frame derives bytes ≡ some f
    → peek_sync_frame_type bytes ≡ some event
unfolding decode_event_frame
peek-event derives bytes f h = decoded-peek event (read_event derives) bytes f h
