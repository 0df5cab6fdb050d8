-- ===== src/Frame/Length.antt =====
-- No encoded frame is empty: each starts with its header.
use apptraverse.Prelude.{◌<◌, arith, length}
use apptraverse.Frame.{
  NodeStateFrame, EventFrame, append_u32, append_obj_id, append_u64, append_header,
  encode_node_state_frame, encode_event_frame,
}

pub encode_node_state-nonempty :
    (frame : NodeStateFrame) → 0 < length (encode_node_state_frame frame)
unfolding encode_node_state_frame append_u32 append_obj_id append_header
encode_node_state-nonempty frame = omega arith

pub encode_event-nonempty : (frame : EventFrame) → 0 < length (encode_event_frame frame)
unfolding encode_event_frame append_u32 append_u64 append_obj_id append_header
encode_event-nonempty frame = omega arith
