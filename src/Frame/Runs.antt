-- ===== src/Frame/Runs.antt =====
-- Runs of the frame codec, and its theorems at concrete frames.
use apptraverse.Prelude.{ℕ, ◌≡◌, refl, ◌↔◌, Bool, some, [], ◌∷◌, arith, nat_beq, Bytes}
use apptraverse.Frame.{
  NodeStateFrame, AckFrame, EventFrame, append_header, append_obj_id, append_u32, append_u64,
  encode_node_state_frame, encode_ack_frame, encode_event_frame, type_code, decode_node_state_frame,
  decode_event_frame,
}
use apptraverse.Frame.RoundTrip.{IsNodeState, decode-IsNodeState_iff}
use apptraverse.Frame.EventRoundTrip.{IsEvent, decode-IsEvent_iff}

abbrev state_frame : NodeStateFrame
state_frame = record {
  packet_id = 7;
  target_node_id = 65536;
  destination_share_id = 9;
  payload = 1 ∷ 255 ∷ [];
}

abbrev state_bytes : Bytes
state_bytes = 1 ∷ 1 ∷ 0 ∷ 0 ∷ 0 ∷ 7 ∷ 0 ∷ 1 ∷ 0 ∷ 0 ∷ 0 ∷ 0 ∷ 0 ∷ 9 ∷ 0 ∷ 0 ∷ 0 ∷ 2 ∷ 1 ∷ 255 ∷ []

encodes_state : encode_node_state_frame state_frame ≡ state_bytes
unfolding encode_node_state_frame append_header append_obj_id append_u32 type_code
encodes_state = refl

decode-IsNodeState_example :
    (decode_node_state_frame state_bytes ≡ some state_frame)
    ↔ (IsNodeState state_frame × (state_bytes ≡ encode_node_state_frame state_frame))
decode-IsNodeState_example = decode-IsNodeState_iff state_bytes state_frame (omega arith)

abbrev ack_frame : AckFrame
ack_frame = record { packet_id = 7; target_node_id = 300; destination_share_id = 9 }

abbrev ack_bytes : Bytes
ack_bytes = 2 ∷ 1 ∷ 0 ∷ 0 ∷ 0 ∷ 7 ∷ 0 ∷ 0 ∷ 1 ∷ 44 ∷ 0 ∷ 0 ∷ 0 ∷ 9 ∷ []

encodes_ack : encode_ack_frame ack_frame ≡ ack_bytes
unfolding encode_ack_frame append_header append_obj_id append_u32 type_code
encodes_ack = refl

-- The registry of the runs knows one event class.
abbrev only_class_5 : ℕ → Bool
only_class_5 = nat_beq 5

abbrev event_frame : EventFrame
event_frame = record {
  packet_id = 7;
  target_node_id = 300;
  destination_share_id = 9;
  identity = record { origin_uid = 97 ∷ []; origin_sequence = 3 };
  timestamp_us = 4294967298;
  event_class_id = 5;
  payload = 8 ∷ [];
}

abbrev event_bytes : Bytes
event_bytes =
    3 ∷ 1 ∷ 0 ∷ 0 ∷ 0 ∷ 7 ∷ 0 ∷ 0 ∷ 1 ∷ 44 ∷ 0 ∷ 0 ∷ 0 ∷ 9 ∷ 0 ∷ 0 ∷ 0 ∷ 1 ∷ 97 ∷ 0 ∷ 0 ∷ 0 ∷ 0 ∷ 0
    ∷ 0 ∷ 0 ∷ 3 ∷ 0 ∷ 0 ∷ 0 ∷ 1 ∷ 0 ∷ 0 ∷ 0 ∷ 2 ∷ 0 ∷ 0 ∷ 0 ∷ 5 ∷ 0 ∷ 0 ∷ 0 ∷ 1 ∷ 8 ∷ []

encodes_event : encode_event_frame event_frame ≡ event_bytes
unfolding encode_event_frame append_header append_obj_id append_u32 append_u64 type_code
encodes_event = refl

decode-IsEvent_example :
    (decode_event_frame only_class_5 event_bytes ≡ some event_frame)
    ↔ (IsEvent only_class_5 event_frame × (event_bytes ≡ encode_event_frame event_frame))
decode-IsEvent_example = decode-IsEvent_iff only_class_5 event_bytes event_frame (omega arith)
