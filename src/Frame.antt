-- ===== src/Frame.antt =====
-- The wire format of synchronization protocol v1: src/sync_frame.cpp, include/apptraverse/sync_frame.h
-- A reader takes the bytes
-- from its position on, which stand for the vector and `pos`, and returns what it read and the rest.
pub mod Codec
pub mod Parts
pub mod RoundTrip
pub mod EventRoundTrip
pub mod Dispatch
pub mod Length
mod Runs
use apptraverse.Prelude.{
  ℕ, ◌+◌, ◌*◌, ◌/◌, ◌%◌, ◌^◌, Bool, true, false, ◌||◌, Option, none, some, List, [], ◌∷◌, ◌++◌, ltb,
  ◌==◌, if◌then◌else◌, length, take, drop, Bytes, nat_eq,
}
use apptraverse.Identity.{SharedEventId}

pub data SyncFrameType : Type 0 where
  node_state ack event : SyncFrameType

abbrev pub sync_protocol_version : ℕ
sync_protocol_version = 1

unfoldable pub type_code : SyncFrameType → ℕ
type_code node_state = 1
type_code ack = 2
type_code event = 3

pub record NodeStateFrame : Type 0 where
  pub packet_id : ℕ
  pub target_node_id : ℕ
  pub destination_share_id : ℕ
  pub payload : Bytes

pub record AckFrame : Type 0 where
  pub packet_id : ℕ
  pub target_node_id : ℕ
  pub destination_share_id : ℕ

pub record EventFrame : Type 0 where
  pub packet_id : ℕ
  pub target_node_id : ℕ
  pub destination_share_id : ℕ
  pub identity : SharedEventId
  pub timestamp_us : ℕ
  pub event_class_id : ℕ
  pub payload : Bytes

-- The four bytes of a `uint32_t`, the highest first.
unfoldable pub append_u32 : Bytes → ℕ → Bytes
append_u32 out value =
    out
    ++ (value / 2 ^ 24 % 256) ∷ (value / 2 ^ 16 % 256) ∷ (value / 2 ^ 8 % 256) ∷ (value % 256) ∷ []

unfoldable pub append_obj_id : Bytes → ℕ → Bytes
append_obj_id out id = append_u32 out id

unfoldable pub append_u64 : Bytes → ℕ → Bytes
append_u64 out value = append_u32 (append_u32 out (value / 2 ^ 32 % 2 ^ 32)) (value % 2 ^ 32)

unfoldable pub append_header : Bytes → SyncFrameType → Bytes
append_header out type = out ++ type_code type ∷ sync_protocol_version ∷ []

abbrev pub Reader : Type 0 → Type 0
Reader A = Bytes → Option (A × Bytes)

infixl 5 ◌>>=◌
abbrev pub ◌>>=◌ : {A B : Type 0} → Reader A → (A → Reader B) → Reader B
◌>>=◌ m f bytes = elim (m bytes) [ none ↦ none | some (a, rest) ↦ f a rest ]

unfoldable pub read_u32 : Reader ℕ
read_u32 (a ∷ b ∷ c ∷ d ∷ rest) = some (a * 2 ^ 24 + b * 2 ^ 16 + c * 2 ^ 8 + d, rest)
read_u32 _ = none

-- The id 0 names no object and is refused.
unfoldable pub read_obj_id : Reader ℕ
read_obj_id = do id ← read_u32; λ rest. if id == 0 then none else some (id, rest)

unfoldable pub read_u64 : Reader ℕ
read_u64 = do hi ← read_u32; lo ← read_u32; λ rest. some (hi * 2 ^ 32 + lo, rest)

abbrev pub max_origin_uid_bytes : ℕ
max_origin_uid_bytes = 256

unfoldable pub read_bounded_bytes : ℕ → Reader Bytes
read_bounded_bytes max_size = do
  size ← read_u32
  λ rest.
      if size == 0 || ltb max_size size || ltb (length rest) size
      then none
      else some (take size rest, drop size rest)

unfoldable pub read_header : SyncFrameType → Bytes → Option Bytes
read_header expected (type ∷ version ∷ rest) =
    if type == type_code expected
    then (if version == sync_protocol_version then some rest else none)
    else none
read_header expected _ = none

pub peek_sync_frame_type : Bytes → Option SyncFrameType
peek_sync_frame_type (type ∷ version ∷ rest) =
    if version == sync_protocol_version
    then (if type == type_code node_state
        then some node_state
        else if type == type_code ack
        then some ack
        else if type == type_code event
        then some event
        else none)
    else none
peek_sync_frame_type _ = none

pub encode_node_state_frame : NodeStateFrame → Bytes
encode_node_state_frame frame =
    let out = append_header [] node_state in
    let out = append_obj_id out frame.packet_id in
    let out = append_obj_id out frame.target_node_id in
    let out = append_obj_id out frame.destination_share_id in
    append_u32 out (length frame.payload % 2 ^ 32) ++ frame.payload

pub encode_ack_frame : AckFrame → Bytes
encode_ack_frame frame =
    let out = append_header [] ack in
    let out = append_obj_id out frame.packet_id in
    let out = append_obj_id out frame.target_node_id in append_obj_id out frame.destination_share_id

pub encode_event_frame : EventFrame → Bytes
encode_event_frame frame =
    let out = append_header [] event in
    let out = append_obj_id out frame.packet_id in
    let out = append_obj_id out frame.target_node_id in
    let out = append_obj_id out frame.destination_share_id in
    let out = append_u32 out (length frame.identity.origin_uid % 2 ^ 32) in
    let out = out ++ frame.identity.origin_uid in
    let out = append_u64 out frame.identity.origin_sequence in
    let out = append_u64 out frame.timestamp_us in
    let out = append_u32 out frame.event_class_id in
    append_u32 out (length frame.payload % 2 ^ 32) ++ frame.payload

-- The declared payload is the rest of the frame.
unfoldable pub read_payload : Reader Bytes
read_payload = do
  payload_size ← read_u32
  λ rest. if payload_size == length rest then some (take payload_size rest, []) else none

unfoldable pub read_node_state : Reader NodeStateFrame
read_node_state = do
  packet_id ← read_obj_id
  target_node_id ← read_obj_id
  destination_share_id ← read_obj_id
  payload ← read_payload
  λ rest. some (
    record {
      packet_id = packet_id;
      target_node_id = target_node_id;
      destination_share_id = destination_share_id;
      payload = payload;
    },
    rest,
  )

-- What a decoder does after the header: run the reader, and keep the frame.
abbrev pub decode : {A : Type 0} → SyncFrameType → Reader A → Bytes → Option A
decode expected read bytes = elim (read_header expected bytes) [
  | none ↦ none
  | some body ↦ elim (read body) [ none ↦ none | some (frame, rest) ↦ some frame ]
]

pub decode_node_state_frame : Bytes → Option NodeStateFrame
decode_node_state_frame = decode node_state read_node_state

unfoldable pub read_ack : Reader AckFrame
read_ack = do
  packet_id ← read_obj_id
  target_node_id ← read_obj_id
  destination_share_id ← read_obj_id
  λ rest.
      if length rest == 0
      then some (
        record {
          packet_id = packet_id;
          target_node_id = target_node_id;
          destination_share_id = destination_share_id;
        },
        rest,
      )
      else none

pub decode_ack_frame : Bytes → Option AckFrame
decode_ack_frame = decode ack read_ack

-- A number that must not be 0, of a reader of numbers.
unfoldable pub nonzero : Reader ℕ → Reader ℕ
nonzero read = do n ← read; λ rest. if n == 0 then none else some (n, rest)

-- The class registry of the object system is a parameter: whether a class derives `Event`.
module _ (derives_event : ℕ → Bool) where
  unfoldable pub read_event_class : Reader ℕ
  read_event_class = do
    id ← read_u32
    λ rest. if id == 0 then none else if derives_event id then some (id, rest) else none

  unfoldable pub read_event_tail : ℕ → ℕ → ℕ → Reader EventFrame
  read_event_tail packet_id target_node_id destination_share_id = do
    origin_uid ← read_bounded_bytes max_origin_uid_bytes
    origin_sequence ← nonzero read_u64
    timestamp_us ← nonzero read_u64
    event_class_id ← read_event_class
    payload ← read_payload
    λ rest. some (
      record {
        packet_id = packet_id;
        target_node_id = target_node_id;
        destination_share_id = destination_share_id;
        identity = record { origin_uid = origin_uid; origin_sequence = origin_sequence };
        timestamp_us = timestamp_us;
        event_class_id = event_class_id;
        payload = payload;
      },
      rest,
    )

  unfoldable pub read_event : Reader EventFrame
  read_event = do
    packet_id ← read_obj_id
    target_node_id ← read_obj_id
    destination_share_id ← read_obj_id
    read_event_tail packet_id target_node_id destination_share_id

  pub decode_event_frame : Bytes → Option EventFrame
  decode_event_frame = decode event read_event
