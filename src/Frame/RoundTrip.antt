-- ===== src/Frame/RoundTrip.antt =====
-- The encoders and decoders of src/sync_frame.cpp are inverse to each other: a decoder accepts the
-- encodings of the frames in range, and no other bytes.
use apptraverse.Prelude.{
  ℕ, ◌+◌, ◌*◌, ◌/◌, ◌%◌, ◌^◌, ◌≤◌, ◌<◌, ◌≡◌, refl, sym, ap, ◌∙◌, subst, ◌≢◌, ◌↔◌, Bool, true, false,
  Option, none, some, List, [], ◌∷◌, ◌++◌, append_assoc, append-nil, arith, ltb, ◌==◌,
  if◌then◌else◌, length, take, drop, All, Bytes, nat_eq,
}
use apptraverse.Frame.{
  SyncFrameType, node_state, ack, NodeStateFrame, AckFrame, append_header, Reader, ◌>>=◌,
  read_obj_id, read_header, encode_node_state_frame, encode_ack_frame, read_payload,
  read_node_state, decode, decode_node_state_frame, read_ack, decode_ack_frame,
}
use apptraverse.Frame.Codec.{
  IsByte, IsCodec, >>=-eq-some, >>=-step, u32_bytes, u64_bytes, append_u32_lem, append_u64_lem,
  append_obj_id_lem, IsU32-codec, IsU32, nonzero_codec, IsObjId, IsObjId-codec, IsU64, IsU64-codec,
  bounded_bytes, IsBounded, IsBounded-codec,
}
use apptraverse.Frame.Parts.{
  IsPayload, payload_bytes, read_payload-bytes, bytes-read_payload, read_header-bytes,
  bytes-read_header,
}

-- Decoding is reading the body behind the header.
pub decode-step :
    {A : Type 0} (type : SyncFrameType) (read : Reader A) (body : Bytes) {frame : A} {rest : Bytes}
    → read body ≡ some (frame, rest)
    → decode type read (append_header [] type ++ body) ≡ some frame
decode-step type read body e = ground (arith, read_header-bytes type body, e)

pub decode-eq-some :
    {A : Type 0} (type : SyncFrameType) (read : Reader A) (bytes : Bytes) {frame : A}
    → All IsByte bytes
    → decode type read bytes ≡ some frame
    → (body : Bytes) × (rest : Bytes) × (bytes ≡ append_header [] type ++ body)
      × All IsByte body
      × (read body ≡ some (frame, rest))
decode-eq-some {A} type read bytes {frame} h e = go (read_header type bytes) refl e
  where
    found :
        (body : Bytes)
        → read_header type bytes ≡ some body
        → (o : Option (A × Bytes)) → read body ≡ o
        → ◌≡◌ {A = Option A} (elim o [ none ↦ none | some (f, r) ↦ some f ]) (some frame)
        → (body : Bytes) × (rest : Bytes) × (bytes ≡ append_header [] type ++ body)
          × All IsByte body
          × (read body ≡ some (frame, rest))
    found body e1 none e2 k = absurd (cc)
    found body e1 (some (f, r)) e2 k =
        let (split, bytes') = bytes-read_header type bytes h e1 in (body, r, split, bytes', cc)

    go :
        (o : Option Bytes)
        → read_header type bytes ≡ o
        → ◌≡◌ {A = Option A}
            (elim o [
              | none ↦ none
              | some body ↦ elim (read body) [ none ↦ none | some (f, r) ↦ some f ]
            ])
            (some frame)
        → (body : Bytes) × (rest : Bytes) × (bytes ≡ append_header [] type ++ body)
          × All IsByte body
          × (read body ≡ some (frame, rest))
    go none e1 k = absurd (cc)
    go (some body) e1 k = found body e1 (read body) refl k

abbrev pub ids_bytes : ℕ → ℕ → ℕ → Bytes → Bytes
ids_bytes a b c rest = u32_bytes a ++ (u32_bytes b ++ (u32_bytes c ++ rest))

pub ruleset layout = (append_obj_id_lem, append_u32_lem, append_u64_lem, append_assoc)

-- The three object ids with which every frame goes on behind its header.
abbrev pub read_ids : {A : Type 0} → (ℕ → ℕ → ℕ → Reader A) → Reader A
read_ids f = do
  packet_id ← read_obj_id
  target_node_id ← read_obj_id
  destination_share_id ← read_obj_id
  f packet_id target_node_id destination_share_id

pub read_ids-step :
    {A : Type 0} (f : ℕ → ℕ → ℕ → Reader A) (a b c : ℕ) (rest : Bytes)
    → IsObjId a
    → IsObjId b
    → IsObjId c
    → read_ids f (ids_bytes a b c rest) ≡ f a b c rest
read_ids-step f a b c rest ha hb hc =
    >>=-step read_obj_id _ _ (IsObjId-codec.read-write a _ ha)
    ∙ >>=-step read_obj_id _ _ (IsObjId-codec.read-write b _ hb)
    ∙ >>=-step read_obj_id _ _ (IsObjId-codec.read-write c _ hc)

pub value_of_some :
    {A : Type 0} {a b : A} {r s : Bytes}
    → ◌≡◌ {A = Option (A × Bytes)} (some (a, r)) (some (b, s))
    → a ≡ b
value_of_some e = cc

pub record Ids {A : Type 0} (f : ℕ → ℕ → ℕ → Reader A) (body : Bytes) (r : A × Bytes) : Type 0 where
  pub a : ℕ
  pub b : ℕ
  pub c : ℕ
  pub rest : Bytes
  pub a_ok : IsObjId a
  pub b_ok : IsObjId b
  pub c_ok : IsObjId c
  pub split : body ≡ ids_bytes a b c rest
  pub rest_bytes : All IsByte rest
  pub continued : f a b c rest ≡ some r

pub read_ids-eq-some :
    {A : Type 0} (f : ℕ → ℕ → ℕ → Reader A) (body : Bytes) {r : A × Bytes}
    → All IsByte body
    → read_ids f body ≡ some r
    → Ids f body r
read_ids-eq-some f body b0 k =
    let (id1, r1, e1, k1) = >>=-eq-some read_obj_id _ body k in
    let (id2, r2, e2, k2) = >>=-eq-some read_obj_id _ r1 k1 in
    let (id3, r3, e3, k3) = >>=-eq-some read_obj_id _ r2 k2 in
    let (ok1, s1, b1) = IsObjId-codec.write-read body b0 e1 in
    let (ok2, s2, b2) = IsObjId-codec.write-read r1 b1 e2 in
    let (ok3, s3, b3) = IsObjId-codec.write-read r2 b2 e3 in
    record {
      a = id1;
      b = id2;
      c = id3;
      rest = r3;
      a_ok = ok1;
      b_ok = ok2;
      c_ok = ok3;
      split = s1 ∙ ap (◌++◌ (u32_bytes id1)) (s2 ∙ ap (◌++◌ (u32_bytes id2)) s3);
      rest_bytes = b3;
      continued = k3;
    }

pub record IsNodeState (frame : NodeStateFrame) : Type 0 where
  pub packet : IsObjId frame.packet_id
  pub target : IsObjId frame.target_node_id
  pub share : IsObjId frame.destination_share_id
  pub payload : IsPayload frame.payload

encode_node_state_frame_lem :
    (frame : NodeStateFrame)
    → IsU32 (length frame.payload)
    → encode_node_state_frame frame
      ≡ append_header [] node_state
        ++ ids_bytes frame.packet_id frame.target_node_id frame.destination_share_id
            (payload_bytes frame.payload)
unfolding encode_node_state_frame
encode_node_state_frame_lem frame h =
    let e : length frame.payload % 2 ^ 32 ≡ length frame.payload = omega arith in rw e (simp layout)

node_state_decodes :
    (frame : NodeStateFrame)
    → IsNodeState frame
    → decode_node_state_frame (encode_node_state_frame frame) ≡ some frame
unfolding decode_node_state_frame read_node_state
node_state_decodes frame h =
    ap decode_node_state_frame (encode_node_state_frame_lem frame h.payload.0)
    ∙ decode-step node_state read_node_state _ (
        read_ids-step _ frame.packet_id _ _ _ h.packet h.target h.share
        ∙ >>=-step read_payload _ _ (read_payload-bytes frame.payload h.payload))

IsNodeState-encoded :
    (bytes : Bytes) (frame : NodeStateFrame)
    → All IsByte bytes
    → decode_node_state_frame bytes ≡ some frame
    → IsNodeState frame × (bytes ≡ encode_node_state_frame frame)
unfolding decode_node_state_frame read_node_state
IsNodeState-encoded bytes frame all e =
    let (body, r, split, b0, k) = decode-eq-some node_state read_node_state bytes all e in
    let ids = read_ids-eq-some _ body b0 k in
    let (payload, r4, e4, k4) = >>=-eq-some read_payload _ ids.rest ids.continued in
    let (ok4, s4, closed) = bytes-read_payload ids.rest ids.rest_bytes e4 in
    let built : NodeStateFrame = record {
      packet_id = ids.a;
      target_node_id = ids.b;
      destination_share_id = ids.c;
      payload = payload;
    } in
    let same : built ≡ frame = value_of_some k4 in
    let valid : IsNodeState built = record {
      packet = ids.a_ok;
      target = ids.b_ok;
      share = ids.c_ok;
      payload = ok4;
    } in
    subst (λ f. IsNodeState f × (bytes ≡ encode_node_state_frame f)) same
      (
        valid,
        split
            ∙ ap (◌++◌ (append_header [] node_state))
                (ids.split ∙ ap (ids_bytes ids.a ids.b ids.c) s4)
            ∙ sym (encode_node_state_frame_lem built ok4.0),
      )

-- The NodeState decoder accepts a byte string exactly when it is the encoding of a frame in range
-- (ids not 0 and below 2^32, a payload of bytes shorter than 2^32), and returns that frame.
pub decode-IsNodeState_iff :
    (bytes : Bytes) (frame : NodeStateFrame)
    → All IsByte bytes
    → (decode_node_state_frame bytes ≡ some frame)
      ↔ (IsNodeState frame × (bytes ≡ encode_node_state_frame frame))
decode-IsNodeState_iff bytes frame all =
    (IsNodeState-encoded bytes frame all, λ h. rw h.1 (node_state_decodes frame h.0))

-- The end of an acknowledgement is the end of the bytes.
closing :
    (rest : Bytes) (built frame : AckFrame) {r : Bytes}
    → ◌≡◌ {A = Option (AckFrame × Bytes)}
        (if length rest == 0 then some (built, rest) else none)
        (some (frame, r))
    → (rest ≡ []) × (built ≡ frame)
closing [] built frame e = (refl, value_of_some e)
closing (x ∷ rest) built frame e = absurd (ground arith)

pub record IsAck (frame : AckFrame) : Type 0 where
  pub packet : IsObjId frame.packet_id
  pub target : IsObjId frame.target_node_id
  pub share : IsObjId frame.destination_share_id

encode_ack_frame_lem :
    (frame : AckFrame)
    → encode_ack_frame frame
      ≡ append_header [] ack
        ++ ids_bytes frame.packet_id frame.target_node_id frame.destination_share_id []
unfolding encode_ack_frame
encode_ack_frame_lem frame = simp (layout, append-nil)

ack_decodes :
    (frame : AckFrame) → IsAck frame → decode_ack_frame (encode_ack_frame frame) ≡ some frame
unfolding decode_ack_frame read_ack
ack_decodes frame h =
    ap decode_ack_frame (encode_ack_frame_lem frame)
    ∙ decode-step ack read_ack _ (read_ids-step _ frame.packet_id _ _ _ h.packet h.target h.share)

IsAck-encoded :
    (bytes : Bytes) (frame : AckFrame)
    → All IsByte bytes
    → decode_ack_frame bytes ≡ some frame
    → IsAck frame × (bytes ≡ encode_ack_frame frame)
unfolding decode_ack_frame read_ack
IsAck-encoded bytes frame all e =
    let (body, r, split, b0, k) = decode-eq-some ack read_ack bytes all e in
    let ids = read_ids-eq-some _ body b0 k in
    let built : AckFrame = record {
      packet_id = ids.a;
      target_node_id = ids.b;
      destination_share_id = ids.c;
    } in
    let (closed, same) = closing ids.rest built frame ids.continued in
    let valid : IsAck built = record { packet = ids.a_ok; target = ids.b_ok; share = ids.c_ok } in
    subst (λ f. IsAck f × (bytes ≡ encode_ack_frame f)) same
      (
        valid,
        split
            ∙ ap (◌++◌ (append_header [] ack)) (ids.split ∙ ap (ids_bytes ids.a ids.b ids.c) closed)
            ∙ sym (encode_ack_frame_lem built),
      )

-- The Ack decoder accepts a byte string exactly when it is the encoding of an acknowledgement whose
-- three ids are not 0 and below 2^32, with nothing behind it, and returns that acknowledgement.
pub decode-IsAck_iff :
    (bytes : Bytes) (frame : AckFrame)
    → All IsByte bytes
    → (decode_ack_frame bytes ≡ some frame) ↔ (IsAck frame × (bytes ≡ encode_ack_frame frame))
decode-IsAck_iff bytes frame all =
    (IsAck-encoded bytes frame all, λ h. rw h.1 (ack_decodes frame h.0))
