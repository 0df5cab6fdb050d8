-- ===== src/Frame/EventRoundTrip.antt =====
-- Event frames of src/sync_frame.cpp: encoder and decoder are inverse to each other.
use apptraverse.Prelude.{
  ℕ, ◌%◌, ◌^◌, ◌≤◌, ◌<◌, ◌≡◌, refl, sym, ap, ◌∙◌, subst, ◌≢◌, ◌↔◌, Bool, some, [], ◌++◌, arith,
  length, All, Bytes, nat_eq,
}
use apptraverse.Frame.{
  event, EventFrame, append_header, read_u64, read_bounded_bytes, max_origin_uid_bytes,
  encode_event_frame, read_payload, nonzero, read_event_class, read_event, read_event_tail,
  decode_event_frame,
}
use apptraverse.Frame.Codec.{
  IsByte, >>=-eq-some, >>=-step, u32_bytes, u64_bytes, nonzero_codec, IsObjId, IsU64, IsU64-codec,
  bounded_bytes, IsBounded, IsBounded-codec,
}
use apptraverse.Frame.Parts.{
  IsPayload, payload_bytes, read_payload-bytes, bytes-read_payload, IsEventClass,
  IsEventClass-codec,
}
use apptraverse.Frame.RoundTrip.{
  decode-step, decode-eq-some, ids_bytes, layout, read_ids-step, read_ids-eq-some, value_of_some,
}

module _ (derives_event : ℕ → Bool) where
  pub record IsEvent (frame : EventFrame) : Type 0 where
    pub packet : IsObjId frame.packet_id
    pub target : IsObjId frame.target_node_id
    pub share : IsObjId frame.destination_share_id
    pub origin : IsBounded max_origin_uid_bytes frame.identity.origin_uid
    pub sequence : IsU64 frame.identity.origin_sequence × (frame.identity.origin_sequence ≢ 0)
    pub timestamp : IsU64 frame.timestamp_us × (frame.timestamp_us ≢ 0)
    pub class : IsEventClass derives_event frame.event_class_id
    pub payload : IsPayload frame.payload

abbrev tail_bytes : EventFrame → Bytes
tail_bytes frame =
    bounded_bytes frame.identity.origin_uid
    ++ (u64_bytes frame.identity.origin_sequence
        ++ (u64_bytes frame.timestamp_us
            ++ (u32_bytes frame.event_class_id ++ payload_bytes frame.payload)))

encode_event_frame_lem :
    (frame : EventFrame)
    → length frame.identity.origin_uid < 2 ^ 32
    → length frame.payload < 2 ^ 32
    → encode_event_frame frame
      ≡ append_header [] event
        ++ ids_bytes frame.packet_id frame.target_node_id frame.destination_share_id
            (tail_bytes frame)
unfolding encode_event_frame
encode_event_frame_lem frame h k =
    let e : length frame.payload % 2 ^ 32 ≡ length frame.payload = omega arith in
    let e' : length frame.identity.origin_uid % 2 ^ 32 ≡ length frame.identity.origin_uid =
      omega arith in
    rw (e, e') (simp layout)

short_uid : (uid : Bytes) → length uid ≤ max_origin_uid_bytes → length uid < 2 ^ 32
short_uid uid h = omega arith

-- What an event frame holds behind its three ids.
pub record Tail (derives_event : ℕ → Bool) (a b c : ℕ) (rest : Bytes) (frame : EventFrame)
    : Type 0 where
  pub ids : (frame.packet_id ≡ a) × (frame.target_node_id ≡ b) × (frame.destination_share_id ≡ c)
  pub origin : IsBounded max_origin_uid_bytes frame.identity.origin_uid
  pub sequence : IsU64 frame.identity.origin_sequence × (frame.identity.origin_sequence ≢ 0)
  pub timestamp : IsU64 frame.timestamp_us × (frame.timestamp_us ≢ 0)
  pub class : IsEventClass derives_event frame.event_class_id
  pub payload : IsPayload frame.payload
  pub split : rest ≡ tail_bytes frame

module _ (derives_event : ℕ → Bool) where
  event_decodes :
      (frame : EventFrame)
      → IsEvent derives_event frame
      → decode_event_frame derives_event (encode_event_frame frame) ≡ some frame
  unfolding decode_event_frame read_event read_event_tail
  event_decodes frame h =
      ap (decode_event_frame derives_event)
        (encode_event_frame_lem frame (omega (arith, h.origin.1)) h.payload.0)
      ∙ decode-step event (read_event derives_event) _ (
          read_ids-step _ frame.packet_id _ _ _ h.packet h.target h.share
          ∙ >>=-step (read_bounded_bytes max_origin_uid_bytes) _ _ (
              (IsBounded-codec max_origin_uid_bytes (omega arith)).read-write
                frame.identity.origin_uid _ h.origin)
          ∙ >>=-step (nonzero read_u64) _ _
              ((nonzero_codec IsU64-codec).read-write frame.identity.origin_sequence _ h.sequence)
          ∙ >>=-step (nonzero read_u64) _ _
              ((nonzero_codec IsU64-codec).read-write frame.timestamp_us _ h.timestamp)
          ∙ >>=-step (read_event_class derives_event) _ _
              ((IsEventClass-codec derives_event).read-write frame.event_class_id _ h.class)
          ∙ >>=-step read_payload _ _ (read_payload-bytes frame.payload h.payload))

  Tail-encoded :
      (a b c : ℕ) (rest : Bytes) (frame : EventFrame) {r : Bytes}
      → All IsByte rest
      → read_event_tail derives_event a b c rest ≡ some (frame, r)
      → Tail derives_event a b c rest frame
  unfolding read_event_tail
  Tail-encoded a b c r3 frame b3 e =
      let (uid, r4, e4, k4) = >>=-eq-some (read_bounded_bytes max_origin_uid_bytes) _ r3 e in
      let (seq, r5, e5, k5) = >>=-eq-some (nonzero read_u64) _ r4 k4 in
      let (time, r6, e6, k6) = >>=-eq-some (nonzero read_u64) _ r5 k5 in
      let (class, r7, e7, k7) = >>=-eq-some (read_event_class derives_event) _ r6 k6 in
      let (payload, r8, e8, k8) = >>=-eq-some read_payload _ r7 k7 in
      let (ok4, s4, b4) =
        (IsBounded-codec max_origin_uid_bytes (omega arith)).write-read r3 b3 e4 in
      let (ok5, s5, b5) = (nonzero_codec IsU64-codec).write-read r4 b4 e5 in
      let (ok6, s6, b6) = (nonzero_codec IsU64-codec).write-read r5 b5 e6 in
      let (ok7, s7, b7) = (IsEventClass-codec derives_event).write-read r6 b6 e7 in
      let (ok8, s8, closed) = bytes-read_payload r7 b7 e8 in
      subst (Tail derives_event a b c r3) (value_of_some k8) (record {
        ids = (refl, refl, refl);
        origin = ok4;
        sequence = ok5;
        timestamp = ok6;
        class = ok7;
        payload = ok8;
        split =
            s4
            ∙ ap (◌++◌ (bounded_bytes uid)) (
                s5
                ∙ ap (◌++◌ (u64_bytes seq))
                    (s6 ∙ ap (◌++◌ (u64_bytes time)) (s7 ∙ ap (◌++◌ (u32_bytes class)) s8)));
      })

  IsEvent-encoded :
      (bytes : Bytes) (frame : EventFrame)
      → All IsByte bytes
      → decode_event_frame derives_event bytes ≡ some frame
      → IsEvent derives_event frame × (bytes ≡ encode_event_frame frame)
  unfolding decode_event_frame read_event
  IsEvent-encoded bytes frame all e =
      let (body, r, split, b0, k) = decode-eq-some event (read_event derives_event) bytes all e in
      let ids = read_ids-eq-some (read_event_tail derives_event) body b0 k in
      let t = Tail-encoded ids.a ids.b ids.c ids.rest frame ids.rest_bytes ids.continued in
      (
        record {
          packet = subst IsObjId (sym t.ids.0) ids.a_ok;
          target = subst IsObjId (sym t.ids.1) ids.b_ok;
          share = subst IsObjId (sym t.ids.2) ids.c_ok;
          origin = t.origin;
          sequence = t.sequence;
          timestamp = t.timestamp;
          class = t.class;
          payload = t.payload;
        },
        split
            ∙ ap (◌++◌ (append_header [] event))
                (ids.split ∙ cc (t.ids.0, t.ids.1, t.ids.2, t.split))
            ∙ sym (encode_event_frame_lem frame (short_uid _ t.origin.1) t.payload.0),
      )

  -- The Event decoder accepts a byte string exactly when it is the encoding of an event frame in
  -- range: ids not 0, an origin uid of 1 to 256 bytes, a sequence number and a timestamp that are not
  -- 0, a class that the registry derives from `Event`, and a payload shorter than 2^32. It returns
  -- that frame.
  pub decode-IsEvent_iff :
      (bytes : Bytes) (frame : EventFrame)
      → All IsByte bytes
      → (decode_event_frame derives_event bytes ≡ some frame)
        ↔ (IsEvent derives_event frame × (bytes ≡ encode_event_frame frame))
  decode-IsEvent_iff bytes frame all =
      (IsEvent-encoded bytes frame all, λ h. rw h.1 (event_decodes frame h.0))
