-- ===== src/Frame/Parts.antt =====
-- The header, the payload and the event class of a frame, written and read back.
use apptraverse.Prelude.{
  ℕ, ◌^◌, ◌<◌, ◌≡◌, refl, ap, ◌∙◌, subst, ◌≢◌, Bool, true, some, [], ◌∷◌, ◌++◌, arith, length, All,
  take_of_length-le, Bytes, nat_eq,
}
use apptraverse.Frame.{
  SyncFrameType, node_state, ack, event, type_code, append_header, read_u32, read_header,
  read_payload, read_event_class,
}
use apptraverse.Frame.Codec.{IsByte, IsCodec, >>=-eq-some, >>=-step, u32_bytes, IsU32-codec, IsU32}

-- A payload closes its frame.
abbrev pub IsPayload : Bytes → Type 0
IsPayload payload = IsU32 (length payload) × All IsByte payload

abbrev pub payload_bytes : Bytes → Bytes
payload_bytes payload = u32_bytes (length payload) ++ payload

pub read_payload-bytes :
    (payload : Bytes)
    → IsPayload payload
    → read_payload (payload_bytes payload) ≡ some (payload, [])
unfolding read_payload
read_payload-bytes payload h =
    >>=-step read_u32 _ _ (IsU32-codec.read-write (length payload) payload h.0)
    ∙ ground (arith, take_of_length-le (length payload) payload)

pub bytes-read_payload :
    (bytes : Bytes) {payload rest : Bytes}
    → All IsByte bytes
    → read_payload bytes ≡ some (payload, rest)
    → IsPayload payload × (bytes ≡ payload_bytes payload) × (rest ≡ [])
unfolding read_payload
bytes-read_payload bytes {payload} {rest} h e =
    let (size, r, e1, k) = >>=-eq-some read_u32 _ bytes e in
    let (small, split, bytes') = IsU32-codec.write-read bytes h e1 in
    let size_eq : size ≡ length r = ground arith in
    let same : r ≡ payload = ground (arith, take_of_length-le size r) in
    let closed : rest ≡ [] = ground arith in
    (
      (subst (λ n. n < 2 ^ 32) (size_eq ∙ ap length same) small, subst (All IsByte) same bytes'),
      cc,
      closed,
    )

pub read_header-bytes :
    (type : SyncFrameType) (rest : Bytes)
    → read_header type (append_header [] type ++ rest) ≡ some rest
unfolding read_header append_header type_code
read_header-bytes node_state rest = refl
read_header-bytes ack rest = refl
read_header-bytes event rest = refl

pub bytes-read_header :
    (type : SyncFrameType) (bytes : Bytes) {rest : Bytes}
    → All IsByte bytes
    → read_header type bytes ≡ some rest
    → (bytes ≡ append_header [] type ++ rest) × All IsByte rest
unfolding read_header append_header
bytes-read_header type [] h e = absurd (cc)
bytes-read_header type (a ∷ []) h e = absurd (cc)
bytes-read_header type (a ∷ b ∷ r) {rest} h e =
    let same : r ≡ rest = ground arith in (ground arith, subst (All IsByte) same h.1.1)

module _ (derives_event : ℕ → Bool) where
  -- A class id that the registry knows as an event class.
  abbrev pub IsEventClass : ℕ → Type 0
  IsEventClass id = IsU32 id × (id ≢ 0) × (derives_event id ≡ true)

  pub IsEventClass-codec : IsCodec u32_bytes (read_event_class derives_event) IsEventClass
  unfolding read_event_class
  IsEventClass-codec = record {
    read-write = λ id rest h.
        >>=-step read_u32 _ _ (IsU32-codec.read-write id rest h.0) ∙ ground (arith, h.1, h.2);
    write-read = λ bytes {a = id} {rest} h e.
        let (n, r, e1, k) = >>=-eq-some read_u32 _ bytes e in
        let (small, split, bytes') = IsU32-codec.write-read bytes h e1 in
        let positive : n ≢ 0 = ground arith in
        let known : derives_event n ≡ true = ground arith in
        let same : n ≡ id = ground arith in
        let same_rest : r ≡ rest = ground arith in
        (subst IsEventClass same (small, positive, known), cc, subst (All IsByte) same_rest bytes');
  }
