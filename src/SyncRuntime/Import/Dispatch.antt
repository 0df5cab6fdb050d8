-- ===== src/SyncRuntime/Import/Dispatch.antt =====
-- `OnBytes`: which bytes reach which handler.
use apptraverse.Prelude.{ℕ, ◌≡◌, ◌⊎◌, inl, inr, Bool, some, arith, Option-cases, Bytes, All}
use apptraverse.Journal.{Node}
use apptraverse.Frame.Codec.{IsByte}
use apptraverse.Frame.{
  node_state, ack, event, NodeStateFrame, AckFrame, EventFrame, peek_sync_frame_type,
  decode_node_state_frame, decode_ack_frame, decode_event_frame, encode_node_state_frame,
  encode_ack_frame, encode_event_frame,
}
use apptraverse.Frame.Dispatch.{peek-node_state, peek-ack, peek-event}
use apptraverse.Frame.RoundTrip.{IsNodeState, IsAck, decode-IsNodeState_iff, decode-IsAck_iff}
use apptraverse.Frame.EventRoundTrip.{IsEvent, decode-IsEvent_iff}
use apptraverse.SyncRuntime.{SharedClass, Runtime}
use apptraverse.SyncRuntime.Handlers.{on_ack, on_event}
use apptraverse.SyncRuntime.Import.{GraphReader, on_node_state, on_bytes}

abbrev pub IsNodeStateBytes : Bytes → NodeStateFrame → Type 0
IsNodeStateBytes bytes f = IsNodeState f × (bytes ≡ encode_node_state_frame f)

abbrev pub IsAckBytes : Bytes → AckFrame → Type 0
IsAckBytes bytes f = IsAck f × (bytes ≡ encode_ack_frame f)

module _ (derives : ℕ → Bool) where
  abbrev pub IsEventBytes : Bytes → EventFrame → Type 0
  IsEventBytes bytes f = IsEvent derives f × (bytes ≡ encode_event_frame f)

  -- The bytes are the encoding of no frame in range.
  abbrev pub IsForeign : Bytes → Type 0
  IsForeign bytes =
      ((f : NodeStateFrame) → ¬ (IsNodeStateBytes bytes f))
      × ((f : AckFrame) → ¬ (IsAckBytes bytes f))
      × ((f : EventFrame) → ¬ (IsEventBytes bytes f))

  -- Bytes that no decoder takes are the encoding of nothing.
  undecoded-IsForeign :
      (bytes : Bytes)
      → All IsByte bytes
      → ((f : NodeStateFrame) → ¬ (decode_node_state_frame bytes ≡ some f))
      → ((f : AckFrame) → ¬ (decode_ack_frame bytes ≡ some f))
      → ((f : EventFrame) → ¬ (decode_event_frame derives bytes ≡ some f))
      → IsForeign bytes
  undecoded-IsForeign bytes all a b c = (
    (λ f h. a f ((decode-IsNodeState_iff bytes f all).1 h)),
    (λ f h. b f ((decode-IsAck_iff bytes f all).1 h)),
    (λ f h. c f ((decode-IsEvent_iff derives bytes f all).1 h)),
  )

module _ {S E G : Type 0} (c : SharedClass S E) (g : GraphReader S E G) where
  -- Bytes from the network either are the encoding of no frame in range, and change nothing, or they are
  -- that of one, and do what the handler of that frame does.
  pub on_bytes_lem :
      (derives : ℕ → Bool) (now_us : ℕ) (occupied : ℕ → Bool) (bind : Bytes → Node S E → Bool)
      (source bytes : Bytes) (rt : Runtime S E)
      → All IsByte bytes
      → let out = on_bytes c g derives now_us occupied bind source bytes rt in
        (IsForeign derives bytes × (out ≡ rt))
        ⊎ ((f : NodeStateFrame) × IsNodeStateBytes bytes f
            × (out ≡ on_node_state c g now_us occupied bind source f rt))
        ⊎ ((f : AckFrame) × IsAckBytes bytes f × (out ≡ on_ack c now_us source f rt))
        ⊎ ((f : EventFrame) × IsEventBytes derives bytes f × (out ≡ on_event c now_us source f rt))
  unfolding on_bytes
  on_bytes_lem derives now_us occupied bind source bytes rt all =
      elim (Option-cases (peek_sync_frame_type bytes)) [
        | inl unknown ↦ inl (
          undecoded-IsForeign derives bytes all
              (λ f h. absurd (ground (arith, unknown, peek-node_state bytes f h)))
              (λ f h. absurd (ground (arith, unknown, peek-ack bytes f h)))
              (λ f h. absurd (ground (arith, unknown, peek-event derives bytes f h))),
          ground (arith, unknown),
        )
        | inr (node_state, peeked) ↦ elim (Option-cases (decode_node_state_frame bytes)) [
          | inl refused ↦ inl (
            undecoded-IsForeign derives bytes all (λ f h. absurd (ground (arith, refused, h)))
                (λ f h. absurd (ground (arith, peeked, peek-ack bytes f h)))
                (λ f h. absurd (ground (arith, peeked, peek-event derives bytes f h))),
            ground (arith, peeked, refused),
          )
          | inr (f, decoded) ↦ inr (
              inl (
                f,
                (decode-IsNodeState_iff bytes f all).0 decoded,
                ground (arith, peeked, decoded),
              ))
        ]
        | inr (ack, peeked) ↦ elim (Option-cases (decode_ack_frame bytes)) [
          | inl refused ↦ inl (
            undecoded-IsForeign derives bytes all
                (λ f h. absurd (ground (arith, peeked, peek-node_state bytes f h)))
                (λ f h. absurd (ground (arith, refused, h)))
                (λ f h. absurd (ground (arith, peeked, peek-event derives bytes f h))),
            ground (arith, peeked, refused),
          )
          | inr (f, decoded) ↦ inr (
              inr (
                inl (f, (decode-IsAck_iff bytes f all).0 decoded, ground (arith, peeked, decoded))))
        ]
        | inr (event, peeked) ↦ elim (Option-cases (decode_event_frame derives bytes)) [
          | inl refused ↦ inl (
            undecoded-IsForeign derives bytes all
                (λ f h. absurd (ground (arith, peeked, peek-node_state bytes f h)))
                (λ f h. absurd (ground (arith, peeked, peek-ack bytes f h)))
                (λ f h. absurd (ground (arith, refused, h))),
            ground (arith, peeked, refused),
          )
          | inr (f, decoded) ↦ inr (
              inr (
                inr (
                  f,
                  (decode-IsEvent_iff derives bytes f all).0 decoded,
                  ground (arith, peeked, decoded),
                )))
        ]
      ]
