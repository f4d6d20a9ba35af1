-- ===== src/MessageVerifier/Batches.antt =====
-- What `Deserialize` of p2p/messageCheck/messageVerifier.go makes of what `Serialize` wrote.
use mx_chain_communication_g.Common.{
  ◌<◌, ◌≡◌, refl, subst, inl, inr, false, Option, none, some, List, [], ◌∷◌, Bytes, ok,
  Result-cases, length, All, arith, Bool-cases, ◌==◌,
}
use mx_chain_communication_g.Message.{PubsubMessage, Message, broadcast, new_message}
use mx_chain_communication_g.DirectSender.{Surroundings}
use mx_chain_communication_g.MessageVerifier.{
  Batching, convert_p2p_message_to_pub_sub_message, serialize_all, deserialize_all, serialize,
  deserialize,
}

-- The messages of a list that are not nil.
unfoldable pub present : List (Option Message) → List Message
present [] = []
present (none ∷ messages) = present messages
present (some msg ∷ messages) = msg ∷ present messages

module _ (e : Surroundings) (b : Batching) where
  -- What a message converted to the pubsub library's form is.
  abbrev converted : Message → PubsubMessage
  converted msg = record {
    sender = msg.from_field;
    payload = msg.payload_field;
    seqno = msg.seq_no_field;
    topic = some msg.topic_field;
    signature = msg.signature_field;
    key = msg.key_field;
  }

  -- A broadcast message that `NewMessage` made.
  abbrev pub IsMade : Message → Type 0
  IsMade msg = new_message e.unmarshal e.id_from_bytes (some (converted msg)) broadcast ≡ ok msg

  deserialize_all-serialize_all :
      (messages : List (Option Message)) (batch : List Bytes)
      → ((m : PubsubMessage) (w : Bytes) → e.encode m ≡ ok w → b.decode w ≡ ok m)
      → All IsMade (present messages)
      → serialize_all e messages ≡ ok batch
      → deserialize_all e b batch ≡ ok (present messages)
  unfolding serialize_all deserialize_all present convert_p2p_message_to_pub_sub_message
  deserialize_all-serialize_all [] [] codec made h = refl
  deserialize_all-serialize_all [] (_ ∷ batch) codec made h = absurd (ground arith)
  deserialize_all-serialize_all (none ∷ messages) batch codec made h =
      deserialize_all-serialize_all messages batch codec made h
  deserialize_all-serialize_all (some msg ∷ messages) batch codec made h =
      elim (Result-cases (e.encode (converted msg))) [
        | inr (failed, q) ↦ absurd (ground arith)
        | inl (w, q) ↦ elim (Result-cases (serialize_all e messages)) [
          | inr (failed, r) ↦ absurd (ground arith)
          | inl (rest, r) ↦
              let tail = deserialize_all-serialize_all messages rest codec made.1 r in
              let split : w ∷ rest ≡ batch = ground arith in
              subst (λ l. deserialize_all e b l ≡ ok (msg ∷ present messages)) split
                (ground (arith, codec (converted msg) w q, made.0, tail))
        ]
      ]

  batch_filled :
      (batch : List Bytes) (messages : List Message)
      → deserialize_all e b batch ≡ ok messages
      → 0 < length messages
      → (length batch == 0) ≡ false
  unfolding deserialize_all
  batch_filled [] messages h long = absurd (ground arith)
  batch_filled (w ∷ batch) messages h long = ground arith

  -- When the converters read back what they wrote, a list of messages that is serialized with at
  -- least one message that is not nil, all of them broadcast messages that NewMessage made,
  -- deserializes to the same messages in the same order, without the nil ones.
  pub deserialize-serialize :
      (messages : List (Option Message)) (bytes : Bytes)
      → ((m : PubsubMessage) (w : Bytes) → e.encode m ≡ ok w → b.decode w ≡ ok m)
      → ((l : List Bytes) (w : Bytes) → b.marshal_batch l ≡ ok w → b.unmarshal_batch w ≡ ok l)
      → All IsMade (present messages)
      → 0 < length (present messages)
      → serialize e b messages ≡ ok bytes
      → deserialize e b bytes ≡ ok (present messages)
  unfolding serialize deserialize
  deserialize-serialize messages bytes codec batch_codec made some_left h =
      elim (Result-cases (serialize_all e messages)) [
        | inr (failed, q) ↦ absurd (ground arith)
        | inl (batch, q) ↦
            let all = deserialize_all-serialize_all messages batch codec made q in
            elim (Bool-cases (length batch == 0)) [
              | inl empty ↦
                  absurd (ground (arith, batch_filled batch (present messages) all some_left))
              | inr filled ↦ ground (arith, batch_codec batch bytes, all)
            ]
      ]
