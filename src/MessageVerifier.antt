-- ===== src/MessageVerifier.antt =====
-- p2p/messageCheck/messageVerifier.go: signatures of received messages, and lists of messages as
-- bytes. Protobuf, the marshaller of a batch and the signer are parameters, the latter those of
-- DirectSender.antt.
pub mod Batches
pub mod Signatures
mod Tests
use mx_chain_communication_g.Common.{
  Option, none, some, List, [], ◌∷◌, ◌++◌, Bytes, Result, ok, err, and_then, length, ◌==◌,
  if◌then◌else◌,
}
use mx_chain_communication_g.Errors.{P2pError, nil_message}
use mx_chain_communication_g.Message.{PubsubMessage, Message, broadcast, new_message}
use mx_chain_communication_g.DirectSender.{Surroundings, with_sign_prefix}

-- The decoder of a pubsub message, and the two directions for a batch.
pub record Batching : Type 0 where
  pub decode : Bytes → Result P2pError PubsubMessage
  pub marshal_batch : List Bytes → Result P2pError Bytes
  pub unmarshal_batch : Bytes → Result P2pError (List Bytes)

-- `none` is a nil message.
unfoldable pub convert_p2p_message_to_pub_sub_message :
    Option Message → Result P2pError PubsubMessage
convert_p2p_message_to_pub_sub_message none = err nil_message
convert_p2p_message_to_pub_sub_message (some msg) = ok (record {
  sender = msg.from_field;
  payload = msg.payload_field;
  seqno = msg.seq_no_field;
  topic = some msg.topic_field;
  signature = msg.signature_field;
  key = msg.key_field;
})

module _ (e : Surroundings) where
  unfoldable pub prepare_pub_sub_message_payload : Option Message → Result P2pError Bytes
  prepare_pub_sub_message_payload msg =
      and_then (convert_p2p_message_to_pub_sub_message msg) (λ pubsub_msg.
        and_then (e.encode (record pubsub_msg { signature = []; key = none }))
          (λ bytes. ok (with_sign_prefix e bytes)))

  unfoldable pub verify : Option Message → Option P2pError
  verify none = some nil_message
  verify (some msg) = elim (prepare_pub_sub_message_payload (some msg)) [
    | err failed ↦ some failed
    | ok payload ↦ e.verify payload msg.peer_field msg.signature_field
  ]

  -- The loop of `Serialize`: messages that cannot be converted are skipped.
  unfoldable pub serialize_all : List (Option Message) → Result P2pError (List Bytes)
  serialize_all [] = ok []
  serialize_all (msg ∷ messages) = elim (convert_p2p_message_to_pub_sub_message msg) [
    | err failed ↦ serialize_all messages
    | ok pubsub_msg ↦ elim (e.encode pubsub_msg) [
      | err failed ↦ err failed
      | ok bytes ↦ and_then (serialize_all messages) (λ rest. ok (bytes ∷ rest))
    ]
  ]

  -- The loop of `Deserialize`: messages that cannot be read are skipped.
  unfoldable pub deserialize_all : Batching → List Bytes → Result P2pError (List Message)
  deserialize_all b [] = ok []
  deserialize_all b (bytes ∷ batch) = elim (b.decode bytes) [
    | err failed ↦ err failed
    | ok pubsub_msg ↦ elim (new_message e.unmarshal e.id_from_bytes (some pubsub_msg) broadcast) [
      | err failed ↦ deserialize_all b batch
      | ok msg ↦ and_then (deserialize_all b batch) (λ rest. ok (msg ∷ rest))
    ]
  ]

  unfoldable pub serialize : Batching → List (Option Message) → Result P2pError Bytes
  serialize b messages = and_then (serialize_all messages) (λ pubsub_messages.
      if length pubsub_messages == 0 then ok [] else b.marshal_batch pubsub_messages)

  unfoldable pub deserialize : Batching → Bytes → Result P2pError (List Message)
  deserialize b messages_bytes = and_then (b.unmarshal_batch messages_bytes) (deserialize_all b)
