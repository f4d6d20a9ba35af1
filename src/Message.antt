-- ===== src/Message.antt =====
-- p2p/libp2p/message.go: a message of the pubsub library made into a message of the node. The
-- marshaller and `peer.IDFromBytes` are parameters.
use mx_chain_communication_g.Common.Int.{ℤ}
use mx_chain_communication_g.Common.{
  ℕ, ◌+◌, not, Option, none, some, Bytes, ltb, ◌==◌, length, Result, ok, err, and_then, reject_if,
}
use mx_chain_communication_g.Errors.{
  P2pError, nil_message, nil_topic, message_unmarshal_error, unsupported_message_version,
  unsupported_fields,
}

abbrev pub current_topic_message_version : ℕ
current_topic_message_version = 1

pub data BroadcastMethod : Type 0 where
  direct broadcast : BroadcastMethod

-- A byte slice that the code compares with nil is optional.
pub record PubsubMessage : Type 0 where
  pub sender : Bytes
  pub payload : Bytes
  pub seqno : Bytes
  pub topic : Option Bytes
  pub signature : Bytes
  pub key : Option Bytes

pub record TopicMessage : Type 0 where
  pub version : ℕ
  pub payload : Bytes
  pub timestamp : ℤ
  pub signature_on_pid : Bytes
  pub pk : Bytes

pub record Message : Type 0 where
  pub from_field : Bytes
  pub payload_field : Bytes
  pub seq_no_field : Bytes
  pub topic_field : Bytes
  pub signature_field : Bytes
  pub key_field : Option Bytes
  pub broadcast_method_field : BroadcastMethod
  pub data_field : Bytes
  pub timestamp_field : ℤ
  pub peer_field : Bytes

module _ (unmarshal : Bytes → Option TopicMessage)
    (id_from_bytes : Bytes → Result P2pError Bytes) where
  -- What `NewMessage` does once the topic and the topic message are there.
  unfoldable pub fill_message :
      PubsubMessage → Bytes → TopicMessage → BroadcastMethod → Result P2pError Message
  fill_message msg topic t method =
      reject_if (not (t.version == current_topic_message_version)) unsupported_message_version (
        reject_if (ltb 0 (length t.signature_on_pid + length t.pk)) unsupported_fields (
          and_then (id_from_bytes msg.sender) (λ id. ok (record {
            from_field = msg.sender;
            payload_field = msg.payload;
            seq_no_field = msg.seqno;
            topic_field = topic;
            signature_field = msg.signature;
            key_field = msg.key;
            broadcast_method_field = method;
            data_field = t.payload;
            timestamp_field = t.timestamp;
            peer_field = id;
          }))))

  unfoldable pub new_message : Option PubsubMessage → BroadcastMethod → Result P2pError Message
  new_message none method = err nil_message
  new_message (some msg) method = elim msg.topic [
    | none ↦ err nil_topic
    | some topic ↦ elim (unmarshal msg.payload) [
      | none ↦ err message_unmarshal_error
      | some t ↦ fill_message msg topic t method
    ]
  ]
