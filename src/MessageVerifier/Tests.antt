-- ===== src/MessageVerifier/Tests.antt =====
-- The message verifier over a small wire format, and the theorems at concrete inputs.
use mx_chain_communication_g.Common.Int.{pos}
use mx_chain_communication_g.Common.{
  ℕ, ◌≡◌, refl, true, false, Option, none, some, List, [], ◌∷◌, Bytes, bytes_key, same, Result, ok,
  err, arith, ◌==◌, if◌then◌else◌, bytes_discrete, ℕ_discrete,
}
use mx_chain_communication_g.Errors.{P2pError, foreign, invalid_value}
use mx_chain_communication_g.Message.{
  PubsubMessage, Message, broadcast, direct, new_message, fill_message,
}
use mx_chain_communication_g.DirectSender.{
  Surroundings, DirectSender, with_sign_prefix, create_message, next_sequence_number, put_uint64,
}
use mx_chain_communication_g.MessageVerifier.{
  Batching, convert_p2p_message_to_pub_sub_message, prepare_pub_sub_message_payload, verify,
  serialize_all, deserialize_all, serialize, deserialize,
}
use mx_chain_communication_g.MessageVerifier.Batches
use mx_chain_communication_g.MessageVerifier.Batches.{present}
use mx_chain_communication_g.MessageVerifier.Signatures

-- Messages with a sender, a topic and a payload of one byte each, and one byte of signature or none.
abbrev encode_fields :
    Bytes → Bytes → Bytes → Option Bytes → Bytes → Option Bytes → Result P2pError Bytes
encode_fields (s ∷ []) (p ∷ []) seqno (some (t ∷ [])) [] none = ok (0 ∷ s ∷ t ∷ p ∷ seqno)
encode_fields (s ∷ []) (p ∷ []) seqno (some (t ∷ [])) (g ∷ []) none = ok (1 ∷ s ∷ t ∷ p ∷ g ∷ seqno)
encode_fields _ _ _ _ _ _ = err (foreign 1)

abbrev encode : PubsubMessage → Result P2pError Bytes
encode m = encode_fields m.sender m.payload m.seqno m.topic m.signature m.key

abbrev read : Bytes → Bytes → Bytes → Bytes → Bytes → PubsubMessage
read s t p signature seqno = record {
  sender = s;
  payload = p;
  seqno = seqno;
  topic = some t;
  signature = signature;
  key = none;
}

abbrev decode_signed : ℕ → ℕ → ℕ → Bytes → Result P2pError PubsubMessage
decode_signed s t p [] = err (foreign 2)
decode_signed s t p (g ∷ seqno) = ok (read (s ∷ []) (t ∷ []) (p ∷ []) (g ∷ []) seqno)

abbrev decode : Bytes → Result P2pError PubsubMessage
decode (k ∷ s ∷ t ∷ p ∷ rest) =
    if k == 0 then ok (read (s ∷ []) (t ∷ []) (p ∷ []) [] rest) else decode_signed s t p rest
decode _ = err (foreign 2)

decode-encode_fields :
    (sender payload seqno : Bytes) (topic : Option Bytes) (signature : Bytes) (key : Option Bytes)
    (w : Bytes)
    → encode_fields sender payload seqno topic signature key ≡ ok w
    → decode w
      ≡ ok (record {
        sender = sender;
        payload = payload;
        seqno = seqno;
        topic = topic;
        signature = signature;
        key = key;
      })
decode-encode_fields (s ∷ []) (p ∷ []) seqno (some (t ∷ [])) [] none w h = ground arith
decode-encode_fields (s ∷ []) (p ∷ []) seqno (some (t ∷ [])) (g ∷ []) none w h = ground arith
decode-encode_fields _ _ _ _ _ _ w h = absurd (ground arith)

-- The signature of every buffer is 7.
abbrev surroundings : Surroundings
surroundings = record {
  Seen = List Bytes;
  has = λ s k. false;
  add = λ s k. k ∷ s;
  encode = encode;
  sign = λ b. ok (7 ∷ []);
  verify = λ b pid sig. if same sig (7 ∷ []) then none else some invalid_value;
  sign_prefix = 112 ∷ [];
  unmarshal = λ b.
      some (record { version = 1; payload = b; timestamp = pos 0; signature_on_pid = []; pk = [] });
  id_from_bytes = λ b. ok b;
  handle = λ msg pid. none;
}

-- A batch of one message is its bytes.
abbrev marshal_one : List Bytes → Result P2pError Bytes
marshal_one (w ∷ []) = ok w
marshal_one _ = err (foreign 3)

abbrev one : Bytes → Result P2pError (List Bytes)
one w = ok (w ∷ [])

unmarshal-marshal_one : (l : List Bytes) (w : Bytes) → marshal_one l ≡ ok w → one w ≡ ok l
unmarshal-marshal_one [] w h = absurd (ground arith)
unmarshal-marshal_one (v ∷ []) w h = ground arith
unmarshal-marshal_one (v ∷ u ∷ l) w h = absurd (ground arith)

abbrev batching : Batching
batching = record { decode = decode; marshal_batch = marshal_one; unmarshal_batch = one }

program : Unit {0}
unfolding bytes_discrete ℕ_discrete new_message fill_message with_sign_prefix create_message
    next_sequence_number put_uint64 verify serialize_all deserialize_all serialize deserialize
    present convert_p2p_message_to_pub_sub_message prepare_pub_sub_message_payload
program = tt

abbrev message : Message
message = record {
  from_field = 65 ∷ [];
  payload_field = 5 ∷ [];
  seq_no_field = 1 ∷ [];
  topic_field = 84 ∷ [];
  signature_field = 7 ∷ [];
  key_field = none;
  broadcast_method_field = broadcast;
  data_field = 5 ∷ [];
  timestamp_field = pos 0;
  peer_field = 65 ∷ [];
}

deserialize-serialize_example :
    deserialize surroundings batching (1 ∷ 65 ∷ 84 ∷ 5 ∷ 7 ∷ 1 ∷ []) ≡ ok (message ∷ [])
unfolding program
deserialize-serialize_example =
    Batches.deserialize-serialize surroundings batching (none ∷ some message ∷ [])
      (1 ∷ 65 ∷ 84 ∷ 5 ∷ 7 ∷ 1 ∷ [])
      (λ m w h. decode-encode_fields m.sender m.payload m.seqno m.topic m.signature m.key w h)
      unmarshal-marshal_one (refl, tt) (omega arith) refl

abbrev sender : DirectSender surroundings
sender = record { counter = 0; has_message_handler = true; seen_messages = [] }

abbrev sent : PubsubMessage
sent = read (65 ∷ []) (84 ∷ []) (5 ∷ []) (7 ∷ []) (0 ∷ 0 ∷ 0 ∷ 0 ∷ 0 ∷ 0 ∷ 0 ∷ 1 ∷ [])

abbrev received : Message
received = record message {
  seq_no_field = 0 ∷ 0 ∷ 0 ∷ 0 ∷ 0 ∷ 0 ∷ 0 ∷ 1 ∷ [];
  broadcast_method_field = direct;
}

verify-create_message_example : verify surroundings (some received) ≡ none
unfolding program
verify-create_message_example =
    Signatures.verify-create_message surroundings sender (record sender { counter = 1 }) (84 ∷ [])
      (5 ∷ []) (record { local_peer = 65 ∷ []; streams = [] }) sent direct received (65 ∷ [])
      (λ b sig h. ground arith) refl refl refl
