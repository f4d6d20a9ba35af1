-- ===== src/MessageVerifier/Signatures.antt =====
-- The signatures that p2p/messageCheck/messageVerifier.go accepts.
use mx_chain_communication_g.Common.{
  ◌≡◌, sym, subst, inl, inr, none, some, [], Bytes, ok, Option-cases, arith,
}
use mx_chain_communication_g.Message.{
  PubsubMessage, TopicMessage, Message, BroadcastMethod, fill_message, new_message,
}
use mx_chain_communication_g.DirectSender.{
  Conn, DirectSender, Surroundings, with_sign_prefix, create_message,
}
use mx_chain_communication_g.DirectSender.Receiving.{created}
use mx_chain_communication_g.MessageVerifier.{
  convert_p2p_message_to_pub_sub_message, prepare_pub_sub_message_payload, verify,
}

module _ (e : Surroundings) where
  abbrev unconverted : Message → PubsubMessage
  unconverted msg = record {
    sender = msg.from_field;
    payload = msg.payload_field;
    seqno = msg.seq_no_field;
    topic = some msg.topic_field;
    signature = msg.signature_field;
    key = msg.key_field;
  }

  fill_message-fields :
      (message : PubsubMessage) (topic : Bytes) (t : TopicMessage) (method : BroadcastMethod)
      (msg : Message) (id : Bytes)
      → fill_message e.unmarshal e.id_from_bytes message topic t method ≡ ok msg
      → message.topic ≡ some topic
      → e.id_from_bytes message.sender ≡ ok id
      → (unconverted msg ≡ message) × (msg.peer_field ≡ id)
  unfolding fill_message
  fill_message-fields message topic t method msg id made known peer = (ground arith, ground arith)

  new_message-fields :
      (message : PubsubMessage) (method : BroadcastMethod) (msg : Message) (id : Bytes)
      → new_message e.unmarshal e.id_from_bytes (some message) method ≡ ok msg
      → e.id_from_bytes message.sender ≡ ok id
      → (unconverted msg ≡ message) × (msg.peer_field ≡ id)
  unfolding new_message
  new_message-fields message method msg id made peer = elim (Option-cases message.topic) [
    | inl q ↦ absurd (ground arith)
    | inr (topic, q) ↦ elim (Option-cases (e.unmarshal message.payload)) [
      | inl r ↦ absurd (ground arith)
      | inr (t, r) ↦ fill_message-fields message topic t method msg id (ground arith) q peer
    ]
  ]

  verify_converted :
      (msg : Message) (message : PubsubMessage) (bytes : Bytes)
      → unconverted msg ≡ message
      → e.encode (record message { signature = []; key = none }) ≡ ok bytes
      → e.verify (with_sign_prefix e bytes) msg.peer_field message.signature ≡ none
      → verify e (some msg) ≡ none
  unfolding verify prepare_pub_sub_message_payload convert_p2p_message_to_pub_sub_message
  verify_converted msg message bytes q encoded signed =
      let encoded' : e.encode (record (unconverted msg) { signature = []; key = none }) ≡ ok bytes =
        subst (λ (m : PubsubMessage). e.encode (record m { signature = []; key = none }) ≡ ok bytes)
          (sym q) encoded in
      let signed' : e.verify (with_sign_prefix e bytes) msg.peer_field msg.signature_field ≡ none =
        subst
          (λ (m : PubsubMessage).
            e.verify (with_sign_prefix e bytes) msg.peer_field m.signature ≡ none)
          (sym q) signed in
      ground arith

  -- A message that the direct sender made and that NewMessage can read passes Verify, where the
  -- signer accepts what it signed for the peer that its sender stands for.
  pub verify-create_message :
      (ds ds' : DirectSender e) (topic buff : Bytes) (conn : Conn) (message : PubsubMessage)
      (method : BroadcastMethod) (msg : Message) (id : Bytes)
      → ((b sig : Bytes) → e.sign b ≡ ok sig → e.verify b id sig ≡ none)
      → e.id_from_bytes conn.local_peer ≡ ok id
      → create_message e ds topic buff conn ≡ (ds', ok message)
      → new_message e.unmarshal e.id_from_bytes (some message) method ≡ ok msg
      → verify e (some msg) ≡ none
  verify-create_message ds ds' topic buff conn message method msg id signer peer made read =
      let (bytes, signature, f, g, q) = created e ds ds' topic buff conn message made in
      let sender : e.id_from_bytes message.sender ≡ ok id =
        subst (λ (m : PubsubMessage). e.id_from_bytes m.sender ≡ ok id) q peer in
      let (fields, peer_id) = new_message-fields message method msg id read sender in
      let encoded : e.encode (record message { signature = []; key = none }) ≡ ok bytes =
        subst (λ (m : PubsubMessage). e.encode (record m { signature = []; key = none }) ≡ ok bytes)
          q f in
      let signed : e.verify (with_sign_prefix e bytes) msg.peer_field message.signature ≡ none =
        subst (λ (p : Bytes). e.verify (with_sign_prefix e bytes) p message.signature ≡ none)
          (sym peer_id)
          (subst (λ (m : PubsubMessage). e.verify (with_sign_prefix e bytes) id m.signature ≡ none)
            q (signer (with_sign_prefix e bytes) signature g)) in
      verify_converted msg message bytes fields encoded signed
