-- ===== src/DirectSender/Receiving.antt =====
-- Which messages p2p/libp2p/directSender.go hands to the messages handler.
use mx_chain_communication_g.Common.{
  ℕ, suc, ◌+◌, ◌≤◌, ◌≡◌, ◌⊎◌, ◌==◌, ap, Bool, Option, List, ◌∷◌, same, ◌||◌, ◌&&◌, not, inl, inr,
  subst, true, false, none, some, [], ◌++◌, Bytes, bytes_key, arith, length, is_some, if◌then◌else◌,
  same_refl, same→eq, Bool-cases, Option-cases, Result-cases, ok,
}
use mx_chain_communication_g.Errors.{already_seen_message}
use mx_chain_communication_g.Message.{PubsubMessage, Message, direct, new_message}
use mx_chain_communication_g.DirectSender.{
  put_uint64, next_sequence_number, sequence_number_size, Conn, Surroundings, DirectSender,
  with_sign_prefix, check_and_set_seen_message, check_sig, hand_over, check_fields,
  process_received_direct_message, create_message,
}

module _ (e : Surroundings) where
  -- The guards of a received message.
  pub record IsWellFormed (message : PubsubMessage) (peer : Bytes) : Type 0 where
    pub topic : is_some message.topic ≡ true
    pub sender : message.sender ≡ peer
    pub key : message.key ≡ none
    pub seqno : length message.seqno ≤ sequence_number_size
    pub unsigned_or_accepted :
        (message.signature ≡ [])
        ⊎ ((buff : Bytes) × (e.encode (record message { signature = []; key = none }) ≡ ok buff)
            × (e.verify (e.sign_prefix ++ buff) message.sender message.signature ≡ none))

  check_fields_passed :
      (message : PubsubMessage) (peer : Bytes)
      → check_fields e message peer ≡ none
      → (is_some message.topic ≡ true)
        × (message.sender ≡ peer)
        × (message.key ≡ none)
        × (length message.seqno ≤ sequence_number_size)
  unfolding check_fields
  check_fields_passed message peer h =
      (ground arith, ground (arith, same→eq message.sender peer), ground arith, ground arith)

  hand_over_passed :
      (message : PubsubMessage) (peer : Bytes)
      → hand_over e message peer ≡ none
      → (check_sig e message ≡ none)
        × ((msg : Message) × (new_message e.unmarshal e.id_from_bytes (some message) direct
              ≡ ok msg)
            × (e.handle msg peer ≡ none))
  unfolding hand_over
  hand_over_passed message peer h =
      elim (Result-cases (new_message e.unmarshal e.id_from_bytes (some message) direct)) [
        | inr (failed, f) ↦ elim (Option-cases (check_sig e message)) [
          | inl g ↦ absurd (ground arith)
          | inr (bad, g) ↦ absurd (ground arith)
        ]
        | inl (msg, f) ↦ (ground arith, (msg, f, ground arith))
      ]

  check_sig_passed :
      (message : PubsubMessage)
      → check_sig e message ≡ none
      → (message.signature ≡ [])
        ⊎ ((buff : Bytes) × (e.encode (record message { signature = []; key = none }) ≡ ok buff)
            × (e.verify (e.sign_prefix ++ buff) message.sender message.signature ≡ none))
  unfolding check_sig with_sign_prefix
  check_sig_passed message h = elim (Bool-cases (length message.signature == 0)) [
    | inl empty ↦ inl (ground arith)
    | inr some_bytes ↦
        elim (Result-cases (e.encode (record message { signature = []; key = none }))) [
          | inr (failed, f) ↦ absurd (ground arith)
          | inl (buff, f) ↦ inr (buff, f, ground arith)
        ]
  ]

  -- The run of a message that passes the guards.
  process_fields :
      (ds : DirectSender e) (message : PubsubMessage) (peer : Bytes)
      → ds.has_message_handler ≡ true
      → check_fields e message peer ≡ none
      → process_received_direct_message e ds (some message) peer ≡ (
          if (check_and_set_seen_message e ds message).1
          then ((check_and_set_seen_message e ds message).0, some already_seen_message)
          else ((check_and_set_seen_message e ds message).0, hand_over e message peer))
  unfolding process_received_direct_message
  process_fields ds message peer h f = ground arith

  process_passes :
      (ds : DirectSender e) (message : PubsubMessage) (peer : Bytes)
      → (process_received_direct_message e ds (some message) peer).1 ≡ none
      → (check_fields e message peer ≡ none)
        × (hand_over e message peer ≡ none)
        × (e.has ds.seen_messages (message.sender ++ message.seqno) ≡ false)
        × ((process_received_direct_message e ds (some message) peer).0.seen_messages
            ≡ e.add ds.seen_messages (message.sender ++ message.seqno))
  unfolding process_received_direct_message check_and_set_seen_message
  process_passes ds message peer h = elim (Option-cases (check_fields e message peer)) [
    | inr (failed, f) ↦ absurd (ground arith)
    | inl f ↦ elim (Bool-cases (e.has ds.seen_messages (message.sender ++ message.seqno))) [
      | inl g ↦ absurd (ground arith)
      | inr g ↦ (f, ground arith, g, ground arith)
    ]
  ]

  -- A received message whose processing reports no error has a topic, names the connected peer as its
  -- sender, has no key field and a sequence number of at most eight bytes, and has no signature or one
  -- that the signer accepts for the message without it. It was not seen before, it is one that
  -- `NewMessage` can read, and the messages handler took it without an error.
  pub process_received_direct_message_sound :
      (ds : DirectSender e) (message : PubsubMessage) (peer : Bytes)
      → (process_received_direct_message e ds (some message) peer).1 ≡ none
      → IsWellFormed message peer
        × (e.has ds.seen_messages (message.sender ++ message.seqno) ≡ false)
        × ((msg : Message) × (new_message e.unmarshal e.id_from_bytes (some message) direct
              ≡ ok msg)
            × (e.handle msg peer ≡ none))
  process_received_direct_message_sound ds message peer h =
      let (fields, handed, unseen, kept) = process_passes ds message peer h in
      let (topic, sender, key, seqno) = check_fields_passed message peer fields in
      let (accepted, taken) = hand_over_passed message peer handed in
      let good : IsWellFormed message peer = record {
        topic = topic;
        sender = sender;
        key = key;
        seqno = seqno;
        unsigned_or_accepted = check_sig_passed message accepted;
      } in
      (good, unseen, taken)

  abbrev pub has_id : Bytes → Option PubsubMessage → Bool
  has_id id none = false
  has_id id (some message) = same (message.sender ++ message.seqno) id

  -- Of the received messages, processed one after the other, how many have the given sender and
  -- sequence number and are processed without an error.
  unfoldable pub processed_count : Bytes → DirectSender e → List (Option PubsubMessage × Bytes) → ℕ
  processed_count id ds [] = 0
  processed_count id ds ((message, peer) ∷ received) =
      let step = process_received_direct_message e ds message peer in
      let rest = processed_count id step.0 received in
      if not (is_some step.1) && has_id id message then suc rest else rest

  -- A cache that keeps what it was given.
  abbrev pub Keeps : Type 0
  Keeps = (s : e.Seen) (k j : Bytes) → e.has (e.add s k) j ≡ (same k j || e.has s j)

  abbrev one_if : Bool → ℕ
  one_if b = if b then 1 else 0

  process-seen :
      (ds : DirectSender e) (message : Option PubsubMessage) (peer id : Bytes)
      → Keeps
      → one_if (
            not (is_some (process_received_direct_message e ds message peer).1)
            && has_id id message)
          + one_if (e.has ds.seen_messages id)
        ≤ one_if (e.has (process_received_direct_message e ds message peer).0.seen_messages id)
  unfolding process_received_direct_message check_and_set_seen_message
  process-seen ds none peer id keeps = ground arith
  process-seen ds (some message) peer id keeps =
      let key = message.sender ++ message.seqno in
      let kept = keeps ds.seen_messages key id in
      elim (Option-cases (check_fields e message peer)) [
        | inr (failed, f) ↦ ground arith
        | inl f ↦ elim (Bool-cases (same key id)) [
          | inr g ↦ ground (arith, kept)
          | inl g ↦
              let old : e.has ds.seen_messages key ≡ e.has ds.seen_messages id =
                ap (λ k. e.has ds.seen_messages k) (same→eq key id g) in
              ground (arith, kept, old)
        ]
      ]

  processed_count-seen :
      (ds : DirectSender e) (received : List (Option PubsubMessage × Bytes)) (id : Bytes)
      → Keeps
      → processed_count id ds received + one_if (e.has ds.seen_messages id) ≤ 1
  unfolding processed_count
  processed_count-seen ds [] id keeps = ground arith
  processed_count-seen ds ((message, peer) ∷ received) id keeps = ground (
    arith,
    processed_count-seen (process_received_direct_message e ds message peer).0 received id keeps,
    process-seen ds message peer id keeps,
  )

  -- Whatever messages are received, from whichever peers, at most one of those with a given sender
  -- and sequence number is processed without an error, and none when they are in the cache already,
  -- as long as the cache keeps what it was given.
  pub process_received_direct_message_once :
      (ds : DirectSender e) (received : List (Option PubsubMessage × Bytes)) (sender seqno : Bytes)
      → Keeps
      → processed_count (sender ++ seqno) ds received
        ≤ (if e.has ds.seen_messages (sender ++ seqno) then 0 else 1)
  process_received_direct_message_once ds received sender seqno keeps =
      ground (arith, processed_count-seen ds received (sender ++ seqno) keeps)

  -- The message that `createMessage` makes before it signs it.
  abbrev pub unsigned : DirectSender e → Bytes → Bytes → Conn → PubsubMessage
  unsigned ds topic buff conn = record {
    sender = conn.local_peer;
    payload = buff;
    seqno = (next_sequence_number ds.counter).1;
    topic = some topic;
    signature = [];
    key = none;
  }

  pub created :
      (ds ds' : DirectSender e) (topic buff : Bytes) (conn : Conn) (message : PubsubMessage)
      → create_message e ds topic buff conn ≡ (ds', ok message)
      → (bytes : Bytes) × (signature : Bytes) × (e.encode (unsigned ds topic buff conn) ≡ ok bytes)
        × (e.sign (with_sign_prefix e bytes) ≡ ok signature)
        × (record (unsigned ds topic buff conn) { signature = signature } ≡ message)
  unfolding create_message
  created ds ds' topic buff conn message made =
      elim (Result-cases (e.encode (unsigned ds topic buff conn))) [
        | inr (failed, f) ↦ absurd (ground arith)
        | inl (bytes, f) ↦ elim (Result-cases (e.sign (with_sign_prefix e bytes))) [
          | inr (failed, g) ↦ absurd (ground arith)
          | inl (signature, g) ↦ (bytes, signature, f, g, ground arith)
        ]
      ]

  check_sig_signed :
      (ds : DirectSender e) (topic buff bytes signature : Bytes) (conn : Conn)
      → e.encode (unsigned ds topic buff conn) ≡ ok bytes
      → e.verify (with_sign_prefix e bytes) conn.local_peer signature ≡ none
      → check_sig e (record (unsigned ds topic buff conn) { signature = signature }) ≡ none
  unfolding check_sig
  check_sig_signed ds topic buff bytes signature conn f g = ground arith

  check_fields_created :
      (ds : DirectSender e) (topic buff signature : Bytes) (conn : Conn)
      → check_fields e
          (record (unsigned ds topic buff conn) { signature = signature })
          conn.local_peer
        ≡ none
  unfolding check_fields next_sequence_number put_uint64
  check_fields_created ds topic buff signature conn = ground (arith, same_refl conn.local_peer)

  process_checked :
      (r : DirectSender e) (message : PubsubMessage) (peer : Bytes) {msg : Message}
      → r.has_message_handler ≡ true
      → e.has r.seen_messages (message.sender ++ message.seqno) ≡ false
      → check_fields e message peer ≡ none
      → check_sig e message ≡ none
      → new_message e.unmarshal e.id_from_bytes (some message) direct ≡ ok msg
      → (process_received_direct_message e r (some message) peer).1 ≡ e.handle msg peer
  unfolding process_received_direct_message check_and_set_seen_message hand_over
  process_checked r message peer ready unseen fields signed made = ground arith

  -- A message that `createMessage` made has the given buffer and topic, and a node that gets it from
  -- its sender and has not seen it hands it to its messages handler, whose result it returns, when
  -- the buffer is one that `NewMessage` can read. The signer accepts for the sender what it signed.
  pub create_message-received :
      (ds ds' r : DirectSender e) (topic buff : Bytes) (conn : Conn) (message : PubsubMessage)
      (msg : Message)
      → ((b sig : Bytes) → e.sign b ≡ ok sig → e.verify b conn.local_peer sig ≡ none)
      → create_message e ds topic buff conn ≡ (ds', ok message)
      → r.has_message_handler ≡ true
      → e.has r.seen_messages (message.sender ++ message.seqno) ≡ false
      → new_message e.unmarshal e.id_from_bytes (some message) direct ≡ ok msg
      → (message.payload ≡ buff)
        × (message.topic ≡ some topic)
        × ((process_received_direct_message e r (some message) conn.local_peer).1
            ≡ e.handle msg conn.local_peer)
  create_message-received ds ds' r topic buff conn message msg signer made ready unseen readable =
      let (bytes, signature, f, g, q) = created ds ds' topic buff conn message made in
      let fields : check_fields e message conn.local_peer ≡ none =
        subst (λ m. check_fields e m conn.local_peer ≡ none) q
          (check_fields_created ds topic buff signature conn) in
      let signed : check_sig e message ≡ none =
        subst (λ m. check_sig e m ≡ none) q
          (check_sig_signed ds topic buff bytes signature conn f
            (signer (with_sign_prefix e bytes) signature g)) in
      (
        ground arith,
        ground arith,
        process_checked r message conn.local_peer ready unseen fields signed readable,
      )
