-- ===== src/DirectSender.antt =====
-- p2p/libp2p/directSender.go: messages sent to one connected peer over a stream.
-- The host, the signer, the cache of seen messages, protobuf's encoding and the messages handler are
-- parameters. A stream is opened and written in one step, and the per-peer mutexes are left out.
pub mod Streams
pub mod Receiving
mod Tests
use mx_chain_communication_g.Common.{
  ℕ, suc, ◌+◌, ◌-◌, ◌*◌, ◌/◌, ◌%◌, ◌^◌, Bool, true, false, not, ◌&&◌, Option, none, some, List, [],
  ◌∷◌, ◌++◌, Bytes, bytes_key, is_some, if◌then◌else◌, Result, ok, err, and_then, same, length, ltb,
  leb, ◌==◌, ◌≡◌, ◌<◌,
}
use mx_chain_communication_g.Errors.{
  P2pError, nil_direct_send_message_handler, nil_message, nil_topic, invalid_value,
  already_seen_message, message_too_large, peer_not_directly_connected,
}
use mx_chain_communication_g.Message.{
  PubsubMessage, TopicMessage, Message, BroadcastMethod, direct, new_message,
}
use mx_chain_communication_g.MessagesHandler.Delivery.{max_send_buff_size}

abbrev pub sequence_number_size : ℕ
sequence_number_size = 8

-- `binary.BigEndian.PutUint64`.
unfoldable pub put_uint64 : ℕ → Bytes
put_uint64 v =
    v / 2 ^ 56 % 256
    ∷ v / 2 ^ 48 % 256
    ∷ v / 2 ^ 40 % 256
    ∷ v / 2 ^ 32 % 256
    ∷ v / 2 ^ 24 % 256
    ∷ v / 2 ^ 16 % 256
    ∷ v / 2 ^ 8 % 256
    ∷ v % 256
    ∷ []

-- The counter after `NextSequenceNumber`, and the number as bytes.
unfoldable pub next_sequence_number : ℕ → ℕ × Bytes
next_sequence_number counter = let new_val = suc counter % 2 ^ 64 in (new_val, put_uint64 new_val)

-- A stream of a connection: whether it has the protocol of direct messages, and is an outgoing one.
pub record Stream : Type 0 where
  pub id : ℕ
  pub is_expected : Bool
  pub is_outbound : Bool

pub record Conn : Type 0 where
  pub local_peer : Bytes
  pub streams : List Stream

-- The loop of `getConnection`, with the best connection so far. Its first round always takes the
-- first connection, as no number of streams is below 0.
unfoldable pub get_connection_from : ℕ → Conn → List Conn → Conn
get_connection_from l_streams conn [] = conn
get_connection_from l_streams conn (c ∷ conns) =
    let better = get_connection_from (length c.streams) c conns in
    let same_one = get_connection_from l_streams conn conns in
    if leb l_streams (length c.streams) then better else same_one

unfoldable pub get_connection : List Conn → Result P2pError Conn
get_connection [] = err peer_not_directly_connected
get_connection (c ∷ conns) = ok (get_connection_from (length c.streams) c conns)

unfoldable pub find_stream : List Stream → Option Stream
find_stream [] = none
find_stream (s ∷ streams) = if s.is_expected && s.is_outbound then some s else find_stream streams

-- `new_stream` is what `NewStream` of the host gives.
unfoldable pub get_or_create_stream : Result P2pError Stream → Conn → Result P2pError Stream
get_or_create_stream new_stream conn = elim (find_stream conn.streams) [
  | some s ↦ ok s
  | none ↦ new_stream
]

-- What the sender relies on. `handle` is `ProcessReceivedMessage` of the messages handler.
pub record Surroundings : Type 1 where
  pub Seen : Type 0
  pub has : Seen → Bytes → Bool
  pub add : Seen → Bytes → Seen
  pub encode : PubsubMessage → Result P2pError Bytes
  pub sign : Bytes → Result P2pError Bytes
  pub verify : Bytes → Bytes → Bytes → Option P2pError
  pub sign_prefix : Bytes
  pub unmarshal : Bytes → Option TopicMessage
  pub id_from_bytes : Bytes → Result P2pError Bytes
  pub handle : Message → Bytes → Option P2pError

module _ (e : Surroundings) where
  pub record DirectSender : Type 0 where
    pub counter : ℕ
    pub has_message_handler : Bool
    pub seen_messages : e.Seen

  unfoldable pub with_sign_prefix : Bytes → Bytes
  with_sign_prefix bytes = e.sign_prefix ++ bytes

  unfoldable pub check_and_set_seen_message : DirectSender → PubsubMessage → DirectSender × Bool
  check_and_set_seen_message ds msg =
      let msg_id = msg.sender ++ msg.seqno in
      if e.has ds.seen_messages msg_id
      then (ds, true)
      else (record ds { seen_messages = e.add ds.seen_messages msg_id }, false)

  unfoldable pub check_sig : PubsubMessage → Option P2pError
  check_sig message =
      if length message.signature == 0
      then none
      else elim (e.encode (record message { signature = []; key = none })) [
        | err failed ↦ some failed
        | ok buff ↦ e.verify (with_sign_prefix buff) message.sender message.signature
      ]

  -- What follows the check of the signature.
  unfoldable pub hand_over : PubsubMessage → Bytes → Option P2pError
  hand_over message from_connected_peer = elim (check_sig message) [
    | some failed ↦ some failed
    | none ↦ elim (new_message e.unmarshal e.id_from_bytes (some message) direct) [
      | err failed ↦ some failed
      | ok msg ↦ e.handle msg from_connected_peer
    ]
  ]

  -- The guards on the fields of a message, in order.
  unfoldable pub check_fields : PubsubMessage → Bytes → Option P2pError
  check_fields message from_connected_peer =
      if not (is_some message.topic)
      then some nil_topic
      else if not (same message.sender from_connected_peer)
      then some invalid_value
      else if is_some message.key
      then some invalid_value
      else if ltb sequence_number_size (length message.seqno)
      then some invalid_value
      else none

  unfoldable pub process_received_direct_message :
      DirectSender → Option PubsubMessage → Bytes → DirectSender × Option P2pError
  process_received_direct_message ds none from_connected_peer =
      if ds.has_message_handler
      then (ds, some nil_message)
      else (ds, some nil_direct_send_message_handler)
  process_received_direct_message ds (some message) from_connected_peer =
      if not ds.has_message_handler
      then (ds, some nil_direct_send_message_handler)
      else elim (check_fields message from_connected_peer) [
        | some failed ↦ (ds, some failed)
        | none ↦
            let (ds', seen) = check_and_set_seen_message ds message in
            if seen
            then (ds', some already_seen_message)
            else (ds', hand_over message from_connected_peer)
      ]

  unfoldable pub create_message :
      DirectSender → Bytes → Bytes → Conn → DirectSender × Result P2pError PubsubMessage
  create_message ds topic buff conn =
      let (counter, seqno) = next_sequence_number ds.counter in
      let ds' = record ds { counter = counter } in
      let mes : PubsubMessage = record {
        sender = conn.local_peer;
        payload = buff;
        seqno = seqno;
        topic = some topic;
        signature = [];
        key = none;
      } in
      elim (e.encode mes) [
        | err failed ↦ (ds', err failed)
        | ok bytes ↦ elim (e.sign (with_sign_prefix bytes)) [
          | err failed ↦ (ds', err failed)
          | ok signature ↦ (ds', ok (record mes { signature = signature }))
        ]
      ]

  -- `Send` with the connections of the peer; `write` is the writing of a message and the flush.
  unfoldable pub send :
      DirectSender
      → Bytes
      → Bytes
      → List Conn
      → Result P2pError Stream
      → (Stream → PubsubMessage → Option P2pError)
      → DirectSender × Option P2pError
  send ds topic buff conns new_stream write =
      if leb max_send_buff_size (length buff)
      then (ds, some message_too_large)
      else elim (get_connection conns) [
        | err failed ↦ (ds, some failed)
        | ok conn ↦ elim (get_or_create_stream new_stream conn) [
          | err failed ↦ (ds, some failed)
          | ok stream ↦
              let (ds', made) = create_message ds topic buff conn in
              elim made [ err failed ↦ (ds', some failed) | ok msg ↦ (ds', write stream msg) ]
        ]
      ]
