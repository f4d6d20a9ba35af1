-- ===== src/MessagesHandler/Delivery.antt =====
-- The messages that p2p/libp2p/messagesHandler.go receives from the pubsub library and from the
-- direct sender, and those that it sends to a single peer.
-- The message processors, the marshaller and the denial evaluator are parameters. The goroutine of
-- `ProcessReceivedMessage` runs at once. Times are in seconds.
use mx_chain_communication_g.Common.Int.{ℤ, pos, ◌+ℤ◌, ◌-ℤ◌, ltb_ℤ}
use mx_chain_communication_g.Common.{
  ℕ, ◌*◌, ◌-◌, ◌^◌, Bool, true, false, not, Option, none, some, List, [], ◌∷◌, Bytes, bytes_key,
  Map, lookup, insert, is_some, if◌then◌else◌, Result, ok, err, same, length, ltb, ◌==◌, contains,
  ◌≡◌,
}
use mx_chain_communication_g.Errors.{
  P2pError, message_too_new, message_too_old, message_too_large, empty_buffer_to_send,
  nil_validator,
}
use mx_chain_communication_g.Cacher.{Cacher}
use mx_chain_communication_g.Message.{
  PubsubMessage, TopicMessage, Message, direct, broadcast, new_message,
  current_topic_message_version,
}
use mx_chain_communication_g.MessagesHandler.{TopicProcessors, get_list, DebugMessage}

abbrev pub pubsub_time_cache_duration : ℕ
pubsub_time_cache_duration = 600

abbrev pub accept_messages_in_advance_duration : ℕ
accept_messages_in_advance_duration = 20

-- `p2p.WrongP2PMessageBlacklistDuration`.
abbrev pub wrong_p2p_message_blacklist_duration : ℕ
wrong_p2p_message_blacklist_duration = 7200

abbrev pub max_send_buff_size : ℕ
max_send_buff_size = 2 ^ 21 - 64 * 1024

unfoldable pub check_sendable_data : Bytes → Option P2pError
check_sendable_data buff =
    if ltb max_send_buff_size (length buff)
    then some message_too_large
    else if length buff == 0
    then some empty_buffer_to_send
    else none

unfoldable pub validate_message_by_timestamp : ℤ → Message → Option P2pError
validate_message_by_timestamp now msg =
    if ltb_ℤ (now +ℤ pos accept_messages_in_advance_duration) msg.timestamp_field
    then some message_too_new
    else if ltb_ℤ msg.timestamp_field (now -ℤ pos pubsub_time_cache_duration)
    then some message_too_old
    else none

-- The interface `PeerDenialEvaluator`.
pub record PeerDenialEvaluator : Type 1 where
  pub State : Type 0
  pub is_denied : State → Bytes → Bool
  pub upsert_peer_id : State → Bytes → ℕ → State × Option P2pError

pub record IsDenialEvaluator (d : PeerDenialEvaluator) : Type 0 where
  pub is_denied-upsert :
      (s : d.State) (pid : Bytes) (seconds : ℕ)
      → (d.upsert_peer_id s pid seconds).1 ≡ none
      → d.is_denied (d.upsert_peer_id s pid seconds).0 pid ≡ true
  -- Denying a peer frees no other.
  pub is_denied-keeps :
      (s : d.State) (pid other : Bytes) (seconds : ℕ)
      → d.is_denied s other ≡ true
      → d.is_denied (d.upsert_peer_id s pid seconds).0 other ≡ true

-- The parameters of the receiving side: `process` gives what `ProcessReceivedMessage` of a
-- processor returns, a message id and an error.
pub record Surroundings : Type 1 where
  pub caches : Cacher Unit
  pub denial : PeerDenialEvaluator
  pub Processor : Type 0
  pub process : Processor → Message → Bytes → Bytes × Option P2pError
  pub unmarshal : Bytes → Option TopicMessage
  pub marshal : TopicMessage → Option Bytes
  pub id_from_bytes : Bytes → Result P2pError Bytes
  -- `core.TopicRequestSuffix`.
  pub topic_request_suffix : Bytes

module _ (e : Surroundings) where
  -- The part of the handler that deliveries change. `increased` has the peers of the calls of
  -- `IncreaseRating`, and `debugger` the calls of the debugger, last call first.
  pub record Delivery : Type 0 where
    pub peer_id : Bytes
    pub equivalent_messages : Map Bytes e.caches.Store
    pub denial_state : e.denial.State
    pub increased : List Bytes
    pub debugger : List DebugMessage

  unfoldable pub blacklist_pid : Delivery → Bytes → ℕ → Delivery
  blacklist_pid h pid duration =
      if e.denial.is_denied h.denial_state pid
      then h
      else if length pid == 0
      then h
      else record h { denial_state = (e.denial.upsert_peer_id h.denial_state pid duration).0 }

  unfoldable pub process_debug_message : Delivery → Bytes → Bytes → ℕ → Bool → Delivery
  process_debug_message h topic from_connected_peer size is_rejected =
      let call : DebugMessage = record {
        topic = topic;
        size = size;
        is_outgoing = same from_connected_peer h.peer_id;
        is_rejected = is_rejected;
      } in
      record h { debugger = call ∷ h.debugger }

  unfoldable pub check_message : Delivery → ℤ → Message → Bytes → Bytes → Delivery × Option P2pError
  check_message h now msg pid topic = elim (validate_message_by_timestamp now msg) [
    | none ↦ (h, none)
    | some failed ↦ (process_debug_message h topic pid (length msg.data_field) true, some failed)
  ]

  -- The blacklisting of `transformAndCheckMessage`.
  unfoldable pub blacklist_both : Delivery → Option PubsubMessage → Bytes → Delivery
  blacklist_both h none pid = blacklist_pid h pid wrong_p2p_message_blacklist_duration
  blacklist_both h (some msg) pid =
      let h' = blacklist_pid h pid wrong_p2p_message_blacklist_duration in
      if ltb 0 (length msg.sender)
      then blacklist_pid h' msg.sender wrong_p2p_message_blacklist_duration
      else h'

  unfoldable pub transform_and_check_message :
      Delivery → ℤ → Option PubsubMessage → Bytes → Bytes → Delivery × Result P2pError Message
  transform_and_check_message h now pb_msg pid topic =
      elim (new_message e.unmarshal e.id_from_bytes pb_msg broadcast) [
        | err failed ↦ (blacklist_both h pb_msg pid, err failed)
        | ok msg ↦
            let (h', failed) = check_message h now msg pid topic in
            elim failed [ none ↦ (h', ok msg) | some failed' ↦ (h', err failed') ]
      ]

  -- The cache is used twice, by `Get` and by `Put`, and nothing holds a lock from the one to the other:
  -- `meanwhile` is what other callbacks do to the cache of the topic in between.
  unfoldable pub is_equivalent_message_first_broadcast :
      Delivery → (e.caches.Store → e.caches.Store) → Bytes → Bytes → Delivery × Bool
  is_equivalent_message_first_broadcast h meanwhile [] topic = (h, true)
  is_equivalent_message_first_broadcast h meanwhile (b ∷ message_id) topic =
      elim (lookup topic h.equivalent_messages) [
        | none ↦ (h, true)
        | some cache ↦
            let touched = e.caches.touch cache (b ∷ message_id) in
            if is_some (e.caches.get cache (b ∷ message_id))
            then (
              record h { equivalent_messages = insert topic touched h.equivalent_messages },
              false,
            )
            else (
              record h {
                equivalent_messages =
                    insert topic (e.caches.put (meanwhile touched) (b ∷ message_id) tt)
                      h.equivalent_messages;
              },
              true,
            )
      ]

  -- The loop over the processors: whether all accepted the message, and the last message id.
  unfoldable pub process_by_all : List e.Processor → Message → Bytes → Bool → Bytes → Bool × Bytes
  process_by_all [] msg pid message_ok msg_id = (message_ok, msg_id)
  process_by_all (processor ∷ processors) msg pid message_ok msg_id =
      let (id, failed) = e.process processor msg pid in
      process_by_all processors msg pid (if is_some failed then false else message_ok) id

  unfoldable pub size_of : Option PubsubMessage → ℕ
  size_of none = 0
  size_of (some msg) = length msg.payload

  -- Callbacks run beside each other. What the others do to the logs and the denied peers has no part in
  -- the answer; what they do to the cache of the topic is `meanwhile`.
  unfoldable pub pubsub_callback :
      Delivery
      → TopicProcessors e.Processor
      → Bytes
      → ℤ
      → Bytes
      → (e.caches.Store → e.caches.Store)
      → Option PubsubMessage
      → Delivery × Bool
  pubsub_callback h topic_procs topic now pid meanwhile message =
      let (h1, checked) = transform_and_check_message h now message pid topic in
      elim checked [
        | err failed ↦ (h1, false)
        | ok msg ↦
            let (message_ok, msg_id) = process_by_all (get_list topic_procs).1 msg pid true [] in
            let h2 = process_debug_message h1 topic pid (size_of message) (not message_ok) in
            if message_ok
            then is_equivalent_message_first_broadcast h2 meanwhile msg_id topic
            else (h2, false)
      ]

  unfoldable pub increase_rating_if_needed : Delivery → Message → Bytes → Delivery
  increase_rating_if_needed h msg from_connected_peer = elim msg.broadcast_method_field [
    | broadcast ↦ h
    | direct ↦
        if contains msg.topic_field e.topic_request_suffix
        then h
        else record h { increased = from_connected_peer ∷ h.increased }
  ]

  -- The goroutine of `ProcessReceivedMessage`.
  unfoldable pub process_direct :
      Delivery → TopicProcessors e.Processor → Message → Bytes → Delivery
  process_direct h topic_procs msg from_connected_peer =
      let (message_ok, msg_id) =
        process_by_all (get_list topic_procs).1 msg from_connected_peer true [] in
      let call : DebugMessage = record {
        topic = msg.topic_field;
        size = length msg.data_field;
        is_outgoing = false;
        is_rejected = not message_ok;
      } in
      let h' = record h { debugger = call ∷ h.debugger } in
      if message_ok then increase_rating_if_needed h' msg from_connected_peer else h'

  -- `processors` gives `handler.processors[topic]`, `none` for nil; `source` is whether the source is
  -- not nil.
  unfoldable pub process_received_message :
      Delivery
      → (Bytes → Option (TopicProcessors e.Processor))
      → ℤ
      → Option Message
      → Bytes
      → Bool
      → Delivery × Option P2pError
  process_received_message h processors now none from_connected_peer source = (h, none)
  process_received_message h processors now (some message) from_connected_peer source =
      if not source
      then (h, none)
      else let (h', failed) = check_message h now message from_connected_peer message.topic_field in
        elim failed [
          | some failed' ↦ (h', some failed')
          | none ↦ elim (processors message.topic_field) [
            | none ↦ (h', some nil_validator)
            | some topic_procs ↦ (process_direct h' topic_procs message from_connected_peer, none)
          ]
        ]

  -- `createMessageBytes`: the empty buffer when the marshaller fails.
  unfoldable pub create_message_bytes : ℤ → Bytes → Bytes
  create_message_bytes now buff =
      elim (e.marshal (record {
        version = current_topic_message_version;
        payload = buff;
        timestamp = now;
        signature_on_pid = [];
        pk = [];
      })) [ none ↦ [] | some bytes ↦ bytes ]

  unfoldable pub send_direct_to_self :
      Delivery
      → (Bytes → Option (TopicProcessors e.Processor))
      → ℤ
      → Bytes
      → Bytes
      → Bytes
      → Delivery × Option P2pError
  send_direct_to_self h processors now topic buff seqno =
      let msg : PubsubMessage = record {
        sender = h.peer_id;
        payload = buff;
        seqno = seqno;
        topic = some topic;
        signature = h.peer_id;
        key = none;
      } in
      elim (new_message e.unmarshal e.id_from_bytes (some msg) direct) [
        | err failed ↦ (h, some failed)
        | ok message ↦ process_received_message h processors now (some message) h.peer_id true
      ]

  -- `send` is the direct sender's `Send`, `seqno` what its `NextSequenceNumber` gives.
  unfoldable pub send_to_connected_peer :
      Delivery
      → (Bytes → Option (TopicProcessors e.Processor))
      → ℤ
      → (Bytes → Bytes → Bytes → Option P2pError)
      → Bytes
      → Bytes
      → Bytes
      → Bytes
      → Delivery × Option P2pError
  send_to_connected_peer h processors now send seqno topic buff peer_id =
      elim (check_sendable_data buff) [
        | some failed ↦ (h, some failed)
        | none ↦
            let buff_to_send = create_message_bytes now buff in
            if length buff_to_send == 0
            then (h, none)
            else if same peer_id h.peer_id
            then send_direct_to_self h processors now topic buff_to_send seqno
            else let failed = send topic buff_to_send peer_id in
              let call : DebugMessage = record {
                topic = topic;
                size = length buff_to_send;
                is_outgoing = true;
                is_rejected = is_some failed;
              } in
              (record h { debugger = call ∷ h.debugger }, failed)
      ]
