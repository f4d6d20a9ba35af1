-- ===== src/MessagesHandler/Direct.antt =====
-- Whom p2p/libp2p/messagesHandler.go denies and rates, and what it does with a message to itself.
use mx_chain_communication_g.Common.Int.{ℤ, pos, leb_ℤ, ◌+ℤ◌, ◌-ℤ◌, +ℤ_parts, -ℤ_parts}
use mx_chain_communication_g.Common.{
  ℕ, ◌≤◌, ◌<◌, Bool, ◌&&◌, true, false, Option, none, some, [], ◌∷◌, Bytes, bytes_key, is_some, ok,
  err, same_refl, length, contains, ◌≡◌, ◌⊎◌, refl, inl, inr, ◌∙◌, subst, arith, Bool-cases,
  Option-cases, All,
}
use mx_chain_communication_g.Errors.{P2pError}
use mx_chain_communication_g.Message.{
  PubsubMessage, Message, BroadcastMethod, direct, broadcast, new_message, TopicMessage,
  fill_message, current_topic_message_version,
}
use mx_chain_communication_g.MessagesHandler.{TopicProcessors, get_list}
use mx_chain_communication_g.MessagesHandler.Delivery.{
  validate_message_by_timestamp, IsDenialEvaluator, Surroundings, Delivery, blacklist_pid,
  blacklist_both, process_debug_message, check_message, check_sendable_data, max_send_buff_size,
  transform_and_check_message, process_by_all, pubsub_callback, increase_rating_if_needed,
  process_direct, process_received_message, create_message_bytes, send_direct_to_self,
  send_to_connected_peer, wrong_p2p_message_blacklist_duration,
}
use mx_chain_communication_g.MessagesHandler.Filtering.{
  timestamp-IsTimely, Accepts, process_by_all-All, callback_unread, check_message_passes,
}

module _ (e : Surroundings) where
  abbrev pub IsDenied : Delivery e → Bytes → Type 0
  IsDenied h pid = e.denial.is_denied h.denial_state pid ≡ true

  blacklist_pid-denies :
      (h : Delivery e) (pid : Bytes) (seconds : ℕ)
      → IsDenialEvaluator e.denial
      → ((s : e.denial.State) → (e.denial.upsert_peer_id s pid seconds).1 ≡ none)
      → 0 < length pid
      → IsDenied (blacklist_pid e h pid seconds) pid
  unfolding blacklist_pid
  blacklist_pid-denies h pid seconds laws stores long =
      ground (arith, laws.is_denied-upsert h.denial_state pid seconds (stores h.denial_state))

  blacklist_pid-keeps :
      (h : Delivery e) (pid other : Bytes) (seconds : ℕ)
      → IsDenialEvaluator e.denial
      → IsDenied h other
      → IsDenied (blacklist_pid e h pid seconds) other
  unfolding blacklist_pid
  blacklist_pid-keeps h pid other seconds laws denied =
      ground (arith, laws.is_denied-keeps h.denial_state pid other seconds denied)

  -- A message of the pubsub library that cannot be read is rejected, and both the connected peer and
  -- the originator, when they are not empty, are denied afterwards, as far as the denial evaluator
  -- stores what it is given.
  pubsub_callback_denies :
      (h : Delivery e) (procs : TopicProcessors e.Processor) (topic : Bytes) (now : ℤ) (pid : Bytes)
      (meanwhile : e.caches.Store → e.caches.Store) (m : PubsubMessage) (failed : P2pError)
      → IsDenialEvaluator e.denial
      → ((s : e.denial.State) (p : Bytes) (seconds : ℕ)
          → (e.denial.upsert_peer_id s p seconds).1 ≡ none)
      → new_message e.unmarshal e.id_from_bytes (some m) broadcast ≡ err failed
      → 0 < length pid
      → 0 < length m.sender
      → ((pubsub_callback e h procs topic now pid meanwhile (some m)).1 ≡ false)
        × IsDenied (pubsub_callback e h procs topic now pid meanwhile (some m)).0 pid
        × IsDenied (pubsub_callback e h procs topic now pid meanwhile (some m)).0 m.sender
  unfolding transform_and_check_message blacklist_both
  pubsub_callback_denies h procs topic now pid meanwhile m failed laws stores unread long
        sender_long =
      let d = wrong_p2p_message_blacklist_duration in
      let h1 = blacklist_pid e h pid d in
      let left : pubsub_callback e h procs topic now pid meanwhile (some m)
          ≡ (blacklist_pid e h1 m.sender d, false) =
        callback_unread e h procs topic now pid meanwhile (some m) {f = failed} (ground arith)
        ∙ ground arith in
      let reached : blacklist_pid e h1 m.sender d
          ≡ (pubsub_callback e h procs topic now pid meanwhile (some m)).0 =
        ground arith in
      (
        ground arith,
        subst (λ h'. IsDenied h' pid) reached
            (blacklist_pid-keeps h1 m.sender pid d laws
              (blacklist_pid-denies h pid d laws (λ s. stores s pid d) long)),
        subst (λ h'. IsDenied h' m.sender) reached
            (blacklist_pid-denies h1 m.sender d laws (λ s. stores s m.sender d) sender_long),
      )

  -- What a call that may increase the rating of `pid` leaves of the increased peers.
  abbrev pub OnlyIncreases :
      Delivery e → Delivery e → TopicProcessors e.Processor → Message → Bytes → Type 0
  OnlyIncreases h h' procs msg pid =
      (h'.increased ≡ h.increased)
      ⊎ ((h'.increased ≡ pid ∷ h.increased)
          × (msg.broadcast_method_field ≡ direct)
          × (contains msg.topic_field e.topic_request_suffix ≡ false)
          × All (Accepts e msg pid) (get_list procs).1)

  increase_rating-cases :
      (h : Delivery e) (procs : TopicProcessors e.Processor) (msg : Message) (pid : Bytes)
      → All (Accepts e msg pid) (get_list procs).1
      → OnlyIncreases h (increase_rating_if_needed e h msg pid) procs msg pid
  unfolding increase_rating_if_needed
  increase_rating-cases h procs msg pid good = go msg.broadcast_method_field refl
    where
      go :
          (method : BroadcastMethod)
          → msg.broadcast_method_field ≡ method
          → OnlyIncreases h (increase_rating_if_needed e h msg pid) procs msg pid
      go broadcast q = inl (ground arith)
      go direct q = elim (Bool-cases (contains msg.topic_field e.topic_request_suffix)) [
        | inl r ↦ inl (ground arith)
        | inr r ↦ inr (ground arith, q, r, good)
      ]

  process_direct-increases :
      (h : Delivery e) (procs : TopicProcessors e.Processor) (msg : Message) (pid : Bytes)
      → OnlyIncreases h (process_direct e h procs msg pid) procs msg pid
  unfolding process_direct
  process_direct-increases h procs msg pid =
      elim (Bool-cases (process_by_all e (get_list procs).1 msg pid true []).0) [
        | inr no' ↦ inl (ground arith)
        | inl yes' ↦
            let good = process_by_all-All e (get_list procs).1 msg pid [] yes' in
            let h' : Delivery e = record h {
              debugger =
                  record {
                    topic = msg.topic_field;
                    size = length msg.data_field;
                    is_outgoing = false;
                    is_rejected = false;
                  }
                  ∷ h.debugger;
            } in
            let reached : increase_rating_if_needed e h' msg pid
                ≡ process_direct e h procs msg pid =
              ground arith in
            subst (λ h''. OnlyIncreases h h'' procs msg pid) reached
              (increase_rating-cases h' procs msg pid good)
      ]

  check_message-increased :
      (h : Delivery e) (now : ℤ) (msg : Message) (pid topic : Bytes)
      → (check_message e h now msg pid topic).0.increased ≡ h.increased
  unfolding check_message process_debug_message
  check_message-increased h now msg pid topic = ground arith

  -- Whether the message is of the last ten minutes or the next twenty seconds.
  abbrev pub timely : ℤ → Message → Bool
  timely now msg =
      leb_ℤ (now -ℤ pos 600) msg.timestamp_field && leb_ℤ msg.timestamp_field (now +ℤ pos 20)

  untimely :
      (h : Delivery e) (now : ℤ) (msg : Message) (pid topic : Bytes) (f : P2pError)
      → (check_message e h now msg pid topic).1 ≡ some f
      → timely now msg ≡ false
  unfolding check_message validate_message_by_timestamp
  untimely h now msg pid topic f q = ground arith

  -- What ProcessReceivedMessage does with a message for which it has nothing to do, one that it
  -- refuses, and one that it hands to the processors of its topic.
  abbrev pub IsIgnored : Delivery e → Option Message → Bool → Delivery e × Option P2pError → Type 0
  IsIgnored h message source result = ((message ≡ none) ⊎ (source ≡ false)) × (result ≡ (h, none))

  abbrev pub IsRefused :
      Delivery e
      → (Bytes → Option (TopicProcessors e.Processor))
      → ℤ
      → Message
      → Delivery e × Option P2pError
      → Type 0
  IsRefused h processors now msg result =
      ((timely now msg ≡ false) ⊎ (processors msg.topic_field ≡ none))
      × (is_some result.1 ≡ true)
      × (result.0.increased ≡ h.increased)

  abbrev pub IsProcessed :
      Delivery e
      → (Bytes → Option (TopicProcessors e.Processor))
      → ℤ
      → Message
      → Bytes
      → Delivery e × Option P2pError
      → Type 0
  IsProcessed h processors now msg pid result =
      (procs : TopicProcessors e.Processor) × (processors msg.topic_field ≡ some procs)
      × (timely now msg ≡ true)
      × (result.1 ≡ none)
      × OnlyIncreases h result.0 procs msg pid

  process_given_message :
      (h : Delivery e) (processors : Bytes → Option (TopicProcessors e.Processor)) (now : ℤ)
      (msg : Message) (pid : Bytes)
      → let result = process_received_message e h processors now (some msg) pid true in
        IsRefused h processors now msg result ⊎ IsProcessed h processors now msg pid result
  unfolding process_received_message
  process_given_message h processors now msg pid =
      elim (Option-cases (check_message e h now msg pid msg.topic_field).1) [
        | inr (f, q) ↦ inl (
          inl (untimely h now msg pid msg.topic_field f q),
          ground arith,
          ground (arith, check_message-increased h now msg pid msg.topic_field),
        )
        | inl q ↦
            let (valid, kept) = check_message_passes e h now msg pid msg.topic_field q in
            elim (Option-cases (processors msg.topic_field)) [
              | inl r ↦ inl (inr r, ground arith, ground arith)
              | inr (procs, r) ↦
                  let reached : process_direct e h procs msg pid
                      ≡ (process_received_message e h processors now (some msg) pid true).0 =
                    ground arith in
                  let within = timestamp-IsTimely now msg valid in
                  inr (
                    procs,
                    r,
                    ground (arith, within),
                    ground arith,
                    subst (λ h'. OnlyIncreases h h' procs msg pid) reached
                        (process_direct-increases h procs msg pid),
                  )
            ]
      ]

  -- ProcessReceivedMessage succeeds and does nothing for a nil message or a nil source. Otherwise it
  -- fails exactly for a message that is not timely or whose topic has no processors, and then leaves
  -- all ratings; a timely message whose topic has processors is processed without an error, and
  -- increases the rating of the connected peer at most once, only when it is a direct message on a
  -- topic that is not one for requests, which every processor of the topic accepted.
  pub process_received_message-cases :
      (h : Delivery e) (processors : Bytes → Option (TopicProcessors e.Processor)) (now : ℤ)
      (message : Option Message) (pid : Bytes) (source : Bool)
      → let result = process_received_message e h processors now message pid source in
        IsIgnored h message source result
        ⊎ ((msg : Message) × (message ≡ some msg)
            × (source ≡ true)
            × (IsRefused h processors now msg result ⊎ IsProcessed h processors now msg pid result))
  unfolding process_received_message
  process_received_message-cases h processors now none pid source = inl (inl refl, refl)
  process_received_message-cases h processors now (some msg) pid false = inl (inr refl, refl)
  process_received_message-cases h processors now (some msg) pid true =
      inr (msg, refl, refl, process_given_message h processors now msg pid)

  -- The message that the node makes of a buffer that it sends to itself.
  abbrev pub self_message : Delivery e → ℤ → Bytes → Bytes → Bytes → Bytes → Bytes → Message
  self_message h now topic buff wire seqno id = record {
    from_field = h.peer_id;
    payload_field = wire;
    seq_no_field = seqno;
    topic_field = topic;
    signature_field = h.peer_id;
    key_field = none;
    broadcast_method_field = direct;
    data_field = buff;
    timestamp_field = now;
    peer_field = id;
  }

  timely_now :
      (now : ℤ) (msg : Message)
      → msg.timestamp_field ≡ now
      → validate_message_by_timestamp now msg ≡ none
  unfolding validate_message_by_timestamp
  timely_now now msg q = ground (arith, +ℤ_parts now (pos 20), -ℤ_parts now (pos 600))

  received_timely :
      (h : Delivery e) (processors : Bytes → Option (TopicProcessors e.Processor)) (now : ℤ)
      (msg : Message) (pid : Bytes) {procs : TopicProcessors e.Processor}
      → msg.timestamp_field ≡ now
      → processors msg.topic_field ≡ some procs
      → process_received_message e h processors now (some msg) pid true
        ≡ (process_direct e h procs msg pid, none)
  unfolding process_received_message check_message
  received_timely h processors now msg pid q r = ground (arith, timely_now now msg q)

  new_message-wire :
      (msg : PubsubMessage) (topic id : Bytes) (t : TopicMessage)
      → e.unmarshal msg.payload ≡ some t
      → t.version ≡ 1
      → t.signature_on_pid ≡ []
      → t.pk ≡ []
      → msg.topic ≡ some topic
      → e.id_from_bytes msg.sender ≡ ok id
      → new_message e.unmarshal e.id_from_bytes (some msg) direct
        ≡ ok (record {
          from_field = msg.sender;
          payload_field = msg.payload;
          seq_no_field = msg.seqno;
          topic_field = topic;
          signature_field = msg.signature;
          key_field = msg.key;
          broadcast_method_field = direct;
          data_field = t.payload;
          timestamp_field = t.timestamp;
          peer_field = id;
        })
  unfolding new_message fill_message
  new_message-wire msg topic id t a b c' d f g = ground arith

  -- A buffer that is not empty and not larger than the limit, sent to the node itself on a topic that
  -- has processors, comes out of the marshaller and back as a direct message with the same buffer,
  -- topic and time, on which the topic's processors run; the call reports no error. The marshaller
  -- reads back what it wrote, which is not empty.
  pub send_to_connected_peer_self :
      (h : Delivery e) (processors : Bytes → Option (TopicProcessors e.Processor)) (now : ℤ)
      (send : Bytes → Bytes → Bytes → Option P2pError) (seqno topic buff wire id : Bytes)
      (procs : TopicProcessors e.Processor)
      → ((t : TopicMessage) (w : Bytes) → e.marshal t ≡ some w → e.unmarshal w ≡ some t)
      → e.marshal (record {
        version = current_topic_message_version;
        payload = buff;
        timestamp = now;
        signature_on_pid = [];
        pk = [];
      })
        ≡ some wire
      → 0 < length wire
      → e.id_from_bytes h.peer_id ≡ ok id
      → processors topic ≡ some procs
      → 0 < length buff
      → length buff ≤ max_send_buff_size
      → send_to_connected_peer e h processors now send seqno topic buff h.peer_id
        ≡ (process_direct e h procs (self_message h now topic buff wire seqno id) h.peer_id, none)
  unfolding send_to_connected_peer send_direct_to_self create_message_bytes check_sendable_data
  send_to_connected_peer_self h processors now send seqno topic buff wire id procs codec made long
        known live filled small =
      let msg : PubsubMessage = record {
        sender = h.peer_id;
        payload = wire;
        seqno = seqno;
        topic = some topic;
        signature = h.peer_id;
        key = none;
      } in
      let t : TopicMessage = record {
        version = current_topic_message_version;
        payload = buff;
        timestamp = now;
        signature_on_pid = [];
        pk = [];
      } in
      ground (
        arith,
        same_refl h.peer_id,
        new_message-wire msg topic id t (codec t wire made) refl refl refl refl known,
        received_timely h processors now (self_message h now topic buff wire seqno id) h.peer_id
            refl live,
      )
