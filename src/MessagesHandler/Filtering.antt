-- ===== src/MessagesHandler/Filtering.antt =====
-- Which messages p2p/libp2p/messagesHandler.go lets through, and whom it denies or rates.
use mx_chain_communication_g.Common.Int.{ℤ, pos, ◌+ℤ◌, ◌-ℤ◌, ◌≤ℤ◌}
use mx_chain_communication_g.Common.{
  true, false, not, Option, none, List, [], ◌∷◌, Bytes, bytes_key, if◌then◌else◌, ok, err, ◌≡◌,
  refl, inl, inr, arith, Option-cases, Result-cases, All,
}
use mx_chain_communication_g.Errors.{P2pError}
use mx_chain_communication_g.Message.{PubsubMessage, Message, broadcast, new_message}
use mx_chain_communication_g.MessagesHandler.{TopicProcessors, get_list}
use mx_chain_communication_g.MessagesHandler.Delivery.{
  validate_message_by_timestamp, Surroundings, Delivery, process_debug_message, check_message,
  transform_and_check_message, is_equivalent_message_first_broadcast, process_by_all, size_of,
  pubsub_callback,
}

-- Between ten minutes ago and twenty seconds ahead.
abbrev pub IsTimely : ℤ → Message → Type 0
IsTimely now msg = (now -ℤ pos 600 ≤ℤ msg.timestamp_field) × (msg.timestamp_field ≤ℤ now +ℤ pos 20)

pub timestamp-IsTimely :
    (now : ℤ) (msg : Message) → validate_message_by_timestamp now msg ≡ none → IsTimely now msg
unfolding validate_message_by_timestamp
timestamp-IsTimely now msg h = ground arith

module _ (e : Surroundings) where
  abbrev pub Accepts : Message → Bytes → e.Processor → Type 0
  Accepts msg pid processor = (e.process processor msg pid).1 ≡ none

  process_by_all_stays :
      (ps : List e.Processor) (msg : Message) (pid id : Bytes)
      → (process_by_all e ps msg pid false id).0 ≡ false
  unfolding process_by_all
  process_by_all_stays [] msg pid id = refl
  process_by_all_stays (p ∷ ps) msg pid id =
      ground (arith, process_by_all_stays ps msg pid (e.process p msg pid).0)

  pub process_by_all-All :
      (ps : List e.Processor) (msg : Message) (pid id : Bytes)
      → (process_by_all e ps msg pid true id).0 ≡ true
      → All (Accepts msg pid) ps
  unfolding process_by_all
  process_by_all-All [] msg pid id h = tt
  process_by_all-All (p ∷ ps) msg pid id h = elim (Option-cases (e.process p msg pid).1) [
    | inl f ↦ (f, process_by_all-All ps msg pid (e.process p msg pid).0 (ground arith))
    | inr (g, f) ↦ absurd (ground (arith, process_by_all_stays ps msg pid (e.process p msg pid).0))
  ]

  pub check_message_passes :
      (h : Delivery e) (now : ℤ) (msg : Message) (pid topic : Bytes)
      → (check_message e h now msg pid topic).1 ≡ none
      → (validate_message_by_timestamp now msg ≡ none)
        × ((check_message e h now msg pid topic).0 ≡ h)
  unfolding check_message
  check_message_passes h now msg pid topic q =
      elim (Option-cases (validate_message_by_timestamp now msg)) [
        | inl f ↦ (f, ground arith)
        | inr (g, f) ↦ absurd (ground arith)
      ]

  pub transform_passes :
      (h : Delivery e) (now : ℤ) (m : Option PubsubMessage) (pid topic : Bytes) (msg : Message)
      → (transform_and_check_message e h now m pid topic).1 ≡ ok msg
      → (new_message e.unmarshal e.id_from_bytes m broadcast ≡ ok msg)
        × (validate_message_by_timestamp now msg ≡ none)
        × ((transform_and_check_message e h now m pid topic).0 ≡ h)
  unfolding transform_and_check_message
  transform_passes h now m pid topic msg q =
      elim (Result-cases (new_message e.unmarshal e.id_from_bytes m broadcast)) [
        | inr (f, g) ↦ absurd (ground arith)
        | inl (a, g) ↦ elim (Option-cases (check_message e h now a pid topic).1) [
          | inr (f, k) ↦ absurd (ground arith)
          | inl k ↦ ground (arith, check_message_passes h now a pid topic k)
        ]
      ]

  -- What the callback does with a message that it could read.
  pub callback_read :
      (h : Delivery e) (procs : TopicProcessors e.Processor) (topic : Bytes) (now : ℤ) (pid : Bytes)
      (meanwhile : e.caches.Store → e.caches.Store) (m : Option PubsubMessage) (msg : Message)
      → (transform_and_check_message e h now m pid topic).1 ≡ ok msg
      → let all = process_by_all e (get_list procs).1 msg pid true [] in
        let h2 = process_debug_message e h topic pid (size_of e m) (not all.0) in
        pubsub_callback e h procs topic now pid meanwhile m ≡ (
          if all.0
          then is_equivalent_message_first_broadcast e h2 meanwhile all.1 topic
          else (h2, false))
  unfolding pubsub_callback
  callback_read h procs topic now pid meanwhile m msg q =
      ground (arith, transform_passes h now m pid topic msg q)

  pub callback_unread :
      (h : Delivery e) (procs : TopicProcessors e.Processor) (topic : Bytes) (now : ℤ) (pid : Bytes)
      (meanwhile : e.caches.Store → e.caches.Store) (m : Option PubsubMessage) {f : P2pError}
      → (transform_and_check_message e h now m pid topic).1 ≡ err f
      → pubsub_callback e h procs topic now pid meanwhile m
        ≡ ((transform_and_check_message e h now m pid topic).0, false)
  unfolding pubsub_callback
  callback_unread h procs topic now pid meanwhile m q = ground arith

  -- The id that the processors of a topic give to a message.
  abbrev pub message_id : TopicProcessors e.Processor → Bytes → Option PubsubMessage → Bytes
  message_id procs pid m = elim (new_message e.unmarshal e.id_from_bytes m broadcast) [
    | err f ↦ []
    | ok msg ↦ (process_by_all e (get_list procs).1 msg pid true []).1
  ]

  -- A message that the callback passes on, whatever other callbacks do meanwhile, was read, is at most 600 seconds older and at most 20
  -- seconds newer than the node's time, and was accepted by every processor of its topic.
  pub pubsub_callback_sound :
      (h : Delivery e) (procs : TopicProcessors e.Processor) (topic : Bytes) (now : ℤ) (pid : Bytes)
      (meanwhile : e.caches.Store → e.caches.Store) (m : Option PubsubMessage)
      → (pubsub_callback e h procs topic now pid meanwhile m).1 ≡ true
      → (msg : Message) × (new_message e.unmarshal e.id_from_bytes m broadcast ≡ ok msg)
        × IsTimely now msg
        × All (Accepts msg pid) (get_list procs).1
  pubsub_callback_sound h procs topic now pid meanwhile m passed =
      elim (Result-cases (transform_and_check_message e h now m pid topic).1) [
        | inr (f, q) ↦ absurd (ground (arith, callback_unread h procs topic now pid meanwhile m q))
        | inl (msg, q) ↦
            let (made, valid, kept) = transform_passes h now m pid topic msg q in
            (
              msg,
              made,
              timestamp-IsTimely now msg valid,
              process_by_all-All (get_list procs).1 msg pid []
                  (ground (arith, callback_read h procs topic now pid meanwhile m msg q)),
            )
      ]
