-- ===== src/Websocket/Exchange.antt =====
-- A payload of websocket/transceiver/transceiver.go on its way to the other side, and its
-- acknowledgement on the way back.
use mx_chain_communication_g.Common.{
  ℕ, suc, ◌%◌, ◌^◌, ◌<◌, ◌≡◌, refl, ap, ◌∙◌, true, false, Option, none, some, [], ◌∷◌, Bytes,
  nat_key, lookup, insert, lookup-insert, lookup-delete, same_refl, Result, ok, length, arith,
}
use mx_chain_communication_g.Websocket.{
  WsError, payload_message, ack_message, WsMessage, Processed, WsTransceiver, handle_ack_message,
  prepare_chan_and_counter, Sending, waits_for, ack_if_needed, process_message, verify_payload,
  message_of, send,
}

-- The acknowledgement of the message with a counter.
abbrev pub ack_of : ℕ → WsMessage
ack_of counter = record {
  with_acknowledge = false;
  counter = counter;
  message_type = ack_message;
  payload = [];
  topic = [];
  version = 0;
}

module _ (extract_ws_message : Bytes → Result WsError WsMessage)
    (construct_payload : WsMessage → Result WsError Bytes)
    (process_payload : Processed → Option WsError) where
  abbrev pub sent :
      WsTransceiver → Bytes → Bytes → (Bytes → Option WsError) → WsTransceiver × Sending
  sent = send extract_ws_message construct_payload process_payload

  abbrev pub verified : WsTransceiver → Bytes → WsTransceiver × Option Bytes
  verified = verify_payload extract_ws_message construct_payload process_payload

  -- The message of the next `Send`.
  abbrev pub next_message : WsTransceiver → Bytes → Bytes → WsMessage
  next_message wt payload topic =
      message_of extract_ws_message construct_payload process_payload wt (suc wt.counter % 2 ^ 64)
        payload topic

  abbrev call_of : WsMessage → Processed
  call_of m = record { payload = m.payload; topic = m.topic; version = m.version }

  sent_waits :
      (wt : WsTransceiver) (payload topic wire : Bytes) (write : Bytes → Option WsError)
      → wt.with_acknowledge ≡ true
      → construct_payload (next_message wt payload topic) ≡ ok wire
      → write wire ≡ none
      → sent wt payload topic write ≡ ((prepare_chan_and_counter wt).transceiver, waits_for wt.made)
  unfolding send prepare_chan_and_counter
  sent_waits wt payload topic wire write acks made written = ground arith

  verified_payload :
      (rc : WsTransceiver) (m : WsMessage) (wire ack : Bytes)
      → 0 < length wire
      → extract_ws_message wire ≡ ok m
      → m.message_type ≡ payload_message
      → m.with_acknowledge ≡ true
      → process_payload (call_of m) ≡ none
      → construct_payload (ack_of m.counter) ≡ ok ack
      → verified rc wire ≡ (record rc { processed = call_of m ∷ rc.processed }, some ack)
  unfolding verify_payload process_message ack_if_needed
  verified_payload rc m [] ack long read kind acks processed made = absurd (omega arith)
  verified_payload rc m (b ∷ wire) ack long read kind acks processed made = ground arith

  verified_ack :
      (wt : WsTransceiver) (counter : ℕ) (ack : Bytes)
      → 0 < length ack
      → extract_ws_message ack ≡ ok (ack_of counter)
      → verified wt ack ≡ (handle_ack_message wt counter, none)
  unfolding verify_payload
  verified_ack wt counter [] long read = absurd (omega arith)
  verified_ack wt counter (b ∷ ack) long read = ground arith

  handle_ack-next :
      (wt : WsTransceiver)
      → wt.with_acknowledge ≡ true
      → let n = suc wt.counter % 2 ^ 64 in
        let wt' = handle_ack_message (prepare_chan_and_counter wt).transceiver n in
        (wt'.closed ≡ wt.made ∷ wt.closed) × (lookup n wt'.map_ack ≡ none)
  unfolding prepare_chan_and_counter handle_ack_message
  handle_ack-next wt acks =
      let n = suc wt.counter % 2 ^ 64 in
      (
        ground (arith, lookup-insert n n wt.made wt.map_ack, same_refl n),
        ground (
          arith,
          lookup-insert n n wt.made wt.map_ack,
          lookup-delete n n (insert n wt.made wt.map_ack),
          same_refl n,
        ),
      )

  -- With acknowledgements on and a connection that writes, Send waits for a new channel; the other
  -- side hands the payload, its topic and the version of the sender to its payload handler, and when
  -- that accepts it answers with an acknowledgement, on which the sender closes that very channel and
  -- forgets the counter. What the converter constructs is not empty, and it extracts what it
  -- constructed.
  pub send-acknowledged :
      (wt rc : WsTransceiver) (payload topic wire ack : Bytes) (write : Bytes → Option WsError)
      → ((m : WsMessage) (b : Bytes)
          → construct_payload m ≡ ok b
          → (extract_ws_message b ≡ ok m) × (0 < length b))
      → wt.with_acknowledge ≡ true
      → construct_payload (next_message wt payload topic) ≡ ok wire
      → construct_payload (ack_of (suc wt.counter % 2 ^ 64)) ≡ ok ack
      → write wire ≡ none
      → process_payload (record { payload = payload; topic = topic; version = wt.payload_version })
        ≡ none
      → let sending = sent wt payload topic write in
        let receiving = verified rc wire in
        let answered = verified sending.0 ack in
        (sending.1 ≡ waits_for wt.made)
        × (receiving.1 ≡ some ack)
        × (receiving.0.processed
            ≡ record { payload = payload; topic = topic; version = wt.payload_version }
              ∷ rc.processed)
        × (answered.0.closed ≡ wt.made ∷ wt.closed)
        × (lookup (suc wt.counter % 2 ^ 64) answered.0.map_ack ≡ none)
  unfolding message_of
  send-acknowledged wt rc payload topic wire ack write codec acks made ack_made written processed =
      let n = suc wt.counter % 2 ^ 64 in
      let m = next_message wt payload topic in
      let (read, long) = codec m wire made in
      let (ack_read, ack_long) = codec (ack_of n) ack ack_made in
      let sends = sent_waits wt payload topic wire write acks made written in
      let receives = verified_payload rc m wire ack long read refl acks processed ack_made in
      let answers =
        verified_ack (prepare_chan_and_counter wt).transceiver n ack ack_long ack_read in
      let (closes, forgets) = handle_ack-next wt acks in
      (
        ap (λ r. r.1) sends,
        ap (λ r. r.1) receives,
        ap (λ r. r.0.processed) receives,
        ap (λ r. (verified r.0 ack).0.closed) sends ∙ ap (λ r. r.0.closed) answers ∙ closes,
        ap (λ r. lookup n (verified r.0 ack).0.map_ack) sends
            ∙ ap (λ r. lookup n r.0.map_ack) answers
            ∙ forgets,
      )
