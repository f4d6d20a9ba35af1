-- ===== src/Websocket/Acknowledge.antt =====
-- The acknowledgements of websocket/transceiver/transceiver.go.
use mx_chain_communication_g.Common.{
  ℕ, suc, ◌%◌, ◌^◌, ◌≤◌, ◌<◌, ◌≡◌, ◌⊎◌, inl, inr, refl, sym, subst, Option, some, List, [], ◌∷◌,
  Bytes, nat_key, lookup, delete, lookup-insert, lookup-delete, same_refl, same→eq, Result, ◌==◌,
  count_by, arith, Option-cases, Result-cases,
}
use mx_chain_communication_g.Websocket.{
  WsError, MessageType, payload_message, ack_message, unknown_message, WsMessage, Processed,
  WsTransceiver, handle_ack_message, prepare_chan_and_counter, Sending, process_message,
  verify_payload, send,
}

-- How often a channel was closed.
abbrev pub closes : WsTransceiver → ℕ → ℕ
closes wt ch = count_by (λ c. c == ch) wt.closed

-- Every entry waits for a channel of its own that is open, and no channel was closed twice.
pub record IsPending (wt : WsTransceiver) : Type 0 where
  pub old : (n ch : ℕ) → lookup n wt.map_ack ≡ some ch → ch < wt.made
  pub apart : (m n ch : ℕ) → lookup m wt.map_ack ≡ some ch → lookup n wt.map_ack ≡ some ch → m ≡ n
  pub waiting : (n ch : ℕ) → lookup n wt.map_ack ≡ some ch → closes wt ch ≡ 0
  pub past : (ch : ℕ) → wt.made ≤ ch → closes wt ch ≡ 0
  pub once : (ch : ℕ) → closes wt ch ≤ 1

prepare-IsPending :
    (wt : WsTransceiver) → IsPending wt → IsPending (prepare_chan_and_counter wt).transceiver
unfolding prepare_chan_and_counter
prepare-IsPending wt v =
    let local = suc wt.counter % 2 ^ 64 in
    record {
      old = λ n ch e. ground (arith, lookup-insert local n wt.made wt.map_ack, v.old n ch);
      apart = λ m n ch e f. ground (
        arith,
        lookup-insert local m wt.made wt.map_ack,
        lookup-insert local n wt.made wt.map_ack,
        v.old m ch,
        v.old n ch,
        v.apart m n ch,
        same→eq local m,
        same→eq local n,
      );
      waiting = λ n ch e.
          ground (arith, lookup-insert local n wt.made wt.map_ack, v.waiting n ch, v.past wt.made);
      past = λ ch le. v.past ch (omega arith);
      once = v.once;
    }

-- The transceiver after an acknowledgement that is waited for.
abbrev acknowledged : WsTransceiver → ℕ → ℕ → WsTransceiver
acknowledged wt counter ch = record wt {
  closed = ch ∷ wt.closed;
  map_ack = delete counter wt.map_ack;
}

acknowledged-IsPending :
    (wt : WsTransceiver) (counter ch : ℕ)
    → IsPending wt
    → lookup counter wt.map_ack ≡ some ch
    → IsPending (acknowledged wt counter ch)
acknowledged-IsPending wt counter ch v here = record {
  old = λ n c e. ground (arith, lookup-delete counter n wt.map_ack, v.old n c);
  apart = λ m n c e f. ground (
    arith,
    lookup-delete counter m wt.map_ack,
    lookup-delete counter n wt.map_ack,
    v.apart m n c,
  );
  waiting = λ n c e. ground (
    arith,
    lookup-delete counter n wt.map_ack,
    v.waiting n c,
    v.apart counter n ch here,
    same_refl n,
  );
  past = λ c le. ground (arith, v.past c le, v.old counter ch here);
  once = λ c. ground (arith, v.once c, v.waiting counter ch here);
}

handle_ack_message-IsPending :
    (wt : WsTransceiver) (counter : ℕ) → IsPending wt → IsPending (handle_ack_message wt counter)
unfolding handle_ack_message
handle_ack_message-IsPending wt counter v = elim (Option-cases (lookup counter wt.map_ack)) [
  | inl e ↦ subst IsPending (ground arith) v
  | inr (ch, e) ↦ subst IsPending (ground arith) (acknowledged-IsPending wt counter ch v e)
]

pub data Call : Type 0 where
  receive : Bytes → Call
  send_call : Bytes → Bytes → Option WsError → Call

module _ (extract_ws_message : Bytes → Result WsError WsMessage)
    (construct_payload : WsMessage → Result WsError Bytes)
    (process_payload : Processed → Option WsError) where
  process_message-handled :
      (wt : WsTransceiver) (m : WsMessage)
      → (process_message extract_ws_message construct_payload process_payload wt m).0 ≡ record wt {
        processed =
            record { payload = m.payload; topic = m.topic; version = m.version } ∷ wt.processed;
      }
  unfolding process_message
  process_message-handled wt m = ground arith

  process_message-IsPending :
      (wt : WsTransceiver) (m : WsMessage)
      → IsPending wt
      → IsPending (process_message extract_ws_message construct_payload process_payload wt m).0
  process_message-IsPending wt m v =
      subst IsPending (sym (process_message-handled wt m))
        (record { old = v.old; apart = v.apart; waiting = v.waiting; past = v.past; once = v.once })

  type_cases :
      (t : MessageType)
      → (t ≡ payload_message) ⊎ ((t ≡ ack_message) ⊎ ((n : ℕ) × (t ≡ unknown_message n)))
  type_cases payload_message = inl refl
  type_cases ack_message = inr (inl refl)
  type_cases (unknown_message n) = inr (inr (n, refl))

  abbrev pub verified : WsTransceiver → Bytes → WsTransceiver × Option Bytes
  verified = verify_payload extract_ws_message construct_payload process_payload

  verify_payload-IsPending :
      (wt : WsTransceiver) (payload : Bytes) → IsPending wt → IsPending (verified wt payload).0
  unfolding verify_payload
  verify_payload-IsPending wt [] v = v
  verify_payload-IsPending wt (b ∷ payload) v =
      elim (Result-cases (extract_ws_message (b ∷ payload))) [
        | inr (failed, e) ↦ subst IsPending (ground arith) v
        | inl (m, e) ↦ elim (type_cases m.message_type) [
          | inl q ↦ subst IsPending (ground arith) (process_message-IsPending wt m v)
          | inr (inl q) ↦
              subst IsPending (ground arith) (handle_ack_message-IsPending wt m.counter v)
          | inr (inr (n, q)) ↦ subst IsPending (ground arith) v
        ]
      ]

  abbrev pub sent :
      WsTransceiver → Bytes → Bytes → (Bytes → Option WsError) → WsTransceiver × Sending
  sent = send extract_ws_message construct_payload process_payload

  send-prepares :
      (wt : WsTransceiver) (payload topic : Bytes) (write : Bytes → Option WsError)
      → (sent wt payload topic write).0 ≡ (prepare_chan_and_counter wt).transceiver
  unfolding send
  send-prepares wt payload topic write = ground arith

  -- The calls that change a transceiver: a message that arrives, and a `Send` with the result of its
  -- write.
  unfoldable pub run : WsTransceiver → List Call → WsTransceiver
  run wt [] = wt
  run wt (receive payload ∷ calls) = run (verified wt payload).0 calls
  run wt (send_call payload topic write ∷ calls) = run (sent wt payload topic (λ b. write)).0 calls

  -- Whatever a transceiver sends and receives, and in whichever order, every entry of its map goes on
  -- waiting for a channel of its own that is open, and no channel is closed twice.
  pub run-IsPending :
      (wt : WsTransceiver) (calls : List Call) → IsPending wt → IsPending (run wt calls)
  unfolding run
  run-IsPending wt [] v = v
  run-IsPending wt (receive payload ∷ calls) v =
      run-IsPending (verified wt payload).0 calls (verify_payload-IsPending wt payload v)
  run-IsPending wt (send_call payload topic write ∷ calls) v =
      run-IsPending (sent wt payload topic (λ b. write)).0 calls (
        subst IsPending (sym (send-prepares wt payload topic (λ b. write)))
          (prepare-IsPending wt v))
