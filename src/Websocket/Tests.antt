-- ===== src/Websocket/Tests.antt =====
-- Two transceivers over a small wire format, and the theorems at concrete inputs.
use mx_chain_communication_g.Common.{
  ℕ, ◌≡◌, ◌<◌, refl, Bool, true, false, Option, none, some, List, [], ◌∷◌, Bytes, lookup, insert,
  delete, ◌==◌, if◌then◌else◌, Result, ok, err, length, arith, nat_key, ℕ_discrete,
}
use mx_chain_communication_g.Websocket.{
  WsError, foreign_ws, no_clients_connected, MessageType, payload_message, ack_message, WsMessage,
  Processed, WsTransceiver, handle_ack_message, prepare_chan_and_counter, ack_if_needed,
  process_message, verify_payload, message_of, send,
}
use mx_chain_communication_g.Websocket.Acknowledge
use mx_chain_communication_g.Websocket.Acknowledge.{IsPending, Call, receive, send_call, run}
use mx_chain_communication_g.Common.Int.{pos}
use mx_chain_communication_g.Websocket.Server as ServerLaws
use mx_chain_communication_g.Websocket.Server.{
  ArgsWebSocketServer, Server, new_web_socket_server, connect_all, send_payload,
}
use mx_chain_communication_g.Websocket.Exchange
use mx_chain_communication_g.Websocket.Exchange.{ack_of}

abbrev payload_of : ℕ → Bytes → WsMessage
payload_of counter payload = record {
  with_acknowledge = true;
  counter = counter;
  message_type = payload_message;
  payload = payload;
  topic = [];
  version = 7;
}

-- Acknowledgements start with 0, payloads of version 7 without a topic with 1.
abbrev construct_fields : Bool → ℕ → MessageType → Bytes → Bytes → ℕ → Result WsError Bytes
construct_fields false n ack_message [] [] v =
    if v == 0 then ok (0 ∷ n ∷ []) else err (foreign_ws 1)
construct_fields true n payload_message p [] v =
    if v == 7 then ok (1 ∷ n ∷ p) else err (foreign_ws 2)
construct_fields _ n t p s v = err (foreign_ws 3)

abbrev construct : WsMessage → Result WsError Bytes
construct m =
    construct_fields m.with_acknowledge m.counter m.message_type m.payload m.topic m.version

abbrev extract : Bytes → Result WsError WsMessage
extract (k ∷ n ∷ p) = if k == 0 then ok (ack_of n) else ok (payload_of n p)
extract _ = err (foreign_ws 4)

abbrev accept : Processed → Option WsError
accept call = none

codec_fields :
    (acks : Bool) (n : ℕ) (t : MessageType) (p s : Bytes) (v : ℕ) (b : Bytes)
    → construct_fields acks n t p s v ≡ ok b
    → (extract b
        ≡ ok (record {
          with_acknowledge = acks;
          counter = n;
          message_type = t;
          payload = p;
          topic = s;
          version = v;
        }))
      × (0 < length b)
codec_fields false n ack_message [] [] v b h = (ground arith, ground arith)
codec_fields false n ack_message (_ ∷ p) s v b h = absurd (ground arith)
codec_fields false n ack_message [] (_ ∷ s) v b h = absurd (ground arith)
codec_fields true n payload_message p [] v b h = (ground arith, ground arith)
codec_fields true n payload_message p (_ ∷ s) v b h = absurd (ground arith)
codec_fields false n payload_message p s v b h = absurd (ground arith)
codec_fields true n ack_message p s v b h = absurd (ground arith)
codec_fields acks n (MessageType.unknown_message k) p s v b h = absurd (ground arith)

program : Unit {0}
unfolding lookup insert delete ℕ_discrete handle_ack_message prepare_chan_and_counter ack_if_needed
    process_message verify_payload message_of send run
program = tt

abbrev start : WsTransceiver
start = record {
  map_ack = [];
  counter = 0;
  made = 0;
  closed = [];
  processed = [];
  blocking_ack_on_error = true;
  with_acknowledge = true;
  payload_version = 7;
}

start-IsPending : IsPending start
unfolding program
start-IsPending = record {
  old = λ n ch e. absurd (ground arith);
  apart = λ m n ch e f. absurd (ground arith);
  waiting = λ n ch e. refl;
  past = λ ch le. refl;
  once = λ ch. omega arith;
}

-- A send that fails, one that waits, its acknowledgement, and the same acknowledgement once more.
abbrev calls : List Call
calls =
    send_call (5 ∷ []) [] (some (foreign_ws 5))
    ∷ send_call (6 ∷ []) [] none
    ∷ receive (0 ∷ 2 ∷ [])
    ∷ receive (0 ∷ 2 ∷ [])
    ∷ []

-- The entry of the send that failed stays.
run-calls : (run extract construct accept start calls).map_ack ≡ (1, 0) ∷ []
unfolding program
run-calls = refl

run-IsPending_example : IsPending (run extract construct accept start calls)
run-IsPending_example =
    Acknowledge.run-IsPending extract construct accept start calls start-IsPending

send-acknowledged_example :
    (verify_payload extract construct accept
      (send extract construct accept start (6 ∷ []) [] (λ b. none)).0
      (0 ∷ 1 ∷ [])).0.closed
    ≡ 0 ∷ []
unfolding program
send-acknowledged_example =
    (Exchange.send-acknowledged extract construct accept start start (6 ∷ []) [] (1 ∷ 1 ∷ 6 ∷ [])
      (0 ∷ 1 ∷ []) (λ b. none)
      (λ m b h.
        codec_fields m.with_acknowledge m.counter m.message_type m.payload m.topic m.version b h)
      refl refl refl refl refl).3

abbrev server_args : ArgsWebSocketServer
server_args = record {
  logger = true;
  payload_converter = true;
  retry_duration_in_seconds = pos 1;
  ack_timeout_in_seconds = pos 0;
  blocking_ack_on_error = true;
  with_acknowledge = true;
  drop_messages_if_no_connection = false;
  url = 58 ∷ [];
  payload_version = 1;
}

new_web_socket_server-refuses_clients_example :
    (s : Server) × (new_web_socket_server server_args ≡ ok s)
    × (connect_all s ((1 ∷ []) ∷ []) ≡ s)
    × ((send_payload (connect_all s ((1 ∷ []) ∷ [])) (λ id wt. wt)).1 ≡ some no_clients_connected)
new_web_socket_server-refuses_clients_example =
    ServerLaws.new_web_socket_server-refuses_clients server_args ((1 ∷ []) ∷ []) (λ id wt. wt) refl
      refl refl refl refl refl
