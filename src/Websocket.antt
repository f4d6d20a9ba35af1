-- ===== src/Websocket.antt =====
-- websocket/transceiver/transceiver.go: payloads over a websocket connection, and their
-- acknowledgements.
-- The payload converter, the payload handler and the connection are parameters. An acknowledge
-- channel is a number given when it is made; timers and retries are left out.
pub mod Acknowledge
pub mod Exchange
pub mod Server
pub mod Client
mod Tests
use mx_chain_communication_g.Common.Int.{ℤ, pos, negsuc}
use mx_chain_communication_g.Common.{
  ℕ, suc, ◌+◌, ◌%◌, ◌^◌, Bool, true, false, not, ◌&&◌, Option, none, some, List, [], ◌∷◌, Bytes,
  bytes_key, nat_key, Map, lookup, insert, delete, is_some, if◌then◌else◌, Result, ok, err, length,
  ◌==◌,
}

-- The errors of websocket/data/errors.go that the modelled code returns, beside them a nil logger and an
-- invalid url, and those of its parameters.
pub data WsError : Type 0 where
  nil_payload_converter empty_url no_clients_connected zero_value_retry_duration
        zero_value_ack_timeout ack_timeout expected_ack_was_not_received_on_close
        nil_payload_processor nil_logger connection_already_open connection_not_open
        invalid_web_socket_url :
      WsError
  foreign_ws : ℕ → WsError

-- `PayloadMessage`, `AckMessage`, and any other value of the field `Type`.
pub data MessageType : Type 0 where
  payload_message ack_message : MessageType
  unknown_message : ℕ → MessageType

pub record WsMessage : Type 0 where
  pub with_acknowledge : Bool
  pub counter : ℕ
  pub message_type : MessageType
  pub payload : Bytes
  pub topic : Bytes
  pub version : ℕ

-- A call of `ProcessPayload`.
pub record Processed : Type 0 where
  pub payload : Bytes
  pub topic : Bytes
  pub version : ℕ

-- `made` counts the channels made so far, `closed` has those closed, and `processed` the payloads
-- handed to the payload handler, last one first.
pub record WsTransceiver : Type 0 where
  pub map_ack : Map ℕ ℕ
  pub counter : ℕ
  pub made : ℕ
  pub closed : List ℕ
  pub processed : List Processed
  pub blocking_ack_on_error : Bool
  pub with_acknowledge : Bool
  pub payload_version : ℕ

-- `logger` and `payload_converter` are whether they are not nil.
pub record ArgsTransceiver : Type 0 where
  pub logger : Bool
  pub payload_converter : Bool
  pub retry_duration_in_sec : ℤ
  pub ack_timeout_in_sec : ℤ
  pub blocking_ack_on_error : Bool
  pub with_acknowledge : Bool
  pub payload_version : ℕ

abbrev pub is_zero : ℤ → Bool
is_zero (pos n) = n == 0
is_zero (negsuc n) = false

unfoldable pub check_args : ArgsTransceiver → Option WsError
check_args args =
    if not args.logger
    then some nil_logger
    else if not args.payload_converter
    then some nil_payload_converter
    else if is_zero args.retry_duration_in_sec
    then some zero_value_retry_duration
    else if args.with_acknowledge && is_zero args.ack_timeout_in_sec
    then some zero_value_ack_timeout
    else none

unfoldable pub new_transceiver : ArgsTransceiver → Result WsError WsTransceiver
new_transceiver args = elim (check_args args) [
  | some failed ↦ err failed
  | none ↦ ok (record {
    map_ack = [];
    counter = 0;
    made = 0;
    closed = [];
    processed = [];
    blocking_ack_on_error = args.blocking_ack_on_error;
    with_acknowledge = args.with_acknowledge;
    payload_version = args.payload_version;
  })
]

unfoldable pub handle_ack_message : WsTransceiver → ℕ → WsTransceiver
handle_ack_message wt counter = elim (lookup counter wt.map_ack) [
  | none ↦ wt
  | some ch ↦ record wt { closed = ch ∷ wt.closed; map_ack = delete counter wt.map_ack }
]

-- The channel, the counter and the transceiver after `prepareChanAndCounter`.
pub record Prepared : Type 0 where
  pub transceiver : WsTransceiver
  pub channel : ℕ
  pub local_counter : ℕ

unfoldable pub prepare_chan_and_counter : WsTransceiver → Prepared
prepare_chan_and_counter wt =
    let local_counter = suc wt.counter % 2 ^ 64 in
    record {
      transceiver = record wt {
        counter = local_counter;
        made = suc wt.made;
        map_ack =
            if wt.with_acknowledge then insert local_counter wt.made wt.map_ack else wt.map_ack;
      };
      channel = wt.made;
      local_counter = local_counter;
    }

-- How far `Send` has come: it failed, it is done, or it waits for a channel.
pub data Sending : Type 0 where
  failed_with : WsError → Sending
  done : Sending
  waits_for : ℕ → Sending

-- What wakes `waitForAck`.
pub data Wake : Type 0 where
  by_channel by_timer by_close : Wake

unfoldable pub wait_for_ack : Wake → Option WsError
wait_for_ack by_channel = none
wait_for_ack by_timer = some ack_timeout
wait_for_ack by_close = some expected_ack_was_not_received_on_close

module _ (extract_ws_message : Bytes → Result WsError WsMessage)
    (construct_payload : WsMessage → Result WsError Bytes)
    (process_payload : Processed → Option WsError) where
  -- `sendAckIfNeeded` up to the loop that writes: the bytes of the acknowledgement.
  unfoldable pub ack_if_needed : WsMessage → Option Bytes
  ack_if_needed ws_message =
      if not ws_message.with_acknowledge
      then none
      else elim (construct_payload (record {
        with_acknowledge = false;
        counter = ws_message.counter;
        message_type = ack_message;
        payload = [];
        topic = [];
        version = 0;
      })) [ err failed ↦ none | ok bytes ↦ some bytes ]

  -- The end of `verifyPayloadAndSendAckIfNeeded`, for a payload message.
  unfoldable pub process_message : WsTransceiver → WsMessage → WsTransceiver × Option Bytes
  process_message wt m =
      let call : Processed = record { payload = m.payload; topic = m.topic; version = m.version } in
      let wt' = record wt { processed = call ∷ wt.processed } in
      if is_some (process_payload call) && wt.blocking_ack_on_error
      then (wt', none)
      else (wt', ack_if_needed m)

  -- `verifyPayloadAndSendAckIfNeeded`: the transceiver, and the acknowledgement to write.
  unfoldable pub verify_payload : WsTransceiver → Bytes → WsTransceiver × Option Bytes
  verify_payload wt [] = (wt, none)
  verify_payload wt (b ∷ payload) = elim (extract_ws_message (b ∷ payload)) [
    | err failed ↦ (wt, none)
    | ok m ↦ elim m.message_type [
      | ack_message ↦ (handle_ack_message wt m.counter, none)
      | unknown_message n ↦ (wt, none)
      | payload_message ↦ process_message wt m
    ]
  ]

  -- The message of a `Send`.
  unfoldable pub message_of : WsTransceiver → ℕ → Bytes → Bytes → WsMessage
  message_of wt local_counter payload topic = record {
    with_acknowledge = wt.with_acknowledge;
    counter = local_counter;
    message_type = payload_message;
    payload = payload;
    topic = topic;
    version = wt.payload_version;
  }

  -- `Send` up to the wait; `write` is the connection's `WriteMessage`.
  unfoldable pub send :
      WsTransceiver → Bytes → Bytes → (Bytes → Option WsError) → WsTransceiver × Sending
  send wt payload topic write =
      let p = prepare_chan_and_counter wt in
      elim (construct_payload (message_of wt p.local_counter payload topic)) [
        | err failed ↦ (p.transceiver, failed_with failed)
        | ok new_payload ↦ elim (write new_payload) [
          | some failed ↦ (p.transceiver, failed_with failed)
          | none ↦
              if wt.with_acknowledge
              then (p.transceiver, waits_for p.channel)
              else (p.transceiver, done)
        ]
      ]
