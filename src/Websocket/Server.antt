-- ===== src/Websocket/Server.antt =====
-- websocket/server/server.go and websocket/server/transceiversAndConnHolder.go: the transceivers of
-- the connected clients. A connection is its id; the http server, and the wait for acknowledgements
-- inside each `Send`, are left out. Go ranges over the clients in any order.
use mx_chain_communication_g.Common.Int.{ℤ, pos}
use mx_chain_communication_g.Common.{
  ℕ, ◌≡◌, refl, ap, ◌∙◌, Bool, true, false, not, ◌&&◌, Option, none, some, List, [], ◌∷◌, Bytes,
  bytes_key, Map, insert, delete, if◌then◌else◌, Result, ok, err, length, ◌==◌, arith,
}
use mx_chain_communication_g.Websocket.{
  WsError, nil_logger, nil_payload_converter, empty_url, no_clients_connected,
  zero_value_retry_duration, WsTransceiver, is_zero, check_args, new_transceiver,
}

-- `logger` and `payload_converter` are whether they are not nil.
pub record ArgsWebSocketServer : Type 0 where
  pub logger : Bool
  pub payload_converter : Bool
  pub retry_duration_in_seconds : ℤ
  pub ack_timeout_in_seconds : ℤ
  pub blocking_ack_on_error : Bool
  pub with_acknowledge : Bool
  pub drop_messages_if_no_connection : Bool
  pub url : Bytes
  pub payload_version : ℕ

pub record Server : Type 0 where
  pub args : ArgsWebSocketServer
  pub transceivers : Map Bytes WsTransceiver

unfoldable pub check_server_args : ArgsWebSocketServer → Option WsError
check_server_args args =
    if not args.logger
    then some nil_logger
    else if not args.payload_converter
    then some nil_payload_converter
    else if length args.url == 0
    then some empty_url
    else if is_zero args.retry_duration_in_seconds
    then some zero_value_retry_duration
    else none

unfoldable pub new_web_socket_server : ArgsWebSocketServer → Result WsError Server
new_web_socket_server args = elim (check_server_args args) [
  | some failed ↦ err failed
  | none ↦ ok (record { args = args; transceivers = [] })
]

unfoldable pub add_transceiver_and_conn : Server → Bytes → WsTransceiver → Server
add_transceiver_and_conn s id wt = record s { transceivers = insert id wt s.transceivers }

unfoldable pub remove_client : Server → Bytes → Server
remove_client s id = record s { transceivers = delete id s.transceivers }

-- `connectionHandler`, up to the goroutine's `Listen`.
unfoldable pub connection_handler : Server → Bytes → Server
connection_handler s id =
    elim (new_transceiver (record {
      logger = s.args.logger;
      payload_converter = s.args.payload_converter;
      retry_duration_in_sec = s.args.retry_duration_in_seconds;
      ack_timeout_in_sec = s.args.ack_timeout_in_seconds;
      blocking_ack_on_error = s.args.blocking_ack_on_error;
      with_acknowledge = s.args.with_acknowledge;
      payload_version = s.args.payload_version;
    })) [ err failed ↦ s | ok wt ↦ add_transceiver_and_conn s id wt ]

unfoldable pub connect_all : Server → List Bytes → Server
connect_all s [] = s
connect_all s (id ∷ ids) = connect_all (connection_handler s id) ids

-- `Send`: `send_one` is the `Send` of a transceiver to its connection, whose error is only logged.
unfoldable pub send_to :
    (Bytes → WsTransceiver → WsTransceiver) → Map Bytes WsTransceiver → Map Bytes WsTransceiver
send_to send_one [] = []
send_to send_one ((id, wt) ∷ m) = (id, send_one id wt) ∷ send_to send_one m

unfoldable pub send_payload :
    Server → (Bytes → WsTransceiver → WsTransceiver) → Server × Option WsError
send_payload s send_one =
    if length s.transceivers == 0 && not s.args.drop_messages_if_no_connection
    then (s, some no_clients_connected)
    else (record s { transceivers = send_to send_one s.transceivers }, none)

connection_handler_refuses :
    (s : Server) (id : Bytes)
    → s.args.with_acknowledge ≡ true
    → s.args.ack_timeout_in_seconds ≡ pos 0
    → connection_handler s id ≡ s
unfolding connection_handler new_transceiver check_args
connection_handler_refuses s id acks zero_timeout = ground arith

connect_all_refuses :
    (s : Server) (ids : List Bytes)
    → s.args.with_acknowledge ≡ true
    → s.args.ack_timeout_in_seconds ≡ pos 0
    → connect_all s ids ≡ s
unfolding connect_all
connect_all_refuses s [] acks zero_timeout = refl
connect_all_refuses s (id ∷ ids) acks zero_timeout =
    ap (λ s'. connect_all s' ids) (connection_handler_refuses s id acks zero_timeout)
    ∙ connect_all_refuses s ids acks zero_timeout

-- A server with acknowledgements and a zero timeout for them is accepted when it has a logger, a
-- payload converter, a url and a retry duration. It then holds no client, whichever clients connect:
-- a Send reports that there are none, or nothing when the server drops messages.
pub new_web_socket_server-refuses_clients :
    (args : ArgsWebSocketServer) (ids : List Bytes)
    (send_one : Bytes → WsTransceiver → WsTransceiver)
    → args.logger ≡ true
    → args.payload_converter ≡ true
    → args.with_acknowledge ≡ true
    → args.ack_timeout_in_seconds ≡ pos 0
    → is_zero args.retry_duration_in_seconds ≡ false
    → (length args.url == 0) ≡ false
    → (s : Server) × (new_web_socket_server args ≡ ok s)
      × (connect_all s ids ≡ s)
      × ((send_payload (connect_all s ids) send_one).1
          ≡ (if args.drop_messages_if_no_connection then none else some no_clients_connected))
unfolding new_web_socket_server check_server_args send_payload
new_web_socket_server-refuses_clients args ids send_one logs converts acks zero_timeout retries
      has_url =
    let s : Server = record { args = args; transceivers = [] } in
    let refuses = connect_all_refuses s ids acks zero_timeout in
    (s, ground arith, refuses, ap (λ s'. (send_payload s' send_one).1) refuses ∙ ground arith)
