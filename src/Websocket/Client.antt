-- ===== src/Websocket/Client.antt =====
-- websocket/client/client.go and websocket/connection/wsConnClient.go: a client and its connection. What
-- the dialer, the library's connection and the transceiver answer are parameters; the pauses between
-- the rounds of the two loops are left out. A connection of the library is a number, its name.
use mx_chain_communication_g.Common.{
  ℕ, ◌≡◌, refl, ap, ◌∙◌, Bool, true, false, not, ◌&&◌, ◌||◌, ◌==◌, Option, none, some, List, [],
  ◌∷◌, Bytes, bytes_key, same, Result, ok, err, if◌then◌else◌, length, is_some, arith, Option-cases,
  inl, inr,
}
use mx_chain_communication_g.Websocket.{
  WsError, nil_logger, nil_payload_converter, empty_url, zero_value_retry_duration,
  connection_already_open, connection_not_open, invalid_web_socket_url, ArgsTransceiver,
  WsTransceiver, new_transceiver, is_zero,
}

pub record WsConnClient : Type 0 where
  pub conn : Option ℕ
  pub client_id : Bytes

unfoldable pub new_ws_conn_client : WsConnClient
new_ws_conn_client = record { conn = none; client_id = [] }

-- `dialled` is what `Dial` returns.
unfoldable pub open_connection : WsConnClient → Result WsError ℕ → WsConnClient × Option WsError
open_connection wsc dialled = elim wsc.conn [
  | some _ ↦ (wsc, some connection_already_open)
  | none ↦ elim dialled [
    | err failed ↦ (wsc, some failed)
    | ok conn ↦ (record wsc { conn = some conn }, none)
  ]
]

unfoldable pub read_message : WsConnClient → Result WsError Bytes → Result WsError Bytes
read_message wsc read = elim wsc.conn [ none ↦ err connection_not_open | some _ ↦ read ]

unfoldable pub write_message : WsConnClient → Option WsError → Option WsError
write_message wsc written = elim wsc.conn [ none ↦ some connection_not_open | some _ ↦ written ]

abbrev pub is_open : WsConnClient → Bool
is_open wsc = is_some wsc.conn

-- What `Close` of the library's connection returns: nil, an error that says that the connection is
-- closed already, or another error.
pub data Closing : Type 0 where
  closed_now closed_before : Closing
  not_closed : WsError → Closing

unfoldable pub close_connection : WsConnClient → Closing → WsConnClient × Option WsError
close_connection wsc closing = elim wsc.conn [
  | none ↦ (wsc, some connection_not_open)
  | some _ ↦ elim closing [
    | closed_now ↦ (record wsc { conn = none }, none)
    | closed_before ↦ (record wsc { conn = none }, none)
    | not_closed failed ↦ (wsc, some failed)
  ]
]

-- `logger` and `payload_converter` are whether they are not nil.
pub record ArgsWebSocketClient : Type 0 where
  pub logger : Bool
  pub payload_converter : Bool
  pub url : Bytes
  pub drop_messages_if_no_connection : Bool
  pub transceiver_args : ArgsTransceiver

unfoldable pub check_client_args : ArgsWebSocketClient → Option WsError
check_client_args args =
    if not args.logger
    then some nil_logger
    else if not args.payload_converter
    then some nil_payload_converter
    else if length args.url == 0
    then some empty_url
    else if is_zero args.transceiver_args.retry_duration_in_sec
    then some zero_value_retry_duration
    else none

pub record Client : Type 0 where
  pub ws_conn : WsConnClient
  pub transceiver : WsTransceiver
  pub drop_messages_if_no_connection : Bool
  pub closed : Bool

-- "ws" and "wss".
abbrev pub ws_scheme : Bytes
ws_scheme = 119 ∷ 115 ∷ []

abbrev pub wss_scheme : Bytes
wss_scheme = 119 ∷ 115 ∷ 115 ∷ []

-- `scheme` is the scheme of the parsed url, or the error of `url.Parse`.
unfoldable pub new_web_socket_client :
    ArgsWebSocketClient → Result WsError Bytes → Result WsError Client
unfolding check_client_args new_ws_conn_client
new_web_socket_client args scheme = elim (check_client_args args) [
  | some failed ↦ err failed
  | none ↦
      elim (new_transceiver (record args.transceiver_args {
        logger = args.logger;
        payload_converter = args.payload_converter;
      })) [
        | err failed ↦ err failed
        | ok ws_transceiver ↦ elim scheme [
          | err failed ↦ err invalid_web_socket_url
          | ok s ↦
              if same s ws_scheme || same s wss_scheme
              then ok (record {
                ws_conn = new_ws_conn_client;
                transceiver = ws_transceiver;
                drop_messages_if_no_connection = args.drop_messages_if_no_connection;
                closed = false;
              })
              else err invalid_web_socket_url
        ]
      ]
]

-- One round of each of the two goroutines of `start`; `listened` is what `Listen` returns.
unfoldable pub open_round : Client → Result WsError ℕ → Client
unfolding open_connection
open_round c dialled = record c { ws_conn = (open_connection c.ws_conn dialled).0 }

unfoldable pub listen_round : Client → Bool → Closing → Client
unfolding close_connection
listen_round c listened closing =
    if listened then record c { ws_conn = (close_connection c.ws_conn closing).0 } else c

-- `send` is what `Send` of the transceiver does over the connection.
unfoldable pub send :
    Client
    → (WsTransceiver → WsConnClient → WsTransceiver × Option WsError)
    → Client × Option WsError
send c send_over =
    if c.drop_messages_if_no_connection && not (is_open c.ws_conn) then (c, none) else (
      record c { transceiver = (send_over c.transceiver c.ws_conn).0 },
      (send_over c.transceiver c.ws_conn).1,
    )

-- `transceiver_closed` is what `Close` of the transceiver returns; the later error counts.
unfoldable pub close : Client → Option WsError → Closing → Client × Option WsError
unfolding close_connection
close c transceiver_closed closing =
    let (ws_conn, failed) = close_connection c.ws_conn closing in
    let c' = record c { ws_conn = ws_conn; closed = true } in
    elim failed [ some e ↦ (c', some e) | none ↦ (c', transceiver_closed) ]

-- The rounds of a client.
pub data Round : Type 0 where
  opens : Result WsError ℕ → Round
  listens : Bool → Closing → Round

unfoldable pub run : Client → List Round → Client
unfolding open_round listen_round
run c [] = c
run c (opens dialled ∷ rounds) = run (open_round c dialled) rounds
run c (listens listened closing ∷ rounds) = run (listen_round c listened closing) rounds

-- Whether a round leaves the connection open.
abbrev pub open_after : Bool → Round → Bool
open_after open_now (opens (ok conn)) = true
open_after open_now (opens (err failed)) = open_now
open_after open_now (listens listened (not_closed failed)) = open_now
open_after open_now (listens listened closed_now) = open_now && not listened
open_after open_now (listens listened closed_before) = open_now && not listened

abbrev pub open_after_all : Bool → List Round → Bool
open_after_all open_now [] = open_now
open_after_all open_now (r ∷ rounds) = open_after_all (open_after open_now r) rounds

open_round-open :
    (c : Client) (d : Result WsError ℕ)
    → is_open (open_round c d).ws_conn ≡ open_after (is_open c.ws_conn) (opens d)
unfolding open_round open_connection
open_round-open c (ok conn) = elim (Option-cases c.ws_conn.conn) [
  | inl e ↦ ground arith
  | inr (n, e) ↦ ground arith
]
open_round-open c (err failed) = elim (Option-cases c.ws_conn.conn) [
  | inl e ↦ ground arith
  | inr (n, e) ↦ ground arith
]

close_connection-open :
    (wsc : WsConnClient) (k : Closing)
    → is_open (close_connection wsc k).0 ≡ open_after (is_open wsc) (listens true k)
unfolding close_connection
close_connection-open wsc closed_now = elim (Option-cases wsc.conn) [
  | inl e ↦ ground arith
  | inr (n, e) ↦ ground arith
]
close_connection-open wsc closed_before = elim (Option-cases wsc.conn) [
  | inl e ↦ ground arith
  | inr (n, e) ↦ ground arith
]
close_connection-open wsc (not_closed failed) = elim (Option-cases wsc.conn) [
  | inl e ↦ ground arith
  | inr (n, e) ↦ ground arith
]

listen_round-open :
    (c : Client) (b : Bool) (k : Closing)
    → is_open (listen_round c b k).ws_conn ≡ open_after (is_open c.ws_conn) (listens b k)
unfolding listen_round
listen_round-open c true k = close_connection-open c.ws_conn k
listen_round-open c false closed_now = ground arith
listen_round-open c false closed_before = ground arith
listen_round-open c false (not_closed failed) = refl

run-open :
    (c : Client) (b : Bool) (rounds : List Round)
    → is_open c.ws_conn ≡ b
    → is_open (run c rounds).ws_conn ≡ open_after_all b rounds
unfolding run
run-open c b [] h = h
run-open c b (opens d ∷ rounds) h =
    run-open (open_round c d) (open_after b (opens d)) rounds
      (open_round-open c d ∙ ap (λ now. open_after now (opens d)) h)
run-open c b (listens l k ∷ rounds) h =
    run-open (listen_round c l k) (open_after b (listens l k)) rounds
      (listen_round-open c l k ∙ ap (λ now. open_after now (listens l k)) h)

-- A client that drops messages without a connection passes a message to its transceiver exactly when
-- the rounds before left a connection open, that is, when the last round that opened one was not
-- followed by one that closed it; any other message is dropped without an error.
send-dropped :
    (c : Client) (rounds : List Round)
    (send_over : WsTransceiver → WsConnClient → WsTransceiver × Option WsError)
    → is_open c.ws_conn ≡ false
    → (run c rounds).drop_messages_if_no_connection ≡ true
    → (send (run c rounds) send_over).1 ≡ (
        if open_after_all false rounds
        then (send_over (run c rounds).transceiver (run c rounds).ws_conn).1
        else none)
unfolding send
send-dropped c rounds send_over shut drops = ground (arith, run-open c false rounds shut)
