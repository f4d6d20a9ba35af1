-- ===== src/DirectSender/Tests.antt =====
-- The direct sender in small surroundings, and the theorems at concrete inputs.
use mx_chain_communication_g.Common.Int.{pos}
use mx_chain_communication_g.Common.{
  ◌≡◌, ◌≤◌, ◌++◌, refl, true, none, some, List, [], ◌∷◌, Bytes, bytes_key, same, same_refl, arith,
  ok, if◌then◌else◌, bytes_discrete, ℕ_discrete, ltb, count_by,
}
use mx_chain_communication_g.Errors.{invalid_value}
use mx_chain_communication_g.Message.{PubsubMessage, Message, direct, new_message, fill_message}
use mx_chain_communication_g.DirectSender.{
  put_uint64, next_sequence_number, Stream, Conn, get_connection, Surroundings, DirectSender,
  with_sign_prefix, check_and_set_seen_message, check_sig, hand_over, check_fields,
  process_received_direct_message, create_message,
}
use mx_chain_communication_g.DirectSender.Receiving
use mx_chain_communication_g.DirectSender.Receiving.{IsWellFormed, processed_count}

-- The signature of a buffer is the buffer itself.
abbrev surroundings : Surroundings
surroundings = record {
  Seen = List Bytes;
  has = λ s k. ltb 0 (count_by (λ j. same j k) s);
  add = λ s k. k ∷ s;
  encode = λ m. ok m.payload;
  sign = λ b. ok b;
  verify = λ b pid sig. if same b sig then none else some invalid_value;
  sign_prefix = 112 ∷ [];
  unmarshal = λ b.
      some (record { version = 1; payload = b; timestamp = pos 0; signature_on_pid = []; pk = [] });
  id_from_bytes = λ b. ok b;
  handle = λ msg pid. none;
}

program : Unit {0}
unfolding bytes_discrete ℕ_discrete with_sign_prefix check_and_set_seen_message check_sig hand_over
    check_fields process_received_direct_message create_message new_message fill_message
    next_sequence_number put_uint64 get_connection
program = tt

abbrev peer_a : Bytes
peer_a = 65 ∷ []

abbrev sender : DirectSender surroundings
sender = record { counter = 255; has_message_handler = true; seen_messages = [] }

abbrev used : DirectSender surroundings
used = record { counter = 256; has_message_handler = true; seen_messages = [] }

abbrev stream : Stream
stream = record { id = 1; is_expected = true; is_outbound = true }

abbrev conn : Conn
conn = record { local_peer = peer_a; streams = stream ∷ [] }

abbrev sent : PubsubMessage
sent = record {
  sender = peer_a;
  payload = 7 ∷ [];
  seqno = 0 ∷ 0 ∷ 0 ∷ 0 ∷ 0 ∷ 0 ∷ 1 ∷ 0 ∷ [];
  topic = some (84 ∷ []);
  signature = 112 ∷ 7 ∷ [];
  key = none;
}

abbrev received : Message
received = record {
  from_field = peer_a;
  payload_field = 7 ∷ [];
  seq_no_field = 0 ∷ 0 ∷ 0 ∷ 0 ∷ 0 ∷ 0 ∷ 1 ∷ 0 ∷ [];
  topic_field = 84 ∷ [];
  signature_field = 112 ∷ 7 ∷ [];
  key_field = none;
  broadcast_method_field = direct;
  data_field = 7 ∷ [];
  timestamp_field = pos 0;
  peer_field = peer_a;
}

process_received_direct_message_sound_example : IsWellFormed surroundings sent peer_a
unfolding program
process_received_direct_message_sound_example =
    (Receiving.process_received_direct_message_sound surroundings sender sent peer_a refl).0

process_received_direct_message_once_example :
    processed_count surroundings
      (peer_a ++ sent.seqno)
      sender
      ((some sent, peer_a) ∷ (none, peer_a) ∷ (some sent, peer_a) ∷ [])
    ≤ 1
unfolding program
process_received_direct_message_once_example =
    Receiving.process_received_direct_message_once surroundings sender
      ((some sent, peer_a) ∷ (none, peer_a) ∷ (some sent, peer_a) ∷ []) peer_a sent.seqno
      (λ s k j. ground arith)

-- The first of the two is processed.
processed_first :
    processed_count surroundings
      (peer_a ++ sent.seqno)
      sender
      ((some sent, peer_a) ∷ (none, peer_a) ∷ (some sent, peer_a) ∷ [])
    ≡ 1
unfolding program processed_count
processed_first = refl

create_message-received_example :
    (process_received_direct_message surroundings sender (some sent) peer_a).1 ≡ none
unfolding program
create_message-received_example =
    (Receiving.create_message-received surroundings sender used sender (84 ∷ []) (7 ∷ []) conn sent
      received (λ b sig h. ground (arith, same_refl b)) refl refl refl refl).2
