-- ===== src/MessagesHandler/Tests.antt =====
-- The messages handler in small surroundings, and the theorems at concrete inputs.
use mx_chain_communication_g.Common.Int.{ℤ, pos, negsuc, ◌+ℤ◌, ◌-ℤ◌}
use mx_chain_communication_g.LoadBalancer.{
  new_outgoing_channel_load_balancer, get_channel_or_default,
}
use mx_chain_communication_g.LoadBalancer.Order.{new_outgoing_channel_load_balancer-IsBalanced}
use mx_chain_communication_g.LoadBalancer.Forwarding.{SendableData}
use mx_chain_communication_g.MessagesHandler.Broadcast
use mx_chain_communication_g.MessagesHandler.Broadcast.{
  Outgoing, broadcast_on_channel_blocking, process_sendable, joined, refusal, after_send, is_closed,
  send_on_channel,
}
use mx_chain_communication_g.Common.{
  ℕ, ◌≡◌, ◌⊎◌, refl, inl, Bool, true, false, Option, none, some, List, [], ◌∷◌, Bytes, bytes_key,
  Map, lookup, insert, delete, lookup-insert, lookup-delete, same, same_refl, same→eq, ltb, ◌==◌,
  bytes_discrete, ℕ_discrete, arith, if◌then◌else◌, All, count_by, is_some, ok, contains,
  starts_with, returns, panics, cut,
}
use mx_chain_communication_g.Errors.{P2pError, foreign}
use mx_chain_communication_g.Cacher.{Cacher, IsCache, IsLru}
use mx_chain_communication_g.Message.{
  PubsubMessage, TopicMessage, Message, broadcast, new_message, fill_message,
}
use mx_chain_communication_g.MessagesHandler.{
  PubSub, IsPubSub, TopicProcessors, MessagesHandler, processors_of, set_processors,
  unregister_message_processor, unregister_all_message_processors, register_message_processor,
  add_processor, open_topic, add_topic_processor, get_list,
}
use mx_chain_communication_g.MessagesHandler.LastProcessor
use mx_chain_communication_g.MessagesHandler.Registration
use mx_chain_communication_g.MessagesHandler.Registration.{
  Call, register, unregister, unregister_all, run, IsRegistered,
}
use mx_chain_communication_g.MessagesHandler.Delivery.{
  validate_message_by_timestamp, PeerDenialEvaluator, IsDenialEvaluator, Surroundings, Delivery,
  blacklist_pid, blacklist_both, process_debug_message, check_message, transform_and_check_message,
  is_equivalent_message_first_broadcast, process_by_all, size_of, pubsub_callback, process_direct,
  process_received_message, check_sendable_data, create_message_bytes, send_direct_to_self,
  send_to_connected_peer, increase_rating_if_needed,
}
use mx_chain_communication_g.LoadBalancer.{
  append_channel, add_channel, remove_channel, remove_index, index_from, default_send_channel,
  OutgoingChannelLoadBalancer,
}
use mx_chain_communication_g.MessagesHandler.Topics
use mx_chain_communication_g.MessagesHandler.Topics.{
  TopicLibrary, JoinedTopics, listed, has_topic, subscribe_topic, create_topic,
}
use mx_chain_communication_g.MessagesHandler.Equivalent
use mx_chain_communication_g.MessagesHandler.Equivalent.{Visit, visit, visit_all}
use mx_chain_communication_g.MessagesHandler.Filtering
use mx_chain_communication_g.MessagesHandler.Filtering.{IsTimely, Accepts, message_id}
use mx_chain_communication_g.MessagesHandler.Direct
use mx_chain_communication_g.MessagesHandler.Direct.{IsDenied, OnlyIncreases, self_message}

-- A pubsub library that keeps a set of topics.
abbrev holds : Map Bytes Bool → Bytes → Bool
holds s t = is_some (lookup t s)

abbrev pub_sub : PubSub
pub_sub = record {
  State = Map Bytes Bool;
  registered = holds;
  register_topic_validator =
      λ s t. if holds s t then (s, some (foreign 1)) else (insert t true s, none);
  unregister_topic_validator =
      λ s t. if holds s t then (delete t s, none) else (s, some (foreign 2));
}

pub_sub-IsPubSub : IsPubSub pub_sub
pub_sub-IsPubSub = record {
  register_free = λ s t free. ground arith;
  registered-register = λ s t j free. ground (arith, lookup-insert t j true s);
  unregister_present = λ s t there. ground arith;
  unregister_missing = λ s t free. ground arith;
  registered-unregister = λ s t j. ground (arith, lookup-delete t j s, same→eq t j);
}

-- A cache that drops nothing.
abbrev cacher : Cacher Unit
cacher = record {
  Store = Map Bytes Unit;
  get = λ s k. lookup k s;
  touch = λ s k. s;
  put = λ s k v. insert k v s;
  remove = λ s k. delete k s;
}

cacher-IsCache : IsCache cacher
cacher-IsCache = record {
  get-touch = λ s k j. refl;
  get-put_self = λ s k v. ground (arith, lookup-insert k k v s, same_refl k);
  get-put_ne = λ s k j v apart. inl (ground (arith, lookup-insert k j v s));
  get-remove = λ s k j. lookup-delete k j s;
}

abbrev denial : PeerDenialEvaluator
denial = record {
  State = List Bytes;
  is_denied = λ s pid. ltb 0 (count_by (λ k. same k pid) s);
  upsert_peer_id = λ s pid seconds. (pid ∷ s, none);
}

denial-IsDenialEvaluator : IsDenialEvaluator denial
denial-IsDenialEvaluator = record {
  is_denied-upsert = λ s pid seconds stored. ground (arith, same_refl pid);
  is_denied-keeps = λ s pid other seconds denied. ground arith;
}

-- A wire format for messages of version 1 without signature fields: the timestamp, then the payload.
abbrev marshal_fields : ℕ → Bytes → ℤ → Bytes → Bytes → Option Bytes
marshal_fields version payload (pos n) [] [] = if version == 1 then some (n ∷ payload) else none
marshal_fields version payload _ _ _ = none

abbrev marshal : TopicMessage → Option Bytes
marshal t = marshal_fields t.version t.payload t.timestamp t.signature_on_pid t.pk

abbrev unmarshal : Bytes → Option TopicMessage
unmarshal [] = none
unmarshal (n ∷ payload) =
    some
      (record { version = 1; payload = payload; timestamp = pos n; signature_on_pid = []; pk = [] })

marshal_fields-unmarshal :
    (version : ℕ) (payload : Bytes) (timestamp : ℤ) (signature pk w : Bytes)
    → marshal_fields version payload timestamp signature pk ≡ some w
    → unmarshal w
      ≡ some (record {
        version = version;
        payload = payload;
        timestamp = timestamp;
        signature_on_pid = signature;
        pk = pk;
      })
marshal_fields-unmarshal version payload (pos n) [] [] w h = ground arith
marshal_fields-unmarshal version payload (pos n) [] (b ∷ pk) w h = absurd (ground arith)
marshal_fields-unmarshal version payload (pos n) (b ∷ signature) pk w h = absurd (ground arith)
marshal_fields-unmarshal version payload (negsuc n) signature pk w h = absurd (ground arith)

-- A processor accepts every message, and gives its payload as the id.
abbrev surroundings : Surroundings
surroundings = record {
  caches = cacher;
  denial = denial;
  Processor = Unit;
  process = λ q msg pid. (msg.data_field, none);
  unmarshal = unmarshal;
  marshal = marshal;
  id_from_bytes = λ bytes. ok bytes;
  topic_request_suffix = 82 ∷ [];
}

program : Unit {0}
unfolding lookup insert delete bytes_discrete ℕ_discrete processors_of set_processors
    unregister_message_processor unregister_all_message_processors register_message_processor
    add_processor open_topic add_topic_processor get_list run validate_message_by_timestamp
    blacklist_pid blacklist_both process_debug_message check_message transform_and_check_message
    is_equivalent_message_first_broadcast process_by_all size_of pubsub_callback process_direct
    process_received_message check_sendable_data create_message_bytes send_direct_to_self
    send_to_connected_peer increase_rating_if_needed new_message fill_message contains starts_with
    ◌+ℤ◌ ◌-ℤ◌
program = tt

abbrev topic : Bytes
topic = 84 ∷ []

abbrev peer_a : Bytes
peer_a = 65 ∷ []

abbrev peer_b : Bytes
peer_b = 66 ∷ []

abbrev no_topics : MessagesHandler pub_sub cacher Unit
no_topics = record { pub_sub = []; processors = []; equivalent_messages = [] }

no_topics-IsRegistered : IsRegistered pub_sub pub_sub-IsPubSub cacher Unit no_topics
unfolding program
no_topics-IsRegistered t = refl

abbrev calls : List (Call Unit)
calls =
    register topic (1 ∷ []) (some tt)
    ∷ register topic (2 ∷ []) (some tt)
    ∷ unregister topic (2 ∷ [])
    ∷ []

abbrev one_processor : MessagesHandler pub_sub cacher Unit
one_processor = record {
  pub_sub = (topic, true) ∷ [];
  processors = (topic, some ((1 ∷ [], tt) ∷ [])) ∷ [];
  equivalent_messages = (topic, []) ∷ [];
}

run-one_processor :
    run pub_sub pub_sub-IsPubSub cacher Unit
      (ok [])
      no_topics
      (register topic (1 ∷ []) (some tt) ∷ [])
    ≡ one_processor
unfolding program
run-one_processor = refl

run-IsRegistered_example :
    pub_sub.registered
      (run pub_sub pub_sub-IsPubSub cacher Unit (ok []) no_topics calls).pub_sub
      topic
    ≡ is_some (
        processors_of pub_sub cacher Unit
          (run pub_sub pub_sub-IsPubSub cacher Unit (ok []) no_topics calls)
          topic)
run-IsRegistered_example =
    Registration.run-IsRegistered pub_sub pub_sub-IsPubSub cacher Unit (ok []) no_topics calls
      no_topics-IsRegistered topic

one_processor-IsRegistered : IsRegistered pub_sub pub_sub-IsPubSub cacher Unit one_processor
unfolding program
one_processor-IsRegistered t = ground arith

unregister_last_then_all_fails_example :
    is_some
      (unregister_all_message_processors pub_sub cacher Unit
        (unregister_message_processor pub_sub cacher Unit one_processor topic (1 ∷ [])).0
        (topic ∷ [])).1
    ≡ true
unfolding program
unregister_last_then_all_fails_example =
    (LastProcessor.unregister_last_then_all_fails pub_sub pub_sub-IsPubSub cacher Unit one_processor
      topic (1 ∷ []) tt (topic ∷ []) one_processor-IsRegistered refl (omega arith)).2

abbrev start : Delivery surroundings
start = record {
  peer_id = peer_a;
  equivalent_messages = (topic, []) ∷ [];
  denial_state = [];
  increased = [];
  debugger = [];
}

abbrev procs : TopicProcessors Unit
procs = (1 ∷ [], tt) ∷ []

abbrev sent : PubsubMessage
sent = record {
  sender = peer_b;
  payload = 1000 ∷ 7 ∷ [];
  seqno = 1 ∷ [];
  topic = some topic;
  signature = [];
  key = none;
}

abbrev without_topic : PubsubMessage
without_topic = record sent { topic = none }

pubsub_callback_sound_example :
    (msg : Message) × (new_message unmarshal (λ bytes. ok bytes) (some sent) broadcast ≡ ok msg)
    × IsTimely (pos 1010) msg
    × All (Accepts surroundings msg peer_b) (tt ∷ [])
unfolding program
pubsub_callback_sound_example =
    Filtering.pubsub_callback_sound surroundings start procs topic (pos 1010) peer_b (λ s. s)
      (some sent) refl

-- A cache that drops nothing is one of any size, with no age to count.
cacher-IsLru : IsLru cacher 3
cacher-IsLru = record {
  age = λ s k. 0;
  age-touch = λ s k j. ground arith;
  age-put = λ s k j v. omega arith;
  age-put_self = λ s k v. refl;
  get-put_kept = λ s k j v apart young. ground (arith, lookup-insert k j v s);
}

abbrev same_again : Visit surroundings
same_again = record { procs = procs; now = pos 1011; pid = peer_a; message = some sent }

abbrev another : Visit surroundings
another = record same_again { message = some (record sent { payload = 1000 ∷ 8 ∷ [] }) }

pubsub_callback_once_example :
    (visit surroundings
      (visit_all surroundings
        (pubsub_callback surroundings start procs topic (pos 1010) peer_b (λ s. s) (some sent)).0
        topic
        (another ∷ same_again ∷ []))
      topic
      same_again).1
    ≡ false
unfolding program
pubsub_callback_once_example =
    Equivalent.pubsub_callback_once surroundings start procs topic (pos 1010) peer_b (λ s. s)
      (some sent) [] 3 (another ∷ same_again ∷ []) same_again cacher-IsCache cacher-IsLru refl
      (omega arith) refl (omega arith) refl

-- Two callbacks of equivalent messages that overlap: the other one stores the id after the first has
-- looked it up. Both pass.
both_pass :
    ((pubsub_callback surroundings start procs topic
        (pos 1010)
        peer_b
        (λ s. insert (7 ∷ []) tt s)
        (some sent)).1
      ≡ true)
    × ((visit surroundings start topic same_again).1 ≡ true)
    × (lookup topic (visit surroundings start topic same_again).0.equivalent_messages
        ≡ some ((7 ∷ [], tt) ∷ []))
unfolding program visit
both_pass = (refl, refl, refl)

abbrev received : Message
received = self_message surroundings start (pos 1000) topic (7 ∷ []) (1000 ∷ 7 ∷ []) [] peer_a

abbrev processors : Bytes → Option (TopicProcessors Unit)
processors t = some procs

abbrev no_error : Option P2pError
no_error = none

process_received_message-cases_example :
    let result =
      process_received_message surroundings start processors
        (pos 1010)
        (some received)
        peer_b
        true in
    Direct.IsIgnored surroundings start (some received) true result
    ⊎ ((msg : Message) × (some received ≡ some msg)
        × (true ≡ true)
        × (Direct.IsRefused surroundings start processors (pos 1010) msg result
            ⊎ Direct.IsProcessed surroundings start processors (pos 1010) msg peer_b result))
process_received_message-cases_example =
    Direct.process_received_message-cases surroundings start processors (pos 1010) (some received)
      peer_b true

send_to_connected_peer_self_example :
    send_to_connected_peer surroundings start processors
      (pos 1000)
      (λ t b p. none)
      []
      topic
      (7 ∷ [])
      peer_a
    ≡ (process_direct surroundings start procs received peer_a, none)
send_to_connected_peer_self_example =
    Direct.send_to_connected_peer_self surroundings start processors (pos 1000) (λ t b p. none) []
      topic (7 ∷ []) (1000 ∷ 7 ∷ []) peer_a procs
      (λ t w h.
        marshal_fields-unmarshal t.version t.payload t.timestamp t.signature_on_pid t.pk w h)
      refl (omega arith) refl refl (omega arith) (omega arith)

-- A pubsub library that refuses one subscription.
abbrev library : TopicLibrary
library = record {
  State = Bool;
  join = λ s t. (s, none);
  subscribe = λ s t. (true, if s then none else some (foreign 3));
  close_topic = λ s t. (s, none);
}

abbrev fresh : Bool → JoinedTopics library
fresh works = record {
  pub_sub = works;
  topics = [];
  subscriptions = [];
  outgoing_clb = record { chans = []; names = []; names_chans = []; made = 0; closed = [] };
}

topics_program : Unit {0}
unfolding program create_topic has_topic listed subscribe_topic add_channel append_channel
topics_program = tt

create_topic_retry_example :
    create_topic library (create_topic library (fresh false) topic true).0 topic true
    ≡ ((create_topic library (fresh false) topic true).0, none)
unfolding topics_program
create_topic_retry_example =
    (Topics.create_topic_retry library (fresh false) topic true (foreign 3) refl refl refl).1

-- A node that has only the default channel.
abbrev nothing_sent : Outgoing
nothing_sent = record {
  peer_id = peer_a;
  outgoing_clb = new_outgoing_channel_load_balancer;
  sent = [];
}

broadcast-published_example :
    (ch : ℕ) × (sendable : SendableData) × ((lookup topic
          new_outgoing_channel_load_balancer.names_chans
        ≡ some ch)
      ⊎ ((lookup topic new_outgoing_channel_load_balancer.names_chans ≡ none)
          × (lookup default_send_channel new_outgoing_channel_load_balancer.names_chans ≡ some ch)))
    × All
        (λ gone. ltb gone ch ≡ true ⊎ ltb ch gone ≡ true)
        new_outgoing_channel_load_balancer.closed
    × (broadcast_on_channel_blocking true nothing_sent new_outgoing_channel_load_balancer topic
          topic
          (7 ∷ [])
        ≡ after_send nothing_sent new_outgoing_channel_load_balancer ch sendable)
    × (process_sendable surroundings (pos 1000) (topic ∷ []) (some sendable)
        ≡ some (record {
          topic = topic;
          bytes = create_message_bytes surroundings (pos 1000) (7 ∷ []);
          signer = none;
        }))
unfolding joined create_message_bytes bytes_discrete ℕ_discrete new_outgoing_channel_load_balancer
    append_channel
broadcast-published_example =
    Broadcast.broadcast-published surroundings true nothing_sent new_outgoing_channel_load_balancer
      topic topic (7 ∷ []) (pos 1000) (topic ∷ []) new_outgoing_channel_load_balancer-IsBalanced
      refl (omega arith)

-- The channel of the topic is number 1; it is removed between the two steps of a broadcast.
abbrev with_topic : OutgoingChannelLoadBalancer
with_topic = (add_channel new_outgoing_channel_load_balancer topic).0

abbrev without_channel : OutgoingChannelLoadBalancer
without_channel = record new_outgoing_channel_load_balancer { made = 2; closed = 1 ∷ [] }

removed_in_between :
    (remove_channel with_topic topic ≡ returns (without_channel, none))
    × (broadcast_on_channel_blocking true
          (record nothing_sent { outgoing_clb = with_topic })
          without_channel
          topic
          topic
          (7 ∷ [])
        ≡ panics)
unfolding program remove_channel remove_index index_from cut new_outgoing_channel_load_balancer
    append_channel add_channel broadcast_on_channel_blocking send_on_channel is_closed
    get_channel_or_default
removed_in_between = (refl, refl)
