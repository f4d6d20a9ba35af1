-- ===== src/MessagesHandler/Broadcast.antt =====
-- Broadcasts of p2p/libp2p/messagesHandler.go: from the call to the channel of the load balancer, and from
-- the main channel to the topic. The throttler and the parser of private keys are parameters; the
-- forwarding in between is that of LoadBalancer/Forwarding.antt.
use mx_chain_communication_g.Common.Int.{ℤ}
use mx_chain_communication_g.Common.{
  ℕ, ◌<◌, ◌≡◌, Bool, true, false, not, ◌||◌, ◌==◌, Option, none, some, List, [], ◌∷◌, ◌++◌, Bytes,
  Result, ok, err, Outcome, returns, panics, ◌>>=◌, count_by, lookup, if◌then◌else◌, length, arith,
  Bool-cases, inl, inr, ◌⊎◌, All, ltb, bytes_key, same,
}
use mx_chain_communication_g.Errors.{
  P2pError, message_too_large, empty_buffer_to_send, too_many_goroutines, nil_pub_sub,
  nil_direct_sender, nil_throttler, nil_channel_load_balancer, nil_marshaller,
  nil_connection_monitor, nil_peers_rating_handler, nil_sync_timer, nil_logger, nil_debugger,
}
use mx_chain_communication_g.LoadBalancer.{
  default_send_channel, OutgoingChannelLoadBalancer, get_channel_or_default,
}
use mx_chain_communication_g.LoadBalancer.Order.{IsBalanced}
use mx_chain_communication_g.LoadBalancer.Channels.{get_channel_or_default_open}
use mx_chain_communication_g.LoadBalancer.Forwarding.{SendableData}
use mx_chain_communication_g.MessagesHandler.Delivery.{
  Surroundings, check_sendable_data, create_message_bytes, max_send_buff_size,
}

-- Which of the interfaces in the arguments are not nil.
pub record ArgMessagesHandler : Type 0 where
  pub pub_sub : Bool
  pub direct_sender : Bool
  pub throttler : Bool
  pub outgoing_clb : Bool
  pub marshaller : Bool
  pub conn_monitor : Bool
  pub peers_rating_handler : Bool
  pub sync_timer : Bool
  pub logger : Bool

unfoldable pub check_arg_messages_handler : ArgMessagesHandler → Option P2pError
check_arg_messages_handler args =
    if not args.pub_sub
    then some nil_pub_sub
    else if not args.direct_sender
    then some nil_direct_sender
    else if not args.throttler
    then some nil_throttler
    else if not args.outgoing_clb
    then some nil_channel_load_balancer
    else if not args.marshaller
    then some nil_marshaller
    else if not args.conn_monitor
    then some nil_connection_monitor
    else if not args.peers_rating_handler
    then some nil_peers_rating_handler
    else if not args.sync_timer
    then some nil_sync_timer
    else if not args.logger
    then some nil_logger
    else none

-- The sends on the channels of the balancer, in their order.
pub record Outgoing : Type 0 where
  pub peer_id : Bytes
  pub outgoing_clb : OutgoingChannelLoadBalancer
  pub sent : List (ℕ × SendableData)

unfoldable pub is_closed : ℕ → List ℕ → Bool
is_closed ch [] = false
is_closed ch (gone ∷ closed) = let rest = is_closed ch closed in if gone == ch then true else rest

-- The end of both blocking broadcasts: the channel is taken from the balancer, and the element is sent
-- on it later, without the lock of the balancer. `at_send` is the balancer at that time; a send on a
-- channel that is closed by then panics. The slot of the throttler is given back after the send.
unfoldable pub send_on_channel :
    Outgoing
    → OutgoingChannelLoadBalancer
    → Bytes
    → SendableData
    → Outcome (Outgoing × Option P2pError)
unfolding is_closed
send_on_channel o at_send channel sendable = get_channel_or_default o.outgoing_clb channel >>= λ ch.
    if is_closed ch at_send.closed
    then panics
    else returns (record o { outgoing_clb = at_send; sent = o.sent ++ (ch, sendable) ∷ [] }, none)

unfoldable pub broadcast_on_channel_blocking :
    Bool
    → Outgoing
    → OutgoingChannelLoadBalancer
    → Bytes
    → Bytes
    → Bytes
    → Outcome (Outgoing × Option P2pError)
unfolding send_on_channel
broadcast_on_channel_blocking can_process o at_send channel topic buff =
    elim (check_sendable_data buff) [
      | some failed ↦ returns (o, some failed)
      | none ↦
          if not can_process
          then returns (o, some too_many_goroutines)
          else send_on_channel o at_send channel
              (record { buff = buff; topic = topic; sk = none; id = o.peer_id })
    ]

-- `Broadcast` names the channel after the topic.
unfoldable pub broadcast :
    Bool
    → Outgoing
    → OutgoingChannelLoadBalancer
    → Bytes
    → Bytes
    → Outcome (Outgoing × Option P2pError)
unfolding broadcast_on_channel_blocking
broadcast can_process o at_send topic buff =
    broadcast_on_channel_blocking can_process o at_send topic topic buff

-- `unmarshalled` is what the parser makes of the bytes of the key.
unfoldable pub broadcast_on_channel_blocking_using_private_key :
    Bool
    → Outgoing
    → OutgoingChannelLoadBalancer
    → Bytes
    → Bytes
    → Bytes
    → Bytes
    → Result P2pError Bytes
    → Outcome (Outgoing × Option P2pError)
unfolding send_on_channel
broadcast_on_channel_blocking_using_private_key can_process o at_send channel topic buff pid
      unmarshalled =
    elim unmarshalled [
      | err failed ↦ returns (o, some failed)
      | ok sk ↦ elim (check_sendable_data buff) [
        | some failed ↦ returns (o, some failed)
        | none ↦
            if not can_process
            then returns (o, some too_many_goroutines)
            else send_on_channel o at_send channel
                (record { buff = buff; topic = topic; sk = some sk; id = pid })
      ]
    ]

-- A call of `Publish` of a topic: the topic, the bytes, and the key and the peer of the option.
pub record Publication : Type 0 where
  pub topic : Bytes
  pub bytes : Bytes
  pub signer : Option (Bytes × Bytes)

unfoldable pub publish : Bytes → SendableData → Bytes → Publication
publish topic sendable packed = record {
  topic = topic;
  bytes = packed;
  signer = elim sendable.sk [ none ↦ none | some sk ↦ some (sk, sendable.id) ];
}

unfoldable pub joined : Bytes → List Bytes → Bool
joined topic [] = false
joined topic (t ∷ topics) = if same t topic then true else joined topic topics

module _ (e : Surroundings) where
  -- One round of `processChannelLoadBalancer`, with the time of the clock and the joined topics.
  unfoldable pub process_sendable : ℤ → List Bytes → Option SendableData → Option Publication
  unfolding publish joined
  process_sendable now topics none = none
  process_sendable now topics (some sendable) =
      if not (joined sendable.topic topics)
      then none
      else if length (create_message_bytes e now sendable.buff) == 0
      then none
      else some (publish sendable.topic sendable (create_message_bytes e now sendable.buff))

-- `SetDebugger` and `Close`; the later error of the two components is the one that counts.
unfoldable pub set_debugger : Bool → Option P2pError
set_debugger given = if given then none else some nil_debugger

unfoldable pub close : Option P2pError → Option P2pError → Option P2pError
close err_oclb none = err_oclb
close err_oclb (some failed) = some failed

-- The error of a broadcast that is refused.
abbrev pub refusal : Bool → Bytes → Option P2pError
refusal can_process buff =
    if ltb max_send_buff_size (length buff)
    then some message_too_large
    else if length buff == 0
    then some empty_buffer_to_send
    else some too_many_goroutines

is_closed-count :
    (ch : ℕ) (closed : List ℕ) → is_closed ch closed ≡ ltb 0 (count_by (λ gone. gone == ch) closed)
unfolding is_closed
is_closed-count ch [] = ground arith
is_closed-count ch (gone ∷ closed) = ground (arith, is_closed-count ch closed)

-- What is left of the handler when the element was sent.
abbrev pub after_send :
    Outgoing → OutgoingChannelLoadBalancer → ℕ → SendableData → Outcome (Outgoing × Option P2pError)
after_send o at_send ch sendable =
    returns (record o { outgoing_clb = at_send; sent = o.sent ++ (ch, sendable) ∷ [] }, none)

broadcast_on_channel_blocking_lem :
    (can_process : Bool) (o : Outgoing) (at_send : OutgoingChannelLoadBalancer)
    (channel topic buff : Bytes) (ch : ℕ)
    → get_channel_or_default o.outgoing_clb channel ≡ returns ch
    → broadcast_on_channel_blocking can_process o at_send channel topic buff ≡ (
        if ltb max_send_buff_size (length buff) || length buff == 0 || not can_process
        then returns (o, refusal can_process buff)
        else if ltb 0 (count_by (λ gone. gone == ch) at_send.closed)
        then panics
        else after_send o at_send ch
            (record { buff = buff; topic = topic; sk = none; id = o.peer_id }))
unfolding broadcast_on_channel_blocking send_on_channel check_sendable_data
broadcast_on_channel_blocking_lem can_process o at_send channel topic buff ch found =
    elim (Bool-cases (ltb max_send_buff_size (length buff))) [
      | inl large ↦ ground arith
      | inr small ↦ elim (Bool-cases (length buff == 0)) [
        | inl nothing ↦ ground arith
        | inr some_bytes ↦ elim (Bool-cases can_process) [
          | inl free ↦ ground (arith, is_closed-count ch at_send.closed)
          | inr full ↦ ground arith
        ]
      ]
    ]

module _ (e : Surroundings) where
  -- A blocking broadcast returns the error of a buffer that is empty or too large, and that of a
  -- throttler without a free slot, and sends nothing then. Otherwise it takes from a balancer in order
  -- the channel of that name, or the default one where the name has none, which is open at that time.
  -- It panics when that channel is closed at the time of the send, and sends one element on it when it
  -- is not. When the topic of that element is joined and its message can be marshalled, a round that
  -- takes it from the main channel publishes those bytes on the topic, without a key of its own.
  pub broadcast-published :
      (can_process : Bool) (o : Outgoing) (at_send : OutgoingChannelLoadBalancer)
      (channel topic buff : Bytes) (now : ℤ) (topics : List Bytes)
      → IsBalanced o.outgoing_clb
      → joined topic topics ≡ true
      → 0 < length (create_message_bytes e now buff)
      → (ch : ℕ) × (sendable : SendableData) × ((lookup channel o.outgoing_clb.names_chans
            ≡ some ch)
          ⊎ ((lookup channel o.outgoing_clb.names_chans ≡ none)
              × (lookup default_send_channel o.outgoing_clb.names_chans ≡ some ch)))
        × All (λ gone. ltb gone ch ≡ true ⊎ ltb ch gone ≡ true) o.outgoing_clb.closed
        × (broadcast_on_channel_blocking can_process o at_send channel topic buff ≡ (
            if ltb max_send_buff_size (length buff) || length buff == 0 || not can_process
            then returns (o, refusal can_process buff)
            else if ltb 0 (count_by (λ gone. gone == ch) at_send.closed)
            then panics
            else after_send o at_send ch sendable))
        × (process_sendable e now topics (some sendable)
            ≡ some
                (record { topic = topic; bytes = create_message_bytes e now buff; signer = none }))
  unfolding broadcast_on_channel_blocking send_on_channel process_sendable publish
  broadcast-published can_process o at_send channel topic buff now topics v known filled =
      let (ch, found, which, is_open) = get_channel_or_default_open o.outgoing_clb channel v in
      (
        ch,
        record { buff = buff; topic = topic; sk = none; id = o.peer_id },
        which,
        is_open,
        broadcast_on_channel_blocking_lem can_process o at_send channel topic buff ch found,
        ground arith,
      )
