-- ===== src/LoadBalancer/Tests.antt =====
-- A run of the channel load balancer, and the theorems at concrete inputs.
use mx_chain_communication_g.Common.{
  ◌≡◌, refl, ◌+◌, true, none, some, ◌++◌, count_by, false, List, [], ◌∷◌, Bytes, bytes_key, lookup,
  insert, delete, bytes_discrete, ℕ_discrete, returns, cut,
}
use mx_chain_communication_g.LoadBalancer.{
  default_send_channel, OutgoingChannelLoadBalancer, append_channel,
  new_outgoing_channel_load_balancer, add_channel, index_from, remove_index, remove_channel,
  get_channel_or_default,
}
use mx_chain_communication_g.LoadBalancer.Order.{
  IsBalanced, new_outgoing_channel_load_balancer-IsBalanced,
}
use mx_chain_communication_g.LoadBalancer.Forwarding
use mx_chain_communication_g.LoadBalancer.Forwarding.{
  SendableData, waiting, holding, Pipes, update, no_data, send, collect, Reach, here, later,
  sent_on, collected_on, held, is_nil,
}
use mx_chain_communication_g.LoadBalancer.Names
use mx_chain_communication_g.LoadBalancer.Names.{replies, change_all, only_default, answer_all, Has}
use mx_chain_communication_g.LoadBalancer.Channels
use mx_chain_communication_g.LoadBalancer.Channels.{Call, add, remove, run, step}

program : Unit {0}
unfolding lookup insert delete bytes_discrete ℕ_discrete cut append_channel
    new_outgoing_channel_load_balancer add_channel index_from remove_index remove_channel
    get_channel_or_default run step
program = tt

abbrev channel_a : Bytes
channel_a = 65 ∷ []

abbrev channel_b : Bytes
channel_b = 66 ∷ []

abbrev calls : List Call
calls = add channel_a ∷ add channel_b ∷ remove channel_a ∷ []

-- The default channel is channel 0, and `channel_b` is channel 2.
abbrev left : OutgoingChannelLoadBalancer
left = record {
  chans = 0 ∷ 2 ∷ [];
  names = default_send_channel ∷ channel_b ∷ [];
  names_chans = (default_send_channel, 0) ∷ (channel_b, 2) ∷ [];
  made = 3;
  closed = 1 ∷ [];
}

run-left : run new_outgoing_channel_load_balancer calls ≡ returns left
unfolding program
run-left = refl

run-IsBalanced_example :
    (b : OutgoingChannelLoadBalancer) × (run new_outgoing_channel_load_balancer calls ≡ returns b)
    × IsBalanced b
run-IsBalanced_example =
    Channels.run-IsBalanced new_outgoing_channel_load_balancer calls
      new_outgoing_channel_load_balancer-IsBalanced

new_outgoing_channel_load_balancer-refines_example :
    (r : OutgoingChannelLoadBalancer) × (answer_all new_outgoing_channel_load_balancer calls
      ≡ returns (r, replies only_default calls))
    × Has r (change_all only_default calls)
    × ((name : Bytes)
        → change_all only_default calls name ≡ false
        → get_channel_or_default r name ≡ get_channel_or_default r default_send_channel)
new_outgoing_channel_load_balancer-refines_example =
    Names.new_outgoing_channel_load_balancer-refines calls

abbrev one_element : SendableData
one_element = record { buff = 5 ∷ []; topic = channel_a; sk = none; id = [] }

Reach-IsInOrder_example :
    sent_on 2 ((2, one_element) ∷ [])
    ≡ collected_on 2 ((2, some one_element) ∷ [])
      ++ held (update (update (λ ch. waiting) 2 (holding (some one_element))) 2 waiting 2)
Reach-IsInOrder_example =
    Forwarding.Reach-IsInOrder 2
      (later (later here (send 2 one_element refl refl)) (collect 2 (some one_element) refl))

-- Channel 2 is closed before any data is sent on it.
abbrev closed_early : Pipes
closed_early = record no_data { is_closed = update (λ ch. false) 2 true }

closed_channel_endless_example :
    (q : Pipes) × Reach closed_early q
    × (q.sent ≡ [])
    × (count_by is_nil q.collected ≡ 0 + 1000)
    × (q.forwarder 2 ≡ waiting)
    × (q.is_closed 2 ≡ true)
closed_channel_endless_example = Forwarding.closed_channel_endless closed_early 2 1000 refl refl
