-- ===== src/LoadBalancer/Names.antt =====
-- p2p/libp2p/outgoingChannelLoadBalancer.go as a set of names: which names have a channel of their own,
-- and how each call answers.
use mx_chain_communication_g.Common.{
  true, false, Bool, Option, none, some, List, [], ◌∷◌, Bytes, bytes_key, lookup, lookup-insert,
  lookup-delete, is_some, same, same→eq, returns, Outcome, ◌>>=◌, ◌≡◌, ◌||◌, ◌&&◌, not, inl, inr,
  refl, arith, Option-cases, Bool-cases, if◌then◌else◌, insert,
}
use mx_chain_communication_g.Errors.{
  P2pError, channel_can_not_be_re_added, channel_can_not_be_deleted, channel_does_not_exist,
}
use mx_chain_communication_g.LoadBalancer.{
  get_channel_or_default, new_outgoing_channel_load_balancer, default_send_channel,
  OutgoingChannelLoadBalancer, append_channel, add_channel, remove_channel,
}
use mx_chain_communication_g.LoadBalancer.Order.{
  new_outgoing_channel_load_balancer-IsBalanced, IsBalanced, named_has_channel,
}
use mx_chain_communication_g.LoadBalancer.Channels.{
  Call, add, remove, remove_channel_cases, add_channel-IsBalanced,
}

-- A set of names, by its membership test.
abbrev pub NameSet : Type 0
NameSet = Bytes → Bool

-- What a call does to the set, and how it answers.
abbrev pub change : NameSet → Call → NameSet
change s (add channel) = λ name. s name || same channel name
change s (remove channel) =
    λ name. if same channel default_send_channel then s name else s name && not (same channel name)

abbrev pub reply : NameSet → Call → Option P2pError
reply s (add channel) =
    if same channel default_send_channel then some channel_can_not_be_re_added else none
reply s (remove channel) =
    if same channel default_send_channel
    then some channel_can_not_be_deleted
    else if s channel
    then none
    else some channel_does_not_exist

abbrev pub change_all : NameSet → List Call → NameSet
change_all s [] = s
change_all s (call ∷ calls) = change_all (change s call) calls

abbrev pub replies : NameSet → List Call → List (Option P2pError)
replies s [] = []
replies s (call ∷ calls) = reply s call ∷ replies (change s call) calls

-- The calls on the balancer, with their answers.
unfoldable pub answer :
    OutgoingChannelLoadBalancer → Call → Outcome (OutgoingChannelLoadBalancer × Option P2pError)
answer b (add channel) = returns (add_channel b channel)
answer b (remove channel) = remove_channel b channel

unfoldable pub answer_all :
    OutgoingChannelLoadBalancer
    → List Call
    → Outcome (OutgoingChannelLoadBalancer × List (Option P2pError))
unfolding answer
answer_all b [] = returns (b, [])
answer_all b (call ∷ calls) =
    answer b call >>= λ (r : OutgoingChannelLoadBalancer × Option P2pError).
    answer_all r.0 calls >>= λ (rest : OutgoingChannelLoadBalancer × List (Option P2pError)).
    returns (rest.0, r.1 ∷ rest.1)

-- The names of the map are the set.
abbrev pub Has : OutgoingChannelLoadBalancer → NameSet → Type 0
Has b s = (name : Bytes) → is_some (lookup name b.names_chans) ≡ s name

-- One call: its answer, and the set and the order after it.
abbrev Agrees : OutgoingChannelLoadBalancer × Option P2pError → NameSet → Call → Type 0
Agrees (b, failed) s call = IsBalanced b × Has b (change s call) × (failed ≡ reply s call)

default_is_there :
    (b : OutgoingChannelLoadBalancer)
    → IsBalanced b
    → is_some (lookup default_send_channel b.names_chans) ≡ true
default_is_there b v =
    let (ch, there, known) = named_has_channel b 0 default_send_channel v v.first in ground arith

add_channel-Has :
    (b : OutgoingChannelLoadBalancer) (s : NameSet) (channel : Bytes)
    → IsBalanced b
    → Has b s
    → Has (add_channel b channel).0 (change s (add channel))
unfolding add_channel append_channel
add_channel-Has b s channel v has name = elim (Bool-cases (same channel default_send_channel)) [
  | inl q ↦ ground (
    arith,
    has name,
    default_is_there b v,
    same→eq channel default_send_channel,
    same→eq channel name,
  )
  | inr q ↦ elim (Option-cases (lookup channel b.names_chans)) [
    | inl e ↦ ground (arith, has name, lookup-insert channel name b.made b.names_chans)
    | inr (ch, e) ↦ ground (arith, has name, same→eq channel name)
  ]
]

add_channel-Agrees :
    (b : OutgoingChannelLoadBalancer) (s : NameSet) (channel : Bytes)
    → IsBalanced b
    → Has b s
    → Agrees (add_channel b channel) s (add channel)
unfolding add_channel append_channel
add_channel-Agrees b s channel v has =
    (add_channel-IsBalanced b channel v, add_channel-Has b s channel v has, ground arith)

remove_channel-Agrees :
    (b : OutgoingChannelLoadBalancer) (s : NameSet) (channel : Bytes)
    → IsBalanced b
    → Has b s
    → (r : OutgoingChannelLoadBalancer × Option P2pError) × (remove_channel b channel ≡ returns r)
      × Agrees r s (remove channel)
remove_channel-Agrees b s channel v has = elim (remove_channel_cases b channel v) [
  | inl (q, e) ↦ (_, e, (v, λ name. ground (arith, has name), ground arith))
  | inr (inl (q, g, e)) ↦ (
    _,
    e,
    (
      v,
      λ name. ground (arith, has name, has channel, same→eq channel name),
      ground (arith, has channel),
    ),
  )
  | inr (inr (k, gone, q, g, e, w)) ↦ (
    _,
    e,
    (
      w,
      λ name. ground (arith, has name, lookup-delete channel name b.names_chans),
      ground (arith, has channel),
    ),
  )
]

answer-Agrees :
    (b : OutgoingChannelLoadBalancer) (s : NameSet) (call : Call)
    → IsBalanced b
    → Has b s
    → (r : OutgoingChannelLoadBalancer × Option P2pError) × (answer b call ≡ returns r)
      × Agrees r s call
unfolding answer
answer-Agrees b s (add channel) v has =
    (add_channel b channel, refl, add_channel-Agrees b s channel v has)
answer-Agrees b s (remove channel) v has = remove_channel-Agrees b s channel v has

answer_all-Has :
    (b : OutgoingChannelLoadBalancer) (s : NameSet) (calls : List Call)
    → IsBalanced b
    → Has b s
    → (r : OutgoingChannelLoadBalancer) × (answer_all b calls ≡ returns (r, replies s calls))
      × Has r (change_all s calls)
      × IsBalanced r
unfolding answer_all
answer_all-Has b s [] v has = (b, refl, has, v)
answer_all-Has b s (call ∷ calls) v has =
    let (now, e, (v', has', same_reply)) = answer-Agrees b s call v has in
    let (r, e', has'', v'') = answer_all-Has now.0 (change s call) calls v' has' in
    (r, ground (arith, e, e', same_reply), has'', v'')

-- A name outside the set is given the default channel.
shares_default :
    (b : OutgoingChannelLoadBalancer) (s : NameSet) (name : Bytes)
    → IsBalanced b
    → Has b s
    → s name ≡ false
    → get_channel_or_default b name ≡ get_channel_or_default b default_send_channel
unfolding get_channel_or_default
shares_default b s name v has outside =
    let (ch, there, known) = named_has_channel b 0 default_send_channel v v.first in
    elim (Option-cases (lookup name b.names_chans)) [
      | inl e ↦ ground arith
      | inr (own, e) ↦ absurd (ground (arith, has name))
    ]

-- The set of the default name alone.
abbrev pub only_default : NameSet
only_default name = same default_send_channel name

new-Has : Has new_outgoing_channel_load_balancer only_default
unfolding new_outgoing_channel_load_balancer append_channel lookup insert
new-Has name = ground arith

-- Seen from outside, a new balancer is the set of the default name: any sequence of AddChannel and
-- RemoveChannel runs without a panic and answers as the set does. After it the names with a channel
-- are those of the changed set, and every other name is given the default channel.
pub new_outgoing_channel_load_balancer-refines :
    (calls : List Call)
    → (r : OutgoingChannelLoadBalancer) × (answer_all new_outgoing_channel_load_balancer calls
        ≡ returns (r, replies only_default calls))
      × Has r (change_all only_default calls)
      × ((name : Bytes)
          → change_all only_default calls name ≡ false
          → get_channel_or_default r name ≡ get_channel_or_default r default_send_channel)
new_outgoing_channel_load_balancer-refines calls =
    let (r, e, has, v) =
      answer_all-Has new_outgoing_channel_load_balancer only_default calls
        new_outgoing_channel_load_balancer-IsBalanced new-Has in
    (r, e, has, λ name outside. shares_default r (change_all only_default calls) name v has outside)
