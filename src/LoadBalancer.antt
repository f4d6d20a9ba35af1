-- ===== src/LoadBalancer.antt =====
-- p2p/libp2p/outgoingChannelLoadBalancer.go: the channels of outgoing messages by name.
-- A channel is a number given to it when it is made. The goroutines that forward what the channels
-- receive are left out, and each call runs under the lock and is one step.
pub mod Order
pub mod Channels
pub mod Names
pub mod Forwarding
mod Tests
use mx_chain_communication_g.Common.{
  ℕ, suc, ◌+◌, Bool, true, false, Option, none, some, List, [], ◌∷◌, ◌++◌, Bytes, bytes_key, Map,
  lookup, insert, delete, is_some, if◌then◌else◌, same, cut, get_elem?, returns, panics, Outcome,
  ◌>>=◌,
}
use mx_chain_communication_g.Errors.{
  P2pError, channel_can_not_be_re_added, channel_can_not_be_deleted, channel_does_not_exist,
}

-- "default send channel"
abbrev pub default_send_channel : Bytes
default_send_channel =
    100 ∷ 101 ∷ 102 ∷ 97 ∷ 117 ∷ 108 ∷ 116 ∷ 32 ∷ 115 ∷ 101 ∷ 110 ∷ 100 ∷ 32 ∷ 99 ∷ 104 ∷ 97 ∷ 110
    ∷ 110 ∷ 101 ∷ 108 ∷ []

-- `made` is the number of channels made so far, `closed` those closed.
pub record OutgoingChannelLoadBalancer : Type 0 where
  pub chans : List ℕ
  pub names : List Bytes
  pub names_chans : Map Bytes ℕ
  pub made : ℕ
  pub closed : List ℕ

unfoldable pub append_channel : Bytes → OutgoingChannelLoadBalancer → OutgoingChannelLoadBalancer
append_channel channel b = record b {
  chans = b.chans ++ b.made ∷ [];
  names = b.names ++ channel ∷ [];
  names_chans = insert channel b.made b.names_chans;
  made = suc b.made;
}

unfoldable pub new_outgoing_channel_load_balancer : OutgoingChannelLoadBalancer
new_outgoing_channel_load_balancer =
    append_channel default_send_channel
      (record { chans = []; names = []; names_chans = []; made = 0; closed = [] })

unfoldable pub add_channel :
    OutgoingChannelLoadBalancer → Bytes → OutgoingChannelLoadBalancer × Option P2pError
add_channel b channel =
    if same channel default_send_channel
    then (b, some channel_can_not_be_re_added)
    else if is_some (lookup channel b.names_chans)
    then (b, none)
    else (append_channel channel b, none)

-- The first index of a name, counted from `i`.
unfoldable pub index_from : ℕ → Bytes → List Bytes → Option ℕ
index_from i channel [] = none
index_from i channel (name ∷ names) =
    if same name channel then some i else index_from (suc i) channel names

-- The removal of the channel at an index, which panics out of range.
unfoldable pub remove_index :
    OutgoingChannelLoadBalancer
    → Bytes
    → ℕ
    → Outcome (OutgoingChannelLoadBalancer × Option P2pError)
remove_index b channel index = elim (get_elem? b.chans index) [
  | none ↦ panics
  | some sendable_chan ↦ cut b.chans index >>= λ chans. cut b.names index >>= λ names. returns (
    record b {
      chans = chans;
      names = names;
      closed = sendable_chan ∷ b.closed;
      names_chans = delete channel b.names_chans;
    },
    none,
  )
]

unfoldable pub remove_channel :
    OutgoingChannelLoadBalancer → Bytes → Outcome (OutgoingChannelLoadBalancer × Option P2pError)
remove_channel b channel =
    if same channel default_send_channel
    then returns (b, some channel_can_not_be_deleted)
    else elim (index_from 0 channel b.names) [
      | none ↦ returns (b, some channel_does_not_exist)
      | some index ↦ remove_index b channel index
    ]

-- `oplb.chans[0]` panics without channels.
unfoldable pub get_channel_or_default : OutgoingChannelLoadBalancer → Bytes → Outcome ℕ
get_channel_or_default b channel = elim (lookup channel b.names_chans) [
  | some ch ↦ returns ch
  | none ↦ elim (get_elem? b.chans 0) [ none ↦ panics | some ch ↦ returns ch ]
]
