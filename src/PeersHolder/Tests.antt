-- ===== src/PeersHolder/Tests.antt =====
-- Runs of the peers holder, and the theorems at concrete inputs.
use mx_chain_communication_g.Common.{
  contains, ℕ, ◌≡◌, refl, Bool, true, false, some, List, [], ◌∷◌, Bytes, bytes_key, nat_key, lookup,
  insert, delete, bytes_discrete, ℕ_discrete, arith, returns, panics, ◌>>=◌, cut,
}
use mx_chain_communication_g.PeersHolder.{
  PeersHolder, PeerIdData, empty_holder, new_peers_holder, get_known_connection,
  put_connection_address, put_shard_id, contains_peer, remove, get, get_peer_info_for_peer_id,
}
use mx_chain_communication_g.PeersHolder.Registry
use mx_chain_communication_g.PeersHolder.Registry.{
  Call, put_connection, put_shard, run, IsConsistent, in_shard,
}
use mx_chain_communication_g.PeersHolder.Removal
use mx_chain_communication_g.PeersHolder.Removal.{removed, without, Before}

program : Unit {0}
unfolding new_peers_holder run put_connection_address get_known_connection contains put_shard_id
    contains_peer remove get lookup insert delete bytes_discrete ℕ_discrete cut removed without
    get_peer_info_for_peer_id
program = tt

-- One preferred address, and three peers at it in shard 0.
abbrev address : Bytes
address = 10 ∷ 1 ∷ []

abbrev peer_a : Bytes
peer_a = 65 ∷ []

abbrev peer_b : Bytes
peer_b = 66 ∷ []

abbrev peer_c : Bytes
peer_c = 67 ∷ []

abbrev any : Bytes → Bool
any s = true

abbrev start : PeersHolder
start = record empty_holder {
  preferred_conn_addresses = address ∷ [];
  conn_addr_to_peers_info = (address, []) ∷ [];
}

new_start : new_peers_holder any any (address ∷ []) ≡ some start
unfolding program
new_start = refl

abbrev joined : Bytes → List Call
joined p = put_connection p (47 ∷ address) ∷ put_shard p 0 ∷ []

abbrev calls : List Call
calls =
    put_connection peer_a (47 ∷ address)
    ∷ put_shard peer_a 0
    ∷ put_connection peer_b address
    ∷ put_shard peer_b 0
    ∷ put_connection peer_c address
    ∷ put_shard peer_c 0
    ∷ []

three : PeersHolder
three = run 4294967280 start calls

three_listed : in_shard three 0 ≡ peer_a ∷ peer_b ∷ peer_c ∷ []
unfolding three program
three_listed = refl

three-IsConsistent : IsConsistent three
unfolding three
three-IsConsistent =
    (Registry.new_peers_holder-IsConsistent any any (address ∷ []) 4294967280 calls new_start).2

new_peers_holder-IsConsistent_example : IsConsistent (run 4294967280 start (joined peer_a))
new_peers_holder-IsConsistent_example =
    (Registry.new_peers_holder-IsConsistent any any (address ∷ []) 4294967280 (joined peer_a)
      new_start).2

abbrev data_at : ℕ → PeerIdData
data_at i = record { connection_address = address; shard_id = 0; index = i }

-- A peer that waits for its shard.
one_waiting : PeersHolder
one_waiting = run 4294967280 start (put_connection peer_a address ∷ [])

one_waiting-IsConsistent : IsConsistent one_waiting
unfolding one_waiting
one_waiting-IsConsistent =
    (Registry.new_peers_holder-IsConsistent any any (address ∷ []) 4294967280
      (put_connection peer_a address ∷ []) new_start).2

remove-registered_example : remove three peer_b ≡ returns (removed three peer_b (data_at 1))
unfolding three program
remove-registered_example =
    (Removal.remove-registered three peer_b peer_a (data_at 1) 0 three-IsConsistent refl).0

ends-Before : Before three peer_a peer_c (data_at 0) (data_at 2)
unfolding three program
ends-Before = record { first = refl; second = refl; one_shard = refl; earlier = omega arith }

remove_then_last_panics_example : (remove three peer_a >>= λ h. remove h peer_c) ≡ panics
unfolding three program
remove_then_last_panics_example =
    Removal.remove_then_last_panics three peer_a peer_c (data_at 0) (data_at 2) three-IsConsistent
      ends-Before refl

neighbours-Before : Before three peer_a peer_b (data_at 0) (data_at 1)
unfolding three program
neighbours-Before = record { first = refl; second = refl; one_shard = refl; earlier = omega arith }

remove_then_later_stays_example :
    contains_peer (removed (removed three peer_a (data_at 0)) peer_b (data_at 1)) peer_b ≡ false
unfolding three program
remove_then_later_stays_example =
    (Removal.remove_then_later_stays three peer_a peer_b (data_at 0) (data_at 1) three-IsConsistent
      neighbours-Before (omega arith)).1
