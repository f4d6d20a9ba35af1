-- ===== src/PeersOnChannel.antt =====
-- p2p/libp2p/peersOnChannel.go: the peers on a topic, kept until they are too old. What the handler
-- fetches for a topic and the time of the clock are parameters; a time is in nanoseconds.
-- An entry of the map that is not nil is `some`, also with no peers: a fetched list is never nil.
pub mod Refresh
mod Tests
use mx_chain_communication_g.Common.Int.{ℤ, pos, negsuc, sub_ℕ, ltb_ℤ}
use mx_chain_communication_g.Common.{
  ℕ, ◌+◌, ◌==◌, Bool, true, false, not, Option, none, some, List, [], ◌∷◌, Bytes, bytes_key, Map,
  lookup, insert, if◌then◌else◌, ltb, Result, ok, err, reject_if,
}
use mx_chain_communication_g.Errors.{
  P2pError, nil_fetch_peers_on_topic_handler, invalid_duration_provided, nil_logger,
}

-- `closed` is whether the context is cancelled.
pub record PeersOnChannel : Type 0 where
  pub peers : Map Bytes (List Bytes)
  pub last_updated : List (Bytes × ℕ)
  pub refresh_interval : ℤ
  pub ttl_interval : ℤ
  pub closed : Bool

unfoldable pub is_zero : ℤ → Bool
is_zero (pos n) = n == 0
is_zero (negsuc n) = false

unfoldable pub new_peers_on_channel : Bool → ℤ → ℤ → Bool → Result P2pError PeersOnChannel
unfolding is_zero
new_peers_on_channel has_handler refresh_interval ttl_interval has_logger =
    reject_if (not has_handler) nil_fetch_peers_on_topic_handler (
      reject_if (is_zero refresh_interval) invalid_duration_provided (
        reject_if (is_zero ttl_interval) invalid_duration_provided (
          reject_if (not has_logger) nil_logger (
            ok (record {
              peers = [];
              last_updated = [];
              refresh_interval = refresh_interval;
              ttl_interval = ttl_interval;
              closed = false;
            })))))

unfoldable pub update_connected_peers_on_topic :
    PeersOnChannel → ℕ → Bytes → List Bytes → PeersOnChannel
update_connected_peers_on_topic poc now topic connected_peers = record poc {
  peers = insert topic connected_peers poc.peers;
  last_updated = insert topic now poc.last_updated;
}

unfoldable pub refresh_peers_on_topic :
    (Bytes → List Bytes) → ℕ → PeersOnChannel → Bytes → PeersOnChannel × List Bytes
unfolding update_connected_peers_on_topic
refresh_peers_on_topic fetch now poc topic =
    (update_connected_peers_on_topic poc now topic (fetch topic), fetch topic)

unfoldable pub connected_peers_on_channel :
    (Bytes → List Bytes) → ℕ → PeersOnChannel → Bytes → PeersOnChannel × List Bytes
unfolding refresh_peers_on_topic
connected_peers_on_channel fetch now poc topic = elim (lookup topic poc.peers) [
  | some peers ↦ (poc, peers)
  | none ↦ refresh_peers_on_topic fetch now poc topic
]

-- `needsToBeRefreshed` for a topic of the map; a topic outside it is not visited.
unfoldable pub needs_to_be_refreshed : PeersOnChannel → ℕ → Bytes → Bool
needs_to_be_refreshed poc now topic = elim (lookup topic poc.last_updated) [
  | none ↦ false
  | some last_refreshed ↦ ltb_ℤ poc.ttl_interval (sub_ℕ now last_refreshed)
]

-- The topics of one round of `refreshPeersOnAllKnownTopics`, from the keys of the map in some order.
unfoldable pub topics_to_be_refreshed : PeersOnChannel → ℕ → List (Bytes × ℕ) → List Bytes
unfolding needs_to_be_refreshed
topics_to_be_refreshed poc now [] = []
topics_to_be_refreshed poc now ((topic, _) ∷ entries) =
    let rest = topics_to_be_refreshed poc now entries in
    if needs_to_be_refreshed poc now topic then topic ∷ rest else rest

unfoldable pub refresh_all : (Bytes → List Bytes) → ℕ → PeersOnChannel → List Bytes → PeersOnChannel
unfolding refresh_peers_on_topic
refresh_all fetch now poc [] = poc
refresh_all fetch now poc (topic ∷ topics) =
    refresh_all fetch now (refresh_peers_on_topic fetch now poc topic).0 topics

-- One round of the loop of `refreshPeersOnAllKnownTopics`.
unfoldable pub refresh_round : (Bytes → List Bytes) → ℕ → PeersOnChannel → PeersOnChannel
unfolding topics_to_be_refreshed refresh_all
refresh_round fetch now poc =
    refresh_all fetch now poc (topics_to_be_refreshed poc now poc.last_updated)

unfoldable pub close : PeersOnChannel → PeersOnChannel
close poc = record poc { closed = true }
