-- ===== src/PeersOnChannel/Tests.antt =====
-- Runs of the peers on a topic, and the theorem at a concrete input.
use mx_chain_communication_g.Common.Int.{pos, ◌+ℤ◌}
use mx_chain_communication_g.Common.{
  ℕ, ◌≡◌, refl, false, some, List, [], ◌∷◌, Bytes, bytes_key, bytes_discrete, ℕ_discrete, lookup,
  insert,
}
use mx_chain_communication_g.PeersOnChannel.{
  PeersOnChannel, update_connected_peers_on_topic, refresh_peers_on_topic,
  connected_peers_on_channel, needs_to_be_refreshed, topics_to_be_refreshed, refresh_all,
  refresh_round,
}
use mx_chain_communication_g.PeersOnChannel.Refresh

abbrev topic : ℕ → Bytes
topic n = n ∷ []

-- Topic 1 was refreshed at time 10 and topic 2 at time 50.
abbrev two_topics : PeersOnChannel
two_topics = record {
  peers = (topic 1, (7 ∷ []) ∷ []) ∷ (topic 2, []) ∷ [];
  last_updated = (topic 1, 10) ∷ (topic 2, 50) ∷ [];
  refresh_interval = pos 20;
  ttl_interval = pos 30;
  closed = false;
}

abbrev fetch : Bytes → List Bytes
fetch t = (8 ∷ []) ∷ []

program : Unit {0}
unfolding connected_peers_on_channel refresh_round topics_to_be_refreshed refresh_all
    needs_to_be_refreshed refresh_peers_on_topic update_connected_peers_on_topic lookup insert
    bytes_discrete ℕ_discrete
program = tt

only_the_old_topic :
    (refresh_round fetch 60 two_topics).peers ≡ (topic 1, (8 ∷ []) ∷ []) ∷ (topic 2, []) ∷ []
unfolding program
only_the_old_topic = refl

-- An empty list of peers is an answer, and an unknown topic is fetched.
answers :
    ((connected_peers_on_channel fetch 60 two_topics (topic 2)).1 ≡ [])
    × ((connected_peers_on_channel fetch 60 two_topics (topic 3)).1 ≡ (8 ∷ []) ∷ [])
unfolding program
answers = (refl, refl)

refresh_round-lookup_example :
    (lookup (topic 1) (refresh_round fetch 60 two_topics).peers ≡ some (fetch (topic 1)))
    × (lookup (topic 1) (refresh_round fetch 60 two_topics).last_updated ≡ some 60)
unfolding program ◌+ℤ◌
refresh_round-lookup_example = Refresh.refresh_round-lookup fetch 60 two_topics (topic 1)
