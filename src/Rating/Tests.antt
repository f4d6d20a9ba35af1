-- ===== src/Rating/Tests.antt =====
-- The rating handler over an association list, and the theorems at concrete inputs.
use mx_chain_communication_g.Common.Int.{ℤ, pos, negsuc, ◌≤ℤ◌, to_int32, ◌+ℤ◌}
use mx_chain_communication_g.Common.{
  ◌≤◌, subst, ◌≡◌, ◌⊎◌, refl, inl, Bool, some, List, [], ◌∷◌, Bytes, bytes_key, Map, lookup, insert,
  delete, lookup-insert, lookup-delete, same_refl, bytes_discrete, ℕ_discrete, arith, All, count_by,
  length,
}
use mx_chain_communication_g.Cacher.{Cacher, IsCache}
use mx_chain_communication_g.Rating.{
  PeersRatingHandler, increase_rating, decrease_rating, update_rating,
  get_top_rated_peers_from_list, update_rating_cacher, store_rating, move_peer_to_new_tier, put_top,
  put_bad, compute_rating_tier, limit_rating, get_old_rating, split_peer, split_peers_from,
  split_peers_by_tiers,
}
use mx_chain_communication_g.Rating.Tiers.{IsRated}
use mx_chain_communication_g.Rating.Ranking
use mx_chain_communication_g.Rating.Ranking.{rating_of}
use mx_chain_communication_g.Rating.Selection
use mx_chain_communication_g.Rating.Selection.{Call, increase, decrease, select, run, step}
use mx_chain_communication_g.Rating.Monitor.{
  extract_connected_peers_ratings, extract_from, fetch_rating,
}

-- A cache that drops nothing.
abbrev map_cacher : Cacher ℤ
map_cacher = record {
  Store = Map Bytes ℤ;
  get = λ s k. lookup k s;
  touch = λ s k. s;
  put = λ s k v. insert k v s;
  remove = λ s k. delete k s;
}

map_cacher-IsCache : IsCache map_cacher
map_cacher-IsCache = record {
  get-touch = λ s k j. refl;
  get-put_self = λ s k v. ground (arith, lookup-insert k k v s, same_refl k);
  get-put_ne = λ s k j v apart. inl (ground (arith, lookup-insert k j v s));
  get-remove = λ s k j. lookup-delete k j s;
}

abbrev peer_a : Bytes
peer_a = 65 ∷ []

abbrev peer_b : Bytes
peer_b = 66 ∷ []

abbrev empty : PeersRatingHandler map_cacher
empty = record { top_rated_cache = []; bad_rated_cache = [] }

empty-IsRated : IsRated map_cacher map_cacher-IsCache empty
unfolding lookup
empty-IsRated = record {
  top = λ k r e. absurd (ground arith);
  bad = λ k r e. absurd (ground arith);
  apart = λ k r e. absurd (ground arith);
}

-- `peer_b` is rated down twice, `peer_a` is new.
abbrev calls : List Call
calls = decrease peer_b ∷ decrease peer_b ∷ increase peer_a ∷ []

abbrev two : PeersRatingHandler map_cacher
two = record { top_rated_cache = (peer_a, pos 0) ∷ []; bad_rated_cache = (peer_b, negsuc 0) ∷ [] }

program : Unit {0}
unfolding to_int32 ◌+ℤ◌ rating_of increase_rating decrease_rating run lookup insert delete
    update_rating get_top_rated_peers_from_list step update_rating_cacher store_rating
    move_peer_to_new_tier put_top put_bad compute_rating_tier limit_rating get_old_rating split_peer
    split_peers_from split_peers_by_tiers extract_from fetch_rating extract_connected_peers_ratings
    bytes_discrete ℕ_discrete
program = tt

run-two : run map_cacher map_cacher-IsCache empty calls ≡ two
unfolding program
run-two = refl

run-IsRated_example :
    IsRated map_cacher map_cacher-IsCache (run map_cacher map_cacher-IsCache empty calls)
run-IsRated_example = Selection.run-IsRated map_cacher map_cacher-IsCache empty calls empty-IsRated

two-IsRated : IsRated map_cacher map_cacher-IsCache two
two-IsRated =
    subst (IsRated map_cacher map_cacher-IsCache) run-two
      (Selection.run-IsRated map_cacher map_cacher-IsCache empty calls empty-IsRated)

increase_decrease_rating_example :
    (rating_of map_cacher map_cacher-IsCache (increase_rating map_cacher two peer_b) peer_b
      ≡ some (pos 1))
    × (rating_of map_cacher map_cacher-IsCache (decrease_rating map_cacher two peer_b) peer_b
        ≡ some (negsuc 1))
unfolding program
increase_decrease_rating_example =
    Ranking.increase_decrease_rating map_cacher map_cacher-IsCache two peer_b two-IsRated

get_top_rated_peers_from_list_sound_example :
    ((pos 2 ≤ℤ pos 1)
      × ((q : Bytes → Bool) → count_by q (peer_a ∷ []) ≡ count_by q (peer_b ∷ peer_a ∷ [])))
    ⊎ ((pos 1 ≤ℤ pos 1)
        × (pos 1 ≤ℤ pos (length (peer_a ∷ [])))
        × All (Selection.NoBad map_cacher map_cacher-IsCache two) (peer_a ∷ [])
        × ((q : Bytes → Bool) → count_by q (peer_a ∷ []) ≤ count_by q (peer_b ∷ peer_a ∷ [])))
unfolding program
get_top_rated_peers_from_list_sound_example =
    Selection.get_top_rated_peers_from_list_sound map_cacher map_cacher-IsCache two
      (peer_b ∷ peer_a ∷ []) (pos 1) two-IsRated (omega arith)

abbrev print : ℤ → Bytes
print (pos n) = n ∷ []
print (negsuc n) = 45 ∷ n ∷ []
