-- ===== src/Rating.antt =====
-- p2p/rating/peersRatingHandler.go: peers in two tiers by a rating between -100 and 100.
-- The two caches are a parameter, see Cacher.antt; the locks are left out, so each call is one
-- step, and `displayPeersRating`, which only logs, is left out.
pub mod Tiers
pub mod Ranking
pub mod Selection
pub mod Monitor
mod Tests
use mx_chain_communication_g.Common.Int.{ℤ, pos, negsuc, ◌+ℤ◌, ltb_ℤ, leb_ℤ, to_int32}
use mx_chain_communication_g.Common.{
  ℕ, Bool, true, false, ◌||◌, Option, none, some, List, [], ◌∷◌, ◌++◌, Bytes, length, ltb, is_some,
  if◌then◌else◌, ◌==◌,
}
use mx_chain_communication_g.Cacher.{Cacher}

abbrev pub default_rating : ℤ
default_rating = pos 0

abbrev pub min_rating : ℤ
min_rating = negsuc 99

abbrev pub max_rating : ℤ
max_rating = pos 100

abbrev pub increase_factor : ℤ
increase_factor = pos 2

abbrev pub decrease_factor : ℤ
decrease_factor = negsuc 0

pub data Tier : Type 0 where
  top_rated_tier bad_rated_tier : Tier

unfoldable pub compute_rating_tier : ℤ → Tier
compute_rating_tier rating = if leb_ℤ default_rating rating then top_rated_tier else bad_rated_tier

-- The two `if` statements of `updateRating` that keep the rating in range.
unfoldable pub limit_rating : ℤ → ℤ
limit_rating rating =
    let capped = if ltb_ℤ max_rating rating then max_rating else rating in
    if ltb_ℤ capped min_rating then min_rating else capped

module _ (c : Cacher ℤ) where
  pub record PeersRatingHandler : Type 0 where
    pub top_rated_cache : c.Store
    pub bad_rated_cache : c.Store

  -- `getOldRating`: `none` is the flag `false`. A `Get` that finds nothing counts as one too.
  unfoldable pub get_old_rating : PeersRatingHandler → Bytes → PeersRatingHandler × Option ℤ
  get_old_rating h pid =
      let touched = record h { top_rated_cache = c.touch h.top_rated_cache pid } in
      elim (c.get h.top_rated_cache pid) [
        | some rating ↦ (touched, some rating)
        | none ↦ (
          record touched { bad_rated_cache = c.touch h.bad_rated_cache pid },
          c.get h.bad_rated_cache pid,
        )
      ]

  unfoldable pub put_top : PeersRatingHandler → Bytes → ℤ → PeersRatingHandler
  put_top h pid rating = record h { top_rated_cache = c.put h.top_rated_cache pid rating }

  unfoldable pub put_bad : PeersRatingHandler → Bytes → ℤ → PeersRatingHandler
  put_bad h pid rating = record h { bad_rated_cache = c.put h.bad_rated_cache pid rating }

  unfoldable pub move_peer_to_new_tier : PeersRatingHandler → ℤ → Tier → Bytes → PeersRatingHandler
  unfolding put_top put_bad
  move_peer_to_new_tier h rating top_rated_tier pid =
      put_top (record h { bad_rated_cache = c.remove h.bad_rated_cache pid }) pid rating
  move_peer_to_new_tier h rating bad_rated_tier pid =
      put_bad (record h { top_rated_cache = c.remove h.top_rated_cache pid }) pid rating

  -- The cases of `updateRatingCacher` on the old and the new tier.
  unfoldable pub store_rating : PeersRatingHandler → Bytes → Tier → Tier → ℤ → PeersRatingHandler
  unfolding move_peer_to_new_tier put_top put_bad
  store_rating h pid top_rated_tier top_rated_tier rating = put_top h pid rating
  store_rating h pid bad_rated_tier bad_rated_tier rating = put_bad h pid rating
  store_rating h pid _ new_tier rating = move_peer_to_new_tier h rating new_tier pid

  unfoldable pub update_rating_cacher : PeersRatingHandler → Bytes → ℤ → ℤ → PeersRatingHandler
  unfolding store_rating compute_rating_tier
  update_rating_cacher h pid old new =
      store_rating h pid (compute_rating_tier old) (compute_rating_tier new) new

  unfoldable pub update_rating : PeersRatingHandler → Bytes → ℤ → PeersRatingHandler
  update_rating h pid factor =
      let (h', found) = get_old_rating h pid in
      elim found [
        | none ↦ put_top h' pid default_rating
        | some old ↦ update_rating_cacher h' pid old (limit_rating (to_int32 (old +ℤ factor)))
      ]

  unfoldable pub increase_rating : PeersRatingHandler → Bytes → PeersRatingHandler
  increase_rating h pid = update_rating h pid increase_factor

  unfoldable pub decrease_rating : PeersRatingHandler → Bytes → PeersRatingHandler
  decrease_rating h pid = update_rating h pid decrease_factor

  -- The handler, and the two lists built so far.
  pub record Split : Type 0 where
    pub handler : PeersRatingHandler
    pub top_rated : List Bytes
    pub bad_rated : List Bytes

  -- The body of the loop of `splitPeersByTiers`.
  unfoldable pub split_peer : Split → Bytes → Split
  split_peer s peer =
      let is_top = is_some (c.get s.handler.top_rated_cache peer) in
      let is_bad = is_some (c.get s.handler.bad_rated_cache peer) in
      let is_new = if is_top then false else if is_bad then false else true in
      record {
        handler = if is_new then put_top s.handler peer default_rating else s.handler;
        top_rated = if is_top || is_new then s.top_rated ++ peer ∷ [] else s.top_rated;
        bad_rated = if is_bad then s.bad_rated ++ peer ∷ [] else s.bad_rated;
      }

  unfoldable pub split_peers_from : Split → List Bytes → Split
  split_peers_from s [] = s
  split_peers_from s (peer ∷ peers) = split_peers_from (split_peer s peer) peers

  unfoldable pub split_peers_by_tiers : PeersRatingHandler → List Bytes → Split
  split_peers_by_tiers h peers =
      split_peers_from (record { handler = h; top_rated = []; bad_rated = [] }) peers

  unfoldable pub get_top_rated_peers_from_list :
      PeersRatingHandler → List Bytes → ℤ → PeersRatingHandler × List Bytes
  get_top_rated_peers_from_list h peers expected =
      let s = split_peers_by_tiers h peers in
      if ltb_ℤ expected (pos 1) || length peers == 0
      then (h, [])
      else if ltb_ℤ (pos (length s.top_rated)) expected
      then (s.handler, s.top_rated ++ s.bad_rated)
      else (s.handler, s.top_rated)
