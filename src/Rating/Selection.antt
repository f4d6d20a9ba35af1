-- ===== src/Rating/Selection.antt =====
-- `GetTopRatedPeersFromList` of p2p/rating/peersRatingHandler.go, and sequences of calls.
use mx_chain_communication_g.Common.Int.{ℤ, pos, ◌≤ℤ◌, ltb_ℤ}
use mx_chain_communication_g.Common.{
  ℕ, suc, not, is_some, ap, length-append, ◌+◌, ◌≤◌, ◌≡◌, ◌⊎◌, ◌∙◌, ◌==◌, refl, inl, inr, Bool,
  ◌||◌, none, List, [], ◌∷◌, ◌++◌, Bytes, bytes_key, arith, Bool-cases, Option-cases, subst, length,
  count_by, count_by-append, All,
}
use mx_chain_communication_g.Cacher.{Cacher, IsCache}
use mx_chain_communication_g.Rating.{
  default_rating, PeersRatingHandler, put_top, increase_rating, decrease_rating, Split, split_peer,
  split_peers_from, split_peers_by_tiers, get_top_rated_peers_from_list, increase_factor,
  decrease_factor,
}
use mx_chain_communication_g.Rating.Tiers.{IsRated, update_rating-IsRated, put_top-IsRated}

-- The calls that write to the handler.
pub data Call : Type 0 where
  increase decrease : Bytes → Call
  select : List Bytes → ℤ → Call

module _ (c : Cacher ℤ) (laws : IsCache c) where
  unfoldable pub step : PeersRatingHandler c → Call → PeersRatingHandler c
  step h (increase k) = increase_rating c h k
  step h (decrease k) = decrease_rating c h k
  step h (select peers expected) = (get_top_rated_peers_from_list c h peers expected).0

  unfoldable pub run : PeersRatingHandler c → List Call → PeersRatingHandler c
  run h [] = h
  run h (call ∷ calls) = run (step h call) calls

  abbrev pub NoBad : PeersRatingHandler c → Bytes → Type 0
  NoBad h p = c.get h.bad_rated_cache p ≡ none

  split_peer-IsRated :
      (s : Split c) (p : Bytes)
      → IsRated c laws s.handler
      → IsRated c laws (split_peer c s p).handler
  unfolding split_peer
  split_peer-IsRated s p v = elim (Option-cases (c.get s.handler.top_rated_cache p)) [
    | inr (r, e) ↦ subst (IsRated c laws) (ground arith) v
    | inl e ↦ elim (Option-cases (c.get s.handler.bad_rated_cache p)) [
      | inr (r, f) ↦ subst (IsRated c laws) (ground arith) v
      | inl f ↦
          subst (IsRated c laws) (ground arith)
            (put_top-IsRated c laws s.handler p default_rating v f (omega arith, omega arith))
    ]
  ]

  split_peer-bad :
      (s : Split c) (p : Bytes)
      → (split_peer c s p).handler.bad_rated_cache ≡ s.handler.bad_rated_cache
  unfolding split_peer put_top
  split_peer-bad s p = ground arith

  split_peer-count :
      (q : Bytes → Bool) (s : Split c) (p : Bytes)
      → IsRated c laws s.handler
      → count_by q (split_peer c s p).top_rated + count_by q (split_peer c s p).bad_rated
        ≡ (count_by q s.top_rated + count_by q s.bad_rated) + count_by q (p ∷ [])
  unfolding split_peer
  split_peer-count q s p v = elim (Option-cases (c.get s.handler.top_rated_cache p)) [
    | inr (r, e) ↦ ground (arith, v.apart p r e, count_by-append q s.top_rated (p ∷ []))
    | inl e ↦
        ground
          (arith, count_by-append q s.top_rated (p ∷ []), count_by-append q s.bad_rated (p ∷ []))
  ]

  split_peers_from-IsRated :
      (s : Split c) (peers : List Bytes)
      → IsRated c laws s.handler
      → IsRated c laws (split_peers_from c s peers).handler
  unfolding split_peers_from
  split_peers_from-IsRated s [] v = v
  split_peers_from-IsRated s (p ∷ peers) v =
      split_peers_from-IsRated (split_peer c s p) peers (split_peer-IsRated s p v)

  split_peers_from-count :
      (q : Bytes → Bool) (s : Split c) (peers : List Bytes)
      → IsRated c laws s.handler
      → count_by q (split_peers_from c s peers).top_rated
          + count_by q (split_peers_from c s peers).bad_rated
        ≡ (count_by q s.top_rated + count_by q s.bad_rated) + count_by q peers
  unfolding split_peers_from
  split_peers_from-count q s [] v = omega arith
  split_peers_from-count q s (p ∷ peers) v = omega (
    arith,
    split_peers_from-count q (split_peer c s p) peers (split_peer-IsRated s p v),
    split_peer-count q s p v,
  )

  All-end :
      (P : Bytes → Type 0) (xs : List Bytes) (x : Bytes) → All P xs → P x → All P (xs ++ x ∷ [])
  All-end P [] x h g = (g, tt)
  All-end P (y ∷ xs) x h g = (h.0, All-end P xs x h.1 g)

  split_peer-All :
      (h : PeersRatingHandler c) (s : Split c) (p : Bytes)
      → IsRated c laws s.handler
      → s.handler.bad_rated_cache ≡ h.bad_rated_cache
      → All (NoBad h) s.top_rated
      → All (NoBad h) (split_peer c s p).top_rated
  unfolding split_peer
  split_peer-All h s p v kept good = elim (Option-cases (c.get s.handler.top_rated_cache p)) [
    | inr (r, e) ↦
        subst (All (NoBad h)) (ground arith) (
          All-end (NoBad h) s.top_rated p good (subst (λ b. c.get b p ≡ none) kept (v.apart p r e)))
    | inl e ↦ elim (Option-cases (c.get s.handler.bad_rated_cache p)) [
      | inr (r, f) ↦ subst (All (NoBad h)) (ground arith) good
      | inl f ↦
          subst (All (NoBad h)) (ground arith)
            (All-end (NoBad h) s.top_rated p good (subst (λ b. c.get b p ≡ none) kept f))
    ]
  ]

  split_peers_from-All :
      (h : PeersRatingHandler c) (s : Split c) (peers : List Bytes)
      → IsRated c laws s.handler
      → s.handler.bad_rated_cache ≡ h.bad_rated_cache
      → All (NoBad h) s.top_rated
      → All (NoBad h) (split_peers_from c s peers).top_rated
  unfolding split_peers_from
  split_peers_from-All h s [] v kept good = good
  split_peers_from-All h s (p ∷ peers) v kept good =
      split_peers_from-All h (split_peer c s p) peers (split_peer-IsRated s p v)
        (split_peer-bad s p ∙ kept) (split_peer-All h s p v kept good)

  get_top_rated_peers_from_list-IsRated :
      (h : PeersRatingHandler c) (peers : List Bytes) (expected : ℤ)
      → IsRated c laws h
      → IsRated c laws (get_top_rated_peers_from_list c h peers expected).0
  unfolding get_top_rated_peers_from_list split_peers_by_tiers
  get_top_rated_peers_from_list-IsRated h peers expected v =
      elim (Bool-cases (ltb_ℤ expected (pos 1) || length peers == 0)) [
        | inl e ↦ subst (IsRated c laws) (ground arith) v
        | inr e ↦ subst (IsRated c laws) (ground arith) (
            split_peers_from-IsRated (record { handler = h; top_rated = []; bad_rated = [] }) peers
              v)
      ]

  -- Any sequence of IncreaseRating, DecreaseRating and GetTopRatedPeersFromList keeps a well-formed
  -- handler well-formed: ratings from 0 to 100 in the top cache, from -100 to -1 in the bad one, and
  -- no peer in both.
  pub run-IsRated :
      (h : PeersRatingHandler c) (calls : List Call)
      → IsRated c laws h
      → IsRated c laws (run h calls)
  unfolding run step increase_rating decrease_rating
  run-IsRated h [] v = v
  run-IsRated h (increase k ∷ calls) v =
      run-IsRated (increase_rating c h k) calls (update_rating-IsRated c laws h k increase_factor v)
  run-IsRated h (decrease k ∷ calls) v =
      run-IsRated (decrease_rating c h k) calls (update_rating-IsRated c laws h k decrease_factor v)
  run-IsRated h (select peers expected ∷ calls) v =
      run-IsRated (get_top_rated_peers_from_list c h peers expected).0 calls
        (get_top_rated_peers_from_list-IsRated h peers expected v)

  -- How many of the peers have no bad rating.
  abbrev pub not_bad_count : PeersRatingHandler c → List Bytes → ℕ
  not_bad_count h peers = count_by (λ p. not (is_some (c.get h.bad_rated_cache p))) peers

  split_peer-length :
      (h : PeersRatingHandler c) (s : Split c) (p : Bytes)
      → IsRated c laws s.handler
      → s.handler.bad_rated_cache ≡ h.bad_rated_cache
      → length (split_peer c s p).top_rated ≡ length s.top_rated + not_bad_count h (p ∷ [])
  unfolding split_peer
  split_peer-length h s p v kept =
      let bad : c.get s.handler.bad_rated_cache p ≡ c.get h.bad_rated_cache p =
        ap (λ b. c.get b p) kept in
      elim (Option-cases (c.get s.handler.top_rated_cache p)) [
        | inr (r, e) ↦ ground (arith, v.apart p r e, bad, length-append s.top_rated (p ∷ []))
        | inl e ↦ ground (arith, bad, length-append s.top_rated (p ∷ []))
      ]

  split_peers_from-length :
      (h : PeersRatingHandler c) (s : Split c) (peers : List Bytes)
      → IsRated c laws s.handler
      → s.handler.bad_rated_cache ≡ h.bad_rated_cache
      → length (split_peers_from c s peers).top_rated ≡ length s.top_rated + not_bad_count h peers
  unfolding split_peers_from
  split_peers_from-length h s [] v kept = omega arith
  split_peers_from-length h s (p ∷ peers) v kept =
      let rest =
        split_peers_from-length h (split_peer c s p) peers (split_peer-IsRated s p v)
          (split_peer-bad s p ∙ kept) in
      omega (arith, rest, split_peer-length h s p v kept)

  -- In a well-formed handler, for a positive number of expected peers, GetTopRatedPeersFromList
  -- returns all the peers that it was given, each as often, when fewer than the expected number of
  -- them have no bad rating. Otherwise it returns at least the expected number of them, none more
  -- often than given and none of which had a bad rating.
  pub get_top_rated_peers_from_list_sound :
      (h : PeersRatingHandler c) (peers : List Bytes) (expected : ℤ)
      → IsRated c laws h
      → pos 1 ≤ℤ expected
      → let result = (get_top_rated_peers_from_list c h peers expected).1 in
        ((pos (suc (not_bad_count h peers)) ≤ℤ expected)
          × ((q : Bytes → Bool) → count_by q result ≡ count_by q peers))
        ⊎ ((expected ≤ℤ pos (not_bad_count h peers))
            × (expected ≤ℤ pos (length result))
            × All (NoBad h) result
            × ((q : Bytes → Bool) → count_by q result ≤ count_by q peers))
  unfolding get_top_rated_peers_from_list split_peers_by_tiers
  get_top_rated_peers_from_list_sound h [] expected v positive = inl (positive, λ q. ground arith)
  get_top_rated_peers_from_list_sound h (p ∷ peers) expected v positive =
      let start : Split c = record { handler = h; top_rated = []; bad_rated = [] } in
      let s = split_peers_from c start (p ∷ peers) in
      let tops = split_peers_from-length h start (p ∷ peers) v refl in
      elim (Bool-cases (ltb_ℤ (pos (length s.top_rated)) expected)) [
        | inl few ↦ inl (
          ground (arith, tops),
          λ q. ground (
            arith,
            split_peers_from-count q start (p ∷ peers) v,
            count_by-append q s.top_rated s.bad_rated,
          ),
        )
        | inr enough ↦ inr (
          ground (arith, tops),
          ground arith,
          subst (All (NoBad h)) (ground arith) (split_peers_from-All h start (p ∷ peers) v refl tt),
          λ q. ground (arith, split_peers_from-count q start (p ∷ peers) v),
        )
      ]
