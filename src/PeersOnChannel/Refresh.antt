-- ===== src/PeersOnChannel/Refresh.antt =====
-- What a round of peersOnChannel.go leaves in its maps, and what it answers.
use mx_chain_communication_g.Common.Int.{ℤ, pos, negsuc, ◌+ℤ◌, sub_ℕ, ltb_ℤ, leb_ℤ}
use mx_chain_communication_g.Common.{
  not, ℕ, ◌≡◌, refl, Bool, true, false, ◌&&◌, none, some, List, [], ◌∷◌, Bytes, bytes_key, same,
  lookup, lookup-insert, if◌then◌else◌, is_some, arith, Option-cases, inl, inr, same→eq,
}
use mx_chain_communication_g.PeersOnChannel.{
  PeersOnChannel, update_connected_peers_on_topic, refresh_peers_on_topic, needs_to_be_refreshed,
  topics_to_be_refreshed, refresh_all, refresh_round,
}

abbrev listed : Bytes → List Bytes → Bool
listed t [] = false
listed t (topic ∷ topics) = let rest = listed t topics in if same topic t then true else rest

refresh_all-lookup :
    (fetch : Bytes → List Bytes) (now : ℕ) (poc : PeersOnChannel) (topics : List Bytes) (t : Bytes)
    → (lookup t (refresh_all fetch now poc topics).peers
        ≡ (if listed t topics then some (fetch t) else lookup t poc.peers))
      × (lookup t (refresh_all fetch now poc topics).last_updated
          ≡ (if listed t topics then some now else lookup t poc.last_updated))
unfolding refresh_all refresh_peers_on_topic update_connected_peers_on_topic
refresh_all-lookup fetch now poc [] t = (refl, refl)
refresh_all-lookup fetch now poc (topic ∷ topics) t =
    let rest =
      refresh_all-lookup fetch now (refresh_peers_on_topic fetch now poc topic).0 topics t in
    (
      ground (arith, rest.0, lookup-insert topic t (fetch topic) poc.peers, same→eq topic t),
      ground (arith, rest.1, lookup-insert topic t now poc.last_updated),
    )

listed-topics :
    (poc : PeersOnChannel) (now : ℕ) (entries : List (Bytes × ℕ)) (t : Bytes)
    → listed t (topics_to_be_refreshed poc now entries)
      ≡ needs_to_be_refreshed poc now t && is_some (lookup t entries)
unfolding topics_to_be_refreshed lookup
listed-topics poc now [] t = ground arith
listed-topics poc now ((topic, time) ∷ entries) t =
    ground (arith, listed-topics poc now entries t, same→eq topic t)

later_than :
    (ttl : ℤ) (now last : ℕ) → ltb_ℤ ttl (sub_ℕ now last) ≡ not (leb_ℤ (pos now) (pos last +ℤ ttl))
unfolding ◌+ℤ◌
later_than (pos n) now last = ground arith
later_than (negsuc n) now last = ground arith

needs_known :
    (poc : PeersOnChannel) (now : ℕ) (t : Bytes)
    → needs_to_be_refreshed poc now t && is_some (lookup t poc.last_updated)
      ≡ needs_to_be_refreshed poc now t
unfolding needs_to_be_refreshed
needs_known poc now t = elim (Option-cases (lookup t poc.last_updated)) [
  | inl e ↦ ground arith
  | inr (l, e) ↦ ground arith
]

-- Whether the topic has a time, and the clock is past that time and the interval of life together.
abbrev pub too_old : PeersOnChannel → ℕ → Bytes → Bool
too_old poc now t = elim (lookup t poc.last_updated) [
  | none ↦ false
  | some last ↦ not (leb_ℤ (pos now) (pos last +ℤ poc.ttl_interval))
]

needs-too_old :
    (poc : PeersOnChannel) (now : ℕ) (t : Bytes)
    → needs_to_be_refreshed poc now t ≡ too_old poc now t
unfolding needs_to_be_refreshed
needs-too_old poc now t = elim (Option-cases (lookup t poc.last_updated)) [
  | inl e ↦ ground arith
  | inr (l, e) ↦ ground (arith, later_than poc.ttl_interval now l)
]

-- A round fetches exactly the topics whose time lies more than the interval of life before that of
-- the round: their peers are then those fetched and their time is that of the round, and what is kept
-- for any other topic stays.
pub refresh_round-lookup :
    (fetch : Bytes → List Bytes) (now : ℕ) (poc : PeersOnChannel) (t : Bytes)
    → (lookup t (refresh_round fetch now poc).peers
        ≡ (if too_old poc now t then some (fetch t) else lookup t poc.peers))
      × (lookup t (refresh_round fetch now poc).last_updated
          ≡ (if too_old poc now t then some now else lookup t poc.last_updated))
unfolding refresh_round
refresh_round-lookup fetch now poc t =
    let topics = topics_to_be_refreshed poc now poc.last_updated in
    let all = refresh_all-lookup fetch now poc topics t in
    let which = listed-topics poc now poc.last_updated t in
    (
      ground (arith, all.0, which, needs_known poc now t, needs-too_old poc now t),
      ground (arith, all.1, which, needs_known poc now t, needs-too_old poc now t),
    )
