-- ===== src/Discovery/Loop.antt =====
-- The loop of optimizedKadDhtDiscoverer.go: its state over all sequences of events, and what counts as
-- being connected to the seeders.
use mx_chain_communication_g.Common.{
  ℕ, suc, ◌==◌, ◌+◌, ◌≡◌, refl, Bool, true, false, ◌||◌, ◌&&◌, not, ◌⊎◌, Option, none, some, List,
  [], ◌∷◌, ◌++◌, Bytes, Result, ok, err, returns, if◌then◌else◌, is_some, length, arith,
  Option-cases, inl, inr, count_by, count_by-append,
}
use mx_chain_communication_g.Errors.{P2pError}
use mx_chain_communication_g.Discovery.{
  ArgKadDht, prepare_arguments, check_host_with_connection_management,
}
use mx_chain_communication_g.Discovery.Optimized.{
  DiscovererStatus, stat_not_initialized, stat_initialized, OptimizedKadDhtDiscoverer, Surroundings,
  new_optimized_kad_dht_discoverer, create_ch_time_seeders_reconnect, init, connect_to_seeder,
  reconnect_from, try_to_reconnect_at_least_to_a_seeder, find_peers, process_seeders_reconnect,
  answer_init, process_init, Event, chan_init, time_seeders_reconnect, chan_connect_to_seeders,
  time_find_peers, process_event, process_loop,
}

abbrev pub is_initialized : DiscovererStatus → Bool
is_initialized stat_initialized = true
is_initialized stat_not_initialized = false

abbrev pub is_nil : Option P2pError → Bool
is_nil e = not (is_some e)

-- A table is there exactly in the initialized status, and so many calls of `Bootstrap` succeeded as
-- that status allows: one or none.
abbrev pub IsSound : OptimizedKadDhtDiscoverer → Type 0
IsSound okdd =
    (is_some okdd.kad_dht ≡ is_initialized okdd.status)
    × (count_by is_nil okdd.replies ≡ (if is_initialized okdd.status then 1 else 0))

find_peers-IsSound :
    (okdd : OptimizedKadDhtDiscoverer)
    → IsSound okdd
    → (r : OptimizedKadDhtDiscoverer) × (find_peers okdd ≡ returns r) × IsSound r
unfolding find_peers
find_peers-IsSound okdd h = elim (Option-cases okdd.kad_dht) [
  | inl e ↦ (okdd, ground (arith, h.0), h)
  | inr (d, e) ↦ (record okdd { lookups = suc okdd.lookups }, ground (arith, h.0), h)
]

-- The same, with a reply that is still to be sent.
abbrev IsAnswered : OptimizedKadDhtDiscoverer × Option P2pError → Type 0
IsAnswered (okdd, reply) =
    (is_some okdd.kad_dht ≡ is_initialized okdd.status)
    × (count_by is_nil okdd.replies + (if is_nil reply then 1 else 0)
        ≡ (if is_initialized okdd.status then 1 else 0))

status_cases : (s : DiscovererStatus) → (s ≡ stat_not_initialized) ⊎ (s ≡ stat_initialized)
status_cases stat_not_initialized = inl refl
status_cases stat_initialized = inr refl

init-IsAnswered :
    (okdd : OptimizedKadDhtDiscoverer) (created : Result P2pError ℕ)
    → IsSound okdd
    → IsAnswered (init okdd created)
unfolding init
init-IsAnswered okdd (ok dht) h = elim (status_cases okdd.status) [
  | inl e ↦ ground (arith, h.0, h.1)
  | inr e ↦ ground (arith, h.0, h.1)
]
init-IsAnswered okdd (err failed) h = elim (status_cases okdd.status) [
  | inl e ↦ ground (arith, h.0, h.1)
  | inr e ↦ ground (arith, h.0, h.1)
]

answer_init-IsSound :
    (e : Surroundings) (okdd : OptimizedKadDhtDiscoverer) (reply : Option P2pError)
    → IsAnswered (okdd, reply)
    → (r : OptimizedKadDhtDiscoverer) × (answer_init e (okdd, reply) ≡ returns r) × IsSound r
unfolding answer_init create_ch_time_seeders_reconnect process_seeders_reconnect
answer_init-IsSound e okdd (some failed) h =
    (_, refl, (h.0, omega (arith, h.1, count_by-append {0} is_nil okdd.replies (some failed ∷ []))))
answer_init-IsSound e okdd none h =
    find_peers-IsSound
      (process_seeders_reconnect e (record okdd { replies = okdd.replies ++ none ∷ [] }))
      (h.0, omega (arith, h.1, count_by-append {0} is_nil okdd.replies (none ∷ [])))

process_event-IsSound :
    (e : Surroundings) (okdd : OptimizedKadDhtDiscoverer) (event : Event)
    → IsSound okdd
    → (r : OptimizedKadDhtDiscoverer) × (process_event e okdd event ≡ returns r) × IsSound r
unfolding process_event process_init process_seeders_reconnect create_ch_time_seeders_reconnect
process_event-IsSound e okdd (chan_init created) h =
    answer_init-IsSound e (init okdd created).0 (init okdd created).1
      (init-IsAnswered okdd created h)
process_event-IsSound e okdd time_seeders_reconnect h = (_, refl, h)
process_event-IsSound e okdd chan_connect_to_seeders h = (_, refl, h)
process_event-IsSound e okdd time_find_peers h = find_peers-IsSound okdd h

process_loop-IsSound :
    (okdd : OptimizedKadDhtDiscoverer) (events : List (Surroundings × Event))
    → IsSound okdd
    → (r : OptimizedKadDhtDiscoverer) × (process_loop okdd events ≡ returns r) × IsSound r
unfolding process_loop
process_loop-IsSound okdd [] h = (okdd, refl, h)
process_loop-IsSound okdd ((e, event) ∷ events) h =
    let next = process_event-IsSound e okdd event h in
    let rest = process_loop-IsSound next.0 events next.2 in (rest.0, ground arith, rest.2)

new_discoverer-IsSound :
    (arg : ArgKadDht) (new : OptimizedKadDhtDiscoverer)
    → new_optimized_kad_dht_discoverer arg ≡ ok new
    → IsSound new
unfolding new_optimized_kad_dht_discoverer
new_discoverer-IsSound arg new h = elim (Option-cases (prepare_arguments arg)) [
  | inr (failed, e) ↦ absurd (ground arith)
  | inl e ↦
      elim (Option-cases
        (check_host_with_connection_management arg.host arg.kdd_sharder arg.connection_watcher)) [
          | inr (failed, k) ↦ absurd (ground arith)
          | inl k ↦ (ground arith, ground arith)
        ]
]

-- The loop of a new discoverer never panics, whatever it receives: a Kademlia table is there exactly in
-- the initialized status, and of all calls of `Bootstrap` one succeeded in that status and none before.
pub new_discoverer-process_loop :
    (arg : ArgKadDht) (new : OptimizedKadDhtDiscoverer) (events : List (Surroundings × Event))
    → new_optimized_kad_dht_discoverer arg ≡ ok new
    → (r : OptimizedKadDhtDiscoverer) × (process_loop new events ≡ returns r) × IsSound r
new_discoverer-process_loop arg new events h =
    process_loop-IsSound new events (new_discoverer-IsSound arg new h)

-- Whether a seeder counts: it is reached, or the context is done after the attempt at it.
abbrev pub counts : Surroundings → Bytes → Bool
counts e s = is_nil (connect_to_seeder e s) || e.ended s

reconnect_from-counts :
    (e : Surroundings) (b : Bool) (seeders : List Bytes)
    → reconnect_from e b seeders ≡ (b || not (count_by (counts e) seeders == 0))
unfolding reconnect_from
reconnect_from-counts e b [] = ground arith
reconnect_from-counts e b (s ∷ seeders) = elim (Option-cases (connect_to_seeder e s)) [
  | inl h ↦ ground (arith, reconnect_from-counts e true seeders)
  | inr (failed, h) ↦ ground (arith, reconnect_from-counts e b seeders)
]

-- The seeders are next tried after the long interval when the discoverer is initialized and it has no
-- seeders, or some seeder is reached or the context is done after the attempt at it, and after the refresh interval of the peers otherwise.
process_seeders_reconnect-wait :
    (e : Surroundings) (okdd : OptimizedKadDhtDiscoverer)
    → (process_seeders_reconnect e okdd).wait ≡ (
        if is_initialized okdd.status
          && (length okdd.initial_peers_list == 0
              || not (count_by (counts e) okdd.initial_peers_list == 0))
        then okdd.seeders_reconnection_interval
        else okdd.peers_refresh_interval)
unfolding process_seeders_reconnect create_ch_time_seeders_reconnect
    try_to_reconnect_at_least_to_a_seeder
process_seeders_reconnect-wait e okdd = elim (status_cases okdd.status) [
  | inl h ↦ ground arith
  | inr h ↦ ground (arith, reconnect_from-counts e false okdd.initial_peers_list)
]
