-- ===== src/Discovery/Continuous.antt =====
-- continuousKadDhtDiscoverer.go: the life of the discoverer. `refresh_cancel` is whether the function
-- that cancels the refresh is set; `streams_removed` counts the calls of `RemoveStreamHandler`.
use mx_chain_communication_g.Common.{
  ℕ, suc, ◌≡◌, refl, Bool, true, false, Option, none, some, List, [], ◌∷◌, Bytes, Result, ok, err,
  Outcome, returns, panics, ◌>>=◌, if◌then◌else◌, is_some, arith, Option-cases, inl, inr,
}
use mx_chain_communication_g.Errors.{P2pError, peer_discovery_process_already_started}
use mx_chain_communication_g.Discovery.{ArgKadDht, prepare_arguments}

pub record ContinuousKadDhtDiscoverer : Type 0 where
  pub kad_dht : Option ℕ
  pub refresh_cancel : Bool
  pub initial_peers_list : List Bytes
  pub protocol_id : Bytes
  pub streams_removed : ℕ

unfoldable pub new_continuous_kad_dht_discoverer :
    ArgKadDht → Result P2pError ContinuousKadDhtDiscoverer
new_continuous_kad_dht_discoverer arg = elim (prepare_arguments arg) [
  | some failed ↦ err failed
  | none ↦ ok (record {
    kad_dht = none;
    refresh_cancel = false;
    initial_peers_list = arg.initial_peers_list;
    protocol_id = arg.protocol_id;
    streams_removed = 0;
  })
]

-- `startDHT`, from what `NewHostWithConnectionManagement` and `dht.New` return.
unfoldable pub start_dht :
    ContinuousKadDhtDiscoverer
    → Option P2pError
    → Result P2pError ℕ
    → ContinuousKadDhtDiscoverer × Option P2pError
start_dht ckdd (some failed) created = (ckdd, some failed)
start_dht ckdd none (err failed) = (ckdd, some failed)
start_dht ckdd none (ok dht) = (record ckdd { kad_dht = some dht; refresh_cancel = true }, none)

unfoldable pub bootstrap :
    ContinuousKadDhtDiscoverer
    → Option P2pError
    → Result P2pError ℕ
    → ContinuousKadDhtDiscoverer × Option P2pError
unfolding start_dht
bootstrap ckdd host_result created = elim ckdd.kad_dht [
  | some _ ↦ (ckdd, some peer_discovery_process_already_started)
  | none ↦ start_dht ckdd host_result created
]

-- `stopDHT`; `closed` is what `Close` of the table returns. A nil table panics there.
unfoldable pub stop_dht :
    ContinuousKadDhtDiscoverer
    → Option P2pError
    → Outcome (ContinuousKadDhtDiscoverer × Option P2pError)
stop_dht ckdd closed =
    let stopped = record ckdd {
      kad_dht = none;
      refresh_cancel = false;
      streams_removed = suc ckdd.streams_removed;
    } in
    if ckdd.refresh_cancel
    then (elim ckdd.kad_dht [ none ↦ panics | some _ ↦ returns (stopped, closed) ])
    else returns (ckdd, none)

-- The calls on a discoverer, with what the table answers.
pub data Call : Type 0 where
  start : Option P2pError → Result P2pError ℕ → Call
  stop : Option P2pError → Call

unfoldable pub run : ContinuousKadDhtDiscoverer → List Call → Outcome ContinuousKadDhtDiscoverer
run ckdd [] = returns ckdd
run ckdd (start host_result created ∷ calls) = run (bootstrap ckdd host_result created).0 calls
run ckdd (stop closed ∷ calls) =
    stop_dht ckdd closed >>= λ (r : ContinuousKadDhtDiscoverer × Option P2pError). run r.0 calls

-- The table and the function that cancels its refresh are set together.
abbrev pub IsPaired : ContinuousKadDhtDiscoverer → Type 0
IsPaired ckdd = is_some ckdd.kad_dht ≡ ckdd.refresh_cancel

start_dht-IsPaired :
    (ckdd : ContinuousKadDhtDiscoverer) (h : Option P2pError) (c : Result P2pError ℕ)
    → IsPaired ckdd
    → IsPaired (start_dht ckdd h c).0
unfolding start_dht
start_dht-IsPaired ckdd (some failed) c i = i
start_dht-IsPaired ckdd none (err failed) i = i
start_dht-IsPaired ckdd none (ok dht) i = refl

bootstrap-IsPaired :
    (ckdd : ContinuousKadDhtDiscoverer) (h : Option P2pError) (c : Result P2pError ℕ)
    → IsPaired ckdd
    → IsPaired (bootstrap ckdd h c).0
unfolding bootstrap
bootstrap-IsPaired ckdd h c i = elim (Option-cases ckdd.kad_dht) [
  | inl e ↦ ground (arith, start_dht-IsPaired ckdd h c i)
  | inr (d, e) ↦ ground arith
]

-- No panic, and no table is left.
stop_dht-stops :
    (ckdd : ContinuousKadDhtDiscoverer) (c : Option P2pError)
    → IsPaired ckdd
    → (r : ContinuousKadDhtDiscoverer) × (e : Option P2pError) × (stop_dht ckdd c ≡ returns (r, e))
      × IsPaired r
      × (r.kad_dht ≡ none)
unfolding stop_dht
stop_dht-stops ckdd c i = elim (Option-cases ckdd.kad_dht) [
  | inl e ↦ (ckdd, none, ground arith, i, e)
  | inr (d, e) ↦ (
    record ckdd {
      kad_dht = none;
      refresh_cancel = false;
      streams_removed = suc ckdd.streams_removed;
    },
    c,
    ground arith,
    refl,
    refl,
  )
]

run-IsPaired :
    (ckdd : ContinuousKadDhtDiscoverer) (calls : List Call)
    → IsPaired ckdd
    → (r : ContinuousKadDhtDiscoverer) × (run ckdd calls ≡ returns r) × IsPaired r
unfolding run
run-IsPaired ckdd [] i = (ckdd, refl, i)
run-IsPaired ckdd (start h c ∷ calls) i =
    run-IsPaired (bootstrap ckdd h c).0 calls (bootstrap-IsPaired ckdd h c i)
run-IsPaired ckdd (stop c ∷ calls) i =
    let stopped = stop_dht-stops ckdd c i in
    let rest = run-IsPaired stopped.0 calls stopped.3 in (rest.0, ground arith, rest.2)

-- A new discoverer never panics in a sequence of `Bootstrap` and `stopDHT`. A further `stopDHT` leaves
-- it without a table, and `Bootstrap` then starts again when the host and the table can be created.
pub run_then_restart :
    (arg : ArgKadDht) (new : ContinuousKadDhtDiscoverer) (calls : List Call)
    (closed : Option P2pError) (dht : ℕ)
    → new_continuous_kad_dht_discoverer arg ≡ ok new
    → (r : ContinuousKadDhtDiscoverer) × (stopped : ContinuousKadDhtDiscoverer) × (e : Option
        P2pError)
      × (run new calls ≡ returns r)
      × (stop_dht r closed ≡ returns (stopped, e))
      × ((bootstrap stopped none (ok dht)).1 ≡ none)
      × ((bootstrap stopped none (ok dht)).0.kad_dht ≡ some dht)
unfolding new_continuous_kad_dht_discoverer bootstrap start_dht
run_then_restart arg new calls closed dht h =
    let paired : IsPaired new = elim (Option-cases (prepare_arguments arg)) [
      | inl e ↦ ground arith
      | inr (failed, e) ↦ absurd (ground arith)
    ] in
    let ran = run-IsPaired new calls paired in
    let stopped = stop_dht-stops ran.0 closed ran.2 in
    (ran.0, stopped.0, stopped.1, ran.1, stopped.2, ground arith, ground arith)
