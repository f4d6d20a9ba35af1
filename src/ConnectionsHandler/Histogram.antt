-- ===== src/ConnectionsHandler/Histogram.antt =====
-- `mapHistogram` of connectionsHandler.go. `metachain` is core.MetachainShardId.
use mx_chain_communication_g.Common.{
  decimal, ℕ, List, [], ◌∷◌, ◌++◌, map, Bytes, nat_key, if◌then◌else◌, Map, ltb, ◌==◌,
}
use mx_chain_communication_g.ConnectionsHandler.Counts.{number_at}

-- `sort.Slice` on the keys, which are all different.
unfoldable pub place_key : ℕ → List ℕ → List ℕ
place_key k [] = k ∷ []
place_key k (j ∷ keys) = if ltb k j then k ∷ j ∷ keys else j ∷ place_key k keys

unfoldable pub sort_keys : List ℕ → List ℕ
unfolding place_key
sort_keys [] = []
sort_keys (k ∷ keys) = place_key k (sort_keys keys)

-- `strings.Join`.
unfoldable pub join : Bytes → List Bytes → Bytes
join separator [] = []
join separator (s ∷ []) = s
join separator (s ∷ t ∷ rest) = s ++ (separator ++ join separator (t ∷ rest))

-- "meta", "shard ", ": " and ", ".
abbrev pub meta : Bytes
meta = 109 ∷ 101 ∷ 116 ∷ 97 ∷ []

abbrev pub shard_word : Bytes
shard_word = 115 ∷ 104 ∷ 97 ∷ 114 ∷ 100 ∷ 32 ∷ []

abbrev pub colon : Bytes
colon = 58 ∷ 32 ∷ []

abbrev pub comma : Bytes
comma = 44 ∷ 32 ∷ []

unfoldable pub histogram_entry : ℕ → Map ℕ ℕ → ℕ → Bytes
histogram_entry metachain input key =
    (if key == metachain then meta else shard_word ++ decimal key)
    ++ (colon ++ decimal (number_at key input))

unfoldable pub map_histogram : ℕ → Map ℕ ℕ → Bytes
unfolding histogram_entry sort_keys join
map_histogram metachain input =
    join comma (map (histogram_entry metachain input) (sort_keys (map (λ entry. entry.0) input)))
