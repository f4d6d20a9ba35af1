-- ===== src/DirectSender/Streams.antt =====
-- The sequence numbers and the choice of a connection in p2p/libp2p/directSender.go.
use mx_chain_communication_g.Common.{
  ℕ, zero, suc, ◌+◌, ◌*◌, ◌%◌, ◌^◌, ◌≤◌, ◌<◌, ◌≡◌, ◌≢◌, refl, ap, subst, inl, inr, some, List, [],
  ◌∷◌, Bytes, arith, length, leb, All, get_elem?, Bool-cases, ok,
}
use mx_chain_communication_g.DirectSender.{
  put_uint64, next_sequence_number, sequence_number_size, Conn, get_connection_from, get_connection,
}

-- The number that eight bytes stand for, high byte first.
abbrev pub value_from : ℕ → Bytes → ℕ
value_from n [] = n
value_from n (b ∷ bytes) = value_from (n * 256 + b) bytes

pub value-put_uint64 : (v : ℕ) → v < 2 ^ 64 → value_from 0 (put_uint64 v) ≡ v
unfolding put_uint64
value-put_uint64 v small = omega arith

put_uint64-next : (v : ℕ) → v < 2 ^ 64 → put_uint64 (suc v % 2 ^ 64) ≢ put_uint64 v
put_uint64-next v small e = absurd (
    omega (
      arith,
      value-put_uint64 (suc v % 2 ^ 64) (omega arith),
      value-put_uint64 v small,
      ap (value_from 0) e,
    ))

-- NextSequenceNumber gives eight bytes, which stand high byte first for the counter plus one, modulo
-- 2^64, and leaves that number as the counter; the number before it has other bytes.
next_sequence_number_lem :
    (counter : ℕ)
    → counter < 2 ^ 64
    → let (new, bytes) = next_sequence_number counter in
      (new ≡ suc counter % 2 ^ 64)
      × (length bytes ≡ sequence_number_size)
      × (value_from 0 bytes ≡ suc counter % 2 ^ 64)
      × (bytes ≢ put_uint64 counter)
unfolding next_sequence_number put_uint64
next_sequence_number_lem counter small = (
  refl,
  refl,
  value-put_uint64 (suc counter % 2 ^ 64) (omega arith),
  put_uint64-next counter small,
)

-- `found` is one of `best ∷ conns`, and none of them has more streams.
abbrev IsMost : Conn → List Conn → Conn → Type 0
IsMost best conns found =
    (length best.streams ≤ length found.streams)
    × All (λ c. length c.streams ≤ length found.streams) conns
    × (i : ℕ) × (get_elem? (best ∷ conns) i ≡ some found)

get_elem?-skip :
    (best c found : Conn) (conns : List Conn) (i : ℕ)
    → get_elem? (best ∷ conns) i ≡ some found
    → (j : ℕ) × (get_elem? (best ∷ c ∷ conns) j ≡ some found)
get_elem?-skip best c found conns zero e = (0, e)
get_elem?-skip best c found conns (suc i) e = (suc (suc i), e)

get_connection_from-IsMost :
    (best : Conn) (conns : List Conn)
    → IsMost best conns (get_connection_from (length best.streams) best conns)
unfolding get_connection_from
get_connection_from-IsMost best [] = (omega arith, tt, 0, refl)
get_connection_from-IsMost best (c ∷ conns) =
    elim (Bool-cases (leb (length best.streams) (length c.streams))) [
      | inl q ↦
          let (most, all, i, here) = get_connection_from-IsMost c conns in
          subst (IsMost best (c ∷ conns)) (ground arith)
            (ground (arith, most), (most, all), suc i, here)
      | inr q ↦
          let (most, all, i, here) = get_connection_from-IsMost best conns in
          let found = get_connection_from (length best.streams) best conns in
          let (j, there) = get_elem?-skip best c found conns i here in
          subst (IsMost best (c ∷ conns)) (ground arith)
            (most, (ground (arith, most), all), j, there)
    ]

-- For a peer with connections the direct sender takes one of them, and none of them has more
-- streams.
get_connection-most :
    (c : Conn) (conns : List Conn)
    → (found : Conn) × (get_connection (c ∷ conns) ≡ ok found)
      × All (λ other. length other.streams ≤ length found.streams) (c ∷ conns)
      × (i : ℕ) × (get_elem? (c ∷ conns) i ≡ some found)
unfolding get_connection
get_connection-most c conns =
    let (most, all, i, here) = get_connection_from-IsMost c conns in
    (get_connection_from (length c.streams) c conns, refl, (most, all), i, here)
