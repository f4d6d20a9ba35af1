-- ===== src/Cacher.antt =====
-- The interface `types.Cacher` of mx-chain-storage-go, which is not part of the repository: a cache
-- that may drop entries when one is put, and never changes the value of one that stays.
use mx_chain_communication_g.Common.{
  ℕ, suc, ◌≤◌, ◌<◌, is_some, ◌≡◌, ◌⊎◌, false, Option, none, some, Bytes, bytes_key, same,
  if◌then◌else◌,
}

pub record Cacher (V : Type 0) : Type 1 where
  pub Store : Type 0
  pub get : Store → Bytes → Option V
  -- What a `Get` does to the order in which entries are dropped.
  pub touch : Store → Bytes → Store
  pub put : Store → Bytes → V → Store
  pub remove : Store → Bytes → Store

pub record IsCache {V : Type 0} (c : Cacher V) : Type 0 where
  pub get-touch : (s : c.Store) (k j : Bytes) → c.get (c.touch s k) j ≡ c.get s j
  pub get-put_self : (s : c.Store) (k : Bytes) (v : V) → c.get (c.put s k v) k ≡ some v
  pub get-put_ne :
      (s : c.Store) (k j : Bytes) (v : V)
      → same k j ≡ false
      → (c.get (c.put s k v) j ≡ c.get s j) ⊎ (c.get (c.put s k v) j ≡ none)
  pub get-remove :
      (s : c.Store) (k j : Bytes) → c.get (c.remove s k) j ≡ (if same k j then none else c.get s j)

-- An LRU cache with room for `size` keys. The age of a key is the number of other keys that were used
-- after it; a `Get` that finds its key uses it, and a `Put` uses its key. A `Put` drops no key whose
-- age is below `size` less one.
pub record IsLru {V : Type 0} (c : Cacher V) (size : ℕ) : Type 0 where
  pub age : c.Store → Bytes → ℕ
  pub age-touch :
      (s : c.Store) (k j : Bytes)
      → age (c.touch s k) j ≤ (if is_some (c.get s k) then suc (age s j) else age s j)
  pub age-put : (s : c.Store) (k j : Bytes) (v : V) → age (c.put s k v) j ≤ suc (age s j)
  pub age-put_self : (s : c.Store) (k : Bytes) (v : V) → age (c.put s k v) k ≡ 0
  pub get-put_kept :
      (s : c.Store) (k j : Bytes) (v : V)
      → same k j ≡ false
      → suc (age s j) < size
      → c.get (c.put s k v) j ≡ c.get s j
