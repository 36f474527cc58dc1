-- ===== src/Cache/Expiry.antt =====
-- internal/mycel/task.go: `ttlEvictionWorkerTask`, which deletes the entries whose time is over. One
-- reading of the clock serves a whole run, and the order of the buckets is that of their list.
use mycorrhizal.Base.{
  ℕ, Bool, false, Option, none, some, List, [], ◌∷◌, ◌++◌, Result, if◌then◌else◌,
}
use mycorrhizal.Base.Bytes.{Bytes}
use mycorrhizal.Base.Time.{Instant, is_after}
use mycorrhizal.Lru.{Heap, LruBucket}
use mycorrhizal.Lru.Order.{Ptr}
use mycorrhizal.Cache.{Cache, Error, Outcome, returns, out_of_fuel, ◌>>=◌}
use mycorrhizal.Cache.Walk.{nodes_of}
use mycorrhizal.Cache.Remote.{Codec, RemoteCachePayload}
use mycorrhizal.Cache.Replicated.{Answer}
use mycorrhizal.Cache.Facade.{delete}

-- `!n.expiresAt.IsZero() && now.After(n.expiresAt)`
unfoldable pub is_expired : ℕ → Instant → Bool
is_expired now none = false
is_expired now (some t) = is_after now t

-- the keys of one bucket, each with the bucket's name
unfoldable pub pair_all : Bytes → List Bytes → List (Bytes × Bytes)
pair_all name [] = []
pair_all name (k ∷ ks) = (name, k) ∷ pair_all name ks

module _ {A : Type 0} where
  -- the keys of the expired nodes, in the order of the walk
  unfoldable pub expired_keys : ℕ → Heap A → List Ptr → List Bytes
  expired_keys now h [] = []
  expired_keys now h (n ∷ ns) =
      if is_expired now (h.expires_at n)
      then h.key n ∷ expired_keys now h ns
      else expired_keys now h ns

  -- the first loop: the expired keys of every bucket; `none` when a walk runs out of fuel
  unfoldable pub collect_expired :
      ℕ → Heap A → List (Bytes × LruBucket) → Option (List (Bytes × Bytes))
  collect_expired now h [] = some []
  collect_expired now h ((name, b) ∷ bs) = elim (nodes_of b h) [
    | none ↦ none
    | some ns ↦ elim (collect_expired now h bs) [
      | none ↦ none
      | some rest ↦ some (pair_all name (expired_keys now h ns) ++ rest)
    ]
  ]

  module _ (codec : Codec (RemoteCachePayload A)) (request : Bytes → Bytes → Result Error Bytes)
      (sum64 : Bytes → ℕ) (nodes : List Bytes) (arrive : List Answer → List Answer) where
    -- the second loop; an error is only logged
    unfoldable pub delete_all : List (Bytes × Bytes) → Cache A → Outcome (Cache A)
    delete_all [] c = returns c
    delete_all ((bucket, key) ∷ rest) c = do
      (a, c') ← delete codec request sum64 nodes arrive bucket key c
      delete_all rest c'

    unfoldable pub ttl_eviction_worker_task : ℕ → Cache A → Outcome (Cache A)
    ttl_eviction_worker_task now c = elim (collect_expired now c.heap c.lru_buckets) [
      | none ↦ out_of_fuel
      | some expired ↦ delete_all expired c
    ]
