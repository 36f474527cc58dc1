-- ===== src/Cache/Cleared.antt =====
-- internal/mycel/task.go: a run of `ttlEvictionWorkerTask`, bucket by bucket.
use mycorrhizal.Base.{ℕ, ◌≡◌, Bool, not, ◌&&◌, none, List, [], ◌∷◌, ◌++◌, Result}
use mycorrhizal.Base.Bytes.{Bytes}
use mycorrhizal.Lru.Order.{Ptr}
use mycorrhizal.Cache.{Cache, Error}
use mycorrhizal.Cache.Rendezvous.{contains}
use mycorrhizal.Cache.Routing.{get_replica_nodes}
use mycorrhizal.Cache.Remote.{Codec, RemoteCachePayload}
use mycorrhizal.Cache.Replicated.{Answer}
use mycorrhizal.Cache.Expiry.{is_expired, expired_keys, pair_all}
use mycorrhizal.Cache.Swept.{Swept, Spares}
use mycorrhizal.Cache.Views.{View}

module _ {A : Type 0} (codec : Codec (RemoteCachePayload A))
    (request : Bytes → Bytes → Result Error Bytes) (sum64 : Bytes → ℕ) (nodes : List Bytes)
    (arrive : List Answer → List Answer) (now : ℕ) (bucket : Bytes) (c : Cache A) where
  -- this node is one of the replicas of the key
  abbrev pub is_mine : Bytes → Bool
  is_mine key = contains c.node_id (get_replica_nodes sum64 nodes bucket key c)

  -- a node of the bucket that the task leaves
  abbrev pub stays : Ptr → Bool
  stays n = not (is_expired now (c.heap.expires_at n) && is_mine (c.heap.key n))

  -- The bucket has kept the nodes, the index does not know the key, and the other buckets are as they
  -- were in the cache `c₀`.
  abbrev Gone : List Ptr → List Ptr → Cache A → Bytes → Cache A → Type 0
  Gone xs ys c₀ key c' =
      Swept c bucket ys c' × (c'.key_val (bucket ++ key) ≡ none) × Spares c bucket xs c₀ c'

module _ {A : Type 0} (codec : Codec (RemoteCachePayload A))
    (request : Bytes → Bytes → Result Error Bytes) (sum64 : Bytes → ℕ) (nodes : List Bytes)
    (arrive : List Answer → List Answer) (now : ℕ) (c : Cache A) where
  -- the nodes of a bucket that the task leaves
  abbrev pub staying : Bytes → Ptr → Bool
  staying name = stays codec request sum64 nodes arrive now name c

  -- what is collected from all buckets
  abbrev collected : List View → List (Bytes × Bytes)
  collected [] = []
  collected (v ∷ vs) = pair_all v.name (expired_keys now c.heap v.nodes) ++ collected vs
