-- ===== src/Cache/Balanced.antt =====
-- internal/mycel/rebalancer.go: a cycle of `rebalancerWorkerTask`, bucket by bucket.
use mycorrhizal.Base.{ℕ, ◌+◌, Bool, true, List, [], ◌∷◌, Result, length}
use mycorrhizal.Base.Bytes.{Bytes}
use mycorrhizal.Lru.Order.{Ptr}
use mycorrhizal.Cache.{Cache, Error, routing_key}
use mycorrhizal.Cache.Rendezvous.{ReplicaNode, contains, top_replicas}
use mycorrhizal.Cache.Remote.{Codec, RemoteCachePayload}
use mycorrhizal.Cache.Swept.{kept, Swept}
use mycorrhizal.Cache.Views.{View}

-- this node keeps a key: it is a replica, or there is none
abbrev pub keeps : Bytes → List ReplicaNode → Bool
keeps self [] = true
keeps self (r ∷ rs) = contains self (r ∷ rs)

module _ {A : Type 0} (codec : Codec (RemoteCachePayload A))
    (request : Bytes → Bytes → Result Error Bytes) (sum64 : Bytes → ℕ) (nodes : List Bytes)
    (now : ℕ) (bucket : Bytes) where
  module _ (c : Cache A) where
    -- the replicas of a key, and the nodes of the bucket that stay
    abbrev pub assigned : Bytes → List ReplicaNode
    assigned key = top_replicas sum64 c.replicas nodes c.node_id (routing_key bucket key)

    abbrev pub remains : Ptr → Bool
    remains n = keeps c.node_id (assigned (c.heap.key n))

module _ {A : Type 0} (codec : Codec (RemoteCachePayload A))
    (request : Bytes → Bytes → Result Error Bytes) (sum64 : Bytes → ℕ) (nodes : List Bytes)
    (now : ℕ) (c : Cache A) where
  -- the nodes of a bucket that stay
  abbrev pub remaining : Bytes → Ptr → Bool
  remaining name = remains codec request sum64 nodes now name c

  abbrev pub size : List View → ℕ
  size [] = 0
  size (v ∷ vs) = length v.nodes + size vs

  abbrev pub remaining_size : List View → ℕ
  remaining_size [] = 0
  remaining_size (v ∷ vs) = length (kept (remaining v.name) v.nodes) + remaining_size vs
