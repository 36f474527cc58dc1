-- ===== src/Cache/Coherent.antt =====
-- internal/mycel/cache.go: the two maps that remember routing decisions, against the decisions that
-- would be made afresh.
use mycorrhizal.Base.{ℕ, ◌≡◌, refl, ◌⊎◌, inl, inr, Option-cases, Bool, some, List, [], ◌∷◌, arith}
use mycorrhizal.Base.Bytes.{Bytes}
use mycorrhizal.Cache.{Cache, routing_key}
use mycorrhizal.Cache.Rendezvous.{ReplicaNode, contains, get_replicas, top_replicas}
use mycorrhizal.Cache.Routing.{get_primary_node, is_local, get_replica_nodes, invalidate_caches}

-- the id of the first replica, or the empty text
unfoldable pub first_id : List ReplicaNode → Bytes
first_id [] = []
first_id (r ∷ rs) = r.id

List-cases :
    (xs : List ReplicaNode)
    → (xs ≡ []) ⊎ ((r : ReplicaNode) × (rs : List ReplicaNode) × (xs ≡ r ∷ rs))
List-cases [] = inl refl
List-cases (r ∷ rs) = inr (r, rs, refl)

module _ (sum64 : Bytes → ℕ) (nodes : List Bytes) {A : Type 0} where
  pub record IsCoherent (c : Cache A) : Type 0 where
    pub primaries :
        (k id : Bytes)
        → c.node_score_hash_map k ≡ some id
        → id ≡ first_id (get_replicas sum64 nodes c.node_id k)
    pub localities :
        (k : Bytes) (here : Bool)
        → c.replica_locality_cache k ≡ some here
        → here ≡ contains c.node_id (top_replicas sum64 c.replicas nodes c.node_id k)

  -- With caches that agree with the cluster, `isLocal` answers whether this node is among the replicas
  -- of the key, and the caches still agree.
  pub is_local-IsCoherent :
      (bucket key : Bytes) (c : Cache A)
      → IsCoherent c
      → ((is_local sum64 nodes bucket key c).0
          ≡ contains c.node_id (get_replica_nodes sum64 nodes bucket key c))
        × IsCoherent (is_local sum64 nodes bucket key c).1
  unfolding is_local get_replica_nodes
  is_local-IsCoherent bucket key c w =
      elim (Option-cases (c.replica_locality_cache (routing_key bucket key))) [
        | inl o ↦
            rw (o, is_local)
              (
                refl,
                record {
                  primaries = w.primaries;
                  localities = λ k here h. ground (arith, w.localities k here);
                },
              )
        | inr (here, o) ↦ rw (o, is_local) (w.localities (routing_key bucket key) here o, w)
      ]

  -- With caches that agree with the cluster, `getPrimaryNode` answers the first replica of the key, and
  -- the caches still agree.
  pub get_primary_node-IsCoherent :
      (bucket key : Bytes) (c : Cache A)
      → IsCoherent c
      → ((get_primary_node sum64 nodes bucket key c).0
          ≡ first_id (get_replicas sum64 nodes c.node_id (routing_key bucket key)))
        × IsCoherent (get_primary_node sum64 nodes bucket key c).1
  unfolding get_primary_node first_id
  get_primary_node-IsCoherent bucket key c w =
      elim (Option-cases (c.node_score_hash_map (routing_key bucket key))) [
        | inl o ↦ elim (List-cases (get_replicas sum64 nodes c.node_id (routing_key bucket key))) [
          | inl e ↦ rw (o, get_primary_node, e) (refl, w)
          | inr (r, rs, e) ↦
              rw (o, get_primary_node, e)
                (
                  refl,
                  record {
                    primaries = λ k id h. ground (arith, w.primaries k id, e);
                    localities = w.localities;
                  },
                )
        ]
        | inr (id, o) ↦ rw (o, get_primary_node) (w.primaries (routing_key bucket key) id o, w)
      ]

  -- After `invalidateCaches` the caches agree with every cluster.
  pub invalidate_caches-IsCoherent : (c : Cache A) → IsCoherent (invalidate_caches c)
  unfolding invalidate_caches
  invalidate_caches-IsCoherent c = record {
    primaries = λ k id h. ground arith;
    localities = λ k here h. ground arith;
  }
