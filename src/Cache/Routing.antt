-- ===== src/Cache/Routing.antt =====
-- internal/mycel/cache.go: `getPrimaryNode`, `isLocal` and `getReplicaNodes` with the two maps that
-- remember their answers, and `invalidateCaches`.
use mycorrhizal.Base.{ℕ, Bool, none, some, List, [], ◌∷◌}
use mycorrhizal.Base.Bytes.{Bytes}
use mycorrhizal.Base.Maps.{empty, insert}
use mycorrhizal.Cache.{Cache, routing_key}
use mycorrhizal.Cache.Rendezvous.{ReplicaNode, contains, get_replicas, top_replicas}

module _ (sum64 : Bytes → ℕ) {A : Type 0} where
  unfoldable pub get_primary_node : List Bytes → Bytes → Bytes → Cache A → Bytes × Cache A
  get_primary_node nodes bucket key c =
      let full_key = routing_key bucket key in
      elim (c.node_score_hash_map full_key) [
        | some id ↦ (id, c)
        | none ↦ elim (get_replicas sum64 nodes c.node_id full_key) [
          | [] ↦ ([], c)
          | r ∷ rs ↦
              (r.id, record c { node_score_hash_map = insert full_key r.id c.node_score_hash_map })
        ]
      ]

  unfoldable pub is_local : List Bytes → Bytes → Bytes → Cache A → Bool × Cache A
  is_local nodes bucket key c =
      let full_key = routing_key bucket key in
      elim (c.replica_locality_cache full_key) [
        | some here ↦ (here, c)
        | none ↦
            let here =
              contains c.node_id (top_replicas sum64 c.replicas nodes c.node_id full_key) in
            (
              here,
              record c { replica_locality_cache = insert full_key here c.replica_locality_cache },
            )
      ]

  unfoldable pub get_replica_nodes : List Bytes → Bytes → Bytes → Cache A → List ReplicaNode
  get_replica_nodes nodes bucket key c =
      top_replicas sum64 c.replicas nodes c.node_id (routing_key bucket key)

unfoldable pub invalidate_caches : {A : Type 0} → Cache A → Cache A
invalidate_caches c = record c { node_score_hash_map = empty; replica_locality_cache = empty }
