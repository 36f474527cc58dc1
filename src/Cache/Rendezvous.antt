-- ===== src/Cache/Rendezvous.antt =====
-- internal/mycel/ds.go and cache.go: rendezvous hashing. `sum64` is xxHash64 of the bytes written to
-- it, a third-party function; `nodes` is what `app.Nodes()` returns, the connected nodes.
use mycorrhizal.Base.{
  ℕ, Bool, true, false, List, [], ◌∷◌, ◌++◌, map, length, take, ltb, ite, if◌then◌else◌,
}
use mycorrhizal.Base.Bytes.{Bytes, Bytes-discrete}

pub record ReplicaNode : Type 0 where
  pub id : Bytes
  pub score : ℕ

-- `sort.Slice` with the higher score first. Equal scores may come in any order there; here the one
-- that came first stays first.
unfoldable pub insert_scored : ReplicaNode → List ReplicaNode → List ReplicaNode
insert_scored r [] = r ∷ []
insert_scored r (x ∷ xs) = if ltb r.score x.score then x ∷ insert_scored r xs else r ∷ x ∷ xs

unfoldable pub sort_scored : List ReplicaNode → List ReplicaNode
unfolding insert_scored
sort_scored [] = []
sort_scored (r ∷ rs) = insert_scored r (sort_scored rs)

-- whether one of the nodes is `id`, as the loops of `isLocal` and of the rebalancer find out
unfoldable pub contains : Bytes → List ReplicaNode → Bool
contains id [] = false
contains id (r ∷ rs) = ite (Bytes-discrete r.id id) true (contains id rs)

module _ (sum64 : Bytes → ℕ) where
  -- `scoreRegular`: the key and the node are written one after the other
  unfoldable pub score_regular : Bytes → Bytes → ℕ
  score_regular key node_id = sum64 (key ++ node_id)

  unfoldable pub get_replicas : List Bytes → Bytes → Bytes → List ReplicaNode
  unfolding score_regular
  get_replicas nodes self key =
      sort_scored
        (map (λ id. record { id = id; score = score_regular key id }) (nodes ++ self ∷ []))

  -- `replicas[:limit]`, where `limit` is the replica count, or the number of nodes if that is less
  unfoldable pub top_replicas : ℕ → List Bytes → Bytes → Bytes → List ReplicaNode
  top_replicas count nodes self key =
      let replicas = get_replicas nodes self key in
      take (if ltb (length replicas) count then length replicas else count) replicas
