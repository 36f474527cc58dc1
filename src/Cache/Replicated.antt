-- ===== src/Cache/Replicated.antt =====
-- internal/mycel/cache.go: the writes that go to every replica of a key and want a majority. The
-- replicas answer in any order: `arrive` puts the answers into the order in which the channel yields
-- them. A panic of the local write, in its goroutine, ends the process.
use mycorrhizal.Base.{
  ℕ, suc, ◌+◌, ◌/◌, Option, List, [], ◌∷◌, Result, ok, err, length, ltb, ite, if◌then◌else◌,
}
use mycorrhizal.Base.Bytes.{Bytes, Bytes-discrete}
use mycorrhizal.Base.Time.{Duration}
use mycorrhizal.Cache.{
  Cache, Error, no_replicas, wrong_quorum, Outcome, returns, ◌>>=◌, is_not_found,
}
use mycorrhizal.Cache.Local.{set_local, delete_local, set_ttl_local}
use mycorrhizal.Cache.Rendezvous.{ReplicaNode}
use mycorrhizal.Cache.Routing.{get_replica_nodes}
use mycorrhizal.Cache.Remote.{
  Codec, RemoteCachePayload, set_remote_to_node, delete_remote_from_node, set_ttl_remote_to_node,
}

abbrev pub Answer : Type 0
Answer = Result Error (Unit {0})

-- the loop over the results: how many succeeded, and the last error
unfoldable pub tally : List Answer → ℕ → Error → ℕ × Error
tally [] count last = (count, last)
tally (ok _ ∷ rs) count last = tally rs (suc count) last
tally (err e ∷ rs) count last = tally rs count e

-- what the write returns for these results; the last error is only used when there was one
unfoldable pub verdict : List Answer → Answer
unfolding tally
verdict results =
    let (count, last) = tally results 0 no_replicas in
    if ltb count (length results / 2 + 1)
    then err (wrong_quorum count (length results) last)
    else ok tt

-- Not found counts as success for a delete.
unfoldable pub forgive : Answer → Answer
forgive (ok _) = ok tt
forgive (err e) = if is_not_found e then ok tt else err e

module _ {A : Type 0} where
  -- one replica's answer, and the state it leaves, this node's own write or a call of another node
  unfoldable pub answer_of :
      (Cache A → Outcome (Answer × Cache A))
      → (Bytes → Answer)
      → ReplicaNode
      → Cache A
      → Outcome (Answer × Cache A)
  answer_of here there r c = ite (Bytes-discrete r.id c.node_id) (here c) (returns (there r.id, c))

  -- a local delete whose not-found error is dropped
  unfoldable pub forgiving :
      (Cache A → Outcome (Answer × Cache A)) → Cache A → Outcome (Answer × Cache A)
  forgiving here c = do (a, c') ← here c; returns (forgive a, c')

  -- the answers of the replicas, in the order of the replica set
  unfoldable pub fan_out :
      (Cache A → Outcome (Answer × Cache A))
      → (Bytes → Answer)
      → List ReplicaNode
      → Cache A
      → Outcome (List Answer × Cache A)
  fan_out here there [] c = returns ([], c)
  fan_out here there (r ∷ rs) c = do
    (a, c') ← answer_of here there r c
    (answers, c'') ← fan_out here there rs c'
    returns (a ∷ answers, c'')

  -- the part that `setReplicated`, `deleteReplicated` and `setTtlReplicated` share
  unfoldable pub replicate_write :
      (List Answer → List Answer)
      → (Cache A → Outcome (Answer × Cache A))
      → (Bytes → Answer)
      → List ReplicaNode
      → Cache A
      → Outcome (Answer × Cache A)
  replicate_write arrive here there [] c = returns (err no_replicas, c)
  replicate_write arrive here there (r ∷ rs) c = do
    (results, c') ← fan_out here there (r ∷ rs) c
    returns (verdict (arrive results), c')

module _ {A : Type 0} (codec : Codec (RemoteCachePayload A))
    (request : Bytes → Bytes → Result Error Bytes) (sum64 : Bytes → ℕ) (nodes : List Bytes)
    (arrive : List Answer → List Answer) where
  unfoldable pub set_replicated :
      ℕ → Bytes → Bytes → Option A → Duration → Cache A → Outcome (Answer × Cache A)
  set_replicated now bucket key value ttl c =
      replicate_write arrive (set_local now bucket key value ttl)
        (set_remote_to_node codec request bucket key value ttl)
        (get_replica_nodes sum64 nodes bucket key c) c

  unfoldable pub delete_replicated : Bytes → Bytes → Cache A → Outcome (Answer × Cache A)
  delete_replicated bucket key c =
      replicate_write arrive (forgiving (delete_local bucket key))
        (λ id. forgive (delete_remote_from_node codec request bucket key id))
        (get_replica_nodes sum64 nodes bucket key c) c

  unfoldable pub set_ttl_replicated :
      ℕ → Bytes → Bytes → Duration → Cache A → Outcome (Answer × Cache A)
  set_ttl_replicated now bucket key ttl c =
      replicate_write arrive (λ c'. returns (set_ttl_local now bucket key ttl c'))
        (set_ttl_remote_to_node codec request bucket key ttl)
        (get_replica_nodes sum64 nodes bucket key c) c
