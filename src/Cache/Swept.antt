-- ===== src/Cache/Swept.antt =====
-- internal/mycel/task.go, rebalancer.go: a bucket while a background task goes through its nodes and
-- deletes some of them.
use mycorrhizal.Base.{
  ap, ◌≡◌, refl, ◌∙◌, Bool, true, false, none, some, List, [], ◌∷◌, ◌++◌, ok, err, arith,
  if◌then◌else◌,
}
use mycorrhizal.Base.Bytes.{Bytes}
use mycorrhizal.Base.Maps.{Map}
use mycorrhizal.Lru.{LruBucket, unlink}
use mycorrhizal.Lru.Order.{Ptr, has, without, Distinct, has-without}
use mycorrhizal.Lru.Delete.{has-middle}
use mycorrhizal.Cache.{Cache, returns, not_found, set_bucket}
use mycorrhizal.Cache.Collected.{Holds-locality}
use mycorrhizal.Cache.Local.{delete_local}
use mycorrhizal.Cache.Holds.{Holds}
use mycorrhizal.Cache.Deletes.{
  cache_without, delete_local-some, cache_without-Holds, delete_local-none, Holds-again,
}
use mycorrhizal.Cache.Frame.{Frame}
use mycorrhizal.Cache.Framed.{delete_local-Frame, delete_local_none-Frame}
use mycorrhizal.Cache.Beside.{IsSeparate, beside, Frame-Holds}
use mycorrhizal.Cache.Entries.{entry, unlink-entry}

-- the nodes that pass a test, in their order
unfoldable pub kept : (Ptr → Bool) → List Ptr → List Ptr
kept keep [] = []
kept keep (n ∷ ns) = if keep n then n ∷ kept keep ns else kept keep ns

without-middle :
    (pre : List Ptr) (n : Ptr) (rest : List Ptr)
    → Distinct (pre ++ n ∷ rest)
    → without n (pre ++ n ∷ rest) ≡ pre ++ rest
without-middle [] n rest d = ground arith
without-middle (x ∷ pre) n rest d = ground (arith, without-middle pre n rest, has-middle pre n rest)

pub has-middle_none :
    (pre : List Ptr) (n p : Ptr) (rest : List Ptr)
    → has p (pre ++ n ∷ rest) ≡ false
    → has p (pre ++ rest) ≡ false
has-middle_none [] n p rest m = ground arith
has-middle_none (x ∷ pre) n p rest m = ground (arith, has-middle_none pre n p rest)

module _ {A : Type 0} where
  -- From the cache `c` on, the bucket has kept the nodes `ys`, with their entries.
  pub record Swept (c : Cache A) (bucket : Bytes) (ys : List Ptr) (c' : Cache A) : Type 0 where
    pub bucket_of : LruBucket
    pub holds : Holds c' bucket bucket_of ys
    pub same_entry : (p : Ptr) → has p ys ≡ true → entry c'.heap p ≡ entry c.heap p
    pub same_node : c'.node_id ≡ c.node_id
    pub same_replicas : c'.replicas ≡ c.replicas

  pub Swept-start :
      {c : Cache A} {bucket : Bytes} {b : LruBucket} {xs : List Ptr}
      → Holds c bucket b xs
      → Swept c bucket xs c
  Swept-start {b} h = record {
    bucket_of = b;
    holds = h;
    same_entry = λ p m. refl;
    same_node = refl;
    same_replicas = refl;
  }

  -- Between the caches `c'` and `c''` only the bucket of this name and its nodes `xs` change.
  abbrev pub Spares : Cache A → Bytes → List Ptr → Cache A → Cache A → Type 0
  Spares c bucket xs c' c'' =
      (other : Bytes) (zs : List Ptr)
      → IsSeparate bucket other
      → ((p : Ptr) → has p zs ≡ true → has p xs ≡ false)
      → Swept c other zs c'
      → Swept c other zs c''

  pub Frame-Spares :
      (c : Cache A) {c' c'' : Cache A} {bucket : Bytes} {xs : List Ptr}
      → Frame bucket xs c' c''
      → c''.node_id ≡ c'.node_id
      → c''.replicas ≡ c'.replicas
      → Spares c bucket xs c' c''
  Frame-Spares c f node replicas other zs separate apart s = record {
    bucket_of = s.bucket_of;
    holds = Frame-Holds separate f apart s.holds;
    same_entry = λ p m. (beside separate f apart s.holds p m).same_entry ∙ s.same_entry p m;
    same_node = node ∙ s.same_node;
    same_replicas = replicas ∙ s.same_replicas;
  }

  -- the local delete of a node's key takes the node away
  pub Swept-delete_local :
      {c c' : Cache A} {bucket : Bytes} (pre : List Ptr) (n : Ptr) (rest : List Ptr)
      → Swept c bucket (pre ++ n ∷ rest) c'
      → (c'' : Cache A) × (delete_local bucket (c.heap.key n) c' ≡ returns (ok tt, c''))
        × Swept c bucket (pre ++ rest) c''
        × (c''.key_val (bucket ++ c.heap.key n) ≡ none)
        × Spares c bucket (pre ++ n ∷ rest) c' c''
  Swept-delete_local {c} {c'} {bucket} pre n rest s =
      let there : has n (pre ++ n ∷ rest) ≡ true = has-middle pre n rest in
      let e : c'.key_val (bucket ++ c.heap.key n) ≡ some n =
        rw (ap (λ x. x.key) (s.same_entry n there)) at (s.holds.indexed n there) in
      let left : without n (pre ++ n ∷ rest) ≡ pre ++ rest =
        without-middle pre n rest s.holds.chain.distinct in
      (
        cache_without s.holds (c.heap.key n) n,
        delete_local-some s.holds (c.heap.key n) e,
        record {
          bucket_of = (unlink n s.bucket_of c'.heap).0;
          holds = rw (← left) (cache_without-Holds s.holds (c.heap.key n) e);
          same_entry = λ p m.
              let q = has-without n p (pre ++ n ∷ rest) s.holds.chain.distinct in
              unlink-entry n s.bucket_of c'.heap p (ground (arith, left, q))
              ∙ s.same_entry p (ground (arith, left, q));
          same_node = s.same_node;
          same_replicas = s.same_replicas;
        },
        ground arith,
        Frame-Spares c (delete_local-Frame s.holds (c.heap.key n) e) refl refl,
      )

  -- a change that leaves the bucket and the index alone
  pub Swept-locality :
      {c c' : Cache A} {bucket : Bytes} {ys : List Ptr}
      → Swept c bucket ys c'
      → (m : Map Bool) → Swept c bucket ys (record c' { replica_locality_cache = m })
  Swept-locality s m = record {
    bucket_of = s.bucket_of;
    holds = Holds-locality s.holds m;
    same_entry = s.same_entry;
    same_node = s.same_node;
    same_replicas = s.same_replicas;
  }

  -- the local delete of a key that the index does not know
  pub Swept-absent :
      {c c' : Cache A} {bucket : Bytes} {ys : List Ptr}
      → Swept c bucket ys c'
      → (key : Bytes) → c'.key_val (bucket ++ key) ≡ none
      → (c'' : Cache A) × (delete_local bucket key c' ≡ returns (err not_found, c''))
        × Swept c bucket ys c''
        × (c''.key_val (bucket ++ key) ≡ none)
        × Spares c bucket ys c' c''
  Swept-absent {c = c} {c' = c'} {bucket = bucket} s key e = (
    set_bucket bucket s.bucket_of c'.heap c',
    delete_local-none s.holds key e,
    record {
      bucket_of = s.bucket_of;
      holds = Holds-again s.holds key;
      same_entry = s.same_entry;
      same_node = s.same_node;
      same_replicas = s.same_replicas;
    },
    e,
    Frame-Spares c (delete_local_none-Frame s.holds) refl refl,
  )

  pub Spares-trans :
      {c c' c₁ c₂ : Cache A} (bucket : Bytes) (pre : List Ptr) (n : Ptr) (rest : List Ptr)
      → Spares c bucket (pre ++ n ∷ rest) c' c₁
      → Spares c bucket (pre ++ rest) c₁ c₂
      → Spares c bucket (pre ++ n ∷ rest) c' c₂
  Spares-trans bucket pre n rest f g other zs separate apart s =
      g other zs separate (λ p m. has-middle_none pre n p rest (apart p m))
        (f other zs separate apart s)
