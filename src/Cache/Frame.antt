-- ===== src/Cache/Frame.antt =====
-- internal/mycel/local.go: what a local operation on one bucket leaves alone.
use mathlib.Core.Logic.{if_neg}
use mycorrhizal.Base.{◌∙◌, ◌<◌, ◌≤◌, ◌≡◌, ◌≢◌, refl, ◌⊎◌, inl, false, none, some, List, ◌++◌, arith}
use mycorrhizal.Base.Bytes.{Bytes, Bytes-discrete}
use mycorrhizal.Base.Maps.{Map, lookup, lookup-put, insert, remove}
use mycorrhizal.Lru.{Heap, LruBucket}
use mycorrhizal.Lru.Order.{Ptr, nil, has}
use mycorrhizal.Lru.Outside.{SameLinks}
use mycorrhizal.Cache.{Cache, set_bucket}
use mycorrhizal.Cache.Entries.{entry}

module _ {A : Type 0} where
  -- the node `p` is the same in both heaps
  pub record Same (h g : Heap A) (p : Ptr) : Type 0 where
    pub links : SameLinks h g p
    pub same_entry : entry g p ≡ entry h p

  pub Same-refl : (h : Heap A) (p : Ptr) → Same h h p
  Same-refl h p = record {
    links = record { same_next = refl; same_prev = refl };
    same_entry = refl;
  }

  -- An operation on the bucket of this name, with the nodes `xs`, leaves the nodes in use outside the
  -- bucket, the other buckets and the index of their keys, and indexes no node but those that the
  -- bucket has and new ones.
  pub record Frame (bucket : Bytes) (xs : List Ptr) (c c' : Cache A) : Type 0 where
    pub outside : (p : Ptr) → p ≢ nil → p < c.heap.fresh → has p xs ≡ false → Same c.heap c'.heap p
    pub other_buckets :
        (other : Bytes) → bucket ≢ other → lookup other c'.lru_buckets ≡ lookup other c.lru_buckets
    pub other_keys : (k : Bytes) → ((j : Bytes) → bucket ++ j ≢ k) → c'.key_val k ≡ c.key_val k
    pub indexes :
        (j : Bytes) (p : Ptr)
        → c'.key_val (bucket ++ j) ≡ some p
        → (c.key_val (bucket ++ j) ≡ some p) ⊎ (c.heap.fresh ≤ p)
    pub grows : c.heap.fresh ≤ c'.heap.fresh

  pub Frame-refl : {bucket : Bytes} {xs : List Ptr} {c : Cache A} → Frame bucket xs c c
  Frame-refl {c = c} = record {
    outside = λ p z u m. Same-refl c.heap p;
    other_buckets = λ other n. refl;
    other_keys = λ k n. refl;
    indexes = λ j p e. inl e;
    grows = omega arith;
  }

  pub Frame-set_bucket :
      {bucket : Bytes} {xs : List Ptr} {c : Cache A} (b : LruBucket) (g : Heap A)
      → ((p : Ptr) → p ≢ nil → p < c.heap.fresh → has p xs ≡ false → Same c.heap g p)
      → c.heap.fresh ≤ g.fresh
      → Frame bucket xs c (set_bucket bucket b g c)
  Frame-set_bucket {bucket} {xs} {c} b g outside grows = record {
    outside = outside;
    other_buckets = λ other n.
        lookup-put bucket other b c.lru_buckets
        ∙ if_neg (Bytes-discrete bucket other) n (some b) (lookup other c.lru_buckets);
    other_keys = λ k n. refl;
    indexes = λ j p e. inl e;
    grows = grows;
  }

  module _ {bucket : Bytes} {xs : List Ptr} {c c' : Cache A} (f : Frame bucket xs c c')
      (key : Bytes) where
    pub Frame-insert :
        (n : Ptr)
        → (c.key_val (bucket ++ key) ≡ some n) ⊎ (c.heap.fresh ≤ n)
        → Frame bucket xs c (record c' { key_val = insert (bucket ++ key) n c'.key_val })
    Frame-insert n known = record {
      outside = f.outside;
      other_buckets = f.other_buckets;
      other_keys = λ k apart.
          if_neg (Bytes-discrete (bucket ++ key) k) (apart key) (some n) (c'.key_val k)
          ∙ f.other_keys k apart;
      indexes = λ j p e. ground (arith, known, f.indexes j p);
      grows = f.grows;
    }

    pub Frame-remove :
        (m : Map Bytes)
        → Frame bucket xs c
            (record c' { key_val = remove (bucket ++ key) c'.key_val; node_score_hash_map = m })
    Frame-remove m = record {
      outside = f.outside;
      other_buckets = f.other_buckets;
      other_keys = λ k apart.
          if_neg (Bytes-discrete (bucket ++ key) k) (apart key) none (c'.key_val k)
          ∙ f.other_keys k apart;
      indexes = λ j p e. ground (arith, f.indexes j p);
      grows = f.grows;
    }
