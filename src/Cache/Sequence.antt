-- ===== src/Cache/Sequence.antt =====
-- internal/mycel/local.go: deletes and changes of the time to live against the abstract view of a
-- bucket, and any sequence of the local operations that does not fill the bucket.
use mycorrhizal.Base.{
  ℕ, ◌+◌, ◌≡◌, ◌≤◌, refl, ◌∙◌, inl, inr, Option-cases, some, List, [], ◌∷◌, ◌++◌, ok, err, arith,
  length,
}
use mycorrhizal.Base.Bytes.{Bytes}
use mycorrhizal.Base.Maps.{insert}
use mycorrhizal.Base.Time.{Duration, Instant, add_duration}
use mycorrhizal.Lru.{LruBucket, Heap, unlink, update}
use mycorrhizal.Lru.Order.{Ptr, without, has-without}
use mycorrhizal.Cache.{Cache, returns, not_found}
use mycorrhizal.Cache.Local.{set_ttl_local}
use mycorrhizal.Cache.Holds.{Holds}
use mycorrhizal.Cache.Deletes.{
  delete_local-some, cache_without-Holds, delete_local-none, Holds-again,
}
use mycorrhizal.Cache.Abstract.{
  Entry, Call, get, set, delete, set_ttl, wrote, find, extend, answer, answer_all, perform,
  perform_all, writes,
}
use mycorrhizal.Cache.Entries.{
  unlink-entry, entry-same, extend-entry, length-drop_key, length-drop_key-le, length-extend,
}
use mycorrhizal.Cache.Refines.{
  Shows, OnlyAt-indexed, find-indexed, find-unknown, Refined, refined, perform-get, perform-set,
}

module _ {A : Type 0} (n : Ptr) (l : LruBucket) (h : Heap A) where
  unlink-max_len : (unlink n l h).0.max_len ≡ l.max_len
  unfolding unlink
  unlink-max_len = ground arith

module _ {A : Type 0} (bucket : Bytes) (capacity : ℕ) (c : Cache A) where
  perform-delete :
      (key : Bytes) (es : List (Entry A))
      → Shows bucket capacity c es
      → Refined bucket capacity c (delete key) es
  unfolding perform answer
  perform-delete key es s = elim (Option-cases (c.key_val (bucket ++ key))) [
    | inl o ↦
        refined bucket capacity c (delete key) es (wrote (err not_found))
          (rw ((find-unknown s key o).0, answer) refl) (rw (delete_local-none s.holds key o) refl)
          (record {
            bucket_of = s.bucket_of;
            nodes = s.nodes;
            holds = Holds-again s.holds key;
            limit = s.limit;
            entries = s.entries;
          })
    | inr (n, o) ↦
        let (f, d) = find-indexed s key n o in
        refined bucket capacity c (delete key) es (wrote (ok tt)) (rw (f, answer, d) refl)
          (rw (delete_local-some s.holds key o) refl)
          (record {
            bucket_of = (unlink n s.bucket_of c.heap).0;
            nodes = without n s.nodes;
            holds = cache_without-Holds s.holds key o;
            limit = unlink-max_len n s.bucket_of c.heap ∙ s.limit;
            entries = entry-same c.heap (unlink n s.bucket_of c.heap).1 (without n s.nodes) (λ p m.
                ground (
                  arith,
                  has-without n p s.nodes s.holds.chain.distinct,
                  unlink-entry n s.bucket_of c.heap p,
                ));
          })
  ]

  -- a bucket that is well formed after a change of the expiry of the node of a key
  Holds-expiry :
      {b : LruBucket} {xs : List Ptr}
      → Holds c bucket b xs
      → (key : Bytes) (n : Ptr) (t : Instant) → c.key_val (bucket ++ key) ≡ some n
      → Holds
          (record c {
            heap = record c.heap { expires_at = update c.heap.expires_at n t };
            key_val = insert (bucket ++ key) n c.key_val;
          })
          bucket
          b
          xs
  Holds-expiry h key n t e = record {
    stored = h.stored;
    chain = record {
      distinct = h.chain.distinct;
      not_nil = h.chain.not_nil;
      head = h.chain.head;
      tail = h.chain.tail;
      len = h.chain.len;
      nexts = h.chain.nexts;
      prevs = h.chain.prevs;
      used = h.chain.used;
    };
    indexed = λ p m. ground (arith, h.indexed p m, e);
    found = λ k p m. ground (arith, h.found k p, h.found key n e);
    named = λ k p m. ground (arith, h.named k p, e);
    started = h.started;
  }

  perform-set_ttl :
      (now : ℕ) (key : Bytes) (ttl : Duration) (es : List (Entry A))
      → Shows bucket capacity c es
      → Refined bucket capacity c (set_ttl now key ttl) es
  unfolding perform answer set_ttl_local
  perform-set_ttl now key ttl es s = elim (Option-cases (c.key_val (bucket ++ key))) [
    | inl o ↦
        refined bucket capacity c (set_ttl now key ttl) es (wrote (err not_found))
          (rw ((find-unknown s key o).0, answer) refl) (rw (set_ttl_local, o) refl) s
    | inr (n, o) ↦
        let (f, d) = find-indexed s key n o in
        refined bucket capacity c (set_ttl now key ttl) es
          {es' = extend key (some (add_duration now ttl)) es} (wrote (ok tt)) (rw (f, answer) refl)
          (rw (set_ttl_local, o) refl)
          (record {
            bucket_of = s.bucket_of;
            nodes = s.nodes;
            holds = Holds-expiry s.holds key n (some (add_duration now ttl)) o;
            limit = s.limit;
            entries = rw s.entries (
                extend-entry c.heap key n (some (add_duration now ttl)) s.nodes
                  (OnlyAt-indexed s.holds key n o) (s.holds.found key n o) (s.holds.named key n o)
                  s.holds.chain.distinct);
          })
  ]

  -- one call, where a write finds room
  pub perform-answer :
      (call : Call A) (es : List (Entry A))
      → Shows bucket capacity c es
      → length es + writes (call ∷ []) ≤ capacity
      → Refined bucket capacity c call es
  perform-answer (get key) es s room = perform-get bucket capacity c key es s
  perform-answer (set now key value ttl) es s room =
      perform-set bucket capacity c now key value ttl es s (omega arith)
  perform-answer (delete key) es s room = perform-delete key es s
  perform-answer (set_ttl now key ttl) es s room = perform-set_ttl now key ttl es s

-- only writes add entries, one at most each
pub length-answer :
    {A : Type 0} (call : Call A) (calls : List (Call A)) (es : List (Entry A))
    → length (answer call es).1 + writes calls ≤ length es + writes (call ∷ calls)
unfolding answer
length-answer (get key) calls es = elim (Option-cases (find key es)) [
  | inl o ↦ rw (o, answer) (omega arith)
  | inr (e, o) ↦ rw (o, answer) (omega (arith, length-drop_key key es e o))
]
length-answer (set now key value ttl) calls es = omega (arith, length-drop_key-le key es)
length-answer (delete key) calls es = elim (Option-cases (find key es)) [
  | inl o ↦ rw (o, answer) (omega arith)
  | inr (e, o) ↦ rw (o, answer) (omega (arith, length-drop_key-le key es))
]
length-answer (set_ttl now key ttl) calls es = elim (Option-cases (find key es)) [
  | inl o ↦ rw (o, answer) (omega arith)
  | inr (e, o) ↦ rw (o, answer) (omega (arith, length-extend key (some (add_duration now ttl)) es))
]

pub writes-one :
    {A : Type 0} (call : Call A) (calls : List (Call A))
    → writes (call ∷ []) ≤ writes (call ∷ calls)
writes-one (get key) calls = omega arith
writes-one (set now key value ttl) calls = omega arith
writes-one (delete key) calls = omega arith
writes-one (set_ttl now key ttl) calls = omega arith

-- In any sequence of reads, writes, deletes and changes of the time to live whose writes the bucket has
-- room for, the local operations return, give the answers of the abstract bucket, and leave a
-- well-formed bucket with its entries, in the order of their use.
pub perform_all-answer_all :
    {A : Type 0} (bucket : Bytes) (capacity : ℕ) (calls : List (Call A)) (c : Cache A)
    (es : List (Entry A))
    → Shows bucket capacity c es
    → length es + writes calls ≤ capacity
    → (c' : Cache A) × (perform_all bucket calls c ≡ returns ((answer_all calls es).0, c'))
      × Shows bucket capacity c' (answer_all calls es).1
unfolding perform_all answer_all
perform_all-answer_all bucket capacity [] c es s room = (c, refl, s)
perform_all-answer_all bucket capacity (call ∷ calls) c es s room =
    let (c', e, s') =
      perform-answer bucket capacity c call es s (omega (arith, writes-one call calls)) in
    let (c'', f, s'') =
      perform_all-answer_all bucket capacity calls c' (answer call es).1 s'
        (omega (arith, length-answer call calls es)) in
    (c'', rw (e, f) refl, s'')
