-- ===== src/Cache/Framed.antt =====
-- internal/mycel/local.go: every local operation on a bucket leaves the rest of the node alone.
use mycorrhizal.Base.{
  ap, ◌+◌, ◌∷◌, [], ℕ, ◌<◌, ◌≤◌, ◌≡◌, ◌≢◌, refl, inl, inr, Option-cases, true, false, none, some,
  List, ◌++◌, length, Option, ok, err, suc, arith,
}
use mycorrhizal.Base.Bytes.{Bytes}
use mycorrhizal.Base.Int.{ℤ, pos, ltb_ℤ}
use mycorrhizal.Base.Maps.{insert}
use mycorrhizal.Base.Time.{Duration, add_duration}
use mycorrhizal.Lru.{Heap, LruBucket, push, unlink, update}
use mycorrhizal.Lru.Order.{Ptr, nil, has}
use mycorrhizal.Lru.Push.{push-SameNodes}
use mycorrhizal.Lru.Outside.{push-outside, push_new-outside, unlink-outside}
use mycorrhizal.Cache.{Cache, returns, set_bucket, not_found}
use mycorrhizal.Cache.Local.{get_local, set_ttl_local, new_node, expiry}
use mycorrhizal.Cache.Holds.{Holds}
use mycorrhizal.Cache.Reads.{get_local-some, heap_set, set_local-some}
use mycorrhizal.Cache.Deletes.{cache_without, delete_local-some, delete_local-none, unlink-fresh}
use mycorrhizal.Cache.Writes.{
  cache_with, bucket_with, heap_with, set_local-room, key-heap_with, contents-heap_with,
  expires_at-heap_with, IsBucket-new_node, new_node-IsDetached, grown,
}
use mycorrhizal.Cache.Abstract.{
  Call, get, set, delete, set_ttl, Reply, read, wrote, perform, writes,
}
use mycorrhizal.Cache.Entries.{unlink-entry}
use mycorrhizal.Cache.Frame.{
  Same, Frame, Same-refl, Frame-refl, Frame-set_bucket, Frame-insert, Frame-remove,
}

module _ {A : Type 0} {c : Cache A} {bucket : Bytes} {b : LruBucket} {xs : List Ptr}
    (h : Holds c bucket b xs) where
  abbrev pub Framed : Call A → Type 0
  Framed call =
      (r : Reply A) × (c' : Cache A) × (perform bucket call c ≡ returns (r, c'))
      × Frame bucket xs c c'

  -- a push of a node of the bucket, in a heap whose contents differ at this node only
  push-Same :
      (g : Heap A) (n p : Ptr)
      → has n xs ≡ true
      → g.next ≡ c.heap.next
      → g.prev ≡ c.heap.prev
      → g.key p ≡ c.heap.key p
      → g.contents p ≡ c.heap.contents p
      → g.expires_at p ≡ c.heap.expires_at p
      → p ≢ nil
      → has p xs ≡ false
      → Same c.heap (push n b g).1 p
  push-Same g n p m en ep ek ec ex z a = record {
    links = push-outside h.chain n p m z a g en ep;
    same_entry =
        let s = push-SameNodes n b g in
        rw (s.same_key, s.same_contents, s.same_expires_at) (ground (arith, ek, ec, ex));
  }

  perform_get-Framed : (key : Bytes) → Framed (get key)
  unfolding perform get_local
  perform_get-Framed key = elim (Option-cases (c.key_val (bucket ++ key))) [
    | inl o ↦ (read (err not_found), c, rw (o, get_local) refl, Frame-refl)
    | inr (n, o) ↦ (
      read (ok ((push n b c.heap).1.contents n)),
      set_bucket bucket (push n b c.heap).0 (push n b c.heap).1 c,
      rw (get_local-some h key o) refl,
      Frame-set_bucket (push n b c.heap).0 (push n b c.heap).1
          (λ p z u a. push-Same c.heap n p (h.found key n o) refl refl refl refl refl z a)
          (rw (push-SameNodes n b c.heap).same_fresh (omega arith)),
    )
  ]

  heap_with-Same :
      (now : ℕ) (key : Bytes) (value : Option A) (ttl : Duration)
      (o : c.key_val (bucket ++ key) ≡ none) (p : Ptr)
      → p ≢ nil
      → p < c.heap.fresh
      → has p xs ≡ false
      → Same c.heap (heap_with h now key value ttl o) p
  unfolding new_node
  heap_with-Same now key value ttl o p z u a =
      let g = new_node key value (expiry now ttl) c.heap in
      let links =
        push_new-outside (IsBucket-new_node h.chain key value (expiry now ttl))
          (new_node-IsDetached h.chain key value (expiry now ttl)) z (ground arith) a in
      record {
        links = record {
          same_next = ground (arith, links.same_next);
          same_prev = ground (arith, links.same_prev);
        };
        same_entry =
            rw
              (
                key-heap_with h now key value ttl o,
                contents-heap_with h now key value ttl o,
                expires_at-heap_with h now key value ttl o,
              )
              (ground arith);
      }

  perform_set-Framed :
      (now : ℕ) (key : Bytes) (value : Option A) (ttl : Duration)
      → ltb_ℤ b.max_len (pos (suc (length xs))) ≡ false
      → Framed (set now key value ttl)
  unfolding perform
  perform_set-Framed now key value ttl full = elim (Option-cases (c.key_val (bucket ++ key))) [
    | inl o ↦ (
      wrote (ok tt),
      cache_with h now key value ttl o,
      rw (set_local-room h now key value ttl o full) refl,
      Frame-insert
          (Frame-set_bucket (bucket_with h now key value ttl o) (heap_with h now key value ttl o)
            (heap_with-Same now key value ttl o) (rw (grown h now key value ttl o) (omega arith)))
          key c.heap.fresh (inr (omega arith)),
    )
    | inr (n, o) ↦
        let g = heap_set h key now value ttl n in
        (
          wrote (ok tt),
          set_bucket bucket (push n b g).0 (push n b g).1 c,
          rw (set_local-some h key now value ttl o) refl,
          Frame-set_bucket (push n b g).0 (push n b g).1
              (λ p z u a.
                push-Same g n p (h.found key n o) refl refl refl (ground (arith, h.found key n o))
                  (ground (arith, h.found key n o)) z a)
              (rw (push-SameNodes n b g).same_fresh (omega arith)),
        )
  ]

  pub delete_local_none-Frame : Frame bucket xs c (set_bucket bucket b c.heap c)
  delete_local_none-Frame = Frame-set_bucket b c.heap (λ p z u a. Same-refl c.heap p) (omega arith)

  pub delete_local-Frame :
      (key : Bytes) {n : Ptr}
      → c.key_val (bucket ++ key) ≡ some n
      → Frame bucket xs c (cache_without h key n)
  delete_local-Frame key {n} o =
      Frame-remove
        (Frame-set_bucket (unlink n b c.heap).0 (unlink n b c.heap).1
          (λ p z u a. record {
            links = unlink-outside h.chain n p (h.found key n o) z a;
            same_entry = unlink-entry n b c.heap p (ground (arith, h.found key n o));
          })
          (rw (unlink-fresh n b c.heap) (omega arith)))
        key (cache_without h key n).node_score_hash_map

  perform_delete-Framed : (key : Bytes) → Framed (delete key)
  unfolding perform
  perform_delete-Framed key = elim (Option-cases (c.key_val (bucket ++ key))) [
    | inl o ↦ (
      wrote (err not_found),
      set_bucket bucket b c.heap c,
      rw (delete_local-none h key o) refl,
      delete_local_none-Frame,
    )
    | inr (n, o) ↦ (
      wrote (ok tt),
      cache_without h key n,
      rw (delete_local-some h key o) refl,
      delete_local-Frame key o,
    )
  ]

  perform_set_ttl-Framed : (now : ℕ) (key : Bytes) (ttl : Duration) → Framed (set_ttl now key ttl)
  unfolding perform set_ttl_local
  perform_set_ttl-Framed now key ttl = elim (Option-cases (c.key_val (bucket ++ key))) [
    | inl o ↦ (wrote (err not_found), c, rw (o, set_ttl_local) refl, Frame-refl)
    | inr (n, o) ↦
        let g = record c.heap {
          expires_at = update c.heap.expires_at n (some (add_duration now ttl));
        } in
        (
          wrote (ok tt),
          record c { heap = g; key_val = insert (bucket ++ key) n c.key_val },
          rw (o, set_ttl_local) refl,
          Frame-insert {c' = record c { heap = g }}
              (record {
                outside = λ p z u a. record {
                  links = record { same_next = refl; same_prev = refl };
                  same_entry = ground (arith, h.found key n o);
                };
                other_buckets = λ other e. refl;
                other_keys = λ k e. refl;
                indexes = λ j p e. inl e;
                grows = omega arith;
              })
              key n (inl o),
        )
  ]

  -- every operation; a write of a new key finds room
  pub perform-Framed :
      (call : Call A) (m : ℕ) → b.max_len ≡ pos m → length xs + writes (call ∷ []) ≤ m → Framed call
  perform-Framed (get key) m limit room = perform_get-Framed key
  perform-Framed (set now key value ttl) m limit room =
      perform_set-Framed now key value ttl
        (ground (arith, ap (λ (z : ℤ). ltb_ℤ z (pos (suc (length xs)))) limit))
  perform-Framed (delete key) m limit room = perform_delete-Framed key
  perform-Framed (set_ttl now key ttl) m limit room = perform_set_ttl-Framed now key ttl
