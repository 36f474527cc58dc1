-- ===== src/Cache/Beside.antt =====
-- internal/mycel/local.go: two buckets of a node side by side.
use mycorrhizal.Base.{
  ℕ, ◌+◌, ◌≤◌, ◌≡◌, ◌≢◌, sym, ap, ◌∙◌, inl, inr, Bool-cases, true, false, List, [], ◌∷◌, ◌++◌,
  length, arith,
}
use mycorrhizal.Base.Bytes.{Bytes}
use mycorrhizal.Lru.{LruBucket}
use mycorrhizal.Lru.Order.{Ptr, has}
use mycorrhizal.Cache.{Cache, Outcome, returns}
use mycorrhizal.Cache.Holds.{Holds}
use mycorrhizal.Cache.Abstract.{Entry, Call, answer, perform, writes}
use mycorrhizal.Cache.Entries.{entry-same, length-map-entry}
use mycorrhizal.Cache.Refines.{Shows}
use mycorrhizal.Cache.Sequence.{perform-answer}
use mycorrhizal.Cache.Frame.{Same, Frame}
use mycorrhizal.Cache.Framed.{perform-Framed}

returns-state :
    {A B : Type 0} {a a' : A} {b b' : B}
    → ◌≡◌ {A = Outcome (A × B)} (returns (a, b)) (returns (a', b'))
    → b ≡ b'
returns-state e = cc

-- no key of one bucket has the index entry of a key of the other
abbrev pub IsSeparate : Bytes → Bytes → Type 0
IsSeparate bucket other = (j k : Bytes) → bucket ++ j ≢ other ++ k

module _ {A : Type 0} {bucket other : Bytes} (separate : IsSeparate bucket other) {c c' : Cache A}
    {xs ys : List Ptr} (f : Frame bucket xs c c')
    (apart : (p : Ptr) → has p ys ≡ true → has p xs ≡ false) where
  module _ {b : LruBucket} (h : Holds c other b ys) where
    pub beside : (p : Ptr) → has p ys ≡ true → Same c.heap c'.heap p
    beside p m = f.outside p (ground (arith, h.chain.not_nil)) (h.chain.used p m) (apart p m)

    same_index : (k : Bytes) → c'.key_val (other ++ k) ≡ c.key_val (other ++ k)
    same_index k = f.other_keys (other ++ k) (λ j. separate j k)

    same_key : (p : Ptr) → has p ys ≡ true → c'.heap.key p ≡ c.heap.key p
    same_key p m = ap (λ e. e.key) (beside p m).same_entry

    pub Frame-Holds : Holds c' other b ys
    Frame-Holds = record {
      stored = f.other_buckets other (λ e. separate [] [] (ap (λ u. u ++ []) e)) ∙ h.stored;
      chain = record {
        distinct = h.chain.distinct;
        not_nil = h.chain.not_nil;
        head = h.chain.head;
        tail = h.chain.tail;
        len = h.chain.len;
        nexts = λ p m. (beside p m).links.same_next ∙ h.chain.nexts p m;
        prevs = λ p m. (beside p m).links.same_prev ∙ h.chain.prevs p m;
        used = λ p m. omega (arith, h.chain.used p m, f.grows);
      };
      indexed = λ p m. rw (same_key p m) (same_index (c.heap.key p) ∙ h.indexed p m);
      found = λ k p e. h.found k p (sym (same_index k) ∙ e);
      named = λ k p e.
          let old = sym (same_index k) ∙ e in same_key p (h.found k p old) ∙ h.named k p old;
      started = omega (arith, h.started, f.grows);
    }

-- the two buckets show these entries and share no node
pub record Beside {A : Type 0} (bucket other : Bytes) (m n : ℕ) (c : Cache A)
    (es fs : List (Entry A)) : Type 0 where
  pub one : Shows bucket m c es
  pub two : Shows other n c fs
  pub apart : (p : Ptr) → has p two.nodes ≡ true → has p one.nodes ≡ false

module _ {A : Type 0} {bucket other : Bytes} {m n : ℕ} {c : Cache A} {es fs : List (Entry A)} where
  pub Beside-swap : Beside bucket other m n c es fs → Beside other bucket n m c fs es
  Beside-swap b = record { one = b.two; two = b.one; apart = λ p k. ground (arith, b.apart p) }

  -- what the bucket has after the operation is what it had or new
  still_apart :
      (b : Beside bucket other m n c es fs) {c' : Cache A} {es' : List (Entry A)}
      → Frame bucket b.one.nodes c c'
      → (s : Shows bucket m c' es') (p : Ptr) → has p b.two.nodes ≡ true
      → has p s.nodes ≡ false
  still_apart b {c'} f s p there = elim (Bool-cases (has p s.nodes)) [
    | inl k ↦ elim (f.indexes (c'.heap.key p) p (s.holds.indexed p k)) [
      | inl e ↦ absurd (ground (arith, b.one.holds.found (c'.heap.key p) p e, b.apart p there))
      | inr e ↦ absurd (omega (arith, e, b.two.holds.chain.used p there))
    ]
    | inr k ↦ k
  ]

  Frame-Beside :
      IsSeparate bucket other
      → (b : Beside bucket other m n c es fs) {c' : Cache A} {es' : List (Entry A)}
      → Frame bucket b.one.nodes c c'
      → Shows bucket m c' es'
      → Beside bucket other m n c' es' fs
  Frame-Beside separate b {c'} f s = record {
    one = s;
    two = record {
      bucket_of = b.two.bucket_of;
      nodes = b.two.nodes;
      holds = Frame-Holds separate f b.apart b.two.holds;
      limit = b.two.limit;
      entries =
          b.two.entries
          ∙ entry-same c.heap c'.heap b.two.nodes
              (λ p k. sym (beside separate f b.apart b.two.holds p k).same_entry);
    };
    apart = still_apart b f s;
  }

  -- one call on the first bucket
  pub perform-Beside :
      IsSeparate bucket other
      → (call : Call A) → Beside bucket other m n c es fs
      → length es + writes (call ∷ []) ≤ m
      → (c' : Cache A) × (perform bucket call c ≡ returns ((answer call es).0, c'))
        × Beside bucket other m n c' (answer call es).1 fs
  perform-Beside separate call b room =
      let (c', e, s) = perform-answer bucket m c call es b.one room in
      let size : length es ≡ length b.one.nodes =
        ap length b.one.entries ∙ length-map-entry c.heap b.one.nodes in
      let (r, c'', e', f) =
        perform-Framed b.one.holds call m b.one.limit (omega (arith, size, room)) in
      (c', e, Frame-Beside separate b (rw (returns-state (sym e' ∙ e)) at f) s)
