-- ===== src/Lru/Tests.antt =====
-- Concrete buckets: two nodes pushed into an empty one.
use mycorrhizal.Base.{◌≡◌, Bool, refl, inr, not, ℕ, none, some, [], ◌∷◌, arith, ◌==◌}
use mycorrhizal.Base.Int.{pos}
use mycorrhizal.Base.Time.{zero_duration}
use mycorrhizal.Lru.{LruBucket, Heap, bucket_type_regular, push, detach, attach, delete}
use mycorrhizal.Lru.Order.{nil, without}
use mycorrhizal.Lru.Invariant.{IsBucket}
use mycorrhizal.Lru.Push.{push-IsBucket}
use mycorrhizal.Lru.Delete.{delete-IsBucket, find_key}

abbrev empty_bucket : LruBucket
empty_bucket = record {
  b_type = bucket_type_regular;
  precisions = [];
  head = nil;
  tail = nil;
  len = pos 0;
  max_len = pos 2;
  default_ttl = zero_duration;
}

abbrev three_nodes : Heap ℕ
three_nodes = record {
  fresh = 4;
  next = λ p. nil;
  prev = λ p. nil;
  key = λ p. p ∷ [];
  contents = λ p. some p;
  expires_at = λ p. none;
}

abbrev one : LruBucket × Heap ℕ
one = push 1 empty_bucket three_nodes

abbrev two : LruBucket × Heap ℕ
two = push 2 one.0 one.1

empty_bucket-IsBucket : IsBucket empty_bucket three_nodes []
empty_bucket-IsBucket = record {
  distinct = tt;
  not_nil = refl;
  head = refl;
  tail = refl;
  len = refl;
  nexts = λ p m. ground arith;
  prevs = λ p m. ground arith;
  used = λ p m. ground arith;
}

one-IsBucket : IsBucket one.0 one.1 (1 ∷ [])
one-IsBucket =
    push-IsBucket empty_bucket-IsBucket (omega arith) (omega arith)
      (inr (refl, record { no_next = refl; no_prev = refl }))

two-IsBucket : IsBucket two.0 two.1 (2 ∷ 1 ∷ [])
unfolding push detach attach
two-IsBucket =
    push-IsBucket one-IsBucket (omega arith) (omega arith)
      (inr (refl, record { no_next = refl; no_prev = refl }))

delete-IsBucket_example :
    (r : Bool × LruBucket × Heap ℕ) × (delete (1 ∷ []) two.0 two.1 ≡ some r)
    × (r.0 ≡ not (find_key two.1 (1 ∷ []) (2 ∷ 1 ∷ []) == nil))
    × IsBucket r.1 r.2 (without (find_key two.1 (1 ∷ []) (2 ∷ 1 ∷ [])) (2 ∷ 1 ∷ []))
unfolding push detach attach
delete-IsBucket_example = delete-IsBucket (1 ∷ []) two-IsBucket (omega arith)
