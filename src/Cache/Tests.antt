-- ===== src/Cache/Tests.antt =====
-- Concrete caches: a bucket for two entries, empty and full.
use mathlib.Core.List.Perm
use mycorrhizal.Base.{
  Result, ◌≡◌, ◌<◌, ◌*◌, ◌↔◌, refl, Bool, true, ℕ, ◌++◌, none, some, List, [], ◌∷◌, ok, err, is_ok,
  arith, ltb, get_or, if◌then◌else◌,
}
use mycorrhizal.Base.Bytes.{Bytes, Bytes-discrete, codes}
use mycorrhizal.Base.Int.{pos}
use mycorrhizal.Base.Maps.{empty}
use mycorrhizal.Base.Time.{zero_duration}
use mycorrhizal.Lru.{LruBucket, Heap, bucket_type_regular, push, detach, attach, delete}
use mycorrhizal.Lru.Order.{nil}
use mycorrhizal.Lru.Delete.{find_key}
use mycorrhizal.Cache.{Cache, codec_failed, Outcome, returns}
use mycorrhizal.Cache.Local.{set_local, evict_tail, new_node}
use mycorrhizal.Cache.Holds.{Holds}
use mycorrhizal.Cache.Writes.{
  bucket_with, cache_with, cache_with-Holds, set_local-IsWritten, IsWritten,
}
use mycorrhizal.Cache.Evicted.{delete-evict_tail}
use mycorrhizal.Cache.Rendezvous.{ReplicaNode}
use mycorrhizal.Cache.Remote.{Codec, RemoteCachePayload}
use mycorrhizal.Cache.{Error}
use mycorrhizal.Cache.Replicated.{Answer, tally, verdict, fan_out, replicate_write, answer_of}
use mycorrhizal.Cache.Quorum.{succeeded, replicate_write-majority, verdict-overlap, Agree}

abbrev pub bucket : Bytes
bucket = codes "s"

abbrev pub key_a : Bytes
key_a = codes "a"

abbrev pub key_b : Bytes
key_b = codes "b"

abbrev pub key_c : Bytes
key_c = codes "c"

abbrev pub empty_bucket : LruBucket
empty_bucket = record {
  b_type = bucket_type_regular;
  precisions = [];
  head = nil;
  tail = nil;
  len = pos 0;
  max_len = pos 2;
  default_ttl = zero_duration;
}

abbrev pub empty_cache : Cache ℕ
empty_cache = record {
  node_id = codes "n";
  key_val = empty;
  lru_buckets = (bucket, empty_bucket) ∷ [];
  heap = record {
    fresh = 1;
    next = λ p. nil;
    prev = λ p. nil;
    key = λ p. [];
    contents = λ p. none;
    expires_at = λ p. none;
  };
  node_score_hash_map = empty;
  replica_locality_cache = empty;
  replicas = 3;
}

pub empty_cache-Holds : Holds empty_cache bucket empty_bucket []
unfolding Bytes-discrete
empty_cache-Holds = record {
  stored = refl;
  chain = record {
    distinct = tt;
    not_nil = refl;
    head = refl;
    tail = refl;
    len = refl;
    nexts = λ p m. ground arith;
    prevs = λ p m. ground arith;
    used = λ p m. ground arith;
  };
  indexed = λ p m. ground arith;
  found = λ key n m. ground arith;
  named = λ key n m. ground arith;
  started = omega arith;
}

pub new_a : empty_cache.key_val (bucket ++ key_a) ≡ none
new_a = refl

abbrev pub cache_a : Cache ℕ
cache_a = cache_with empty_cache-Holds 0 key_a (some 7) zero_duration new_a

pub cache_a-Holds :
    Holds cache_a bucket
      (bucket_with empty_cache-Holds 0 key_a (some 7) zero_duration new_a)
      (1 ∷ [])
cache_a-Holds = cache_with-Holds empty_cache-Holds 0 key_a (some 7) zero_duration new_a

pub new_b : cache_a.key_val (bucket ++ key_b) ≡ none
unfolding Bytes-discrete
new_b = refl

abbrev pub cache_ab : Cache ℕ
cache_ab = cache_with cache_a-Holds 0 key_b (some 8) zero_duration new_b

abbrev pub bucket_ab : LruBucket
bucket_ab = bucket_with cache_a-Holds 0 key_b (some 8) zero_duration new_b

pub cache_ab-Holds : Holds cache_ab bucket bucket_ab (2 ∷ 1 ∷ [])
unfolding push detach attach new_node
cache_ab-Holds = cache_with-Holds cache_a-Holds 0 key_b (some 8) zero_duration new_b

found_a : find_key cache_ab.heap (cache_ab.heap.key 1) (2 ∷ 1 ∷ []) ≡ 1
unfolding push detach attach new_node Bytes-discrete find_key
found_a = refl

delete-evict_tail_example :
    (r : Bool × LruBucket × Heap ℕ) × (delete
        (cache_ab.heap.key 1)
        (evict_tail bucket_ab cache_ab.heap).0
        (evict_tail bucket_ab cache_ab.heap).1
      ≡ some r)
    × (r.0 ≡ true)
    × (r.1.head ≡ nil)
    × (r.1.tail ≡ nil)
delete-evict_tail_example = delete-evict_tail cache_ab-Holds.chain found_a

pub new_c : cache_ab.key_val (bucket ++ key_c) ≡ none
unfolding push detach attach new_node Bytes-discrete
new_c = refl

pub limit_ab : bucket_ab.max_len ≡ pos 2
unfolding push detach attach new_node
limit_ab = refl

set_local-IsWritten_example :
    (c' : Cache ℕ) × (set_local 3 bucket key_c (some 9) zero_duration cache_ab
      ≡ returns (ok tt, c'))
    × IsWritten cache_ab-Holds 3 key_c (some 9) zero_duration new_c limit_ab (omega arith) c'
set_local-IsWritten_example =
    set_local-IsWritten cache_ab-Holds 3 key_c (some 9) zero_duration new_c limit_ab (omega arith)

abbrev three_replicas : List ReplicaNode
three_replicas =
    record { id = codes "n"; score = 9 }
    ∷ record { id = codes "x"; score = 5 }
    ∷ record { id = codes "y"; score = 2 }
    ∷ []

abbrev here : Cache ℕ → Outcome (Answer × Cache ℕ)
here c = returns (ok tt, c)

abbrev there : Bytes → Answer
there id = if ltb 120 (get_or id 0 0) then err codec_failed else ok tt

abbrev answers : List Answer
answers = ok tt ∷ ok tt ∷ err codec_failed ∷ []

answers-fan_out : fan_out here there three_replicas empty_cache ≡ returns (answers, empty_cache)
unfolding fan_out answer_of Bytes-discrete
answers-fan_out = refl

replicate_write-majority_example :
    (a : Answer) × (replicate_write (λ rs. rs) here there three_replicas empty_cache
      ≡ returns (a, empty_cache))
    × ((is_ok a ≡ true) ↔ (3 < 2 * succeeded answers))
replicate_write-majority_example =
    replicate_write-majority (λ rs. rs) here there _ _ empty_cache (λ rs. Perm.refl rs)
      answers-fan_out

verdict-overlap_example :
    Agree (ok tt ∷ ok tt ∷ err codec_failed ∷ []) (err codec_failed ∷ ok tt ∷ ok tt ∷ [])
unfolding verdict tally
verdict-overlap_example =
    verdict-overlap (ok tt ∷ ok tt ∷ err codec_failed ∷ []) (err codec_failed ∷ ok tt ∷ ok tt ∷ [])
      refl refl refl

-- a codec and a network that always fail
abbrev pub mute : Codec (RemoteCachePayload ℕ)
mute = record { encode = λ p. err codec_failed; decode = λ b. err codec_failed }

abbrev pub unreachable : Bytes → Bytes → Result Error Bytes
unreachable bytes target = err codec_failed
