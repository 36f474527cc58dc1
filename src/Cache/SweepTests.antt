-- ===== src/Cache/SweepTests.antt =====
-- A run of each background task on a bucket of two entries that have expired and an empty bucket. Each
-- key has one replica: this node for the first one, another node for the second one.
use mycorrhizal.Base.{ℕ, ◌+◌, ◌%◌, ◌≡◌, refl, none, some, List, [], ◌∷◌, ◌++◌}
use mycorrhizal.Base.Bytes.{Bytes, Bytes-discrete, codes}
use mycorrhizal.Base.Int.{pos}
use mycorrhizal.Cache.{Cache}
use mycorrhizal.Cache.Holds.{Holds}
use mycorrhizal.Cache.Writes.{bucket_with, cache_with, cache_with-Holds}
use mycorrhizal.Cache.Replicated.{Answer}
use mycorrhizal.Cache.Swept.{Swept}
use mycorrhizal.Cache.Views.{View}
use mycorrhizal.Cache.Tests.{bucket, key_a, key_b, empty_cache, empty_bucket, empty_cache-Holds}

abbrev total : Bytes → ℕ
total [] = 0
total (b ∷ bs) = b + total bs

-- a hash of one bit
abbrev parity : Bytes → ℕ
parity bs = total bs % 2

abbrev spare : Bytes
spare = codes "t"

abbrev lone_cache : Cache ℕ
lone_cache = record empty_cache {
  replicas = 1;
  lru_buckets = (bucket, empty_bucket) ∷ (spare, empty_bucket) ∷ [];
}

lone_cache-Holds : Holds lone_cache bucket empty_bucket []
unfolding Bytes-discrete
lone_cache-Holds = record {
  stored = refl;
  chain = empty_cache-Holds.chain;
  indexed = empty_cache-Holds.indexed;
  found = empty_cache-Holds.found;
  named = empty_cache-Holds.named;
  started = empty_cache-Holds.started;
}

abbrev first_cache : Cache ℕ
first_cache = cache_with lone_cache-Holds 0 key_a (some 7) (pos 5) refl

first_cache-Holds :
    Holds first_cache bucket (bucket_with lone_cache-Holds 0 key_a (some 7) (pos 5) refl) (1 ∷ [])
first_cache-Holds = cache_with-Holds lone_cache-Holds 0 key_a (some 7) (pos 5) refl

new_b : first_cache.key_val (bucket ++ key_b) ≡ none
unfolding Bytes-discrete
new_b = refl

abbrev both_cache : Cache ℕ
both_cache = cache_with first_cache-Holds 0 key_b (some 8) (pos 5) new_b

abbrev views : List View
views =
    record {
      name = bucket;
      bucket_of = bucket_with first_cache-Holds 0 key_b (some 8) (pos 5) new_b;
      nodes = 2 ∷ 1 ∷ [];
    }
    ∷ record { name = spare; bucket_of = empty_bucket; nodes = [] }
    ∷ []

abbrev in_order : List Answer → List Answer
in_order answers = answers

abbrev others : List Bytes
others = codes "m" ∷ []
