-- ===== src/Cache/InterleavedTests.antt =====
-- Two buckets that hold the same key, and two whose names let different keys collide.
use mycorrhizal.Base.{ℕ, ◌≡◌, refl, Bool, true, false, some, List, [], ◌∷◌, ok, arith}
use mycorrhizal.Base.Bytes.{Bytes, Bytes-discrete, codes}
use mycorrhizal.Base.Maps.{lookup, put}
use mycorrhizal.Base.Time.{zero_duration}
use mycorrhizal.Lru.{push, detach, attach}
use mycorrhizal.Cache.{Cache, Outcome, returns, panics, out_of_fuel, get_bucket}
use mycorrhizal.Cache.Local.{set_local, get_local, evict, new_node}
use mycorrhizal.Cache.Holds.{Holds}
use mycorrhizal.Cache.Abstract.{Call, get, set, Reply, read, wrote, answer, find, perform}
use mycorrhizal.Cache.Beside.{IsSeparate, Beside}
use mycorrhizal.Cache.Interleaved.{perform_both, answer_both, perform_both-answer_both}
use mycorrhizal.Cache.Tests.{bucket, key_a, empty_cache, empty_bucket, empty_cache-Holds}

abbrev other : Bytes
other = codes "t"

abbrev two_buckets : Cache ℕ
two_buckets = record empty_cache {
  lru_buckets = (bucket, empty_bucket) ∷ (other, empty_bucket) ∷ [];
}

empty-Holds :
    (name : Bytes)
    → lookup name two_buckets.lru_buckets ≡ some empty_bucket
    → Holds two_buckets name empty_bucket []
empty-Holds name e = record {
  stored = e;
  chain = empty_cache-Holds.chain;
  indexed = λ p m. ground arith;
  found = λ key n m. ground arith;
  named = λ key n m. ground arith;
  started = empty_cache-Holds.started;
}

two_buckets-Beside : Beside bucket other 2 2 two_buckets [] []
unfolding Bytes-discrete
two_buckets-Beside = record {
  one = record {
    bucket_of = empty_bucket;
    nodes = [];
    holds = empty-Holds bucket refl;
    limit = refl;
    entries = refl;
  };
  two = record {
    bucket_of = empty_bucket;
    nodes = [];
    holds = empty-Holds other refl;
    limit = refl;
    entries = refl;
  };
  apart = λ p m. refl;
}

separate : IsSeparate bucket other
separate j k e = ground arith

abbrev calls : List (Bool × Call ℕ)
calls =
    (true, set 0 key_a (some 7) zero_duration)
    ∷ (false, set 0 key_a (some 8) zero_duration)
    ∷ (true, get key_a)
    ∷ (false, get key_a)
    ∷ []

perform_both-answer_both_example :
    (c' : Cache ℕ) × (perform_both bucket other calls two_buckets
      ≡ returns ((answer_both calls [] []).0, c'))
    × Beside bucket other 2 2 c' (answer_both calls [] []).1 (answer_both calls [] []).2
perform_both-answer_both_example =
    perform_both-answer_both separate calls two_buckets [] [] two_buckets-Beside (omega arith)
      (omega arith)

-- each bucket answers with its own value
answers :
    (answer_both calls [] []).0
    ≡ wrote (ok tt) ∷ wrote (ok tt) ∷ read (ok (some 7)) ∷ read (ok (some 8)) ∷ []
unfolding answer_both answer Bytes-discrete find
answers = refl

-- what a sequence of calls answers, if it returns
abbrev replies : Outcome (List (Reply ℕ) × Cache ℕ) → List (Reply ℕ)
replies (returns (rs, c)) = rs
replies panics = []
replies out_of_fuel = []

abbrev colliding : Cache ℕ
colliding = record empty_cache {
  lru_buckets = (codes "ab", empty_bucket) ∷ (codes "a", empty_bucket) ∷ [];
}

-- Where the name of one bucket begins that of the other, a read in one finds what was written in the
-- other.
collision :
    replies (
      perform_both
        (codes "ab")
        (codes "a")
        ((true, set 0 (codes "c") (some 7) zero_duration) ∷ (false, get (codes "bc")) ∷ [])
        colliding)
    ≡ wrote (ok tt) ∷ read (ok (some 7)) ∷ []
unfolding perform_both perform set_local get_local get_bucket evict new_node push detach attach
    Bytes-discrete put
collision = refl
