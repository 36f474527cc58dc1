-- ===== src/Cache/AbstractTests.antt =====
-- Concrete sequences of local operations on a bucket for two entries.
use mycorrhizal.Base.{◌≡◌, refl, ℕ, none, some, ◌++◌, List, [], ◌∷◌, ok, err, arith}
use mycorrhizal.Base.Bytes.{Bytes, Bytes-discrete, codes}
use mycorrhizal.Base.Int.{pos}
use mycorrhizal.Base.Time.{zero_duration}
use mycorrhizal.Cache.{Cache, Outcome, returns, not_found, get_bucket}
use mycorrhizal.Cache.Abstract.{
  Call, get, set, delete, set_ttl, Reply, read, wrote, find, drop_key, extend, answer, answer_all,
  perform, perform_all,
}
use mycorrhizal.Cache.Local.{get_local, set_local, evict, evict_tail, new_node}
use mycorrhizal.Lru.{push, detach, attach}
use mycorrhizal.Base.Maps.{put}
use mycorrhizal.Cache.Refines.{Shows}
use mycorrhizal.Cache.Sequence.{perform_all-answer_all}
use mycorrhizal.Cache.Forgets.{IsForgotten, set_local-forgets}
use mycorrhizal.Lru.Order.{Ptr}
use mycorrhizal.Cache.Tests.{
  bucket, key_a, key_b, key_c, empty_bucket, empty_cache, empty_cache-Holds, cache_ab,
  cache_ab-Holds, new_c, limit_ab,
}

empty_cache-Shows : Shows bucket 2 empty_cache []
empty_cache-Shows = record {
  bucket_of = empty_bucket;
  nodes = [];
  holds = empty_cache-Holds;
  limit = refl;
  entries = refl;
}

-- two writes, a read that reorders them, a change of a time to live, a miss, and a delete
abbrev calls : List (Call ℕ)
calls =
    set 0 key_a (some 7) zero_duration
    ∷ set 0 key_b (some 8) zero_duration
    ∷ get key_a
    ∷ set_ttl 5 key_b (pos 3)
    ∷ get key_c
    ∷ delete key_a
    ∷ []

answers : answer_all calls [] ≡ (
  wrote (ok tt)
      ∷ wrote (ok tt)
      ∷ read (ok (some 7))
      ∷ wrote (ok tt)
      ∷ read (err not_found)
      ∷ wrote (ok tt)
      ∷ [],
  record { key = key_b; contents = some 8; expires_at = some 8 } ∷ [],
)
unfolding answer_all answer find drop_key extend Bytes-discrete
answers = refl

perform_all-answer_all_example :
    (c' : Cache ℕ) × (perform_all bucket calls empty_cache ≡ returns ((answer_all calls []).0, c'))
    × Shows bucket 2 c' (answer_all calls []).1
perform_all-answer_all_example =
    perform_all-answer_all bucket 2 calls empty_cache [] empty_cache-Shows (omega arith)

-- A full bucket forgets the entry that was read last: after an eviction and a read of the entry at
-- the end, the next write evicts the entry that was just read.
abbrev overflow : List (Call ℕ)
overflow =
    set 0 key_a (some 1) zero_duration
    ∷ set 0 key_b (some 2) zero_duration
    ∷ set 0 key_c (some 3) zero_duration
    ∷ get key_b
    ∷ set 0 key_a (some 4) zero_duration
    ∷ get key_b
    ∷ []

abbrev replies : Outcome (List (Reply ℕ) × Cache ℕ) → List (Reply ℕ)
replies (returns (rs, c)) = rs
replies _ = []

forgets_recent :
    replies (perform_all bucket overflow empty_cache)
    ≡ wrote (ok tt)
      ∷ wrote (ok tt)
      ∷ wrote (ok tt)
      ∷ read (ok (some 2))
      ∷ wrote (ok tt)
      ∷ read (err not_found)
      ∷ []
unfolding perform_all perform get_local set_local evict evict_tail new_node get_bucket put push
    detach attach Bytes-discrete
forgets_recent = refl

abbrev key_d : Bytes
key_d = codes "d"

new_d : cache_ab.key_val (bucket ++ key_d) ≡ none
unfolding push detach attach new_node Bytes-discrete
new_d = refl

set_local-forgets_example :
    (n : Ptr) × (c₁ c₂ c₃ : Cache ℕ) × IsForgotten cache_ab-Holds limit_ab
      (omega arith)
      3
      key_c
      (some 9)
      zero_duration
      new_c
      4
      key_d
      (some 5)
      zero_duration
      n
      c₁
      c₂
      c₃
set_local-forgets_example =
    set_local-forgets cache_ab-Holds limit_ab (omega arith) 3 key_c (some 9) zero_duration new_c 4
      key_d (some 5) zero_duration (λ e. ground arith) new_d
