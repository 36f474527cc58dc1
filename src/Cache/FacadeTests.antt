-- ===== src/Cache/FacadeTests.antt =====
-- internal/mycel/cache.go: `Set` and `Get` on a full bucket, in a cluster whose other nodes do not
-- answer.
use mycorrhizal.Base.{ℕ, ◌≡◌, refl, true, some, List, [], ◌∷◌, Result, ok, arith, dec_lt, length}
use mycorrhizal.Base.Bytes.{Bytes, Bytes-discrete, codes}
use mycorrhizal.Base.Decimal.{itoa}
use mycorrhizal.Base.Time.{zero_duration}
use mycorrhizal.Cache.{Cache, Error, routing_key, returns}
use mycorrhizal.Cache.Rendezvous.{contains, get_replicas, top_replicas, sort_scored}
use mycorrhizal.Cache.Routing.{is_local}
use mycorrhizal.Cache.Coherent.{IsCoherent}
use mycorrhizal.Cache.Replicated.{Answer}
use mycorrhizal.Cache.Facade.{get, set}
use mycorrhizal.Cache.ReadBack.{get-set}
use mycorrhizal.Cache.Tests.{bucket, key_c, cache_ab, cache_ab-Holds, limit_ab, mute, unreachable}

abbrev others : List Bytes
others = codes "x" ∷ codes "y" ∷ []

cache_ab-IsCoherent : IsCoherent length others cache_ab
cache_ab-IsCoherent = record {
  primaries = λ k id h. ground arith;
  localities = λ k here h. ground arith;
}

is_replica : (is_local length others bucket key_c cache_ab).0 ≡ true
unfolding is_local contains top_replicas get_replicas sort_scored dec_lt routing_key itoa
    Bytes-discrete
is_replica = refl

get-set_example :
    (a : Answer) × (c' : Cache ℕ) × (set mute unreachable length others
        (λ rs. rs)
        3
        bucket
        key_c
        (some 9)
        zero_duration
        cache_ab
      ≡ returns (a, c'))
    × ((request' : Bytes → Bytes → Result Error Bytes) (nodes' : List Bytes)
        → (get mute request' length nodes' bucket key_c c').0 ≡ ok (some 9))
get-set_example =
    get-set cache_ab-Holds limit_ab (omega arith) mute unreachable length others (λ rs. rs) 3 key_c
      (some 9) zero_duration cache_ab-IsCoherent is_replica
