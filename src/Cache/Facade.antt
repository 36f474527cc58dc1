-- ===== src/Cache/Facade.antt =====
-- internal/mycel/cache.go: the methods of the `Cache` interface. `Geo` returns another component,
-- and `CreateGeoBucket` stands with it.
use mycorrhizal.Base.{ℕ, Option, List, Result, ok, err, ◌>>=◌}
use mycorrhizal.Base.Bytes.{Bytes}
use mycorrhizal.Base.Int.{ℤ}
use mycorrhizal.Base.Time.{Duration}
use mycorrhizal.Cache.{Cache, Error, Outcome, create_bucket as lru_create_bucket}
use mycorrhizal.Cache.Local.{get_local}
use mycorrhizal.Cache.Routing.{is_local}
use mycorrhizal.Cache.Remote.{Codec, RemoteCachePayload, get_remote}
use mycorrhizal.Cache.Replicated.{Answer, set_replicated, delete_replicated, set_ttl_replicated}

unfoldable pub create_bucket : {A : Type 0} → Bytes → Duration → ℤ → Cache A → Answer × Cache A
create_bucket name ttl max_len c =
    let (r, c') = lru_create_bucket name ttl max_len c in (r >>= λ b. ok tt, c')

module _ {A : Type 0} (codec : Codec (RemoteCachePayload A))
    (request : Bytes → Bytes → Result Error Bytes) (sum64 : Bytes → ℕ) (nodes : List Bytes) where
  unfoldable pub get : Bytes → Bytes → Cache A → Result Error (Option A) × Cache A
  get bucket key c =
      let (r, c') = get_local bucket key c in
      elim r [ ok val ↦ (ok val, c') | err e ↦ get_remote codec request sum64 nodes bucket key c' ]

  module _ (arrive : List Answer → List Answer) where
    -- `isLocal` only serves the metrics, and leaves its answer in the locality cache.
    unfoldable pub set :
        ℕ → Bytes → Bytes → Option A → Duration → Cache A → Outcome (Answer × Cache A)
    set now bucket key value ttl c =
        set_replicated codec request sum64 nodes arrive now bucket key value ttl
          (is_local sum64 nodes bucket key c).1

    unfoldable pub delete : Bytes → Bytes → Cache A → Outcome (Answer × Cache A)
    delete bucket key c =
        delete_replicated codec request sum64 nodes arrive bucket key
          (is_local sum64 nodes bucket key c).1

    unfoldable pub set_ttl : ℕ → Bytes → Bytes → Duration → Cache A → Outcome (Answer × Cache A)
    set_ttl now bucket key ttl c =
        set_ttl_replicated codec request sum64 nodes arrive now bucket key ttl
          (is_local sum64 nodes bucket key c).1
