-- ===== src/Cache.antt =====
-- internal/mycel: the cache of one node. Its state, the named buckets, the index from keys to nodes,
-- and the errors that its operations return. Metrics and log lines are left out throughout.
pub mod Local
pub mod Keys
pub mod Rendezvous
pub mod Routing
pub mod Remote
pub mod Replicated
pub mod Holds
pub mod Reads
pub mod Abstract
pub mod Entries
pub mod Refines
pub mod Sequence
pub mod Collected
pub mod Frame
pub mod Framed
pub mod Beside
pub mod Interleaved
pub mod Swept
pub mod Views
pub mod Cleared
pub mod Balanced
pub mod ReadBack
pub mod Writes
pub mod Evicted
pub mod Stale
pub mod Forgets
pub mod Quorum
pub mod Walk
pub mod Facade
pub mod Handler
pub mod Expiry
pub mod Rebalancer
pub mod Placed
pub mod Agreed
pub mod Served
pub mod Coherent
pub mod Deletes
pub mod Expired
pub mod Tests
mod RoutingTests
mod FacadeTests
mod AbstractTests
mod SweepTests
mod InterleavedTests
use mycorrhizal.Base.{
  ℕ, ◌≡◌, refl, arith, Bool, true, false, Option, none, some, List, [], ◌∷◌, ◌++◌, Result, ok, err,
  length, ◌⊎◌, inl, inr,
}
use mycorrhizal.Base.Bytes.{Bytes, codes}
use mycorrhizal.Base.Decimal.{itoa}
use mycorrhizal.Base.Int.{ℤ, pos}
use mycorrhizal.Base.Maps.{Map, empty, lookup, put}
use mycorrhizal.Base.Time.{Duration}
use mycorrhizal.Lru.{LruBucket, bucket_type_regular, bucket_type_geo, Heap}
use mycorrhizal.Lru.Order.{Ptr, nil}

-- `wrong_quorum` wraps the last error (`%w`); an error of another node arrives as text.
pub data Error : Type 0 where
  not_found : Error
  bucket_not_found : Error
  bucket_exists : Error
  no_precision : Error
  bad_precision : Error
  no_geo_bucket : Error
  user_not_found : Error
  no_replicas : Error
  wrong_quorum : ℕ → ℕ → Error → Error
  transport_failed : Bytes → Error
  codec_failed : Error
  empty_request : Error
  unknown_operation : Error

-- `errors.Is(err, ERR_NOT_FOUND)`
unfoldable pub is_not_found : Error → Bool
is_not_found not_found = true
is_not_found (wrong_quorum s n e) = is_not_found e
is_not_found _ = false

-- The index `keyVal`, the buckets `lruBuckets` by name, the nodes, and the two routing caches.
pub record Cache (A : Type 0) : Type 0 where
  pub node_id : Bytes
  pub key_val : Map Ptr
  pub lru_buckets : List (Bytes × LruBucket)
  pub heap : Heap A
  pub node_score_hash_map : Map Bytes
  pub replica_locality_cache : Map Bool
  pub replicas : ℕ

-- what a call leaves behind when it returns; `panics` is a nil dereference
pub data Outcome (B : Type 0) : Type 0 where
  returns : B → Outcome B
  panics : Outcome B
  out_of_fuel : Outcome B

infixl 5 ◌>>=◌
abbrev pub ◌>>=◌ : {B C : Type 0} → Outcome B → (B → Outcome C) → Outcome C
returns b >>= f = f b
panics >>= f = panics
out_of_fuel >>= f = out_of_fuel

pub Outcome-cases :
    {B : Type 0} (m : Outcome B) → ((b : B) × (m ≡ returns b)) ⊎ ((m ≡ panics) ⊎ (m ≡ out_of_fuel))
Outcome-cases (returns b) = inl (b, refl)
Outcome-cases panics = inr (inl refl)
Outcome-cases out_of_fuel = inr (inr refl)

pub >>=-eq-returns :
    {B C : Type 0} {f : B → Outcome C} (m : Outcome B) {d : C}
    → (m >>= f) ≡ returns d
    → (b : B) × (m ≡ returns b) × (f b ≡ returns d)
>>=-eq-returns (returns b) e = (b, refl, e)
>>=-eq-returns panics e = ground arith
>>=-eq-returns out_of_fuel e = ground arith

-- `routingKey`: the length of the bucket's name comes first
unfoldable pub routing_key : Bytes → Bytes → Bytes
routing_key bucket key = itoa (length bucket) ++ (b':' ∷ (bucket ++ key))

module _ {A : Type 0} where
  -- `GetBucket`
  unfoldable pub get_bucket : Bytes → Cache A → Result Error LruBucket
  get_bucket name c = elim (lookup name c.lru_buckets) [
    | none ↦ err bucket_not_found
    | some l ↦ ok l
  ]

  abbrev pub set_bucket : Bytes → LruBucket → Heap A → Cache A → Cache A
  set_bucket name l h c = record c { lru_buckets = put name l c.lru_buckets; heap = h }

  -- `lruBuckets.CreateBucket`
  unfoldable pub create_bucket : Bytes → Duration → ℤ → Cache A → Result Error LruBucket × Cache A
  create_bucket name default_ttl max_len c = elim (lookup name c.lru_buckets) [
    | some l ↦ (err bucket_exists, c)
    | none ↦
        let l : LruBucket = record {
          b_type = bucket_type_regular;
          precisions = [];
          head = nil;
          tail = nil;
          len = pos 0;
          max_len = max_len;
          default_ttl = default_ttl;
        } in
        (ok l, set_bucket name l c.heap c)
  ]

  -- `CreateGeoBucketInternal`
  unfoldable pub create_geo_bucket_internal :
      Bytes → Duration → ℤ → List ℕ → Cache A → Result Error LruBucket × Cache A
  create_geo_bucket_internal name default_ttl max_len precisions c =
      elim (lookup name c.lru_buckets) [
        | some l ↦ (err bucket_exists, c)
        | none ↦
            let l : LruBucket = record {
              b_type = bucket_type_geo;
              precisions = precisions;
              head = nil;
              tail = nil;
              len = pos 0;
              max_len = max_len;
              default_ttl = default_ttl;
            } in
            (ok l, set_bucket name l c.heap c)
      ]
