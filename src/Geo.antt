-- ===== src/Geo.antt =====
-- internal/mycel/geo.go: the spatial index of the geo buckets of one node. Coordinates are float64,
-- whose arithmetic the interface `Floats` provides, and cells come from the library geohash, the
-- interface `Geohash`. Metrics and log lines are left out.
pub mod Local
pub mod Query
pub mod Remote
pub mod Flush
pub mod Sorted
pub mod Index
pub mod Found
pub mod Fill
pub mod Stores
pub mod Converge
mod Tests
use mycorrhizal.Base.{
  ℕ, Bool, true, false, Option, none, some, List, [], ◌∷◌, Result, ok, err, leb, ◌==◌,
  if◌then◌else◌,
}
use mycorrhizal.Base.Bytes.{Bytes}
use mycorrhizal.Base.Maps.{lookup, put}
use mycorrhizal.Base.Time.{Instant}
use mycorrhizal.Cache.{Cache, Error, no_geo_bucket, bad_precision}
use mycorrhizal.Cache.Replicated.{Answer}

-- float64 and the package math: `leq a b` is `a <= b`, and `lt a b` is `a < b`
pub record Floats : Type 1 where
  pub F : Type 0
  pub leq : F → F → Bool
  pub lt : F → F → Bool
  pub add : F → F → F
  pub sub : F → F → F
  pub mul : F → F → F
  pub div : F → F → F
  pub cos : F → F
  pub sin : F → F
  pub sqrt : F → F
  pub atan2 : F → F → F
  pub one : F
  pub two : F
  pub pi : F
  pub degrees_180 : F
  pub earth_radius_km : F
  pub tiny : F

pub record Box (F : Type 0) : Type 0 where
  pub min_lat : F
  pub min_lng : F
  pub max_lat : F
  pub max_lng : F

-- `EncodeWithPrecision`, `BoundingBox` and `Neighbors` of the library
pub record Geohash (F : Type 0) : Type 0 where
  pub encode : F → F → ℕ → Bytes
  pub box : Bytes → Box F
  pub neighbors : Bytes → List Bytes

pub record GeoEntry (F : Type 0) : Type 0 where
  pub user_id : Bytes
  pub lat : F
  pub lng : F
  pub geohash : Bytes
  pub expires_at : Instant

-- `index`: the users of each cell of each tier. The code keeps no empty cell, so an absent cell is
-- the empty list.
abbrev pub Index : Type 0
Index = ℕ → Bytes → List Bytes

pub record GeoStore (F : Type 0) : Type 0 where
  pub precisions : List ℕ
  pub index : Index
  pub points : List (Bytes × GeoEntry F)

-- `geoCache`, with the cache that it refers to
pub record GeoCache (F A : Type 0) : Type 0 where
  pub cache : Cache A
  pub stores : List (Bytes × GeoStore F)

-- `s.precisions[len(s.precisions)-1]`; a store has at least one precision
unfoldable pub last_or : ℕ → List ℕ → ℕ
last_or d [] = d
last_or d (p ∷ ps) = last_or p ps

unfoldable pub has : ℕ → List ℕ → Bool
has p [] = false
has p (v ∷ vs) = if v == p then true else has p vs

-- `sort.Slice` in ascending order
unfoldable pub insert_asc : ℕ → List ℕ → List ℕ
insert_asc p [] = p ∷ []
insert_asc p (v ∷ vs) = if leb p v then p ∷ v ∷ vs else v ∷ insert_asc p vs

unfoldable pub sort_asc : List ℕ → List ℕ
sort_asc [] = []
sort_asc (p ∷ ps) = insert_asc p (sort_asc ps)

module _ {F : Type 0} where
  abbrev pub max_precision : GeoStore F → ℕ
  max_precision s = last_or 0 s.precisions

  abbrev pub has_precision : GeoStore F → ℕ → Bool
  has_precision s p = has p s.precisions

  -- the store that `createStore` makes
  unfoldable pub new_store : List ℕ → GeoStore F
  new_store precisions = record {
    precisions = sort_asc precisions;
    index = λ p cell. [];
    points = [];
  }

module _ {F A : Type 0} where
  unfoldable pub create_store : Bytes → List ℕ → GeoCache F A → Answer × GeoCache F A
  create_store bucket [] g = (err bad_precision, g)
  create_store bucket (p ∷ ps) g = elim (lookup bucket g.stores) [
    | some s ↦ (ok tt, g)
    | none ↦ (ok tt, record g { stores = put bucket (new_store (p ∷ ps)) g.stores })
  ]

  unfoldable pub get_store : Bytes → GeoCache F A → Result Error (GeoStore F)
  get_store bucket g = elim (lookup bucket g.stores) [ none ↦ err no_geo_bucket | some s ↦ ok s ]
