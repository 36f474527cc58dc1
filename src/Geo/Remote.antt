-- ===== src/Geo/Remote.antt =====
-- internal/mycel/geo_remote.go, with the parts of cache.go and task.go that reach the geo cache. The
-- gob encoding is the interface `GeoCodec`; a write returns the payload that it broadcasts with
-- `app.Send`, in a goroutine of its own, whose result nobody reads.
use mycorrhizal.Base.{
  ℕ, Bool, true, false, Option, none, some, List, [], ◌∷◌, Result, ok, err, ◌==◌, if◌then◌else◌,
  not,
}
use mycorrhizal.Base.Bytes.{Bytes}
use mycorrhizal.Base.Int.{ℤ}
use mycorrhizal.Base.Maps.{lookup}
use mycorrhizal.Base.Time.{Duration, Instant, zero_duration, is_positive, until}
use mycorrhizal.Cache.{
  Error, no_geo_bucket, user_not_found, no_precision, Outcome, returns, ◌>>=◌,
  create_geo_bucket_internal,
}
use mycorrhizal.Cache.Remote.{delete_op, geo_set_op}
use mycorrhizal.Cache.Replicated.{Answer}
use mycorrhizal.Geo.{Geohash, GeoEntry, GeoStore, GeoCache, create_store, get_store}
use mycorrhizal.Geo.Local.{set_location_local, delete_location_local}

pub record GeoPayload (F : Type 0) : Type 0 where
  pub operation : ℕ
  pub bucket : Bytes
  pub user_id : Bytes
  pub lat : F
  pub lng : F
  pub expires_at : Instant
  pub precisions : List ℕ

-- `encodeGeoPayload` and `decodeGeoPayload`, and Go's zero of a coordinate
pub record GeoCodec (F : Type 0) : Type 0 where
  pub encode_payload : GeoPayload F → Result Error Bytes
  pub decode_payload : Bytes → Result Error (GeoPayload F)
  pub zero_coordinate : F

-- the errors of the local delete that `DeleteLocation` ignores
unfoldable pub is_absent : Error → Bool
is_absent user_not_found = true
is_absent no_geo_bucket = true
is_absent _ = false

-- the expiry that the store holds for a user, or the zero time
unfoldable pub stored_expiry : {F : Type 0} → Bytes → GeoStore F → Instant
stored_expiry user s = elim (lookup user s.points) [ none ↦ none | some e ↦ e.expires_at ]

-- the payload of a location
abbrev pub location_message : {F : Type 0} → Bytes → Bytes → F → F → Instant → List ℕ → GeoPayload F
location_message bucket user lat lng expiry precisions = record {
  operation = geo_set_op;
  bucket = bucket;
  user_id = user;
  lat = lat;
  lng = lng;
  expires_at = expiry;
  precisions = precisions;
}

module _ {F A : Type 0} where
  -- `CreateGeoBucket`
  unfoldable pub create_geo_bucket :
      Bytes → Duration → ℤ → List ℕ → GeoCache F A → Answer × GeoCache F A
  create_geo_bucket name ttl max_len [] g = (err no_precision, g)
  create_geo_bucket name ttl max_len (p ∷ ps) g =
      let (r, c) = create_geo_bucket_internal name ttl max_len (p ∷ ps) g.cache in
      elim r [
        | err e ↦ (err e, record g { cache = c })
        | ok _ ↦ create_store name (p ∷ ps) (record g { cache = c })
      ]

module _ {F A : Type 0} (geo : Geohash F) (wrap : GeoEntry F → A) (codec : GeoCodec F) where
  -- the answer, the payload to broadcast, and the new state
  abbrev pub Broadcast : Type 0
  Broadcast = Outcome (Answer × Option Bytes × GeoCache F A)

  -- the payload goes out once it is encoded
  unfoldable pub broadcast : GeoPayload F → GeoCache F A → Broadcast
  broadcast p g = elim (codec.encode_payload p) [
    | err e ↦ returns (err e, none, g)
    | ok message ↦ returns (ok tt, some message, g)
  ]

  -- `SetLocation` after the local write
  unfoldable pub announce : Bytes → Bytes → F → F → Answer → GeoCache F A → Broadcast
  announce bucket user lat lng (err e) g = returns (err e, none, g)
  announce bucket user lat lng (ok _) g = elim (get_store bucket g) [
    | err e ↦ returns (err e, none, g)
    | ok s ↦ broadcast (location_message bucket user lat lng (stored_expiry user s) s.precisions) g
  ]

  unfoldable pub set_location : ℕ → Bytes → Bytes → F → F → Duration → GeoCache F A → Broadcast
  set_location now bucket user lat lng ttl g = do
    (a, g') ← set_location_local geo wrap now bucket user lat lng ttl g
    announce bucket user lat lng a g'

  -- the payload of a deletion
  unfoldable pub deletion : Bytes → Bytes → GeoPayload F
  deletion bucket user = record {
    operation = delete_op;
    bucket = bucket;
    user_id = user;
    lat = codec.zero_coordinate;
    lng = codec.zero_coordinate;
    expires_at = none;
    precisions = [];
  }

  unfoldable pub delete_location : Bytes → Bytes → GeoCache F A → Broadcast
  delete_location bucket user g = do
    (a, g') ← delete_location_local geo wrap bucket user g
    elim a [
      | ok _ ↦ broadcast (deletion bucket user) g'
      | err e ↦
          if not (is_absent e)
          then returns (err e, none, g')
          else broadcast (deletion bucket user) g'
    ]

  -- `createStore` on receipt; its error is only logged
  unfoldable pub ensure_store : GeoPayload F → GeoCache F A → GeoCache F A
  ensure_store p g = elim p.precisions [ [] ↦ g | q ∷ qs ↦ (create_store p.bucket (q ∷ qs) g).1 ]

  -- The GEO_SET branch, with the state that `ensure_store` left. The clock is read twice: `now` for the
  -- time that is left, and `later` in `setLocationLocal`.
  unfoldable pub receive_set :
      (now later : ℕ) → GeoPayload F → GeoCache F A → Outcome (Answer × GeoCache F A)
  receive_set now later p g = elim p.expires_at [
    | none ↦ set_location_local geo wrap later p.bucket p.user_id p.lat p.lng zero_duration g
    | some t ↦
        if not (is_positive (until now t))
        then returns (ok tt, g)
        else set_location_local geo wrap later p.bucket p.user_id p.lat p.lng (until now t) g
  ]

  unfoldable pub handle_geo_receive :
      (now later : ℕ) → Bytes → GeoCache F A → Outcome (Answer × GeoCache F A)
  handle_geo_receive now later message g = elim (codec.decode_payload message) [
    | err e ↦ returns (err e, g)
    | ok p ↦
        if p.operation == geo_set_op
        then receive_set now later p (ensure_store p g)
        else if p.operation == delete_op
        then (do (_, g') ← delete_location_local geo wrap p.bucket p.user_id g; returns (ok tt, g'))
        else returns (ok tt, g)
  ]

  unfoldable pub application_receive_func :
      (now later : ℕ) → Bytes → GeoCache F A → Outcome (Answer × GeoCache F A)
  application_receive_func now later [] g = returns (ok tt, g)
  application_receive_func now later (b ∷ bs) g = handle_geo_receive now later (b ∷ bs) g
