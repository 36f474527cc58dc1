-- ===== src/Geo/Local.antt =====
-- internal/mycel/geo_local.go: writing and deleting a location on this node. `wrap` stores an entry
-- as a cache value, and `now` is the clock's reading.
use mycorrhizal.Base.{
  ℕ, Bool, true, false, none, some, List, [], ◌∷◌, ok, err, ite, ℕ_discrete, if◌then◌else◌,
}
use mycorrhizal.Base.Bytes.{Bytes, Bytes-discrete}
use mycorrhizal.Base.Maps.{lookup, put, del}
use mycorrhizal.Base.Time.{Duration, Instant, is_zero, is_positive, add_duration}
use mycorrhizal.Cache.{Outcome, returns, ◌>>=◌, get_bucket}
use mycorrhizal.Cache.Local.{set_local, delete_local}
use mycorrhizal.Cache.Replicated.{Answer}
use mycorrhizal.Geo.{Geohash, GeoEntry, Index, GeoStore, GeoCache, max_precision, get_store}

-- `delete(ids, user)` and `ids[user] = struct{}{}`
unfoldable pub drop_user : Bytes → List Bytes → List Bytes
drop_user user [] = []
drop_user user (u ∷ us) = ite (Bytes-discrete u user) (drop_user user us) (u ∷ drop_user user us)

unfoldable pub is_user : Bytes → List Bytes → Bool
is_user user [] = false
is_user user (u ∷ us) = ite (Bytes-discrete u user) true (is_user user us)

unfoldable pub add_user : Bytes → List Bytes → List Bytes
add_user user us = if is_user user us then us else user ∷ us

-- change one cell of one tier
unfoldable pub at_cell : ℕ → Bytes → (List Bytes → List Bytes) → Index → Index
at_cell p cell f ix q d =
    ite (ℕ_discrete p q) (ite (Bytes-discrete cell d) (f (ix q d)) (ix q d)) (ix q d)

-- the loops over the precisions: the cell of a location in each tier loses, or gains, the user
unfoldable pub leave_cells : (ℕ → Bytes) → Bytes → List ℕ → Index → Index
leave_cells cell user [] ix = ix
leave_cells cell user (p ∷ ps) ix =
    leave_cells cell user ps (at_cell p (cell p) (drop_user user) ix)

unfoldable pub enter_cells : (ℕ → Bytes) → Bytes → List ℕ → Index → Index
enter_cells cell user [] ix = ix
enter_cells cell user (p ∷ ps) ix = enter_cells cell user ps (at_cell p (cell p) (add_user user) ix)

module _ {F : Type 0} (geo : Geohash F) where
  -- the cell of an entry at each precision
  abbrev pub cell_of : GeoEntry F → ℕ → Bytes
  cell_of e p = geo.encode e.lat e.lng p

  -- a user that has moved leaves its old cells
  unfoldable pub leave_old : Bytes → Bytes → GeoStore F → Index
  leave_old user canonical s = elim (lookup user s.points) [
    | none ↦ s.index
    | some old ↦
        ite (Bytes-discrete old.geohash canonical) s.index
          (leave_cells (cell_of old) user s.precisions s.index)
  ]

  -- the part of `setLocationLocal` that runs under the store's lock
  unfoldable pub set_point : Bytes → GeoEntry F → GeoStore F → GeoStore F
  set_point user entry s = record s {
    index = enter_cells (cell_of entry) user s.precisions (leave_old user entry.geohash s);
    points = put user entry s.points;
  }

  -- the part of `deleteLocationLocal` that runs under the store's lock
  unfoldable pub delete_point : Bytes → GeoStore F → GeoStore F
  delete_point user s = elim (lookup user s.points) [
    | none ↦ s
    | some entry ↦ record s {
      index = leave_cells (cell_of entry) user s.precisions s.index;
      points = del user s.points;
    }
  ]

-- the bucket's default for a duration of 0
unfoldable pub effective_ttl : {F A : Type 0} → Bytes → Duration → GeoCache F A → Duration
effective_ttl bucket ttl g =
    if is_zero ttl
    then elim (get_bucket bucket g.cache) [ ok b ↦ b.default_ttl | err e ↦ ttl ]
    else ttl

-- the expiry of the entry: none unless the duration is positive
unfoldable pub expires : ℕ → Duration → Instant
expires now ttl = if is_positive ttl then some (add_duration now ttl) else none

module _ {F A : Type 0} (geo : Geohash F) (wrap : GeoEntry F → A) where
  unfoldable pub delete_location_local :
      Bytes → Bytes → GeoCache F A → Outcome (Answer × GeoCache F A)
  delete_location_local bucket user g = elim (get_store bucket g) [
    | err e ↦ (do
      (_, c) ← delete_local bucket user g.cache
      returns (err e, record g { cache = c }))
    | ok s ↦ (do
      (a, c) ← delete_local bucket user g.cache
      returns (a, record { cache = c; stores = put bucket (delete_point geo user s) g.stores }))
  ]

  unfoldable pub new_entry : ℕ → Bytes → F → F → Duration → GeoStore F → GeoEntry F
  new_entry now user lat lng effective s = record {
    user_id = user;
    lat = lat;
    lng = lng;
    geohash = geo.encode lat lng (max_precision s);
    expires_at = expires now effective;
  }

  -- the end of `setLocationLocal`: when the regular cache refuses the entry, the index drops it
  unfoldable pub roll_back : Bytes → Bytes → Answer → GeoCache F A → Outcome (Answer × GeoCache F A)
  roll_back bucket user (ok _) g = returns (ok tt, g)
  roll_back bucket user (err e) g = do
    (_, g') ← delete_location_local bucket user g
    returns (err e, g')

  unfoldable pub set_location_local :
      ℕ → Bytes → Bytes → F → F → Duration → GeoCache F A → Outcome (Answer × GeoCache F A)
  set_location_local now bucket user lat lng ttl g = elim (get_store bucket g) [
    | err e ↦ returns (err e, g)
    | ok s ↦
        let effective = effective_ttl bucket ttl g in
        let entry = new_entry now user lat lng effective s in
        let stores = put bucket (set_point geo user entry s) g.stores in
        (do
          (a, c) ← set_local now bucket user (some (wrap entry)) effective g.cache
          roll_back bucket user a (record { cache = c; stores = stores }))
  ]
