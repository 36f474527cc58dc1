-- ===== src/Geo/Query.antt =====
-- internal/mycel/geo_local.go: the spatial queries. The flood fill runs on fuel, one for each cell
-- that it takes off the queue. Go ranges over its maps in any order; here a set of cells is the list
-- of its elements.
use mycorrhizal.Base.{
  ℕ, zero, suc, Bool, true, false, not, ◌&&◌, ◌||◌, Option, none, some, List, [], ◌∷◌, ◌++◌, Result,
  ok, err, if◌then◌else◌,
}
use mycorrhizal.Base.Bytes.{Bytes}
use mycorrhizal.Base.Maps.{lookup}
use mycorrhizal.Base.Time.{is_after}
use mycorrhizal.Cache.{Error, bad_precision}
use mycorrhizal.Geo.{Floats, Box, Geohash, GeoEntry, GeoStore, GeoCache, has_precision, get_store}
use mycorrhizal.Geo.Local.{is_user}

module _ (num : Floats) (geo : Geohash num.F) where
  -- the neighbours that were never in the queue join it, and the set of those that were
  unfoldable pub enqueue : List Bytes → List Bytes → List Bytes → List Bytes × List Bytes
  enqueue [] queue enqueued = (queue, enqueued)
  enqueue (n ∷ ns) queue enqueued =
      if is_user n enqueued
      then enqueue ns queue enqueued
      else enqueue ns (queue ++ (n ∷ [])) (n ∷ enqueued)

  -- the cell does not intersect the box
  unfoldable pub is_apart : Box num.F → Box num.F → Bool
  is_apart cb q =
      num.lt cb.max_lat q.min_lat
      || num.lt q.max_lat cb.min_lat
      || num.lt cb.max_lng q.min_lng
      || num.lt q.max_lng cb.min_lng

  unfoldable pub flood : ℕ → Box num.F → List Bytes → List Bytes → List Bytes → Option (List Bytes)
  flood fuel q [] enqueued result = some result
  flood zero q (cell ∷ queue) enqueued result = none
  flood (suc fuel) q (cell ∷ queue) enqueued result = elim (is_apart (geo.box cell) q) [
    | true ↦ flood fuel q queue enqueued result
    | false ↦
        let (queue', enqueued') = enqueue (geo.neighbors cell) queue enqueued in
        flood fuel q queue' enqueued' (cell ∷ result)
  ]

  unfoldable pub covering_cells : ℕ → Box num.F → ℕ → Option (List Bytes)
  covering_cells fuel q precision =
      let seed =
        geo.encode (num.div (num.add q.min_lat q.max_lat) num.two)
          (num.div (num.add q.min_lng q.max_lng) num.two) precision in
      flood fuel q (seed ∷ []) (seed ∷ []) []

  -- expired but not evicted yet
  unfoldable pub is_stale : ℕ → GeoEntry num.F → Bool
  is_stale now e = elim e.expires_at [ none ↦ false | some t ↦ is_after now t ]

  unfoldable pub is_inside : Box num.F → GeoEntry num.F → Bool
  is_inside q e =
      num.leq q.min_lat e.lat
      && num.leq e.lat q.max_lat
      && num.leq q.min_lng e.lng
      && num.leq e.lng q.max_lng

  -- the inner loop, over the users of a cell: the results and the users seen
  unfoldable pub collect_users :
      ℕ
      → Box num.F
      → GeoStore num.F
      → List Bytes
      → List (GeoEntry num.F)
      → List Bytes
      → List (GeoEntry num.F) × List Bytes
  collect_users now q s [] results seen = (results, seen)
  collect_users now q s (user ∷ users) results seen =
      if is_user user seen
      then collect_users now q s users results seen
      else elim (lookup user s.points) [
        | none ↦ collect_users now q s users results seen
        | some e ↦
            if is_stale now e
            then collect_users now q s users results seen
            else if is_inside q e
            then collect_users now q s users (e ∷ results) (user ∷ seen)
            else collect_users now q s users results seen
      ]

  -- the outer loop, over the cells
  unfoldable pub collect_cells :
      ℕ
      → Box num.F
      → GeoStore num.F
      → ℕ
      → List Bytes
      → List (GeoEntry num.F)
      → List Bytes
      → List (GeoEntry num.F)
  collect_cells now q s precision [] results seen = results
  collect_cells now q s precision (cell ∷ cells) results seen =
      let (results', seen') = collect_users now q s (s.index precision cell) results seen in
      collect_cells now q s precision cells results' seen'

  -- what both queries share: the checks, and the entries of the box; `none` is out of fuel
  unfoldable pub entries_in :
      {A : Type 0}
      → ℕ
      → ℕ
      → Bytes
      → Box num.F
      → ℕ
      → GeoCache num.F A
      → Option (Result Error (List (GeoEntry num.F)))
  entries_in fuel now bucket q precision g = elim (get_store bucket g) [
    | err e ↦ some (err e)
    | ok s ↦
        if not (has_precision s precision)
        then some (err bad_precision)
        else elim (covering_cells fuel q precision) [
          | none ↦ none
          | some cells ↦ some (ok (collect_cells now q s precision cells [] []))
        ]
  ]

  unfoldable pub bounding_box :
      {A : Type 0}
      → ℕ
      → ℕ
      → Bytes
      → Box num.F
      → ℕ
      → GeoCache num.F A
      → Option (Result Error (List (GeoEntry num.F)))
  bounding_box fuel now bucket q precision g = entries_in fuel now bucket q precision g

  unfoldable pub bounding_box_from_radius : num.F → num.F → num.F → Box num.F
  bounding_box_from_radius lat lng radius_km =
      let degree = num.div num.degrees_180 num.pi in
      let delta_lat = num.mul (num.div radius_km num.earth_radius_km) degree in
      let cos = num.cos (num.div (num.mul lat num.pi) num.degrees_180) in
      let cos_lat = if num.lt cos num.tiny then num.tiny else cos in
      let wide = num.mul (num.div radius_km (num.mul num.earth_radius_km cos_lat)) degree in
      let delta_lng = if num.lt num.degrees_180 wide then num.degrees_180 else wide in
      record {
        min_lat = num.sub lat delta_lat;
        min_lng = num.sub lng delta_lng;
        max_lat = num.add lat delta_lat;
        max_lng = num.add lng delta_lng;
      }

  unfoldable pub haversine_km : num.F → num.F → num.F → num.F → num.F
  haversine_km lat1 lng1 lat2 lng2 =
      let radians : num.F → num.F = λ d. num.div (num.mul d num.pi) num.degrees_180 in
      let half_lat = num.sin (num.div (radians (num.sub lat2 lat1)) num.two) in
      let half_lng = num.sin (num.div (radians (num.sub lng2 lng1)) num.two) in
      let a = num.add (num.mul half_lat half_lat) (
        num.mul (num.mul (num.mul (num.cos (radians lat1)) (num.cos (radians lat2))) half_lng)
          half_lng) in
      num.mul num.earth_radius_km
        (num.mul num.two (num.atan2 (num.sqrt a) (num.sqrt (num.sub num.one a))))

  -- the last loop of `RadiusQuery`
  unfoldable pub within : num.F → num.F → num.F → List (GeoEntry num.F) → List (GeoEntry num.F)
  within lat lng radius_km [] = []
  within lat lng radius_km (e ∷ es) =
      let rest = within lat lng radius_km es in
      if num.leq (haversine_km lat lng e.lat e.lng) radius_km then e ∷ rest else rest

  unfoldable pub radius_query :
      {A : Type 0}
      → ℕ
      → ℕ
      → Bytes
      → num.F
      → num.F
      → num.F
      → ℕ
      → GeoCache num.F A
      → Option (Result Error (List (GeoEntry num.F)))
  radius_query fuel now bucket lat lng radius_km precision g =
      elim (entries_in fuel now bucket (bounding_box_from_radius lat lng radius_km) precision g) [
        | none ↦ none
        | some (err e) ↦ some (err e)
        | some (ok es) ↦ some (ok (within lat lng radius_km es))
      ]
