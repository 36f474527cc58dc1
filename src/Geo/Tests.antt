-- ===== src/Geo/Tests.antt =====
-- A toy geometry: coordinates are numbers, a cell is the pair of coordinates, and every cell has the
-- cells of a square of four as neighbours.
use mathlib.Core.Path.{subst}
use mycorrhizal.Base.{
  Listed, ℕ, ◌+◌, ◌-◌, ◌*◌, ◌/◌, ◌≡◌, refl, true, none, some, List, [], ◌∷◌, ok, arith, ltb, leb,
}
use mycorrhizal.Base.Bytes.{Bytes, Bytes-discrete, codes}
use mycorrhizal.Base.Maps.{empty, put}
use mycorrhizal.Base.Time.{zero_duration}
use mycorrhizal.Lru.Order.{nil}
use mycorrhizal.Cache.{Cache, returns, get_bucket}
use mycorrhizal.Geo.{
  Floats, Box, Geohash, GeoEntry, GeoStore, GeoCache, new_store, get_store, sort_asc, insert_asc,
  has,
}
use mycorrhizal.Geo.Local.{
  expires, effective_ttl, set_point, set_location_local, is_user, leave_old, enter_cells, at_cell,
  add_user,
}
use mycorrhizal.Geo.Index.{IsStore, Nested, new_store-IsStore, set_point-IsStore}
use mycorrhizal.Geo.Query.{
  covering_cells, flood, enqueue, is_apart, bounding_box, entries_in, is_stale, is_inside,
  collect_cells, collect_users,
}
use mycorrhizal.Geo.Found.{Hit, bounding_box-Hit, bounding_box-Listed}
use mycorrhizal.Geo.Converge.{Takes, located, handle_geo_receive-set_location}
use mycorrhizal.Geo.Remote.{GeoCodec, location_message, set_location, handle_geo_receive}
use mycorrhizal.Cache.Local.{set_local, new_node, evict}
use mycorrhizal.Lru.{bucket_type_geo, push, detach, attach}
use mycorrhizal.Base.Int.{pos}
use mycorrhizal.Geo.Fill.{covering_cells-some}
use mycorrhizal.Geo.Stores.{AllStores, Always, set_location_local-AllStores}

abbrev toy : Floats
toy = record {
  F = ℕ;
  leq = leb;
  lt = ltb;
  add = λ a b. a + b;
  sub = λ a b. a - b;
  mul = λ a b. a * b;
  div = λ a b. a / b;
  cos = λ a. 1;
  sin = λ a. a;
  sqrt = λ a. a;
  atan2 = λ a b. a;
  one = 1;
  two = 2;
  pi = 3;
  degrees_180 = 180;
  earth_radius_km = 6371;
  tiny = 0;
}

abbrev square : List Bytes
square = (0 ∷ 0 ∷ []) ∷ (0 ∷ 1 ∷ []) ∷ (1 ∷ 0 ∷ []) ∷ (1 ∷ 1 ∷ []) ∷ []

abbrev cells : Geohash ℕ
cells = record {
  encode = λ lat lng p. lat ∷ lng ∷ [];
  box = λ c. record { min_lat = 0; min_lng = 0; max_lat = 1; max_lng = 1 };
  neighbors = λ c. square;
}

abbrev whole : Box ℕ
whole = record { min_lat = 0; min_lng = 0; max_lat = 1; max_lng = 1 }

cells-Nested : Nested cells
cells-Nested d e p m h k = k

abbrev ann : Bytes
ann = codes "ann"

abbrev town : Bytes
town = codes "town"

abbrev entry : ℕ → ℕ → GeoEntry ℕ
entry a b = record { user_id = ann; lat = a; lng = b; geohash = a ∷ b ∷ []; expires_at = none }

abbrev here : GeoStore ℕ
here = set_point cells ann (entry 0 1) (new_store (5 ∷ 3 ∷ []))

here-IsStore : IsStore cells here
here-IsStore =
    set_point-IsStore cells cells-Nested ann (entry 0 1) (new_store (5 ∷ 3 ∷ []))
      (new_store-IsStore cells (5 ∷ 3 ∷ [])) refl

set_point-IsStore_example : IsStore cells (set_point cells ann (entry 1 1) here)
set_point-IsStore_example =
    set_point-IsStore cells cells-Nested ann (entry 1 1) here here-IsStore refl

abbrev regular : Cache ℕ
regular = record {
  node_id = codes "n";
  key_val = empty;
  lru_buckets = [];
  heap = record {
    fresh = 1;
    next = λ p. nil;
    prev = λ p. nil;
    key = λ p. [];
    contents = λ p. none;
    expires_at = λ p. none;
  };
  node_score_hash_map = empty;
  replica_locality_cache = empty;
  replicas = 3;
}

abbrev world : GeoCache ℕ ℕ
world = record { cache = regular; stores = (town, here) ∷ [] }

world-AllStores : AllStores cells world.stores
world-AllStores name s h = elim (Bytes-discrete town name) [
  | yes e ↦ let k : here ≡ s = ground arith in subst (IsStore cells) k here-IsStore
  | no e ↦ ground arith
]

set_location_local-AllStores_example :
    Always
      (λ r. AllStores cells r.1.stores)
      (set_location_local cells (λ e. e.lat) 5 town ann 1 0 zero_duration world)
set_location_local-AllStores_example =
    set_location_local-AllStores cells (λ e. e.lat) cells-Nested 5 town ann 1 0 zero_duration world
      world-AllStores

covering_cells-some_example : (r : List Bytes) × (covering_cells toy cells 4 whole 3 ≡ some r)
unfolding is_user Bytes-discrete
covering_cells-some_example =
    covering_cells-some toy cells square 4 whole 3 (λ c m. (refl, (refl, (refl, (refl, tt))))) refl
      (omega arith)

town-found : get_store town world ≡ ok here
unfolding get_store Bytes-discrete
town-found = refl

has-3 : has 3 here.precisions ≡ true
unfolding set_point new_store sort_asc insert_asc has
has-3 = refl

fill :
    covering_cells toy cells 4 whole 3
    ≡ some ((1 ∷ 1 ∷ []) ∷ (1 ∷ 0 ∷ []) ∷ (0 ∷ 1 ∷ []) ∷ (0 ∷ 0 ∷ []) ∷ [])
unfolding covering_cells flood enqueue is_apart is_user Bytes-discrete
fill = refl

ann-Hit : Hit toy cells 9 whole here (entry 0 1)
unfolding set_point new_store put is_stale is_inside Bytes-discrete
ann-Hit = ((ann, refl), refl, refl)

bounding_box-Listed_example :
    (es : List (GeoEntry ℕ)) × (bounding_box toy cells 4 9 town whole 3 world ≡ some (ok es))
    × Listed (entry 0 1) es
unfolding is_user Bytes-discrete
bounding_box-Listed_example =
    bounding_box-Listed toy cells 4 9 town whole 3 world here _ (entry 0 1) here-IsStore town-found
      has-3 fill ann-Hit refl

found : bounding_box toy cells 4 9 town whole 3 world ≡ some (ok (entry 0 1 ∷ []))
unfolding bounding_box entries_in get_store covering_cells flood enqueue is_apart is_user
    collect_cells collect_users is_stale is_inside set_point new_store sort_asc insert_asc has put
    leave_old enter_cells at_cell add_user Bytes-discrete
found = refl

bounding_box-Hit_example :
    (s : GeoStore ℕ) × (get_store town world ≡ ok s)
    × (Hit toy cells 9 whole s (entry 0 1) × Unit {0})
bounding_box-Hit_example = bounding_box-Hit toy cells 4 9 town whole 3 world found

-- one regular bucket, without a default duration, and two nodes of which one has no store yet
abbrev with_bucket : Cache ℕ
with_bucket = record regular {
  lru_buckets =
      (
        town,
        record {
          b_type = bucket_type_geo;
          precisions = [];
          head = nil;
          tail = nil;
          len = pos 0;
          max_len = pos 10;
          default_ttl = pos 0;
        },
      )
      ∷ [];
}

abbrev sender : GeoCache ℕ ℕ
sender = record { cache = with_bucket; stores = (town, new_store (5 ∷ [])) ∷ [] }

abbrev receiver : GeoCache ℕ ℕ
receiver = record { cache = with_bucket; stores = [] }

-- a codec for the messages of this test
abbrev codec : GeoCodec ℕ
codec = record {
  encode_payload = λ p. ok (codes "m");
  decode_payload = λ m. ok (location_message town ann 1 0 (some 15) (5 ∷ []));
  zero_coordinate = 0;
}

sender-Takes : Takes cells (λ e. e.lat) codec town ann 1 0 5 sender
unfolding set_local get_bucket put push detach attach new_node evict Bytes-discrete
sender-Takes v ttl = (_, refl)

receiver-Takes : Takes cells (λ e. e.lat) codec town ann 1 0 11 receiver
unfolding set_local get_bucket put push detach attach new_node evict Bytes-discrete
receiver-Takes v ttl = (_, refl)

sender_store : get_store town sender ≡ ok (new_store (5 ∷ []))
unfolding get_store Bytes-discrete
sender_store = refl

sender_precisions : (new_store {F = ℕ} (5 ∷ [])).precisions ≡ 5 ∷ []
unfolding new_store sort_asc insert_asc
sender_precisions = refl

expiry_15 : expires 5 (effective_ttl town (pos 10) sender) ≡ some 15
unfolding expires effective_ttl get_bucket Bytes-discrete
expiry_15 = refl

handle_geo_receive-set_location_example :
    (g h : GeoCache ℕ ℕ) × (set_location cells (λ e. e.lat) codec 5 town ann 1 0 (pos 10) sender
      ≡ returns (ok tt, some (codes "m"), g))
    × (handle_geo_receive cells (λ e. e.lat) codec 9 11 (codes "m") receiver ≡ returns (ok tt, h))
    × (located town ann g ≡ some (1, 0, some 15))
    × (located town ann h ≡ some (1, 0, some 17))
handle_geo_receive-set_location_example =
    handle_geo_receive-set_location cells (λ e. e.lat) codec town ann 1 0 5 9 11 15 (pos 10) sender
      receiver (new_store (5 ∷ [])) 5 [] (codes "m") sender_store sender_precisions expiry_15
      (omega arith) (omega arith) refl refl sender-Takes receiver-Takes
