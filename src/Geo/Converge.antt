-- ===== src/Geo/Converge.antt =====
-- internal/mycel/geo_remote.go: a location at the node that sets it and at one that receives it.
use mycorrhizal.Base.{
  ℕ, ◌<◌, ◌≤◌, ◌+◌, ◌-◌, ◌≡◌, refl, ◌∙◌, ap, inl, inr, Option-cases, true, false, Option, none,
  some, List, [], ◌∷◌, ok, arith,
}
use mycorrhizal.Base.Bytes.{Bytes}
use mycorrhizal.Base.Maps.{lookup, put, lookup-put_self}
use mycorrhizal.Base.Time.{Duration, Instant, is_zero, is_positive, until}
use mycorrhizal.Cache.{Cache, returns}
use mycorrhizal.Cache.Local.{set_local}
use mycorrhizal.Geo.{Geohash, GeoEntry, GeoStore, GeoCache, create_store, get_store, new_store}
use mycorrhizal.Geo.Local.{
  set_location_local, effective_ttl, expires, new_entry, roll_back, set_point,
}
use mycorrhizal.Geo.Remote.{
  GeoCodec, stored_expiry, broadcast, location_message, set_location, announce, ensure_store,
  receive_set, handle_geo_receive,
}

-- the time that is left until a later instant, and the expiry that it leads to from another reading
module _ (now t : ℕ) (later : now < t) where
  is_positive-until : is_positive (until now t) ≡ true
  is_positive-until = ground arith

  is_zero-until : is_zero (until now t) ≡ false
  is_zero-until = ground arith

expires-until :
    (now again t : ℕ)
    → now < t
    → now ≤ again
    → expires again (until now t) ≡ some (t + (again - now))
unfolding expires
expires-until now again t later order = ground arith

create_store-cache :
    {F A : Type 0} (bucket : Bytes) (ps : List ℕ) (g : GeoCache F A)
    → (create_store bucket ps g).1.cache ≡ g.cache
unfolding create_store
create_store-cache bucket [] g = refl
create_store-cache bucket (p ∷ ps) g = elim (Option-cases (lookup bucket g.stores)) [
  | inl o ↦ rw (o, create_store) refl
  | inr (s, o) ↦ rw (o, create_store) refl
]

get_store-put :
    {F A : Type 0} (bucket : Bytes) (s : GeoStore F) (c : Cache A)
    (stores : List (Bytes × GeoStore F))
    → get_store bucket (record { cache = c; stores = put bucket s stores }) ≡ ok s
unfolding get_store
get_store-put bucket s c stores = let e = lookup-put_self bucket s stores in rw (e, get_store) refl

-- the location of a user and its expiry, as the store of a bucket has them
abbrev pub located : {F A : Type 0} → Bytes → Bytes → GeoCache F A → Option (F × F × Instant)
located bucket user g = elim (lookup bucket g.stores) [
  | none ↦ none
  | some s ↦ elim (lookup user s.points) [
    | none ↦ none
    | some e ↦ some (e.lat, e.lng, e.expires_at)
  ]
]

located-set_point :
    {F A : Type 0} (geo : Geohash F) (bucket user : Bytes) (e : GeoEntry F) (s : GeoStore F)
    (g : GeoCache F A)
    → lookup bucket g.stores ≡ some (set_point geo user e s)
    → located bucket user g ≡ some (e.lat, e.lng, e.expires_at)
unfolding set_point
located-set_point geo bucket user e s g h =
    let p = lookup-put_self user e s.points in rw (h, located, p) refl

get_store-create_store :
    {F A : Type 0} (bucket : Bytes) (p : ℕ) (ps : List ℕ) (g : GeoCache F A)
    → (s : GeoStore F) × (get_store bucket (create_store bucket (p ∷ ps) g).1 ≡ ok s)
unfolding create_store
get_store-create_store bucket p ps g = elim (Option-cases (lookup bucket g.stores)) [
  | inl o ↦ (
    new_store (p ∷ ps),
    rw (o, create_store) (get_store-put bucket (new_store (p ∷ ps)) g.cache g.stores),
  )
  | inr (s, o) ↦ (s, rw (o, create_store) (unfold get_store in rw (o, get_store) refl))
]

module _ {F : Type 0} (geo : Geohash F) (user : Bytes) (e : GeoEntry F) (s : GeoStore F) where
  stored_expiry-set_point : stored_expiry user (set_point geo user e s) ≡ e.expires_at
  unfolding stored_expiry set_point
  stored_expiry-set_point = let p = lookup-put_self user e s.points in rw (p, stored_expiry) refl

module _ {F A : Type 0} (geo : Geohash F) (wrap : GeoEntry F → A) where
  set_location_local-stores :
      (now : ℕ) (bucket user : Bytes) (lat lng : F) (ttl : Duration) (g : GeoCache F A)
      (s : GeoStore F) (c : Cache A)
      → get_store bucket g ≡ ok s
      → set_local now bucket user
          (some (wrap (new_entry geo wrap now user lat lng (effective_ttl bucket ttl g) s)))
          (effective_ttl bucket ttl g)
          g.cache
        ≡ returns (ok tt, c)
      → set_location_local geo wrap now bucket user lat lng ttl g
        ≡ returns (
          ok tt,
          record {
            cache = c;
            stores =
                put bucket
                  (set_point geo user
                    (new_entry geo wrap now user lat lng (effective_ttl bucket ttl g) s)
                    s)
                  g.stores;
          },
        )
  unfolding set_location_local roll_back
  set_location_local-stores now bucket user lat lng ttl g s c h k =
      rw (h, set_location_local, k) refl

module _ {F A : Type 0} (geo : Geohash F) (wrap : GeoEntry F → A) (codec : GeoCodec F)
    (bucket user : Bytes) (lat lng : F) where
  -- the entry that a node makes of the location
  abbrev pub entry_at : ℕ → Duration → GeoStore F → GeoEntry F
  entry_at now ttl s = new_entry geo wrap now user lat lng ttl s

  -- The regular cache of a node takes every entry.
  abbrev pub Takes : ℕ → GeoCache F A → Type 0
  Takes now g =
      (v : Option A) (ttl : Duration)
      → (c : Cache A) × (set_local now bucket user v ttl g.cache ≡ returns (ok tt, c))

  set_location-message :
      (now : ℕ) (ttl : Duration) (g : GeoCache F A) (s : GeoStore F) (c : Cache A) (message : Bytes)
      → get_store bucket g ≡ ok s
      → set_local now bucket user
          (some (wrap (entry_at now (effective_ttl bucket ttl g) s)))
          (effective_ttl bucket ttl g)
          g.cache
        ≡ returns (ok tt, c)
      → codec.encode_payload (
          location_message bucket user lat lng
            (expires now (effective_ttl bucket ttl g))
            s.precisions)
        ≡ ok message
      → set_location geo wrap codec now bucket user lat lng ttl g
        ≡ returns (
          ok tt,
          some message,
          record {
            cache = c;
            stores =
                put bucket
                  (set_point geo user (entry_at now (effective_ttl bucket ttl g) s) s)
                  g.stores;
          },
        )
  unfolding set_location announce new_entry broadcast set_point
  set_location-message now ttl g s c message h k e =
      let stored = set_location_local-stores geo wrap now bucket user lat lng ttl g s c h k in
      let entry = entry_at now (effective_ttl bucket ttl g) s in
      let found = get_store-put bucket (set_point geo user entry s) c g.stores in
      let expiry = stored_expiry-set_point geo user entry s in
      rw (stored, set_location) (rw (found, announce, expiry, e, broadcast) refl)

  ensure_store-cache :
      (expiry : Instant) (precisions : List ℕ) (g : GeoCache F A)
      → (ensure_store geo wrap codec
          (location_message bucket user lat lng expiry precisions)
          g).cache
        ≡ g.cache
  unfolding ensure_store
  ensure_store-cache expiry [] g = refl
  ensure_store-cache expiry (p ∷ ps) g = create_store-cache bucket (p ∷ ps) g

  handle_geo_receive-stores :
      (now again t : ℕ) (precisions : List ℕ) (message : Bytes) (g : GeoCache F A) (s : GeoStore F)
      (c : Cache A)
      → now < t
      → codec.decode_payload message ≡ ok (location_message bucket user lat lng (some t) precisions)
      → get_store bucket
          (ensure_store geo wrap codec (location_message bucket user lat lng (some t) precisions) g)
        ≡ ok s
      → set_local again bucket user
          (some (wrap (entry_at again (until now t) s)))
          (until now t)
          g.cache
        ≡ returns (ok tt, c)
      → (g' : GeoCache F A) × (handle_geo_receive geo wrap codec now again message g
          ≡ returns (ok tt, g'))
        × (lookup bucket g'.stores ≡ some (set_point geo user (entry_at again (until now t) s) s))
  unfolding handle_geo_receive receive_set effective_ttl
  handle_geo_receive-stores now again t precisions message g s c later d h k =
      let p = location_message bucket user lat lng (some t) precisions in
      let g' = ensure_store geo wrap codec p g in
      let same : effective_ttl bucket (until now t) g' ≡ until now t =
        rw (is_zero-until now t later) refl in
      let kept : g'.cache ≡ g.cache = ensure_store-cache (some t) precisions g in
      let stored =
        set_location_local-stores geo wrap again bucket user lat lng (until now t) g' s c h
          (rw (same, kept) k) in
      (
        record {
          cache = c;
          stores = put bucket (set_point geo user (entry_at again (until now t) s) s) g'.stores;
        },
        rw (d, handle_geo_receive, is_positive-until now t later) (rw same at stored),
        lookup-put_self bucket _ g'.stores,
      )

  -- A location with an expiry that one node stores and broadcasts, and that another node receives before
  -- the expiry, stands in the stores of both with the same coordinates. The receiver's expiry is later
  -- than the sender's by exactly the time between the receiver's two readings of the clock. The stores
  -- have a precision, gob decodes what it encodes, the clocks agree, and the regular caches of both
  -- nodes take the entry. The receiver's store may exist before or not.
  pub handle_geo_receive-set_location :
      (now received stored t : ℕ) (ttl : Duration) (g h : GeoCache F A) (s : GeoStore F) (p : ℕ)
      (ps : List ℕ) (message : Bytes)
      → get_store bucket g ≡ ok s
      → s.precisions ≡ p ∷ ps
      → expires now (effective_ttl bucket ttl g) ≡ some t
      → received < t
      → received ≤ stored
      → codec.encode_payload (location_message bucket user lat lng (some t) (p ∷ ps)) ≡ ok message
      → codec.decode_payload message ≡ ok (location_message bucket user lat lng (some t) (p ∷ ps))
      → Takes now g
      → Takes stored h
      → (g' h' : GeoCache F A) × (set_location geo wrap codec now bucket user lat lng ttl g
          ≡ returns (ok tt, some message, g'))
        × (handle_geo_receive geo wrap codec received stored message h ≡ returns (ok tt, h'))
        × (located bucket user g' ≡ some (lat, lng, some t))
        × (located bucket user h' ≡ some (lat, lng, some (t + (stored - received))))
  unfolding new_entry
  handle_geo_receive-set_location now received stored t ttl g h s p ps message k ks x later order e
        d takes takes' =
      let (c, w) =
        takes (some (wrap (entry_at now (effective_ttl bucket ttl g) s)))
          (effective_ttl bucket ttl g) in
      let (s', k') : (s' : GeoStore F) × (get_store bucket (
              ensure_store geo wrap codec (location_message bucket user lat lng (some t) (p ∷ ps))
                h)
            ≡ ok s') =
        unfold ensure_store in get_store-create_store bucket p ps h in
      let (c', w') =
        takes' (some (wrap (entry_at stored (until received t) s'))) (until received t) in
      let (h', r, l) =
        handle_geo_receive-stores received stored t (p ∷ ps) message h s' c' later d k' w' in
      let g' : GeoCache F A = record {
        cache = c;
        stores =
            put bucket (set_point geo user (entry_at now (effective_ttl bucket ttl g) s) s)
              g.stores;
      } in
      (
        g',
        h',
        set_location-message now ttl g s c message k w (rw (x, ks) e),
        r,
        located-set_point geo bucket user _ s g' (lookup-put_self bucket _ g.stores)
            ∙ ap (λ i. some (lat, lng, i)) x,
        located-set_point geo bucket user _ s' h' l
            ∙ ap (λ i. some (lat, lng, i)) (expires-until received stored t later order),
      )
