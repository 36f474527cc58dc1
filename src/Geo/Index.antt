-- ===== src/Geo/Index.antt =====
-- internal/mycel/geo_local.go: the invariant `IsStore` of a store's index, and the writes to it.
use mycorrhizal.Base.{
  ℕ, ◌≤◌, ◌≡◌, refl, inl, inr, Option-cases, Bool, true, false, ◌&&◌, Option, none, some, List, [],
  ◌∷◌, arith, ite, if◌then◌else◌,
}
use mycorrhizal.Base.Bytes.{Bytes, Bytes-discrete}
use mycorrhizal.Base.Maps.{lookup, put, lookup-put, lookup-del}
use mycorrhizal.Geo.{
  Geohash, GeoEntry, Index, GeoStore, has, max_precision, has_precision, new_store,
}
use mycorrhizal.Geo.Local.{
  drop_user, is_user, add_user, at_cell, leave_cells, enter_cells, cell_of, leave_old, set_point,
  delete_point,
}
use mycorrhizal.Geo.Sorted.{IsAscending, sort_asc-IsAscending, has-le-last_or}

abbrev pub same : Bytes → Bytes → Bool
same a b = ite (Bytes-discrete a b) true false

is_user-drop_user :
    (u v : Bytes) (us : List Bytes)
    → is_user u (drop_user v us) ≡ (if same v u then false else is_user u us)
unfolding is_user drop_user
is_user-drop_user u v [] = ground arith
is_user-drop_user u v (w ∷ us) = ground (arith, is_user-drop_user u v us)

is_user-add_user :
    (u v : Bytes) (us : List Bytes)
    → is_user u (add_user v us) ≡ (if same v u then true else is_user u us)
unfolding is_user add_user
is_user-add_user u v us = ground arith

is_user-leave_cells :
    (cell : ℕ → Bytes) (v : Bytes) (ps : List ℕ) (ix : Index) (u : Bytes) (p : ℕ) (c : Bytes)
    → is_user u (leave_cells cell v ps ix p c)
      ≡ (if has p ps && same (cell p) c && same v u then false else is_user u (ix p c))
unfolding leave_cells at_cell has
is_user-leave_cells cell v [] ix u p c = ground arith
is_user-leave_cells cell v (q ∷ ps) ix u p c = ground (
  arith,
  is_user-leave_cells cell v ps (at_cell q (cell q) (drop_user v) ix) u p c,
  is_user-drop_user u v (ix p c),
)

is_user-enter_cells :
    (cell : ℕ → Bytes) (v : Bytes) (ps : List ℕ) (ix : Index) (u : Bytes) (p : ℕ) (c : Bytes)
    → is_user u (enter_cells cell v ps ix p c)
      ≡ (if has p ps && same (cell p) c && same v u then true else is_user u (ix p c))
unfolding enter_cells at_cell has
is_user-enter_cells cell v [] ix u p c = ground arith
is_user-enter_cells cell v (q ∷ ps) ix u p c = ground (
  arith,
  is_user-enter_cells cell v ps (at_cell q (cell q) (add_user v) ix) u p c,
  is_user-add_user u v (ix p c),
)

module _ {F : Type 0} (geo : Geohash F) where
  -- the entry lies in the cell
  abbrev pub is_in : Option (GeoEntry F) → ℕ → Bytes → Bool
  is_in none p c = false
  is_in (some e) p c = same (cell_of geo e p) c

  -- Precisions ascend, an entry's geohash is its cell at the highest one, and a tier lists a user in
  -- a cell exactly when the user's entry lies there.
  pub record IsStore (s : GeoStore F) : Type 0 where
    pub ascending : IsAscending s.precisions
    pub canonical :
        (u : Bytes) (e : GeoEntry F)
        → lookup u s.points ≡ some e
        → e.geohash ≡ cell_of geo e (max_precision s)
    pub indexed :
        (u : Bytes) (p : ℕ) (c : Bytes)
        → has_precision s p ≡ true
        → is_user u (s.index p c) ≡ is_in (lookup u s.points) p c

  -- two locations that share a cell share every larger cell
  abbrev pub Nested : Type 0
  Nested =
      (d e : GeoEntry F) (p m : ℕ)
      → p ≤ m
      → cell_of geo d m ≡ cell_of geo e m
      → cell_of geo d p ≡ cell_of geo e p

  -- A store with no points is well formed, whatever precisions it is made with.
  pub new_store-IsStore : (ps : List ℕ) → IsStore (new_store ps)
  unfolding new_store is_user
  new_store-IsStore ps = record {
    ascending = sort_asc-IsAscending ps;
    canonical = λ u e h. ground arith;
    indexed = λ u p c h. refl;
  }

  is_user-leave_old :
      (nested : Nested) (user : Bytes) (e : GeoEntry F) (s : GeoStore F)
      → IsStore s
      → e.geohash ≡ cell_of geo e (max_precision s)
      → (u : Bytes) (p : ℕ) (c : Bytes) → has_precision s p ≡ true
      → (if same (cell_of geo e p) c && same user u
          then true
          else is_user u (leave_old geo user e.geohash s p c))
        ≡ is_in (lookup u (put user e s.points)) p c
  unfolding leave_old
  is_user-leave_old nested user e s w k u p c h = elim (Option-cases (lookup user s.points)) [
    | inl o ↦ rw (o, leave_old) (ground (arith, lookup-put user u e s.points, w.indexed u p c h))
    | inr (old, o) ↦
        let n : cell_of geo old (max_precision s) ≡ cell_of geo e (max_precision s)
            → cell_of geo old p ≡ cell_of geo e p =
          nested old e p (max_precision s) (has-le-last_or p 0 s.precisions w.ascending h) in
        let k' : old.geohash ≡ cell_of geo old (max_precision s) = w.canonical user old o in
        rw (o, leave_old)
          (ground (
            arith,
            lookup-put user u e s.points,
            w.indexed u p c h,
            is_user-leave_cells (cell_of geo old) user s.precisions s.index u p c,
            n,
            k',
            k,
          ))
  ]

  -- Writing a location keeps the store well formed, when the entry carries the cell of its location.
  pub set_point-IsStore :
      (nested : Nested) (user : Bytes) (e : GeoEntry F) (s : GeoStore F)
      → IsStore s
      → e.geohash ≡ cell_of geo e (max_precision s)
      → IsStore (set_point geo user e s)
  unfolding set_point
  set_point-IsStore nested user e s w k = record {
    ascending = w.ascending;
    canonical = λ u d h. ground (arith, lookup-put user u e s.points, w.canonical u d);
    indexed = λ u p c h. ground (
      arith,
      is_user-enter_cells (cell_of geo e) user s.precisions (leave_old geo user e.geohash s) u p c,
      is_user-leave_old nested user e s w k u p c h,
    );
  }

  -- Deleting a location keeps the store well formed.
  pub delete_point-IsStore :
      (user : Bytes) (s : GeoStore F) → IsStore s → IsStore (delete_point geo user s)
  unfolding delete_point
  delete_point-IsStore user s w = elim (Option-cases (lookup user s.points)) [
    | inl o ↦ rw (o, delete_point) w
    | inr (old, o) ↦
        rw (o, delete_point)
          (record {
            ascending = w.ascending;
            canonical = λ u d h. ground (arith, lookup-del user u s.points, w.canonical u d);
            indexed = λ u p c h. ground (
              arith,
              lookup-del user u s.points,
              w.indexed u p c h,
              is_user-leave_cells (cell_of geo old) user s.precisions s.index u p c,
            );
          })
  ]
