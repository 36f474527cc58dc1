-- ===== src/Geo/Found.antt =====
-- internal/mycel/geo_local.go: what the queries return, against what a store holds.
use mycorrhizal.Base.{
  Listed, ℕ, ◌≡◌, refl, true, false, ◌||◌, inl, inr, Bool-cases, Option-cases, some, List, [], ◌∷◌,
  All, ok, Result-cases, arith,
}
use mathlib.Core.Path.{subst}
use mycorrhizal.Base.Bytes.{Bytes}
use mycorrhizal.Base.Maps.{lookup}
use mycorrhizal.Geo.{Floats, Box, Geohash, GeoEntry, GeoStore, GeoCache, has_precision, get_store}
use mycorrhizal.Geo.Local.{is_user, cell_of}
use mycorrhizal.Geo.Index.{IsStore}
use mycorrhizal.Geo.Query.{
  is_stale, is_inside, collect_users, collect_cells, covering_cells, entries_in, bounding_box,
}

module _ (num : Floats) (geo : Geohash num.F) (now : ℕ) (q : Box num.F) (s : GeoStore num.F) where
  -- a stored entry that lies in the box and is not stale
  abbrev pub Hit : GeoEntry num.F → Type 0
  Hit e =
      ((u : Bytes) × (lookup u s.points ≡ some e))
      × (is_stale num geo now e ≡ false)
      × (is_inside num geo q e ≡ true)

  collect_users-Hit :
      (users : List Bytes) (results : List (GeoEntry num.F)) (seen : List Bytes)
      → All Hit results
      → All Hit (collect_users num geo now q s users results seen).0
  unfolding collect_users
  collect_users-Hit [] results seen a = a
  collect_users-Hit (u ∷ users) results seen a = elim (Bool-cases (is_user u seen)) [
    | inl b ↦ rw (b, collect_users) (collect_users-Hit users results seen a)
    | inr b ↦ elim (Option-cases (lookup u s.points)) [
      | inl o ↦ rw (b, o, collect_users) (collect_users-Hit users results seen a)
      | inr (e, o) ↦ elim (Bool-cases (is_stale num geo now e)) [
        | inl t ↦ rw (b, o, t, collect_users) (collect_users-Hit users results seen a)
        | inr t ↦ elim (Bool-cases (is_inside num geo q e)) [
          | inl i ↦
              rw (b, o, t, i, collect_users)
                (collect_users-Hit users (e ∷ results) (u ∷ seen) (((u, o), t, i), a))
          | inr i ↦ rw (b, o, t, i, collect_users) (collect_users-Hit users results seen a)
        ]
      ]
    ]
  ]

  pub collect_cells-Hit :
      (p : ℕ) (cells : List Bytes) (results : List (GeoEntry num.F)) (seen : List Bytes)
      → All Hit results
      → All Hit (collect_cells num geo now q s p cells results seen)
  unfolding collect_cells
  collect_cells-Hit p [] results seen a = a
  collect_cells-Hit p (c ∷ cells) results seen a =
      collect_cells-Hit p cells _ _ (collect_users-Hit (s.index p c) results seen a)

  -- the entries of the users seen are among the results
  abbrev Covers : List (GeoEntry num.F) → List Bytes → Type 0
  Covers results seen =
      (u : Bytes) (e : GeoEntry num.F)
      → lookup u s.points ≡ some e
      → is_user u seen ≡ true
      → Listed e results

  collect_users-Covers :
      (users : List Bytes) (results : List (GeoEntry num.F)) (seen : List Bytes)
      → Covers results seen
      → Covers
          (collect_users num geo now q s users results seen).0
          (collect_users num geo now q s users results seen).1
  unfolding collect_users is_user
  collect_users-Covers [] results seen a = a
  collect_users-Covers (u ∷ users) results seen a = elim (Bool-cases (is_user u seen)) [
    | inl b ↦ rw (b, collect_users) (collect_users-Covers users results seen a)
    | inr b ↦ elim (Option-cases (lookup u s.points)) [
      | inl o ↦ rw (b, o, collect_users) (collect_users-Covers users results seen a)
      | inr (e, o) ↦ elim (Bool-cases (is_stale num geo now e)) [
        | inl t ↦ rw (b, o, t, collect_users) (collect_users-Covers users results seen a)
        | inr t ↦ elim (Bool-cases (is_inside num geo q e)) [
          | inl i ↦
              rw (b, o, t, i, collect_users)
                (collect_users-Covers users (e ∷ results) (u ∷ seen)
                  (λ v d k m. ground (arith, a v d k)))
          | inr i ↦ rw (b, o, t, i, collect_users) (collect_users-Covers users results seen a)
        ]
      ]
    ]
  ]

  collect_users-seen :
      (users : List Bytes) (results : List (GeoEntry num.F)) (seen : List Bytes) (u : Bytes)
      (e : GeoEntry num.F)
      → lookup u s.points ≡ some e
      → is_stale num geo now e ≡ false
      → is_inside num geo q e ≡ true
      → is_user u (collect_users num geo now q s users results seen).1
        ≡ (is_user u seen || is_user u users)
  unfolding collect_users is_user
  collect_users-seen [] results seen u e o t i = ground arith
  collect_users-seen (v ∷ users) results seen u e o t i = elim (Bool-cases (is_user v seen)) [
    | inl b ↦
        rw (b, collect_users) (ground (arith, collect_users-seen users results seen u e o t i))
    | inr b ↦ elim (Option-cases (lookup v s.points)) [
      | inl o' ↦
          rw (b, o', collect_users)
            (ground (arith, collect_users-seen users results seen u e o t i))
      | inr (d, o') ↦ elim (Bool-cases (is_stale num geo now d)) [
        | inl t' ↦
            rw (b, o', t', collect_users)
              (ground (arith, collect_users-seen users results seen u e o t i))
        | inr t' ↦ elim (Bool-cases (is_inside num geo q d)) [
          | inl i' ↦
              rw (b, o', t', i', collect_users)
                (ground (arith, collect_users-seen users (d ∷ results) (v ∷ seen) u e o t i))
          | inr i' ↦
              rw (b, o', t', i', collect_users)
                (ground (arith, collect_users-seen users results seen u e o t i))
        ]
      ]
    ]
  ]

  -- the user was seen, or some cell still to come lists it
  collect_cells-Listed :
      (p : ℕ) (c : Bytes) (cells : List Bytes) (results : List (GeoEntry num.F)) (seen : List Bytes)
      (u : Bytes) (e : GeoEntry num.F)
      → Covers results seen
      → lookup u s.points ≡ some e
      → is_stale num geo now e ≡ false
      → is_inside num geo q e ≡ true
      → is_user u (s.index p c) ≡ true
      → (is_user u seen || is_user c cells) ≡ true
      → Listed e (collect_cells num geo now q s p cells results seen)
  unfolding collect_cells is_user
  collect_cells-Listed p c [] results seen u e a o t i m h = a u e o (ground arith)
  collect_cells-Listed p c (d ∷ cells) results seen u e a o t i m h =
      collect_cells-Listed p c cells _ _ u e (collect_users-Covers (s.index p d) results seen a) o t
        i m (ground (arith, collect_users-seen (s.index p d) results seen u e o t i))

module _ (num : Floats) (geo : Geohash num.F) {A : Type 0} where
  -- The entries that a bounding box query returns are stored ones of the bucket that lie in the box
  -- and are not stale.
  pub bounding_box-Hit :
      (fuel now : ℕ) (bucket : Bytes) (q : Box num.F) (p : ℕ) (g : GeoCache num.F A)
      {es : List (GeoEntry num.F)}
      → bounding_box num geo fuel now bucket q p g ≡ some (ok es)
      → (s : GeoStore num.F) × (get_store bucket g ≡ ok s) × All (Hit num geo now q s) es
  unfolding bounding_box entries_in
  bounding_box-Hit fuel now bucket q p g {es} h = elim (Result-cases (get_store bucket g)) [
    | inl (s, k) ↦ elim (Bool-cases (has_precision s p)) [
      | inl b ↦ elim (Option-cases (covering_cells num geo fuel q p)) [
        | inl f ↦ ground arith
        | inr (cells, f) ↦
            let e : collect_cells num geo now q s p cells [] [] ≡ es = ground arith in
            (
              s,
              k,
              subst (All (Hit num geo now q s)) e
                  (collect_cells-Hit num geo now q s p cells [] [] tt),
            )
      ]
      | inr b ↦ ground arith
    ]
    | inr (d, k) ↦ ground arith
  ]

  -- When the flood fill ends, a bounding box query on a well-formed store returns every stored entry
  -- of the box that is not stale and whose cell the fill covers.
  pub bounding_box-Listed :
      (fuel now : ℕ) (bucket : Bytes) (q : Box num.F) (p : ℕ) (g : GeoCache num.F A)
      (s : GeoStore num.F) (cells : List Bytes) (e : GeoEntry num.F)
      → IsStore geo s
      → get_store bucket g ≡ ok s
      → has_precision s p ≡ true
      → covering_cells num geo fuel q p ≡ some cells
      → Hit num geo now q s e
      → is_user (cell_of geo e p) cells ≡ true
      → (es : List (GeoEntry num.F)) × (bounding_box num geo fuel now bucket q p g ≡ some (ok es))
        × Listed e es
  unfolding bounding_box entries_in is_user
  bounding_box-Listed fuel now bucket q p g s cells e w k h f ((v, o), t, i) m = (
    collect_cells num geo now q s p cells [] [],
    rw (k, h, f, bounding_box, entries_in) refl,
    collect_cells-Listed num geo now q s p (cell_of geo e p) cells [] [] v e
        (λ x d y z. ground arith) o t i (ground (arith, w.indexed v p (cell_of geo e p) h)) m,
  )
