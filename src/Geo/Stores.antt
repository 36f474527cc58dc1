-- ===== src/Geo/Stores.antt =====
-- internal/mycel/geo.go and geo_local.go: the stores of a geo cache under its operations.
use mathlib.Core.Path.{subst}
use mycorrhizal.Base.{
  ℕ, ◌≡◌, refl, inl, inr, Option-cases, some, List, [], ◌∷◌, ok, err, Result-cases, arith,
}
use mycorrhizal.Base.Bytes.{Bytes, Bytes-discrete}
use mycorrhizal.Base.Maps.{lookup, put, lookup-put}
use mycorrhizal.Base.Time.{Duration}
use mycorrhizal.Cache.{Outcome, returns, panics, out_of_fuel, ◌>>=◌}
use mycorrhizal.Cache.Local.{set_local, delete_local}
use mycorrhizal.Cache.Replicated.{Answer}
use mycorrhizal.Geo.{Geohash, GeoEntry, GeoStore, GeoCache, create_store, get_store}
use mycorrhizal.Geo.Local.{
  set_location_local, delete_location_local, effective_ttl, new_entry, roll_back,
}
use mycorrhizal.Geo.Index.{
  IsStore, Nested, new_store-IsStore, set_point-IsStore, delete_point-IsStore,
}

module _ {F : Type 0} (geo : Geohash F) where
  abbrev pub AllStores : List (Bytes × GeoStore F) → Type 0
  AllStores stores = (name : Bytes) (s : GeoStore F) → lookup name stores ≡ some s → IsStore geo s

  AllStores-put :
      (stores : List (Bytes × GeoStore F)) (name : Bytes) (s : GeoStore F)
      → AllStores stores
      → IsStore geo s
      → AllStores (put name s stores)
  AllStores-put stores name s a w n t h = elim (Bytes-discrete name n) [
    | yes e ↦ let k : s ≡ t = ground (arith, lookup-put name n s stores) in subst (IsStore geo) k w
    | no e ↦ a n t (ground (arith, lookup-put name n s stores))
  ]

  -- Making a store keeps every store well formed.
  pub create_store-AllStores :
      {A : Type 0} (bucket : Bytes) (ps : List ℕ) (g : GeoCache F A)
      → AllStores g.stores
      → AllStores (create_store bucket ps g).1.stores
  unfolding create_store
  create_store-AllStores bucket [] g a = a
  create_store-AllStores bucket (p ∷ ps) g a = elim (Option-cases (lookup bucket g.stores)) [
    | inl o ↦
        rw (o, create_store) (AllStores-put g.stores bucket _ a (new_store-IsStore geo (p ∷ ps)))
    | inr (s, o) ↦ rw (o, create_store) a
  ]

-- what a call returns, when it returns, satisfies the predicate
abbrev pub Always : {B : Type 0} → (B → Type 0) → Outcome B → Type 0
Always P (returns b) = P b
Always P panics = Unit
Always P out_of_fuel = Unit

Always->>= :
    {B C : Type 0} (P : C → Type 0) (Q : B → Type 0) (f : B → Outcome C) (m : Outcome B)
    → Always Q m
    → ((b : B) → Q b → Always P (f b))
    → Always P (m >>= f)
Always->>= P Q f (returns b) q h = h b q
Always->>= P Q f panics q h = tt
Always->>= P Q f out_of_fuel q h = tt

Always-unit : {B : Type 0} (m : Outcome B) → Always (λ b. Unit) m
Always-unit (returns b) = tt
Always-unit panics = tt
Always-unit out_of_fuel = tt

module _ {F A : Type 0} (geo : Geohash F) (wrap : GeoEntry F → A) where
  get_store-IsStore :
      (bucket : Bytes) (g : GeoCache F A) (s : GeoStore F)
      → AllStores geo g.stores
      → get_store bucket g ≡ ok s
      → IsStore geo s
  unfolding get_store
  get_store-IsStore bucket g s a h = elim (Option-cases (lookup bucket g.stores)) [
    | inl o ↦ ground arith
    | inr (t, o) ↦ a bucket s (ground arith)
  ]

  -- Deleting a location leaves every store well formed, whatever it answers.
  pub delete_location_local-AllStores :
      (bucket user : Bytes) (g : GeoCache F A)
      → AllStores geo g.stores
      → Always (λ r. AllStores geo r.1.stores) (delete_location_local geo wrap bucket user g)
  unfolding delete_location_local
  delete_location_local-AllStores bucket user g a = elim (Result-cases (get_store bucket g)) [
    | inl (s, k) ↦
        rw (k, delete_location_local)
          (Always->>= _ _ _ (delete_local bucket user g.cache) (Always-unit _) (λ r _.
            AllStores-put geo g.stores bucket _ a
              (delete_point-IsStore geo user s (get_store-IsStore bucket g s a k))))
    | inr (e, k) ↦
        rw (k, delete_location_local)
          (Always->>= _ _ _ (delete_local bucket user g.cache) (Always-unit _) (λ r _. a))
  ]

  roll_back-AllStores :
      (bucket user : Bytes) (b : Answer) (g : GeoCache F A)
      → AllStores geo g.stores
      → Always (λ r. AllStores geo r.1.stores) (roll_back geo wrap bucket user b g)
  unfolding roll_back
  roll_back-AllStores bucket user (ok _) g a = a
  roll_back-AllStores bucket user (err e) g a =
      Always->>= _ _ _ (delete_location_local geo wrap bucket user g)
        (delete_location_local-AllStores bucket user g a) (λ x y. y)

  -- When cells that agree at a precision agree at every lower one, writing a location leaves every
  -- store well formed, whatever it answers, the roll-back included.
  pub set_location_local-AllStores :
      (nested : Nested geo) (now : ℕ) (bucket user : Bytes) (lat lng : F) (ttl : Duration)
      (g : GeoCache F A)
      → AllStores geo g.stores
      → Always
          (λ r. AllStores geo r.1.stores)
          (set_location_local geo wrap now bucket user lat lng ttl g)
  unfolding set_location_local new_entry
  set_location_local-AllStores nested now bucket user lat lng ttl g a =
      elim (Result-cases (get_store bucket g)) [
        | inl (s, k) ↦
            let entry = new_entry geo wrap now user lat lng (effective_ttl bucket ttl g) s in
            let w =
              AllStores-put geo g.stores bucket _ a (
                set_point-IsStore geo nested user entry s (get_store-IsStore bucket g s a k)
                  refl) in
            rw (k, set_location_local)
              (Always->>= _ _ _
                (set_local now bucket user (some (wrap entry)) (effective_ttl bucket ttl g) g.cache)
                (Always-unit _) (λ r _. roll_back-AllStores bucket user r.0 _ w))
        | inr (e, k) ↦ rw (k, set_location_local) a
      ]
