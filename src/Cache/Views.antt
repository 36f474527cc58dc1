-- ===== src/Cache/Views.antt =====
-- internal/mycel/task.go, rebalancer.go: all buckets of a node while a background task goes through
-- them, one after the other.
use mycorrhizal.Base.{◌≡◌, Bool, true, false, List, [], ◌∷◌, sym, arith}
use mycorrhizal.Base.Bytes.{Bytes}
use mycorrhizal.Lru.{LruBucket}
use mycorrhizal.Lru.Order.{Ptr, has}
use mycorrhizal.Cache.{Cache}
use mycorrhizal.Cache.Holds.{Holds}
use mycorrhizal.Cache.Beside.{IsSeparate}
use mycorrhizal.Cache.Swept.{kept, Swept, Swept-start, Spares}

-- a bucket, its name and its nodes
pub record View : Type 0 where
  pub name : Bytes
  pub bucket_of : LruBucket
  pub nodes : List Ptr

abbrev pub buckets : List View → List (Bytes × LruBucket)
buckets [] = []
buckets (v ∷ vs) = (v.name, v.bucket_of) ∷ buckets vs

-- the nodes and the index entries of one bucket are not those of any of the others
abbrev pub IsApart : Bytes → List Ptr → List View → Type 0
IsApart name xs [] = Unit {0}
IsApart name xs (v ∷ vs) =
    IsSeparate name v.name
    × ((p : Ptr) → has p v.nodes ≡ true → has p xs ≡ false)
    × IsApart name xs vs

abbrev pub AllApart : List View → Type 0
AllApart [] = Unit {0}
AllApart (v ∷ vs) = IsApart v.name v.nodes vs × AllApart vs

module _ {A : Type 0} where
  -- the buckets are well formed
  abbrev pub AllHold : Cache A → List View → Type 0
  AllHold c [] = Unit {0}
  AllHold c (v ∷ vs) = Holds c v.name v.bucket_of v.nodes × AllHold c vs

  -- the buckets have kept all of their nodes, and those that pass a test
  abbrev pub AllSwept : Cache A → List View → Cache A → Type 0
  AllSwept c [] c' = Unit {0}
  AllSwept c (v ∷ vs) c' = Swept c v.name v.nodes c' × AllSwept c vs c'

  abbrev pub AllKept : Cache A → (Bytes → Ptr → Bool) → List View → Cache A → Type 0
  AllKept c keep [] c' = Unit {0}
  AllKept c keep (v ∷ vs) c' = Swept c v.name (kept (keep v.name) v.nodes) c' × AllKept c keep vs c'

  pub AllSwept-start : (c : Cache A) (vs : List View) → AllHold c vs → AllSwept c vs c
  AllSwept-start c [] h = tt
  AllSwept-start c (v ∷ vs) (h, hs) = (Swept-start h, AllSwept-start c vs hs)

  -- A bucket that is apart from all that changes has kept what it had.
  abbrev pub SparesApart : Cache A → List View → Cache A → Cache A → Type 0
  SparesApart c vs c' c'' =
      (other : Bytes) (zs : List Ptr)
      → IsApart other zs vs
      → Swept c other zs c'
      → Swept c other zs c''

  pub Spares-AllSwept :
      (c : Cache A) {c' c'' : Cache A} (name : Bytes) (xs : List Ptr) (vs : List View)
      → IsApart name xs vs
      → Spares c name xs c' c''
      → AllSwept c vs c'
      → AllSwept c vs c''
  Spares-AllSwept c name xs [] apart spares s = tt
  Spares-AllSwept c name xs (v ∷ vs) (separate, disjoint, apart) spares (s, ss) =
      (spares v.name v.nodes separate disjoint s, Spares-AllSwept c name xs vs apart spares ss)

  pub Spares-SparesApart :
      (c : Cache A) {c' c₁ c'' : Cache A} (v : View) (vs : List View)
      → Spares c v.name v.nodes c' c₁
      → SparesApart c vs c₁ c''
      → SparesApart c (v ∷ vs) c' c''
  Spares-SparesApart c v vs first rest other zs (separate, disjoint, apart) s =
      rest other zs apart
        (first other zs (λ j k e. separate k j (sym e)) (λ p m. ground (arith, disjoint p)) s)

has-kept :
    (keep : Ptr → Bool) (p : Ptr) (xs : List Ptr) → has p xs ≡ false → has p (kept keep xs) ≡ false
unfolding kept
has-kept keep p [] m = m
has-kept keep p (x ∷ xs) m = ground (arith, has-kept keep p xs)

pub IsApart-kept :
    (keep : Ptr → Bool) (name : Bytes) (xs : List Ptr) (vs : List View)
    → IsApart name xs vs
    → IsApart name (kept keep xs) vs
IsApart-kept keep name xs [] apart = tt
IsApart-kept keep name xs (v ∷ vs) (separate, disjoint, apart) =
    (separate, λ p m. has-kept keep p xs (disjoint p m), IsApart-kept keep name xs vs apart)
