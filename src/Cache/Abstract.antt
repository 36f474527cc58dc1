-- ===== src/Cache/Abstract.antt =====
-- internal/mycel/local.go: what a bucket promises its clients, as a list of entries, the most recently
-- used first. A read and a write move the key's entry to the front; a change of the time to live
-- leaves it where it stands.
use mycorrhizal.Base.{ℕ, suc, Option, none, some, List, [], ◌∷◌, Result, ok, err, ite}
use mycorrhizal.Base.Bytes.{Bytes, Bytes-discrete}
use mycorrhizal.Base.Time.{Duration, Instant, add_duration}
use mycorrhizal.Cache.{Cache, Error, not_found, Outcome, returns, ◌>>=◌}
use mycorrhizal.Cache.Local.{get_local, set_local, delete_local, set_ttl_local, expiry}
use mycorrhizal.Cache.Replicated.{Answer}

pub record Entry (A : Type 0) : Type 0 where
  pub key : Bytes
  pub contents : Option A
  pub expires_at : Instant

pub data Call (A : Type 0) : Type 0 where
  get : Bytes → Call A
  set : ℕ → Bytes → Option A → Duration → Call A
  delete : Bytes → Call A
  set_ttl : ℕ → Bytes → Duration → Call A

pub data Reply (A : Type 0) : Type 0 where
  read : Result Error (Option A) → Reply A
  wrote : Answer → Reply A

module _ {A : Type 0} where
  -- the entry of a key, and the list without it
  unfoldable pub find : Bytes → List (Entry A) → Option (Entry A)
  find key [] = none
  find key (e ∷ es) = ite (Bytes-discrete e.key key) (some e) (find key es)

  unfoldable pub drop_key : Bytes → List (Entry A) → List (Entry A)
  drop_key key [] = []
  drop_key key (e ∷ es) = ite (Bytes-discrete e.key key) es (e ∷ drop_key key es)

  unfoldable pub extend : Bytes → Instant → List (Entry A) → List (Entry A)
  extend key t [] = []
  extend key t (e ∷ es) =
      ite (Bytes-discrete e.key key) (record e { expires_at = t } ∷ es) (e ∷ extend key t es)

  unfoldable pub answer : Call A → List (Entry A) → Reply A × List (Entry A)
  answer (get key) es = elim (find key es) [
    | none ↦ (read (err not_found), es)
    | some e ↦ (read (ok e.contents), e ∷ drop_key key es)
  ]
  answer (set now key value ttl) es = (
    wrote (ok tt),
    record { key = key; contents = value; expires_at = expiry now ttl } ∷ drop_key key es,
  )
  answer (delete key) es = elim (find key es) [
    | none ↦ (wrote (err not_found), es)
    | some e ↦ (wrote (ok tt), drop_key key es)
  ]
  answer (set_ttl now key ttl) es = elim (find key es) [
    | none ↦ (wrote (err not_found), es)
    | some e ↦ (wrote (ok tt), extend key (some (add_duration now ttl)) es)
  ]

  -- the answers to a sequence of calls
  unfoldable pub answer_all : List (Call A) → List (Entry A) → List (Reply A) × List (Entry A)
  answer_all [] es = ([], es)
  answer_all (call ∷ calls) es =
      let (r, es') = answer call es in let (rs, es'') = answer_all calls es' in (r ∷ rs, es'')

  -- how many of the calls write
  abbrev pub writes : List (Call A) → ℕ
  writes [] = 0
  writes (set now key value ttl ∷ calls) = suc (writes calls)
  writes (get key ∷ calls) = writes calls
  writes (delete key ∷ calls) = writes calls
  writes (set_ttl now key ttl ∷ calls) = writes calls

  -- the same calls on the cache of a node
  unfoldable pub perform : Bytes → Call A → Cache A → Outcome (Reply A × Cache A)
  perform bucket (get key) c = let (r, c') = get_local bucket key c in returns (read r, c')
  perform bucket (set now key value ttl) c = do
    (a, c') ← set_local now bucket key value ttl c
    returns (wrote a, c')
  perform bucket (delete key) c = do (a, c') ← delete_local bucket key c; returns (wrote a, c')
  perform bucket (set_ttl now key ttl) c =
      let (a, c') = set_ttl_local now bucket key ttl c in returns (wrote a, c')

  unfoldable pub perform_all : Bytes → List (Call A) → Cache A → Outcome (List (Reply A) × Cache A)
  perform_all bucket [] c = returns ([], c)
  perform_all bucket (call ∷ calls) c = do
    (r, c') ← perform bucket call c
    (rs, c'') ← perform_all bucket calls c'
    returns (r ∷ rs, c'')
