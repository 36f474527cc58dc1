-- ===== src/Cache/Quorum.antt =====
-- internal/mycel/cache.go: the verdict of a replicated write, from the answers of the replicas.
use mathlib.Core.List.{Perm, Permᴰ}
use mathlib.Core.Logic.{∥∥₁_elim}
use native.Mathlib.Nat.{ℕ_set}
use mycorrhizal.Base.{
  ℕ, suc, ◌+◌, ◌*◌, ◌<◌, ◌≤◌, ◌≡◌, ◌↔◌, ◌⊎◌, ap, sym, ◌∙◌, refl, inl, inr, true, Bool-cases, List,
  [], ◌∷◌, ok, err, is_ok, length, arith, if◌then◌else◌,
}
use mycorrhizal.Base.Bytes.{Bytes}
use mycorrhizal.Cache.{
  Cache, Error, Outcome, returns, panics, out_of_fuel, no_replicas, >>=-eq-returns,
}
use mycorrhizal.Cache.Rendezvous.{ReplicaNode}
use mycorrhizal.Cache.Replicated.{Answer, tally, verdict, fan_out, replicate_write, answer_of}

-- how many answers are no error
unfoldable pub succeeded : List Answer → ℕ
succeeded [] = 0
succeeded (r ∷ rs) = (if is_ok r then 1 else 0) + succeeded rs

tally-succeeded : (rs : List Answer) (n : ℕ) (e : Error) → (tally rs n e).0 ≡ n + succeeded rs
unfolding tally succeeded
tally-succeeded [] n e = omega arith
tally-succeeded (ok _ ∷ rs) n e = omega (arith, tally-succeeded rs (suc n) e)
tally-succeeded (err d ∷ rs) n e = omega (arith, tally-succeeded rs n d)

-- The verdict is no error exactly when more than half of the answers are none.
pub verdict-majority :
    (rs : List Answer) → (is_ok (verdict rs) ≡ true) ↔ (length rs < 2 * succeeded rs)
unfolding verdict
verdict-majority rs = ground (arith, tally-succeeded rs 0 no_replicas)

succeeded-permᴰ : {rs qs : List Answer} → Permᴰ rs qs → succeeded rs ≡ succeeded qs
unfolding succeeded
succeeded-permᴰ Permᴰ.nil = refl
succeeded-permᴰ (Permᴰ.cons e p) =
    omega (arith, succeeded-permᴰ p, ap {B = ℕ} (λ (r : Answer). if is_ok r then 1 else 0) e)
succeeded-permᴰ (Permᴰ.swap e f) = omega (
  arith,
  ap {B = ℕ} (λ (r : Answer). if is_ok r then 1 else 0) e,
  ap {B = ℕ} (λ (r : Answer). if is_ok r then 1 else 0) f,
)
succeeded-permᴰ (Permᴰ.trans p q) = succeeded-permᴰ p ∙ succeeded-permᴰ q

length-permᴰ {ℓ} : {A : Type ℓ} {xs ys : List A} → Permᴰ xs ys → length xs ≡ length ys
length-permᴰ Permᴰ.nil = refl
length-permᴰ (Permᴰ.cons e p) = ap suc (length-permᴰ p)
length-permᴰ (Permᴰ.swap e f) = refl
length-permᴰ (Permᴰ.trans p q) = length-permᴰ p ∙ length-permᴰ q

pub succeeded-perm : (rs qs : List Answer) → Perm rs qs → succeeded rs ≡ succeeded qs
succeeded-perm rs qs p = ∥∥₁_elim p (ℕ_set _ _) succeeded-permᴰ

pub length-perm : (rs qs : List Answer) → Perm rs qs → length rs ≡ length qs
length-perm rs qs p = ∥∥₁_elim p (ℕ_set _ _) length-permᴰ

pub fan_out-length :
    {A : Type 0} (here : Cache A → Outcome (Answer × Cache A)) (there : Bytes → Answer)
    (set : List ReplicaNode) (c : Cache A) {c' : Cache A} {results : List Answer}
    → fan_out here there set c ≡ returns (results, c')
    → length results ≡ length set
unfolding fan_out
fan_out-length here there [] c {c'} {results} e =
    ap {A = Outcome (List Answer × Cache _)} {B = ℕ}
      (λ o. elim o [ returns x ↦ length x.0 | panics ↦ 0 | out_of_fuel ↦ 0 ]) (sym e)
fan_out-length here there (r ∷ rs) c e =
    let (x, _, e') = >>=-eq-returns (answer_of here there r c) e in
    let ((answers, d), e'', e3) = >>=-eq-returns (fan_out here there rs x.1) e' in
    let k = fan_out-length here there rs x.1 e'' in
    ap {B = ℕ} (λ o. elim o [ returns x ↦ length x.0 | panics ↦ 0 | out_of_fuel ↦ 0 ]) (sym e3)
    ∙ ap suc k

-- When the answers of a replica set that is not empty are collected, and arrive in any order, a
-- replicated write returns. It returns no error exactly when more than half of the replica set
-- answered without one.
pub replicate_write-majority :
    {A : Type 0} (arrive : List Answer → List Answer) (here : Cache A → Outcome (Answer × Cache A))
    (there : Bytes → Answer) (r : ReplicaNode) (set : List ReplicaNode) (c : Cache A) {c' : Cache A}
    {results : List Answer}
    → ((rs : List Answer) → Perm (arrive rs) rs)
    → fan_out here there (r ∷ set) c ≡ returns (results, c')
    → (a : Answer) × (replicate_write arrive here there (r ∷ set) c ≡ returns (a, c'))
      × ((is_ok a ≡ true) ↔ (suc (length set) < 2 * succeeded results))
unfolding replicate_write
replicate_write-majority arrive here there r set c {results} p e = (
  verdict (arrive results),
  rw e,
  rw
      (
        ← fan_out-length here there (r ∷ set) c e,
        ← length-perm _ _ (p results),
        ← succeeded-perm _ _ (p results),
      )
      (verdict-majority (arrive results)),
)

-- the answers at one place of two lists of the same length are both no error
abbrev pub Agree : List Answer → List Answer → Type 0
Agree [] qs = ⊥
Agree (r ∷ rs) [] = ⊥
Agree (r ∷ rs) (q ∷ qs) = ((is_ok r ≡ true) × (is_ok q ≡ true)) ⊎ Agree rs qs

succeeded-le : (rs : List Answer) → succeeded rs ≤ length rs
unfolding succeeded
succeeded-le [] = omega arith
succeeded-le (r ∷ rs) = ground (arith, succeeded-le rs)

overlap :
    (rs qs : List Answer)
    → length rs ≡ length qs
    → length rs < succeeded rs + succeeded qs
    → Agree rs qs
unfolding succeeded
overlap [] [] e h = omega arith
overlap [] (q ∷ qs) e h = omega arith
overlap (r ∷ rs) [] e h = omega arith
overlap (r ∷ rs) (q ∷ qs) e h = elim (Bool-cases (is_ok r)) [
  | inl a ↦ elim (Bool-cases (is_ok q)) [
    | inl d ↦ inl (a, d)
    | inr d ↦ inr (overlap rs qs (omega arith) (ground arith))
  ]
  | inr a ↦ inr (overlap rs qs (omega arith) (ground arith))
]

-- If the answers of one replica set to two writes, each listed in the set's order, have verdicts
-- without an error, then some replica answered both without one.
pub verdict-overlap :
    (rs qs : List Answer)
    → length rs ≡ length qs
    → is_ok (verdict rs) ≡ true
    → is_ok (verdict qs) ≡ true
    → Agree rs qs
verdict-overlap rs qs e f g =
    overlap rs qs e (omega (arith, (verdict-majority rs).0 f, (verdict-majority qs).0 g))
