-- ===== src/Cache/Interleaved.antt =====
-- internal/mycel/local.go: the local operations on two buckets of a node, in any interleaving.
use mycorrhizal.Base.{
  ℕ, ◌+◌, ◌≤◌, ◌≡◌, refl, sym, Bool, true, false, List, [], ◌∷◌, length, arith, if◌then◌else◌,
}
use mycorrhizal.Base.Bytes.{Bytes}
use mycorrhizal.Cache.{Cache, Outcome, returns, ◌>>=◌}
use mycorrhizal.Cache.Abstract.{Entry, Call, Reply, answer, perform, writes}
use mycorrhizal.Cache.Sequence.{length-answer, writes-one}
use mycorrhizal.Cache.Beside.{IsSeparate, Beside, Beside-swap, perform-Beside}

-- calls on two buckets, each on the first one if it is marked so
unfoldable pub perform_both :
    {A : Type 0}
    → Bytes
    → Bytes
    → List (Bool × Call A)
    → Cache A
    → Outcome (List (Reply A) × Cache A)
perform_both bucket other [] c = returns ([], c)
perform_both bucket other ((on_first, call) ∷ calls) c = do
  (r, c') ← perform (if on_first then bucket else other) call c
  (rs, c'') ← perform_both bucket other calls c'
  returns (r ∷ rs, c'')

-- the calls on one of them, and the answers of two lists of entries of their own
abbrev pub calls_on : {A : Type 0} → Bool → List (Bool × Call A) → List (Call A)
calls_on side [] = []
calls_on true ((true, call) ∷ calls) = call ∷ calls_on true calls
calls_on true ((false, call) ∷ calls) = calls_on true calls
calls_on false ((true, call) ∷ calls) = calls_on false calls
calls_on false ((false, call) ∷ calls) = call ∷ calls_on false calls

unfoldable pub answer_both :
    {A : Type 0}
    → List (Bool × Call A)
    → List (Entry A)
    → List (Entry A)
    → List (Reply A) × List (Entry A) × List (Entry A)
answer_both [] es fs = ([], es, fs)
answer_both ((true, call) ∷ calls) es fs =
    let (r, es') = answer call es in
    let (rs, es'', fs') = answer_both calls es' fs in (r ∷ rs, es'', fs')
answer_both ((false, call) ∷ calls) es fs =
    let (r, fs') = answer call fs in
    let (rs, es', fs'') = answer_both calls es fs' in (r ∷ rs, es', fs'')

module _ {A : Type 0} {bucket other : Bytes} (separate : IsSeparate bucket other) {m n : ℕ} where
  -- In any interleaving of local operations on two well-formed buckets that share no node, where no
  -- key of one has the index entry of a key of the other, and where the entries of each bucket, with one
  -- for each write to it, do not exceed its capacity, the operations return; each answers as if its
  -- bucket were alone, by the list of the entries of that bucket; and the buckets are well formed
  -- afterwards, have the entries of their lists, and share no node.
  pub perform_both-answer_both :
      (calls : List (Bool × Call A)) (c : Cache A) (es fs : List (Entry A))
      → Beside bucket other m n c es fs
      → length es + writes (calls_on true calls) ≤ m
      → length fs + writes (calls_on false calls) ≤ n
      → (c' : Cache A) × (perform_both bucket other calls c
          ≡ returns ((answer_both calls es fs).0, c'))
        × Beside bucket other m n c' (answer_both calls es fs).1 (answer_both calls es fs).2
  unfolding perform_both answer_both
  perform_both-answer_both [] c es fs b first second = (c, refl, b)
  perform_both-answer_both ((true, call) ∷ calls) c es fs b first second =
      let (c₁, e, b₁) =
        perform-Beside separate call b
          (omega (arith, first, writes-one call (calls_on true calls))) in
      let (c₂, more, b₂) =
        perform_both-answer_both calls c₁ (answer call es).1 fs b₁
          (omega (arith, first, length-answer call (calls_on true calls) es)) second in
      (c₂, rw (e, perform_both, more) refl, b₂)
  perform_both-answer_both ((false, call) ∷ calls) c es fs b first second =
      let (c₁, e, b₁) =
        perform-Beside (λ j k e. separate k j (sym e)) call (Beside-swap b)
          (omega (arith, second, writes-one call (calls_on false calls))) in
      let (c₂, more, b₂) =
        perform_both-answer_both calls c₁ es (answer call fs).1 (Beside-swap b₁) first
          (omega (arith, second, length-answer call (calls_on false calls) fs)) in
      (c₂, rw (e, perform_both, more) refl, b₂)
