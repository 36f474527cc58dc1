-- ===== src/Cache/Keys.antt =====
-- internal/mycel/cache.go: `routingKey`, and the decimal length that it begins with.
use mycorrhizal.Base.{
  ℕ, zero, suc, ◌+◌, ◌-◌, ◌*◌, ◌/◌, ◌%◌, ◌<◌, ◌≢◌, ◌≡◌, refl, ◌∙◌, sym, ap, [], ◌∷◌, ◌++◌, All,
  length, drop, take-length-append, drop-length-append, ite, dec_lt, arith,
}
use mycorrhizal.Base.Bytes.{Bytes}
use mycorrhizal.Base.Decimal.{itoa, itoa_fuel}
use mycorrhizal.Cache.{routing_key}

-- the number that decimal digits stand for
abbrev value : ℕ → Bytes → ℕ
value acc [] = acc
value acc (b ∷ bs) = value (acc * 10 + (b - b'0')) bs

value-append :
    (acc : ℕ) (xs : Bytes) (b : ℕ) → value acc (xs ++ b ∷ []) ≡ value acc xs * 10 + (b - b'0')
value-append acc [] b = refl
value-append acc (x ∷ xs) b = value-append (acc * 10 + (x - b'0')) xs b

value-itoa_fuel : (fuel n : ℕ) → n < fuel → value 0 (itoa_fuel fuel n) ≡ n
value-itoa_fuel zero n h = absurd (omega arith)
value-itoa_fuel (suc fuel) n h =
    elim (dec_lt n 10)
      as (λ d.
        value 0 (ite d ((b'0' + n) ∷ []) (itoa_fuel fuel (n / 10) ++ (b'0' + n % 10) ∷ [])) ≡ n) [
          | yes l ↦ omega arith
          | no l ↦
              value-append 0 (itoa_fuel fuel (n / 10)) (b'0' + n % 10)
              ∙ omega (arith, value-itoa_fuel fuel (n / 10) (omega arith))
        ]

-- no digit is a colon
abbrev NoColon : Bytes → Type 0
NoColon bs = All (λ b. b ≢ b':') bs

NoColon-append : (xs ys : Bytes) → NoColon xs → NoColon ys → NoColon (xs ++ ys)
NoColon-append [] ys h k = k
NoColon-append (x ∷ xs) ys h k = (h.0, NoColon-append xs ys h.1 k)

NoColon-itoa_fuel : (fuel n : ℕ) → NoColon (itoa_fuel fuel n)
NoColon-itoa_fuel zero n = tt
NoColon-itoa_fuel (suc fuel) n =
    elim (dec_lt n 10)
      as (λ d.
        NoColon (ite d ((b'0' + n) ∷ []) (itoa_fuel fuel (n / 10) ++ (b'0' + n % 10) ∷ []))) [
          | yes l ↦ ((λ e. omega arith), tt)
          | no l ↦
              NoColon-append (itoa_fuel fuel (n / 10)) _ (NoColon-itoa_fuel fuel (n / 10))
                ((λ e. omega arith), tt)
        ]

head_eq : (x y : ℕ) (xs ys : Bytes) → x ∷ xs ≡ y ∷ ys → x ≡ y
head_eq x y xs ys e = ground arith

tail_eq : (x y : ℕ) (xs ys : Bytes) → x ∷ xs ≡ y ∷ ys → xs ≡ ys
tail_eq x y xs ys e = ap (drop 1) e

-- what stands before the first colon, and what stands after it
before_colon :
    (xs ys us vs : Bytes)
    → NoColon xs
    → NoColon ys
    → xs ++ b':' ∷ us ≡ ys ++ b':' ∷ vs
    → (xs ≡ ys) × (us ≡ vs)
before_colon [] [] us vs h k e = (refl, tail_eq _ _ us vs e)
before_colon [] (y ∷ ys) us vs h k e = absurd (k.0 (sym (head_eq _ _ _ _ e)))
before_colon (x ∷ xs) [] us vs h k e = absurd (h.0 (head_eq _ _ _ _ e))
before_colon (x ∷ xs) (y ∷ ys) us vs h k e =
    let (p, q) = before_colon xs ys us vs h.1 k.1 (tail_eq _ _ _ _ e) in
    (rw (head_eq _ _ _ _ e, p) refl, q)

-- Two keys with the same routing key are the same key of the same bucket.
pub routing_key-injective :
    (bucket bucket' key key' : Bytes)
    → routing_key bucket key ≡ routing_key bucket' key'
    → (bucket ≡ bucket') × (key ≡ key')
unfolding routing_key itoa
routing_key-injective bucket bucket' key key' e =
    let (p, q) =
      before_colon _ _ _ _ (NoColon-itoa_fuel (suc (length bucket)) (length bucket))
        (NoColon-itoa_fuel (suc (length bucket')) (length bucket')) e in
    let len : length bucket ≡ length bucket' =
      sym (value-itoa_fuel (suc (length bucket)) (length bucket) (omega arith))
      ∙ ap (value 0) p
      ∙ value-itoa_fuel (suc (length bucket')) (length bucket') (omega arith) in
    (
      sym (take-length-append bucket key) ∙ rw (q, len) (take-length-append bucket' key'),
      sym (drop-length-append bucket key) ∙ rw (q, len) (drop-length-append bucket' key'),
    )
