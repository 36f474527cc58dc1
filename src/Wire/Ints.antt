-- ===== src/Wire/Ints.antt =====
-- `binary.BigEndian` of Go's standard library, as internal/nodosum/quic.go uses it.
use mycorrhizal.Base.{
  ℕ, ◌+◌, ◌*◌, ◌/◌, ◌%◌, ◌^◌, ◌≡◌, [], ◌∷◌, ◌++◌, arith, length, take, drop, refl, get_or,
}
use mycorrhizal.Base.Bytes.{Bytes}

-- `AppendUint16(_, uint16(n))`: the conversion keeps the low 16 bits
pub be16 : ℕ → Bytes
be16 n = let v = n % 2 ^ 16 in (v / 2 ^ 8) ∷ (v % 2 ^ 8) ∷ []

-- `AppendUint32(_, uint32(n))`
pub be32 : ℕ → Bytes
be32 n =
    let v = n % 2 ^ 32 in
    (v / 2 ^ 24) ∷ (v / 2 ^ 16 % 2 ^ 8) ∷ (v / 2 ^ 8 % 2 ^ 8) ∷ (v % 2 ^ 8) ∷ []

-- `Uint16(b)`, for two bytes at least
pub uint16 : Bytes → ℕ
uint16 b = get_or b 0 0 * 2 ^ 8 + get_or b 1 0

-- `Uint32(b)`, for four bytes at least
pub uint32 : Bytes → ℕ
uint32 b = get_or b 0 0 * 2 ^ 24 + get_or b 1 0 * 2 ^ 16 + get_or b 2 0 * 2 ^ 8 + get_or b 3 0

pub uint16-be16 : (n : ℕ) → uint16 (be16 n) ≡ n % 2 ^ 16
unfolding uint16 be16
uint16-be16 n = omega arith

pub uint32-be32 : (n : ℕ) → uint32 (be32 n) ≡ n % 2 ^ 32
unfolding uint32 be32
uint32-be32 n = omega arith

pub length-be16 : (n : ℕ) → length (be16 n) ≡ 2
unfolding be16
length-be16 n = omega arith

pub length-be32 : (n : ℕ) → length (be32 n) ≡ 4
unfolding be32
length-be32 n = omega arith

-- A length field in front of the bytes that follow it.
module _ (n : ℕ) (ys : Bytes) where
  pub take-be16 : take 2 (be16 n ++ ys) ≡ be16 n
  unfolding be16
  take-be16 = refl

  pub drop-be16 : drop 2 (be16 n ++ ys) ≡ ys
  unfolding be16
  drop-be16 = refl

  pub take-be32 : take 4 (be32 n ++ ys) ≡ be32 n
  unfolding be32
  take-be32 = refl

  pub drop-be32 : drop 4 (be32 n ++ ys) ≡ ys
  unfolding be32
  drop-be32 = refl
