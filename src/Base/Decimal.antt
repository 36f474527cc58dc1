-- ===== src/Base/Decimal.antt =====
-- `strconv.Itoa` and `%d` at a number that is not negative.
use Prim.Native.Nat.{ℕ, zero, suc, ◌+◌, ◌/◌, ◌%◌}
use mathlib.Core.List.{[], ◌∷◌, ◌++◌}
use mathlib.Core.Logic.{ite}
use native.Mathlib.Decide.{dec_lt}
use mycorrhizal.Base.Bytes.{Bytes}

-- the decimal digits of `n` in ASCII, the last one last; `suc n` rounds are enough
abbrev pub itoa_fuel : ℕ → ℕ → Bytes
itoa_fuel zero n = []
itoa_fuel (suc fuel) n =
    let front = itoa_fuel fuel (n / 10) in
    ite (dec_lt n 10) ((b'0' + n) ∷ []) (front ++ (b'0' + n % 10) ∷ [])

unfoldable pub itoa : ℕ → Bytes
itoa n = itoa_fuel (suc n) n
