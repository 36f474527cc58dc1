-- ===== src/Base/Time.antt =====
-- Instants and durations in nanoseconds. A `time.Duration` is signed; a `time.Time` is a number of
-- nanoseconds since Go's zero time, and the zero time itself is `none`.
use Prim.Native.Nat.{ℕ, ◌+◌, ◌-◌, compare, Ordering}
use mathlib.Core.Bool.{Bool, true, false}
use mathlib.Core.Option.{Option}
use mycorrhizal.Base.Int.{ℤ, pos, negsuc, pos_part, neg_part}

abbrev pub Duration : Type 0
Duration = ℤ

abbrev pub Instant : Type 0
Instant = Option ℕ

abbrev pub zero_duration : Duration
zero_duration = pos 0

-- `d == 0`
abbrev pub is_zero : Duration → Bool
is_zero (pos n) = elim (compare n 0) [ Ordering.eq ↦ true | _ ↦ false ]
is_zero (negsuc n) = false

-- `d > 0`
abbrev pub is_positive : Duration → Bool
is_positive (pos n) = elim (compare n 0) [ Ordering.gt ↦ true | _ ↦ false ]
is_positive (negsuc n) = false

-- `time.Now().Add(d)`, for a clock that reads `now`
abbrev pub add_duration : ℕ → Duration → ℕ
add_duration now d = now + pos_part d - neg_part d

-- `time.Until(t)`, for a clock that reads `now`
abbrev pub until : ℕ → ℕ → Duration
until now t = elim (compare now t) [ Ordering.gt ↦ negsuc (now - t - 1) | _ ↦ pos (t - now) ]

-- `now.After(t)`
abbrev pub is_after : ℕ → ℕ → Bool
is_after now t = elim (compare now t) [ Ordering.gt ↦ true | _ ↦ false ]
