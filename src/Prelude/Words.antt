-- ===== src/Prelude/Words.antt =====
-- Saturating arithmetic on the program's unsigned words.
use Prim.Native.Nat.{ℕ, ◌+◌, ◌*◌, min}

abbrev pub u8_max : ℕ
u8_max = 255

abbrev pub u32_max : ℕ
u32_max = 4294967295

abbrev pub u64_max : ℕ
u64_max = 18446744073709551615

-- `u32::saturating_add`, `u32::saturating_mul` and `u64::saturating_add`; on `ℕ`,
-- `saturating_sub` is `-`.
abbrev pub sat_add : ℕ → ℕ → ℕ
sat_add a b = min (a + b) u32_max

abbrev pub sat_mul : ℕ → ℕ → ℕ
sat_mul a b = min (a * b) u32_max

abbrev pub sat_add64 : ℕ → ℕ → ℕ
sat_add64 a b = min (a + b) u64_max
