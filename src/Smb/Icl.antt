-- ===== src/Smb/Icl.antt =====
-- The grid of the input current limit (crates/core/src/icl.rs).
pub mod Grid
use nabu_charger.Prelude.{
  ℕ, ◌+◌, ◌-◌, ◌/◌, ◌≤◌, ◌<◌, ◌≡◌, ◌==◌, ◌||◌, ltb, leb, if◌then◌else◌, sat_add, sat_mul, Result,
  ok, err, arith,
}
use nabu_charger.Smb.Error.{ChargerError, current_out_of_range}

pub record IclEncoding : Type 0 where
  pub min_ua : ℕ
  pub step_ua : ℕ
  pub raw_max : ℕ

abbrev pub default_grid : IclEncoding
default_grid = record { min_ua = 100_000; step_ua = 100_000; raw_max = 0x1f }

unfoldable pub icl_max_ua : IclEncoding → ℕ
icl_max_ua g = sat_add g.min_ua (sat_mul g.step_ua g.raw_max)

-- A `raw_max` is a `u8`, so a number of steps up to it fits one.
unfoldable pub icl_encode : IclEncoding → ℕ → Result ℕ ChargerError
icl_encode g icl_ua =
    if (g.step_ua == 0) || ltb icl_ua g.min_ua
    then err (current_out_of_range icl_ua (icl_max_ua g))
    else let steps = (icl_ua - g.min_ua) / g.step_ua in
      if ltb g.raw_max steps then err (current_out_of_range icl_ua (icl_max_ua g)) else ok steps

unfoldable pub icl_decode : IclEncoding → ℕ → ℕ
icl_decode g raw = sat_add g.min_ua (sat_mul g.step_ua raw)

unfoldable pub quantize_down : IclEncoding → ℕ → ℕ
quantize_down g icl_ua =
    if (g.step_ua == 0) || leb icl_ua g.min_ua
    then g.min_ua
    else let steps = (icl_ua - g.min_ua) / g.step_ua in
      icl_decode g (if ltb g.raw_max steps then g.raw_max else steps)

-- On the default grid an encodable limit is the code of its rounding down, less than one step below.
icl_encode-rounds_down :
    (icl_ua raw : ℕ)
    → icl_encode default_grid icl_ua ≡ ok raw
    → (raw ≤ 31)
      × (quantize_down default_grid icl_ua ≡ icl_decode default_grid raw)
      × (icl_decode default_grid raw ≤ icl_ua)
      × (icl_ua < icl_decode default_grid raw + 100_000)
unfolding icl_encode icl_decode quantize_down
icl_encode-rounds_down icl_ua raw h = ground arith
