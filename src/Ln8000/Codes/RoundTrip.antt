-- ===== src/Ln8000/Codes/RoundTrip.antt =====
-- The codes round down, and decoding gives the value back.
use nabu_charger.Prelude.{◌⊎◌, ℕ, ◌+◌, ◌*◌, ◌/◌, ◌%◌, ◌≤◌, ◌<◌, ◌≡◌, ◌↔◌, ok, arith}
use nabu_charger.Prelude.Bits.{bit_and-low}
use nabu_charger.Ln8000.Codes.{
  encode_iin_limit, decode_iin_limit, encode_vbat_float, decode_vbat_float, encode_ntc_alarm,
}

-- A limit that the register can hold is rounded down by less than one 50 mA step, and one above
-- the field is written as the largest code, 6.35 A: the chip never gets more than was asked.
pub iin_rounds_down :
    (iin code : ℕ)
    → encode_iin_limit iin ≡ ok code
    → (code < 128)
      × (decode_iin_limit code ≤ iin)
      × ((iin < decode_iin_limit code + 50_000) ⊎ ((code ≡ 127) × (6_400_000 ≤ iin)))
unfolding encode_iin_limit decode_iin_limit
iin_rounds_down iin code h = ground (arith, bit_and-low 7 code)

-- A limit on the 50 mA grid from 500 mA to 6.35 A comes back exactly.
iin-roundtrip :
    (code : ℕ)
    → 10 ≤ code
    → code < 128
    → (decode_iin_limit code ≡ 50_000 * code) × (encode_iin_limit (50_000 * code) ≡ ok code)
unfolding encode_iin_limit decode_iin_limit
iin-roundtrip code lo hi = ground (arith, bit_and-low 7 code)

-- Every float code comes back, and within 3.725 V to 5 V a voltage is rounded down by less than
-- one 5 mV step.
vbat_float-roundtrip :
    (code vbat : ℕ)
    → code < 256
    → 3_725_000 ≤ vbat
    → vbat ≤ 5_000_000
    → (encode_vbat_float (decode_vbat_float code) ≡ code)
      × (decode_vbat_float (encode_vbat_float vbat) ≤ vbat)
      × (vbat < decode_vbat_float (encode_vbat_float vbat) + 5_000)
unfolding encode_vbat_float decode_vbat_float
vbat_float-roundtrip code vbat h lo hi = ground arith

-- A ten-bit alarm threshold is the two parts that are written, and each fits its field.
ntc_alarm-parts :
    (code : ℕ)
    → code < 1024
    → ((encode_ntc_alarm code).1 * 256 + (encode_ntc_alarm code).0 ≡ code)
      × ((encode_ntc_alarm code).0 < 256)
      × ((encode_ntc_alarm code).1 < 4)
unfolding encode_ntc_alarm
ntc_alarm-parts code h = ground (arith, bit_and-low 8 code, bit_and-low 2 (code / 256))

-- The register holds exactly what was asked just on its grid of 50 mA steps up to 6.35 A.
pub iin_on_grid_iff :
    (iin code : ℕ)
    → encode_iin_limit iin ≡ ok code
    → (decode_iin_limit code ≡ iin) ↔ ((iin % 50_000 ≡ 0) × (iin ≤ 6_350_000))
unfolding encode_iin_limit decode_iin_limit
iin_on_grid_iff iin code h = ground (arith, bit_and-low 7 code)
