-- ===== src/Ln8000/Codes.antt =====
-- The register codes of the current limit, the float voltage, the input overvoltage threshold and
-- the NTC alarm (crates/ln8000/src/encoding.rs).
pub mod RoundTrip
use nabu_charger.Prelude.{
  ℕ, ◌-◌, ◌/◌, bit_and, ltb, leb, if◌then◌else◌, sat_add, sat_mul, u8_max, Result, ok, err,
}
use nabu_charger.Ln8000.Regs
use nabu_charger.Ln8000.Error.{PumpError, out_of_range}

abbrev pub iin_code_max : ℕ
iin_code_max = 0x7f

-- `u8::try_from(value).unwrap_or(other)`
abbrev pub u8_or : ℕ → ℕ → ℕ
u8_or value other = if leb value u8_max then value else other

unfoldable pub encode_iin_limit : ℕ → Result ℕ PumpError
encode_iin_limit iin_ua =
    if ltb iin_ua Regs.iin_min_ua
    then err (out_of_range "iin_limit_ua" iin_ua)
    else let code = iin_ua / Regs.iin_step_ua in
      ok (if ltb iin_code_max code then iin_code_max else u8_or code iin_code_max)

unfoldable pub decode_iin_limit : ℕ → ℕ
decode_iin_limit raw =
    let value = sat_mul (bit_and raw iin_code_max) Regs.iin_step_ua in
    if ltb value Regs.iin_min_ua then Regs.iin_min_ua else value

unfoldable pub encode_vbat_float : ℕ → ℕ
encode_vbat_float vbat_uv =
    if leb vbat_uv Regs.vbat_float_min_uv
    then 0x00
    else if leb Regs.vbat_float_max_uv vbat_uv
    then 0xff
    else u8_or ((vbat_uv - Regs.vbat_float_min_uv) / Regs.vbat_float_step_uv) 0xff

pub decode_vbat_float : ℕ → ℕ
decode_vbat_float raw = sat_add Regs.vbat_float_min_uv (sat_mul raw Regs.vbat_float_step_uv)

unfoldable pub encode_vac_ovp : ℕ → ℕ
encode_vac_ovp ovp_uv =
    if leb ovp_uv 6_500_000
    then Regs.vac_ovp_6v5
    else if leb ovp_uv 11_000_000
    then Regs.vac_ovp_11v
    else if leb ovp_uv 12_000_000
    then Regs.vac_ovp_12v
    else Regs.vac_ovp_13v

-- The low byte, and the two bits above it: `(code & 0xFF, (code >> 8) & 0x03)`.
unfoldable pub encode_ntc_alarm : ℕ → ℕ × ℕ
encode_ntc_alarm code = (bit_and code 0xff, bit_and (code / 256) 0x03)
