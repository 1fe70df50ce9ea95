-- ===== src/Tests/Adapters.antt =====
-- The detection registers of a Quick Charge 3.0 adapter, and the code of 3.05 A.
use nabu_charger.Prelude.{◌≡◌, refl, false, ok}
use nabu_charger.Smb.Adapter.{AdapterType, supported}
use nabu_charger.Smb.Apsd.{adapter_decode, from_pattern}
use nabu_charger.Smb.Icl.{default_grid, icl_encode, quantize_down, icl_decode}

qc3_decodes : adapter_decode 0x03 0x48 (supported false) ≡ ok AdapterType.hvdcp3
unfolding adapter_decode from_pattern
qc3_decodes = refl

between_steps_encodes : icl_encode default_grid 3_050_000 ≡ ok 29
unfolding icl_encode
between_steps_encodes = refl

between_steps_quantized : quantize_down default_grid 3_050_000 ≡ 3_000_000
unfolding quantize_down icl_decode
between_steps_quantized = refl
