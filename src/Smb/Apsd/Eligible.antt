-- ===== src/Smb/Apsd/Eligible.antt =====
-- The detection registers and the policy together.
use nabu_charger.Prelude.{ℕ, ◌≡◌, ◌↔◌, true, bit_and, ok, arith}
use nabu_charger.Smb.Adapter.{AdapterType, Qc35Support}
use nabu_charger.Smb.Apsd.{adapter_decode, from_pattern}
use nabu_charger.Smb.Policy.{policy_for}

-- When the detection registers decode to an adapter, its policy lets the charge pump attach exactly
-- when the low seven bits of the result are the HVDCP3 pattern, whatever is known of the
-- authentication and whether or not the Quick Charge bit is set.
pub adapter_decode-eligible_iff :
    (apsd_status apsd_result : ℕ) (qc35 : Qc35Support) (adapter : AdapterType)
    → adapter_decode apsd_status apsd_result qc35 ≡ ok adapter
    → ((policy_for adapter qc35).pump_eligible ≡ true) ↔ (bit_and apsd_result 0x7f ≡ 0x48)
unfolding adapter_decode from_pattern
adapter_decode-eligible_iff apsd_status apsd_result qc35 adapter h = ground arith
