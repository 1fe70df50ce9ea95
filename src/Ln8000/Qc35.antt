-- ===== src/Ln8000/Qc35.antt =====
-- The QC3.5 authentication policy (crates/ln8000/src/qc35_auth.rs).
pub mod Outcome
use nabu_charger.Prelude.{
  ℕ, Bool, ◌&&◌, Option, none, some, List, [], ◌∷◌, leb, if◌then◌else◌, ℤ, pos, ltb_ℤ, leb_ℤ,
}

abbrev pub qc35_prep_max_inc : ℕ
qc35_prep_max_inc = 8

abbrev pub qc35_detect_lo_uv : ℕ
qc35_detect_lo_uv = 5_500_000

abbrev pub qc35_detect_hi_uv : ℕ
qc35_detect_hi_uv = 6_400_000

abbrev pub qc35_cap_lo_uv : ℕ
qc35_cap_lo_uv = 6_650_000

abbrev pub qc35_cap_hi_uv : ℕ
qc35_cap_hi_uv = 9_800_000

abbrev pub qc35_18w_hi_uv : ℕ
qc35_18w_hi_uv = 7_350_000

abbrev pub qc35_27w_lo_uv : ℕ
qc35_27w_lo_uv = 7_600_000

abbrev pub qc35_27w_hi_uv : ℕ
qc35_27w_hi_uv = 8_400_000

abbrev pub qc35_40w_lo_uv : ℕ
qc35_40w_lo_uv = 8_550_000

abbrev pub icl_raw_qc35_2a : ℕ
icl_raw_qc35_2a = 40

abbrev pub icl_raw_qc35_40w : ℕ
icl_raw_qc35_40w = 60

pub data Qc35AuthPulse : Type 0 where
  inc dec : Qc35AuthPulse

abbrev pub qc35_src_cap_pulses : List Qc35AuthPulse
qc35_src_cap_pulses =
    Qc35AuthPulse.inc ∷ Qc35AuthPulse.dec ∷ Qc35AuthPulse.inc ∷ Qc35AuthPulse.dec
    ∷ Qc35AuthPulse.inc ∷ Qc35AuthPulse.dec ∷ []

abbrev pub qc35_confirm_pulses : List Qc35AuthPulse
qc35_confirm_pulses =
    Qc35AuthPulse.inc ∷ Qc35AuthPulse.inc ∷ Qc35AuthPulse.dec ∷ Qc35AuthPulse.dec ∷ []

pub data Qc35AuthGate : Type 0 where
  attempt skip_vin_too_high skip_vin_invalid : Qc35AuthGate

pub data Qc35AuthResult : Type 0 where
  authenticated : ℕ → Qc35AuthResult
  fallback_qc3 : Qc35AuthResult

unfoldable pub decide_qc35_auth_attempt : ℤ → Qc35AuthGate
decide_qc35_auth_attempt vin_uv =
    if leb_ℤ vin_uv (pos 0)
    then Qc35AuthGate.skip_vin_invalid
    else if leb_ℤ (pos qc35_detect_hi_uv) vin_uv
    then Qc35AuthGate.skip_vin_too_high
    else Qc35AuthGate.attempt

unfoldable pub qc35_detect_window : ℤ → Bool
qc35_detect_window vin_uv =
    ltb_ℤ (pos qc35_detect_lo_uv) vin_uv && ltb_ℤ vin_uv (pos qc35_detect_hi_uv)

unfoldable pub qc35_cap_window : ℤ → Bool
qc35_cap_window vin_uv = leb_ℤ (pos qc35_cap_lo_uv) vin_uv && leb_ℤ vin_uv (pos qc35_cap_hi_uv)

unfoldable pub qc35_power_limit_w : ℤ → Option ℕ
qc35_power_limit_w vin_uv =
    if leb_ℤ (pos qc35_cap_lo_uv) vin_uv && leb_ℤ vin_uv (pos qc35_18w_hi_uv)
    then some 18
    else if leb_ℤ (pos qc35_27w_lo_uv) vin_uv && leb_ℤ vin_uv (pos qc35_27w_hi_uv)
    then some 27
    else if leb_ℤ (pos qc35_40w_lo_uv) vin_uv && leb_ℤ vin_uv (pos qc35_cap_hi_uv)
    then some 40
    else none

unfoldable pub qc35_icl_raw : ℕ → ℕ
qc35_icl_raw power_w = if leb 40 power_w then icl_raw_qc35_40w else icl_raw_qc35_2a

-- The last `match` of the outcome, on the class of the answering voltage.
classified : Option ℕ → Qc35AuthResult
classified (some power_w) = Qc35AuthResult.authenticated power_w
classified none = Qc35AuthResult.fallback_qc3

-- The steps after the gate: the detect window, the answer and its class.
answered : Option ℤ → Option ℤ → Qc35AuthResult
answered none src_cap_vin = Qc35AuthResult.fallback_qc3
answered (some det) none = Qc35AuthResult.fallback_qc3
answered (some det) (some cap) =
    if qc35_detect_window det && qc35_cap_window cap
    then classified (qc35_power_limit_w cap)
    else Qc35AuthResult.fallback_qc3

gated : Qc35AuthGate → Option ℤ → Option ℤ → Qc35AuthResult
unfolding answered classified
gated Qc35AuthGate.attempt detect_vin src_cap_vin = answered detect_vin src_cap_vin
gated Qc35AuthGate.skip_vin_too_high detect_vin src_cap_vin = Qc35AuthResult.fallback_qc3
gated Qc35AuthGate.skip_vin_invalid detect_vin src_cap_vin = Qc35AuthResult.fallback_qc3

pub qc35_authenticate_outcome : ℤ → Option ℤ → Option ℤ → Qc35AuthResult
unfolding gated
qc35_authenticate_outcome vin_before_auth detect_vin src_cap_vin =
    gated (decide_qc35_auth_attempt vin_before_auth) detect_vin src_cap_vin
