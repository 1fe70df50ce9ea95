-- ===== src/Smb/Charger/Apply.antt =====
-- Applying the current policy, and polling the state after detection (crates/core/src/driver.rs).
use nabu_charger.Prelude.{
  ℕ, Bool, false, Option, none, some, ◌==◌, if◌then◌else◌, ltb, bit_and, bit_or, Result, ok, err,
}
use nabu_charger.Prelude.Methods.{pure, modify, gets, branch, lift, ◌>>=◌, ◌>>◌}
use nabu_charger.Smb.Regs
use nabu_charger.Smb.Error.{ChargerError, detection_not_complete}
use nabu_charger.Smb.Adapter.{AdapterType}
use nabu_charger.Smb.Apsd.{adapter_decode, adapter_label, adapter_eq}
use nabu_charger.Smb.Policy.{Qc2Voltage, qc2_raw, qc2_label, ChargePolicy, policy_for}
use nabu_charger.Smb.Icl.{quantize_down, icl_encode}
use nabu_charger.Smb.Journal.{info, warn, detection, policy}
use nabu_charger.Smb.Platform.{ChargerTransport, Clock}
use nabu_charger.Smb.Charger.{
  Charger, ChargerConfig, State, Op, require_open, next_request, log, transition, fail,
}
use nabu_charger.Smb.Charger.Registers.{read_reg, write_reg, update_reg}
use nabu_charger.Smb.Charger.Session.{or_fail}

pub data Monitor : Type 0 where
  unchanged changed : AdapterType → Monitor
  detached : Monitor

pub record ChargePlan : Type 0 where
  pub adapter : AdapterType
  pub policy : ChargePolicy
  pub icl_raw : ℕ
  pub applied_icl_ua : ℕ

-- `previous == Some(adapter)`
abbrev pub is_same : Option AdapterType → AdapterType → Bool
is_same none adapter = false
is_same (some previous) adapter = adapter_eq previous adapter

abbrev pub option_map : {A B : Type 0} → (A → B) → Option A → Option B
option_map f none = none
option_map f (some a) = some (f a)

module _ {W : Type 0} (io : ChargerTransport W) (clock : Clock W) where
  -- `policy.icl_ua` under the configured maximum, on the grid.
  abbrev pub target_of : ChargerConfig → ChargePolicy → ℕ
  target_of config chosen =
      quantize_down config.icl
        (if ltb config.max_icl_ua chosen.icl_ua then config.max_icl_ua else chosen.icl_ua)

  abbrev pub write_qc2 : ℕ → Option Qc2Voltage → Op W Unit
  write_qc2 request none = pure tt
  write_qc2 request (some voltage) = or_fail clock request "apply.write_qc2" (
      update_reg io clock Regs.hvdcp_pulse_count_max Regs.qc2_voltage_mask (qc2_raw voltage)
        request)

  abbrev pub override_bits : ℕ
  override_bits = bit_or Regs.icl_override Regs.icl_override_after_apsd

  -- The register writes of `apply`, for the code of the limit.
  unfoldable pub write_policy : ℕ → ℕ → ChargePolicy → Op W Unit
  write_policy request icl_raw chosen = do
    or_fail clock request "apply.write_icl"
        (write_reg io clock Regs.usbin_current_limit_cfg icl_raw request)
    or_fail clock request "apply.write_override"
        (update_reg io clock Regs.cmd_icl_override override_bits override_bits request)
    write_qc2 request chosen.qc2_voltage

  unfoldable pub apply : AdapterType → Op W ChargePlan
  apply adapter = do
    require_open
    request ← next_request
    config ← gets (λ p. p.config)
    let chosen = policy_for adapter config.qc35
    let target_ua = target_of config chosen
    icl_raw ← or_fail clock request "apply.encode_icl" (lift (icl_encode config.icl target_ua))
    write_policy request icl_raw chosen
    modify (λ p. record p { adapter = some adapter })
    transition clock State.ready
    log clock request info (
        policy (adapter_label adapter) target_ua icl_raw (option_map qc2_label chosen.qc2_voltage)
          chosen.pump_eligible)
    pure (record {
      adapter = adapter;
      policy = chosen;
      icl_raw = icl_raw;
      applied_icl_ua = target_ua;
    })

  abbrev pub forget_adapter : Charger W → Charger W
  forget_adapter p = record p { adapter = none }

  abbrev pub lost : Op W Monitor
  lost = do modify forget_adapter; pure detached

  abbrev pub replaced : ℕ → ℕ → ℕ → AdapterType → Bool → Op W Monitor
  replaced request status result adapter same = branch same (pure (unchanged adapter)) (do
    log clock request warn (detection (adapter_label adapter) status result 0)
    pure (changed adapter))

  unfoldable pub monitored : ℕ → ℕ → ℕ → Result AdapterType ChargerError → Op W Monitor
  monitored request status result (ok adapter) = do
    previous ← gets (λ p. p.adapter)
    modify (λ p. record p { adapter = some adapter })
    replaced request status result adapter (is_same previous adapter)
  monitored request status result (err detection_not_complete) = lost
  monitored request status result (err e) = fail clock request "monitor.decode" e

  abbrev pub monitor_attached : ℕ → ℕ → Op W Monitor
  monitor_attached request status = do
    result ←
        or_fail clock request "monitor.read_result"
          (read_reg io clock Regs.apsd_result_status request)
    config ← gets (λ p. p.config)
    monitored request status result (adapter_decode status result config.qc35)

  unfoldable pub monitor : Op W Monitor
  monitor = do
    require_open
    request ← next_request
    status ←
        or_fail clock request "monitor.read_status" (read_reg io clock Regs.apsd_status request)
    branch (bit_and status Regs.apsd_dtc_status_done == 0) lost (monitor_attached request status)
