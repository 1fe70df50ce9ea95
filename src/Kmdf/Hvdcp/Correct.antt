-- ===== src/Kmdf/Hvdcp/Correct.antt =====
-- The corrections of the bus after a negotiation, and the input current for each route
-- (crates/ln8000-kmdf/src/hvdcp.rs). Each opens the privileged bus, or else the resource hub.
pub mod Moves
pub mod Bounded
pub mod Nudged
use nabu_charger.Prelude.{
  ℕ, zero, suc, ◌+◌, Bool, ◌&&◌, ◌||◌, ◌==◌, Option, none, some, ℤ, pos, negsuc, sat_add, min,
  sat_sub_i32, sub_ℕ, ltb_ℤ, leb_ℤ, if◌then◌else◌, Result, ok, err,
}
use nabu_charger.Prelude.Methods.{pure, gets, branch, attempt, ◌>>=◌, ◌>>◌}
use nabu_charger.Kmdf.Hvdcp.{
  HvdcpTransport, HvdcpPhase, HvdcpError, SuperuserBus, SpbBus, Bus, superuser, usbin, Machine, Op,
}
use nabu_charger.Kmdf.Hvdcp.Regs
use nabu_charger.Kmdf.Hvdcp.Band.{target_vbus_uv, trim_target_uv, window_floor_uv}
use nabu_charger.Kmdf.Hvdcp.Access.{ask, edit, succeeds, or_zero}
use nabu_charger.Kmdf.Hvdcp.Pulses.{pulse_inc, pulse_dec}
use nabu_charger.Kmdf.Hvdcp.Setup.{ensure_icl_at_least}
use nabu_charger.Kmdf.Hvdcp.Negotiate.{enter, dropping}

-- `i32::saturating_add` of a nonnegative constant.
abbrev pub sat_add_i32 : ℤ → ℕ → ℤ
sat_add_i32 (pos a) n = pos (min (a + n) 2147483647)
sat_add_i32 (negsuc a) n = sub_ℕ n (suc a)

module _ {W : Type 0} (m : Machine W) where
  -- The loop of `trim_vin_for_pump`, with the pulses that are left and those sent.
  unfoldable pub trim_loop : Bus W → ℕ → ℕ → ℕ → ℤ → Op W ℕ
  trim_loop bus vbat_uv zero dec vin_uv = pure dec
  trim_loop bus vbat_uv (suc left) dec vin_uv =
      branch
        (ltb_ℤ (pos (target_vbus_uv vbat_uv)) vin_uv
          && ltb_ℤ (pos (window_floor_uv vbat_uv)) vin_uv)
        (do
          sent ← succeeds (pulse_dec m bus)
          branch sent
              (trim_loop bus vbat_uv left (sat_add dec 1) (sat_sub_i32 vin_uv Regs.qc3_step_uv))
              (pure dec))
        (pure dec)

  -- The loop of `boost_vin_for_pump`.
  unfoldable pub boost_loop : Bus W → ℕ → ℕ → ℕ → ℤ → Op W ℕ
  boost_loop bus vbat_uv zero inc vin_uv = pure inc
  boost_loop bus vbat_uv (suc left) inc vin_uv =
      branch (ltb_ℤ vin_uv (pos (target_vbus_uv vbat_uv)))
        (do
          sent ← succeeds (pulse_inc m bus)
          branch sent
              (let vin = sat_add_i32 vin_uv Regs.qc3_step_uv in
                branch (ltb_ℤ (pos (trim_target_uv vbat_uv)) vin) (pure (sat_add inc 1))
                  (boost_loop bus vbat_uv left (sat_add inc 1) vin))
              (pure inc))
        (pure inc)

  abbrev pub over_spb : (Bus W → Op W ℕ) → Option (SpbBus W) → Op W ℕ
  over_spb k none = pure 0
  over_spb k (some rh) = dropping m rh.drop (k (usbin rh))

  abbrev pub over_hub : (Bus W → Op W ℕ) → Option ℕ → Op W ℕ
  over_hub k none = pure 0
  over_hub k (some id) = do opened ← ask (m.open_spb id); over_spb k opened

  abbrev pub over_superuser : (Bus W → Op W ℕ) → Option ℕ → Option (SuperuserBus W) → Op W ℕ
  over_superuser k usbin_id none = over_hub k usbin_id
  over_superuser k usbin_id (some su) = do
    edit (λ s. record s { transport = HvdcpTransport.superuser })
    dropping m su.drop (k (superuser su))

  -- `k` over the bus that opens, 0 if none does.
  unfoldable pub over_either : Option ℕ → (Bus W → Op W ℕ) → Op W ℕ
  over_either usbin_id k = do opened ← ask m.open_superuser; over_superuser k usbin_id opened

  unfoldable pub trim_vin_for_pump : Option ℕ → ℤ → ℕ → Op W ℕ
  trim_vin_for_pump usbin_id vin_uv vbat_uv =
      branch (leb_ℤ vin_uv (pos (target_vbus_uv vbat_uv))) (pure 0)
        (over_either usbin_id (λ bus. trim_loop bus vbat_uv Regs.max_trim_dec 0 vin_uv))

  unfoldable pub boost_vin_for_pump : Option ℕ → ℤ → ℕ → Op W ℕ
  boost_vin_for_pump usbin_id vin_uv vbat_uv =
      branch (leb_ℤ (pos (target_vbus_uv vbat_uv)) vin_uv) (pure 0)
        (over_either usbin_id (λ bus. boost_loop bus vbat_uv Regs.max_boost_inc 0 vin_uv))

  unfoldable pub one_dec_pulse : Option ℕ → Op W ℕ
  one_dec_pulse usbin_id =
      over_either usbin_id
        (λ bus. do sent ← succeeds (pulse_dec m bus); pure (if sent then 1 else 0))

  -- Which way the bus is corrected.
  abbrev pub corrected : Option ℕ → ℤ → ℕ → Bool → Op W ℕ
  corrected usbin_id vin_uv vbat_uv dead_current =
      branch (ltb_ℤ (pos (trim_target_uv vbat_uv)) vin_uv)
        (trim_vin_for_pump usbin_id vin_uv vbat_uv)
        (branch
          (ltb_ℤ vin_uv (pos (target_vbus_uv vbat_uv))
            && (dead_current || ltb_ℤ vin_uv (pos (window_floor_uv vbat_uv))))
          (boost_vin_for_pump usbin_id vin_uv vbat_uv)
          (branch (dead_current && ltb_ℤ (pos (window_floor_uv vbat_uv)) vin_uv)
            (one_dec_pulse usbin_id) (pure 0)))

  unfoldable pub nudge_vin_into_window : Option ℕ → ℤ → ℕ → Bool → Op W ℕ
  nudge_vin_into_window usbin_id vin_uv vbat_uv dead_current =
      branch (leb_ℤ vin_uv (pos 0) || vbat_uv == 0) (pure 0) (do
        latched ← gets (λ p. p.state.force9v_latched)
        branch latched (pure 0) (corrected usbin_id vin_uv vbat_uv dead_current))

  -- The limit that the privileged bus set, or else the one that the hub sets; 0 if neither does.
  abbrev pub or_over_hub : ℕ → Option ℕ → Result ℕ HvdcpError → Op W ℕ
  or_over_hub target usbin_id (ok icl) = pure icl
  or_over_hub target usbin_id (err e) =
      over_hub (λ bus. or_zero (ensure_icl_at_least bus target)) usbin_id

  abbrev pub icl_over : ℕ → Option ℕ → Option (SuperuserBus W) → Op W ℕ
  icl_over target usbin_id none =
      over_hub (λ bus. or_zero (ensure_icl_at_least bus target)) usbin_id
  icl_over target usbin_id (some su) = do
    edit (λ s. record s { transport = HvdcpTransport.superuser })
    outcome ← dropping m su.drop (attempt (ensure_icl_at_least (superuser su) target))
    or_over_hub target usbin_id outcome

  unfoldable pub raise_icl_to : ℕ → Option ℕ → Op W ℕ
  raise_icl_to target usbin_id = do opened ← ask m.open_superuser; icl_over target usbin_id opened

  abbrev pub raise_icl_for_pump : Option ℕ → Op W ℕ
  raise_icl_for_pump usbin_id = raise_icl_to Regs.icl_raw_pump_3a usbin_id

  abbrev pub raise_icl_for_5v_bypass : Option ℕ → Op W ℕ
  raise_icl_for_5v_bypass usbin_id = do
    enter HvdcpPhase.five_v_bypass
    raise_icl_to Regs.icl_raw_5v_2p7a usbin_id
