-- ===== src/Kmdf/Hvdcp/Settled.antt =====
-- What a negotiation over one bus leaves of its own state.
pub mod Whole
use nabu_charger.Prelude.{
  ℕ, zero, suc, ◌≤◌, ◌≡◌, refl, inl, inr, Bool, true, false, Option, none, some, ltb, arith, ℤ, pos,
}
use nabu_charger.Prelude.Methods.Keeps.{Keeps, bind-Keeps, branch-Keeps, pure-Keeps, throw-Keeps}
use nabu_charger.Prelude.Methods.Ends.{
  Ends, bind-Ends, rescue-Ends, branch-Ends, pure-Ends, throw-Ends, kept-Ends, weaken-Ends,
}
use nabu_charger.Prelude.Methods.Sure.{
  Sure, sure_rules, Sure-Keeps, sure-Ends, bind-Sure, branch-Sure, pure-Sure, gets-Sure,
}
use nabu_charger.Ln8000.Hvdcp.{ApsdElevate, force9v_rise_uv}
use nabu_charger.Kmdf.Hvdcp.{HvdcpTransport, HvdcpPhase, HvdcpError, HvdcpState, Bus, Machine, Op}
use nabu_charger.Kmdf.Hvdcp.Access.{edit, read_reg, ignoring, or_zero}
use nabu_charger.Kmdf.Hvdcp.Pulses.{pulse_inc, latch_9v, force_9v, safe_force_5v}
use nabu_charger.Kmdf.Hvdcp.Setup.{enable_hvdcp, ensure_icl_at_least}
use nabu_charger.Kmdf.Hvdcp.Waits.{poll_until, sample_apsd, or_timeout, wait_apsd_done}
use nabu_charger.Kmdf.Hvdcp.Negotiate.{
  Before, enter, or_failed, or_dropped, rerun_apsd, raise_loop, elevate_qc3, request_9v,
  pulse_raise, settled_at, retreat_to_pulses, elevate_dcp, elevated, prepare, registers_before,
  identify, negotiate_on_bus,
}
use nabu_charger.Kmdf.Hvdcp.Steady.{
  On, ask-Sure, act-Sure, act-Keeps, edit-Sure, edit-Keeps, ignoring-Sure, succeeds-Sure,
  or_zero-Sure, read_reg-Keeps, write_reg-Keeps,
}
use nabu_charger.Kmdf.Hvdcp.Steady.Calls
use nabu_charger.Kmdf.Hvdcp.Steady.Pulsed.{Counts, pulse_inc_gap-Keeps, attempt_qc35-Sure}

-- The 9 V request is not latched, and the pulses counted are no more than the 23 allowed.
abbrev pub Free : HvdcpTransport → HvdcpState → Type 0
Free t s = (s.transport ≡ t) × (s.force9v_latched ≡ false) × (s.pulse_cnt ≤ 23)

-- A latched request counts as 20 pulses, which stand for 9 V.
abbrev pub Held : HvdcpTransport → HvdcpState → Type 0
Held t s = (s.transport ≡ t) × (s.force9v_latched ≡ true → s.pulse_cnt ≡ 20) × (s.pulse_cnt ≤ 23)

abbrev pub Ready : HvdcpTransport → HvdcpState → Type 0
Ready t s = (s.phase ≡ HvdcpPhase.done) × Held t s

abbrev pub Failed : HvdcpTransport → HvdcpState → Type 0
Failed t s = (s.phase ≡ HvdcpPhase.failed) × Free t s

freed : (t : HvdcpTransport) (s : HvdcpState) → Free t s → Held t s
freed t s (e, l, n) = (e, (λ k. absurd (cc)), n)

Free-Counts : (t : HvdcpTransport) → Counts (Free t)
Free-Counts t = record {
  up = λ s (e, l, n). (e, l, (omega arith));
  down = λ s (e, l, n). (e, l, (omega arith));
}

module _ {W : Type 0} where
  pub edit-Ends :
      {F G : HvdcpState → Type 0} {X : HvdcpError → _ → Type 0} (f : HvdcpState → HvdcpState)
      → ((s : HvdcpState) → F s → G (f s))
      → Ends (On {W = W} F) (edit f) (λ u. On G) X
  unfolding edit
  edit-Ends f h = record { ends = λ p k. record { on = h p.state k.on } }

  pub eased-Ends :
      {A : Type 0} {F G : HvdcpState → Type 0} {P : _ → Type 0} {X : HvdcpError → _ → Type 0}
      {m : Op W A}
      → ((s : HvdcpState) → F s → G s)
      → Ends P m (λ a. On {W = W} F) X
      → Ends P m (λ a. On {W = W} G) X
  eased-Ends h k = weaken-Ends (λ a p q. record { on = h p.state q.on }) (λ e p q. q) k

  module _ (t : HvdcpTransport) where
    pub or_failed-Ends :
        {A : Type 0} {Q : A → _ → Type 0} {m : Op W A}
        → Ends (On (Free t)) m Q (λ e. On (Free t))
        → Ends (On (Free t)) (or_failed m) Q (λ e. On (Failed t))
    unfolding or_failed
    or_failed-Ends k =
        rescue-Ends (λ e. On (Free t)) _ _ k
          (λ e.
            bind-Ends (λ u. On (Failed t)) _ _ (edit-Ends _ (λ s h. (refl, h)))
              (λ u. throw-Ends e (λ p h. h)))

    pub kept_or_failed :
        {A : Type 0} {m : Op W A}
        → Keeps (On (Free t)) m
        → Ends (On (Free t)) (or_failed m) (λ a. On (Free t)) (λ e. On (Failed t))
    kept_or_failed k = or_failed-Ends (kept-Ends _ k (λ a p h. h) (λ e p h. h))

module _ {W : Type 0} (m : Machine W) (bus : Bus W) (t : HvdcpTransport) where
  enter-Ends :
      {X : HvdcpError → _ → Type 0} (ph : HvdcpPhase)
      → Ends (On {W = W} (Free t)) (enter ph) (λ u. On (Free t)) X
  enter-Ends ph = edit-Ends _ (λ s h. h)

  safe-Failed : Sure (On (Failed t)) (safe_force_5v m bus)
  unfolding safe_force_5v
  safe-Failed =
      bind-Sure _ _ (ignoring-Sure _ (write_reg-Keeps bus _ _))
        (λ u. edit-Sure _ (λ s (ph, (e, l, n)). (ph, (e, refl, n))))

  safe-Free : Sure (On (Free t)) (safe_force_5v m bus)
  unfolding safe_force_5v
  safe-Free =
      bind-Sure _ _ (ignoring-Sure _ (write_reg-Keeps bus _ _))
        (λ u. edit-Sure _ (λ s (e, l, n). (e, refl, n)))

  or_dropped-Ends :
      {A : Type 0} {Q : A → _ → Type 0} {k : Op W A}
      → Ends (On (Free t)) k Q (λ e. On (Free t))
      → Ends (On (Free t)) (or_dropped m bus k) Q (λ e. On (Failed t))
  unfolding or_dropped
  or_dropped-Ends h =
      rescue-Ends (λ e. On (Free t)) _ _ h
        (λ e.
          bind-Ends (λ u. On (Failed t)) _ _ (edit-Ends _ (λ s d. (refl, d)))
            (λ u.
              bind-Ends (λ u. On (Failed t)) _ _ (sure-Ends safe-Failed)
                (λ u. throw-Ends e (λ p d. d))))

  force_9v-Ends : Ends (On (Free t)) (force_9v m bus) (λ u. On (Held t)) (λ e. On (Free t))
  unfolding force_9v
  force_9v-Ends =
      bind-Ends (λ b. On (Free t)) _ _ (sure-Ends (or_zero-Sure _ (read_reg-Keeps bus _)))
        (λ b.
          bind-Ends (λ u. On (Free t)) _ _
            (kept-Ends _ (write_reg-Keeps bus _ _) (λ a p h. h) (λ e p h. h))
            (λ u.
              bind-Ends (λ u. On (Held t)) _ _
                (edit-Ends latch_9v (λ s (e, l, n). (e, (λ k. refl), (omega arith))))
                (λ u. sure-Ends (act-Sure _))))

  pulse_inc-Keeps : Keeps (On (Free t)) (pulse_inc m bus)
  pulse_inc-Keeps = pulse_inc_gap-Keeps m bus (Free-Counts t) _

  raise_loop-Ends :
      (vbat_uv left : ℕ) (vin : ℤ)
      → Ends
          (On (Free t))
          (raise_loop m bus vbat_uv left vin)
          (λ u. On (Free t))
          (λ e. On (Failed t))
  unfolding raise_loop
  raise_loop-Ends vbat_uv zero vin = sure-Ends (pure-Sure tt)
  raise_loop-Ends vbat_uv (suc left) vin =
      bind-Ends (λ n. On (Free t)) _ _ (sure-Ends (gets-Sure _))
        (λ n.
          branch-Ends _ _ _ (λ c. sure-Ends (pure-Sure tt))
            (λ c.
              bind-Ends (λ u. On (Free t)) _ _
                (or_dropped-Ends (kept-Ends _ pulse_inc-Keeps (λ a p h. h) (λ e p h. h)))
                (λ u.
                  bind-Ends (λ v. On (Free t)) _ _ (sure-Ends (ask-Sure _))
                    (λ v.
                      branch-Ends _ _ _ (λ c. sure-Ends (pure-Sure tt))
                        (λ c. raise_loop-Ends vbat_uv left v)))))

  elevate_qc3-Ends :
      (vbat_uv : ℕ)
      → Ends (On (Free t)) (elevate_qc3 m bus vbat_uv) (λ u. On (Held t)) (λ e. On (Failed t))
  unfolding elevate_qc3
  elevate_qc3-Ends vbat_uv =
      bind-Ends (λ u. On (Free t)) _ _ (enter-Ends _)
        (λ u.
          bind-Ends (λ w. On (Free t)) _ _ (sure-Ends (attempt_qc35-Sure m bus (Free-Counts t)))
            (λ w.
              bind-Ends (λ u. On (Free t)) _ _ (enter-Ends _)
                (λ u.
                  bind-Ends (λ v. On (Free t)) _ _ (sure-Ends (ask-Sure _))
                    (λ v. eased-Ends (freed t) (raise_loop-Ends vbat_uv _ v)))))

  voted-Sure :
      {F : HvdcpState → Type 0} (icl : ℕ) → Sure (On F) (ignoring (ensure_icl_at_least bus icl))
  voted-Sure icl = ignoring-Sure _ (Calls.ensure_icl_at_least-Keeps bus icl)

  request_9v-Ends : Ends (On (Free t)) (request_9v m bus) (λ u. On (Held t)) (λ e. On (Failed t))
  unfolding request_9v
  request_9v-Ends =
      bind-Ends (λ u. On (Free t)) _ _ (enter-Ends _)
        (λ u.
          bind-Ends (λ u. On (Held t)) _ _ (or_dropped-Ends force_9v-Ends)
            (λ u. sure-Ends (voted-Sure _)))

  pulse_raise-Sure :
      (vbat_uv left : ℕ) (vin : ℤ) → Sure (On (Free t)) (pulse_raise m bus vbat_uv left vin)
  unfolding pulse_raise
  pulse_raise-Sure vbat_uv zero vin = pure-Sure vin
  pulse_raise-Sure vbat_uv (suc left) vin = bind-Sure _ _ (gets-Sure _) (λ n.
      branch-Sure _ _ _
        (bind-Sure _ _ (succeeds-Sure _ pulse_inc-Keeps) (λ sent.
          branch-Sure sent _ _ (bind-Sure _ _ (ask-Sure _) (λ v. pulse_raise-Sure vbat_uv left v))
            (pure-Sure vin)))
        (pure-Sure vin))

  back_at_5v :
      {X : HvdcpError → _ → Type 0} → Ends (On (Held t)) (safe_force_5v m bus) (λ u. On (Free t)) X
  unfolding safe_force_5v
  back_at_5v =
      bind-Ends (λ u. On (Held t)) _ _ (sure-Ends (ignoring-Sure _ (write_reg-Keeps bus _ _)))
        (λ u. edit-Ends _ (λ s (e, l, n). (e, refl, n)))

  settled_at-Sure : (vin : ℤ) → Sure (On (Free t)) (settled_at m bus vin)
  settled_at-Sure vin =
      branch-Sure _ _ _ (bind-Sure _ _ safe-Free (λ u. voted-Sure _)) (voted-Sure _)

  retreat-Ends :
      {X : HvdcpError → _ → Type 0} (vbat_uv : ℕ) (vin : ℤ)
      → Ends (On (Held t)) (retreat_to_pulses m bus vbat_uv vin) (λ u. On (Held t)) X
  unfolding retreat_to_pulses
  retreat-Ends vbat_uv vin =
      bind-Ends (λ u. On (Free t)) _ _ back_at_5v
        (λ u.
          bind-Ends (λ u. On (Free t)) _ _ (edit-Ends _ (λ s (e, l, n). (e, l, (omega arith))))
            (λ u.
              bind-Ends (λ v. On (Free t)) _ _ (sure-Ends (pulse_raise-Sure vbat_uv _ vin))
                (λ v. eased-Ends (freed t) (sure-Ends (settled_at-Sure v)))))

  elevate_dcp-Ends :
      (vbat_uv : ℕ)
      → Ends (On (Free t)) (elevate_dcp m bus vbat_uv) (λ u. On (Held t)) (λ e. On (Failed t))
  unfolding elevate_dcp
  elevate_dcp-Ends vbat_uv =
      bind-Ends (λ u. On (Held t)) _ _ request_9v-Ends
        (λ u.
          bind-Ends (λ w. On (Held t)) _ _ (sure-Ends (Calls.wait_rise-Sure m))
            (λ w.
              bind-Ends (λ v. On (Held t)) _ _ (sure-Ends (ask-Sure _))
                (λ v.
                  bind-Ends (λ h. On (Held t)) _ _ (sure-Ends (Calls.hold_loop-Sure m _ _ v))
                    (λ h.
                      branch-Ends _ _ _ (λ c. retreat-Ends vbat_uv _)
                        (λ c. sure-Ends (pure-Sure tt))))))

  elevated-Ends :
      (vbat_uv result : ℕ) (path : ApsdElevate)
      → Ends
          (On (Free t))
          (elevated m bus vbat_uv result path)
          (λ u. On (Held t))
          (λ e. On (Failed t))
  elevated-Ends vbat_uv result ApsdElevate.qc3_pulse = elevate_qc3-Ends vbat_uv
  elevated-Ends vbat_uv result ApsdElevate.force9v =
      branch-Ends _ _ _ (λ c. request_9v-Ends) (λ c. elevate_dcp-Ends vbat_uv)
  elevated-Ends vbat_uv result ApsdElevate.reject =
      bind-Ends (λ u. On (Failed t)) _ _ (edit-Ends _ (λ s d. (refl, d)))
        (λ u. throw-Ends _ (λ p d. d))

  prepare-Ends : Ends (On (Free t)) (prepare m bus) (λ u. On (Free t)) (λ e. On (Failed t))
  unfolding prepare
  prepare-Ends =
      bind-Ends (λ u. On (Free t)) _ _ (edit-Ends _ (λ s (e, l, n). (e, l, (omega arith))))
        (λ u.
          bind-Ends (λ u. On (Free t)) _ _ (sure-Ends (Calls.clear_usbin_latched-Sure bus))
            (λ u.
              bind-Ends (λ u. On (Free t)) _ _ (sure-Ends (Calls.clear_usbin_suspend-Sure bus))
                (λ u.
                  bind-Ends (λ c. On (Free t)) _ _
                    (kept_or_failed t (Calls.clear_apsd_cc_gate-Keeps bus))
                    (λ c.
                      bind-Ends (λ u. On (Free t)) _ _
                        (sure-Ends (ignoring-Sure _ (Calls.ensure_icl_floor_500ma-Keeps bus)))
                        (λ u.
                          sure-Ends
                            (ignoring-Sure _ (Calls.ensure_hvdcp_voltage_gates-Keeps bus)))))))

  zeroed-Sure : (addr : ℕ) → Sure (On (Free t)) (or_zero (read_reg bus addr))
  zeroed-Sure addr = or_zero-Sure _ (read_reg-Keeps bus addr)

  registers_before-Sure : Sure (On (Free t)) (registers_before m bus)
  unfolding registers_before
  registers_before-Sure =
      bind-Sure _ _ (zeroed-Sure _)
        (λ a. bind-Sure _ _ (zeroed-Sure _) (λ b. bind-Sure _ _ (zeroed-Sure _) (λ c. pure-Sure _)))

  or_timeout-Keeps : (o : Option (Unit {0})) → Keeps (On (Free t)) (or_timeout m o)
  or_timeout-Keeps none = throw-Keeps _
  or_timeout-Keeps (some u) = pure-Keeps tt

  sample_apsd-Keeps : Keeps (On (Free t)) (sample_apsd m bus)
  sample_apsd-Keeps = bind-Keeps _ _ (read_reg-Keeps bus _) (λ status.
      bind-Keeps _ _ (edit-Keeps _ (λ s h. h)) (λ u. branch-Keeps _ _ _ (pure-Keeps none) (
        bind-Keeps _ _ (read_reg-Keeps bus _)
          (λ result. bind-Keeps _ _ (edit-Keeps _ (λ s h. h)) (λ u. pure-Keeps (some tt))))))

  wait_apsd_done-Keeps : Keeps (On (Free t)) (wait_apsd_done m bus)
  unfolding wait_apsd_done
  wait_apsd_done-Keeps =
      bind-Keeps _ _ (Calls.poll_until-Keeps m _ _ _ _ sample_apsd-Keeps (pure-Keeps none) _ _)
        or_timeout-Keeps

  enable_hvdcp-Keeps : Keeps (On (Free t)) (enable_hvdcp bus)
  unfolding enable_hvdcp
  enable_hvdcp-Keeps =
      bind-Keeps _ _ (read_reg-Keeps bus _)
        (λ o. bind-Keeps _ _ (write_reg-Keeps bus _ _) (λ u. edit-Keeps _ (λ s h. h)))

  rerun_apsd-Ends :
      (b : Before) → Ends (On (Free t)) (rerun_apsd m bus b) (λ u. On (Free t)) (λ e. On (Failed t))
  unfolding rerun_apsd
  rerun_apsd-Ends b =
      bind-Ends (λ u. On (Free t)) _ _ (enter-Ends _)
        (λ u.
          bind-Ends (λ u. On (Free t)) _ _ (kept_or_failed t (Calls.apsd_rerun-Keeps bus))
            (λ u.
              bind-Ends (λ u. On (Free t)) _ _ (enter-Ends _)
                (λ u.
                  bind-Ends (λ u. On (Free t)) _ _ (kept_or_failed t wait_apsd_done-Keeps)
                    (λ u.
                      bind-Ends (λ r. On (Free t)) _ _ (sure-Ends (gets-Sure _))
                        (λ r.
                          branch-Ends _ _ _ (λ c. edit-Ends _ (λ s h. h))
                            (λ c. sure-Ends (pure-Sure tt)))))))

  identify-Ends :
      (b : Before) → Ends (On (Free t)) (identify m bus b) (λ u. On (Free t)) (λ e. On (Failed t))
  unfolding identify
  identify-Ends b =
      bind-Ends (λ u. On (Free t)) _ _ (enter-Ends _)
        (λ u.
          bind-Ends (λ u. On (Free t)) _ _ (kept_or_failed t enable_hvdcp-Keeps)
            (λ u.
              bind-Ends (λ u. On (Free t)) _ _ (sure-Ends (act-Sure _))
                (λ u.
                  bind-Ends (λ u. On (Free t)) _ _
                    (branch-Ends _ _ _ (λ c. edit-Ends _ (λ s h. h)) (λ c. rerun_apsd-Ends b))
                    (λ u. edit-Ends _ (λ s h. h)))))

  pub negotiate_on_bus-Ends :
      (vbat_uv : ℕ)
      → Ends (On (Free t)) (negotiate_on_bus m bus vbat_uv) (λ u. On (Ready t)) (λ e. On (Failed t))
  unfolding negotiate_on_bus
  negotiate_on_bus-Ends vbat_uv =
      bind-Ends (λ u. On (Free t)) _ _ prepare-Ends
        (λ u.
          bind-Ends (λ b. On (Free t)) _ _ (sure-Ends registers_before-Sure)
            (λ b.
              bind-Ends (λ u. On (Free t)) _ _ (identify-Ends b)
                (λ u.
                  bind-Ends (λ r. On (Free t)) _ _ (sure-Ends (gets-Sure _))
                    (λ r.
                      bind-Ends (λ u. On (Held t)) _ _ (elevated-Ends vbat_uv r _)
                        (λ u.
                          bind-Ends (λ u. On (Held t)) _ _
                            (sure-Ends (ignoring-Sure _ (Calls.sample_qc_status-Keeps bus m)))
                            (λ u. edit-Ends _ (λ s h. (refl, h))))))))
