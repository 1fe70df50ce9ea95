-- ===== src/Smb/Charger/View/Applies.antt =====
-- What applying the policy and polling the state do to the session.
use Prim.Native.String.{String}
use mathlib.Core.Path.{subst}
use nabu_charger.Prelude.{
  ℕ, ◌≤◌, ◌≡◌, refl, sym, ap, ◌∙◌, Bool, true, false, Option, none, some, Result, ok, err, arith,
  min, max, ltb, if◌then◌else◌,
}
use nabu_charger.Prelude.Methods.{lift}
use nabu_charger.Prelude.Methods.Ends.{
  Done, Ends, bind-Ends, branch-Ends, weaken-Ends, known-Ends, given-Ends, rescue-Ends, pure-Ends,
  modify-Ends,
}
use nabu_charger.Prelude.Methods.Keeps.{Keeps}
use nabu_charger.Smb.Error.{ChargerError, detection_not_complete}
use nabu_charger.Smb.Adapter.{AdapterType}
use nabu_charger.Smb.Policy.{Qc2Voltage, ChargePolicy, policy_for}
use nabu_charger.Smb.Icl.{icl_encode}
use nabu_charger.Smb.Icl.Grid.{Fits, quantize_down-encodes}
use nabu_charger.Smb.Platform.{ChargerTransport, Clock}
use nabu_charger.Smb.Charger.{Charger, State, Op, state_eq}
use nabu_charger.Smb.Charger.Session.{or_fail}
use nabu_charger.Smb.Charger.Apply.{
  ChargePlan, Monitor, unchanged, changed, detached, is_same, target_of, write_qc2, write_policy,
  apply, lost, replaced, monitored, monitor,
}
use nabu_charger.Smb.Charger.Transparent.{read_reg-Keeps, write_reg-Keeps, update_reg-Keeps}
use nabu_charger.Smb.Charger.View.{
  View, view, Has, After, view-IsTransparent, log-Ends, request-Ends, require_open-Ends,
  transition-Ends, fail-Ends, or_fail-Ends,
}
use nabu_charger.Smb.Charger.View.Detects.{Faults, Failed-Faults}

-- A policy was applied: the session is ready with the adapter, and the plan is the policy's, its
-- current being the one of the code that was written.
abbrev pub Applied : View → AdapterType → ChargePlan → View → Type 0
Applied v a plan w =
    (w.state ≡ State.ready)
    × (w.adapter ≡ some a)
    × (w.config ≡ v.config)
    × (plan.adapter ≡ a)
    × (plan.policy ≡ policy_for a v.config.qc35)
    × (icl_encode v.config.icl plan.applied_icl_ua ≡ ok plan.icl_raw)
    × (plan.applied_icl_ua ≤ max (min plan.policy.icl_ua v.config.max_icl_ua) v.config.icl.min_ua)

-- What a poll found, by its answer.
abbrev pub Polled : View → Monitor → View → Type 0
Polled v (unchanged a) w = (w ≡ record v { adapter = some a }) × (is_same v.adapter a ≡ true)
Polled v (changed a) w = (w ≡ record v { adapter = some a }) × (is_same v.adapter a ≡ false)
Polled v detached w = w ≡ record v { adapter = none }

lower : (m p : ℕ) → (if ltb m p then m else p) ≡ min p m
lower m p = ground arith

module _ {W : Type 0} (io : ChargerTransport W) (clock : Clock W) (v : View) where
  guarded-Ends :
      {A : Type 0} (request : ℕ) (op : String) (m : Op W A)
      → Keeps (Has v) m
      → Ends (Has v) (or_fail clock request op m) (λ a. Has v) (λ e. After (Faults v))
  guarded-Ends request op m k =
      weaken-Ends (λ a p h. h) (Failed-Faults clock v) (or_fail-Ends clock v request op m k)

  lifted-Ends :
      {A : Type 0} (request : ℕ) (op : String) (r : Result A ChargerError)
      → Ends
          (Has v)
          (or_fail clock request op (lift r))
          (λ a p. Has v p × (r ≡ ok a))
          (λ e. After (Faults v))
  lifted-Ends request op (ok a) =
      rescue-Ends (λ e. Has v) _ _ (record { ends = λ p h. (h, refl) })
        (λ e. weaken-Ends (λ a p h. h) (Failed-Faults clock v) (fail-Ends clock v request op e))
  lifted-Ends request op (err x) =
      rescue-Ends (λ e. Has v) _ _ (record { ends = λ p h. h })
        (λ e. weaken-Ends (λ a p h. h) (Failed-Faults clock v) (fail-Ends clock v request op e))

  qc2-Ends :
      (request : ℕ) (o : Option Qc2Voltage)
      → Ends (Has v) (write_qc2 io clock request o) (λ u. Has v) (λ e. After (Faults v))
  qc2-Ends request none = pure-Ends tt (λ p h. h)
  qc2-Ends request (some x) =
      guarded-Ends request _ _ (update_reg-Keeps io clock (view-IsTransparent io clock v) _ _ _ _)

  write_policy-Ends :
      (request raw : ℕ) (chosen : ChargePolicy)
      → Ends (Has v) (write_policy io clock request raw chosen) (λ u. Has v) (λ e. After (Faults v))
  unfolding write_policy
  write_policy-Ends request raw chosen =
      bind-Ends (λ u. Has v) _ _
        (guarded-Ends request _ _ (write_reg-Keeps io clock (view-IsTransparent io clock v) _ _ _))
        (λ u.
          bind-Ends (λ u. Has v) _ _
            (guarded-Ends request _ _
              (update_reg-Keeps io clock (view-IsTransparent io clock v) _ _ _ _))
            (λ u. qc2-Ends request chosen.qc2_voltage))

  target_bound :
      (a : AdapterType)
      → Fits v.config.icl
      → target_of io clock v.config (policy_for a v.config.qc35)
        ≤ max (min (policy_for a v.config.qc35).icl_ua v.config.max_icl_ua) v.config.icl.min_ua
  target_bound a fits =
      let chosen = policy_for a v.config.qc35 in
      rw (← lower v.config.max_icl_ua chosen.icl_ua)
        (quantize_down-encodes v.config.icl fits
          (if ltb v.config.max_icl_ua chosen.icl_ua then v.config.max_icl_ua else chosen.icl_ua)).2

  pub apply-Ends :
      (a : AdapterType)
      → state_eq v.state State.closed ≡ false
      → Fits v.config.icl
      → Ends (Has v) (apply io clock a) (λ plan. After (Applied v a plan)) (λ e. After (Faults v))
  unfolding apply
  apply-Ends a o fits =
      let plan : ℕ → ChargePlan = λ raw. record {
        adapter = a;
        policy = policy_for a v.config.qc35;
        icl_raw = raw;
        applied_icl_ua = target_of io clock v.config (policy_for a v.config.qc35);
      } in
      let named = record v { adapter = some a } in
      let done = record v { adapter = some a; state = State.ready } in
      bind-Ends (λ u. Has v) _ _ (require_open-Ends v o)
        (λ u.
          bind-Ends (λ r. Has v) _ _ (request-Ends v)
            (λ request.
              known-Ends _ v.config _ (λ p h. ap (λ (x : View). x.config) h)
                (bind-Ends (λ raw p. Has v p × (icl_encode v.config.icl _ ≡ ok raw)) _ _
                  (lifted-Ends request _ _)
                  (λ raw. given-Ends _ (λ e.
                    bind-Ends (λ u. Has v) _ _ (write_policy-Ends request raw _)
                      (λ u.
                        bind-Ends (λ u. Has named) _ _
                          (modify-Ends _
                            (λ p h. ap (λ (x : View). record x { adapter = some a }) h))
                          (λ u.
                            bind-Ends (λ u. Has done) _ _ (transition-Ends clock named State.ready)
                              (λ u.
                                bind-Ends (λ u. Has done) _ _ (log-Ends clock done request _ _)
                                  (λ u. pure-Ends _ (λ p h.
                                    subst (Applied v a (plan raw)) (sym h) (
                                      refl,
                                      refl,
                                      refl,
                                      refl,
                                      refl,
                                      e,
                                      target_bound a fits,
                                    )))))))))))

  lost-Ends : Ends (Has v) (lost io clock) (λ d. After (Polled v d)) (λ e. After (Faults v))
  lost-Ends =
      bind-Ends (λ u. Has (record v { adapter = none })) _ _
        (modify-Ends _ (λ p h. ap (λ (x : View). record x { adapter = none }) h))
        (λ u. pure-Ends detached (λ p h. h))

  replaced-Ends :
      (request status result : ℕ) (a : AdapterType) (same : Bool)
      → same ≡ is_same v.adapter a
      → Ends
          (Has (record v { adapter = some a }))
          (replaced io clock request status result a same)
          (λ d. After (Polled v d))
          (λ e. After (Faults v))
  replaced-Ends request status result a same e =
      branch-Ends same _ _ (λ t. pure-Ends (unchanged a) (λ p h. (h, sym e ∙ t)))
        (λ f.
          bind-Ends (λ u. Has (record v { adapter = some a })) _ _
            (log-Ends clock (record v { adapter = some a }) request _ _)
            (λ u. pure-Ends (changed a) (λ p h. (h, sym e ∙ f))))

  monitored-Ends :
      (request status result : ℕ) (r : Result AdapterType ChargerError)
      → Ends
          (Has v)
          (monitored io clock request status result r)
          (λ d. After (Polled v d))
          (λ e. After (Faults v))
  unfolding monitored
  monitored-Ends request status result (ok a) =
      known-Ends _ v.adapter _ (λ p h. ap (λ (x : View). x.adapter) h)
        (bind-Ends (λ u. Has (record v { adapter = some a })) _ _
          (modify-Ends _ (λ p h. ap (λ (x : View). record x { adapter = some a }) h))
          (λ u. replaced-Ends request status result a _ refl))
  monitored-Ends request status result (err detection_not_complete) = lost-Ends
  monitored-Ends request status result (err e) =
      weaken-Ends (λ a p h. h) (Failed-Faults clock v)
        (fail-Ends clock v request "monitor.decode" e)

  pub monitor-Ends :
      state_eq v.state State.closed ≡ false
      → Ends (Has v) (monitor io clock) (λ d. After (Polled v d)) (λ e. After (Faults v))
  unfolding monitor
  monitor-Ends o =
      bind-Ends (λ u. Has v) _ _ (require_open-Ends v o)
        (λ u.
          bind-Ends (λ r. Has v) _ _ (request-Ends v)
            (λ request.
              bind-Ends (λ r. Has v) _ _
                (guarded-Ends request _ _
                  (read_reg-Keeps io clock (view-IsTransparent io clock v) _ _))
                (λ status.
                  branch-Ends _ _ _ (λ t. lost-Ends)
                    (λ f.
                      bind-Ends (λ r. Has v) _ _
                        (guarded-Ends request _ _
                          (read_reg-Keeps io clock (view-IsTransparent io clock v) _ _))
                        (λ result.
                          known-Ends _ v.config _ (λ p h. ap (λ (x : View). x.config) h)
                            (monitored-Ends request status result _))))))

module _ {W : Type 0} (io : ChargerTransport W) (clock : Clock W) where
  -- On any transport and clock, a poll of an open session answers that the adapter is unchanged exactly
  -- when the one that the registers name is the one the session held, holds it from then on, and forgets
  -- it when it answers that power was lost; a failure faults the session and keeps the adapter. Nothing
  -- else of the session moves.
  pub monitor-Polled :
      (p : Charger W)
      → state_eq p.state State.closed ≡ false
      → Done
          (λ d q. Polled (view p) d (view q))
          (λ e q. Faults (view p) (view q))
          (monitor io clock p)
  monitor-Polled p o = (monitor-Ends io clock (view p) o).ends p refl
