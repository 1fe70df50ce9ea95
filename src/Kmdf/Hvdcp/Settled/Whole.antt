-- ===== src/Kmdf/Hvdcp/Settled/Whole.antt =====
-- What a whole negotiation, over whichever bus opens, leaves of its state.
use nabu_charger.Prelude.{
  ℕ, ◌≤◌, ◌≡◌, refl, ◌∙◌, inl, inr, ◌⊎◌, true, false, Option, none, some, Result, ok, err,
}
use nabu_charger.Prelude.Methods.{◌>>=◌}
use nabu_charger.Prelude.Methods.Keeps.{Keeps, bind-Keeps, branch-Keeps, pure-Keeps, gets-Keeps}
use nabu_charger.Prelude.Methods.Ends.{Done, Ends, bind-Ends, throw-Ends, weaken-Ends}
use nabu_charger.Prelude.Methods.Sure.{Sure-Keeps, sure-Ends}
use nabu_charger.Kmdf.Hvdcp.{
  HvdcpTransport, HvdcpPhase, HvdcpError, HvdcpState, SuperuserBus, SpbBus, Session, superuser,
  usbin, Machine, Op,
}
use nabu_charger.Kmdf.Hvdcp.Access.{resolve_endian_usbin, act}
use nabu_charger.Kmdf.Hvdcp.Negotiate.{
  dropping, over_usbin, secondary, granted, primary, run_negotiate,
}
use nabu_charger.Kmdf.Hvdcp.Steady.{
  On, ask-Sure, act-Sure, edit-Keeps, succeeds-Sure, spmi_rw_usbin-Keeps,
}
use nabu_charger.Kmdf.Hvdcp.Settled.{
  Free, Ready, Failed, edit-Ends, kept_or_failed, negotiate_on_bus-Ends,
}

-- No request is latched, and the pulse count is in its bounds.
abbrev pub Quiet : HvdcpState → Type 0
Quiet s = (s.force9v_latched ≡ false) × (s.pulse_cnt ≤ 23)

-- A negotiation that is done, over one of the two buses; a latched request counts as 20 pulses.
abbrev pub Negotiated : HvdcpState → Type 0
Negotiated s =
    (s.phase ≡ HvdcpPhase.done)
    × ((s.transport ≡ HvdcpTransport.superuser) ⊎ (s.transport ≡ HvdcpTransport.usbin_rh))
    × (s.force9v_latched ≡ true → s.pulse_cnt ≡ 20)
    × (s.pulse_cnt ≤ 23)

-- A negotiation that failed: no request is left latched.
abbrev pub GivenUp : HvdcpState → Type 0
GivenUp s = (s.phase ≡ HvdcpPhase.failed) × Quiet s

ready_on :
    (s : HvdcpState) (t : HvdcpTransport)
    → ((t ≡ HvdcpTransport.superuser) ⊎ (t ≡ HvdcpTransport.usbin_rh))
    → Ready t s
    → Negotiated s
ready_on s t (inl e) (d, (k, l, n)) = (d, inl (k ∙ e), l, n)
ready_on s t (inr e) (d, (k, l, n)) = (d, inr (k ∙ e), l, n)

Failed-GivenUp : (s : HvdcpState) (t : HvdcpTransport) → Failed t s → GivenUp s
Failed-GivenUp s t (d, (k, l, n)) = (d, (l, n))

pub on-Done :
    {W A : Type 0} (G : A → HvdcpState → Type 0) (H : HvdcpState → Type 0)
    (o : Result A HvdcpError × Session W)
    → Done (λ a. On (G a)) (λ e. On H) o
    → Done (λ a q. G a q.state) (λ e q. H q.state) o
on-Done G H (ok a, q) d = d.on
on-Done G H (err e, q) d = d.on

module _ {W : Type 0} (m : Machine W) where
  dropped :
      {A : Type 0} (G : A → HvdcpState → Type 0) (H : HvdcpState → Type 0) (drop : W → W)
      (o : Result A HvdcpError × Session W)
      → Done (λ a. On (G a)) (λ e. On H) o
      → Done (λ a. On (G a)) (λ e. On H) (o.0, record o.1 { world = drop o.1.world })
  dropped G H drop (ok a, q) d = record { on = d.on }
  dropped G H drop (err e, q) d = record { on = d.on }

  pub dropping-Ends :
      {A : Type 0} {P : Session W → Type 0} {G : A → HvdcpState → Type 0} {H : HvdcpState → Type 0}
      {k : Op W A} (drop : W → W)
      → Ends P k (λ a. On (G a)) (λ e. On H)
      → Ends P (dropping m drop k) (λ a. On (G a)) (λ e. On H)
  unfolding dropping act ◌>>=◌
  dropping-Ends {G = G} {H = H} {k = k} drop h = record {
    ends = λ s p. dropped G H drop (k s) (h.ends s p);
  }

  settled :
      {A : Type 0} {P : Session W → Type 0} {k : Op W A} (t : HvdcpTransport)
      → ((t ≡ HvdcpTransport.superuser) ⊎ (t ≡ HvdcpTransport.usbin_rh))
      → Ends P k (λ u. On (Ready t)) (λ e. On (Failed t))
      → Ends P k (λ u. On Negotiated) (λ e. On GivenUp)
  settled t which =
      weaken-Ends (λ a p h. record { on = ready_on p.state t which h.on })
        (λ e p h. record { on = Failed-GivenUp p.state _ h.on })

  resolve_endian-Keeps :
      (t : HvdcpTransport) (rh : SpbBus W) → Keeps (On (Free t)) (resolve_endian_usbin rh)
  unfolding resolve_endian_usbin
  resolve_endian-Keeps t rh = bind-Keeps _ _ (gets-Keeps _) (λ known.
      branch-Keeps _ _ _ (pure-Keeps tt) (
        bind-Keeps _ _ (Sure-Keeps _ (succeeds-Sure _ (spmi_rw_usbin-Keeps rh _ _ _))) (λ big.
          branch-Keeps _ _ _ (edit-Keeps _ (λ s h. h))
            (bind-Keeps _ _ (spmi_rw_usbin-Keeps rh _ _ _) (λ v. edit-Keeps _ (λ s h. h))))))

  module _ (vbat_uv : ℕ) where
    over_usbin-Ends :
        (opened : Option (SpbBus W))
        → Ends
            (On (Free HvdcpTransport.none))
            (over_usbin m vbat_uv opened)
            (λ u. On Negotiated)
            (λ e. On GivenUp)
    over_usbin-Ends none =
        bind-Ends (λ u. On GivenUp) _ _ (edit-Ends _ (λ s (e, l, n). (refl, (l, n))))
          (λ u. throw-Ends _ (λ p h. h))
    over_usbin-Ends (some rh) = dropping-Ends rh.drop (
        bind-Ends (λ u. On (Free HvdcpTransport.none)) _ _
          (weaken-Ends (λ a p h. h) (λ e p h. record { on = Failed-GivenUp p.state _ h.on })
            (kept_or_failed HvdcpTransport.none (resolve_endian-Keeps HvdcpTransport.none rh)))
          (λ u.
            bind-Ends (λ u. On (Free HvdcpTransport.usbin_rh)) _ _
              (edit-Ends _ (λ s (e, l, n). (refl, l, n)))
              (λ u.
                settled HvdcpTransport.usbin_rh (inr refl)
                  (negotiate_on_bus-Ends m (usbin rh) _ vbat_uv))))

    secondary-Ends :
        (usbin_id : Option ℕ)
        → Ends
            (On (Free HvdcpTransport.none))
            (secondary m vbat_uv usbin_id)
            (λ u. On Negotiated)
            (λ e. On GivenUp)
    secondary-Ends none =
        bind-Ends (λ u. On GivenUp) _ _ (edit-Ends _ (λ s (e, l, n). (refl, (l, n))))
          (λ u. throw-Ends _ (λ p h. h))
    secondary-Ends (some id) =
        bind-Ends (λ o. On (Free HvdcpTransport.none)) _ _ (sure-Ends (ask-Sure _)) over_usbin-Ends

    granted-Ends :
        (usbin_id : Option ℕ) (su : SuperuserBus W) (grant : Option (Unit {0}))
        → Ends
            (On (Free HvdcpTransport.none))
            (granted m vbat_uv usbin_id su grant)
            (λ u. On Negotiated)
            (λ e. On GivenUp)
    granted-Ends usbin_id su none =
        bind-Ends (λ u. On (Free HvdcpTransport.none)) _ _ (sure-Ends (act-Sure _))
          (λ u. secondary-Ends usbin_id)
    granted-Ends usbin_id su (some u) = dropping-Ends su.drop (
        bind-Ends (λ u. On (Free HvdcpTransport.superuser)) _ _
          (edit-Ends _ (λ s (e, l, n). (refl, l, n)))
          (λ u.
            settled HvdcpTransport.superuser (inl refl)
              (negotiate_on_bus-Ends m (superuser su) _ vbat_uv)))

    primary-Ends :
        (usbin_id : Option ℕ) (opened : Option (SuperuserBus W))
        → Ends
            (On (Free HvdcpTransport.none))
            (primary m vbat_uv usbin_id opened)
            (λ u. On Negotiated)
            (λ e. On GivenUp)
    primary-Ends usbin_id none = secondary-Ends usbin_id
    primary-Ends usbin_id (some su) =
        bind-Ends (λ o. On (Free HvdcpTransport.none)) _ _ (sure-Ends (ask-Sure _))
          (granted-Ends usbin_id su)

    run_negotiate-Ends :
        (usbin_id : Option ℕ)
        → Ends (On Quiet) (run_negotiate m usbin_id vbat_uv) (λ u. On Negotiated) (λ e. On GivenUp)
    unfolding run_negotiate
    run_negotiate-Ends usbin_id =
        bind-Ends (λ u. On (Free HvdcpTransport.none)) _ _ (edit-Ends _ (λ s (l, n). (refl, l, n)))
          (λ u.
            bind-Ends (λ o. On (Free HvdcpTransport.none)) _ _ (sure-Ends (ask-Sure _))
              (primary-Ends usbin_id))

    -- Whatever the buses, the adapter and the readings do, a negotiation that begins without a latched
    -- 9 V request, and with its pulse count in bounds, ends as one of two. It succeeds: the phase is
    -- `Done`, one of the two buses carried it, at most 23 pulses are counted, and a latched request counts
    -- as 20. Or it fails: the phase is `Failed`, no request is latched, and at most 23 pulses are counted.
    pub run_negotiate-Settles :
        (usbin_id : Option ℕ) (p : Session W)
        → p.state.force9v_latched ≡ false
        → p.state.pulse_cnt ≤ 23
        → Done
            (λ u q. Negotiated q.state)
            (λ e q. GivenUp q.state)
            (run_negotiate m usbin_id vbat_uv p)
    run_negotiate-Settles usbin_id p l n =
        on-Done (λ u. Negotiated) GivenUp (run_negotiate m usbin_id vbat_uv p)
          ((run_negotiate-Ends usbin_id).ends p (record { on = (l, n) }))
