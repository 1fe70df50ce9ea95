-- ===== src/Kmdf/Hvdcp/Correct/Moves.antt =====
-- How far a correction of the bus moves it, and how it counts its pulses.
use nabu_charger.Prelude.{ℕ, ◌+◌, ◌-◌, ◌≡◌, refl, Bool, true, false, min, arith}
use nabu_charger.Prelude.Methods.{branch}
use nabu_charger.Prelude.Methods.Ends.{
  Ends, bind-Ends, rescue-Ends, branch-Ends, pure-Ends, kept-Ends, known-Ends, given-Ends,
}
use nabu_charger.Prelude.Methods.Sure.{sure-Ends}
use nabu_charger.Kmdf.Hvdcp.{HvdcpError, HvdcpState, Session, Bus, Machine, Op}
use nabu_charger.Kmdf.Hvdcp.Regs.{bit_single_dec, bit_single_inc}
use nabu_charger.Kmdf.Hvdcp.Access.{succeeds}
use nabu_charger.Kmdf.Hvdcp.Pulses.{
  count_up, count_down, pulse_cmd_bit, pulse_inc_gap, pulse_dec_gap, pulse_inc, pulse_dec,
}
use nabu_charger.Kmdf.Hvdcp.Steady.{On, act-Sure, or_zero-Sure, read_reg-Keeps, write_reg-Keeps}
use nabu_charger.Kmdf.Hvdcp.Settled.{edit-Ends}

-- No request is latched, and `k` pulses down from a count of `n` were counted.
abbrev pub Down : ℕ → ℕ → HvdcpState → Type 0
Down n k s = (s.force9v_latched ≡ false) × (s.pulse_cnt ≡ n - k)

abbrev pub Up : ℕ → ℕ → HvdcpState → Type 0
Up n k s = (s.force9v_latched ≡ false) × (s.pulse_cnt ≡ min (n + k) 23)

-- By whether the pulse was sent.
abbrev pub Sent : (HvdcpState → Type 0) → (HvdcpState → Type 0) → Bool → HvdcpState → Type 0
Sent G F true = G
Sent G F false = F

module _ {W : Type 0} where
  succeeds-Ends :
      {A : Type 0} {F G : HvdcpState → Type 0} {X : HvdcpError → Session W → Type 0} {k : Op W A}
      → Ends (On F) k (λ a. On G) (λ e. On F)
      → Ends (On F) (succeeds k) (λ sent. On (Sent G F sent)) X
  succeeds-Ends {G = G} h =
      rescue-Ends (λ e. On _) _ _ (bind-Ends (λ a. On G) _ _ h (λ a. pure-Ends true (λ p d. d)))
        (λ e. pure-Ends false (λ p d. d))

pub Sent-Ends :
    {W A : Type 0} {F G : HvdcpState → Type 0} {Q : A → Session W → Type 0}
    {X : HvdcpError → Session W → Type 0} {k l : Op W A} (sent : Bool)
    → Ends (On G) k Q X
    → Ends (On F) l Q X
    → Ends (On (Sent G F sent)) (branch sent k l) Q X
Sent-Ends true g f = branch-Ends true _ _ (λ c. g) (λ c. absurd (cc))
Sent-Ends false g f = branch-Ends false _ _ (λ c. absurd (cc)) (λ c. f)

module _ {W : Type 0} (m : Machine W) (bus : Bus W) where
  module _ {F : HvdcpState → Type 0}
      (unlatched : (s : HvdcpState) → F s → s.force9v_latched ≡ false) where
    pulse_cmd_bit-Ends :
        (bit : ℕ)
        → Ends (On F) (pulse_cmd_bit m bus bit) (λ sent p. On F p × (sent ≡ true)) (λ e. On F)
    unfolding pulse_cmd_bit
    pulse_cmd_bit-Ends bit =
        known-Ends (λ p. p.state.force9v_latched) false _ (λ p d. unlatched p.state d.on)
          (branch-Ends false _ _ (λ c. absurd (cc))
            (λ c.
              bind-Ends (λ v. On F) _ _ (sure-Ends (or_zero-Sure _ (read_reg-Keeps bus _)))
                (λ v.
                  bind-Ends (λ u. On F) _ _
                    (kept-Ends _ (write_reg-Keeps bus _ _) (λ a p d. d) (λ e p d. d))
                    (λ u. pure-Ends true (λ p d. (d, refl))))))

    module _ {G : HvdcpState → Type 0} where
      pulse_dec-Ends :
          ((s : HvdcpState) → F s → G (count_down s))
          → Ends (On F) (pulse_dec m bus) (λ u. On G) (λ e. On F)
      unfolding pulse_dec_gap
      pulse_dec-Ends step =
          bind-Ends (λ sent p. On F p × (sent ≡ true)) _ _ (pulse_cmd_bit-Ends bit_single_dec)
            (λ sent. given-Ends (sent ≡ true) (λ went.
              bind-Ends (λ u. On G) _ _
                (branch-Ends sent _ _ (λ c. edit-Ends count_down step) (λ c. absurd (cc)))
                (λ u. sure-Ends (act-Sure _))))

      pulse_inc-Ends :
          ((s : HvdcpState) → F s → G (count_up s))
          → Ends (On F) (pulse_inc m bus) (λ u. On G) (λ e. On F)
      unfolding pulse_inc_gap
      pulse_inc-Ends step =
          bind-Ends (λ sent p. On F p × (sent ≡ true)) _ _ (pulse_cmd_bit-Ends bit_single_inc)
            (λ sent. given-Ends (sent ≡ true) (λ went.
              bind-Ends (λ u. On G) _ _
                (branch-Ends sent _ _ (λ c. edit-Ends count_up step) (λ c. absurd (cc)))
                (λ u. sure-Ends (act-Sure _))))

  pub dec-Ends :
      {X : HvdcpError → Session W → Type 0} (n k : ℕ)
      → Ends
          (On (Down n k))
          (succeeds (pulse_dec m bus))
          (λ sent. On (Sent (Down n (k + 1)) (Down n k) sent))
          X
  dec-Ends n k = succeeds-Ends (pulse_dec-Ends (λ s d. d.0) (λ s (l, c). (l, (omega arith))))

  pub inc-Ends :
      {X : HvdcpError → Session W → Type 0} (n k : ℕ)
      → Ends
          (On (Up n k))
          (succeeds (pulse_inc m bus))
          (λ sent. On (Sent (Up n (k + 1)) (Up n k) sent))
          X
  inc-Ends n k = succeeds-Ends (pulse_inc-Ends (λ s d. d.0) (λ s (l, c). (l, (omega arith))))
