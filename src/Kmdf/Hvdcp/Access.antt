-- ===== src/Kmdf/Hvdcp/Access.antt =====
-- Register access of the negotiation over the bus that was opened (crates/ln8000-kmdf/src/hvdcp.rs).
use nabu_charger.Prelude.{ℕ, Bool, true, false, Option, none, some, Result, ok, err}
use nabu_charger.Prelude.Methods.{gets, rescue, pure, branch, ◌>>=◌, ◌>>◌}
use nabu_charger.Kmdf.Hvdcp.{HvdcpError, HvdcpState, SpbBus, Bus, superuser, usbin, Op}
use nabu_charger.Kmdf.Hvdcp.Regs.{reg_apsd_status}

abbrev pub spmi_sid_usbin : ℕ
spmi_sid_usbin = 2

-- `.map_err(|_| HvdcpError::SpmiIo)`
abbrev pub io_result : {A : Type 0} → Option A → Result A HvdcpError
io_result none = err HvdcpError.spmi_io
io_result (some a) = ok a

-- A call of the platform, with `?`.
unfoldable pub call : {W A : Type 0} → (W → Option A × W) → Op W A
call f p = (io_result (f p.world).0, record p { world = (f p.world).1 })

-- A call of the platform that returns a value.
unfoldable pub ask : {W A : Type 0} → (W → A × W) → Op W A
ask f p = (ok (f p.world).0, record p { world = (f p.world).1 })

unfoldable pub act : {W : Type 0} → (W → W) → Op W Unit
act f p = (ok tt, record p { world = f p.world })

-- `let _ = m;`
unfoldable pub ignoring : {W A : Type 0} → Op W A → Op W Unit
ignoring m = rescue (do m; pure tt) (λ e. pure tt)

-- `m.unwrap_or(0)`
unfoldable pub or_zero : {W : Type 0} → Op W ℕ → Op W ℕ
or_zero m = rescue m (λ e. pure 0)

-- A change of the negotiation's own state.
unfoldable pub edit : {W : Type 0} → (HvdcpState → HvdcpState) → Op W Unit
edit f p = (ok tt, record p { state = f p.state })

module _ {W : Type 0} where
  unfoldable pub spmi_rw_usbin : SpbBus W → ℕ → Option ℕ → Bool → Op W ℕ
  spmi_rw_usbin bus addr value big_endian = call (bus.transact_spmi16 addr value big_endian)

  unfoldable pub read_reg : Bus W → ℕ → Op W ℕ
  read_reg (superuser su) addr = call (su.read_u8 spmi_sid_usbin addr)
  read_reg (usbin rh) addr = do
    big_endian ← gets (λ p. p.state.big_endian)
    spmi_rw_usbin rh addr none big_endian

  unfoldable pub write_reg : Bus W → ℕ → ℕ → Op W Unit
  write_reg (superuser su) addr value = call (su.write_u8 spmi_sid_usbin addr value)
  write_reg (usbin rh) addr value = do
    big_endian ← gets (λ p. p.state.big_endian)
    spmi_rw_usbin rh addr (some value) big_endian
    pure tt

  abbrev pub knows_endian : Bool → Op W Unit
  knows_endian big_endian = edit (λ s. record s { big_endian = big_endian; endian_known = true })

  -- `is_ok`
  abbrev pub succeeds : {A : Type 0} → Op W A → Op W Bool
  succeeds m = rescue (do m; pure true) (λ e. pure false)

  -- The first order of the address bytes that the controller answers to.
  unfoldable pub resolve_endian_usbin : SpbBus W → Op W Unit
  resolve_endian_usbin bus = do
    known ← gets (λ p. p.state.endian_known)
    branch known (pure tt) (do
      big ← succeeds (spmi_rw_usbin bus reg_apsd_status none true)
      branch big (knows_endian true)
          (do spmi_rw_usbin bus reg_apsd_status none false; knows_endian false))
