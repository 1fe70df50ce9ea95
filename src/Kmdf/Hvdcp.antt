-- ===== src/Kmdf/Hvdcp.antt =====
-- The high-voltage adapter negotiation of the Windows driver (crates/ln8000-kmdf/src/hvdcp.rs): its
-- state, its errors, and the parts of the kernel and of the two buses that it calls. The diagnostic
-- marks in the registry are not modelled.
pub mod Regs
pub mod Band
pub mod Access
pub mod Pulses
pub mod Waits
pub mod Setup
pub mod Qc35
pub mod Negotiate
pub mod Correct
pub mod Steady
pub mod Settled
use nabu_charger.Prelude.{ℕ, Bool, true, false, Option, ℤ, neg}
use nabu_charger.Prelude.Methods.{Method}

pub data HvdcpTransport : Type 0 where
  none superuser usbin_rh : HvdcpTransport

abbrev pub transport_code : HvdcpTransport → ℕ
transport_code HvdcpTransport.none = 0
transport_code HvdcpTransport.superuser = 1
transport_code HvdcpTransport.usbin_rh = 2

pub data HvdcpPhase : Type 0 where
  idle enable apsd_rerun apsd_wait qc2_force9v qc3_pulse done failed qc35_auth five_v_bypass :
      HvdcpPhase

abbrev pub phase_code : HvdcpPhase → ℕ
phase_code HvdcpPhase.idle = 0
phase_code HvdcpPhase.enable = 1
phase_code HvdcpPhase.apsd_rerun = 2
phase_code HvdcpPhase.apsd_wait = 3
phase_code HvdcpPhase.qc2_force9v = 4
phase_code HvdcpPhase.qc3_pulse = 5
phase_code HvdcpPhase.done = 6
phase_code HvdcpPhase.failed = 7
phase_code HvdcpPhase.qc35_auth = 8
phase_code HvdcpPhase.five_v_bypass = 9

pub data HvdcpError : Type 0 where
  usbin_unavailable bus_open_failed spmi_io apsd_timeout not_qc_adapter : HvdcpError

abbrev pub hvdcp_error_code : HvdcpError → ℤ
hvdcp_error_code HvdcpError.usbin_unavailable = neg 10
hvdcp_error_code HvdcpError.bus_open_failed = neg 11
hvdcp_error_code HvdcpError.spmi_io = neg 12
hvdcp_error_code HvdcpError.apsd_timeout = neg 13
hvdcp_error_code HvdcpError.not_qc_adapter = neg 14

pub record HvdcpState : Type 0 where
  pub pulse_cnt : ℕ
  pub apsd_status : ℕ
  pub apsd_result : ℕ
  pub options1 : ℕ
  pub phase : HvdcpPhase
  pub big_endian : Bool
  pub endian_known : Bool
  pub transport : HvdcpTransport
  pub force9v_latched : Bool

abbrev pub new_state : HvdcpState
new_state = record {
  pulse_cnt = 0;
  apsd_status = 0;
  apsd_result = 0;
  options1 = 0;
  phase = HvdcpPhase.idle;
  big_endian = true;
  endian_known = false;
  transport = HvdcpTransport.none;
  force9v_latched = false;
}

-- An open `\Device\Spmi\SUPERUSER`; `drop` closes it.
pub record SuperuserBus (W : Type 0) : Type 0 where
  pub grant : ℕ → W → Option (Unit {0}) × W
  pub read_u8 : ℕ → ℕ → W → Option ℕ × W
  pub write_u8 : ℕ → ℕ → ℕ → W → Option (Unit {0}) × W
  pub drop : W → W

-- An open connection of the resource hub: the address, the value of a write, and whether the address
-- goes out with its high byte first.
pub record SpbBus (W : Type 0) : Type 0 where
  pub transact_spmi16 : ℕ → Option ℕ → Bool → W → Option ℕ × W
  pub drop : W → W

pub data Bus (W : Type 0) : Type 0 where
  superuser : SuperuserBus W → Bus W
  usbin : SpbBus W → Bus W

-- What the negotiation calls: the sleep, the pump's reading of its input in µV, and the two opens.
pub record Machine (W : Type 0) : Type 0 where
  pub sleep : ℕ → W → W
  pub vin : W → ℤ × W
  pub open_superuser : W → Option (SuperuserBus W) × W
  pub open_spb : ℕ → W → Option (SpbBus W) × W

pub record Session (W : Type 0) : Type 0 where
  pub world : W
  pub state : HvdcpState

abbrev pub Op : Type 0 → Type 0 → Type 0
Op W A = Method (Session W) HvdcpError A
