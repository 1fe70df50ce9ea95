-- ===== src/Ln8000/Mode.antt =====
-- The pump's operating modes and the small enumerations of `TIMER_CTRL` and `ADC_CTRL`
-- (crates/ln8000/src/encoding.rs).
use nabu_charger.Prelude.{ℕ, Bool, bit_and, bit_or, ◌==◌, not, if◌then◌else◌, Result, ok, err}
use nabu_charger.Ln8000.Regs
use nabu_charger.Ln8000.Error.{PumpError, out_of_range}

pub data OpMode : Type 0 where
  unknown standby bypass switching : OpMode

abbrev pub mode_code : OpMode → ℕ
mode_code OpMode.unknown = 0x0
mode_code OpMode.standby = 0x1
mode_code OpMode.bypass = 0x2
mode_code OpMode.switching = 0x3

-- `x & mask != 0`
abbrev pub has_bits : ℕ → ℕ → Bool
has_bits x mask = not (bit_and x mask == 0)

unfoldable pub from_sys_sts : ℕ → OpMode
from_sys_sts sys_sts =
    if has_bits sys_sts (bit_or Regs.sys_sts_shutdown Regs.sys_sts_standby)
    then OpMode.standby
    else if has_bits sys_sts Regs.sys_sts_switching_enabled
    then OpMode.switching
    else if has_bits sys_sts Regs.sys_sts_bypass_enabled
    then OpMode.bypass
    else OpMode.unknown

abbrev pub sys_ctrl_bits : OpMode → Result ℕ PumpError
sys_ctrl_bits OpMode.standby = ok Regs.sys_ctrl_standby_en
sys_ctrl_bits OpMode.bypass = ok Regs.sys_ctrl_en_1to1
sys_ctrl_bits OpMode.switching = ok 0
sys_ctrl_bits OpMode.unknown = err (out_of_range "op_mode" 0)

abbrev pub sys_ctrl_mask : ℕ
sys_ctrl_mask = bit_or Regs.sys_ctrl_standby_en Regs.sys_ctrl_en_1to1

-- `==` on modes, as the derived `PartialEq` decides it.
abbrev pub mode_eq : OpMode → OpMode → Bool
mode_eq a b = mode_code a == mode_code b

pub data WatchdogPeriod : Type 0 where
  sec5 sec10 sec20 sec40 : WatchdogPeriod

abbrev pub watchdog_code : WatchdogPeriod → ℕ
watchdog_code WatchdogPeriod.sec5 = 0x0
watchdog_code WatchdogPeriod.sec10 = 0x1
watchdog_code WatchdogPeriod.sec20 = 0x2
watchdog_code WatchdogPeriod.sec40 = 0x3

pub data AdcHibernateDelay : Type 0 where
  ms500 sec1 sec2 sec4 : AdcHibernateDelay

abbrev pub hibernate_code : AdcHibernateDelay → ℕ
hibernate_code AdcHibernateDelay.ms500 = 0x0
hibernate_code AdcHibernateDelay.sec1 = 0x1
hibernate_code AdcHibernateDelay.sec2 = 0x2
hibernate_code AdcHibernateDelay.sec4 = 0x3

pub data AdcMode : Type 0 where
  auto_hibernate auto_shutdown shutdown hibernate normal : AdcMode

abbrev pub adc_mode_code : AdcMode → ℕ
adc_mode_code AdcMode.auto_hibernate = 0x0
adc_mode_code AdcMode.auto_shutdown = 0x1
adc_mode_code AdcMode.shutdown = 0x2
adc_mode_code AdcMode.hibernate = 0x4
adc_mode_code AdcMode.normal = 0x6
