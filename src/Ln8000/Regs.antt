-- ===== src/Ln8000/Regs.antt =====
-- The LN8000 register map (crates/ln8000/src/regs.rs).
use Prim.Native.Nat.{ℕ, ◌*◌, bit_or}

abbrev pub device_id : ℕ
device_id = 0x00

abbrev pub device_id_value : ℕ
device_id_value = 0x42

abbrev pub int1 : ℕ
int1 = 0x01

abbrev pub int1_msk : ℕ
int1_msk = 0x02

abbrev pub sys_sts : ℕ
sys_sts = 0x03

abbrev pub safety_sts : ℕ
safety_sts = 0x04

abbrev pub fault1_sts : ℕ
fault1_sts = 0x05

abbrev pub fault2_sts : ℕ
fault2_sts = 0x06

abbrev pub curr1_sts : ℕ
curr1_sts = 0x07

abbrev pub ldo_sts : ℕ
ldo_sts = 0x08

abbrev pub adc_first_sts : ℕ
adc_first_sts = 0x09

abbrev pub adc_last_sts : ℕ
adc_last_sts = 0x12

abbrev pub iin_ctrl : ℕ
iin_ctrl = 0x1b

abbrev pub regulation_ctrl : ℕ
regulation_ctrl = 0x1c

abbrev pub pwr_ctrl : ℕ
pwr_ctrl = 0x1d

abbrev pub sys_ctrl : ℕ
sys_ctrl = 0x1e

abbrev pub ldo_ctrl : ℕ
ldo_ctrl = 0x1f

abbrev pub glitch_ctrl : ℕ
glitch_ctrl = 0x20

abbrev pub fault_ctrl : ℕ
fault_ctrl = 0x21

abbrev pub ntc_ctrl : ℕ
ntc_ctrl = 0x22

abbrev pub adc_ctrl : ℕ
adc_ctrl = 0x23

abbrev pub adc_cfg : ℕ
adc_cfg = 0x24

abbrev pub recovery_ctrl : ℕ
recovery_ctrl = 0x25

abbrev pub timer_ctrl : ℕ
timer_ctrl = 0x26

abbrev pub timer_ctrl_pause_adc : ℕ
timer_ctrl_pause_adc = 0x2

abbrev pub timer_ctrl_clear_latch : ℕ
timer_ctrl_clear_latch = 0x4

abbrev pub fault_ctrl_disable_vin_ov : ℕ
fault_ctrl_disable_vin_ov = 0x4

abbrev pub fault_ctrl_disable_vac_uv : ℕ
fault_ctrl_disable_vac_uv = 0x8

abbrev pub fault_ctrl_disable_vac_ov : ℕ
fault_ctrl_disable_vac_ov = 0x10

abbrev pub fault_ctrl_disable_vbat_ov : ℕ
fault_ctrl_disable_vbat_ov = 0x20

abbrev pub fault_ctrl_mask_5v_bypass : ℕ
fault_ctrl_mask_5v_bypass =
    bit_or fault_ctrl_disable_vin_ov (
      bit_or fault_ctrl_disable_vac_uv
        (bit_or fault_ctrl_disable_vac_ov fault_ctrl_disable_vbat_ov))

abbrev pub threshold_ctrl : ℕ
threshold_ctrl = 0x27

abbrev pub v_float_ctrl : ℕ
v_float_ctrl = 0x28

abbrev pub charge_ctrl : ℕ
charge_ctrl = 0x29

abbrev pub lion_ctrl : ℕ
lion_ctrl = 0x30

abbrev pub bc_op_1 : ℕ
bc_op_1 = 0x41

abbrev pub bc_op_2 : ℕ
bc_op_2 = 0x42

abbrev pub bc_sts_a : ℕ
bc_sts_a = 0x49

abbrev pub bc_sts_e : ℕ
bc_sts_e = 0x4d

abbrev pub lion_ctrl_unlock : ℕ
lion_ctrl_unlock = 0xc6

abbrev pub sys_sts_iin_loop : ℕ
sys_sts_iin_loop = 0x80

abbrev pub sys_sts_vfloat_loop : ℕ
sys_sts_vfloat_loop = 0x40

abbrev pub sys_sts_bypass_enabled : ℕ
sys_sts_bypass_enabled = 0x8

abbrev pub sys_sts_switching_enabled : ℕ
sys_sts_switching_enabled = 0x4

abbrev pub sys_sts_standby : ℕ
sys_sts_standby = 0x2

abbrev pub sys_sts_shutdown : ℕ
sys_sts_shutdown = 0x1

abbrev pub sys_ctrl_standby_en : ℕ
sys_ctrl_standby_en = 0x8

abbrev pub sys_ctrl_rev_iin_det : ℕ
sys_ctrl_rev_iin_det = 0x4

abbrev pub sys_ctrl_en_1to1 : ℕ
sys_ctrl_en_1to1 = 0x1

abbrev pub safety_temp_max : ℕ
safety_temp_max = 0x40

abbrev pub safety_temp_regulation : ℕ
safety_temp_regulation = 0x20

abbrev pub safety_ntc_alarm : ℕ
safety_ntc_alarm = 0x10

abbrev pub safety_ntc_shutdown : ℕ
safety_ntc_shutdown = 0x8

abbrev pub safety_rev_iin : ℕ
safety_rev_iin = 0x4

abbrev pub fault1_watchdog : ℕ
fault1_watchdog = 0x80

abbrev pub fault1_vbat_ov : ℕ
fault1_vbat_ov = 0x40

abbrev pub fault1_vac_unplug : ℕ
fault1_vac_unplug = 0x10

abbrev pub fault1_vac_ov : ℕ
fault1_vac_ov = 0x8

abbrev pub fault1_vin_ov : ℕ
fault1_vin_ov = 0x2

abbrev pub fault1_vfaults_mask : ℕ
fault1_vfaults_mask = 0x7f

abbrev pub fault2_iin_oc : ℕ
fault2_iin_oc = 0x80

abbrev pub fault2_volt_fault : ℕ
fault2_volt_fault = 0x20

abbrev pub ldo_charge_term : ℕ
ldo_charge_term = 0x20

abbrev pub ldo_recharge : ℕ
ldo_recharge = 0x10

abbrev pub vbat_float_min_uv : ℕ
vbat_float_min_uv = 3_725_000

abbrev pub vbat_float_max_uv : ℕ
vbat_float_max_uv = 5_000_000

abbrev pub vbat_float_step_uv : ℕ
vbat_float_step_uv = 5_000

abbrev pub iin_min_ua : ℕ
iin_min_ua = 500_000

abbrev pub iin_step_ua : ℕ
iin_step_ua = 50_000

abbrev pub iin_max_ua : ℕ
iin_max_ua = iin_step_ua * 0x7f

abbrev pub vac_ovp_6v5 : ℕ
vac_ovp_6v5 = 0x0

abbrev pub vac_ovp_11v : ℕ
vac_ovp_11v = 0x1

abbrev pub vac_ovp_12v : ℕ
vac_ovp_12v = 0x2

abbrev pub vac_ovp_13v : ℕ
vac_ovp_13v = 0x3

abbrev pub ntc_shutdown_cfg : ℕ
ntc_shutdown_cfg = 2

abbrev pub ntc_alarm_default : ℕ
ntc_alarm_default = 226

abbrev pub threshold_ctrl_default : ℕ
threshold_ctrl_default = 0x0e

abbrev pub soft_reset_delay_ms : ℕ
soft_reset_delay_ms = 10
