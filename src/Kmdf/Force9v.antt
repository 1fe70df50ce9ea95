-- ===== src/Kmdf/Force9v.antt =====
-- The wait for an adapter's answer to the 9 V request: `wait_force9v_rise` of
-- crates/ln8000-kmdf/src/hvdcp.rs. The samples of the input are a parameter, one for each read.
pub mod Bounds
use nabu_charger.Prelude.{
  ℕ, zero, suc, ◌+◌, Bool, true, false, Option, none, some, leb, if◌then◌else◌, sat_add, ℤ, pos,
  ltb_ℤ, leb_ℤ,
}
use nabu_charger.Ln8000.Window.{switching_min_vin_uv}
use nabu_charger.Ln8000.Hvdcp.{
  Force9vWait, continue, extend, stop, force9v_step, force9v_extended_deadline, force9v_settle_ms,
  force9v_hard_cap_ms,
}

abbrev pub force9v_poll_ms : ℕ
force9v_poll_ms = 50

abbrev pub force9v_confirm_n : ℕ
force9v_confirm_n = 2

-- The local variables of the loop, and how many samples were read.
pub record Wait : Type 0 where
  pub waited : ℕ
  pub deadline : ℕ
  pub extended : Bool
  pub last : ℤ
  pub peak : ℤ
  pub confirm : ℕ
  pub reads : ℕ

abbrev pub higher : ℤ → ℤ → ℤ
higher a b = if ltb_ℤ b a then a else b

-- The part of one round before the sleep; `none` is a `break`.
abbrev stepped : Force9vWait → Wait → Option Wait
stepped Force9vWait.stop w = none
stepped Force9vWait.extend w =
    some (record w { deadline = force9v_extended_deadline w.deadline; extended = true })
stepped Force9vWait.continue w = some w

unfoldable pub judge : Wait → Option Wait
judge w =
    if leb_ℤ (pos switching_min_vin_uv) w.last
    then (let confirm = sat_add w.confirm 1 in
        if leb force9v_confirm_n confirm then none else some (record w { confirm = confirm }))
    else stepped (force9v_step w.last w.waited w.deadline w.extended switching_min_vin_uv)
        (record w { confirm = 0 })

module _ (read_vin : ℕ → ℤ) where
  abbrev pub begin : Wait
  begin = record {
    waited = 0;
    deadline = force9v_settle_ms;
    extended = false;
    last = read_vin 0;
    peak = read_vin 0;
    confirm = 0;
    reads = 1;
  }

  -- The sleep and the next sample.
  unfoldable pub poll : Wait → Wait
  poll w = record w {
    waited = sat_add w.waited force9v_poll_ms;
    last = read_vin w.reads;
    peak = higher (read_vin w.reads) w.peak;
    reads = w.reads + 1;
  }

  -- The loop; `none` means that the fuel ran out.
  unfoldable pub wait_loop : ℕ → Wait → Option Wait
  wait_loop zero w = none
  wait_loop (suc fuel) w = elim (judge (record w { peak = higher w.last w.peak })) [
    | none ↦ some (record w { peak = higher w.last w.peak })
    | some w' ↦ elim (leb force9v_hard_cap_ms w'.waited) [
      | true ↦ some w'
      | false ↦ wait_loop fuel (poll w')
    ]
  ]

  -- One round more than the hard cap has polls.
  unfoldable pub wait_force9v_rise : Option Wait
  wait_force9v_rise = wait_loop 101 begin
