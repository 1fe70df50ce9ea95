-- ===== src/Tests/Hvdcp.antt =====
-- The negotiation with a Quick Charge 3 adapter on registers of plain memory, at an input of 5 V.
use nabu_charger.Prelude.{◌+◌, ◌≤◌, ◌<◌, ◌≡◌, refl, none, some, ◌==◌, if◌then◌else◌, pos, arith}
use nabu_charger.Prelude.Methods.{pure, ◌>>=◌}
use nabu_charger.Prelude.Methods.Ends.{Done}
use nabu_charger.Ln8000.Mode.{switching}
use nabu_charger.Ln8000.Window.{charge_mode}
use nabu_charger.Ln8000.Bus.Memory.{Image, put}
use nabu_charger.Ln8000.Qc35.{qc35_detect_window}
use nabu_charger.Kmdf.Hvdcp.{new_state, SuperuserBus, superuser, Machine, Session}
use nabu_charger.Kmdf.Hvdcp.Band.{
  target_vbus_uv, trim_target_uv, window_floor_uv, estimated_vbus_uv, pulses_toward_target,
}
use nabu_charger.Kmdf.Hvdcp.Band.Target.{target_vbus-fits}
use nabu_charger.Kmdf.Hvdcp.Waits.{
  poll_until, sample_vin, wait_vin_window, sample_apsd, or_timeout, wait_apsd_done,
  qc35_vin_poll_ms, rise_loop, first_sample, wait_rise, read_vin,
}
use nabu_charger.Kmdf.Hvdcp.Waits.Enough.{waits-end}
use nabu_charger.Kmdf.Hvdcp.Negotiate.{run_negotiate}
use nabu_charger.Kmdf.Hvdcp.Settled.Whole.{Negotiated, GivenUp, run_negotiate-Settles}

abbrev privileged : SuperuserBus Image
privileged = record {
  grant = λ peri image. (some tt, image);
  read_u8 = λ sid addr image. (some (image addr), image);
  write_u8 = λ sid addr value image. (some tt, put addr value image);
  drop = λ image. image;
}

abbrev machine : Machine Image
machine = record {
  sleep = λ ms image. image;
  vin = λ image. (pos 5_000_000, image);
  open_superuser = λ image. (some privileged, image);
  open_spb = λ id image. (none, image);
}

abbrev qc3_adapter : Session Image
qc3_adapter = record {
  world = λ k. if k == 0x1307 then 0x03 else if k == 0x1308 then 0x48 else 0;
  state = new_state;
}

run_negotiate-Settles_example :
    Done
      (λ u q. Negotiated q.state)
      (λ e q. GivenUp q.state)
      (run_negotiate machine none 4_400_000 qc3_adapter)
run_negotiate-Settles_example =
    run_negotiate-Settles machine 4_400_000 none qc3_adapter refl (omega arith)

target_vbus-fits_example :
    (charge_mode (pos (target_vbus_uv 4_400_000)) 4_400_000 ≡ some switching)
    × (window_floor_uv 4_400_000 ≤ target_vbus_uv 4_400_000)
    × (target_vbus_uv 4_400_000 ≤ trim_target_uv 4_400_000)
    × (target_vbus_uv 4_400_000 ≤ estimated_vbus_uv (pulses_toward_target 4_400_000))
    × (estimated_vbus_uv (pulses_toward_target 4_400_000) < target_vbus_uv 4_400_000 + 200_000)
target_vbus-fits_example = target_vbus-fits 4_400_000 (omega arith) (omega arith)

waits-end_example :
    (poll_until machine
        (sample_vin machine qc35_detect_window)
        200
        qc35_vin_poll_ms
        (pure (some (pos 0)))
        15
        0
        qc3_adapter
      ≡ wait_vin_window machine 200 qc35_detect_window qc3_adapter)
    × ((poll_until machine
              (sample_apsd machine (superuser privileged))
              2_000
              200
              (pure (some tt))
              12
              0
            >>= or_timeout machine)
          qc3_adapter
        ≡ wait_apsd_done machine (superuser privileged) qc3_adapter)
    × ((read_vin machine >>= λ v. rise_loop machine pure 101 (first_sample machine v)) qc3_adapter
        ≡ wait_rise machine qc3_adapter)
waits-end_example =
    waits-end machine qc35_detect_window 200 (superuser privileged) (pure (some (pos 0)))
      (pure (some tt)) pure qc3_adapter (omega arith)
