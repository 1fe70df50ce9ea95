-- ===== src/Ln8000/Pump/Retry.antt =====
-- The retry loop of the register access, against the loop as the source counts it, and what any
-- register access leaves alone.
use nabu_charger.Prelude.{
  ℕ, zero, suc, ◌+◌, ◌<◌, ◌≡◌, Bool, true, false, ◌&&◌, Option, none, some, leb, min, u8_max,
  Result, ok, err, arith, refl,
}
use nabu_charger.Ln8000.Error.{BusError, PumpError, bus_recoverable}
use nabu_charger.Ln8000.Bus.{RegisterBus}
use nabu_charger.Ln8000.Pump.{Pump, PumpState, Op, give_up, last_call, cure, retried, retry}

module _ {B A : Type 0} (io : RegisterBus B) (call : B → Result A BusError × B)
    (count : Pump B → Pump B) where
  -- The loop with its `u8` counter of attempts; `none` while it has not ended.
  pub counted : ℕ → ℕ → Pump B → Option (Result A PumpError × Pump B)
  counted zero attempt p = none
  counted (suc fuel) attempt p =
      let (r, b) = call p.bus in
      elim r [
        | ok a ↦ some (ok a, count (record p { bus = b }))
        | err e ↦
            elim (bus_recoverable e && leb (min (attempt + 1) u8_max) p.config.max_bus_retries) [
              | true ↦
                  counted fuel (min (attempt + 1) u8_max)
                    (record p { bus = (io.reset_channel b).1 })
              | false ↦ some (give_up io e b p)
            ]
      ]

  -- While the limit is below 255 the counted loop ends after at most one call more than the limit,
  -- with what the model's recursion returns.
  pub counted-retry :
      (left attempt fuel : ℕ) (p : Pump B)
      → attempt + left ≡ p.config.max_bus_retries
      → p.config.max_bus_retries < 255
      → left < fuel
      → counted fuel attempt p ≡ some (retry io call count left p)
  unfolding counted retry
  counted-retry left attempt zero p e small enough = absurd (omega arith)
  counted-retry zero attempt (suc fuel) p e small enough = ground arith
  counted-retry (suc left) attempt (suc fuel) p e small enough =
      let next : min (attempt + 1) u8_max ≡ attempt + 1 = omega arith in
      let again =
        counted-retry left (attempt + 1) fuel
          (record p { bus = (io.reset_channel (call p.bus).1).1 }) (omega arith) small
          (omega arith) in
      ground (arith, next, again)

  -- At the limit 255 the saturating counter never passes it: on a bus whose every call fails in a
  -- way that a reset may cure, the loop has not ended after any number of rounds.
  pub counted-endless :
      (fuel attempt : ℕ) (p : Pump B)
      → p.config.max_bus_retries ≡ 255
      → ((b : B) → (e : BusError) × ((call b).0 ≡ err e) × (bus_recoverable e ≡ true))
      → counted fuel attempt p ≡ none
  unfolding counted
  counted-endless zero attempt p limit fails = refl
  counted-endless (suc fuel) attempt p limit fails =
      let (e, failed, curable) = fails p.bus in
      let again =
        counted-endless fuel (min (attempt + 1) u8_max)
          (record p { bus = (io.reset_channel (call p.bus).1).1 }) limit fails in
      let allowed : leb (min (attempt + 1) u8_max) p.config.max_bus_retries ≡ true = ground arith in
      ground (arith, failed, curable, allowed, again)

-- Everything but the bus, the counters and the state is as it was.
abbrev pub Kept : {B : Type 0} → Pump B → Pump B → Type 0
Kept p q =
    (q.config ≡ p.config)
    × (q.op_mode ≡ p.op_mode)
    × (q.bypass_stage ≡ p.bypass_stage)
    × (q.por_vin_uv ≡ p.por_vin_uv)

-- What a register access of `p` may come to: the state changes only to `faulted`, when it fails.
abbrev pub Contained : {B A : Type 0} → Pump B → Result A PumpError × Pump B → Type 0
Contained p (ok a, q) = Kept p q × (q.state ≡ p.state)
Contained p (err e, q) = Kept p q × (q.state ≡ PumpState.faulted)

module _ {B A : Type 0} (io : RegisterBus B) (count : Pump B → Pump B) where
  module _ (keeps : (p : Pump B) → Kept p (count p) × ((count p).state ≡ p.state)) where
    last_call-Contained :
        (r : Result A BusError) (b : B) (p : Pump B) → Contained p (last_call io count r b p)
    last_call-Contained (ok a) b p = keeps (record p { bus = b })
    last_call-Contained (err e) b p = ((refl, refl, refl, refl), refl)

    cure-Contained :
        (c : Bool) (again : Op B A) (e : BusError) (b : B) (p : Pump B)
        → ((q : Pump B) → Contained q (again q))
        → Contained p (cure io c again e b p)
    cure-Contained true again e b p h = h (record p { bus = (io.reset_channel b).1 })
    cure-Contained false again e b p h = ((refl, refl, refl, refl), refl)

    retried-Contained :
        (again : Op B A) (r : Result A BusError) (b : B) (p : Pump B)
        → ((q : Pump B) → Contained q (again q))
        → Contained p (retried io count again r b p)
    retried-Contained again (ok a) b p h = keeps (record p { bus = b })
    retried-Contained again (err e) b p h = cure-Contained (bus_recoverable e) again e b p h

    pub retry-Contained :
        (call : B → Result A BusError × B) (left : ℕ) (p : Pump B)
        → Contained p (retry io call count left p)
    unfolding retry
    retry-Contained call zero p = last_call-Contained (call p.bus).0 (call p.bus).1 p
    retry-Contained call (suc left) p =
        retried-Contained (retry io call count left) (call p.bus).0 (call p.bus).1 p
          (retry-Contained call left)
