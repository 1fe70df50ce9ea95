-- ===== src/Lib.antt =====
-- The LN8000 charge pump core of nabu-charger, the parts of the Windows driver that use it, and the
-- adapter policy of the main charger.
--
-- The pump doubles the current into the battery (2:1, "switching"), passes a 5 V input through
-- (1:1, "bypass"), or stands by. The core decides which of these an input allows, drives the chip
-- over a register bus, watches temperature and current, and keeps the charge indicator steady.
--
-- Which file models which part:
--   Prelude          Booleans, integers, saturating words, lists, results and bit facts;
--                    Prelude/Methods a monad of state and errors, with rules for what a method keeps
--                    (Keeps) and what it ends in (Ends)
--   Ln8000/Regs      crates/ln8000/src/regs.rs
--   Ln8000/Error     crates/ln8000/src/error.rs
--   Ln8000/Mode, Window, Codes
--                    crates/ln8000/src/encoding.rs: modes and small enumerations; the charge
--                    windows and the soft float; the register codes of the limits
--   Ln8000/Status    crates/ln8000/src/status.rs
--   Ln8000/Battery   crates/ln8000/src/battery_policy.rs
--   Ln8000/Hvdcp     crates/ln8000/src/hvdcp_policy.rs
--   Ln8000/Qc35      crates/ln8000/src/qc35_auth.rs
--   Ln8000/Session   crates/ln8000/src/session.rs
--   Ln8000/Guard     crates/ln8000/src/guard.rs
--   Ln8000/Bus       crates/ln8000/src/transport.rs; Bus/Memory is a chip of plain memory
--   Ln8000/Config    `PumpConfig` of crates/ln8000/src/driver.rs
--   Ln8000/Pump      `Pump` of crates/ln8000/src/driver.rs: the session, retries and verified
--                    writes; Pump/Setup the configuration, status and single settings; Pump/Modes
--                    the mode requests; Pump/NearFloat the taper; Pump/Charging `set_charging` and
--                    the recovery of the 5 V fallback; Pump/Ideal the register edits of a method
--                    on a chip of plain memory
--   Kmdf/Force9v     `wait_force9v_rise` of crates/ln8000-kmdf/src/hvdcp.rs
--   Kmdf/Hvdcp       crates/ln8000-kmdf/src/hvdcp.rs as a whole: Access the registers over either bus,
--                    Pulses, Waits, Setup, Qc35 the authentication, Negotiate the negotiation, Band
--                    the voltage aimed at, Correct the corrections afterwards. Steady and Settled
--                    prove what each leaves of the negotiation's own state
--   Kmdf/Renegotiate the timer's decision to negotiate again, in crates/ln8000-kmdf/src/lib.rs
--   Kmdf/Battery     crates/ln8000-kmdf/src/battery.rs: the published percentage and power flags
--   Kmdf/Guarding    `apply_guard` of crates/ln8000-kmdf/src/lib.rs
--   Smb              crates/core: the charger in the PMIC. Regs, Error, Adapter, Apsd, Policy, Icl
--                    and Journal model the files of those names (apsd.rs also in Adapter);
--                    Platform the traits of transport.rs and clock.rs
--   Smb/Charger      `Charger` of crates/core/src/driver.rs: Registers the access with retries and
--                    read-back, Session opening, recovery and close, Detect the detection step,
--                    Apply the policy and the monitoring. Logged, View, Transparent and Closed prove
--                    what the journal, the session's fields and a closed session do
--   Smb/Runner       crates/host/src/runner.rs
--   Spb              crates/spb/src/lib.rs, the transfer lists for the bus driver: Bytes and Layout
--                    prove what an area holds
--   Tests            every property at a concrete input
--
-- How the code corresponds: a struct is a record, an enum a data type, a `&mut self` method a
-- function from the old state to the result and the new state. The methods of `Pump` are in a monad
-- of state and errors in which what was written stays written when a method fails. The bus is any
-- implementor of the trait: a record of four calls over a state of its own, so a theorem about
-- the pump holds for every behaviour of the chip and of the transport, unless it names the chip of
-- plain memory. The caller's delay after a reset is a step of that state. Registry names are
-- strings, compared as the code compares them.
--
-- Numbers are natural numbers and integers; where the code saturates, the model takes the minimum
-- with the largest value of the word, and `saturating_sub` is the subtraction that stops at 0.
-- Arguments of `u8` and `u32` are not bounded in the definitions: a theorem that needs the bound
-- says so.
--
-- Loops: the retries of a register access recurse on the retries that are left; Pump/Retry compares
-- that with the loop as it counts attempts in a `u8`. `settle_and_read_status` has three rounds. The
-- wait for 9 V recurses on fuel that covers its hard cap. The retries of the main charger recurse in
-- the same way, which differs from the counter of the source at the limit 255 only; the host's loop
-- recurses on the steps that are left. The polls of the negotiation have one round more than their
-- time-outs have sleeps.
--
-- Not modelled: log lines, `Display` texts, the getters; the simulators and sockets of the host tools,
-- and the Windows callbacks of crates/kmdf and crates/ln8000-kmdf beyond the functions above, which
-- call into the kernel; the diagnostic marks that the driver keeps in the registry. The opens and
-- transfers of the two buses (spb.rs) are a record of calls that may answer anything.
pub mod Prelude
pub mod Ln8000
pub mod Kmdf
pub mod Smb
pub mod Spb
pub mod Tests
