-- ===== src/Ln8000/Bus.antt =====
-- The register bus (crates/ln8000/src/transport.rs): the trait as an interface over the state `B`
-- of an implementor, and its two provided methods.
pub mod Memory
use nabu_charger.Prelude.{ℕ, ◌+◌, ◌-◌, ◌*◌, ◌%◌, bit_and, bit_or, Result, ok, err}
use nabu_charger.Ln8000.Error.{BusError}

-- Every call leaves the implementor in a new state, whether it fails or not.
pub record RegisterBus (B : Type 0) : Type 0 where
  pub read_byte : ℕ → B → Result ℕ BusError × B
  pub write_byte : ℕ → ℕ → B → Result Unit BusError × B
  pub reset_channel : B → Result Unit BusError × B
  pub read_word : ℕ → B → Result ℕ BusError × B

-- `(current & !mask) | (value & mask)` on bytes.
unfoldable pub merge : ℕ → ℕ → ℕ → ℕ
merge current mask value = bit_or (bit_and current (255 - mask)) (bit_and value mask)

module _ {B : Type 0} (read : ℕ → B → Result ℕ BusError × B) where
  after_high : ℕ → Result ℕ BusError × B → Result ℕ BusError × B
  after_high low (ok high, b) = (ok (bit_or low (high * 256)), b)
  after_high low (err e, b) = (err e, b)

  after_low : ℕ → Result ℕ BusError × B → Result ℕ BusError × B
  unfolding after_high
  after_low addr (ok low, b) = after_high low (read ((addr + 1) % 256) b)
  after_low addr (err e, b) = (err e, b)

  -- The provided `read_pair`: two single reads, the address wrapping.
  unfoldable pub read_pair_default : ℕ → B → Result ℕ BusError × B
  unfolding after_low
  read_pair_default addr b = after_low addr (read addr b)

  module _ (write : ℕ → ℕ → B → Result Unit BusError × B) where
    after_current : ℕ → ℕ → ℕ → Result ℕ BusError × B → Result Unit BusError × B
    after_current addr mask value (ok current, b) = write addr (merge current mask value) b
    after_current addr mask value (err e, b) = (err e, b)

    -- The provided `update_bits`.
    unfoldable pub update_bits : ℕ → ℕ → ℕ → B → Result Unit BusError × B
    unfolding after_current
    update_bits addr mask value b = after_current addr mask value (read addr b)
