-- ===== src/Ln8000/Bus/Memory.antt =====
-- An ideal chip: its registers are plain memory and no transfer fails.
use nabu_charger.Prelude.{ℕ, ◌+◌, ◌*◌, ◌==◌, if◌then◌else◌, bit_or, ok}
use nabu_charger.Ln8000.Bus.{RegisterBus}

abbrev pub Image : Type 0
Image = ℕ → ℕ

abbrev pub put : ℕ → ℕ → Image → Image
put addr value image k = if k == addr then value else image k

abbrev pub memory : RegisterBus Image
memory = record {
  read_byte = λ addr image. (ok (image addr), image);
  write_byte = λ addr value image. (ok tt, put addr value image);
  reset_channel = λ image. (ok tt, image);
  read_word = λ addr image. (ok (bit_or (image addr) (image (addr + 1) * 256)), image);
}
