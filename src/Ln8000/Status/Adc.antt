-- ===== src/Ln8000/Status/Adc.antt =====
-- Slicing a channel out of the packed ADC results, and the range of the decoded values.
use nabu_charger.Prelude.{
  ℕ, ◌+◌, ◌-◌, ◌*◌, ◌/◌, ◌%◌, ◌^◌, ◌≤◌, ◌<◌, ◌≡◌, refl, bit_and, pos, neg, ◌≤ℤ◌, arith,
}
use nabu_charger.Prelude.Bits.{bit_and-low, passes, agree-each}
use nabu_charger.Ln8000.Regs
use nabu_charger.Ln8000.Status.{AdcChannel, register, slice_code, raw_code, convert_code, decode}

-- The high fields of a byte.
high_six : (b : ℕ) → b < 256 → bit_and b 0xfc / 4 ≡ b / 4
unfolding passes
high_six b h = agree-each (λ k. bit_and k 0xfc / 4) (λ k. k / 4) 256 refl b h

high_four : (b : ℕ) → b < 256 → bit_and b 0xf0 / 16 ≡ b / 16
unfolding passes
high_four b h = agree-each (λ k. bit_and k 0xf0 / 16) (λ k. k / 16) 256 refl b h

high_two : (b : ℕ) → b < 256 → bit_and b 0xc0 / 64 ≡ b / 64
unfolding passes
high_two b h = agree-each (λ k. bit_and k 0xc0 / 64) (λ k. k / 64) 256 refl b h

-- Where a channel's ten bits begin inside its first byte.
abbrev pub bit_offset : AdcChannel → ℕ
bit_offset AdcChannel.iin = 0
bit_offset AdcChannel.vbat = 0
bit_offset AdcChannel.vac = 2
bit_offset AdcChannel.die_temp = 2
bit_offset AdcChannel.vin = 4
bit_offset AdcChannel.ts_bat = 4
bit_offset AdcChannel.vout = 6
bit_offset AdcChannel.ts_bus = 6

slice_code-arith :
    (c : AdcChannel) (low high : ℕ)
    → low < 256
    → high < 256
    → slice_code c low high ≡ (high * 256 + low) / 2 ^ bit_offset c % 1024
slice_code-arith AdcChannel.iin low high l h = omega (arith, bit_and-low 2 high)
slice_code-arith AdcChannel.vbat low high l h = omega (arith, bit_and-low 2 high)
slice_code-arith AdcChannel.vac low high l h = omega (arith, bit_and-low 4 high, high_six low l)
slice_code-arith AdcChannel.die_temp low high l h =
    omega (arith, bit_and-low 4 high, high_six low l)
slice_code-arith AdcChannel.vin low high l h = omega (arith, bit_and-low 6 high, high_four low l)
slice_code-arith AdcChannel.ts_bat low high l h = omega (arith, bit_and-low 6 high, high_four low l)
slice_code-arith AdcChannel.vout low high l h = omega (arith, bit_and-low 8 high, high_two low l)
slice_code-arith AdcChannel.ts_bus low high l h = omega (arith, bit_and-low 8 high, high_two low l)

-- The code of a byte pair is the ten bits that begin at the channel's bit offset.
raw_code-arith :
    (c : AdcChannel) (raw : ℕ) → raw < 65536 → raw_code c raw ≡ raw / 2 ^ bit_offset c % 1024
unfolding raw_code
raw_code-arith c raw h =
    let low : bit_and raw 255 ≡ raw % 256 = bit_and-low 8 raw in
    let high : bit_and (raw / 256) 255 ≡ raw / 256 % 256 = bit_and-low 8 (raw / 256) in
    let whole : raw / 256 % 256 * 256 + raw % 256 ≡ raw = omega arith in
    rw (low, high)
      (rw whole at (slice_code-arith c (raw % 256) (raw / 256 % 256) (omega arith) (omega arith)))

-- Byte `i` of the packed results, and the pair that `RegisterBus::read_pair` returns there.
abbrev pub byte_at : ℕ → ℕ → ℕ
byte_at stream i = stream / 2 ^ (8 * i) % 256

abbrev pub pair_at : ℕ → ℕ → ℕ
pair_at stream addr =
    let i = addr - Regs.adc_first_sts in byte_at stream i + byte_at stream (i + 1) * 256

-- The place of a channel in the stream of ten-bit codes.
abbrev pub stream_place : AdcChannel → ℕ
stream_place AdcChannel.iin = 0
stream_place AdcChannel.vac = 1
stream_place AdcChannel.vin = 2
stream_place AdcChannel.vout = 3
stream_place AdcChannel.vbat = 4
stream_place AdcChannel.die_temp = 5
stream_place AdcChannel.ts_bat = 6
stream_place AdcChannel.ts_bus = 7

-- Whatever the packed results are, the pair read at a channel's register holds, after slicing, the
-- ten bits at the channel's place among the eight codes.
pub raw_code-stream :
    (c : AdcChannel) (stream : ℕ)
    → raw_code c (pair_at stream (register c)) ≡ stream / 2 ^ (10 * stream_place c) % 1024
raw_code-stream c stream =
    rw (raw_code-arith c (pair_at stream (register c)) (omega arith)) (places c stream)
  where
    places :
        (c : AdcChannel) (stream : ℕ)
        → pair_at stream (register c) / 2 ^ bit_offset c % 1024
          ≡ stream / 2 ^ (10 * stream_place c) % 1024
    places AdcChannel.vout n = omega arith
    places _ n = omega arith

convert_code-range :
    (c : AdcChannel) (code : ℕ)
    → code < 1024
    → (neg 250 ≤ℤ convert_code c code) × (convert_code c code ≤ℤ pos 16_448_000)
convert_code-range AdcChannel.die_temp code h = ground arith
convert_code-range _ code h = ground arith

-- Every reading of every channel fits an `i32` with room to spare, and only a temperature can be
-- negative, by 25.0 degrees at most.
decode-range :
    (c : AdcChannel) (raw : ℕ)
    → raw < 65536
    → (neg 250 ≤ℤ decode c raw) × (decode c raw ≤ℤ pos 16_448_000)
unfolding decode
decode-range c raw h = convert_code-range c (raw_code c raw) (omega (arith, raw_code-arith c raw h))

-- A die temperature lies between -25.0 and 160.0 degrees, the all-zero code that a failed channel
-- gives reads as 160.0, and a larger code never reads as a hotter die.
die_temp-antitone :
    (a b : ℕ)
    → a ≤ b
    → b < 1024
    → (convert_code AdcChannel.die_temp b ≤ℤ convert_code AdcChannel.die_temp a)
      × (neg 250 ≤ℤ convert_code AdcChannel.die_temp b)
      × (convert_code AdcChannel.die_temp a ≤ℤ pos 1_600)
      × (convert_code AdcChannel.die_temp 0 ≡ pos 1_600)
die_temp-antitone a b le h = ground arith
